-- ===== src/Preparation/Outcome.antt =====
-- What `PreparedCastDevice::from_capabilities` of crates/pronk/src/preparation.rs gives.
use pronk.Common.{
  ℕ, ◌≡◌, Bool, true, false, not, Option, none, some, List, [], ◌∷◌, length, Bytes, Result, ok, err,
  refl, arith, Result-cases, inl, inr, subst, All,
}
use pronk.Protocol.{any}
use pronk.Protocol.Session.{IdentitySource, DeviceCapabilities, is_uppercase, validate_capabilities}
use pronk.Protocol.Capabilities.{IsPnp, validate_capabilities_lem}
use pronk.Edid.Timings.{EdidMode}
use pronk.Edid.Blocks.{PnpId}
use pronk.Edid.Panics.{Gives, gives}
use pronk.Edid.Request.{TextLibraries, CastDisplayEdidError, validate_request}
use pronk.Edid.Build.{GeneratedCastDisplayEdid, build_cast_display_edid}
use pronk.Edid.Framing.{IsFramed}
use pronk.Edid.Generated.{
  IsOutcome, refused, generated, block_count, build_cast_display_edid-IsOutcome,
}
use pronk.Identity.Values.{
  LineLibraries, ResolvedPnpId, PnpIdResolver, PnpAlias, parse, bytes_pnp, authenticated_pnp_id,
}
use pronk.Identity.{resolve, resolution, from_database}
use pronk.Identity.Priority.{resolve-Answers}
use pronk.DisplaySlot.Values.{DeviceInfo}
use pronk.DisplaySlot.{is_available}
use pronk.Preparation.Device.{check_device}
use pronk.Preparation.{
  edid, PreparedCastDevice, Prepare, select_initial_modes, check_inputs, edid_request, try_call,
  prepared, with_resolution, from_capabilities,
}
use pronk.Preparation.Selection.{select_initial_modes-valid}
use pronk.Preparation.Shortage.{select_initial_modes-refusal}
use pronk.Preparation.Inputs.{IsFit, Refusal, Checked, check_inputs-Checked}
use pronk.Preparation.Reported.{IsReported, select_initial_modes-IsReported}
use pronk.Edid.Request.{validate_modes}
use pronk.Edid.Reading.{HasIdentity, Announces}
use pronk.Preparation.Requests.{Trims, edid_request-ok}

parse-ok :
    (value : Bytes)
    → length value ≡ 3
    → any (λ b. not (is_uppercase b)) value ≡ false
    → (pnp_id : PnpId) × (parse value ≡ ok pnp_id)
unfolding parse bytes_pnp
parse-ok [] l h = absurd (omega (arith, l))
parse-ok (a ∷ []) l h = absurd (omega (arith, l))
parse-ok (a ∷ b ∷ []) l h = absurd (omega (arith, l))
parse-ok (a ∷ b ∷ c ∷ []) l h =
    (record { first_letter = a; second_letter = b; third_letter = c }, ground (arith, h))
parse-ok (a ∷ b ∷ c ∷ d ∷ rest) l h = absurd (omega (arith, l))

module _ (text : TextLibraries) (lines : LineLibraries) (to_string : ℕ → Bytes) where
  resolve-ok :
      (database : Bytes) (aliases : List PnpAlias) (fallback : PnpId) (r : PnpIdResolver)
      → from_database text lines database aliases fallback ≡ ok r
      → (pnp_id : Option Bytes) (source : IdentitySource) (name : Option Bytes)
      → IsPnp pnp_id source
      → (answer : ResolvedPnpId) × (resolve text lines r pnp_id name ≡ some (ok answer))
  unfolding resolve
  resolve-ok database aliases fallback r e none source none h = (_, refl)
  resolve-ok database aliases fallback r e none source (some name) h =
      let (answer, given, _, _) = resolve-Answers text lines database aliases fallback r e name in
      (answer, given)
  resolve-ok database aliases fallback r e (some value) source name h =
      let (pnp_id, parsed) = parse-ok value h.0 h.1 in
      (resolution r pnp_id authenticated_pnp_id 1, rw parsed refl)

  check_inputs-valid :
      (device : DeviceInfo) (c : DeviceCapabilities)
      → check_inputs to_string device c ≡ ok tt
      → (check_device device ≡ ok tt)
        × (is_available device ≡ true)
        × (validate_capabilities to_string c ≡ ok tt)
  unfolding check_inputs
  check_inputs-valid device c e = ground (arith, e)

  -- A device that is prepared passes every check, and has an EDID that fits its modes, each of them a
  -- mode that it reports; a refusal has one of the reasons there are.
  abbrev pub IsPreparation : DeviceInfo → DeviceCapabilities → Prepare PreparedCastDevice → Type 0
  IsPreparation device c (ok p) =
      (p.device ≡ device)
      × (p.capabilities ≡ c)
      × IsFit device c
      × (validate_modes p.generated_edid.modes ≡ ok tt)
      × All (IsReported c.modes) p.generated_edid.modes
      × IsFramed (block_count p.generated_edid.display_name) p.generated_edid.edid
      × HasIdentity p.generated_edid.identity p.generated_edid.edid
      × Announces p.generated_edid.modes p.generated_edid.edid
  IsPreparation device c (err e) = Refusal device c e

  abbrev generation :
      DeviceInfo
      → DeviceCapabilities
      → ResolvedPnpId
      → Option (Result CastDisplayEdidError GeneratedCastDisplayEdid)
      → Option (Prepare PreparedCastDevice)
  generation device c resolution given =
      try_call edid given (λ g. some (ok (prepared text lines to_string device c resolution g)))

  with_edid :
      (device : DeviceInfo) (c : DeviceCapabilities) (audio : Bool) (resolution : ResolvedPnpId)
      (modes : List EdidMode)
      (given : Option (Result CastDisplayEdidError GeneratedCastDisplayEdid))
      → IsFit device c
      → select_initial_modes c ≡ ok modes
      → ((names : Option Bytes × Option Bytes × Option Bytes) × (validate_request text
              (edid_request text device c audio resolution.pnp_id modes)
            ≡ ok names))
      → Gives (IsOutcome text (edid_request text device c audio resolution.pnp_id modes)) given
      → Gives (IsPreparation device c) (generation device c resolution given)
  with_edid device c audio resolution modes (some _) here selected (names, valid)
        (gives (refused e)) =
      absurd (cc (valid, e))
  with_edid device c audio resolution modes (some _) here selected valid
        (gives (generated e identity same framed says starts)) =
      gives (
        refl,
        refl,
        here,
        rw same (select_initial_modes-valid c modes selected),
        rw same (select_initial_modes-IsReported c modes selected),
        framed,
        says,
        starts,
      )
  with_edid device c audio resolution modes none here selected valid g = elim g [ ]

  with_resolution-Gives :
      (device : DeviceInfo) (c : DeviceCapabilities) (audio : Bool) (resolution : ResolvedPnpId)
      → Trims text
      → check_inputs to_string device c ≡ ok tt
      → Gives
          (IsPreparation device c)
          (with_resolution text lines to_string device c audio resolution)
  with_resolution-Gives device c audio resolution trims e =
      let (valid, here, admitted) = check_inputs-valid device c e in
      let fit = subst (Checked device c) e (check_inputs-Checked to_string device c) in
      elim (Result-cases (select_initial_modes c)) [
        | inr (error, s) ↦ rw s (gives (select_initial_modes-refusal device c error s))
        | inl (modes, s) ↦ rw s (
            with_edid device c audio resolution modes
              (build_cast_display_edid text
                (edid_request text device c audio resolution.pnp_id modes))
              fit s
              (edid_request-ok text device c audio resolution.pnp_id modes trims valid
                ((validate_capabilities_lem to_string c).0 admitted)
                (select_initial_modes-valid c modes s))
              (build_cast_display_edid-IsOutcome text
                (edid_request text device c audio resolution.pnp_id modes)))
      ]

  -- Where trimming takes only from the ends of a text, preparing a device with a resolver made from a
  -- database does not panic. If it succeeds, the device is sound and available, its capabilities are valid
  -- and each of its names has a source that vouches for it; the modes are valid modes that it reports;
  -- and the EDID has the header, its number of blocks, blocks that each sum to 0, its identity at its
  -- place, and a first descriptor that reads as the timing of the first mode. If it fails, the error
  -- names one of these that does not hold, or no reported mode has a timing, or none is 640 by 480 at 60 Hz:
  -- neither the PNP identifier nor the EDID can fail.
  pub from_capabilities-IsPreparation :
      (database : Bytes) (aliases : List PnpAlias) (fallback : PnpId) (r : PnpIdResolver)
      → Trims text
      → from_database text lines database aliases fallback ≡ ok r
      → (device : DeviceInfo) (c : DeviceCapabilities) (audio : Bool)
      → Gives (IsPreparation device c) (from_capabilities text lines to_string device c r audio)
  unfolding from_capabilities
  from_capabilities-IsPreparation database aliases fallback r trims built device c audio =
      elim (Result-cases (check_inputs to_string device c)) [
        | inr (error, e) ↦
            rw (from_capabilities, e)
              (gives (subst (Checked device c) e (check_inputs-Checked to_string device c)))
        | inl (tt, e) ↦
            let (valid, here, admitted) = check_inputs-valid device c e in
            let identity = ((validate_capabilities_lem to_string c).0 admitted).identity in
            let names = c.display_identity in
            let (answer, resolved) =
              resolve-ok database aliases fallback r built names.pnp_id names.manufacturer_source
                names.manufacturer_name identity.pnp in
            rw (from_capabilities, e, resolved)
              (with_resolution-Gives device c audio answer trims e)
      ]
