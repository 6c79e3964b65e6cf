-- ===== src/Preparation.antt =====
-- crates/pronk/src/preparation.rs: from the capabilities of a device to the monitor that it appears as. A
-- text is its UTF-8 bytes, and `none` is a panic where a function returns an `Option` of a `Result`.
pub mod Device
pub mod Offer
pub mod Selection
pub mod Requests
pub mod Inputs
pub mod Shortage
pub mod Reported
pub mod Outcome
use pronk.Common.{
  ℕ, ◌≡◌, Bool, true, false, ◌&&◌, ◌||◌, not, Option, none, some, is_some, List, [], ◌∷◌, ◌++◌, ltb,
  ◌==◌, eqb, if◌then◌else◌, length, take, Bytes, Bytes-discrete, ℕ_discrete, Result, ok, err, ◌>>=◌,
  ◌>>◌, String, codes,
}
use pronk.Protocol.{ValidationError, between, DeviceAvailability}
use pronk.Protocol.Session.{
  DisplayMode, VideoProfile, AudioProfile, IdentitySource, is_vouched, DisplayIdentity,
  DeviceCapabilities, has_audio, has_control_feature, validate_capabilities,
}
use pronk.Protocol.Media.{PreparationRequest}
use pronk.Edid.Timings.{EdidMode, timing_for}
use pronk.Edid.Blocks.{PnpId, EdidNumericIdentity, contains_mode}
use pronk.Edid.Request.{
  TextLibraries, CastDisplayEdidError, CastDisplayEdidRequest, all_bytes,
  edid_product_name_max_bytes, max_edid_modes,
}
use pronk.Edid.Build.{GeneratedCastDisplayEdid, build_cast_display_edid}
use pronk.Identity.Values.{LineLibraries, PnpIdError, ResolvedPnpId, PnpIdResolver}
use pronk.Identity.{resolve}
use pronk.DisplaySlot.Values.{DeviceInfo}
use pronk.DisplaySlot.{is_available}
use Device.{DeviceError, check_device}

pub data PrepareCastDeviceError : Type 0 where
  invalid_device : DeviceError → PrepareCastDeviceError
  device_unavailable : DeviceAvailability → PrepareCastDeviceError
  invalid_capabilities : ValidationError → PrepareCastDeviceError
  unsupported_identity_source : String → IdentitySource → PrepareCastDeviceError
  pnp : PnpIdError → PrepareCastDeviceError
  no_supported_mode missing_required_640x480 : PrepareCastDeviceError
  edid : CastDisplayEdidError → PrepareCastDeviceError

pub record PreparedIdentityProvenance : Type 0 where
  pub manufacturer_source : IdentitySource
  pub product_source : IdentitySource
  pub display_name_omitted_from_edid : Bool

pub record PreparedCastDevice : Type 0 where
  pub device : DeviceInfo
  pub capabilities : DeviceCapabilities
  pub pnp_resolution : ResolvedPnpId
  pub provenance : PreparedIdentityProvenance
  pub generated_edid : GeneratedCastDisplayEdid

abbrev pub Prepare {ℓ} : Type ℓ → Type ℓ
Prepare A = Result PrepareCastDeviceError A

unfoldable pub require_usable_identity_source :
    String → Option Bytes → IdentitySource → Prepare (Unit {0})
require_usable_identity_source field value source =
    if is_some value && not (is_vouched source)
    then err (unsupported_identity_source field source)
    else ok tt

abbrev pub safe_name : Bytes → Option Bytes
safe_name value =
    if (length value == 0)
      || ltb edid_product_name_max_bytes (length value)
      || not (all_bytes (between 32 126) value)
    then none
    else some value

unfoldable pub edid_safe_product_name : TextLibraries → Bytes → Option Bytes
edid_safe_product_name text value = safe_name (text.trim value)

-- The modes with a timing, each once, in their order.
abbrev pub edid_mode : DisplayMode → EdidMode
edid_mode mode = record {
  width = mode.width;
  height = mode.height;
  refresh_millihz = mode.refresh_millihz;
}

unfoldable pub supported_modes : List EdidMode → List DisplayMode → List EdidMode
supported_modes supported [] = supported
supported_modes supported (mode ∷ rest) =
    supported_modes
      (if not (is_some (timing_for (edid_mode mode)))
        then supported
        else if contains_mode (edid_mode mode) supported
        then supported
        else supported ++ (edid_mode mode ∷ []))
      rest

abbrev pub required_mode : EdidMode
required_mode = record { width = 640; height = 480; refresh_millihz = 60000 }

abbrev pub replace_last : EdidMode → List EdidMode → List EdidMode
replace_last mode [] = []
replace_last mode (x ∷ []) = mode ∷ []
replace_last mode (x ∷ y ∷ rest) = x ∷ replace_last mode (y ∷ rest)

abbrev pub with_required : List EdidMode → List EdidMode
with_required selected =
    if contains_mode required_mode selected then selected else replace_last required_mode selected

unfoldable pub select_initial_modes : DeviceCapabilities → Prepare (List EdidMode)
select_initial_modes capabilities =
    let supported = supported_modes [] capabilities.modes in
    if length supported == 0
    then err no_supported_mode
    else if not (contains_mode required_mode supported)
    then err missing_required_640x480
    else ok (with_required (take max_edid_modes supported))

abbrev pub mapped {ℓ κ} :
    {E : Type ℓ} {A : Type κ} → (E → PrepareCastDeviceError) → Result E A → Prepare A
mapped f (ok a) = ok a
mapped f (err e) = err (f e)

-- `as_deref().and_then(edid_safe_product_name)`.
abbrev pub safe_product : TextLibraries → Option Bytes → Option Bytes
safe_product text none = none
safe_product text (some value) = edid_safe_product_name text value

abbrev pub require_available : DeviceInfo → Prepare (Unit {0})
require_available device =
    if is_available device then ok tt else err (device_unavailable device.availability)

-- The checks before the identifier is resolved.
unfoldable pub check_inputs : (ℕ → Bytes) → DeviceInfo → DeviceCapabilities → Prepare (Unit {0})
check_inputs to_string device capabilities =
    let identity = capabilities.display_identity in
    mapped invalid_device (check_device device)
    >> require_available device
    >> mapped invalid_capabilities (validate_capabilities to_string capabilities)
    >> require_usable_identity_source "manufacturer" identity.manufacturer_name
        identity.manufacturer_source
    >> require_usable_identity_source "product" identity.product_name identity.product_source

abbrev pub edid_request :
    TextLibraries
    → DeviceInfo
    → DeviceCapabilities
    → Bool
    → PnpId
    → List EdidMode
    → CastDisplayEdidRequest
edid_request text device capabilities audio_enabled pnp_id modes = record {
  pnp_id = pnp_id;
  manufacturer_name = capabilities.display_identity.manufacturer_name;
  product_name = safe_product text capabilities.display_identity.product_name;
  display_name = edid_safe_product_name text device.display_name;
  backend_id = device.backend_id;
  device_id = device.device_id;
  modes = modes;
  audio = audio_enabled && has_audio capabilities.features;
  cec_physical_address = if has_control_feature capabilities.features then some 4096 else none;
}

-- `?` on a call that may panic.
abbrev pub try_call {ℓ κ μ} :
    {E : Type ℓ} {A : Type κ} {B : Type μ}
    → (E → PrepareCastDeviceError)
    → Option (Result E A)
    → (A → Option (Prepare B))
    → Option (Prepare B)
try_call f none k = none
try_call f (some (err e)) k = some (err (f e))
try_call f (some (ok a)) k = k a

module _ (text : TextLibraries) (lines : LineLibraries) (to_string : ℕ → Bytes) where
  abbrev pub prepared :
      DeviceInfo
      → DeviceCapabilities
      → ResolvedPnpId
      → GeneratedCastDisplayEdid
      → PreparedCastDevice
  prepared device capabilities resolution generated = record {
    device = device;
    capabilities = capabilities;
    pnp_resolution = resolution;
    provenance = record {
      manufacturer_source = capabilities.display_identity.manufacturer_source;
      product_source = capabilities.display_identity.product_source;
      display_name_omitted_from_edid =
          not (is_some (edid_safe_product_name text device.display_name));
    };
    generated_edid = generated;
  }

  abbrev pub with_resolution :
      DeviceInfo → DeviceCapabilities → Bool → ResolvedPnpId → Option (Prepare PreparedCastDevice)
  with_resolution device capabilities audio_enabled resolution =
      try_call (λ e. e) (some (select_initial_modes capabilities))
        (λ modes.
          try_call edid
            (build_cast_display_edid text
              (edid_request text device capabilities audio_enabled resolution.pnp_id modes))
            (λ generated. some (ok (prepared device capabilities resolution generated))))

  unfoldable pub from_capabilities :
      DeviceInfo → DeviceCapabilities → PnpIdResolver → Bool → Option (Prepare PreparedCastDevice)
  from_capabilities device capabilities resolver audio_enabled =
      let identity = capabilities.display_identity in
      try_call (λ e. e) (some (check_inputs to_string device capabilities))
        (λ _.
          try_call pnp (resolve text lines resolver identity.pnp_id identity.manufacturer_name)
            (with_resolution device capabilities audio_enabled))
