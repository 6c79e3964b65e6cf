-- ===== src/Preparation/Inputs.antt =====
-- Which devices crates/pronk/src/preparation.rs prepares, said without the order of its tests, and why it
-- refuses the others.
use pronk.Common.{
  ℕ, ◌≤◌, ◌≡◌, ◌≢◌, ◌↔◌, ◌⊎◌, true, false, not, Option, none, some, List, [], ◌∷◌, arith, refl,
  length, All, Bytes, Bytes-discrete, ok, err, String, Bool-cases, Result-cases, inl, inr, ◌>>◌,
}
use pronk.Protocol.{any, is_backend_id_byte, DiscoveryMetadataEntry, available, ValidationError}
use pronk.Protocol.Admission.{IsText, Distinct, keys_of, seen_lem}
use pronk.Protocol.Session.{IdentitySource, DeviceCapabilities, validate_capabilities}
use pronk.Protocol.Capabilities.{IsCapabilities, IsVouched, validate_capabilities_lem}
use pronk.Edid.Timings.{timing_for}
use pronk.DisplaySlot.Values.{DeviceInfo, Availability-discrete}
use pronk.DisplaySlot.{is_available}
use pronk.Preparation.Device.{
  DeviceError, check_text, check_backend_id, check_nonzero, check_metadata, check_device,
}
use pronk.Preparation.{
  PrepareCastDeviceError, invalid_device, device_unavailable, invalid_capabilities,
  unsupported_identity_source, no_supported_mode, missing_required_640x480,
  require_usable_identity_source, edid_mode, check_inputs, Prepare,
}

abbrev pub IsEntry : DiscoveryMetadataEntry → Type 0
IsEntry entry = IsText entry.key 64 × IsText entry.value 256

-- The texts of the device are texts, its generations are not zero, and it has at most 16 entries
-- under different keys.
pub record IsSound (device : DeviceInfo) : Type 0 where
  pub backend : IsText device.backend_id 64
  pub backend_bytes : any (λ b. not (is_backend_id_byte b)) device.backend_id ≡ false
  pub id : IsText device.device_id 256
  pub name : IsText device.display_name 256
  pub connection : device.connection_generation ≢ 0
  pub discovery : device.discovery_generation ≢ 0
  pub revised : device.device_revision ≢ 0
  pub few : length device.metadata ≤ 16
  pub entries : All IsEntry device.metadata
  pub keys : Distinct [] (keys_of device.metadata)

-- A name is used only from a source that vouches for it.
abbrev pub IsUsable : Option Bytes → IdentitySource → Type 0
IsUsable none source = Unit {0}
IsUsable (some name) source = IsVouched source

check_text_lem :
    (field : String) (value : Bytes) (limit : ℕ)
    → (check_text field value limit ≡ ok tt) ↔ IsText value limit
unfolding check_text
check_text_lem field value limit = ground arith

check_metadata_lem :
    (keys : List Bytes) (entries : List DiscoveryMetadataEntry)
    → (check_metadata keys entries ≡ ok tt)
      ↔ (All IsEntry entries × Distinct keys (keys_of entries))
unfolding check_metadata
check_metadata_lem keys [] = ground arith
check_metadata_lem keys (e ∷ es) = ground (
  arith,
  check_text_lem "metadata key" e.key 64,
  check_text_lem "metadata value" e.value 256,
  seen_lem Bytes-discrete e.key keys,
  check_metadata_lem (e.key ∷ keys) es,
)

check_device_lem : (device : DeviceInfo) → (check_device device ≡ ok tt) ↔ IsSound device
unfolding check_device check_backend_id check_nonzero
check_device_lem device = ground (
  arith,
  check_text_lem "backend ID" device.backend_id 64,
  check_text_lem "device ID" device.device_id 256,
  check_text_lem "device display name" device.display_name 256,
  check_metadata_lem [] device.metadata,
)

-- Why a device is not prepared, and with which error: the first of these that holds.
pub data Refusal (device : DeviceInfo) (c : DeviceCapabilities)
    : PrepareCastDeviceError → Type 0 where
  unsound : {e : DeviceError} → ¬ IsSound device → Refusal device c (invalid_device e)
  away :
      IsSound device
      → device.availability ≢ available
      → Refusal device c (device_unavailable device.availability)
  incapable :
      {e : ValidationError}
      → IsSound device
      → device.availability ≡ available
      → ¬ IsCapabilities c
      → Refusal device c (invalid_capabilities e)
  manufacturer :
      IsSound device
      → device.availability ≡ available
      → IsCapabilities c
      → ¬ IsUsable c.display_identity.manufacturer_name c.display_identity.manufacturer_source
      → Refusal device c
          (unsupported_identity_source "manufacturer" c.display_identity.manufacturer_source)
  product :
      IsSound device
      → device.availability ≡ available
      → IsCapabilities c
      → IsUsable c.display_identity.manufacturer_name c.display_identity.manufacturer_source
      → ¬ IsUsable c.display_identity.product_name c.display_identity.product_source
      → Refusal device c (unsupported_identity_source "product" c.display_identity.product_source)
  no_mode :
      All (λ mode. timing_for (edid_mode mode) ≡ none) c.modes → Refusal device c no_supported_mode
  no_vga :
      All
        (λ mode. edid_mode mode ≢ record { width = 640; height = 480; refresh_millihz = 60000 })
        c.modes
      → Refusal device c missing_required_640x480

-- A device whose inputs pass every check.
pub record IsFit (device : DeviceInfo) (c : DeviceCapabilities) : Type 0 where
  pub sound : IsSound device
  pub here : device.availability ≡ available
  pub capable : IsCapabilities c
  pub maker : IsUsable c.display_identity.manufacturer_name c.display_identity.manufacturer_source
  pub made : IsUsable c.display_identity.product_name c.display_identity.product_source

is_available_lem :
    (device : DeviceInfo) → (is_available device ≡ true) ↔ (device.availability ≡ available)
unfolding Availability-discrete
is_available_lem device = ground arith

require_usable-ok :
    (field : String) (name : Option Bytes) (source : IdentitySource)
    → ((require_usable_identity_source field name source ≡ ok tt) × IsUsable name source)
      ⊎ ((require_usable_identity_source field name source
            ≡ err (unsupported_identity_source field source))
          × ¬ IsUsable name source)
unfolding require_usable_identity_source
require_usable-ok field none source = inl (refl, tt)
require_usable-ok field (some name) source = ground arith

-- The answer of the checks.
abbrev pub Checked : DeviceInfo → DeviceCapabilities → Prepare (Unit {0}) → Type 0
Checked device c (ok _) = IsFit device c
Checked device c (err e) = Refusal device c e

-- The two checks of the names, at either of their answers.
abbrev SourceCheck : String → Option Bytes → IdentitySource → Type 0
SourceCheck field name source =
    ((require_usable_identity_source field name source ≡ ok tt) × IsUsable name source)
    ⊎ ((require_usable_identity_source field name source
          ≡ err (unsupported_identity_source field source))
        × ¬ IsUsable name source)

sources-Checked :
    (device : DeviceInfo) (c : DeviceCapabilities)
    → IsSound device
    → device.availability ≡ available
    → IsCapabilities c
    → let names = c.display_identity in
      SourceCheck "manufacturer" names.manufacturer_name names.manufacturer_source
      → SourceCheck "product" names.product_name names.product_source
      → Checked device c (
          require_usable_identity_source "manufacturer" names.manufacturer_name
            names.manufacturer_source
          >> require_usable_identity_source "product" names.product_name names.product_source)
sources-Checked device c sound here capable (inr (e, bad)) other =
    rw e (manufacturer sound here capable bad)
sources-Checked device c sound here capable (inl (e, maker)) (inr (f, bad)) =
    rw (e, f) (product sound here capable maker bad)
sources-Checked device c sound here capable (inl (e, maker)) (inl (f, made)) =
    rw (e, f) (record { sound = sound; here = here; capable = capable; maker = maker; made = made })

pub check_inputs-Checked :
    (to_string : ℕ → Bytes) (device : DeviceInfo) (c : DeviceCapabilities)
    → Checked device c (check_inputs to_string device c)
unfolding check_inputs
check_inputs-Checked to_string device c =
    let names = c.display_identity in
    elim (Result-cases (check_device device)) [
      | inr (e, bad) ↦
          rw (check_inputs, bad)
            (unsound (λ s. absurd (ground (arith, bad, (check_device_lem device).1 s))))
      | inl (tt, good) ↦
          let sound = (check_device_lem device).0 good in
          elim (Bool-cases (is_available device)) [
            | inr gone ↦
                rw (check_inputs, good, gone)
                  (away sound (λ h. absurd (ground (arith, gone, (is_available_lem device).1 h))))
            | inl there ↦
                let here = (is_available_lem device).0 there in
                elim (Result-cases (validate_capabilities to_string c)) [
                  | inr (e, bad) ↦
                      rw (check_inputs, good, there, bad)
                        (incapable sound here (λ h.
                          absurd
                            (ground (arith, bad, (validate_capabilities_lem to_string c).1 h))))
                  | inl (tt, valid) ↦
                      let capable = (validate_capabilities_lem to_string c).0 valid in
                      rw (check_inputs, good, there, valid)
                        (sources-Checked device c sound here capable
                          (require_usable-ok "manufacturer" names.manufacturer_name
                            names.manufacturer_source)
                          (require_usable-ok "product" names.product_name names.product_source))
                ]
          ]
    ]
