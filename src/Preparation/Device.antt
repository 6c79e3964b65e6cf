-- ===== src/Preparation/Device.antt =====
-- `DeviceInfo::validate` of crates/pronk-dbus/src/lib.rs. A text is its UTF-8 bytes.
use pronk.Common.{
  ℕ, Bool, List, [], ◌∷◌, not, ◌==◌, ltb, if◌then◌else◌, length, Bytes, Bytes-discrete, Result, ok,
  err, ◌>>◌, String,
}
use pronk.Protocol.{has_control, is_backend_id_byte, any, seen, DiscoveryMetadataEntry}
use pronk.DisplaySlot.Values.{DeviceInfo}

pub data DeviceError : Type 0 where
  empty control_character zero : String → DeviceError
  too_long too_many : String → ℕ → ℕ → DeviceError
  invalid_backend_id : DeviceError
  duplicate_metadata_key : Bytes → DeviceError

abbrev pub DeviceCheck : Type 0
DeviceCheck = Result DeviceError (Unit {0})

-- `if bad { return Err(error); }`.
abbrev fail_if : Bool → DeviceError → DeviceCheck
fail_if bad error = if bad then err error else ok tt

unfoldable pub check_text : String → Bytes → ℕ → DeviceCheck
check_text field value limit =
    fail_if (length value == 0) (empty field)
    >> fail_if (ltb limit (length value)) (too_long field (length value) limit)
    >> fail_if (has_control value) (control_character field)

unfoldable pub check_backend_id : Bytes → DeviceCheck
check_backend_id value =
    check_text "backend ID" value 64
    >> fail_if (any (λ b. not (is_backend_id_byte b)) value) invalid_backend_id

unfoldable pub check_nonzero : String → ℕ → DeviceCheck
check_nonzero field value = fail_if (value == 0) (zero field)

-- The loop over the metadata, with the keys seen so far.
unfoldable pub check_metadata : List Bytes → List DiscoveryMetadataEntry → DeviceCheck
check_metadata keys [] = ok tt
check_metadata keys (entry ∷ rest) =
    check_text "metadata key" entry.key 64
    >> check_text "metadata value" entry.value 256
    >> fail_if (seen Bytes-discrete entry.key keys) (duplicate_metadata_key entry.key)
    >> check_metadata (entry.key ∷ keys) rest

unfoldable pub check_device : DeviceInfo → DeviceCheck
check_device device =
    check_backend_id device.backend_id
    >> check_text "device ID" device.device_id 256
    >> check_text "device display name" device.display_name 256
    >> check_nonzero "connection" device.connection_generation
    >> check_nonzero "discovery" device.discovery_generation
    >> check_nonzero "device revision" device.device_revision
    >> fail_if (ltb 16 (length device.metadata))
        (too_many "discovery metadata" (length device.metadata) 16)
    >> check_metadata [] device.metadata
