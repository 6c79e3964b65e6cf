-- ===== src/Protocol.antt =====
-- crates/pronk-backend-protocol/src/lib.rs: what the manager admits of a backend's discovery. A
-- text is its UTF-8 bytes.
pub mod Admission
pub mod Session
pub mod Capabilities
pub mod Media
pub mod Layouts
use pronk.Common.{
  ℕ, ◌+◌, ◌-◌, Bool, true, false, ◌&&◌, ◌||◌, not, List, [], ◌∷◌, ltb, leb, ◌==◌, eqb,
  if◌then◌else◌, length, Bytes, Bytes-discrete, Result, ok, err, ◌>>◌, String,
}

abbrev pub max_backend_id_bytes : ℕ
max_backend_id_bytes = 64

abbrev pub max_device_text_bytes : ℕ
max_device_text_bytes = 256

abbrev pub max_discovery_metadata_entries : ℕ
max_discovery_metadata_entries = 16

abbrev pub max_discovery_metadata_key_bytes : ℕ
max_discovery_metadata_key_bytes = 64

abbrev pub max_discovery_metadata_value_bytes : ℕ
max_discovery_metadata_value_bytes = 256

abbrev pub max_devices : ℕ
max_devices = 128

pub data ValidationError : Type 0 where
  empty control_character invalid_token zero_generation : String → ValidationError
  too_long too_many : String → ℕ → ℕ → ValidationError
  incompatible_minor : ℕ → ValidationError
  invalid_backend_id : ValidationError
  duplicate_metadata_key : Bytes → ValidationError
  duplicate_device : Bytes → Bytes → ValidationError
  unknown_capabilities : ℕ → ValidationError
  out_of_range : String → ℕ → ℕ → ℕ → ValidationError
  unexpected_identity_value missing_identity_value : String → ValidationError
  invalid_pnp_id invalid_session_id invalid_session_path : ValidationError
  duplicate_identifier : String → Bytes → ValidationError
  invalid_media_layout invalid_control_operation : String → ValidationError

abbrev pub Validation : Type 0
Validation = Result ValidationError (Unit {0})

-- `if bad { return Err(error); }`.
abbrev pub refuse_if : Bool → ValidationError → Validation
refuse_if bad error = if bad then err error else ok tt

abbrev pub between : ℕ → ℕ → ℕ → Bool
between low high b = leb low b && leb b high

abbrev pub any : (ℕ → Bool) → Bytes → Bool
any p [] = false
any p (b ∷ bs) = p b || any p bs

-- `value.chars().any(char::is_control)`: U+0000 to U+001F, U+007F, and U+0080 to U+009F, which are
-- 0xC2 and a second byte in UTF-8.
unfoldable pub has_control : Bytes → Bool
has_control [] = false
has_control (b ∷ []) = ltb b 32 || (b == 127)
has_control (b ∷ c ∷ bs) =
    let rest = has_control (c ∷ bs) in
    ltb b 32 || (b == 127) || ((b == 194) && between 128 159 c) || rest

unfoldable pub validate_text : String → Bytes → ℕ → Validation
validate_text field value limit =
    refuse_if (length value == 0) (empty field)
    >> refuse_if (ltb limit (length value)) (too_long field (length value) limit)
    >> refuse_if (has_control value) (control_character field)

abbrev is_lowercase : ℕ → Bool
is_lowercase b = between 97 122 b

abbrev is_digit : ℕ → Bool
is_digit b = between 48 57 b

abbrev is_alphanumeric : ℕ → Bool
is_alphanumeric b = is_lowercase b || between 65 90 b || is_digit b

-- `[a-z0-9-]`.
abbrev pub is_backend_id_byte : ℕ → Bool
is_backend_id_byte b = is_lowercase b || is_digit b || (b == 45)

-- An ASCII letter or digit, or one of `-_.:@`.
abbrev pub is_token_byte : ℕ → Bool
is_token_byte b = is_alphanumeric b || (b == 45) || (b == 95) || (b == 46) || (b == 58) || (b == 64)

unfoldable pub validate_backend_id : Bytes → Validation
validate_backend_id value =
    validate_text "backend ID" value max_backend_id_bytes
    >> refuse_if (any (λ b. not (is_backend_id_byte b)) value) invalid_backend_id

unfoldable pub validate_token : String → Bytes → ℕ → Validation
validate_token field value limit =
    validate_text field value limit
    >> refuse_if (any (λ b. not (is_token_byte b)) value) (invalid_token field)

unfoldable pub validate_metadata_key : Bytes → Validation
validate_metadata_key value =
    validate_token "discovery metadata key" value max_discovery_metadata_key_bytes

unfoldable pub validate_generation : String → ℕ → Validation
validate_generation field generation = refuse_if (generation == 0) (zero_generation field)

unfoldable pub validate_count : String → ℕ → ℕ → Validation
validate_count field actual limit = refuse_if (ltb limit actual) (too_many field actual limit)

pub record DeviceIdentity : Type 0 where
  pub backend_id : Bytes
  pub device_id : Bytes

-- `DeviceIdentity::validate`.
unfoldable pub validate_identity : DeviceIdentity → Validation
validate_identity device =
    validate_backend_id device.backend_id
    >> validate_text "device ID" device.device_id max_device_text_bytes

pub data DeviceAvailability : Type 0 where
  available busy unavailable : DeviceAvailability

pub record DiscoveryMetadataEntry : Type 0 where
  pub key : Bytes
  pub value : Bytes

pub record DeviceInfo : Type 0 where
  pub backend_id : Bytes
  pub device_id : Bytes
  pub display_name : Bytes
  pub availability : DeviceAvailability
  pub metadata : List DiscoveryMetadataEntry

pub record DeviceSnapshot : Type 0 where
  pub discovery_generation : ℕ  -- u64
  pub revision : ℕ  -- u64
  pub devices : List DeviceInfo

-- `DiscoveryMetadataEntry::validate`.
unfoldable pub validate_entry : DiscoveryMetadataEntry → Validation
validate_entry entry =
    validate_metadata_key entry.key
    >> validate_text "discovery metadata value" entry.value max_discovery_metadata_value_bytes

-- `!set.insert(key)`: a key that the set has already.
unfoldable pub seen {ℓ} : {K : Type ℓ} → Discrete K → K → List K → Bool
seen d key [] = false
seen d key (k ∷ ks) = eqb d key k || seen d key ks

-- The loops of the two validations, with the keys seen so far.
unfoldable pub validate_entries : List Bytes → List DiscoveryMetadataEntry → Validation
validate_entries keys [] = ok tt
validate_entries keys (entry ∷ rest) =
    validate_entry entry
    >> refuse_if (seen Bytes-discrete entry.key keys) (duplicate_metadata_key entry.key)
    >> validate_entries (entry.key ∷ keys) rest

-- `DeviceInfo::validate`.
unfoldable pub validate_device : DeviceInfo → Validation
validate_device device =
    validate_backend_id device.backend_id
    >> validate_text "device ID" device.device_id max_device_text_bytes
    >> validate_text "device display name" device.display_name max_device_text_bytes
    >> validate_count "discovery metadata" (length device.metadata) max_discovery_metadata_entries
    >> validate_entries [] device.metadata

unfoldable pub Identity-discrete : Discrete (Bytes × Bytes)
unfolding Bytes-discrete
Identity-discrete = hlevel Bytes-discrete

abbrev pub identity : DeviceInfo → Bytes × Bytes
identity device = (device.backend_id, device.device_id)

unfoldable pub validate_devices : List (Bytes × Bytes) → List DeviceInfo → Validation
validate_devices identities [] = ok tt
validate_devices identities (device ∷ rest) =
    validate_device device
    >> refuse_if (seen Identity-discrete (identity device) identities)
        (duplicate_device device.backend_id device.device_id)
    >> validate_devices (identity device ∷ identities) rest

-- `DeviceSnapshot::validate`.
unfoldable pub validate_snapshot : DeviceSnapshot → Validation
validate_snapshot snapshot =
    validate_generation "discovery" snapshot.discovery_generation
    >> validate_count "devices" (length snapshot.devices) max_devices
    >> validate_devices [] snapshot.devices
