-- ===== src/Edid/Request.antt =====
-- What crates/pronk-core/src/edid.rs asks of a request, and the numeric identity that it derives,
-- with the text functions of crates/pronk-core/src/identity.rs. A text is its UTF-8 bytes.
use pronk.Common.{
  ℕ, ◌/◌, ◌%◌, Bool, true, false, ◌&&◌, ◌||◌, not, Option, none, some, is_some, List, [], ◌∷◌, ltb,
  ◌==◌, if◌then◌else◌, length, Bytes, String, Result, ok, err, ◌>>=◌, ◌>>◌,
}
use pronk.Protocol.{has_control, between}
use pronk.Edid.Timings.{EdidMode, timing_for, is_mode}
use pronk.Edid.Blocks.{PnpId, contains_mode}

-- The functions of the standard library, of unicode-normalization and of sha2 that the code calls:
-- `str::trim`, the characters of `value.nfkc().flat_map(char::to_lowercase)`,
-- `char::is_whitespace`, the bytes of a text of characters, and SHA-256.
pub record TextLibraries : Type 0 where
  pub trim : Bytes → Bytes
  pub lowercase_nfkc : Bytes → List ℕ
  pub is_whitespace : ℕ → Bool
  pub utf8 : List ℕ → Bytes
  pub sha256 : Bytes → Bytes

-- Of crates/pronk-core/src/castkms.rs.
pub data EdidError : Type 0 where
  invalid_size invalid_checksum : ℕ → EdidError
  invalid_header : EdidError
  extension_count : ℕ → ℕ → EdidError

pub data CastDisplayEdidError : Type 0 where
  empty_field control_character : String → CastDisplayEdidError
  too_long : String → ℕ → ℕ → CastDisplayEdidError
  non_printable_product_name no_modes missing_required_640x480 : CastDisplayEdidError
  too_many_modes invalid_cec_physical_address : ℕ → CastDisplayEdidError
  unsupported_mode duplicate_mode : EdidMode → CastDisplayEdidError
  framing : EdidError → CastDisplayEdidError

pub record CastDisplayEdidRequest : Type 0 where
  pub pnp_id : PnpId
  pub manufacturer_name : Option Bytes
  pub product_name : Option Bytes
  pub display_name : Option Bytes
  pub backend_id : Bytes
  pub device_id : Bytes
  pub modes : List EdidMode
  pub audio : Bool
  pub cec_physical_address : Option ℕ  -- u16

abbrev pub all_bytes : (ℕ → Bool) → Bytes → Bool
all_bytes p [] = true
all_bytes p (b ∷ bs) = p b && all_bytes p bs

-- `const EDID_PRODUCT_NAME_MAX_BYTES`, `const MAX_EDID_MODES`.
abbrev pub edid_product_name_max_bytes : ℕ
edid_product_name_max_bytes = 106

abbrev pub max_edid_modes : ℕ
max_edid_modes = 16

abbrev pub Check : Type 0
Check = Result CastDisplayEdidError (Unit {0})

-- `if bad { return Err(error); }`.
abbrev pub reject_if :
    {A : Type 0}
    → Bool
    → CastDisplayEdidError
    → Result CastDisplayEdidError A
    → Result CastDisplayEdidError A
reject_if bad error rest = if bad then err error else rest

unfoldable pub validate_stable_id : String → Bytes → ℕ → Check
validate_stable_id field value maximum = reject_if (length value == 0) (empty_field field) (
    reject_if (ltb maximum (length value)) (too_long field (length value) maximum)
      (reject_if (has_control value) (control_character field) (ok tt)))

unfoldable pub validate_manufacturer_name :
    TextLibraries → Option Bytes → Result CastDisplayEdidError (Option Bytes)
validate_manufacturer_name libraries none = ok none
validate_manufacturer_name libraries (some given) =
    let value = libraries.trim given in
    if length value == 0
    then ok none
    else reject_if (ltb 128 (length value)) (too_long "manufacturer name" (length value) 128)
        (reject_if (has_control value) (control_character "manufacturer name") (ok (some value)))

unfoldable pub validate_product_name :
    TextLibraries → Option Bytes → Result CastDisplayEdidError (Option Bytes)
validate_product_name libraries none = ok none
validate_product_name libraries (some given) =
    let value = libraries.trim given in
    if length value == 0
    then ok none
    else reject_if (ltb edid_product_name_max_bytes (length value))
        (too_long "product name" (length value) edid_product_name_max_bytes)
        (reject_if (not (all_bytes (between 32 126) value)) non_printable_product_name
          (ok (some value)))

-- The loop of `validate_modes`, with the modes of `unique`.
unfoldable pub validate_each_mode : List EdidMode → List EdidMode → Check
validate_each_mode unique [] = ok tt
validate_each_mode unique (mode ∷ rest) =
    let others = validate_each_mode (mode ∷ unique) rest in
    reject_if (not (is_some (timing_for mode))) (unsupported_mode mode)
      (reject_if (contains_mode mode unique) (duplicate_mode mode) others)

abbrev pub has_required_mode : List EdidMode → Bool
has_required_mode [] = false
has_required_mode (mode ∷ rest) = is_mode mode 640 480 60000 || has_required_mode rest

unfoldable pub validate_modes : List EdidMode → Check
validate_modes modes = reject_if (length modes == 0) no_modes (
    reject_if (ltb max_edid_modes (length modes)) (too_many_modes (length modes)) (
      validate_each_mode [] modes
      >> reject_if (not (has_required_mode modes)) missing_required_640x480 (ok tt)))

-- A nibble that is not zero after one that is.
unfoldable pub has_gap : Bool → List ℕ → Bool
has_gap zero_seen [] = false
has_gap zero_seen (nibble ∷ rest) =
    let later = has_gap (zero_seen || (nibble == 0)) rest in
    if nibble == 0 then later else if zero_seen then true else later

unfoldable pub validate_cec_physical_address : ℕ → Check
validate_cec_physical_address address =
    reject_if ((address == 0) || (address == 65535)) (invalid_cec_physical_address address) (
      reject_if
        (has_gap false
          (address / 4096 ∷ address / 256 % 16 ∷ address / 16 % 16 ∷ address % 16 ∷ []))
        (invalid_cec_physical_address address) (ok tt))

unfoldable pub validate_cec : Option ℕ → Check
validate_cec none = ok tt
validate_cec (some address) = validate_cec_physical_address address

-- The checks at the start of `build_cast_display_edid`, with the names that they leave:
-- manufacturer, product and display.
unfoldable pub validate_request :
    TextLibraries
    → CastDisplayEdidRequest
    → Result CastDisplayEdidError (Option Bytes × Option Bytes × Option Bytes)
validate_request libraries request =
    validate_stable_id "backend ID" request.backend_id 64
    >> validate_stable_id "device ID" request.device_id 256
    >> (validate_manufacturer_name libraries request.manufacturer_name >>= λ manufacturer_name.
        validate_product_name libraries request.product_name >>= λ product_name.
        validate_product_name libraries request.display_name >>= λ display_name.
        validate_modes request.modes
        >> validate_cec request.cec_physical_address
        >> ok (manufacturer_name, product_name, display_name))
