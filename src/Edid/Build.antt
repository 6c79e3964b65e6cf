-- ===== src/Edid/Build.antt =====
-- `build_cast_display_edid` of crates/pronk-core/src/edid.rs, with the check of a finished EDID,
-- `validate_edid` of crates/pronk-core/src/castkms.rs.
use pronk.Common.{
  ℕ, zero, suc, ◌+◌, ◌-◌, ◌/◌, ◌%◌, Bool, ◌||◌, not, Option, none, some, List, [], ◌∷◌, ◌++◌, ltb,
  ◌==◌, eqb, if◌then◌else◌, length, take, drop, get_elem?, Bytes, Bytes-discrete, Result, ok, err,
}
use pronk.Edid.Panics.{◌>>=◌, copy_at, zeros, first}
use pronk.Edid.Timings.{EdidMode}
use pronk.Edid.Blocks.{EdidNumericIdentity, edid_header, wrapping_sum, checksum, write_base_block}
use pronk.Edid.Extensions.{
  displayid_product_block, displayid_parameters_block, displayid_type_i_timing_block,
  write_displayid_extension, write_cta_extension,
}
use pronk.Edid.Request.{
  TextLibraries, CastDisplayEdidRequest, CastDisplayEdidError, framing, EdidError, invalid_size,
  invalid_checksum, invalid_header, extension_count, validate_request,
}
use pronk.Edid.Identity.{numeric_identity}

-- The blocks of 128 bytes that the text of blocks begins with (`chunks_exact`).
unfoldable pub chunks : ℕ → Bytes → List Bytes
chunks zero bytes = []
chunks (suc n) bytes = take 128 bytes ∷ chunks n (drop 128 bytes)

unfoldable pub validate_checksums : ℕ → List Bytes → Result EdidError (Unit {0})
validate_checksums block [] = ok tt
validate_checksums block (bytes ∷ rest) =
    let others = validate_checksums (block + 1) rest in
    if wrapping_sum 0 bytes == 0 then others else err (invalid_checksum block)

-- `bytes[126]`, which the size check puts in range.
abbrev pub declared_extensions : Bytes → ℕ
declared_extensions bytes = elim (get_elem? bytes 126) [ none ↦ 0 | some count ↦ count ]

unfoldable pub validate_edid : Bytes → Result EdidError (Unit {0})
validate_edid bytes =
    if length bytes == 0 || ltb 512 (length bytes) || not (length bytes % 128 == 0)
    then err (invalid_size (length bytes))
    else if not (eqb Bytes-discrete (take 8 bytes) edid_header)
    then err invalid_header
    else if not (declared_extensions bytes == length bytes / 128 - 1)
    then err (extension_count (declared_extensions bytes) (length bytes / 128 - 1))
    else validate_checksums 0 (chunks (length bytes / 128) bytes)

-- The chunks that are left, and the bytes.
unfoldable pub set_checksums : ℕ → Bytes → Option Bytes
set_checksums zero bytes = some bytes
set_checksums (suc n) bytes = do
  let block = take 128 bytes
  sealed ← copy_at 127 (checksum (take 127 block) ∷ []) block
  rest ← set_checksums n (drop 128 bytes)
  some (sealed ++ rest)

unfoldable pub set_block_checksums : Bytes → Option Bytes
set_block_checksums edid = set_checksums (length edid / 128) edid

pub record GeneratedCastDisplayEdid : Type 0 where
  pub identity : EdidNumericIdentity
  pub display_name : Option Bytes
  pub modes : List EdidMode
  pub audio : Bool
  pub cec_physical_address : Option ℕ
  pub edid : Bytes

abbrev pub unwrap_or_default : Option Bytes → Bytes
unwrap_or_default none = []
unwrap_or_default (some bytes) = bytes

-- The product alone, and the rest in a continuation block.
unfoldable pub two_displayid_blocks : Bytes → Bytes → Option Bytes
two_displayid_blocks product continuation = do
  one ← write_displayid_extension 4 1 product (zeros 128)
  two ← write_displayid_extension 0 0 continuation (zeros 128)
  some (one ++ two)

-- `needs_continuation`.
abbrev pub needs_continuation : Bytes → Bytes → Bytes → Bool
needs_continuation product parameters timing =
    ltb 121 (length product + (length parameters + length timing))

unfoldable pub displayid_blocks : Bytes → Bytes → Bytes → Option Bytes
displayid_blocks product parameters timing =
    if needs_continuation product parameters timing
    then two_displayid_blocks product (parameters ++ timing)
    else write_displayid_extension 4 0 (product ++ (parameters ++ timing)) (zeros 128)

-- The extension blocks: CTA first, then DisplayID.
unfoldable pub edid_bytes :
    EdidNumericIdentity → CastDisplayEdidRequest → Option Bytes → Option Bytes
edid_bytes identity request display_name = do
  preferred ← first request.modes
  product ← displayid_product_block identity (unwrap_or_default display_name)
  parameters ← displayid_parameters_block preferred request.audio
  timing ← displayid_type_i_timing_block preferred
  let extensions = if needs_continuation product parameters timing then 3 else 2
  base ← write_base_block identity request.modes extensions (zeros 128)
  cta ← write_cta_extension request.modes request.audio request.cec_physical_address (zeros 128)
  displayid ← displayid_blocks product parameters timing
  set_block_checksums (base ++ (cta ++ displayid))

-- `ValidatedEdid::new`, with what the EDID is made for.
unfoldable pub checked_edid :
    EdidNumericIdentity
    → CastDisplayEdidRequest
    → Option Bytes
    → Bytes
    → Result (CastDisplayEdidError) GeneratedCastDisplayEdid
checked_edid identity request display_name bytes = elim (validate_edid bytes) [
  | err error ↦ err (framing error)
  | ok _ ↦ ok (record {
    identity = identity;
    display_name = display_name;
    modes = request.modes;
    audio = request.audio;
    cec_physical_address = request.cec_physical_address;
    edid = bytes;
  })
]

-- `none` is a panic.
unfoldable pub build_cast_display_edid :
    TextLibraries
    → CastDisplayEdidRequest
    → Option (Result (CastDisplayEdidError) GeneratedCastDisplayEdid)
build_cast_display_edid libraries request = elim (validate_request libraries request) [
  | err error ↦ some (err error)
  | ok (manufacturer_name, product_name, display_name) ↦
      let identity = numeric_identity libraries request manufacturer_name product_name in
      edid_bytes identity request display_name >>= λ bytes.
      some (checked_edid identity request display_name bytes)
]
