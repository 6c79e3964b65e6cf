-- ===== src/Edid/Identity.antt =====
-- The numeric identity that crates/pronk-core/src/edid.rs derives from the names of a request, with
-- the name normalization of crates/pronk-core/src/identity.rs.
use pronk.Common.{
  ℕ, ◌+◌, ◌*◌, ◌%◌, ◌^◌, Bool, false, not, ◌||◌, Option, none, some, List, [], ◌∷◌, ◌++◌, ◌==◌,
  if◌then◌else◌, length, get_elem?, Bytes, codes,
}
use pronk.Edid.Blocks.{PnpId, EdidNumericIdentity, le32}
use pronk.Edid.Request.{TextLibraries, CastDisplayEdidRequest}

-- The loop of `normalize_hash_field`, with the result so far and the pending space.
unfoldable pub collapse_spaces : (ℕ → Bool) → List ℕ → Bool → List ℕ → List ℕ
collapse_spaces is_whitespace result pending_space [] = result
collapse_spaces is_whitespace result pending_space (character ∷ rest) =
    let after_space = collapse_spaces is_whitespace result (not (length result == 0)) rest in
    let pushed =
      collapse_spaces is_whitespace
        (if pending_space then result ++ (32 ∷ character ∷ []) else result ++ (character ∷ []))
        false rest in
    if is_whitespace character then after_space else pushed

unfoldable pub normalize_hash_field : TextLibraries → Bytes → Bytes
normalize_hash_field libraries value =
    libraries.utf8
      (collapse_spaces libraries.is_whitespace [] false (libraries.lowercase_nfkc value))

-- The loop of `normalize_manufacturer_name`: a dot is dropped and a comma is a space.
unfoldable pub collapse_name : (ℕ → Bool) → List ℕ → Bool → List ℕ → List ℕ
collapse_name is_whitespace normalized pending_space [] = normalized
collapse_name is_whitespace normalized pending_space (character ∷ rest) =
    let dropped = collapse_name is_whitespace normalized pending_space rest in
    let after_space = collapse_name is_whitespace normalized (not (length normalized == 0)) rest in
    let pushed =
      collapse_name is_whitespace
        (if pending_space
          then normalized ++ (32 ∷ character ∷ [])
          else normalized ++ (character ∷ []))
        false rest in
    if character == 46
    then dropped
    else if (character == 44) || is_whitespace character
    then after_space
    else pushed

unfoldable pub normalize_manufacturer_name : TextLibraries → Bytes → Bytes
normalize_manufacturer_name libraries value =
    libraries.utf8 (collapse_name libraries.is_whitespace [] false (libraries.lowercase_nfkc value))

-- What is hashed: the domain, then each field after its length.
unfoldable pub hash_input : Bytes → List Bytes → Bytes
hash_input domain [] = domain
hash_input domain (field ∷ rest) =
    hash_input (domain ++ (le32 (length field % 2 ^ 32) ++ field)) rest

unfoldable pub derive_hash : TextLibraries → Bytes → List Bytes → Bytes
derive_hash libraries domain fields = libraries.sha256 (hash_input domain fields)

-- A byte of the 32 bytes of a hash.
abbrev pub hash_byte : Bytes → ℕ → ℕ
hash_byte hash i = elim (get_elem? hash i) [ none ↦ 0 | some b ↦ b ]

abbrev pub one_if_zero : ℕ → ℕ
one_if_zero value = if value == 0 then 1 else value

unfoldable pub nonzero_u16 : Bytes → ℕ
nonzero_u16 hash = one_if_zero (hash_byte hash 0 + hash_byte hash 1 * 256)

unfoldable pub nonzero_u32 : Bytes → ℕ
nonzero_u32 hash = one_if_zero (
    hash_byte hash 0
    + hash_byte hash 1 * 256
    + hash_byte hash 2 * 65536
    + hash_byte hash 3 * 16777216)

abbrev pub product_code_domain : Bytes
product_code_domain = codes "io.github.pronkproject.Pronk.edid-product-code.v1" ++ (0 ∷ [])

abbrev pub serial_domain : Bytes
serial_domain = codes "io.github.pronkproject.Pronk.edid-serial.v1" ++ (0 ∷ [])

-- `to_ascii_lowercase` of three uppercase letters.
abbrev pub lowercase_pnp : PnpId → Bytes
lowercase_pnp p = (p.first_letter + 32) ∷ (p.second_letter + 32) ∷ (p.third_letter + 32) ∷ []

unfoldable pub manufacturer_key : TextLibraries → PnpId → Option Bytes → Bytes
manufacturer_key libraries pnp_id none = lowercase_pnp pnp_id
manufacturer_key libraries pnp_id (some name) =
    let key = normalize_manufacturer_name libraries name in
    if length key == 0 then lowercase_pnp pnp_id else key

unfoldable pub product_key : TextLibraries → Option Bytes → Bytes
product_key libraries none = []
product_key libraries (some name) = normalize_hash_field libraries name

-- The identity of `build_cast_display_edid`, from the validated names of maker and product.
unfoldable pub numeric_identity :
    TextLibraries → CastDisplayEdidRequest → Option Bytes → Option Bytes → EdidNumericIdentity
numeric_identity libraries request manufacturer_name product_name = record {
  pnp_id = request.pnp_id;
  product_code = nonzero_u16 (
      derive_hash libraries product_code_domain (
        manufacturer_key libraries request.pnp_id manufacturer_name
        ∷ product_key libraries product_name
        ∷ []));
  serial =
      nonzero_u32
        (derive_hash libraries serial_domain (request.backend_id ∷ request.device_id ∷ []));
}
