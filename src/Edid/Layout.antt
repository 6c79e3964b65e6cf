-- ===== src/Edid/Layout.antt =====
-- Every block that crates/pronk-core/src/edid.rs writes stays within its 128 bytes, and writing it
-- does not panic.
use pronk.Common.{
  ℕ, zero, suc, ◌+◌, ◌≤◌, ◌≡◌, inl, inr, Bool, not, Option, some, List, [], ◌∷◌, ◌++◌, All, take,
  drop, get_elem?, ◌∙◌, length, length-append, Bytes, arith, refl, Bool-cases, leb,
}
use pronk.Edid.Panics.{
  Gives, gives, Gives-bind, copy_at, copy_at-Gives, copy_all-Gives, copy_all-take, copied-length,
  take_append, with_slice-Gives, zeros, length-zeros, first,
}
use pronk.Edid.Timings.{EdidMode}
use pronk.Edid.Blocks.{
  EdidNumericIdentity, standard_timings, base_writes, edid_header, encode_pnp_id, write_base_block,
}
use pronk.Edid.Extensions.{
  displayid_product_block, displayid_parameters_block, write_displayid_extension, video_codes,
  cec_bytes, audio_bytes, cta_data, write_cta_extension,
}
use pronk.Edid.Lengths.{
  HasLength, IsSupported, write_detailed_timing-Gives, detailed_descriptors-Gives,
  length-write_established_timings, standard_timings-lengths, length-standard_slots,
  select_base_detailed_modes-Gives,
}

-- The writes of a block are in range.
abbrev pub InRange : ℕ → List (ℕ × Bytes) → Type 0
InRange n writes = All (λ w. w.0 + length w.1 ≤ n) writes

base_writes-InRange :
    (identity : EdidNumericIdentity) (modes detailed : List EdidMode) (descriptors : Bytes)
    → length descriptors ≡ 72
    → All
        (λ w. (8 ≤ w.0) × (w.0 + length w.1 ≤ 128))
        (base_writes identity modes detailed descriptors)
unfolding encode_pnp_id
base_writes-InRange identity modes detailed descriptors e = omega (
  arith,
  e,
  length-write_established_timings (zeros 3) modes,
  length-zeros 3,
  length-standard_slots 8 (standard_timings detailed modes)
      (standard_timings-lengths detailed modes),
)

-- A base block has its 128 bytes, its header, and its number of extensions in its last field.
pub record IsBase (extension_count : ℕ) (block : Bytes) : Type 0 where
  pub size : length block ≡ 128
  pub header : take 8 block ≡ edid_header
  pub count : get_elem? block 126 ≡ some extension_count

get_written :
    (i v : ℕ) (slice : Bytes)
    → i + 1 ≤ length slice
    → get_elem? (take i slice ++ (v ∷ drop (i + 1) slice)) i ≡ some v
get_written i v slice h = get_after i slice (omega arith)
  where
    get_after :
        (k : ℕ) (front : Bytes)
        → k ≤ length front
        → get_elem? (take k front ++ (v ∷ drop (i + 1) slice)) k ≡ some v
    get_after zero front h = refl
    get_after (suc k) [] h = absurd (omega arith)
    get_after (suc k) (x ∷ xs) h = get_after k xs (omega arith)

header-Gives :
    (block : Bytes)
    → length block ≡ 128
    → Gives (λ s. (length s ≡ 128) × (take 8 s ≡ edid_header)) (copy_at 0 edid_header block)
unfolding copy_at
header-Gives block e = elim (Bool-cases (leb 8 (length block))) [
  | inl fits ↦ rw fits (gives (copied-length 128 0 edid_header block (omega arith) e, refl))
  | inr not ↦ absurd (ground (arith, not))
]

last_field-Gives :
    (count : ℕ) (written : Bytes)
    → length written ≡ 128
    → take 8 written ≡ edid_header
    → Gives (IsBase count) (copy_at 126 (count ∷ []) written)
unfolding copy_at
last_field-Gives count written l e = elim (Bool-cases (leb 127 (length written))) [
  | inl fits ↦ rw fits (
      gives (record {
        size = copied-length 128 126 (count ∷ []) written (omega arith) l;
        header = take_append 8 126 written _ (omega arith) (omega arith) ∙ e;
        count = get_written 126 count written (omega arith);
      }))
  | inr not ↦ absurd (ground (arith, not))
]

pub write_base_block-Gives :
    (identity : EdidNumericIdentity) (preferred : EdidMode) (rest : List EdidMode)
    (extension_count : ℕ) (block : Bytes)
    → All IsSupported (preferred ∷ rest)
    → length block ≡ 128
    → Gives
        (IsBase extension_count)
        (write_base_block identity (preferred ∷ rest) extension_count block)
unfolding write_base_block
write_base_block-Gives identity preferred rest extension_count block h e =
    Gives-bind (header-Gives block e) λ headed k.
      Gives-bind (select_base_detailed_modes-Gives preferred rest h) λ detailed d.
        Gives-bind (detailed_descriptors-Gives 4 detailed d) λ descriptors l.
          Gives-bind
            (copy_all-take 128 8 _ headed
              (base_writes-InRange identity (preferred ∷ rest) detailed descriptors l) k.0)
            λ written w. last_field-Gives extension_count written w.0 (w.1 ∙ k.1)

pub displayid_product_block-Gives :
    (identity : EdidNumericIdentity) (name : Bytes)
    → Gives (HasLength (15 + length name)) (displayid_product_block identity name)
unfolding displayid_product_block
displayid_product_block-Gives identity name =
    copy_all-Gives (15 + length name) _ (zeros (3 + (12 + length name))) (omega arith)
      (omega (arith, length-zeros (3 + (12 + length name))))

pub displayid_parameters_block-Gives :
    (preferred : EdidMode) (audio : Bool)
    → Gives (HasLength 15) (displayid_parameters_block preferred audio)
unfolding displayid_parameters_block
displayid_parameters_block-Gives preferred audio =
    copy_all-Gives 15 _ (zeros 15) (omega arith) (length-zeros 15)

pub write_displayid_extension-Gives :
    (product_type extension_count : ℕ) (section block : Bytes)
    → length section ≤ 121
    → length block ≡ 128
    → Gives (HasLength 128) (write_displayid_extension product_type extension_count section block)
unfolding write_displayid_extension
write_displayid_extension-Gives product_type extension_count section block h e =
    Gives-bind (copy_all-Gives 128 _ block (omega (arith, h)) e)
      (λ written l. copy_at-Gives 128 (5 + length section) _ written (omega (arith, h)) l)

length-video_codes : (modes : List EdidMode) → length (video_codes modes) ≤ length modes
unfolding video_codes
length-video_codes [] = omega arith
length-video_codes (mode ∷ rest) = ground (arith, length-video_codes rest)

-- With the 16 modes that a request may have, the data blocks leave room for the timing.
length-cta_data :
    (modes : List EdidMode) (audio : Bool) (cec : Option ℕ)
    → length (cta_data modes audio cec) ≤ length modes + 18
unfolding cta_data
length-cta_data modes audio cec = ground (
  arith,
  length-video_codes modes,
  length-append (video_codes modes) (226 ∷ 0 ∷ 74 ∷ (cec_bytes cec ++ audio_bytes audio)),
  length-append (cec_bytes cec) (audio_bytes audio),
)

pub write_cta_extension-Gives :
    (preferred : EdidMode) (rest : List EdidMode) (audio : Bool) (cec : Option ℕ) (block : Bytes)
    → IsSupported preferred
    → length (preferred ∷ rest) ≤ 16
    → length block ≡ 128
    → Gives (HasLength 128) (write_cta_extension (preferred ∷ rest) audio cec block)
unfolding write_cta_extension first
write_cta_extension-Gives preferred rest audio cec block h few e =
    let short = length-cta_data (preferred ∷ rest) audio cec in
    Gives-bind (copy_all-Gives 128 _ block (omega (arith, short, few)) e) (λ written l.
      Gives-bind h (λ timing _.
        with_slice-Gives 128 _ 18 _ written (omega (arith, short, few)) l
          (λ part. write_detailed_timing-Gives timing part)))
