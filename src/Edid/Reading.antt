-- ===== src/Edid/Reading.antt =====
-- What a sink reads in the base block that crates/pronk-core/src/edid.rs writes.
use pronk.Common.{
  ℕ, suc, ◌+◌, ◌-◌, ◌*◌, ◌/◌, ◌%◌, ◌≡◌, some, List, [], ◌∷◌, ◌++◌, ◌==◌, All, take, drop, length,
  Bytes, arith, refl, sym, ap, subst, ◌∙◌, Bool-cases, inl, inr,
}
use pronk.Edid.Panics.{
  Gives, gives, Gives-bind, Gives-map, copy_at-take, copy_at-Gives, zeros, length-zeros,
}
use pronk.Edid.Slices.{take-take, take-append, take-length}
use pronk.Edid.Fields.{
  Holds, Holds-prefix, cut-prefix, Gives-both, Gives-value, copy_all-Holds, Ascending,
}
use pronk.Edid.Timings.{EdidMode, DetailedTiming, timing_for}
use pronk.Edid.Blocks.{
  EdidNumericIdentity, contains_mode, select_more, select_base_detailed_modes, detailed_descriptors,
  standard_timings, base_writes, edid_header, encode_pnp_id, write_base_block, letter_bits,
  only_detailed,
}
use pronk.Edid.Lengths.{
  IsSupported, write_detailed_timing-Gives, detailed_descriptors-Gives,
  length-write_established_timings, standard_timings-lengths, length-standard_slots,
  select_base_detailed_modes-Gives,
}
use pronk.Edid.Descriptor.{supported_timing, read_detailed_timing, read-write_detailed_timing}

-- The number of a letter in the alphabet, from 1.
abbrev pub letter_number : ℕ → ℕ
letter_number letter = letter - 65 + 1

-- The identity stands in the base block: the maker's three letters as numbers of five bits, high byte
-- first, then the product code and the serial number, low byte first.
pub record HasIdentity (identity : EdidNumericIdentity) (edid : Bytes) : Type 0 where
  pub maker :
      let packed =
        letter_number identity.pnp_id.first_letter * 1024
        + letter_number identity.pnp_id.second_letter * 32
        + letter_number identity.pnp_id.third_letter in
      Holds 8 (packed / 256 % 256 ∷ packed % 256 ∷ []) edid
  pub product : Holds 10 (identity.product_code % 256 ∷ identity.product_code / 256 % 256 ∷ []) edid
  pub serial :
      Holds 12
        (identity.serial % 256
          ∷ identity.serial / 256 % 256
          ∷ identity.serial / 65536 % 256
          ∷ identity.serial / 16777216 % 256
          ∷ [])
        edid

-- The first descriptor of the base block reads as the timing of the mode.
abbrev pub StartsWith : EdidMode → Bytes → Type 0
StartsWith mode edid =
    (t : DetailedTiming) × (timing_for mode ≡ some t)
    × (read_detailed_timing (take 18 (drop 54 edid)) ≡ t)

-- The first of the modes is the one that the EDID starts with.
abbrev pub Announces : List EdidMode → Bytes → Type 0
Announces [] edid = ⊥
Announces (mode ∷ rest) edid = StartsWith mode edid

abbrev pub Describes : EdidNumericIdentity → EdidMode → Bytes → Type 0
Describes identity mode edid = HasIdentity identity edid × StartsWith mode edid

select_more-first :
    (preferred : EdidMode) (selected modes : List EdidMode)
    → (more : List EdidMode) × (select_more (preferred ∷ selected) modes ≡ preferred ∷ more)
unfolding select_more
select_more-first preferred selected [] = (selected, refl)
select_more-first preferred selected (mode ∷ rest) =
    elim (Bool-cases (length (preferred ∷ selected) == 4)) [
      | inl full ↦ rw full (selected, refl)
      | inr more ↦ elim (Bool-cases (contains_mode mode (preferred ∷ selected))) [
        | inl known ↦ rw (more, known) (select_more-first preferred selected rest)
        | inr new ↦ rw (more, new) (select_more-first preferred (selected ++ (mode ∷ [])) rest)
      ]
    ]

-- The descriptors have 72 bytes, and the first reads as the timing of the first mode.
preferred_descriptor :
    (n : ℕ) (preferred : EdidMode) (more : List EdidMode)
    → All IsSupported (preferred ∷ more)
    → Gives
        (λ d.
          (t : DetailedTiming) × (timing_for preferred ≡ some t)
          × (read_detailed_timing (take 18 d) ≡ t))
        (detailed_descriptors (suc n) (preferred ∷ more))
unfolding detailed_descriptors
preferred_descriptor n preferred more h =
    let (t, there, good) = Gives-value (supported_timing preferred h.0) in
    rw there (
      Gives-bind
        (Gives-both (write_detailed_timing-Gives t (zeros 18) (length-zeros 18))
          (read-write_detailed_timing t good.0))
        λ d k. Gives-bind (detailed_descriptors-Gives n more h.1) λ rest _. gives (
          t,
          refl,
          ap read_detailed_timing
                (take-append 18 d rest (omega (arith, k.0)) ∙ take-length 18 d k.0)
              ∙ k.1,
        ))

selected_first :
    (preferred : EdidMode) (rest : List EdidMode)
    → Gives
        (λ modes. (more : List EdidMode) × (modes ≡ preferred ∷ more))
        (select_base_detailed_modes (preferred ∷ rest))
unfolding select_base_detailed_modes
selected_first preferred rest =
    gives (select_more-first preferred (take 3 (only_detailed rest)) (preferred ∷ rest))

first_described :
    (preferred : EdidMode) (detailed : List EdidMode)
    → All IsSupported detailed
    → (more : List EdidMode) × (detailed ≡ preferred ∷ more)
    → Gives
        (λ d.
          (t : DetailedTiming) × (timing_for preferred ≡ some t)
          × (read_detailed_timing (take 18 d) ≡ t))
        (detailed_descriptors 4 detailed)
first_described preferred detailed h (more, e) =
    rw e (preferred_descriptor 3 preferred more (subst (All IsSupported) e h))

selected-Ascending :
    (identity : EdidNumericIdentity) (modes detailed : List EdidMode) (descriptors : Bytes)
    → length descriptors ≡ 72
    → Ascending 128 (base_writes identity modes detailed descriptors)
unfolding encode_pnp_id
selected-Ascending identity modes detailed descriptors e = omega (
  arith,
  e,
  length-write_established_timings (zeros 3) modes,
  length-zeros 3,
  length-standard_slots 8 (standard_timings detailed modes)
      (standard_timings-lengths detailed modes),
)

-- The descriptors stand at offset 54, so that the first of them reads there.
first_descriptor :
    (mode : EdidMode) (descriptors block : Bytes)
    → length descriptors ≡ 72
    → Holds 54 descriptors block
    → (t : DetailedTiming) × (timing_for mode ≡ some t)
      × (read_detailed_timing (take 18 descriptors) ≡ t)
    → StartsWith mode block
first_descriptor mode descriptors block l there (t, known, reads) = (
  t,
  known,
  ap read_detailed_timing (
        sym (take-take 18 (length descriptors) (drop 54 block) (omega (arith, l)))
        ∙ ap (take 18) there)
      ∙ reads,
)

written-Describes :
    (identity : EdidNumericIdentity) (preferred : EdidMode) (modes detailed : List EdidMode)
    (descriptors block : Bytes)
    → length descriptors ≡ 72
    → (t : DetailedTiming) × (timing_for preferred ≡ some t)
      × (read_detailed_timing (take 18 descriptors) ≡ t)
    → All (λ w. Holds w.0 w.1 block) (base_writes identity modes detailed descriptors)
    → Describes identity preferred block
unfolding encode_pnp_id letter_bits
written-Describes identity preferred modes detailed descriptors block l t h = (
  record { maker = h.0; product = h.1.0; serial = h.1.1.0 },
  first_descriptor preferred descriptors block l h.1.1.1.1.1.1.1.1.0 t,
)

-- What a block describes is told by its first 126 bytes.
pub Describes-prefix :
    (identity : EdidNumericIdentity) (mode : EdidMode) (s t : Bytes)
    → take 126 s ≡ take 126 t
    → Describes identity mode t
    → Describes identity mode s
Describes-prefix identity mode s t e (i, (timing, known, reads)) = (
  record {
    maker = Holds-prefix 126 8 _ s t (omega arith) e i.maker;
    product = Holds-prefix 126 10 _ s t (omega arith) e i.product;
    serial = Holds-prefix 126 12 _ s t (omega arith) e i.serial;
  },
  (timing, known, ap read_detailed_timing (cut-prefix 126 54 18 s t (omega arith) e) ∙ reads),
)

pub write_base_block-Describes :
    (identity : EdidNumericIdentity) (preferred : EdidMode) (rest : List EdidMode)
    (extension_count : ℕ) (block : Bytes)
    → All IsSupported (preferred ∷ rest)
    → length block ≡ 128
    → Gives
        (Describes identity preferred)
        (write_base_block identity (preferred ∷ rest) extension_count block)
unfolding write_base_block select_base_detailed_modes
write_base_block-Describes identity preferred rest extension_count block h e =
    Gives-bind (copy_at-Gives 128 0 edid_header block (omega arith) e) λ headed k.
      Gives-bind
        (Gives-both (select_base_detailed_modes-Gives preferred rest h)
          (selected_first preferred rest))
        λ detailed d.
          Gives-bind
            (Gives-both (detailed_descriptors-Gives 4 detailed d.0)
              (first_described preferred detailed d.0 d.1))
            λ descriptors l.
              Gives-bind
                (copy_all-Holds 128 (base_writes identity (preferred ∷ rest) detailed descriptors)
                  headed (selected-Ascending identity (preferred ∷ rest) detailed descriptors l.0)
                  k)
                λ written w.
                  Gives-map
                    (copy_at-take 128 126 126 (extension_count ∷ []) written (omega arith)
                      (omega arith) w.0)
                    (λ sealed s. Describes-prefix identity preferred sealed written s.1 (
                      written-Describes identity preferred (preferred ∷ rest) detailed descriptors
                        written l.0 l.1 w.1))
