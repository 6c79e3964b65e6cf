-- ===== src/Edid/Lengths.antt =====
-- The parts of the base block of crates/pronk-core/src/edid.rs: their lengths, and that writing them
-- does not panic.
use pronk.Common.{
  ℕ, zero, suc, ◌*◌, ◌≡◌, inl, inr, Bool, true, false, not, ◌&&◌, ◌==◌, Option, none, some, is_some,
  if◌then◌else◌, ◌/◌, List, [], ◌∷◌, ◌++◌, All, take, length, length-append, Bytes, arith, refl,
  Option-cases,
}
use pronk.Edid.Panics.{Gives, gives, Gives-bind, copy_at-Gives, copy_all-Gives, zeros, length-zeros}
use pronk.Edid.Timings.{EdidMode, DetailedTiming, timing_for}
use pronk.Edid.Modes.{
  standard_timing, standard_bytes, standard_aspect, reduced_aspect_ratio, established_timing_bit,
}
use pronk.Edid.Blocks.{
  timing_writes, write_detailed_timing, select_base_detailed_modes, select_more, only_detailed,
  set_bit, write_established_timings, standard_timings, cons_some, contains_mode, standard_slots,
  detailed_descriptors,
}

abbrev pub HasLength : ℕ → Bytes → Type 0
HasLength n bytes = length bytes ≡ n

-- A mode of the timing table.
abbrev pub IsSupported : EdidMode → Type 0
IsSupported mode = Gives (λ t. Unit {0}) (timing_for mode)

pub write_detailed_timing-Gives :
    (t : DetailedTiming) (descriptor : Bytes)
    → length descriptor ≡ 18
    → Gives (HasLength 18) (write_detailed_timing t descriptor)
unfolding write_detailed_timing timing_writes
write_detailed_timing-Gives t descriptor e =
    copy_all-Gives 18 (timing_writes t) descriptor (omega arith) e

pub detailed_descriptors-Gives :
    (n : ℕ) (modes : List EdidMode)
    → All IsSupported modes
    → Gives (HasLength (n * 18)) (detailed_descriptors n modes)
unfolding detailed_descriptors
detailed_descriptors-Gives zero modes h = gives refl
detailed_descriptors-Gives (suc n) [] h =
    Gives-bind (copy_at-Gives 18 3 (16 ∷ []) (zeros 18) (omega arith) (length-zeros 18)) (λ d e.
      Gives-bind (detailed_descriptors-Gives n [] tt)
        (λ rest f. gives (omega (arith, length-append d rest, e, f))))
detailed_descriptors-Gives (suc n) (mode ∷ modes) h = Gives-bind h.0 (λ t _.
    Gives-bind (write_detailed_timing-Gives t (zeros 18) (length-zeros 18)) (λ d e.
      Gives-bind (detailed_descriptors-Gives n modes h.1)
        (λ rest f. gives (omega (arith, length-append d rest, e, f)))))

length-set_bit : (i bit : ℕ) (bytes : Bytes) → length (set_bit i bit bytes) ≡ length bytes
unfolding set_bit
length-set_bit i bit [] = ground arith
length-set_bit zero bit (b ∷ bs) = omega arith
length-set_bit (suc i) bit (b ∷ bs) = omega (arith, length-set_bit i bit bs)

pub length-write_established_timings :
    (bytes : Bytes) (modes : List EdidMode)
    → length (write_established_timings bytes modes) ≡ length bytes
unfolding write_established_timings
length-write_established_timings bytes [] = refl
length-write_established_timings bytes (mode ∷ rest) =
    elim (Option-cases (established_timing_bit mode)) [
      | inl e ↦ rw e (length-write_established_timings bytes rest)
      | inr ((i, bit), e) ↦ rw e (
          omega (
            arith,
            length-write_established_timings (set_bit i bit bytes) rest,
            length-set_bit i bit bytes,
          ))
    ]

standard_bytes-length :
    (horizontal : ℕ) (aspect : Option ℕ) (bytes : Bytes)
    → standard_bytes horizontal aspect ≡ some bytes
    → length bytes ≡ 2
unfolding standard_bytes
standard_bytes-length horizontal aspect bytes e = ground arith

standard_timing-length :
    (mode : EdidMode) (bytes : Bytes) → standard_timing mode ≡ some bytes → length bytes ≡ 2
unfolding standard_timing
standard_timing-length mode bytes e = ground (
  arith,
  e,
  standard_bytes-length (mode.width / 8) (standard_aspect (reduced_aspect_ratio mode)) bytes,
)

cons_some-lengths :
    (o : Option Bytes) (rest : List Bytes)
    → ((bytes : Bytes) → o ≡ some bytes → length bytes ≡ 2)
    → All (HasLength 2) rest
    → All (HasLength 2) (cons_some o rest)
cons_some-lengths none rest h k = k
cons_some-lengths (some bytes) rest h k = (h bytes refl, k)

if-lengths :
    (b : Bool) (xs ys : List Bytes)
    → All (HasLength 2) xs
    → All (HasLength 2) ys
    → All (HasLength 2) (if b then xs else ys)
if-lengths true xs ys h k = h
if-lengths false xs ys h k = k

pub standard_timings-lengths :
    (detailed modes : List EdidMode) → All (HasLength 2) (standard_timings detailed modes)
unfolding standard_timings
standard_timings-lengths detailed [] = tt
standard_timings-lengths detailed (mode ∷ rest) =
    let others = standard_timings-lengths detailed rest in
    if-lengths _ _ _
      (cons_some-lengths (standard_timing mode) _ (standard_timing-length mode) others) others

pub length-standard_slots :
    (n : ℕ) (timings : List Bytes)
    → All (HasLength 2) timings
    → length (standard_slots n timings) ≡ n * 2
unfolding standard_slots
length-standard_slots zero timings h = refl
length-standard_slots (suc n) [] h = omega (arith, length-standard_slots n [] tt)
length-standard_slots (suc n) (timing ∷ rest) h =
    omega
      (arith, length-append timing (standard_slots n rest), h.0, length-standard_slots n rest h.1)

All-append {ℓ κ} :
    {A : Type ℓ} (P : A → Type κ) (xs ys : List A) → All P xs → All P ys → All P (xs ++ ys)
All-append P [] ys h k = k
All-append P (x ∷ xs) ys h k = (h.0, All-append P xs ys h.1 k)

pub All-take {ℓ κ} :
    {A : Type ℓ} (P : A → Type κ) (n : ℕ) (xs : List A) → All P xs → All P (take n xs)
All-take P zero xs h = tt
All-take P (suc n) [] h = tt
All-take P (suc n) (x ∷ xs) h = (h.0, All-take P n xs h.1)

if-IsSupported :
    (b : Bool) (xs ys : List EdidMode)
    → All IsSupported xs
    → All IsSupported ys
    → All IsSupported (if b then xs else ys)
if-IsSupported true xs ys h k = h
if-IsSupported false xs ys h k = k

only_detailed-IsSupported :
    (modes : List EdidMode) → All IsSupported modes → All IsSupported (only_detailed modes)
unfolding only_detailed
only_detailed-IsSupported [] h = tt
only_detailed-IsSupported (mode ∷ rest) h =
    let others : All IsSupported (only_detailed rest) = only_detailed-IsSupported rest h.1 in
    let all : All IsSupported (mode ∷ only_detailed rest) = (h.0, others) in
    if-IsSupported
      (not (is_some (established_timing_bit mode)) && not (is_some (standard_timing mode)))
      (mode ∷ only_detailed rest) (only_detailed rest) all others

select_more-IsSupported :
    (modes selected : List EdidMode)
    → All IsSupported selected
    → All IsSupported modes
    → All IsSupported (select_more selected modes)
unfolding select_more
select_more-IsSupported [] selected s h = s
select_more-IsSupported (mode ∷ rest) selected s h =
    let one : All IsSupported (mode ∷ []) = (h.0, tt) in
    let next : List EdidMode =
      if contains_mode mode selected then selected else selected ++ (mode ∷ []) in
    let next_supported : All IsSupported next =
      if-IsSupported (contains_mode mode selected) selected (selected ++ (mode ∷ [])) s
        (All-append IsSupported selected (mode ∷ []) s one) in
    if-IsSupported (length selected == 4) selected (select_more next rest) s
      (select_more-IsSupported rest next next_supported h.1)

pub select_base_detailed_modes-Gives :
    (preferred : EdidMode) (rest : List EdidMode)
    → All IsSupported (preferred ∷ rest)
    → Gives (All IsSupported) (select_base_detailed_modes (preferred ∷ rest))
unfolding select_base_detailed_modes
select_base_detailed_modes-Gives preferred rest h = gives (
    select_more-IsSupported (preferred ∷ rest) (preferred ∷ take 3 (only_detailed rest))
      (h.0, All-take IsSupported 3 (only_detailed rest) (only_detailed-IsSupported rest h.1)) h)
