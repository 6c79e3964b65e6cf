-- ===== src/Edid/Fields.antt =====
-- Where the writes of crates/pronk-core/src/edid.rs leave their bytes in a block.
use pronk.Common.{
  ℕ, zero, suc, ◌+◌, ◌≤◌, ◌≡◌, List, [], ◌∷◌, ◌++◌, All, take, drop, length, length-take, Option,
  some, Bytes, arith, refl, sym, ap, ◌∙◌, leb, Bool-cases, inl, inr,
}
use pronk.Edid.Panics.{
  Gives, gives, Gives-bind, Gives-map, copy_at, copy_at-Gives, copy_all, copy_all-take,
}
use pronk.Edid.Slices.{take-take, take-append, take-length, drop-append}

pub Gives-both {ℓ κ μ} :
    {A : Type ℓ} {P : A → Type κ} {Q : A → Type μ} {r : Option A}
    → Gives P r
    → Gives Q r
    → Gives (λ a. P a × Q a) r
Gives-both (gives p) (gives q) = gives (p, q)

pub Gives-value {ℓ κ} :
    {A : Type ℓ} {P : A → Type κ} {r : Option A} → Gives P r → (a : A) × (r ≡ some a) × P a
Gives-value (gives p) = (_, refl, p)

-- The bytes stand at the offset.
abbrev pub Holds : ℕ → Bytes → Bytes → Type 0
Holds i bytes slice = take (length bytes) (drop i slice) ≡ bytes

take-nothing : {A : Type 0} (n : ℕ) → take {A = A} n [] ≡ []
take-nothing zero = refl
take-nothing (suc n) = refl

take-drop : (n i m : ℕ) (xs : Bytes) → m ≡ i + n → take n (drop i xs) ≡ drop i (take m xs)
take-drop n zero m xs e = ap (λ k. take k xs) (omega (arith, e))
take-drop n (suc i) zero xs e = absurd (omega (arith, e))
take-drop n (suc i) (suc m) [] e = take-nothing n
take-drop n (suc i) (suc m) (x ∷ xs) e = take-drop n i m xs (omega (arith, e))

-- A cut is told by the bytes up to its end.
pub cut-prefix :
    (m i n : ℕ) (s t : Bytes)
    → i + n ≤ m
    → take m s ≡ take m t
    → take n (drop i s) ≡ take n (drop i t)
cut-prefix m i n s t h e =
    take-drop n i (i + n) s refl
    ∙ (ap (drop i) (sym (take-take (i + n) m s h) ∙ (ap (take (i + n)) e ∙ take-take (i + n) m t h))
        ∙ sym (take-drop n i (i + n) t refl))

pub Holds-prefix :
    (m i : ℕ) (bytes s t : Bytes)
    → i + length bytes ≤ m
    → take m s ≡ take m t
    → Holds i bytes t
    → Holds i bytes s
Holds-prefix m i bytes s t h e there = cut-prefix m i (length bytes) s t h e ∙ there

copy_at-Holds :
    (m i : ℕ) (bytes slice : Bytes)
    → i + length bytes ≤ m
    → length slice ≡ m
    → Gives (Holds i bytes) (copy_at i bytes slice)
unfolding copy_at
copy_at-Holds m i bytes slice h e = elim (Bool-cases (leb (i + length bytes) (length slice))) [
  | inl fits ↦ rw fits (
      gives (
        ap (take (length bytes)) (
          drop-append i (take i slice) (bytes ++ drop (i + length bytes) slice)
            (omega (arith, h, e, length-take i slice)))
        ∙ (take-append (length bytes) bytes (drop (i + length bytes) slice) (omega arith)
            ∙ take-length (length bytes) bytes refl)))
  | inr not ↦ absurd (ground (arith, not))
]

-- Each write is in range and ends before the next ones start.
abbrev pub Ascending : ℕ → List (ℕ × Bytes) → Type 0
Ascending m [] = Unit {0}
Ascending m (w ∷ rest) =
    (w.0 + length w.1 ≤ m)
    × All (λ v. (w.0 + length w.1 ≤ v.0) × (v.0 + length v.1 ≤ m)) rest
    × Ascending m rest

-- Writes that ascend keep the size, and all stand in the result.
pub copy_all-Holds :
    (m : ℕ) (writes : List (ℕ × Bytes)) (slice : Bytes)
    → Ascending m writes
    → length slice ≡ m
    → Gives (λ s. (length s ≡ m) × All (λ w. Holds w.0 w.1 s) writes) (copy_all writes slice)
unfolding copy_all
copy_all-Holds m [] slice h e = gives (e, tt)
copy_all-Holds m ((i, bytes) ∷ rest) slice h e =
    Gives-bind
      (Gives-both (copy_at-Gives m i bytes slice h.0 e) (copy_at-Holds m i bytes slice h.0 e))
      λ s k.
        Gives-map
          (Gives-both (copy_all-take m (i + length bytes) rest s h.1 k.0)
            (copy_all-Holds m rest s h.2 k.0))
          (λ t l.
            (l.1.0, (Holds-prefix (i + length bytes) i bytes t s (omega arith) l.0.1 k.1, l.1.1)))
