-- ===== src/Diagnostics/Cuts.antt =====
-- A bounded text is a prefix of the text, cut at the last character boundary that fits.
use pronk.Common.{
  ℕ, zero, suc, ◌-◌, ◌≤◌, ◌<◌, ◌≡◌, true, refl, arith, length, take, min, Bytes, length-take,
  length-append, codes, ℕ_discrete, ap,
}
use pronk.Diagnostics.{is_char_boundary, last_boundary, bounded_text, bounded_text_with_ellipsis}

last_boundary-le : (value : Bytes) (n : ℕ) → last_boundary value n ≤ n
unfolding last_boundary
last_boundary-le value zero = omega arith
last_boundary-le value (suc n) = ground (arith, last_boundary-le value n)

last_boundary-is_char_boundary :
    (value : Bytes) (n : ℕ) → is_char_boundary value (last_boundary value n) ≡ true
unfolding last_boundary
last_boundary-is_char_boundary value zero = unfold is_char_boundary in refl
last_boundary-is_char_boundary value (suc n) =
    ground (arith, last_boundary-is_char_boundary value n)

last_boundary-greatest :
    (value : Bytes) (n k : ℕ) → is_char_boundary value k ≡ true → k ≤ n → k ≤ last_boundary value n
unfolding last_boundary
last_boundary-greatest value zero k h le = omega arith
last_boundary-greatest value (suc n) k h le = elim (ℕ_discrete k (suc n)) [
  | yes top ↦ ground (arith, ap (is_char_boundary value) top)
  | no below ↦ ground (arith, last_boundary-le value n, last_boundary-greatest value n k h)
]

-- A text that is too long is cut at a boundary of its characters, within the maximum, and at the
-- last such boundary; a text that fits is kept.
pub bounded_text_lem :
    (value : Bytes) (maximum : ℕ)
    → (length (bounded_text value maximum) ≤ maximum)
      × (length value ≤ maximum → bounded_text value maximum ≡ value)
      × (maximum < length value
          → (cut : ℕ) × (bounded_text value maximum ≡ take cut value)
            × (is_char_boundary value cut ≡ true)
            × (cut ≤ maximum)
            × ((k : ℕ) → is_char_boundary value k ≡ true → k ≤ maximum → k ≤ cut))
unfolding bounded_text
bounded_text_lem value maximum = (
  ground (arith, length-take (last_boundary value maximum) value, last_boundary-le value maximum),
  λ h. ground arith,
  λ h. (
    last_boundary value maximum,
    ground arith,
    last_boundary-is_char_boundary value maximum,
    last_boundary-le value maximum,
    last_boundary-greatest value maximum,
  ),
)

-- With the ellipsis the text fits too, if the maximum leaves room for it.
length-bounded_text_with_ellipsis :
    (value : Bytes) (maximum : ℕ)
    → 3 ≤ maximum
    → length (bounded_text_with_ellipsis value maximum) ≤ maximum
unfolding bounded_text_with_ellipsis
length-bounded_text_with_ellipsis value maximum h =
    let cut = last_boundary value (min (maximum - 3) (length value)) in
    ground (
      arith,
      length-append (take cut value) (codes "..."),
      length-take cut value,
      last_boundary-le value (min (maximum - 3) (length value)),
    )
