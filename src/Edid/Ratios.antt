-- ===== src/Edid/Ratios.antt =====
-- The fuel of `greatest_common_divisor` in crates/pronk-core/src/edid.rs is enough for its loop.
use native.Mathlib.Nat.{mod-lt, zero-lt-suc}
use pronk.Common.{
  sym, ap, ℕ, zero, suc, ◌%◌, ◌<◌, ◌≡◌, true, false, ◌==◌, if◌then◌else◌, arith, refl, Bool-cases,
  inl, inr, ◌∙◌,
}
use pronk.Edid.Modes.{gcd_loop, greatest_common_divisor}

gcd_loop-zero : (n left right : ℕ) → (right == 0) ≡ true → gcd_loop (suc n) left right ≡ left
unfolding gcd_loop
gcd_loop-zero n left right e = rw (gcd_loop, e) refl

gcd_loop-suc :
    (n left right : ℕ)
    → (right == 0) ≡ false
    → gcd_loop (suc n) left right ≡ gcd_loop n right (left % right)
unfolding gcd_loop
gcd_loop-suc n left right e = rw (gcd_loop, e) refl

remainder-smaller : (left right : ℕ) → (right == 0) ≡ false → left % right < right
remainder-smaller left zero e = absurd (ground (arith, e))
remainder-smaller left (suc right) e = mod-lt left (zero-lt-suc right)

-- More fuel than the right number makes no difference.
gcd_loop-fuel :
    (m n left right : ℕ) → right < m → right < n → gcd_loop m left right ≡ gcd_loop n left right
gcd_loop-fuel zero n left right h k = absurd (omega arith)
gcd_loop-fuel (suc m) zero left right h k = absurd (omega arith)
gcd_loop-fuel (suc m) (suc n) left right h k = elim (Bool-cases (right == 0)) [
  | inl done ↦ gcd_loop-zero m left right done ∙ sym (gcd_loop-zero n left right done)
  | inr more ↦
      let smaller = remainder-smaller left right more in
      gcd_loop-suc m left right more
      ∙ (gcd_loop-fuel m n right (left % right) (omega (arith, smaller, h))
            (omega (arith, smaller, k))
          ∙ sym (gcd_loop-suc n left right more))
]

-- The function is its loop: it returns the left number when the right one is zero, and otherwise
-- goes on with the right number and the remainder.
pub greatest_common_divisor_lem :
    (left right : ℕ)
    → greatest_common_divisor left right
      ≡ (if right == 0 then left else greatest_common_divisor right (left % right))
unfolding greatest_common_divisor
greatest_common_divisor_lem left right = elim (Bool-cases (right == 0)) [
  | inl done ↦
      gcd_loop-zero right left right done
      ∙ sym (ap (λ b. if b then left else greatest_common_divisor right (left % right)) done)
  | inr more ↦
      gcd_loop-suc right left right more
      ∙ (gcd_loop-fuel right (suc (left % right)) right (left % right)
            (remainder-smaller left right more) (omega arith)
          ∙ sym (
              ap (λ b. if b then left else gcd_loop (suc (left % right)) right (left % right))
                more))
]
