-- ===== src/Common/Order.antt =====
-- Total orders: the derived and the standard `Ord` of the types that are keys of a map.
use mathlib.Core.Path.{◌≡◌, refl, sym}
use mathlib.Core.Logic.{◌≢◌}
use mathlib.Core.Bool.{Bool, true, false, ◌||◌, ◌&&◌}
use mathlib.Core.List.{[], ◌∷◌}
use native.Mathlib.Omega.{arith}
use pronk.Common.Tests.{ltb, ◌==◌, eqb, if◌then◌else◌}
use pronk.Common.Text.{Bytes, Bytes-discrete}

pub record TotalOrder {ℓ} (K : Type ℓ) : Type ℓ where
  pub same : Discrete K
  pub before : K → K → Bool
  pub irreflexive : (a : K) → before a a ≡ false
  pub transitive : (a b c : K) → before a b ≡ true → before b c ≡ true → before a c ≡ true
  pub connected : (a b : K) → a ≢ b → before a b ≡ false → before b a ≡ true

-- Strings compare by their bytes, from the first on.
pub before_bytes : Bytes → Bytes → Bool
before_bytes xs [] = false
before_bytes [] (b ∷ bs) = true
before_bytes (a ∷ xs) (b ∷ bs) = let rest = before_bytes xs bs in ltb a b || ((a == b) && rest)

pub before_bytes-irreflexive : (a : Bytes) → before_bytes a a ≡ false
unfolding before_bytes
before_bytes-irreflexive [] = refl
before_bytes-irreflexive (a ∷ xs) = ground (arith, before_bytes-irreflexive xs)

pub before_bytes-transitive :
    (a b c : Bytes) → before_bytes a b ≡ true → before_bytes b c ≡ true → before_bytes a c ≡ true
unfolding before_bytes
before_bytes-transitive a [] c p q = absurd (ground arith)
before_bytes-transitive a (y ∷ b) [] p q = absurd (ground arith)
before_bytes-transitive [] (y ∷ b) (z ∷ c) p q = refl
before_bytes-transitive (x ∷ a) (y ∷ b) (z ∷ c) p q = ground (arith, before_bytes-transitive a b c)

pub before_bytes-connected :
    (a b : Bytes) → a ≢ b → before_bytes a b ≡ false → before_bytes b a ≡ true
unfolding before_bytes
before_bytes-connected [] [] n p = absurd (n refl)
before_bytes-connected [] (y ∷ b) n p = absurd (ground arith)
before_bytes-connected (x ∷ a) [] n p = refl
before_bytes-connected (x ∷ a) (y ∷ b) n p = elim (Bytes-discrete a b) [
  | yes e ↦ ground (arith, n, p, e)
  | no d ↦ ground (arith, p, before_bytes-connected a b d)
]

instance abbrev pub bytes_order : TotalOrder Bytes
bytes_order = record {
  same = Bytes-discrete;
  before = before_bytes;
  irreflexive = before_bytes-irreflexive;
  transitive = before_bytes-transitive;
  connected = before_bytes-connected;
}

-- Pairs compare by their first parts, and by the second where these are the same.
module _ {ℓ κ} {A : Type ℓ} {B : Type κ} (r : TotalOrder A) (s : TotalOrder B) where
  abbrev pub before_pair : A × B → A × B → Bool
  before_pair (a, b) (c, d) = if eqb r.same a c then s.before b d else r.before a c

  pub before_pair-irreflexive : (p : A × B) → before_pair p p ≡ false
  before_pair-irreflexive (a, b) = ground (arith, s.irreflexive b, r.irreflexive a)

  pub before_pair-transitive :
      (p q t : A × B) → before_pair p q ≡ true → before_pair q t ≡ true → before_pair p t ≡ true
  before_pair-transitive (a, b) (c, d) (e, f) x y =
      ground (arith, x, y, s.transitive b d f, r.transitive a c e, r.irreflexive a, r.irreflexive c)

  pub before_pair-connected :
      (p q : A × B) → p ≢ q → before_pair p q ≡ false → before_pair q p ≡ true
  before_pair-connected (a, b) (c, d) n x = elim (r.same a c) [
    | yes e ↦ elim (s.same b d) [
      | yes f ↦ absurd (n (λ i. (e i, f i)))
      | no f ↦ ground (arith, x, e, sym e, s.connected b d f)
    ]
    | no e ↦ ground (arith, x, e, r.connected a c e)
  ]

  abbrev pub pair_discrete : Discrete (A × B)
  pair_discrete (a, b) (c, d) = elim (r.same a c) [
    | yes e ↦ elim (s.same b d) [
      | yes f ↦ yes (λ i. (e i, f i))
      | no f ↦ no (λ p. f (λ i. (p i).1))
    ]
    | no e ↦ no (λ p. e (λ i. (p i).0))
  ]

  abbrev pub pair_order : TotalOrder (A × B)
  pair_order = record {
    same = pair_discrete;
    before = before_pair;
    irreflexive = before_pair-irreflexive;
    transitive = before_pair-transitive;
    connected = before_pair-connected;
  }
