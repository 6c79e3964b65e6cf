-- ===== src/Edid/Panics.antt =====
-- Code that may panic: `none` is a panic, by an index that is out of range, an `expect` or a
-- subtraction below zero. Writes into a byte slice, and that code does not panic.
use pronk.Common.{
  ℕ, ◌+◌, ◌-◌, ◌≤◌, ◌≡◌, Option, none, some, ◌++◌, take, drop, length, length-append, length-take,
  leb, refl, ap, ◌∙◌, All, if◌then◌else◌, Bytes, arith, List, [], ◌∷◌, zero, suc, Bool-cases, inl,
  inr,
}

infixl 1 ◌>>=◌
abbrev pub ◌>>=◌ {ℓ κ} : {A : Type ℓ} {B : Type κ} → Option A → (A → Option B) → Option B
none >>= f = none
some a >>= f = f a

-- The code does not panic, and its value has a property.
pub data Gives {ℓ κ} {A : Type ℓ} (P : A → Type κ) : Option A → Type (ℓ ⊔ κ) where
  gives : {a : A} → P a → Gives P (some a)

pub Gives-bind {ℓ κ μ ν} :
    {A : Type ℓ} {B : Type κ} {P : A → Type μ} {Q : B → Type ν} {r : Option A} {f : A → Option B}
    → Gives P r
    → ((a : A) → P a → Gives Q (f a))
    → Gives Q (r >>= f)
Gives-bind (gives p) k = k _ p

pub Gives-map {ℓ κ μ} :
    {A : Type ℓ} {P : A → Type κ} {Q : A → Type μ} {r : Option A}
    → Gives P r
    → ((a : A) → P a → Q a)
    → Gives Q r
Gives-map (gives p) k = gives (k _ p)

-- `slice[i..i + n].copy_from_slice(bytes)` with the length of the bytes.
unfoldable pub copy_at : ℕ → Bytes → Bytes → Option Bytes
copy_at i bytes slice =
    if leb (i + length bytes) (length slice)
    then some (take i slice ++ (bytes ++ drop (i + length bytes) slice))
    else none

pub length-drop {ℓ} : {A : Type ℓ} (n : ℕ) (xs : List A) → length (drop n xs) ≡ length xs - n
length-drop zero xs = omega arith
length-drop (suc n) [] = omega arith
length-drop (suc n) (x ∷ xs) = omega (arith, length-drop n xs)

pub copied-length :
    (n i : ℕ) (bytes slice : Bytes)
    → i + length bytes ≤ n
    → length slice ≡ n
    → length (take i slice ++ (bytes ++ drop (i + length bytes) slice)) ≡ n
copied-length n i bytes slice h e = omega (
  arith,
  h,
  e,
  length-append (take i slice) (bytes ++ drop (i + length bytes) slice),
  length-append bytes (drop (i + length bytes) slice),
  length-take i slice,
  length-drop (i + length bytes) slice,
)

-- A write in range keeps the length.
pub copy_at-Gives :
    (n i : ℕ) (bytes slice : Bytes)
    → i + length bytes ≤ n
    → length slice ≡ n
    → Gives (λ s. length s ≡ n) (copy_at i bytes slice)
unfolding copy_at
copy_at-Gives n i bytes slice h e = elim (Bool-cases (leb (i + length bytes) (length slice))) [
  | inl fits ↦ rw fits (gives (copied-length n i bytes slice h e))
  | inr not ↦ absurd (ground (arith, not))
]

pub take_append {ℓ} :
    {A : Type ℓ} (n i : ℕ) (slice rest : List A)
    → n ≤ i
    → i ≤ length slice
    → take n (take i slice ++ rest) ≡ take n slice
take_append zero i slice rest h k = refl
take_append (suc n) zero slice rest h k = absurd (omega arith)
take_append (suc n) (suc i) [] rest h k = absurd (omega arith)
take_append (suc n) (suc i) (x ∷ xs) rest h k =
    ap (λ l. x ∷ l) (take_append n i xs rest (omega arith) (omega arith))

-- A write in range leaves what stands before it.
pub copy_at-take :
    (m n i : ℕ) (bytes slice : Bytes)
    → n ≤ i
    → i + length bytes ≤ m
    → length slice ≡ m
    → Gives (λ s. (length s ≡ m) × (take n s ≡ take n slice)) (copy_at i bytes slice)
unfolding copy_at
copy_at-take m n i bytes slice before h e =
    elim (Bool-cases (leb (i + length bytes) (length slice))) [
      | inl fits ↦ rw fits (
          gives (
            copied-length m i bytes slice h e,
            take_append n i slice _ before (omega (arith, h, e)),
          ))
      | inr not ↦ absurd (ground (arith, not))
    ]

-- A sequence of writes, each an offset with its bytes.
unfoldable pub copy_all : List (ℕ × Bytes) → Bytes → Option Bytes
copy_all [] slice = some slice
copy_all ((i, bytes) ∷ rest) slice = copy_at i bytes slice >>= copy_all rest

pub copy_all-Gives :
    (n : ℕ) (writes : List (ℕ × Bytes)) (slice : Bytes)
    → All (λ w. w.0 + length w.1 ≤ n) writes
    → length slice ≡ n
    → Gives (λ s. length s ≡ n) (copy_all writes slice)
unfolding copy_all
copy_all-Gives n [] slice h e = gives e
copy_all-Gives n ((i, bytes) ∷ rest) slice h e =
    Gives-bind (copy_at-Gives n i bytes slice h.0 e) (λ s. copy_all-Gives n rest s h.1)

pub copy_all-take :
    (m n : ℕ) (writes : List (ℕ × Bytes)) (slice : Bytes)
    → All (λ w. (n ≤ w.0) × (w.0 + length w.1 ≤ m)) writes
    → length slice ≡ m
    → Gives (λ s. (length s ≡ m) × (take n s ≡ take n slice)) (copy_all writes slice)
unfolding copy_all
copy_all-take m n [] slice h e = gives (e, refl)
copy_all-take m n ((i, bytes) ∷ rest) slice h e =
    Gives-bind (copy_at-take m n i bytes slice h.0.0 h.0.1 e)
      (λ s k. Gives-map (copy_all-take m n rest s h.1 k.0) (λ t l. (l.0, l.1 ∙ k.1)))

-- `f(&mut slice[i..i + n])`.
unfoldable pub with_slice : ℕ → ℕ → (Bytes → Option Bytes) → Bytes → Option Bytes
with_slice i n f slice =
    if leb (i + n) (length slice)
    then (f (take n (drop i slice)) >>= λ part. copy_at i part slice)
    else none

pub with_slice-Gives :
    (n i m : ℕ) (f : Bytes → Option Bytes) (slice : Bytes)
    → i + m ≤ n
    → length slice ≡ n
    → ((part : Bytes) → length part ≡ m → Gives (λ s. length s ≡ m) (f part))
    → Gives (λ s. length s ≡ n) (with_slice i m f slice)
unfolding with_slice
with_slice-Gives n i m f slice h e keeps = elim (Bool-cases (leb (i + m) (length slice))) [
  | inr not ↦ absurd (ground (arith, not))
  | inl fits ↦ rw fits (
      Gives-bind
        (keeps (take m (drop i slice))
          (omega (arith, h, e, length-take m (drop i slice), length-drop i slice)))
        (λ part l. copy_at-Gives n i part slice (omega (arith, l, h)) e))
]

-- `x - 1` of an unsigned integer.
unfoldable pub minus_one : ℕ → Option ℕ
minus_one zero = none
minus_one (suc n) = some n

unfoldable pub zeros : ℕ → Bytes
zeros zero = []
zeros (suc n) = 0 ∷ zeros n

pub length-zeros : (n : ℕ) → length (zeros n) ≡ n
unfolding zeros
length-zeros zero = omega arith
length-zeros (suc n) = omega (arith, length-zeros n)

-- `modes[0]`.
unfoldable pub first {ℓ} : {A : Type ℓ} → List A → Option A
first [] = none
first (x ∷ xs) = some x
