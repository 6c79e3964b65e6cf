-- ===== src/Codec/StartCodes.antt =====
-- Units in Annex B, and where crates/pronk-media/src/h264.rs finds the start codes between them.
use pronk.Common.{
  ℕ, zero, suc, ◌+◌, ◌%◌, ◌≤◌, ◌≡◌, ◌≢◌, Bool, true, false, not, ◌&&◌, Option, none, some, List, [],
  ◌∷◌, ◌++◌, ◌==◌, if◌then◌else◌, length, drop, Bytes, arith, refl, ap, ◌∙◌,
}
use pronk.Codec.{starts_with_short, starts_with_long, later, find_start_code}

-- The bytes of a unit hold no start code, and the last of them is not zero.
abbrev pub is_plain : Bytes → Bool
is_plain [] = true
is_plain (b ∷ []) = not (b == 0)
is_plain (b ∷ c ∷ rest) = not (starts_with_short (b ∷ c ∷ rest)) && is_plain (c ∷ rest)

-- A unit: whether its start code has four bytes, its first byte, and the others.
pub record NalUnit : Type 0 where
  pub long_prefix : Bool
  pub first_byte : ℕ
  pub others : Bytes

abbrev pub unit_bytes : NalUnit → Bytes
unit_bytes u = u.first_byte ∷ u.others

abbrev pub prefix : Bool → Bytes
prefix true = 0 ∷ 0 ∷ 0 ∷ 1 ∷ []
prefix false = 0 ∷ 0 ∷ 1 ∷ []

abbrev pub IsUnit : NalUnit → Type 0
IsUnit u = (is_plain (unit_bytes u) ≡ true) × (u.first_byte % 32 ≢ 0)

abbrev pub annex_b : List NalUnit → Bytes
annex_b [] = []
annex_b (u ∷ rest) = prefix u.long_prefix ++ (unit_bytes u ++ annex_b rest)

abbrev shift : ℕ → Option (ℕ × ℕ) → Option (ℕ × ℕ)
shift n none = none
shift n (some (d, p)) = some (n + d, p)

plain-short :
    (b : ℕ) (xs tail : Bytes)
    → is_plain (b ∷ xs) ≡ true
    → starts_with_short ((b ∷ xs) ++ tail) ≡ false
plain-short b [] [] h = refl
plain-short b [] (c ∷ []) h = refl
plain-short b [] (c ∷ d ∷ tail) h = ground (arith, h)
plain-short b (c ∷ []) [] h = refl
plain-short b (c ∷ []) (d ∷ tail) h = ground (arith, h)
plain-short b (c ∷ d ∷ xs) tail h = ground (arith, h)

plain-long :
    (b : ℕ) (xs tail : Bytes)
    → is_plain (b ∷ xs) ≡ true
    → starts_with_long ((b ∷ xs) ++ tail) ≡ false
plain-long b [] tail h = ground (arith, h)
plain-long b (c ∷ xs) tail h = ground (arith, plain-short c xs tail (ground (arith, h)))

plain_rest : (b : ℕ) (xs : Bytes) → is_plain (b ∷ xs) ≡ true → is_plain xs ≡ true
plain_rest b [] h = refl
plain_rest b (c ∷ xs) h = ground (arith, h)

later-shift : (n : ℕ) (o : Option (ℕ × ℕ)) → later (shift n o) ≡ shift (suc n) o
later-shift n none = refl
later-shift n (some (d, p)) = ap (λ k. some (k, p)) (omega arith)

shift-zero : (o : Option (ℕ × ℕ)) → o ≡ shift 0 o
shift-zero none = refl
shift-zero (some (d, p)) = ap (λ k. some (k, p)) (omega arith)

-- The first start code after plain bytes is the first one of what follows them.
find_start_code-append :
    (xs tail : Bytes)
    → is_plain xs ≡ true
    → find_start_code (xs ++ tail) ≡ shift (length xs) (find_start_code tail)
unfolding find_start_code
find_start_code-append [] tail h = shift-zero (find_start_code tail)
find_start_code-append (b ∷ xs) tail h =
    rw (plain-long b xs tail h, plain-short b xs tail h)
      (ap later (find_start_code-append xs tail (plain_rest b xs h)) ∙ later-shift (length xs) _)

abbrev pub prefix_bytes : Bool → ℕ
prefix_bytes long = if long then 4 else 3

pub find_start_code-prefix :
    (long : Bool) (tail : Bytes)
    → find_start_code (prefix long ++ tail) ≡ some (0, prefix_bytes long)
unfolding find_start_code
find_start_code-prefix true tail = refl
find_start_code-prefix false tail = ground arith

pub drop-prefix :
    (long : Bool) (tail : Bytes) → drop (prefix_bytes long) (prefix long ++ tail) ≡ tail
drop-prefix true tail = refl
drop-prefix false tail = refl

drop-append : (k n : ℕ) (xs ys : Bytes) → k ≡ length xs + n → drop k (xs ++ ys) ≡ drop n ys
drop-append k n [] ys e = ap (λ m. drop m ys) (omega (arith, e))
drop-append zero n (x ∷ xs) ys e = absurd (omega (arith, e))
drop-append (suc k) n (x ∷ xs) ys e = drop-append k n xs ys (omega (arith, e))

pub find_start_code-alone : (xs : Bytes) → is_plain xs ≡ true → find_start_code (xs ++ []) ≡ none
unfolding find_start_code
find_start_code-alone xs h = find_start_code-append xs [] h

pub find_start_code-next :
    (xs : Bytes) (long : Bool) (tail : Bytes)
    → is_plain xs ≡ true
    → find_start_code (xs ++ (prefix long ++ tail)) ≡ some (length xs + 0, prefix_bytes long)
find_start_code-next xs long tail h =
    find_start_code-append xs (prefix long ++ tail) h
    ∙ ap (shift (length xs)) (find_start_code-prefix long tail)

pub drop-next :
    (xs : Bytes) (long : Bool) (tail : Bytes)
    → drop (length xs + 0 + prefix_bytes long) (xs ++ (prefix long ++ tail)) ≡ tail
drop-next xs long tail =
    drop-append (length xs + 0 + prefix_bytes long) (prefix_bytes long) xs (prefix long ++ tail)
      (omega arith)
    ∙ drop-prefix long tail

pub length-prefix : (long : Bool) → 1 ≤ length (prefix long)
length-prefix true = omega arith
length-prefix false = omega arith
