-- ===== src/Edid/Framing.antt =====
-- The framing of an EDID: what `validate_edid` of crates/pronk-core/src/castkms.rs accepts, and what
-- `set_block_checksums` of crates/pronk-core/src/edid.rs makes.
use pronk.Common.{
  ℕ, zero, suc, ◌+◌, ◌-◌, ◌*◌, ◌/◌, ◌%◌, ◌≤◌, ◌<◌, ◌≡◌, ◌↔◌, ◌≢◌, Option-cases, true, false, ◌||◌,
  not, none, some, List, [], ◌∷◌, ◌++◌, ltb, leb, ◌==◌, eqb, length, length-append, length-take,
  take, drop, get_elem?, All, Bytes, Bytes-discrete, ok, arith, refl, sym, ap, subst, ◌∙◌,
  Bool-cases, inl, inr,
}
use pronk.Edid.Panics.{Gives, gives, Gives-bind, copy_at, copied-length, take_append, length-drop}
use pronk.Edid.Slices.{sum, take-take, take-append, take-length, drop-append, sum-append, sum-empty}
use pronk.Edid.Blocks.{edid_header, wrapping_sum, checksum}
use pronk.Edid.Build.{chunks, validate_checksums, declared_extensions, validate_edid, set_checksums}

-- The bytes of a block sum to a multiple of 256.
abbrev pub SumsToZero : Bytes → Type 0
SumsToZero block = sum block % 256 ≡ 0

-- An EDID of n blocks: its size, its header, the number of its extensions, and blocks that sum to 0.
pub record IsFramed (n : ℕ) (edid : Bytes) : Type 0 where
  pub size : length edid ≡ n * 128
  pub header : take 8 edid ≡ edid_header
  pub count : get_elem? edid 126 ≡ some (n - 1)
  pub sums : All SumsToZero (chunks n edid)

wrapping_sum_lem :
    (acc : ℕ) (bytes : Bytes) → acc < 256 → wrapping_sum acc bytes ≡ (acc + sum bytes) % 256
unfolding wrapping_sum sum
wrapping_sum_lem acc [] h = omega arith
wrapping_sum_lem acc (b ∷ bs) h = omega (arith, wrapping_sum_lem ((acc + b) % 256) bs (omega arith))

sealed-SumsToZero :
    (front rest : Bytes) → length rest ≡ 0 → SumsToZero (front ++ (checksum front ∷ rest))
unfolding checksum sum
sealed-SumsToZero front rest e =
    omega
      (arith, wrapping_sum_lem 0 front, sum-append front (checksum front ∷ rest), sum-empty rest e)

seal-Gives :
    (block : Bytes)
    → length block ≡ 128
    → Gives
        (λ s. (length s ≡ 128) × SumsToZero s × (take 127 s ≡ take 127 block))
        (copy_at 127 (checksum (take 127 block) ∷ []) block)
unfolding copy_at
seal-Gives block e = elim (Bool-cases (leb 128 (length block))) [
  | inl fits ↦ rw fits (
      gives (
        copied-length 128 127 (checksum (take 127 block) ∷ []) block (omega arith) e,
        sealed-SumsToZero (take 127 block) (drop 128 block)
            (omega (arith, e, length-drop 128 block)),
        take_append 127 127 block _ (omega arith) (omega arith),
      ))
  | inr not ↦ absurd (ground (arith, not))
]

first_chunk : (block rest : Bytes) → length block ≡ 128 → take 128 (block ++ rest) ≡ block
first_chunk block rest e = take-append 128 block rest (omega (arith, e)) ∙ take-length 128 block e

-- Sealed chunks sum to 0, keep their size, and the first of them keeps what stands before its
-- checksum.
pub set_checksums-Gives :
    (n : ℕ) (bytes : Bytes)
    → length bytes ≡ n * 128
    → Gives
        (λ s. (length s ≡ n * 128) × All SumsToZero (chunks n s) × (take 127 s ≡ take 127 bytes))
        (set_checksums n bytes)
unfolding set_checksums chunks
set_checksums-Gives zero bytes e = gives (e, tt, refl)
set_checksums-Gives (suc n) bytes e =
    Gives-bind (seal-Gives (take 128 bytes) (omega (arith, e, length-take 128 bytes))) λ sealed k.
      Gives-bind (set_checksums-Gives n (drop 128 bytes) (omega (arith, e, length-drop 128 bytes)))
        λ rest l. gives (
          omega (arith, k, l, length-append sealed rest),
          (
            subst SumsToZero (sym (first_chunk sealed rest k.0)) k.1,
            subst (All SumsToZero) (ap (chunks n) (sym (drop-append 128 sealed rest k.0))) l.1,
          ),
          take-append 127 sealed rest (omega (arith, k))
              ∙ (k.2 ∙ take-take 127 128 bytes (omega arith)),
        )

validate_checksums-sums :
    (block : ℕ) (blocks : List Bytes)
    → validate_checksums block blocks ≡ ok tt ↔ All SumsToZero blocks
unfolding validate_checksums
validate_checksums-sums block [] = ((λ _. tt), (λ _. refl))
validate_checksums-sums block (bytes ∷ rest) =
    ground (arith, validate_checksums-sums (block + 1) rest, wrapping_sum_lem 0 bytes)

in_range : (i : ℕ) (bytes : Bytes) → i < length bytes → get_elem? bytes i ≢ none
in_range i [] h = absurd (omega arith)
in_range zero (x ∷ xs) h = ground arith
in_range (suc i) (x ∷ xs) h = in_range i xs (omega arith)

declared-count :
    (bytes : Bytes) (count : ℕ)
    → 126 < length bytes
    → declared_extensions bytes ≡ count
    → get_elem? bytes 126 ≡ some count
declared-count bytes count h e = elim (Option-cases (get_elem? bytes 126)) [
  | inl missing ↦ absurd (in_range 126 bytes h missing)
  | inr (c, there) ↦ ground (arith, there, e)
]

count-declared :
    (bytes : Bytes) (count : ℕ)
    → get_elem? bytes 126 ≡ some count
    → declared_extensions bytes ≡ count
count-declared bytes count e = rw (declared_extensions, e) refl

accepted-IsFramed :
    (bytes : Bytes) → validate_edid bytes ≡ ok tt → (n : ℕ) × ((1 ≤ n) × (n ≤ 4)) × IsFramed n bytes
unfolding validate_edid
accepted-IsFramed bytes e = (
  length bytes / 128,
  ground (arith, e),
  record {
    size = ground (arith, e);
    header = ground (arith, e);
    count = declared-count bytes (length bytes / 128 - 1) (ground (arith, e)) (ground (arith, e));
    sums = ground (arith, e, validate_checksums-sums 0 (chunks (length bytes / 128) bytes));
  },
)

IsFramed-accepted :
    (n : ℕ) (bytes : Bytes) → 1 ≤ n → n ≤ 4 → IsFramed n bytes → validate_edid bytes ≡ ok tt
unfolding validate_edid
IsFramed-accepted n bytes low high framed =
    let blocks : length bytes / 128 ≡ n = omega (arith, framed.size) in
    let sized : (length bytes == 0 || ltb 512 (length bytes) || not (length bytes % 128 == 0))
        ≡ false =
      ground (arith, low, high, framed.size) in
    let headed : eqb Bytes-discrete (take 8 bytes) edid_header ≡ true =
      ground (arith, framed.header) in
    let counted : (declared_extensions bytes == length bytes / 128 - 1) ≡ true =
      ground (arith, blocks, count-declared bytes (n - 1) framed.count) in
    let summed : validate_checksums 0 (chunks (length bytes / 128) bytes) ≡ ok tt =
      rw blocks ((validate_checksums-sums 0 (chunks n bytes)).1 framed.sums) in
    cc (sized, headed, counted, summed)

-- `validate_edid` accepts exactly the EDIDs of one to four blocks that are framed.
pub validate_edid-IsFramed :
    (bytes : Bytes)
    → validate_edid bytes ≡ ok tt ↔ ((n : ℕ) × ((1 ≤ n) × (n ≤ 4)) × IsFramed n bytes)
validate_edid-IsFramed bytes =
    (accepted-IsFramed bytes, λ f. IsFramed-accepted f.0 bytes f.1.0 f.1.1 f.2)
