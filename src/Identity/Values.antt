-- ===== src/Identity/Values.antt =====
-- The data and the text functions of crates/pronk-core/src/identity.rs. A text is its UTF-8 bytes.
use pronk.Common.{
  ℕ, ◌≡◌, ◌≢◌, Bool, true, false, ◌&&◌, ◌||◌, Option, none, some, List, [], ◌∷◌, ◌++◌, ◌==◌, eqb,
  if◌then◌else◌, length, Bytes, Bytes-discrete, ℕ_discrete, codes, Result, ok, err, BTreeMap,
  TotalOrder, bytes_order, before_bytes, before_bytes-irreflexive, before_bytes-transitive,
  before_bytes-connected, ap,
}
use pronk.Protocol.Session.{is_uppercase}
use pronk.Edid.Request.{all_bytes}
use pronk.Edid.Blocks.{PnpId, pnp_bytes}

-- `str::lines` and `str::split_whitespace`.
pub record LineLibraries : Type 0 where
  pub lines : Bytes → List Bytes
  pub split_whitespace : Bytes → List Bytes

pub data PnpIdError : Type 0 where
  invalid_pnp_id invalid_alias duplicate_alias : Bytes → PnpIdError
  database_too_large malformed_line invalid_database_name too_many_entries : ℕ → PnpIdError
  duplicate_database_id invalid_normalized_database_name unknown_alias_target : PnpId → PnpIdError
  empty_database : PnpIdError

unfoldable pub Pnp-discrete : Discrete PnpId
unfolding ℕ_discrete
Pnp-discrete = hlevel ℕ_discrete

-- Three bytes as an array.
unfoldable pub bytes_pnp : Bytes → Option PnpId
bytes_pnp (a ∷ b ∷ c ∷ []) = some (record { first_letter = a; second_letter = b; third_letter = c })
bytes_pnp _ = none

pub pnp_bytes-connected :
    (a b : PnpId)
    → a ≢ b
    → before_bytes (pnp_bytes a) (pnp_bytes b) ≡ false
    → before_bytes (pnp_bytes b) (pnp_bytes a) ≡ true
unfolding bytes_pnp
pnp_bytes-connected a b n h =
    before_bytes-connected (pnp_bytes a) (pnp_bytes b)
      (λ e. n (let same : some a ≡ some b = ap bytes_pnp e in cc same)) h

-- The derived order of the three bytes.
abbrev pub pnp_order : TotalOrder PnpId
pnp_order = record {
  same = Pnp-discrete;
  before = λ a b. before_bytes (pnp_bytes a) (pnp_bytes b);
  irreflexive = λ a. before_bytes-irreflexive (pnp_bytes a);
  transitive = λ a b c. before_bytes-transitive (pnp_bytes a) (pnp_bytes b) (pnp_bytes c);
  connected = pnp_bytes-connected;
}

unfoldable pub parse : Bytes → Result PnpIdError PnpId
parse value = elim (bytes_pnp value) [
  | none ↦ err (invalid_pnp_id value)
  | some pnp_id ↦ if all_bytes is_uppercase value then ok pnp_id else err (invalid_pnp_id value)
]

pub data PnpResolutionSource : Type 0 where
  authenticated_pnp_id exact_name legal_suffix_name reviewed_alias synthesizer_fallback :
      PnpResolutionSource

pub record ResolvedPnpId : Type 0 where
  pub pnp_id : PnpId
  pub database_name : Option Bytes
  pub source : PnpResolutionSource
  pub candidate_count : ℕ

pub record PnpAlias : Type 0 where
  pub manufacturer_name : Bytes
  pub pnp_id : PnpId

-- `BTreeSet<PnpId>`.
abbrev pub PnpSet : Type 0
PnpSet = BTreeMap PnpId (Unit {0})

pub record PnpIdResolver : Type 0 where
  pub names_by_id : BTreeMap PnpId Bytes
  pub exact_ids_by_name : BTreeMap Bytes PnpSet
  pub legal_ids_by_name : BTreeMap Bytes PnpSet
  pub aliases : BTreeMap Bytes PnpId
  pub fallback : PnpId

abbrev pub legal_suffixes : List Bytes
legal_suffixes =
    codes "corporation"
    ∷ codes "corp"
    ∷ codes "incorporated"
    ∷ codes "inc"
    ∷ codes "company"
    ∷ codes "co"
    ∷ codes "limited"
    ∷ codes "ltd"
    ∷ codes "llc"
    ∷ codes "plc"
    ∷ codes "gmbh"
    ∷ codes "ag"
    ∷ codes "sa"
    ∷ codes "bv"
    ∷ []

abbrev pub is_suffix : Bytes → List Bytes → Bool
is_suffix word [] = false
is_suffix word (suffix ∷ rest) = eqb Bytes-discrete word suffix || is_suffix word rest

abbrev pub reversed : List Bytes → List Bytes → List Bytes
reversed result [] = result
reversed result (word ∷ rest) = reversed (word ∷ result) rest

-- The loop that pops legal suffixes, on the words in reverse; one word stays.
unfoldable pub pop_suffixes : List Bytes → List Bytes
pop_suffixes [] = []
pop_suffixes (word ∷ []) = word ∷ []
pop_suffixes (last ∷ word ∷ rest) =
    let popped = pop_suffixes (word ∷ rest) in
    if is_suffix last legal_suffixes then popped else last ∷ word ∷ rest

-- `words.join(" ")`.
abbrev pub join : List Bytes → Bytes
join [] = []
join (word ∷ []) = word
join (word ∷ next ∷ rest) = word ++ (32 ∷ join (next ∷ rest))

unfoldable pub strip_legal_suffixes : LineLibraries → Bytes → Bytes
strip_legal_suffixes lines normalized_name =
    join (reversed [] (pop_suffixes (reversed [] (lines.split_whitespace normalized_name))))

-- `char::is_ascii_whitespace`.
abbrev pub is_ascii_whitespace : ℕ → Bool
is_ascii_whitespace b = (b == 32) || (b == 9) || (b == 10) || (b == 12) || (b == 13)

-- `split_once` at the first ASCII white space.
abbrev pub cons_split : ℕ → Option (Bytes × Bytes) → Option (Bytes × Bytes)
cons_split b none = none
cons_split b (some (id, name)) = some (b ∷ id, name)

unfoldable pub split_once : Bytes → Option (Bytes × Bytes)
split_once [] = none
split_once (b ∷ bs) =
    let rest = split_once bs in if is_ascii_whitespace b then some ([], bs) else cons_split b rest

-- `trim_end_matches('\r')`.
unfoldable pub trim_end_returns : Bytes → Bytes
trim_end_returns [] = []
trim_end_returns (b ∷ bs) =
    let rest = trim_end_returns bs in if (b == 13) && (length rest == 0) then [] else b ∷ rest

-- A line that is skipped: it is empty or a comment.
abbrev pub is_skipped : Bytes → Bool
is_skipped [] = true
is_skipped (b ∷ bs) = b == 35

abbrev pub Names : Type 0
Names = BTreeMap PnpId Bytes
