-- ===== src/Identity.antt =====
-- crates/pronk-core/src/identity.rs: the resolver of the PNP identifier of a manufacturer. A text is its
-- UTF-8 bytes; the file that `load_system` reads is not modelled.
pub mod Values
pub mod Candidates
pub mod Priority
use pronk.Common.{
  ℕ, ◌+◌, suc, ◌≡◌, ◌≢◌, Bool, true, false, ◌&&◌, ◌||◌, not, Option, none, some, is_some, List, [],
  ◌∷◌, ◌++◌, ltb, ◌==◌, eqb, if◌then◌else◌, length, Bytes, Bytes-discrete, ℕ_discrete, codes,
  Result, ok, err, ◌>>=◌, BTreeMap, get, contains_key, insert_entry, TotalOrder, bytes_order,
  before_bytes, before_bytes-irreflexive, before_bytes-transitive, before_bytes-connected, ap, refl,
  arith,
}
use pronk.Protocol.{has_control}
use pronk.Protocol.Session.{is_uppercase}
use pronk.Edid.Request.{TextLibraries, all_bytes}
use pronk.Edid.Identity.{normalize_manufacturer_name}
use pronk.Edid.Blocks.{PnpId, pnp_bytes}
use Values.{
  LineLibraries, PnpIdError, Pnp-discrete, bytes_pnp, pnp_bytes-connected, pnp_order, parse,
  PnpResolutionSource, ResolvedPnpId, PnpAlias, PnpSet, PnpIdResolver, legal_suffixes, is_suffix,
  reversed, pop_suffixes, join, strip_legal_suffixes, is_ascii_whitespace, cons_split, split_once,
  trim_end_returns, is_skipped, Names, invalid_pnp_id, invalid_alias, duplicate_alias,
  database_too_large, malformed_line, invalid_database_name, too_many_entries,
  duplicate_database_id, invalid_normalized_database_name, unknown_alias_target, empty_database,
  authenticated_pnp_id, exact_name, legal_suffix_name, reviewed_alias, synthesizer_fallback,
}

abbrev pub max_database_bytes : ℕ
max_database_bytes = 1048576

abbrev pub max_database_entries : ℕ
max_database_entries = 8192

abbrev pub max_vendor_name_bytes : ℕ
max_vendor_name_bytes = 256

-- The insertion of a line's name.
abbrev pub insert_name : PnpId → Bytes → Names → Result PnpIdError Names
insert_name pnp_id name names =
    let inserted = insert_entry pnp_order pnp_id name names in
    if contains_key pnp_order pnp_id names
    then err (duplicate_database_id pnp_id)
    else if ltb max_database_entries (length inserted)
    then err (too_many_entries (length inserted))
    else ok inserted

-- The identifiers of one normalized name, with one more.
abbrev pub candidates_of : Option PnpSet → PnpSet
candidates_of none = []
candidates_of (some set) = set

abbrev pub add_candidate : Bytes → PnpId → BTreeMap Bytes PnpSet → BTreeMap Bytes PnpSet
add_candidate key pnp_id index =
    insert_entry bytes_order key
      (insert_entry pnp_order pnp_id tt (candidates_of (get bytes_order key index))) index

module _ (text : TextLibraries) (lines : LineLibraries) where
  unfoldable pub insert_line : ℕ → Bytes → Names → Result PnpIdError Names
  insert_line line_number line names =
      if is_skipped line then ok names else elim (split_once line) [
        | none ↦ err (malformed_line line_number)
        | some (raw_id, raw_name) ↦
            let name = text.trim raw_name in
            elim (parse raw_id) [
              | err _ ↦ ok names
              | ok pnp_id ↦
                  if (length name == 0)
                    || ltb max_vendor_name_bytes (length name)
                    || has_control name
                  then err (invalid_database_name line_number)
                  else insert_name pnp_id name names
            ]
      ]

  unfoldable pub insert_lines : ℕ → List Bytes → Names → Result PnpIdError Names
  insert_lines line_number [] names = ok names
  insert_lines line_number (line ∷ rest) names =
      insert_line line_number (trim_end_returns line) names >>= insert_lines (suc line_number) rest

  abbrev pub exact_key : Bytes → Bytes
  exact_key name = normalize_manufacturer_name text name

  abbrev pub legal_key : Bytes → Bytes
  legal_key name = strip_legal_suffixes lines (exact_key name)

  -- The first name that is empty once it is normalized.
  unfoldable pub check_names : List (PnpId × Bytes) → Result PnpIdError (Unit {0})
  check_names [] = ok tt
  check_names ((pnp_id, name) ∷ rest) =
      let others = check_names rest in
      if length (exact_key name) == 0 then err (invalid_normalized_database_name pnp_id) else others

  unfoldable pub insert_aliases :
      Names → List PnpAlias → BTreeMap Bytes PnpId → Result PnpIdError (BTreeMap Bytes PnpId)
  insert_aliases names [] reviewed = ok reviewed
  insert_aliases names (alias ∷ rest) reviewed =
      let key = legal_key alias.manufacturer_name in
      let others = insert_aliases names rest (insert_entry bytes_order key alias.pnp_id reviewed) in
      if not (contains_key pnp_order alias.pnp_id names)
      then err (unknown_alias_target alias.pnp_id)
      else if length key == 0
      then err (invalid_alias alias.manufacturer_name)
      else if contains_key bytes_order key reviewed
      then err (duplicate_alias key)
      else others

-- One of the two indexes of `from_database`, over the names in the order of their identifiers.
unfoldable pub index_names :
    (Bytes → Bytes) → List (PnpId × Bytes) → BTreeMap Bytes PnpSet → BTreeMap Bytes PnpSet
index_names key_of [] index = index
index_names key_of ((pnp_id, name) ∷ rest) index =
    index_names key_of rest (add_candidate (key_of name) pnp_id index)

module _ (text : TextLibraries) (lines : LineLibraries) where
  abbrev pub resolver_of : Names → BTreeMap Bytes PnpId → PnpId → PnpIdResolver
  resolver_of names reviewed fallback = record {
    names_by_id = names;
    exact_ids_by_name = index_names (exact_key text lines) names [];
    legal_ids_by_name = index_names (legal_key text lines) names [];
    aliases = reviewed;
    fallback = fallback;
  }

  abbrev pub with_aliases : List PnpAlias → PnpId → Names → Result PnpIdError PnpIdResolver
  with_aliases aliases fallback names = insert_aliases text lines names aliases [] >>= λ reviewed.
      ok (resolver_of names reviewed fallback)

  abbrev pub with_names : List PnpAlias → PnpId → Names → Result PnpIdError PnpIdResolver
  with_names aliases fallback names =
      if length names == 0
      then err empty_database
      else check_names text lines names >>= λ _. with_aliases aliases fallback names

  unfoldable pub from_database : Bytes → List PnpAlias → PnpId → Result PnpIdError PnpIdResolver
  from_database database aliases fallback =
      if ltb max_database_bytes (length database)
      then err (database_too_large (length database))
      else insert_lines text lines 1 (lines.lines database) [] >>= with_names aliases fallback

abbrev pub resolution : PnpIdResolver → PnpId → PnpResolutionSource → ℕ → ResolvedPnpId
resolution r pnp_id source candidate_count = record {
  pnp_id = pnp_id;
  database_name = get pnp_order pnp_id r.names_by_id;
  source = source;
  candidate_count = candidate_count;
}

-- `none` is the panic on an empty set.
abbrev pub resolution_from_candidates :
    PnpIdResolver → PnpSet → PnpResolutionSource → Option ResolvedPnpId
resolution_from_candidates r [] source = none
resolution_from_candidates r ((pnp_id, _) ∷ rest) source =
    some (resolution r pnp_id source (suc (length rest)))

abbrev pub fallback_of : PnpIdResolver → ResolvedPnpId
fallback_of r = resolution r r.fallback synthesizer_fallback 0

module _ (text : TextLibraries) (lines : LineLibraries) (r : PnpIdResolver) where
  unfoldable pub resolve_legal : Bytes → Option ResolvedPnpId
  resolve_legal legal = elim (get bytes_order legal r.legal_ids_by_name) [
    | some candidates ↦ resolution_from_candidates r candidates legal_suffix_name
    | none ↦ elim (get bytes_order legal r.aliases) [
      | some pnp_id ↦ some (resolution r pnp_id reviewed_alias 1)
      | none ↦ some (fallback_of r)
    ]
  ]

  unfoldable pub resolve_name : Bytes → Option ResolvedPnpId
  resolve_name manufacturer_name =
      let exact = exact_key text lines manufacturer_name in
      let legal = resolve_legal (legal_key text lines manufacturer_name) in
      if length exact == 0
      then some (fallback_of r)
      else elim (get bytes_order exact r.exact_ids_by_name) [
        | some candidates ↦ resolution_from_candidates r candidates exact_name
        | none ↦ legal
      ]

  abbrev pub resolve_unauthenticated : Option Bytes → Option ResolvedPnpId
  resolve_unauthenticated none = some (fallback_of r)
  resolve_unauthenticated (some manufacturer_name) = resolve_name manufacturer_name

  abbrev pub authenticated : Result PnpIdError PnpId → Result PnpIdError ResolvedPnpId
  authenticated (err error) = err error
  authenticated (ok pnp_id) = ok (resolution r pnp_id authenticated_pnp_id 1)

  abbrev pub resolved : Option ResolvedPnpId → Option (Result PnpIdError ResolvedPnpId)
  resolved none = none
  resolved (some resolution) = some (ok resolution)

  -- `resolve`.
  unfoldable pub resolve : Option Bytes → Option Bytes → Option (Result PnpIdError ResolvedPnpId)
  resolve none manufacturer_name = resolved (resolve_unauthenticated manufacturer_name)
  resolve (some value) manufacturer_name = some (authenticated (parse value))
