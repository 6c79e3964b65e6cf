-- ===== src/Identity/Priority.antt =====
-- Which identifier the resolver of crates/pronk-core/src/identity.rs gives for the name of a manufacturer.
use pronk.Common.{
  suc, ltb, ◌>>=◌, ◌≡◌, ◌⊎◌, true, false, Option, none, some, List, [], ◌∷◌, ◌==◌, length, Bytes,
  BTreeMap, get, bytes_order, refl, Bool-cases, Option-cases, inl, inr, ok, bind-ok, err_if-ok,
  subst, sym,
}
use pronk.Edid.Request.{TextLibraries}
use pronk.Edid.Blocks.{PnpId}
use pronk.Identity.Values.{
  LineLibraries, Names, PnpAlias, PnpSet, exact_name, legal_suffix_name, reviewed_alias,
  synthesizer_fallback, PnpResolutionSource, empty_database, database_too_large, ResolvedPnpId,
  PnpIdResolver, pnp_order,
}
use pronk.Identity.{
  max_database_bytes, with_names, with_aliases, resolution, fallback_of, exact_key, legal_key,
  index_names, insert_lines, check_names, insert_aliases, resolver_of, from_database,
  resolution_from_candidates, resolve_legal, resolve_name, resolve,
}
use pronk.Identity.Candidates.{IsNamed, IsLeast, IsIndexed, index_names-IsIndexed}

-- No identifier has a name with this key.
abbrev pub IsUnknown : (Bytes → Bytes) → Bytes → Names → Type 0
IsUnknown key_of key names = (id : PnpId) → IsNamed key_of key id names → ⊥

-- Of an alias for this name, or of none.
abbrev pub IsAlias : PnpIdResolver → Option PnpId → ResolvedPnpId → Type 0
IsAlias r (some pnp_id) answer = (answer.pnp_id ≡ pnp_id) × (answer.source ≡ reviewed_alias)
IsAlias r none answer = (answer.pnp_id ≡ r.fallback) × (answer.source ≡ synthesizer_fallback)

module _ (text : TextLibraries) (lines : LineLibraries) where
  -- The answer for a name without a database name that is the same up to its normalization.
  abbrev pub IsLegal : PnpIdResolver → Bytes → ResolvedPnpId → Type 0
  IsLegal r legal answer =
      (IsLeast (legal_key text lines) legal answer.pnp_id r.names_by_id
        × (answer.source ≡ legal_suffix_name))
      ⊎ (IsUnknown (legal_key text lines) legal r.names_by_id
          × IsAlias r (get bytes_order legal r.aliases) answer)

  abbrev pub IsExact : PnpIdResolver → Bytes → Bytes → ResolvedPnpId → Type 0
  IsExact r exact legal answer =
      (IsLeast (exact_key text lines) exact answer.pnp_id r.names_by_id
        × (answer.source ≡ exact_name))
      ⊎ (IsUnknown (exact_key text lines) exact r.names_by_id × IsLegal r legal answer)

  abbrev pub Answers : PnpIdResolver → Bytes → ResolvedPnpId → Type 0
  Answers r name answer =
      ((length (exact_key text lines name) == 0 ≡ true) × IsAlias r none answer)
      ⊎ ((length (exact_key text lines name) == 0 ≡ false)
          × IsExact r (exact_key text lines name) (legal_key text lines name) answer)

  -- The two indexes are those of the names.
  abbrev pub IsBuilt : PnpIdResolver → Type 0
  IsBuilt r =
      (r.exact_ids_by_name ≡ index_names (exact_key text lines) r.names_by_id [])
      × (r.legal_ids_by_name ≡ index_names (legal_key text lines) r.names_by_id [])

  from_database-IsBuilt :
      (database : Bytes) (aliases : List PnpAlias) (fallback : PnpId) (r : PnpIdResolver)
      → from_database text lines database aliases fallback ≡ ok r
      → IsBuilt r
  unfolding from_database
  from_database-IsBuilt database aliases fallback r e =
      let read = insert_lines text lines 1 (lines.lines database) [] in
      let large = ltb max_database_bytes (length database) in
      let (_, small) =
        err_if-ok large (database_too_large (length database))
          (read >>= with_names text lines aliases fallback) r e in
      let (names, _, after_names) = bind-ok read (with_names text lines aliases fallback) r small in
      let checked = check_names text lines names in
      let (_, filled) =
        err_if-ok (length names == 0) empty_database
          (checked >>= λ _. with_aliases text lines aliases fallback names) r after_names in
      let (_, _, after_check) =
        bind-ok checked (λ _. with_aliases text lines aliases fallback names) r filled in
      let (reviewed, _, built) =
        bind-ok (insert_aliases text lines names aliases [])
          (λ reviewed. ok (resolver_of text lines names reviewed fallback)) r after_check in
      let same : resolver_of text lines names reviewed fallback ≡ r = cc built in
      subst IsBuilt same (refl, refl)

  -- One candidate or more, from an index.
  answer_of :
      (r : PnpIdResolver) (source : PnpResolutionSource) (set : PnpSet) (key_of : Bytes → Bytes)
      (key : Bytes)
      → IsIndexed key_of key r.names_by_id (some set)
      → (answer : ResolvedPnpId) × (resolution_from_candidates r set source ≡ some answer)
        × (answer.database_name ≡ get pnp_order answer.pnp_id r.names_by_id)
        × IsLeast key_of key answer.pnp_id r.names_by_id
        × (answer.source ≡ source)
  answer_of r source [] key_of key h = absurd h
  answer_of r source ((id, v) ∷ rest) key_of key h =
      (resolution r id source (suc (length rest)), refl, refl, h, refl)

  abbrev IsGiven : PnpIdResolver → (ResolvedPnpId → Type 0) → Option ResolvedPnpId → Type 0
  IsGiven r P given =
      (answer : ResolvedPnpId) × (given ≡ some answer)
      × (answer.database_name ≡ get pnp_order answer.pnp_id r.names_by_id)
      × P answer

  -- What an index of the resolver has, by what it is found to have.
  found :
      (key_of : Bytes → Bytes) (key : Bytes) (names : Names) (index : BTreeMap Bytes PnpSet)
      (o : Option PnpSet)
      → index ≡ index_names key_of names []
      → get bytes_order key index ≡ o
      → IsIndexed key_of key names o
  found key_of key names index o built e = subst (IsIndexed key_of key names) e (
      subst (λ i. IsIndexed key_of key names (get bytes_order key i)) (sym built)
        (index_names-IsIndexed key_of key names))

  resolve_legal_lem :
      (r : PnpIdResolver) (legal : Bytes)
      → IsBuilt r
      → IsGiven r (IsLegal r legal) (resolve_legal text lines r legal)
  unfolding resolve_legal
  resolve_legal_lem r legal built =
      elim (Option-cases (get bytes_order legal r.legal_ids_by_name)) [
        | inr (set, e) ↦
            let h =
              found (legal_key text lines) legal r.names_by_id r.legal_ids_by_name (some set)
                built.1 e in
            let (answer, gives, named, least, source) =
              answer_of r legal_suffix_name set (legal_key text lines) legal h in
            rw (resolve_legal, e) (answer, gives, named, inl (least, source))
        | inl e ↦
            let unknown =
              found (legal_key text lines) legal r.names_by_id r.legal_ids_by_name none built.1 e in
            elim (Option-cases (get bytes_order legal r.aliases)) [
              | inl a ↦
                  rw (resolve_legal, e, a) (fallback_of r, refl, refl, inr (unknown, (refl, refl)))
              | inr (pnp_id, a) ↦
                  rw (resolve_legal, e, a)
                    (resolution r pnp_id reviewed_alias 1, refl, refl, inr (unknown, (refl, refl)))
            ]
      ]

  resolve_exact_lem :
      (r : PnpIdResolver) (name : Bytes)
      → IsBuilt r
      → (length (exact_key text lines name) == 0) ≡ false
      → IsGiven r
          (IsExact r (exact_key text lines name) (legal_key text lines name))
          (resolve_name text lines r name)
  unfolding resolve_name
  resolve_exact_lem r name built h =
      let exact = exact_key text lines name in
      let (legal_answer, legal_gives, legal_named, legal) =
        resolve_legal_lem r (legal_key text lines name) built in
      elim (Option-cases (get bytes_order exact r.exact_ids_by_name)) [
        | inl e ↦
            let unknown =
              found (exact_key text lines) exact r.names_by_id r.exact_ids_by_name none built.0 e in
            rw (resolve_name, h, e) (legal_answer, legal_gives, legal_named, inr (unknown, legal))
        | inr (set, e) ↦
            let f =
              found (exact_key text lines) exact r.names_by_id r.exact_ids_by_name (some set)
                built.0 e in
            let (answer, gives, named, least, source) =
              answer_of r exact_name set (exact_key text lines) exact f in
            rw (resolve_name, h, e) (answer, gives, named, inl (least, source))
      ]

  resolve_name-Answers :
      (r : PnpIdResolver) (name : Bytes)
      → IsBuilt r
      → IsGiven r (Answers r name) (resolve_name text lines r name)
  unfolding resolve_name
  resolve_name-Answers r name built = elim (Bool-cases (length (exact_key text lines name) == 0)) [
    | inl h ↦ rw (resolve_name, h) (fallback_of r, refl, refl, inl (refl, (refl, refl)))
    | inr h ↦
        let (answer, gives, named, exact) = resolve_exact_lem r name built h in
        (answer, gives, named, inr (h, exact))
  ]

  pub resolve-Answers :
      (database : Bytes) (aliases : List PnpAlias) (fallback : PnpId) (r : PnpIdResolver)
      → from_database text lines database aliases fallback ≡ ok r
      → (name : Bytes)
      → (answer : ResolvedPnpId) × (resolve text lines r none (some name) ≡ some (ok answer))
        × (answer.database_name ≡ get pnp_order answer.pnp_id r.names_by_id)
        × Answers r name answer
  unfolding resolve
  resolve-Answers database aliases fallback r e name =
      let (answer, gives, named, answers) =
        resolve_name-Answers r name (from_database-IsBuilt database aliases fallback r e) in
      rw gives (answer, refl, named, answers)
