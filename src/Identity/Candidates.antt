-- ===== src/Identity/Candidates.antt =====
-- Whose name a resolver of crates/pronk-core/src/identity.rs takes, said of the names of its database.
use pronk.Common.{
  ◌<◌, ◌≡◌, ◌↔◌, ◌⊎◌, true, Option, none, some, List, [], ◌∷◌, eqb, length, Bytes, BTreeMap, get,
  contains_key, insert_entry, get-insert_entry, IsSorted, insert_entry-IsSorted, Above, bytes_order,
  arith, Bool-cases, inl, inr, sym, subst,
}
use pronk.Edid.Blocks.{PnpId}
use pronk.Identity.Values.{pnp_order, PnpSet}
use pronk.Identity.{candidates_of, add_candidate, index_names}

abbrev pub Has : PnpId → Option PnpSet → Type 0
Has id none = ⊥
Has id (some set) = contains_key pnp_order id set ≡ true

-- The identifier has a name with this key.
abbrev pub IsNamed : (Bytes → Bytes) → Bytes → PnpId → List (PnpId × Bytes) → Type 0
IsNamed key_of key id [] = ⊥
IsNamed key_of key id ((other, name) ∷ rest) =
    ((id ≡ other) × (key ≡ key_of name)) ⊎ IsNamed key_of key id rest

Has-candidates_of :
    (id : PnpId) (o : Option PnpSet)
    → (contains_key pnp_order id (candidates_of o) ≡ true) ↔ Has id o
unfolding get
Has-candidates_of id none = ground arith
Has-candidates_of id (some set) = ground arith

Has-insert :
    (id other : PnpId) (set : PnpSet)
    → (contains_key pnp_order id (insert_entry pnp_order other tt set) ≡ true)
      ↔ ((id ≡ other) ⊎ (contains_key pnp_order id set ≡ true))
Has-insert id other set = elim (pnp_order.same id other) [
  | yes e ↦ ground (arith, e, get-insert_entry pnp_order id other tt set)
  | no n ↦ ground (arith, n, get-insert_entry pnp_order id other tt set)
]

Has-add :
    (key k : Bytes) (id other : PnpId) (index : BTreeMap Bytes PnpSet)
    → Has id (get bytes_order key (add_candidate k other index))
      ↔ (((id ≡ other) × (key ≡ k)) ⊎ Has id (get bytes_order key index))
Has-add key k id other index =
    let set = insert_entry pnp_order other tt (candidates_of (get bytes_order k index)) in
    let inserted = get-insert_entry bytes_order key k set index in
    elim (bytes_order.same key k) [
      | no n ↦ ground (arith, n, inserted)
      | yes e ↦ ground (
        arith,
        e,
        inserted,
        Has-insert id other (candidates_of (get bytes_order k index)),
        Has-candidates_of id (get bytes_order k index),
      )
    ]

Has-index :
    (key_of : Bytes → Bytes) (key : Bytes) (id : PnpId) (names : List (PnpId × Bytes))
    (index : BTreeMap Bytes PnpSet)
    → Has id (get bytes_order key (index_names key_of names index))
      ↔ (IsNamed key_of key id names ⊎ Has id (get bytes_order key index))
unfolding index_names
Has-index key_of key id [] index = ground arith
Has-index key_of key id ((other, name) ∷ rest) index =
    let added = add_candidate (key_of name) other index in
    ground (arith, Has-index key_of key id rest added, Has-add key (key_of name) id other index)

-- The sets of an index are sorted and not empty.
abbrev pub IsSetOf : Option PnpSet → Type 0
IsSetOf none = Unit
IsSetOf (some set) = IsSorted pnp_order set × (0 < length set)

insert_nonempty : (other : PnpId) (set : PnpSet) → 0 < length (insert_entry pnp_order other tt set)
unfolding insert_entry
insert_nonempty other [] = omega arith
insert_nonempty other ((k, v) ∷ set) = ground arith

candidates_of-IsSorted : (o : Option PnpSet) → IsSetOf o → IsSorted pnp_order (candidates_of o)
candidates_of-IsSorted none h = tt
candidates_of-IsSorted (some set) h = h.0

IsSetOf-add :
    (key k : Bytes) (other : PnpId) (index : BTreeMap Bytes PnpSet)
    → ((key : Bytes) → IsSetOf (get bytes_order key index))
    → IsSetOf (get bytes_order key (add_candidate k other index))
IsSetOf-add key k other index h =
    let candidates = candidates_of (get bytes_order k index) in
    let set = insert_entry pnp_order other tt candidates in
    let inserted = get-insert_entry bytes_order key k set index in
    let sorted =
      insert_entry-IsSorted pnp_order other tt candidates
        (candidates_of-IsSorted (get bytes_order k index) (h k)) in
    elim (Bool-cases (eqb bytes_order.same key k)) [
      | inl e ↦ rw (inserted, e) (sorted, insert_nonempty other candidates)
      | inr e ↦ rw (inserted, e) (h key)
    ]

IsSetOf-index :
    (key_of : Bytes → Bytes) (names : List (PnpId × Bytes)) (index : BTreeMap Bytes PnpSet)
    → ((key : Bytes) → IsSetOf (get bytes_order key index))
    → (key : Bytes) → IsSetOf (get bytes_order key (index_names key_of names index))
unfolding index_names
IsSetOf-index key_of [] index h key = h key
IsSetOf-index key_of ((other, name) ∷ rest) index h key =
    IsSetOf-index key_of rest (add_candidate (key_of name) other index)
      (λ key. IsSetOf-add key (key_of name) other index h) key

Above-none :
    (id first : PnpId) (set : PnpSet)
    → Above pnp_order first set
    → contains_key pnp_order id set ≡ true
    → pnp_order.before first id ≡ true
unfolding get
Above-none id first [] a h = absurd (ground (arith, h))
Above-none id first ((k, v) ∷ rest) a h = elim (pnp_order.same id k) [
  | yes e ↦ subst (λ x. pnp_order.before first x ≡ true) (sym e) a.0
  | no n ↦ Above-none id first rest a.1 (ground (arith, n, h))
]

-- The first of an identifier's names with a key is before the others.
abbrev pub IsLeast : (Bytes → Bytes) → Bytes → PnpId → List (PnpId × Bytes) → Type 0
IsLeast key_of key id names =
    IsNamed key_of key id names
    × ((other : PnpId)
        → IsNamed key_of key other names
        → (other ≡ id) ⊎ (pnp_order.before id other ≡ true))

-- What an index has for a key.
abbrev pub IsIndexed : (Bytes → Bytes) → Bytes → List (PnpId × Bytes) → Option PnpSet → Type 0
IsIndexed key_of key names none = (id : PnpId) → IsNamed key_of key id names → ⊥
IsIndexed key_of key names (some []) = ⊥
IsIndexed key_of key names (some ((id, _) ∷ rest)) = IsLeast key_of key id names

indexed :
    (key_of : Bytes → Bytes) (key : Bytes) (names : List (PnpId × Bytes)) (o : Option PnpSet)
    → ((id : PnpId) → Has id o ↔ IsNamed key_of key id names)
    → IsSetOf o
    → IsIndexed key_of key names o
unfolding get
indexed key_of key names none h s = λ id n. (h id).1 n
indexed key_of key names (some []) h s = omega (arith, s.1)
indexed key_of key names (some ((first, v) ∷ rest)) h s = (
  (h first).0 (ground arith),
  λ other n. elim (pnp_order.same other first) [
    | yes e ↦ inl e
    | no d ↦ inr (Above-none other first rest s.0.0 (ground (arith, d, (h other).1 n)))
  ],
)

pub index_names-IsIndexed :
    (key_of : Bytes → Bytes) (key : Bytes) (names : List (PnpId × Bytes))
    → IsIndexed key_of key names (get bytes_order key (index_names key_of names []))
unfolding get
index_names-IsIndexed key_of key names =
    indexed key_of key names (get bytes_order key (index_names key_of names []))
      (λ id. ground (arith, Has-index key_of key id names []))
      (IsSetOf-index key_of names [] (λ key. tt) key)
