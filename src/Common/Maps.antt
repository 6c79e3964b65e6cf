-- ===== src/Common/Maps.antt =====
-- `BTreeMap` of the standard library: the entries in the order of their keys.
use mathlib.Core.Path.{◌≡◌, sym, subst}
use mathlib.Core.Logic.{inl, inr}
use mathlib.Core.Bool.{Bool, true}
use mathlib.Core.Option.{Option, none, some}
use mathlib.Core.List.{List, [], ◌∷◌}
use native.Mathlib.Omega.{arith}
use pronk.Common.Tests.{Bool-cases, eqb, if◌then◌else◌, is_some}
use pronk.Common.Lists.{All}
use pronk.Common.Order.{TotalOrder}

abbrev pub BTreeMap {ℓ κ} : Type ℓ → Type κ → Type (ℓ ⊔ κ)
BTreeMap K V = List (K × V)

module _ {ℓ κ} {K : Type ℓ} {V : Type κ} (o : TotalOrder K) where
  unfoldable pub get : K → BTreeMap K V → Option V
  get k [] = none
  get k ((k', v) ∷ m) = let rest = get k m in if eqb o.same k k' then some v else rest

  abbrev pub contains_key : K → BTreeMap K V → Bool
  contains_key k m = is_some (get k m)

  unfoldable pub insert_entry : K → V → BTreeMap K V → BTreeMap K V
  insert_entry k v [] = (k, v) ∷ []
  insert_entry k v ((k', v') ∷ m) =
      let rest = insert_entry k v m in
      if eqb o.same k k'
      then (k, v) ∷ m
      else if o.before k k'
      then (k, v) ∷ (k', v') ∷ m
      else (k', v') ∷ rest

  unfoldable pub remove_entry : K → BTreeMap K V → BTreeMap K V
  remove_entry k [] = []
  remove_entry k ((k', v) ∷ m) =
      let rest = remove_entry k m in if eqb o.same k k' then rest else (k', v) ∷ rest

  unfoldable pub values : BTreeMap K V → List V
  values [] = []
  values ((k, v) ∷ m) = v ∷ values m

  pub get-insert_entry :
      (j k : K) (v : V) (m : BTreeMap K V)
      → get j (insert_entry k v m) ≡ (if eqb o.same j k then some v else get j m)
  unfolding get insert_entry
  get-insert_entry j k v [] = ground arith
  get-insert_entry j k v ((k', v') ∷ m) = ground (arith, get-insert_entry j k v m)

  pub get-remove_entry :
      (j k : K) (m : BTreeMap K V)
      → get j (remove_entry k m) ≡ (if eqb o.same j k then none else get j m)
  unfolding get remove_entry
  get-remove_entry j k [] = ground arith
  get-remove_entry j k ((k', v') ∷ m) = ground (arith, get-remove_entry j k m)

  -- The keys rise, from below on.
  abbrev pub Above : K → BTreeMap K V → Type 0
  Above k m = All (λ e. o.before k e.0 ≡ true) m

  abbrev pub IsSorted : BTreeMap K V → Type 0
  IsSorted [] = Unit
  IsSorted ((k, v) ∷ m) = Above k m × IsSorted m

  Above-insert_entry :
      (j k : K) (v : V) (m : BTreeMap K V)
      → o.before j k ≡ true
      → Above j m
      → Above j (insert_entry k v m)
  unfolding insert_entry
  Above-insert_entry j k v [] p h = (p, tt)
  Above-insert_entry j k v ((k', v') ∷ m) p h = ground (arith, Above-insert_entry j k v m)

  Above-below : (j k : K) (m : BTreeMap K V) → o.before j k ≡ true → Above k m → Above j m
  Above-below j k [] p h = tt
  Above-below j k ((k', v') ∷ m) p h = (o.transitive j k k' p h.0, Above-below j k m p h.1)

  pub insert_entry-IsSorted :
      (k : K) (v : V) (m : BTreeMap K V) → IsSorted m → IsSorted (insert_entry k v m)
  unfolding insert_entry
  insert_entry-IsSorted k v [] h = (tt, tt)
  insert_entry-IsSorted k v ((k', v') ∷ m) h = elim (o.same k k') [
    | yes e ↦ ground (arith, e, subst (λ x. Above x m) (sym e) h.0, h)
    | no n ↦ ground (
      arith,
      n,
      h,
      Above-below k k' m,
      o.connected k k' n,
      Above-insert_entry k' k v m,
      insert_entry-IsSorted k v m,
    )
  ]

  Above-remove_entry : (j k : K) (m : BTreeMap K V) → Above j m → Above j (remove_entry k m)
  unfolding remove_entry
  Above-remove_entry j k [] h = tt
  Above-remove_entry j k ((k', v') ∷ m) h = ground (arith, Above-remove_entry j k m)

  pub remove_entry-IsSorted : (k : K) (m : BTreeMap K V) → IsSorted m → IsSorted (remove_entry k m)
  unfolding remove_entry
  remove_entry-IsSorted k [] h = tt
  remove_entry-IsSorted k ((k', v') ∷ m) h =
      ground (arith, remove_entry-IsSorted k m, Above-remove_entry k' k m)

  -- A predicate of every entry.
  pub All-insert_entry {μ} :
      (P : K × V → Type μ) (k : K) (v : V) (m : BTreeMap K V)
      → P (k, v)
      → All P m
      → All P (insert_entry k v m)
  unfolding insert_entry
  All-insert_entry P k v [] p h = (p, tt)
  All-insert_entry P k v ((k', v') ∷ m) p h = elim (Bool-cases (eqb o.same k k')) [
    | inl e ↦ rw e (p, h.1)
    | inr n ↦ elim (Bool-cases (o.before k k')) [
      | inl b ↦ rw (n, b) (p, h)
      | inr b ↦ rw (n, b) (h.0, All-insert_entry P k v m p h.1)
    ]
  ]

  pub All-remove_entry {μ} :
      (P : K × V → Type μ) (k : K) (m : BTreeMap K V) → All P m → All P (remove_entry k m)
  unfolding remove_entry
  All-remove_entry P k [] h = tt
  All-remove_entry P k ((k', v') ∷ m) h = elim (Bool-cases (eqb o.same k k')) [
    | inl e ↦ rw e (All-remove_entry P k m h.1)
    | inr n ↦ rw n (h.0, All-remove_entry P k m h.1)
  ]
