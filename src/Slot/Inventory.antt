-- ===== src/Slot/Inventory.antt =====
-- What `validate_inventory` of crates/pronk/src/slot.rs lets through, and which outputs of an
-- inventory its searches find.
use pronk.Common.{
  ℕ, ◌≡◌, ◌≢◌, ◌⊎◌, ◌&&◌, Bool, true, false, Option, none, some, List, [], ◌∷◌, eqb, arith, sym, ap,
  is_empty, All, All-map, Bool-cases, Option-cases, inl, inr,
}
use mathlib.Core.Option.{some-injective}
use pronk.Slot.{
  CastKmsOutput, CastKmsOutputId, OutputSlotPool, PathOperations, disconnected, available, select,
  find_preferred, find, or_else, min_by_id, id_discrete, connector_discrete, contains, well_formed,
  validate_unseen, validate_inventory,
}

-- The output is one of the list.
abbrev pub IsListed : {A : Type 0} → A → List A → Type 0
IsListed o [] = ⊥
IsListed o (x ∷ xs) = (x ≡ o) ⊎ IsListed o xs

find-IsListed :
    {A : Type 0} (p : A → Bool) (xs : List A) (x : A) → find p xs ≡ some x → IsListed x xs
unfolding find
find-IsListed p [] x e = absurd (ground (arith, e))
find-IsListed p (y ∷ ys) x e = elim (Bool-cases (p y)) [
  | inl passes ↦ inl (some-injective y x (ground (arith, passes, e)))
  | inr fails ↦ inr (find-IsListed p ys x (ground (arith, fails, e)))
]

-- A search that passes over a listed element has found an earlier one that passes too.
find_listed :
    {A : Type 0} (p : A → Bool) (xs : List A) (x : A)
    → IsListed x xs
    → p x ≡ true
    → (y : A) × (find p xs ≡ some y) × (p y ≡ true)
unfolding find
find_listed p [] x listed h = absurd listed
find_listed p (y ∷ ys) x listed h = elim (Bool-cases (p y)) [
  | inl passes ↦ (y, ground (arith, passes), passes)
  | inr fails ↦ elim listed [
    | inl same ↦ absurd (ground (arith, fails, h, same))
    | inr later ↦ rw fails (find_listed p ys x later h)
  ]
]

module _ {PathBuf : Type 0} (paths : PathOperations PathBuf) where
  pub record IsOutput (o : CastKmsOutput PathBuf) : Type 0 where
    pub node_absolute : paths.is_absolute o.node_path ≡ true
    pub device_absolute : paths.is_absolute o.id.device_path ≡ true
    pub major : o.device_major ≢ 0
    pub connector : o.connector_id ≢ 0
    pub named : o.connector_name ≢ ""

  -- The outputs are sound, no two have one identity, and no two one connector of one device.
  abbrev pub IsInventory : List (CastKmsOutput PathBuf) → Type 0
  IsInventory [] = Unit {0}
  IsInventory (o ∷ rest) =
      IsOutput o
      × All
          (λ other.
            (other.id ≢ o.id)
            × ¬ ((other.id.device_path ≡ o.id.device_path) × (other.connector_id ≡ o.connector_id)))
          rest
      × IsInventory rest

  well_formed-IsOutput : (o : CastKmsOutput PathBuf) → well_formed paths o ≡ true → IsOutput o
  unfolding well_formed
  well_formed-IsOutput o e = record {
    node_absolute = ground (arith, e);
    device_absolute = ground (arith, e);
    major = ground (arith, e);
    connector = ground (arith, e);
    named = λ same.
        let nothing : is_empty o.connector_name ≡ true = ap is_empty same in
        absurd (ground (arith, e, nothing));
  }

  min_by_id-IsListed :
      (p : CastKmsOutput PathBuf → Bool) (xs : List (CastKmsOutput PathBuf))
      (least : CastKmsOutput PathBuf)
      → min_by_id paths p xs ≡ some least
      → IsListed least xs
  unfolding min_by_id
  min_by_id-IsListed p [] least e = absurd (ground (arith, e))
  min_by_id-IsListed p (x ∷ xs) least e = elim (Option-cases (min_by_id paths p xs)) [
    | inl nothing ↦ ground (arith, nothing, e)
    | inr (y, there) ↦ ground (arith, there, e, min_by_id-IsListed p xs y there)
  ]

  pub select-IsListed :
      (pool : OutputSlotPool PathBuf) (outputs : List (CastKmsOutput PathBuf))
      (preferred : Option (CastKmsOutputId PathBuf)) (o : CastKmsOutput PathBuf)
      → select paths pool outputs preferred ≡ some o
      → IsListed o outputs
  unfolding select or_else find_preferred
  select-IsListed pool outputs none o e = min_by_id-IsListed (available paths pool) outputs o e
  select-IsListed pool outputs (some preferred) o e =
      let wanted = λ (output : CastKmsOutput PathBuf).
        eqb (id_discrete paths) output.id preferred && available paths pool output in
      elim (Option-cases (find wanted outputs)) [
        | inl missing ↦
            min_by_id-IsListed (available paths pool) outputs o (ground (arith, missing, e))
        | inr (found, there) ↦ find-IsListed wanted outputs o (ground (arith, there, e))
      ]

  -- The preferred output is taken if it is listed, disconnected and not claimed.
  pub select_preferred :
      (pool : OutputSlotPool PathBuf) (outputs : List (CastKmsOutput PathBuf))
      (preferred : Option (CastKmsOutputId PathBuf)) (chosen o : CastKmsOutput PathBuf)
      → select paths pool outputs preferred ≡ some chosen
      → IsListed o outputs
      → preferred ≡ some o.id
      → o.connection ≡ disconnected
      → pool.claims o.id ≡ none
      → chosen.id ≡ o.id
  unfolding select or_else find_preferred
  select_preferred pool outputs none chosen o e listed wants h k = absurd (ground (arith, wants))
  select_preferred pool outputs (some preferred) chosen o e listed wants h k =
      let wanted = λ (output : CastKmsOutput PathBuf).
        eqb (id_discrete paths) output.id preferred && available paths pool output in
      let asked : preferred ≡ o.id = some-injective preferred o.id wants in
      let (y, there, passes) =
        find_listed wanted outputs o listed (ground (arith, sym asked, h, k)) in
      ground (arith, there, passes, e, asked)

  other_connector :
      (o other : CastKmsOutput PathBuf) (connectors : List (PathBuf × ℕ))
      → (other.id.device_path ≡ o.id.device_path) × (other.connector_id ≡ o.connector_id)
      → contains
          (connector_discrete paths)
          (other.id.device_path, other.connector_id)
          ((o.id.device_path, o.connector_id) ∷ connectors)
        ≢ false
  other_connector o other connectors (path, connector) k =
      let theirs : PathBuf × ℕ = (other.id.device_path, other.connector_id) in
      let ours : PathBuf × ℕ = (o.id.device_path, o.connector_id) in
      let same : theirs ≡ ours = λ i. (path i, connector i) in ground (arith, k, same)

  unseen :
      (ids : List (CastKmsOutputId PathBuf)) (connectors : List (PathBuf × ℕ))
      (outputs : List (CastKmsOutput PathBuf))
      → validate_unseen paths ids connectors outputs ≡ true
      → IsInventory outputs
        × All
            (λ o.
              (contains (id_discrete paths) o.id ids ≡ false)
              × (contains (connector_discrete paths) (o.id.device_path, o.connector_id) connectors
                  ≡ false))
            outputs
  unfolding validate_unseen
  unseen ids connectors [] e = (tt, tt)
  unseen ids connectors (o ∷ rest) e =
      let (sound, apart) =
        unseen (o.id ∷ ids) ((o.id.device_path, o.connector_id) ∷ connectors) rest
          (ground (arith, e)) in
      (
        (
          well_formed-IsOutput o (ground (arith, e)),
          All-map rest
              (λ other k. (
                λ same. absurd (ground (arith, k, same)),
                λ both. absurd (other_connector o other connectors both k.1),
              ))
              apart,
          sound,
        ),
        (
          (ground (arith, e), ground (arith, e)),
          All-map rest (λ other k. (ground (arith, k), ground (arith, k))) apart,
        ),
      )

  pub validate_inventory-IsInventory :
      (outputs : List (CastKmsOutput PathBuf))
      → validate_inventory paths outputs ≡ true
      → IsInventory outputs
  unfolding validate_inventory
  validate_inventory-IsInventory outputs e = (unseen [] [] outputs e).0
