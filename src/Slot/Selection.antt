-- ===== src/Slot/Selection.antt =====
-- What a reservation of crates/pronk/src/slot.rs takes, and what its release gives back.
use pronk.Common.{
  ◌+◌, ◌≡◌, ◌≢◌, Bool, true, false, Option, none, some, List, [], ◌∷◌, arith, ok, All, All-map, sym,
  ℕ_discrete, Bool-cases, Option-cases, inl, inr, subst,
}
use mathlib.Core.Option.{some-injective}
use pronk.Slot.{
  DeviceKey, CastKmsOutput, CastKmsOutputId, OutputReservation, OutputSlotPool, PathOperations,
  id_before, available, select, reserve, release, release_of, find_preferred, or_else, min_by_id,
  disconnected, lesser, id_discrete,
}
use pronk.Slot.Inventory.{
  IsListed, IsInventory, select-IsListed, select_preferred, validate_inventory-IsInventory,
}
use pronk.Slot.Ownership.{reserve-validated, reserve_ok, select-available}

-- The order of the paths is strict and total, as that of `PathBuf` is.
pub record IsStrict {PathBuf : Type 0} (paths : PathOperations PathBuf) : Type 0 where
  pub irreflexive : (p : PathBuf) → paths.before p p ≡ false
  pub transitive :
      (p q r : PathBuf)
      → paths.before p q ≡ true
      → paths.before q r ≡ true
      → paths.before p r ≡ true
  pub total : (p q : PathBuf) → p ≢ q → paths.before p q ≡ false → paths.before q p ≡ true

module _ {PathBuf : Type 0} (paths : PathOperations PathBuf) where
  id_before-irreflexive :
      IsStrict paths → (a : CastKmsOutputId PathBuf) → id_before paths a a ≡ false
  id_before-irreflexive strict a = ground (arith, strict.irreflexive a.device_path)

  id_before-transitive :
      IsStrict paths
      → (a b c : CastKmsOutputId PathBuf) → id_before paths a b ≡ true
      → id_before paths b c ≡ true
      → id_before paths a c ≡ true
  id_before-transitive strict a b c p q = ground (
    arith,
    strict.irreflexive a.device_path,
    strict.transitive a.device_path b.device_path c.device_path,
  )

  -- No output that `p` lets through is before `least`.
  abbrev pub NoneBefore :
      (CastKmsOutput PathBuf → Bool) → CastKmsOutput PathBuf → List (CastKmsOutput PathBuf) → Type 0
  NoneBefore p least outputs = All (λ o. p o ≡ true → id_before paths o.id least.id ≡ false) outputs

  id_before-connected :
      IsStrict paths
      → (a b : CastKmsOutputId PathBuf) → a ≢ b
      → id_before paths a b ≡ false
      → id_before paths b a ≡ true
  id_before-connected strict a b differ e = elim (paths.same a.device_path b.device_path) [
    | yes same ↦ elim (ℕ_discrete a.output_index b.output_index) [
      | yes index ↦ absurd (differ (λ i. record { device_path = same i; output_index = index i }))
      | no other ↦ ground (arith, same, sym same, e, other)
    ]
    | no other ↦ ground (arith, strict.total a.device_path b.device_path other, e)
  ]

  id_before-total :
      IsStrict paths
      → (a b c : CastKmsOutputId PathBuf) → id_before paths a b ≡ false
      → id_before paths c b ≡ true
      → id_before paths c a ≡ true
  id_before-total strict a b c p q = elim (id_discrete paths a b) [
    | yes same ↦ ground (arith, same, q)
    | no differ ↦ id_before-transitive strict c b a q (id_before-connected strict a b differ p)
  ]

  id_before-asymmetric :
      IsStrict paths
      → (a b : CastKmsOutputId PathBuf) → id_before paths a b ≡ true
      → id_before paths b a ≡ false
  id_before-asymmetric strict a b p = elim (Bool-cases (id_before paths b a)) [
    | inl q ↦
        absurd
          (ground (arith, id_before-transitive strict a b a p q, id_before-irreflexive strict a))
    | inr q ↦ q
  ]

  not_below :
      IsStrict paths
      → (x y o : CastKmsOutputId PathBuf) → id_before paths y x ≡ false
      → id_before paths o y ≡ false
      → id_before paths o x ≡ false
  not_below strict x y o p q = elim (Bool-cases (id_before paths o x)) [
    | inl r ↦ absurd (ground (arith, id_before-total strict y x o p r, q))
    | inr r ↦ r
  ]

  min_by_id-none :
      (p : CastKmsOutput PathBuf → Bool) (outputs : List (CastKmsOutput PathBuf))
      → min_by_id paths p outputs ≡ none
      → All (λ o. p o ≡ false) outputs
  unfolding min_by_id
  min_by_id-none p [] e = tt
  min_by_id-none p (x ∷ xs) e = ground (arith, min_by_id-none p xs)

  lesser-NoneBefore :
      IsStrict paths
      → (p : CastKmsOutput PathBuf → Bool) (x y least : CastKmsOutput PathBuf)
        (xs : List (CastKmsOutput PathBuf))
      → NoneBefore p y xs
      → lesser paths x (some y) ≡ some least
      → NoneBefore p least (x ∷ xs)
  lesser-NoneBefore strict p x y least xs h e = elim (Bool-cases (id_before paths y.id x.id)) [
    | inl below ↦
        subst (λ l. NoneBefore p l (x ∷ xs)) (some-injective y least (ground (arith, below, e)))
          (λ _. id_before-asymmetric strict y.id x.id below, h)
    | inr above ↦
        subst (λ l. NoneBefore p l (x ∷ xs)) (some-injective x least (ground (arith, above, e)))
          (
            λ _. id_before-irreflexive strict x.id,
            All-map xs (λ o k passes. not_below strict x.id y.id o.id above (k passes)) h,
          )
  ]

  min_by_id-NoneBefore :
      IsStrict paths
      → (p : CastKmsOutput PathBuf → Bool) (outputs : List (CastKmsOutput PathBuf))
        (least : CastKmsOutput PathBuf)
      → min_by_id paths p outputs ≡ some least
      → NoneBefore p least outputs
  unfolding min_by_id
  min_by_id-NoneBefore strict p [] least e = tt
  min_by_id-NoneBefore strict p (x ∷ xs) least e = elim (Option-cases (min_by_id paths p xs)) [
    | inl nothing ↦ elim (Bool-cases (p x)) [
      | inl passes ↦
          subst (λ l. NoneBefore p l (x ∷ xs))
            (some-injective x least (ground (arith, nothing, passes, e)))
            (
              λ _. id_before-irreflexive strict x.id,
              All-map xs (λ o k passes'. absurd (ground (arith, k, passes')))
                  (min_by_id-none p xs nothing),
            )
      | inr fails ↦ absurd (ground (arith, nothing, fails, e))
    ]
    | inr (y, there) ↦ elim (Bool-cases (p x)) [
      | inl passes ↦
          lesser-NoneBefore strict p x y least xs (min_by_id-NoneBefore strict p xs y there)
            (ground (arith, there, passes, e))
      | inr fails ↦ (
        λ passes. absurd (ground (arith, fails, passes)),
        min_by_id-NoneBefore strict p xs least (ground (arith, fails, e)),
      )
    ]
  ]

  -- Where no preferred output is available, the reservation takes an output that no available
  -- output of the inventory is before, if the order of the paths is strict and total.
  pub reserve-NoneBefore :
      (pool pool' : OutputSlotPool PathBuf) (device : DeviceKey)
      (outputs : List (CastKmsOutput PathBuf)) (preferred : Option (CastKmsOutputId PathBuf))
      (r : OutputReservation PathBuf)
      → IsStrict paths
      → find_preferred paths pool outputs preferred ≡ none
      → reserve paths pool device outputs preferred ≡ ok (pool', r)
      → NoneBefore (available paths pool) r.output outputs
  unfolding select or_else
  reserve-NoneBefore pool pool' device outputs preferred r strict missing e =
      let (_, chosen, _, _, _) = reserve_ok paths pool pool' device outputs preferred r e in
      min_by_id-NoneBefore strict (available paths pool) outputs r.output
        (ground (arith, missing, chosen))

  -- A reservation that succeeds is for a device without one, under the next token, from an inventory
  -- of sound outputs with distinct identities and connectors, of a listed output that is disconnected
  -- and was not claimed; it adds the two entries of its claim to the maps and changes no other; and
  -- it takes the output of the preferred identity if that is listed, disconnected and not claimed.
  pub reserve_lem :
      (pool pool' : OutputSlotPool PathBuf) (device : DeviceKey)
      (outputs : List (CastKmsOutput PathBuf)) (preferred : Option (CastKmsOutputId PathBuf))
      (r : OutputReservation PathBuf)
      → reserve paths pool device outputs preferred ≡ ok (pool', r)
      → (pool.devices device ≡ none)
        × IsInventory paths outputs
        × IsListed r.output outputs
        × (r.output.connection ≡ disconnected)
        × (pool.claims r.output.id ≡ none)
        × (r.device ≡ device)
        × (r.token ≡ pool.next_token + 1)
        × (pool'.next_token ≡ r.token)
        × (pool'.claims r.output.id ≡ some (record { token = r.token; device = device }))
        × (pool'.devices device ≡ some r.output.id)
        × ((id : CastKmsOutputId PathBuf) → id ≢ r.output.id → pool'.claims id ≡ pool.claims id)
        × ((d : DeviceKey) → d ≢ device → pool'.devices d ≡ pool.devices d)
        × ((o : CastKmsOutput PathBuf)
            → IsListed o outputs
            → preferred ≡ some o.id
            → o.connection ≡ disconnected
            → pool.claims o.id ≡ none
            → r.output.id ≡ o.id)
  reserve_lem pool pool' device outputs preferred r e =
      let (free, chosen, token, its, becomes) =
        reserve_ok paths pool pool' device outputs preferred r e in
      let fit = select-available paths pool outputs preferred r.output chosen in
      let sound =
        validate_inventory-IsInventory paths outputs
          (reserve-validated paths pool pool' device outputs preferred r e) in
      rw becomes (
        free,
        sound,
        select-IsListed paths pool outputs preferred r.output chosen,
        ground (arith, fit),
        ground (arith, fit),
        its,
        token,
        ground arith,
        ground arith,
        ground arith,
        λ id differs. ground arith,
        λ d differs. ground arith,
        λ o. select_preferred paths pool outputs preferred r.output o chosen,
      )

  -- The release of a reservation, made at once, reports true and leaves every claim and every
  -- device as they were before the reservation.
  pub release-reserve :
      (pool pool' : OutputSlotPool PathBuf) (device : DeviceKey)
      (outputs : List (CastKmsOutput PathBuf)) (preferred : Option (CastKmsOutputId PathBuf))
      (r : OutputReservation PathBuf)
      → reserve paths pool device outputs preferred ≡ ok (pool', r)
      → let (after, found) = release paths pool' (release_of paths r) in
        (found ≡ true)
        × ((id : CastKmsOutputId PathBuf) → after.claims id ≡ pool.claims id)
        × ((d : DeviceKey) → after.devices d ≡ pool.devices d)
        × (after.next_token ≡ pool.next_token + 1)
  unfolding release
  release-reserve pool pool' device outputs preferred r e =
      let (free, chosen, token, its, becomes) =
        reserve_ok paths pool pool' device outputs preferred r e in
      let fit = select-available paths pool outputs preferred r.output chosen in
      rw becomes (
        ground (arith, its),
        λ id. ground (arith, fit, its),
        λ d. ground (arith, free, its),
        ground (arith, its),
      )
