-- ===== src/Slot/Ownership.antt =====
-- Who owns a display slot in the pool of crates/pronk/src/slot.rs.
use pronk.Common.{
  ◌+◌, ◌≤◌, ◌≡◌, ◌⊎◌, Bool, true, false, Option, none, some, List, [], ◌∷◌, arith, ok, ◌&&◌, eqb,
  sym, ℕ_discrete, Option-cases, inl, inr,
}
use pronk.Slot.{
  validate_inventory, DeviceKey, DeviceKey-discrete, CastKmsOutput, CastKmsOutputId, OutputClaim,
  OutputReservation, OutputReservationRelease, OutputSlotPool, PathOperations, id_discrete,
  available, select, claimed, reserve, reserve_selected, grant, release, default_pool, find,
  or_else, find_preferred, min_by_id, released,
}

-- Claims and devices are inverse to one another, and a claim's token has been given out.
pub record IsConsistent {PathBuf : Type 0} (pool : OutputSlotPool PathBuf) : Type 0 where
  pub owned :
      (id : CastKmsOutputId PathBuf) (claim : OutputClaim)
      → pool.claims id ≡ some claim
      → (pool.devices claim.device ≡ some id) × (claim.token ≤ pool.next_token)
  pub owns :
      (device : DeviceKey) (id : CastKmsOutputId PathBuf)
      → pool.devices device ≡ some id
      → (claim : OutputClaim) × (pool.claims id ≡ some claim) × (claim.device ≡ device)

module _ {PathBuf : Type 0} (paths : PathOperations PathBuf) where
  find-available :
      (p : CastKmsOutput PathBuf → Bool) (outputs : List (CastKmsOutput PathBuf))
      (o : CastKmsOutput PathBuf)
      → find p outputs ≡ some o
      → p o ≡ true
  unfolding find
  find-available p [] o e = absurd (ground arith)
  find-available p (x ∷ xs) o e = ground (arith, find-available p xs o)

  min_by_id-available :
      (p : CastKmsOutput PathBuf → Bool) (outputs : List (CastKmsOutput PathBuf))
      (o : CastKmsOutput PathBuf)
      → min_by_id paths p outputs ≡ some o
      → p o ≡ true
  unfolding min_by_id
  min_by_id-available p [] o e = absurd (ground arith)
  min_by_id-available p (x ∷ xs) o e = ground (arith, min_by_id-available p xs o)

  abbrev wanted : OutputSlotPool PathBuf → CastKmsOutputId PathBuf → CastKmsOutput PathBuf → Bool
  wanted pool preferred output =
      eqb (id_discrete paths) output.id preferred && available paths pool output

  pub select-available :
      (pool : OutputSlotPool PathBuf) (outputs : List (CastKmsOutput PathBuf))
      (preferred : Option (CastKmsOutputId PathBuf)) (o : CastKmsOutput PathBuf)
      → select paths pool outputs preferred ≡ some o
      → available paths pool o ≡ true
  unfolding select or_else find_preferred
  select-available pool outputs none o e = min_by_id-available (available paths pool) outputs o e
  select-available pool outputs (some preferred) o e =
      elim (Option-cases (find (wanted pool preferred) outputs)) [
        | inl missing ↦
            min_by_id-available (available paths pool) outputs o (ground (arith, missing, e))
        | inr (found, there) ↦
            ground (arith, there, e, find-available (wanted pool preferred) outputs found there)
      ]

  -- What a reservation that succeeds does.
  pub reserve_ok :
      (pool pool' : OutputSlotPool PathBuf) (device : DeviceKey)
      (outputs : List (CastKmsOutput PathBuf)) (preferred : Option (CastKmsOutputId PathBuf))
      (r : OutputReservation PathBuf)
      → reserve paths pool device outputs preferred ≡ ok (pool', r)
      → (pool.devices device ≡ none)
        × (select paths pool outputs preferred ≡ some r.output)
        × (r.token ≡ pool.next_token + 1)
        × (r.device ≡ device)
        × (pool' ≡ claimed paths pool r.token device r.output)
  unfolding reserve reserve_selected grant
  reserve_ok pool pool' device outputs preferred r e = ground arith

  pub reserve-validated :
      (pool pool' : OutputSlotPool PathBuf) (device : DeviceKey)
      (outputs : List (CastKmsOutput PathBuf)) (preferred : Option (CastKmsOutputId PathBuf))
      (r : OutputReservation PathBuf)
      → reserve paths pool device outputs preferred ≡ ok (pool', r)
      → validate_inventory paths outputs ≡ true
  unfolding reserve
  reserve-validated pool pool' device outputs preferred r e = ground arith

  pub claimed-IsConsistent :
      (pool : OutputSlotPool PathBuf) (device : DeviceKey) (selected : CastKmsOutput PathBuf)
      → IsConsistent pool
      → pool.devices device ≡ none
      → pool.claims selected.id ≡ none
      → IsConsistent (claimed paths pool (pool.next_token + 1) device selected)
  claimed-IsConsistent pool device selected h free unclaimed = record {
    owned = λ id claim e. ground (arith, h.owned id claim);
    owns = λ d id e. elim (DeviceKey-discrete d device) [
      | yes same ↦ (record { token = pool.next_token + 1; device = device }, ground arith, sym same)
      | no differ ↦
          let (claim, there, its) = h.owns d id (ground arith) in
          (claim, ground (arith, there), its)
    ];
  }

  released-IsConsistent :
      (pool : OutputSlotPool PathBuf) (id : CastKmsOutputId PathBuf) (claim : OutputClaim)
      → IsConsistent pool
      → pool.claims id ≡ some claim
      → IsConsistent (released paths pool id claim.device)
  released-IsConsistent pool id claim h there = record {
    owned = λ id' claim' e. ground (arith, h.owned id' claim', h.owned id claim there);
    owns = λ d id' e.
        let (claim', there', its) = h.owns d id' (ground arith) in
        (claim', ground (arith, there', its, there), its);
  }

  pub release-cases :
      (pool : OutputSlotPool PathBuf) (r : OutputReservationRelease PathBuf)
      → (release paths pool r ≡ (pool, false))
        ⊎ ((claim : OutputClaim) × (pool.claims r.output_id ≡ some claim)
            × (claim.token ≡ r.token)
            × (claim.device ≡ r.device)
            × (release paths pool r ≡ (released paths pool r.output_id claim.device, true)))
  unfolding release
  release-cases pool r = elim (Option-cases (pool.claims r.output_id)) [
    | inl missing ↦ inl (ground arith)
    | inr (claim, there) ↦ elim (ℕ_discrete claim.token r.token) [
      | yes a ↦ elim (DeviceKey-discrete claim.device r.device) [
        | yes b ↦ inr (claim, there, a, b, ground (arith, there, a, b))
        | no b ↦ inl (ground (arith, there, a, b))
      ]
      | no a ↦ inl (ground (arith, there, a))
    ]
  ]

  pub release-IsConsistent :
      (pool : OutputSlotPool PathBuf) (r : OutputReservationRelease PathBuf)
      → IsConsistent pool
      → IsConsistent (release paths pool r).0
  release-IsConsistent pool r h = elim (release-cases pool r) [
    | inl same ↦ rw same h
    | inr (claim, there, a, b, e) ↦ rw e (released-IsConsistent pool r.output_id claim h there)
  ]

  pub reserve-IsConsistent :
      (pool pool' : OutputSlotPool PathBuf) (device : DeviceKey)
      (outputs : List (CastKmsOutput PathBuf)) (preferred : Option (CastKmsOutputId PathBuf))
      (r : OutputReservation PathBuf)
      → IsConsistent pool
      → reserve paths pool device outputs preferred ≡ ok (pool', r)
      → IsConsistent pool'
  reserve-IsConsistent pool pool' device outputs preferred r h e =
      let (free, chosen, token, _, becomes) = reserve_ok pool pool' device outputs preferred r e in
      let fit = select-available pool outputs preferred r.output chosen in
      rw (becomes, token) (claimed-IsConsistent pool device r.output h free (ground (arith, fit)))

  pub default_pool-IsConsistent : IsConsistent (default_pool paths)
  default_pool-IsConsistent = record {
    owned = λ id claim e. absurd (ground arith);
    owns = λ d id e. absurd (ground arith);
  }
