-- ===== src/Slot/Histories.antt =====
-- Histories of reservations and releases of the pool of crates/pronk/src/slot.rs.
use pronk.Common.{
  ◌≤◌, ◌≡◌, ◌≢◌, false, Option, some, List, [], ◌∷◌, arith, Result, ok, err, Result-cases, inl, inr,
}
use pronk.Slot.{
  DeviceKey, CastKmsOutput, CastKmsOutputId, OutputClaim, OutputReservation,
  OutputReservationRelease, OutputSlotPool, OutputReservationError, PathOperations, reserve,
  release, default_pool,
}
use pronk.Slot.Ownership.{
  IsConsistent, reserve_ok, release-cases, release-IsConsistent, reserve-IsConsistent,
  default_pool-IsConsistent,
}

-- One call of the pool's owner.
pub data Operation (PathBuf : Type 0) : Type 0 where
  reserving :
      DeviceKey
      → List (CastKmsOutput PathBuf)
      → Option (CastKmsOutputId PathBuf)
      → Operation PathBuf
  releasing : OutputReservationRelease PathBuf → Operation PathBuf

module _ {PathBuf : Type 0} (paths : PathOperations PathBuf) where
  after_reserve :
      OutputSlotPool PathBuf
      → Result OutputReservationError (OutputSlotPool PathBuf × OutputReservation PathBuf)
      → OutputSlotPool PathBuf
  after_reserve pool (err e) = pool
  after_reserve pool (ok (pool', r)) = pool'

  step : OutputSlotPool PathBuf → Operation PathBuf → OutputSlotPool PathBuf
  unfolding after_reserve
  step pool (reserving device outputs preferred) =
      after_reserve pool (reserve paths pool device outputs preferred)
  step pool (releasing r) = (release paths pool r).0

  pub run : OutputSlotPool PathBuf → List (Operation PathBuf) → OutputSlotPool PathBuf
  run pool [] = pool
  run pool (o ∷ os) = run (step pool o) os

  step-IsConsistent :
      (pool : OutputSlotPool PathBuf) (o : Operation PathBuf)
      → IsConsistent pool
      → IsConsistent (step pool o)
  unfolding step after_reserve
  step-IsConsistent pool (reserving device outputs preferred) h =
      elim (Result-cases (reserve paths pool device outputs preferred)) [
        | inl ((pool', r), e) ↦
            rw e (reserve-IsConsistent paths pool pool' device outputs preferred r h e)
        | inr (x, e) ↦ rw e h
      ]
  step-IsConsistent pool (releasing r) h = release-IsConsistent paths pool r h

  run_from-IsConsistent :
      (pool : OutputSlotPool PathBuf) (os : List (Operation PathBuf))
      → IsConsistent pool
      → IsConsistent (run pool os)
  unfolding run
  run_from-IsConsistent pool [] h = h
  run_from-IsConsistent pool (o ∷ os) h =
      run_from-IsConsistent (step pool o) os (step-IsConsistent pool o h)

  -- Over any history of reservations and releases of a new pool, failed ones included, an output
  -- is claimed for a device exactly when the device owns the output, and no claim has a token that
  -- has not been given out.
  pub run-IsConsistent :
      (os : List (Operation PathBuf)) → IsConsistent (run (default_pool paths) os)
  run-IsConsistent os =
      run_from-IsConsistent (default_pool paths) os (default_pool-IsConsistent paths)

  -- A release message that no claim of the pool answers to, now or later.
  record IsStale (pool : OutputSlotPool PathBuf) (r : OutputReservationRelease PathBuf)
      : Type 0 where
    given : r.token ≤ pool.next_token
    unanswered :
        (claim : OutputClaim)
        → pool.claims r.output_id ≡ some claim
        → claim.token ≡ r.token
        → claim.device ≢ r.device

  release-IsStale :
      (pool : OutputSlotPool PathBuf) (s r : OutputReservationRelease PathBuf)
      → IsStale pool r
      → IsStale (release paths pool s).0 r
  release-IsStale pool s r h = elim (release-cases paths pool s) [
    | inl same ↦ rw same h
    | inr (claim, there, a, b, e) ↦
        rw e (record { given = h.given; unanswered = λ c p. h.unanswered c (ground arith) })
  ]

  release-IsStale_itself :
      (pool : OutputSlotPool PathBuf) (r : OutputReservationRelease PathBuf)
      → r.token ≤ pool.next_token
      → IsStale (release paths pool r).0 r
  unfolding release
  release-IsStale_itself pool r given = record {
    given = ground arith;
    unanswered = λ c p t d. (ground arith);
  }

  step-IsStale :
      (pool : OutputSlotPool PathBuf) (o : Operation PathBuf) (r : OutputReservationRelease PathBuf)
      → IsStale pool r
      → IsStale (step pool o) r
  unfolding step after_reserve
  step-IsStale pool (reserving device outputs preferred) r h =
      elim (Result-cases (reserve paths pool device outputs preferred)) [
        | inl ((pool', s), e) ↦
            let (_, _, token, _, becomes) =
              reserve_ok paths pool pool' device outputs preferred s e in
            rw (e, becomes, token)
              (record {
                given = omega (arith, h.given);
                unanswered = λ c p t. h.unanswered c (ground (arith, h.given)) t;
              })
        | inr (x, e) ↦ rw e h
      ]
  step-IsStale pool (releasing s) r h = release-IsStale pool s r h

  run-IsStale :
      (pool : OutputSlotPool PathBuf) (os : List (Operation PathBuf))
      (r : OutputReservationRelease PathBuf)
      → IsStale pool r
      → IsStale (run pool os) r
  unfolding run
  run-IsStale pool [] r h = h
  run-IsStale pool (o ∷ os) r h = run-IsStale (step pool o) os r (step-IsStale pool o r h)

  -- After a release whose token has been given out, and after any history of operations that
  -- follows it, a delayed copy of the same message reports false and leaves the pool as it is.
  pub release-stale :
      (pool : OutputSlotPool PathBuf) (r : OutputReservationRelease PathBuf)
      (os : List (Operation PathBuf))
      → r.token ≤ pool.next_token
      → let later = run (release paths pool r).0 os in release paths later r ≡ (later, false)
  release-stale pool r os given =
      let stale = run-IsStale (release paths pool r).0 os r (release-IsStale_itself pool r given) in
      elim (release-cases paths (run (release paths pool r).0 os) r) [
        | inl same ↦ same
        | inr (claim, there, a, b, _) ↦ absurd (stale.unanswered claim there a b)
      ]
