-- ===== src/MediaPolicy/Loop/Ending.antt =====
-- The policy loop comes to rest within its rounds.
use pronk.Common.{
  ℕ, zero, suc, ◌+◌, ◌≤◌, ◌<◌, ◌≡◌, inl, inr, Option, none, some, arith, u64_max, u32_max,
  Option-cases, ◌∙◌, ap, subst, Bytes,
}
use pronk.DisplayState.{MediaState}
use pronk.MediaSession.Values.{MediaSessionSnapshot}
use pronk.MediaSession.Commands.{CommandKind, handle}
use pronk.MediaSession.Traces.{Inv}
use pronk.MediaSession.{Environment}
use pronk.MediaPolicy.{
  MediaPolicyInput, MediaRecoveryPolicy, PolicyDecision, giving_up, RetryTracker, from_input,
  observe, next_delay, decide,
}
use pronk.MediaPolicy.Loop.{
  PolicyState, Round, waits, gives_up, again, command_of, counted, last_error_or_exhausted,
  apply_round, round_on, policy_round, run_policy,
}
use pronk.MediaPolicy.Loop.Measure.{
  rounds_left, rounds_left-le, IsRouted, IsReady, Justified, decide-Justified, next_delay-none,
  decided-Falls,
}

module _ (env : Environment) (t : ℕ) (recovery : MediaRecoveryPolicy)
    (input : MediaPolicyInput) where
  observe-context :
      (r : RetryTracker) (media : MediaSessionSnapshot)
      → (observe r input media).context ≡ some (from_input input)
  unfolding observe
  observe-context r media = ground arith

  -- How the loop ended: it waits, with nothing left to decide, or it gave up on a session that has
  -- failed, with the budget used up.
  abbrev pub Ended : Option Round → Type 0
  Ended none = ⊥
  Ended (some (waits s)) = decide input s.media.snapshot (next_delay s.retry recovery) ≡ none
  Ended (some (gives_up error s)) =
      (s.media.snapshot.state ≡ MediaState.failed) × (recovery.maximum_attempts ≤ s.retry.attempts)
  Ended (some (again s)) = ⊥

  decided : PolicyState → Option PolicyDecision
  decided s =
      decide input s.media.snapshot (next_delay (observe s.retry input s.media.snapshot) recovery)

  policy_round-waits :
      (s : PolicyState)
      → decided s ≡ none
      → policy_round env t recovery input s
        ≡ waits (record { retry = observe s.retry input s.media.snapshot; media = s.media })
  unfolding decided policy_round
  policy_round-waits s e = ground arith

  policy_round-gives_up :
      (s : PolicyState)
      → decided s ≡ some giving_up
      → (error : Bytes) × (policy_round env t recovery input s
          ≡ gives_up error
              (record { retry = observe s.retry input s.media.snapshot; media = s.media }))
  unfolding decided policy_round
  policy_round-gives_up s e = (last_error_or_exhausted s.media.snapshot, rw (e, round_on))

  policy_round-again :
      (s : PolicyState) (d : PolicyDecision) (command : CommandKind)
      → decided s ≡ some d
      → command_of d ≡ some command
      → policy_round env t recovery input s
        ≡ again (record {
          retry = counted d (observe s.retry input s.media.snapshot);
          media = (handle env t command s.media).0;
        })
  unfolding decided policy_round
  policy_round-again s d command e c = rw (e, round_on) (rw (c, apply_round))

  run_policy-waits :
      (fuel : ℕ) (s s' : PolicyState)
      → policy_round env t recovery input s ≡ waits s'
      → run_policy env t recovery (suc fuel) input s ≡ some (waits s')
  unfolding run_policy
  run_policy-waits fuel s s' e = rw (e, run_policy)

  run_policy-gives_up :
      (fuel : ℕ) (s s' : PolicyState) (error : Bytes)
      → policy_round env t recovery input s ≡ gives_up error s'
      → run_policy env t recovery (suc fuel) input s ≡ some (gives_up error s')
  unfolding run_policy
  run_policy-gives_up fuel s s' error e = rw (e, run_policy)

  run_policy-again :
      (fuel : ℕ) (s s' : PolicyState)
      → policy_round env t recovery input s ≡ again s'
      → run_policy env t recovery (suc fuel) input s ≡ run_policy env t recovery fuel input s'
  unfolding run_policy
  run_policy-again fuel s s' e = rw (e, run_policy)

  command_of-none : (d : PolicyDecision) → command_of d ≡ none → d ≡ giving_up
  unfolding command_of
  command_of-none d e = ground arith

  -- One decision of the loop, given that the rest of the loop ends.
  decision_ends :
      (fuel : ℕ) (s : PolicyState)
      → recovery.maximum_attempts ≤ u32_max
      → IsRouted input
      → IsReady (rounds_left recovery input s) s
      → rounds_left recovery input s < suc fuel
      → (d : PolicyDecision) → decided s ≡ some d
      → ((s' : PolicyState)
          → recovery.maximum_attempts ≤ u32_max
          → IsRouted input
          → IsReady (rounds_left recovery input s') s'
          → rounds_left recovery input s' < fuel
          → Ended (run_policy env t recovery fuel input s'))
      → Ended (run_policy env t recovery (suc fuel) input s)
  unfolding decided
  decision_ends fuel s fits routed ready lt d e rest =
      let retry = observe s.retry input s.media.snapshot in
      let why = decide-Justified input s.media.snapshot (next_delay retry recovery) d e in
      elim (Option-cases (command_of d)) [
        | inl final ↦
            let same = command_of-none d final in
            let ended =
              subst (Justified input s.media.snapshot (next_delay retry recovery)) same why in
            let (error, g) = policy_round-gives_up s (e ∙ ap some same) in
            rw (run_policy-gives_up fuel s _ error g)
              (ended.0, (next_delay-none recovery retry).0 ended.1)
        | inr (command, c) ↦
            let (fewer, ready') =
              decided-Falls env t recovery input fits routed retry
                (observe-context s.retry s.media.snapshot) s.media ready.sound d command why c
                (ground (arith, ready.room, e)) in
            rw (run_policy-again fuel s _ (policy_round-again s d command e c))
              (rest _ fits routed ready' (ground (arith, fewer, lt, e)))
      ]

  run_policy_ends :
      (fuel : ℕ) (s : PolicyState)
      → recovery.maximum_attempts ≤ u32_max
      → IsRouted input
      → IsReady (rounds_left recovery input s) s
      → rounds_left recovery input s < fuel
      → Ended (run_policy env t recovery fuel input s)
  run_policy_ends zero s fits routed ready lt = absurd (omega arith)
  run_policy_ends (suc fuel) s fits routed ready lt = elim (Option-cases (decided s)) [
    | inl e ↦ rw (run_policy-waits fuel s _ (policy_round-waits s e)) (unfold decided in e)
    | inr (d, e) ↦ decision_ends fuel s fits routed ready lt d e (run_policy_ends fuel)
  ]

-- From a session with the invariant `Inv`, whatever the driver answers, while the input stands still, its route (if any) has a generation,
-- the retry budget is a u32 and enough media generations remain, the policy loop comes to rest
-- within two rounds more than the budget: it waits with nothing left to decide, or it gives up on
-- a session that has failed, with every attempt of the budget used.
pub run_policy-Ended :
    (env : Environment) (t : ℕ) (recovery : MediaRecoveryPolicy) (input : MediaPolicyInput)
    (s : PolicyState)
    → recovery.maximum_attempts ≤ u32_max
    → IsRouted input
    → Inv s.media
    → s.media.snapshot.media_generation + recovery.maximum_attempts + 1 ≤ u64_max
    → Ended env t recovery input (run_policy env t recovery (recovery.maximum_attempts + 2) input s)
run_policy-Ended env t recovery input s fits routed sound room =
    let few = rounds_left-le recovery input s in
    subst (λ fuel. Ended env t recovery input (run_policy env t recovery fuel input s))
      (omega arith)
      (run_policy_ends env t recovery input (suc (recovery.maximum_attempts + 1)) s fits routed
        (record { sound = sound; room = omega arith }) (omega arith))
