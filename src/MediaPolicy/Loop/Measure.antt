-- ===== src/MediaPolicy/Loop/Measure.antt =====
-- How many rounds of the policy loop may follow a state, and that each round lowers the number.
use pronk.Common.{
  ℕ, ◌+◌, ◌-◌, ◌≤◌, ◌<◌, ◌≡◌, ◌≢◌, ◌⊎◌, ◌↔◌, inl, inr, false, Option, none, some, arith, u64_max,
  u32_max, Option-cases, subst,
}
use mathlib.Core.Option.{some-injective}
use pronk.DisplayState.{AttachmentState, DisplayGrantState, MediaState}
use pronk.MediaSession.Values.{
  MediaRoute, MediaSessionSnapshot, MediaSuspendReason, output_disabled,
}
use pronk.MediaSession.Commands.{CommandKind, handle, retry_from}
use pronk.MediaSession.Commands
use pronk.MediaSession.Traces.{Inv}
use pronk.MediaSession.Settled.{activate_lem, activate-Inv, stop_to_idle-Inv, suspend-Inv}
use pronk.MediaSession.Progress.{stop_to_idle_lem, suspend_lem}
use pronk.MediaSession.{Environment, Actor, activate, suspend, stop_to_idle}
use pronk.MediaPolicy.{
  MediaPolicyInput, MediaRecoveryPolicy, PolicyDecision, activating, deactivating, giving_up,
  retrying, retrying_deactivate, suspending, RetryTracker, from_input, observe, next_delay,
  record_attempt, decide,
}
use pronk.MediaPolicy.Decisions.{MayRun}
use pronk.MediaPolicy.Loop.{PolicyState, command_of, counted}

-- How many rounds may follow a decision.
abbrev pub rounds_of : ℕ → ℕ → Option PolicyDecision → ℕ
rounds_of budget attempts none = 0
rounds_of budget attempts (some giving_up) = 0
rounds_of budget attempts (some (retrying delay)) = budget - attempts
rounds_of budget attempts (some (retrying_deactivate delay)) = budget - attempts
rounds_of budget attempts (some _) = budget + 1

module _ (recovery : MediaRecoveryPolicy) (input : MediaPolicyInput) where
  abbrev pub rounds_left : PolicyState → ℕ
  rounds_left s =
      let retry = observe s.retry input s.media.snapshot in
      rounds_of recovery.maximum_attempts retry.attempts
        (decide input s.media.snapshot (next_delay retry recovery))

  pub rounds_left-le : (s : PolicyState) → rounds_left s ≤ recovery.maximum_attempts + 1
  rounds_left-le s = ground arith

-- The route of an input comes from `from_display_state`, so its generation is not zero.
abbrev pub IsRouted : MediaPolicyInput → Type 0
IsRouted input = (route : MediaRoute) → input.route ≡ some route → route.route_generation ≢ 0

-- A state of the policy between two rounds, with media generations left for `rounds` more.
pub record IsReady (rounds : ℕ) (s : PolicyState) : Type 0 where
  pub sound : Inv s.media
  pub room : s.media.snapshot.media_generation + rounds ≤ u64_max

-- The inputs under which media may neither run nor stay.
abbrev pub IsInactive : MediaPolicyInput → Type 0
IsInactive input = (input.attachment ≢ AttachmentState.attached) ⊎ (input.route ≡ none)

abbrev pub IsBlocked : MediaPolicyInput → Type 0
IsBlocked input =
    (input.route ≢ none)
    × (input.attachment ≡ AttachmentState.attached)
    × ((input.device_available ≡ false)
        ⊎ (input.device_session_ready ≡ false)
        ⊎ (input.grant ≢ DisplayGrantState.active))

-- Why each decision is taken.
abbrev pub Justified : MediaPolicyInput → MediaSessionSnapshot → Option ℕ → PolicyDecision → Type 0
Justified input media delay (activating route) = MayRun input route
Justified input media delay deactivating = IsInactive input
Justified input media delay giving_up = (media.state ≡ MediaState.failed) × (delay ≡ none)
Justified input media delay (retrying_deactivate d) =
    IsInactive input × (media.state ≡ MediaState.failed) × (delay ≡ some d)
Justified input media delay (retrying d) =
    (route : MediaRoute) × MayRun input route
    × (media.route ≡ some route)
    × (media.state ≡ MediaState.failed)
    × (delay ≡ some d)
Justified input media delay (suspending reason) =
    IsBlocked input × (media.state ≡ MediaState.running)

pub decide-Justified :
    (input : MediaPolicyInput) (media : MediaSessionSnapshot) (delay : Option ℕ)
    (d : PolicyDecision)
    → decide input media delay ≡ some d
    → Justified input media delay d
unfolding decide
decide-Justified input media delay (activating route) e = ground arith
decide-Justified input media delay deactivating e = ground arith
decide-Justified input media delay giving_up e = ground arith
decide-Justified input media delay (retrying_deactivate n) e = ground arith
decide-Justified input media delay (retrying n) e = elim (Option-cases input.route) [
  | inl absent ↦ absurd (ground arith)
  | inr (route, present) ↦ (route, ground arith, ground arith, ground arith, ground arith)
]
decide-Justified input media delay (suspending reason) e = ground arith

pub next_delay-none :
    (policy : MediaRecoveryPolicy) (r : RetryTracker)
    → (next_delay r policy ≡ none) ↔ (policy.maximum_attempts ≤ r.attempts)
unfolding next_delay
next_delay-none policy r = ground arith

module _ (recovery : MediaRecoveryPolicy) (input : MediaPolicyInput) (s : PolicyState) where
  landed_active :
      (route : MediaRoute)
      → MayRun input route
      → s.retry.context ≡ some (from_input input)
      → s.media.snapshot.route ≡ some route
      → (s.media.snapshot.state ≡ MediaState.running) ⊎ (s.media.snapshot.state ≡ MediaState.failed)
      → rounds_left recovery input s ≤ recovery.maximum_attempts - s.retry.attempts
  unfolding decide observe
  landed_active route m c r st = ground (arith, next_delay-none recovery s.retry)

  landed_inactive :
      IsInactive input
      → s.retry.context ≡ some (from_input input)
      → (s.media.snapshot.state ≡ MediaState.idle) ⊎ (s.media.snapshot.state ≡ MediaState.failed)
      → rounds_left recovery input s ≤ recovery.maximum_attempts - s.retry.attempts
  unfolding decide observe
  landed_inactive m c st = ground (arith, next_delay-none recovery s.retry)

  landed_blocked :
      IsBlocked input
      → s.media.snapshot.state ≢ MediaState.running
      → rounds_left recovery input s ≡ 0
  unfolding decide
  landed_blocked m st = ground arith

-- What a round that goes on needs of the state that it leaves.
abbrev pub Falls : MediaRecoveryPolicy → MediaPolicyInput → ℕ → PolicyState → Type 0
Falls recovery input before s =
    (rounds_left recovery input s < before) × IsReady (rounds_left recovery input s) s

module _ (env : Environment) (t : ℕ) (recovery : MediaRecoveryPolicy) (input : MediaPolicyInput)
    (budget_fits : recovery.maximum_attempts ≤ u32_max) (routed : IsRouted input)
    (retry : RetryTracker) (observed : retry.context ≡ some (from_input input)) (media : Actor)
    (sound : Inv media) where
  activate-Falls :
      (r : RetryTracker) (route : MediaRoute) (before : ℕ)
      → r.context ≡ some (from_input input)
      → MayRun input route
      → recovery.maximum_attempts - r.attempts < before
      → media.snapshot.media_generation + before ≤ u64_max
      → Falls recovery input before (record { retry = r; media = (activate env t route media).0 })
  activate-Falls r route before c m lt room =
      let s : PolicyState = record { retry = r; media = (activate env t route media).0 } in
      let done = activate_lem env t route media sound (routed route m.routed) (omega arith) in
      let kept = activate-Inv env t route media sound in
      let le = landed_active recovery input s route m c done.0 (ground (arith, done.2)) in
      (omega arith, record { sound = kept; room = omega (arith, done.1) })

  deactivate-Falls :
      (r : RetryTracker) (before : ℕ)
      → r.context ≡ some (from_input input)
      → IsInactive input
      → recovery.maximum_attempts - r.attempts < before
      → media.snapshot.media_generation + before ≤ u64_max
      → Falls recovery input before
          (record { retry = r; media = (stop_to_idle env t output_disabled media).0 })
  deactivate-Falls r before c m lt room =
      let s : PolicyState = record {
        retry = r;
        media = (stop_to_idle env t output_disabled media).0;
      } in
      let done = stop_to_idle_lem env t output_disabled media in
      let kept = stop_to_idle-Inv env t output_disabled media sound in
      let le = landed_inactive recovery input s m c (ground (arith, done.0)) in
      (omega arith, record { sound = kept; room = omega (arith, done.2) })

  suspend-Falls :
      (r : RetryTracker) (reason : MediaSuspendReason) (before : ℕ)
      → IsBlocked input
      → media.snapshot.state ≡ MediaState.running
      → 0 < before
      → media.snapshot.media_generation + before ≤ u64_max
      → Falls recovery input before (record { retry = r; media = (suspend env t reason media).0 })
  suspend-Falls r reason before m st lt room =
      let s : PolicyState = record { retry = r; media = (suspend env t reason media).0 } in
      let done = (suspend_lem env t reason media).1 st in
      let kept = suspend-Inv env t reason media sound in
      let le = landed_blocked recovery input s m (ground (arith, done)) in
      (omega arith, record { sound = kept; room = omega (arith, done.1) })

  attempts_below :
      (n : ℕ) → next_delay retry recovery ≡ some n → retry.attempts < recovery.maximum_attempts
  attempts_below n e = ground (arith, next_delay-none recovery retry)

  handle-retrying :
      (route : MediaRoute)
      → media.snapshot.state ≡ MediaState.failed
      → media.snapshot.route ≡ some route
      → handle env t Commands.retrying media ≡ activate env t route media
  unfolding handle retry_from
  handle-retrying route st r = ground arith

  -- The state after a command, as a family over the command.
  abbrev After : RetryTracker → ℕ → CommandKind → Type 0
  After r before command =
      Falls recovery input before (record { retry = r; media = (handle env t command media).0 })

  pub decided-Falls :
      (d : PolicyDecision) (command : CommandKind)
      → Justified input media.snapshot (next_delay retry recovery) d
      → command_of d ≡ some command
      → media.snapshot.media_generation
          + rounds_of recovery.maximum_attempts retry.attempts (some d)
        ≤ u64_max
      → Falls recovery input
          (rounds_of recovery.maximum_attempts retry.attempts (some d))
          (record { retry = counted d retry; media = (handle env t command media).0 })
  unfolding command_of counted handle record_attempt
  decided-Falls (activating route) command m e room =
      subst (After retry (recovery.maximum_attempts + 1)) (some-injective _ _ e)
        (activate-Falls retry route (recovery.maximum_attempts + 1) observed m (omega arith) room)
  decided-Falls deactivating command m e room =
      subst (After retry (recovery.maximum_attempts + 1)) (some-injective _ _ e)
        (deactivate-Falls retry (recovery.maximum_attempts + 1) observed m (omega arith) room)
  decided-Falls giving_up command m e room = cc
  decided-Falls (retrying_deactivate n) command m e room =
      let left : ℕ = recovery.maximum_attempts - retry.attempts in
      let below = attempts_below n m.2 in
      subst (After (record_attempt retry) left) (some-injective _ _ e)
        (deactivate-Falls (record_attempt retry) left observed m.0 (ground arith) room)
  decided-Falls (retrying n) command m e room =
      let left : ℕ = recovery.maximum_attempts - retry.attempts in
      let below = attempts_below n m.4 in
      let after = activate-Falls (record_attempt retry) m.0 left observed m.1 (ground arith) room in
      subst (After (record_attempt retry) left) (some-injective _ _ e)
        (rw (handle-retrying m.0 m.3 m.2) after)
  decided-Falls (suspending reason) command m e room =
      subst (After retry (recovery.maximum_attempts + 1)) (some-injective _ _ e)
        (suspend-Falls retry reason (recovery.maximum_attempts + 1) m.0 m.1 (omega arith) room)
