-- ===== src/MediaPolicy/Loop.antt =====
-- `run_policy` and `apply_decision` of crates/pronk/src/media_policy.rs, on top of the
-- media-session actor, while the observed input stands still and nobody cancels: every sleep
-- passes, and every operation ends before the next decision. The loop takes fuel for its rounds.
pub mod Measure
pub mod Ending
use pronk.Common.{ℕ, zero, suc, Option, none, some, Bytes, codes, saturate, Result}
use pronk.MediaSession.Values.{MediaSessionSnapshot}
use pronk.MediaSession.Commands.{CommandKind, handle}
use pronk.MediaSession.Commands
use pronk.MediaSession.{Environment, Actor}
use pronk.MediaPolicy.{
  MediaPolicyInput, MediaRecoveryPolicy, PolicyDecision, activating, deactivating, giving_up,
  retrying, retrying_deactivate, suspending, RetryTracker, observe, next_delay, record_attempt,
  decide,
}

-- What the policy task owns and what it drives.
pub record PolicyState : Type 0 where
  pub retry : RetryTracker
  pub media : Actor

-- How one round ends: the task waits for a change, gives its owner the last error and returns, or
-- goes round again.
pub data Round : Type 0 where
  waits : PolicyState → Round
  gives_up : Bytes → PolicyState → Round
  again : PolicyState → Round

-- `apply_decision`: the session command of each decision.
pub command_of : PolicyDecision → Option CommandKind
command_of (activating route) = some (Commands.activating route)
command_of deactivating = some Commands.deactivating
command_of giving_up = none
command_of (retrying_deactivate delay) = some Commands.deactivating
command_of (retrying delay) = some Commands.retrying
command_of (suspending reason) = some (Commands.suspending reason)

-- A retry is counted before it is made.
pub counted : PolicyDecision → RetryTracker → RetryTracker
counted (retrying delay) retry = record_attempt retry
counted (retrying_deactivate delay) retry = record_attempt retry
counted _ retry = retry

abbrev last_error_or_exhausted : MediaSessionSnapshot → Bytes
last_error_or_exhausted s = elim s.last_error [
  | none ↦ codes "media recovery budget exhausted"
  | some error ↦ error
]

module _ (env : Environment) (timeout : ℕ) (recovery : MediaRecoveryPolicy) where
  apply_round : RetryTracker → Actor → PolicyDecision → Round
  unfolding command_of counted
  apply_round retry media decision = elim (command_of decision) [
    | none ↦
        gives_up (last_error_or_exhausted media.snapshot) (record { retry = retry; media = media })
    | some command ↦
        again
          (record { retry = counted decision retry; media = (handle env timeout command media).0 })
  ]

  round_on : RetryTracker → Actor → Option PolicyDecision → Round
  unfolding apply_round
  round_on retry media none = waits (record { retry = retry; media = media })
  round_on retry media (some decision) = apply_round retry media decision

  pub policy_round : MediaPolicyInput → PolicyState → Round
  unfolding round_on
  policy_round input s =
      let retry = observe s.retry input s.media.snapshot in
      round_on retry s.media (decide input s.media.snapshot (next_delay retry recovery))

  -- `none` means that the fuel ran out while the loop still goes round.
  pub run_policy : ℕ → MediaPolicyInput → PolicyState → Option Round
  run_policy zero input s = none
  run_policy (suc fuel) input s = elim (policy_round input s) [
    | waits s' ↦ some (waits s')
    | gives_up error s' ↦ some (gives_up error s')
    | again s' ↦ run_policy fuel input s'
  ]
