-- ===== src/MediaPolicy.antt =====
-- crates/pronk/src/media_policy.rs: the policy that turns the observed route and authority of one
-- display into commands for its media-session actor. Durations are nanoseconds.
pub mod Backoff
pub mod Decisions
pub mod Loop
use pronk.Common.{
  ℕ, ◌*◌, ◌^◌, Bool, true, false, ◌&&◌, ◌||◌, not, Option, none, some, leb, eqb, if◌then◌else◌, min,
  saturate, duration_max, millis, u32_max, ◌+◌, ℕ_discrete,
}
use pronk.DisplayState.{
  AttachmentState, DisplayGrantState, MediaState, AttachmentState-discrete, MediaState-discrete,
}
use pronk.MediaSession.Values.{
  MediaRoute, MediaSuspendReason, device_unavailable, grant_unavailable, MediaSessionSnapshot,
  Route-discrete,
}

pub record MediaPolicyInput : Type 0 where
  pub attachment : AttachmentState
  pub grant : DisplayGrantState
  pub device_available : Bool
  pub device_session_ready : Bool
  pub device_session_generation : ℕ  -- u64
  pub route : Option MediaRoute

pub record MediaRecoveryPolicy : Type 0 where
  pub maximum_attempts : ℕ  -- u32
  pub initial_delay : ℕ
  pub maximum_delay : ℕ

-- `MediaRecoveryPolicy::default`.
pub default_recovery : MediaRecoveryPolicy
default_recovery = record {
  maximum_attempts = 6;
  initial_delay = millis 250;
  maximum_delay = millis 4000;
}

pub data PolicyDecision : Type 0 where
  activating : MediaRoute → PolicyDecision
  deactivating giving_up : PolicyDecision
  retrying_deactivate retrying : ℕ → PolicyDecision
  suspending : MediaSuspendReason → PolicyDecision

pub record RetryContext : Type 0 where
  pub route : Option MediaRoute
  pub attachment : AttachmentState
  pub grant : DisplayGrantState
  pub device_available : Bool
  pub device_session_ready : Bool
  pub device_session_generation : ℕ  -- u64

-- `RetryContext::from`.
abbrev pub from_input : MediaPolicyInput → RetryContext
from_input input = record {
  route = input.route;
  attachment = input.attachment;
  grant = input.grant;
  device_available = input.device_available;
  device_session_ready = input.device_session_ready;
  device_session_generation = input.device_session_generation;
}

unfoldable pub DisplayGrantState-discrete : Discrete DisplayGrantState
DisplayGrantState-discrete = hlevel

unfoldable pub RetryContext-discrete : Discrete (Option RetryContext)
unfolding ℕ_discrete
RetryContext-discrete = hlevel ℕ_discrete

pub record RetryTracker : Type 0 where
  pub context : Option RetryContext
  pub attempts : ℕ  -- u32

-- `RetryTracker::default`.
pub no_retries : RetryTracker
no_retries = record { context = none; attempts = 0 }

pub observe : RetryTracker → MediaPolicyInput → MediaSessionSnapshot → RetryTracker
observe r input media =
    let context = from_input input in
    if not (eqb RetryContext-discrete r.context (some context))
      || eqb MediaState-discrete media.state MediaState.running
    then record { context = some context; attempts = 0 }
    else r

-- `1_u32.checked_shl(attempts.min(30))`: the shift is below 32, so it never fails.
abbrev multiplier : ℕ → ℕ
multiplier attempts = 2 ^ min attempts 30

pub next_delay : RetryTracker → MediaRecoveryPolicy → Option ℕ
next_delay r policy =
    if leb policy.maximum_attempts r.attempts
    then none
    else some (
        min (saturate duration_max (policy.initial_delay * multiplier r.attempts))
          policy.maximum_delay)

pub record_attempt : RetryTracker → RetryTracker
record_attempt r = record r { attempts = saturate u32_max (r.attempts + 1) }

-- `retry_delay.map_or(PolicyDecision::GiveUp, retry)`.
abbrev retry_or_give_up : (ℕ → PolicyDecision) → Option ℕ → PolicyDecision
retry_or_give_up retry none = giving_up
retry_or_give_up retry (some delay) = retry delay

decide_deactivate : MediaState → Option ℕ → Option PolicyDecision
decide_deactivate MediaState.idle retry_delay = none
decide_deactivate MediaState.failed retry_delay =
    some (retry_or_give_up retrying_deactivate retry_delay)
decide_deactivate _ retry_delay = some deactivating

-- `(media.state == MediaState::Running).then_some(PolicyDecision::Suspend(reason))`.
abbrev suspend_if_running : MediaState → MediaSuspendReason → Option PolicyDecision
suspend_if_running state reason =
    if eqb MediaState-discrete state MediaState.running then some (suspending reason) else none

decide_active : MediaRoute → MediaState → Option MediaRoute → Option ℕ → Option PolicyDecision
decide_active route state current retry_delay =
    if eqb MediaState-discrete state MediaState.running && eqb Route-discrete current (some route)
    then none
    else if eqb MediaState-discrete state MediaState.failed
        && eqb Route-discrete current (some route)
    then some (retry_or_give_up retrying retry_delay)
    else some (activating route)

decide_routed :
    MediaPolicyInput → MediaRoute → MediaSessionSnapshot → Option ℕ → Option PolicyDecision
unfolding decide_deactivate decide_active
decide_routed input route media retry_delay =
    if not (eqb AttachmentState-discrete input.attachment AttachmentState.attached)
    then decide_deactivate media.state retry_delay
    else if not input.device_available || not input.device_session_ready
    then suspend_if_running media.state device_unavailable
    else if not (eqb DisplayGrantState-discrete input.grant DisplayGrantState.active)
    then suspend_if_running media.state grant_unavailable
    else decide_active route media.state media.route retry_delay

unfoldable pub decide : MediaPolicyInput → MediaSessionSnapshot → Option ℕ → Option PolicyDecision
unfolding decide_routed
decide input media retry_delay = elim input.route [
  | none ↦ decide_deactivate media.state retry_delay
  | some route ↦ decide_routed input route media retry_delay
]
