-- ===== src/DisplaySlot/Consistency.antt =====
-- What the rounds of the loop of crates/pronk/src/cast_display_slot.rs keep.
use pronk.Common.{
  ℕ, ◌≡◌, true, false, Option, none, some, checked_add, Bytes, Result, ok, err, arith, refl,
  Bool-cases, Option-cases, inl, inr,
}
use pronk.DisplayState.{MediaState, observe_media}
use pronk.DisplayState.Frames.{observe_media-route}
use pronk.MediaSession.Values.{from_display_state-route}
use pronk.DisplaySlot.Values.{
  DeviceInfo, AddedCastDisplaySnapshot, DeviceSessionPolicyState, Effect, requested_recovery,
  SlotActor, Environment,
}
use pronk.DisplaySlot.{
  emit, observe_device, begin_request, complete_request, session_failed, media_policy_input,
  with_runtime,
}
use pronk.DisplaySlot.Loop.{Round, advanced, request_recovery, begun}

-- The state of the session with the device: while it is ready no request is pending, and a pending
-- request is the latest that was made.
pub record IsSettled (s : DeviceSessionPolicyState) (latest : ℕ) : Type 0 where
  pub rests : s.ready ≡ true → s.pending_request ≡ none
  pub newest : (r : ℕ × ℕ × ℕ) → s.pending_request ≡ some r → r.0 ≡ latest

-- Between two rounds the media policy has been told of the state as it is, and the snapshot has the
-- revision of its runtime state.
pub record IsConsistent (a : SlotActor) : Type 0 where
  pub told : a.policy_input ≡ media_policy_input a.snapshot a.device_session
  pub revised : a.snapshot.state_revision ≡ a.snapshot.runtime.revision
  pub settled : IsSettled a.device_session a.request_generation

-- After a round that does not end the loop.
abbrev pub RoundInv : Round → Type 0
RoundInv (a, none) = IsConsistent a
RoundInv (a, some exit) = a.snapshot.state_revision ≡ a.snapshot.runtime.revision

pub input-media :
    (snapshot : AddedCastDisplaySnapshot) (session : DeviceSessionPolicyState) (generation : ℕ)
    (media : MediaState) (error : Option Bytes)
    → media_policy_input
        (with_runtime snapshot (observe_media snapshot.runtime generation media error).0)
        session
      ≡ media_policy_input snapshot session
input-media snapshot session generation media error =
    let after = (observe_media snapshot.runtime generation media error).0 in
    let (attachment, route, route_generation) =
      observe_media-route snapshot.runtime generation media error in
    rw (attachment, from_display_state-route after snapshot.runtime route_generation route) refl

pub observe_device-IsSettled :
    (s : DeviceSessionPolicyState) (device : DeviceInfo) (latest : ℕ)
    → IsSettled s latest
    → IsSettled (observe_device s device).0 latest
unfolding observe_device
observe_device-IsSettled s device latest i = record {
  rests = ground (arith, i.rests);
  newest = λ r e. ground (arith, i.newest r, e);
}

pub complete_request-IsSettled :
    (s : DeviceSessionPolicyState) (generation : ℕ) (recovered : DeviceInfo) (session : ℕ)
    (current : DeviceInfo) (latest : ℕ)
    → IsSettled s latest
    → IsSettled (complete_request s generation recovered session current).0 latest
unfolding complete_request
complete_request-IsSettled s generation recovered session current latest i = record {
  rests = ground (arith, i.rests);
  newest = λ r e. ground (arith, i.newest r, e);
}

pub session_failed-IsSettled :
    (s : DeviceSessionPolicyState) (generation latest : ℕ)
    → IsSettled s latest
    → IsSettled (session_failed s generation).0 latest
unfolding session_failed
session_failed-IsSettled s generation latest i = record {
  rests = ground (arith, i.rests);
  newest = λ r e. ground (arith, i.newest r, e);
}

pub begin_request-IsSettled :
    (s : DeviceSessionPolicyState) (generation : ℕ) (device : DeviceInfo)
    → s.ready ≡ false
    → IsSettled (begin_request s generation device) generation
unfolding begin_request
begin_request-IsSettled s generation device h = record {
  rests = λ e. absurd (ground (arith, h, e));
  newest = λ r e. ground (arith, e);
}

-- A request for a recovery is made under a new generation, or fails without a change that others see.
pub request_recovery-Inv :
    (env : Environment) (device : DeviceInfo) (k : SlotActor × Result Bytes ℕ → Round)
    (a : SlotActor)
    → ((generation : ℕ)
        → RoundInv (
            k (emit (requested_recovery generation device) (advanced a generation), ok generation)))
    → ((generation : ℕ) (error : Bytes) → RoundInv (k (advanced a generation, err error)))
    → RoundInv (k (request_recovery env device a))
unfolding request_recovery
request_recovery-Inv env device k a accepts refuses =
    elim (Option-cases (checked_add a.request_generation 1)) [
      | inl spent ↦ rw (request_recovery, spent) (refuses a.request_generation _)
      | inr (generation, e) ↦ elim (Bool-cases (env.accepts_request a.effects)) [
        | inr refused ↦ rw (request_recovery, e, refused) (refuses generation _)
        | inl accepted ↦ rw (request_recovery, e, accepted) (accepts generation)
      ]
    ]

pub begun-IsConsistent :
    (device : DeviceInfo) (generation : ℕ) (a : SlotActor)
    → a.policy_input ≡ media_policy_input a.snapshot a.device_session
    → a.snapshot.state_revision ≡ a.snapshot.runtime.revision
    → a.device_session.ready ≡ false
    → IsConsistent (
        begun device generation
          (emit (requested_recovery generation device) (advanced a generation)))
unfolding begin_request
begun-IsConsistent device generation a told revised h = record {
  told = told;
  revised = revised;
  settled = begin_request-IsSettled a.device_session generation device h;
}

pub emit-IsConsistent :
    (effect : Effect) (a : SlotActor) → IsConsistent a → IsConsistent (emit effect a)
emit-IsConsistent effect a i = record { told = i.told; revised = i.revised; settled = i.settled }
