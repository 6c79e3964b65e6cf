-- ===== src/DisplaySlot/Values.antt =====
-- The data of crates/pronk/src/cast_display_slot.rs, with that of kernel_display_port.rs, of display.rs
-- and of crates/pronk-dbus/src/lib.rs that it handles.
use pronk.Common.{ℕ, Bool, Option, List, Bytes, Bytes-discrete, ℕ_discrete, Result}
use pronk.DisplayState.{DisplayGrantState, DisplayTopology, DisplayRuntimeState, MediaState}
use pronk.MediaSession.Values.{MediaStopReason}
use pronk.MediaPolicy.{MediaPolicyInput}
use pronk.SessionReplacement.Values.{DeviceSessionStopReason}
use pronk.Protocol.{DeviceAvailability, DiscoveryMetadataEntry}

-- The device as the D-Bus service has it, with the availability of the protocol.
pub record DeviceInfo : Type 0 where
  pub backend_id : Bytes
  pub device_id : Bytes
  pub display_name : Bytes
  pub availability : DeviceAvailability
  pub connection_generation : ℕ  -- u64
  pub discovery_generation : ℕ  -- u64
  pub device_revision : ℕ  -- u64
  pub metadata : List DiscoveryMetadataEntry

unfoldable pub Availability-discrete : Discrete DeviceAvailability
Availability-discrete = hlevel

unfoldable pub Device-discrete : Discrete DeviceInfo
unfolding Bytes-discrete ℕ_discrete
Device-discrete = hlevel (Bytes-discrete, ℕ_discrete)

unfoldable pub Grant-discrete : Discrete DisplayGrantState
Grant-discrete = hlevel

pub record KernelDisplayObservation : Type 0 where
  pub topology : DisplayTopology
  pub grant_state : DisplayGrantState

pub data KernelDisplayEvent : Type 0 where
  changed : KernelDisplayObservation → KernelDisplayEvent
  revoked : KernelDisplayEvent
  media_failed : Bytes → KernelDisplayEvent

unfoldable pub Request-discrete : Discrete (Option (ℕ × ℕ × ℕ))
unfolding ℕ_discrete
Request-discrete = hlevel ℕ_discrete

-- The fields that the slot changes; the display, its preparation, its output and its grant are
-- carried along.
pub record AddedCastDisplaySnapshot : Type 0 where
  pub state_revision : ℕ  -- u64
  pub device : DeviceInfo
  pub grant_state : DisplayGrantState
  pub runtime : DisplayRuntimeState

-- A pending request is its generation with those of the device's connection and discovery.
pub record DeviceSessionPolicyState : Type 0 where
  pub ready : Bool
  pub bound_connection_generation : ℕ  -- u64
  pub session_generation : ℕ  -- u64
  pub pending_request : Option (ℕ × ℕ × ℕ)

pub data DeviceSessionAction : Type 0 where
  cancel : DeviceSessionAction
  recover : DeviceInfo → DeviceSessionAction

-- The errors of the parts of a teardown.
pub record RemoveCastDisplayError : Type 0 where
  pub recovery : Option Bytes
  pub media : Option Bytes
  pub detach : Option Bytes

abbrev pub Removal : Type 0
Removal = Result RemoveCastDisplayError (Unit {0})

-- What the actor does besides changing its state.
pub data Effect : Type 0 where
  published : AddedCastDisplaySnapshot → Effect
  replied : Bool → Effect
  cancelled_phase : Effect
  requested_recovery : ℕ → DeviceInfo → Effect
  reported_failure : Bytes → Effect
  shut_down_recovery : Effect
  shut_down_media : MediaStopReason → Effect
  detached_kernel released_output : Effect
  removal_replied : Removal → Effect
  terminal_failure : Bytes → Option Bytes → Effect

-- The effects so far, the newest first.
abbrev pub Effects : Type 0
Effects = List Effect

pub record SlotActor : Type 0 where
  pub snapshot : AddedCastDisplaySnapshot
  pub device_session : DeviceSessionPolicyState
  pub policy_input : MediaPolicyInput
  pub request_generation : ℕ  -- u64
  pub media_events_open : Bool
  pub effects : Effects

-- What a round of the loop receives.
pub data SlotInput : Type 0 where
  update_device : DeviceInfo → SlotInput
  remove : DeviceSessionStopReason → SlotInput
  commands_closed media_closed recovery_stopped policy_stopped : SlotInput
  kernel_event : KernelDisplayEvent → SlotInput
  kernel_failed policy_exhausted : Bytes → SlotInput
  recovery_ready : ℕ → DeviceInfo → ℕ → SlotInput
  recovery_failed : ℕ → DeviceInfo → Bytes → SlotInput
  transport_failed : ℕ → Bytes → SlotInput
  media_changed : ℕ → MediaState → Option Bytes → SlotInput

-- How the loop ends.
pub data Exit : Type 0 where
  removal : DeviceSessionStopReason → Exit
  terminal : Bytes → Exit
  closed : Exit

-- What the other actors answer, which may depend on all earlier effects: whether a request reaches
-- the recovery actor, the errors of the three parts of a teardown, and the text of an error.
pub record Environment : Type 0 where
  pub accepts_request : Effects → Bool
  pub recovery_error : Effects → Option Bytes
  pub media_error : Effects → Option Bytes
  pub detach_error : Effects → Option Bytes
  pub display : Option Bytes → Option Bytes → Bytes
