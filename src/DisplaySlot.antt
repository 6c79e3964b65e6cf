-- ===== src/DisplaySlot.antt =====
-- crates/pronk/src/cast_display_slot.rs: the actor that owns one cast display. It keeps the snapshot
-- that others see, decides when the session with the device is replaced, and tells the media policy
-- what it sees. The `watch` channels of the snapshot and of the policy's input are fields; the other
-- actors are an `Environment`.
pub mod Values
pub mod Loop
pub mod Consistency
pub mod DeviceUpdates
pub mod Rounds
pub mod Informed
pub mod History
pub mod Ending
use pronk.Common.{
  ℕ, ◌+◌, Bool, true, false, ◌&&◌, ◌||◌, not, Option, none, some, is_some, List, [], ◌∷◌, ◌++◌,
  ◌==◌, eqb, max, if◌then◌else◌, saturating_add, checked_add, Bytes, codes, Result, ok, err,
}
use pronk.DisplayState.{
  AttachmentState, unknown, detached, DisplayGrantState, revoked as grant_revoked, DisplayTopology,
  DisplayRuntimeState, MediaState, initially_attached, observe_topology, observe_media,
}
use pronk.MediaSession.Values.{from_display_state}
use pronk.MediaPolicy.{MediaPolicyInput}
use pronk.Protocol.{DeviceAvailability, available}
use pronk.SessionReplacement.Values.{DeviceSessionStopReason, display_removed, daemon_shutdown}
use Values.{
  DeviceInfo, Availability-discrete, Device-discrete, Grant-discrete, Request-discrete,
  KernelDisplayObservation, KernelDisplayEvent, changed, revoked, media_failed,
  AddedCastDisplaySnapshot, DeviceSessionPolicyState, DeviceSessionAction, cancel, recover,
  RemoveCastDisplayError, Removal, Effect, published, replied, cancelled_phase, requested_recovery,
  reported_failure, shut_down_recovery, shut_down_media, detached_kernel, released_output,
  removal_replied, terminal_failure, Effects, SlotActor, SlotInput, update_device, remove,
  commands_closed, media_closed, recovery_stopped, policy_stopped, kernel_event, kernel_failed,
  policy_exhausted, recovery_ready, recovery_failed, transport_failed, media_changed, Exit, removal,
  terminal, closed, Environment,
}

abbrev pub is_available : DeviceInfo → Bool
is_available device = eqb Availability-discrete device.availability available

-- `DeviceSessionPolicyState` and its methods.
unfoldable pub new_session : DeviceInfo → Bool → ℕ → DeviceSessionPolicyState
new_session device ready session_generation = record {
  ready = ready;
  bound_connection_generation = device.connection_generation;
  session_generation = session_generation;
  pending_request = none;
}

unfoldable pub observe_device :
    DeviceSessionPolicyState → DeviceInfo → DeviceSessionPolicyState × Option DeviceSessionAction
observe_device s device =
    if s.ready && s.bound_connection_generation == device.connection_generation
    then (s, none)
    else if not (is_available device)
    then (record s { ready = false; pending_request = none }, some cancel)
    else (record s { ready = false }, some (recover device))

abbrev pub device_available : DeviceSessionPolicyState → DeviceInfo → Bool
device_available s device = s.ready || is_available device

abbrev pub request : ℕ → DeviceInfo → Option (ℕ × ℕ × ℕ)
request generation device =
    some (generation, device.connection_generation, device.discovery_generation)

unfoldable pub begin_request : DeviceSessionPolicyState → ℕ → DeviceInfo → DeviceSessionPolicyState
begin_request s generation device = record s { pending_request = request generation device }

unfoldable pub complete_request :
    DeviceSessionPolicyState → ℕ → DeviceInfo → ℕ → DeviceInfo → DeviceSessionPolicyState × Bool
complete_request s generation recovered session_generation current =
    if not (eqb Request-discrete s.pending_request (request generation recovered))
      || not (eqb Device-discrete recovered current)
      || not (is_available current)
    then (s, false)
    else (
      record {
        ready = true;
        bound_connection_generation = recovered.connection_generation;
        session_generation = session_generation;
        pending_request = none;
      },
      true,
    )

unfoldable pub fail_request :
    DeviceSessionPolicyState → ℕ → DeviceInfo → DeviceSessionPolicyState × Bool
fail_request s generation device =
    if not (eqb Request-discrete s.pending_request (request generation device))
    then (s, false)
    else (record s { ready = false; pending_request = none }, true)

unfoldable pub session_failed : DeviceSessionPolicyState → ℕ → DeviceSessionPolicyState × Bool
session_failed s generation =
    if not s.ready || not (s.session_generation == generation)
    then (s, false)
    else (record s { ready = false; pending_request = none }, true)

abbrev pub media_policy_input :
    AddedCastDisplaySnapshot → DeviceSessionPolicyState → MediaPolicyInput
media_policy_input snapshot s = record {
  attachment = snapshot.runtime.attachment;
  grant = snapshot.grant_state;
  device_available = device_available s snapshot.device;
  device_session_ready = s.ready;
  device_session_generation = s.session_generation;
  route = from_display_state snapshot.runtime;
}

-- The runtime state with its revision as the revision of the snapshot.
abbrev pub with_runtime : AddedCastDisplaySnapshot → DisplayRuntimeState → AddedCastDisplaySnapshot
with_runtime snapshot runtime = record snapshot {
  state_revision = runtime.revision;
  runtime = runtime;
}

-- The change of `update_device`.
abbrev pub with_device : AddedCastDisplaySnapshot → DeviceInfo → AddedCastDisplaySnapshot
with_device snapshot device =
    let revision = max (saturating_add snapshot.runtime.revision 1) device.device_revision in
    record {
      state_revision = revision;
      device = device;
      grant_state = snapshot.grant_state;
      runtime = record snapshot.runtime { revision = revision };
    }

abbrev pub failed_media : DisplayRuntimeState → Bytes → DisplayRuntimeState
failed_media runtime diagnostic =
    (observe_media runtime runtime.media_generation MediaState.failed (some diagnostic)).0

-- The new snapshot of `apply_kernel_event`.
unfoldable pub kernel_snapshot :
    AddedCastDisplaySnapshot → KernelDisplayEvent → AddedCastDisplaySnapshot
kernel_snapshot snapshot (changed observation) =
    let (runtime, topology_changed) = observe_topology snapshot.runtime observation.topology in
    let grant_changed = not (eqb Grant-discrete snapshot.grant_state observation.grant_state) in
    with_runtime (record snapshot { grant_state = observation.grant_state })
      (if grant_changed && not topology_changed
        then record runtime { revision = saturating_add runtime.revision 1 }
        else runtime)
kernel_snapshot snapshot revoked =
    let topology : DisplayTopology = record { attachment = detached; route = none } in
    with_runtime (record snapshot { grant_state = grant_revoked })
      (failed_media (observe_topology snapshot.runtime topology).0
        (codes "CastKMS grant was revoked"))
kernel_snapshot snapshot (media_failed error) =
    with_runtime snapshot (failed_media snapshot.runtime error)

abbrev pub emit : Effect → SlotActor → SlotActor
emit effect a = record a { effects = effect ∷ a.effects }

-- `send_modify` with `publish`.
abbrev pub publish : AddedCastDisplaySnapshot → SlotActor → SlotActor
publish snapshot a = emit (published snapshot) (record a { snapshot = snapshot })

-- `media_policy.observe(media_policy_input(..))`.
abbrev pub observe_policy : SlotActor → SlotActor
observe_policy a = record a { policy_input = media_policy_input a.snapshot a.device_session }

abbrev pub publish_media_failure : Bytes → SlotActor → SlotActor
publish_media_failure diagnostic a =
    publish (with_runtime a.snapshot (failed_media a.snapshot.runtime diagnostic)) a

abbrev pub initial_snapshot : ℕ → DeviceInfo → KernelDisplayObservation → AddedCastDisplaySnapshot
initial_snapshot state_revision device observation =
    let runtime = (observe_topology (initially_attached state_revision) observation.topology).0 in
    record {
      state_revision = runtime.revision;
      device = device;
      grant_state = observation.grant_state;
      runtime = runtime;
    }

-- The state that the loop starts from. The session was prepared for the given device, whose
-- generation of connection it is bound to.
abbrev pub started : ℕ → DeviceInfo → DeviceInfo → KernelDisplayObservation → ℕ → SlotActor
started state_revision prepared device observation session_generation =
    let snapshot = initial_snapshot state_revision device observation in
    let session = new_session prepared (is_available device) session_generation in
    record {
      snapshot = snapshot;
      device_session = session;
      policy_input = media_policy_input snapshot session;
      request_generation = 0;
      media_events_open = true;
      effects = [];
    }
