-- ===== src/DisplaySlot/Loop.antt =====
-- `run_slot` of crates/pronk/src/cast_display_slot.rs: the loop with a function per branch of its
-- `select!`, and the teardown after it. The inputs are those received in turn; with the last of them
-- the loop waits for more.
use pronk.Common.{
  ℕ, Bool, true, false, Option, none, some, is_some, List, [], ◌∷◌, ◌++◌, eqb, if◌then◌else◌,
  checked_add, Bytes, codes, Result, ok, err,
}
use pronk.DisplayState.{unknown, DisplayTopology, MediaState, observe_topology, observe_media}
use pronk.MediaSession.Values.{MediaStopReason}
use pronk.SessionReplacement.Values.{DeviceSessionStopReason, display_removed, daemon_shutdown}
use pronk.DisplaySlot.Values.{
  DeviceInfo, Device-discrete, KernelDisplayEvent, revoked, media_failed, DeviceSessionAction,
  cancel, recover, Removal, replied, cancelled_phase, requested_recovery, reported_failure,
  shut_down_recovery, shut_down_media, detached_kernel, released_output, removal_replied,
  terminal_failure, SlotActor, SlotInput, update_device, remove, commands_closed, media_closed,
  recovery_stopped, policy_stopped, kernel_event, kernel_failed, policy_exhausted, recovery_ready,
  recovery_failed, transport_failed, media_changed, Exit, removal, terminal, closed, Environment,
}
use pronk.DisplaySlot.{
  is_available, observe_device, begin_request, complete_request, fail_request, session_failed,
  with_runtime, with_device, failed_media, kernel_snapshot, emit, publish, observe_policy,
  publish_media_failure,
}

abbrev pub Round : Type 0
Round = SlotActor × Option Exit

abbrev pub go_on : SlotActor → Round
go_on a = (a, none)

-- `break` with `terminal_error`.
abbrev pub end_with : Bytes → SlotActor → Round
end_with error a = (a, some (terminal error))

-- `DeviceSessionRecoveryHandle::recover`, up to the sending of the command.
abbrev pub advanced : SlotActor → ℕ → SlotActor
advanced a generation = record a { request_generation = generation }

abbrev pub begun : DeviceInfo → ℕ → SlotActor → SlotActor
begun device generation a = record a {
  device_session = begin_request a.device_session generation device;
}

-- The recovery that an observed device asks for.
abbrev pub after_request : DeviceInfo → SlotActor × Result Bytes ℕ → Round
after_request device (a, ok generation) = go_on (begun device generation a)
after_request device (a, err error) =
    let diagnostic = codes "start Device-session recovery: " ++ error in
    end_with diagnostic (publish_media_failure diagnostic a)

-- `update_device` with the publication.
abbrev pub take_device : DeviceInfo → SlotActor → SlotActor × Bool
take_device device a =
    if eqb Device-discrete a.snapshot.device device
    then (a, false)
    else (publish (with_device a.snapshot device) a, true)

abbrev pub update_observed : Bool → Option DeviceSessionAction → SlotActor → SlotActor
update_observed device_changed action a =
    emit (replied device_changed)
      (if device_changed then observe_policy a else if is_some action then observe_policy a else a)

abbrev pub report_media : KernelDisplayEvent → SlotActor → SlotActor
report_media (media_failed error) a = emit (reported_failure error) a
report_media event a = a

abbrev pub ends_with_revoked : KernelDisplayEvent → SlotActor → Round
ends_with_revoked revoked a = end_with (codes "CastKMS grant was revoked") a
ends_with_revoked event a = go_on a

unfoldable pub handle_kernel : KernelDisplayEvent → SlotActor → Round
handle_kernel event a =
    ends_with_revoked event
      (report_media event (observe_policy (publish (kernel_snapshot a.snapshot event) a)))

unfoldable pub handle_kernel_failure : Bytes → SlotActor → Round
handle_kernel_failure diagnostic a =
    let topology : DisplayTopology = record { attachment = unknown; route = none } in
    end_with diagnostic (
      publish
        (with_runtime a.snapshot
          (failed_media (observe_topology a.snapshot.runtime topology).0 diagnostic))
        a)

unfoldable pub handle_ready : ℕ → DeviceInfo → ℕ → SlotActor → Round
handle_ready generation device session_generation a =
    let (session, completed) =
      complete_request a.device_session generation device session_generation a.snapshot.device in
    if completed then go_on (observe_policy (record a { device_session = session })) else go_on a

unfoldable pub handle_recovery_failure : ℕ → DeviceInfo → Bytes → SlotActor → Round
handle_recovery_failure generation device error a =
    let (session, failed) = fail_request a.device_session generation device in
    let diagnostic = codes "Device-session recovery failed: " ++ error in
    if failed
    then end_with diagnostic
        (publish_media_failure diagnostic (record a { device_session = session }))
    else go_on a

-- The recovery after a failure of the transport, which is reported before the loop may end.
abbrev pub after_transport : DeviceInfo → Bytes → SlotActor × Result Bytes ℕ → Round
after_transport device diagnostic (a, ok generation) =
    go_on (emit (reported_failure diagnostic) (begun device generation a))
after_transport device diagnostic (a, err error) =
    end_with (codes "start recovery after Device-session transport failure: " ++ error)
      (emit (reported_failure diagnostic) a)

unfoldable pub handle_media : ℕ → MediaState → Option Bytes → SlotActor → Round
handle_media generation media last_error a =
    let (runtime, runtime_changed) = observe_media a.snapshot.runtime generation media last_error in
    if runtime_changed then go_on (publish (with_runtime a.snapshot runtime) a) else go_on a

abbrev pub next_round : (SlotActor → Round) → Round → Round
next_round rest (a, none) = rest a
next_round rest (a, some exit) = (a, some exit)

module _ (env : Environment) where
  unfoldable pub request_recovery : DeviceInfo → SlotActor → SlotActor × Result Bytes ℕ
  request_recovery device a = elim (checked_add a.request_generation 1) [
    | none ↦ (a, err (codes "Device-session recovery generation exhausted"))
    | some generation ↦
        if env.accepts_request a.effects
        then (emit (requested_recovery generation device) (advanced a generation), ok generation)
        else (advanced a generation, err (codes "Device-session recovery actor stopped"))
  ]

  abbrev pub act : Option DeviceSessionAction → SlotActor → Round
  act none a = go_on a
  act (some cancel) a = go_on (emit cancelled_phase a)
  act (some (recover device)) a = after_request device (request_recovery device a)

  unfoldable pub handle_device : DeviceInfo → SlotActor → Round
  handle_device device a =
      let (session, action) = observe_device a.device_session device in
      let (taken, device_changed) = take_device device (record a { device_session = session }) in
      act action (update_observed device_changed action taken)

  abbrev pub recover_transport : Bytes → SlotActor → Round
  recover_transport diagnostic a =
      let device = a.snapshot.device in
      if is_available device
      then after_transport device diagnostic (request_recovery device a)
      else go_on (emit (reported_failure diagnostic) a)

  unfoldable pub handle_transport_failure : ℕ → Bytes → SlotActor → Round
  handle_transport_failure generation error a =
      let (session, failed) = session_failed a.device_session generation in
      let diagnostic = codes "Device session transport failed: " ++ error in
      if failed
      then recover_transport diagnostic (
          observe_policy (publish_media_failure diagnostic (record a { device_session = session })))
      else go_on a

  -- One round of the loop; the branch of the media state has a guard.
  unfoldable pub handle_input : SlotInput → SlotActor → Round
  handle_input (update_device device) a = handle_device device a
  handle_input (remove reason) a = (a, some (removal reason))
  handle_input commands_closed a = (a, some closed)
  handle_input (kernel_event event) a = handle_kernel event a
  handle_input (kernel_failed diagnostic) a = handle_kernel_failure diagnostic a
  handle_input (recovery_ready generation device session_generation) a =
      handle_ready generation device session_generation a
  handle_input (recovery_failed generation device error) a =
      handle_recovery_failure generation device error a
  handle_input (transport_failed generation error) a = handle_transport_failure generation error a
  handle_input recovery_stopped a =
      let diagnostic = codes "Device-session recovery coordinator stopped" in
      end_with diagnostic (publish_media_failure diagnostic a)
  handle_input (media_changed generation media last_error) a =
      let observed = handle_media generation media last_error a in
      if a.media_events_open then observed else go_on a
  handle_input media_closed a = go_on (record a { media_events_open = false })
  handle_input (policy_exhausted error) a = end_with error a
  handle_input policy_stopped a = end_with (codes "media recovery policy stopped unexpectedly") a

  unfoldable pub run_loop : List SlotInput → SlotActor → Round
  run_loop [] a = go_on a
  run_loop (input ∷ rest) a = next_round (run_loop rest) (handle_input input a)

abbrev pub stop_reason : Exit → DeviceSessionStopReason
stop_reason (removal reason) = reason
stop_reason (terminal error) = display_removed
stop_reason closed = daemon_shutdown

abbrev pub removal_result : Option Bytes → Option Bytes → Option Bytes → Removal
removal_result none none none = ok tt
removal_result recovery media detach =
    err (record { recovery = recovery; media = media; detach = detach })

abbrev pub media_reason : DeviceSessionStopReason → MediaStopReason
media_reason display_removed = MediaStopReason.display_removed
media_reason daemon_shutdown = MediaStopReason.backend_shutdown

-- What is said of the teardown at its end.
abbrev pub announced : Environment → Exit → Removal → SlotActor → SlotActor
announced env (removal reason) result a = emit (removal_replied result) a
announced env (terminal error) (ok _) a = emit (terminal_failure error none) a
announced env (terminal error) (err e) a =
    emit (terminal_failure error (some (env.display e.media e.detach))) a
announced env closed result a = a

-- The teardown.
unfoldable pub tear_down : Environment → Exit → SlotActor → SlotActor
tear_down env exit a =
    let without_recovery = emit shut_down_recovery a in
    let without_media = emit (shut_down_media (media_reason (stop_reason exit))) without_recovery in
    let without_kernel = emit detached_kernel without_media in
    let result =
      removal_result (env.recovery_error a.effects) (env.media_error without_recovery.effects)
        (env.detach_error without_media.effects) in
    announced env exit result (emit released_output without_kernel)

abbrev pub finished : Environment → Round → Round
finished env (a, none) = (a, none)
finished env (a, some exit) = (tear_down env exit a, some exit)

unfoldable pub run_slot : Environment → List SlotInput → SlotActor → Round
run_slot env inputs a = finished env (run_loop env inputs a)
