-- ===== src/DisplaySlot/Rounds.antt =====
-- Every round of the loop of crates/pronk/src/cast_display_slot.rs keeps its state consistent, and
-- ignores answers to requests that are not the latest.
use pronk.Common.{
  subst, ℕ, ◌<◌, ◌≡◌, Bool, true, false, Option, none, some, List, [], ◌∷◌, eqb, if◌then◌else◌,
  Bytes, arith, refl, sym, ◌∙◌, Bool-cases, inl, inr,
}
use pronk.DisplayState.{MediaState, observe_media}
use pronk.DisplaySlot.Values.{
  DeviceInfo, Request-discrete, KernelDisplayObservation, KernelDisplayEvent, changed, revoked,
  media_failed, AddedCastDisplaySnapshot, DeviceSessionPolicyState, reported_failure, SlotActor,
  SlotInput, update_device, remove, commands_closed, media_closed, recovery_stopped, policy_stopped,
  kernel_event, kernel_failed, policy_exhausted, recovery_ready, recovery_failed, transport_failed,
  media_changed, Environment,
}
use pronk.DisplaySlot.{
  is_available, complete_request, fail_request, session_failed, kernel_snapshot, started,
  new_session, request,
}
use pronk.DisplaySlot.Loop.{
  Round, go_on, handle_kernel, handle_kernel_failure, handle_ready, handle_recovery_failure,
  after_transport, recover_transport, handle_transport_failure, handle_media, handle_input,
  next_round, run_loop,
}
use pronk.DisplaySlot.Consistency.{
  IsSettled, IsConsistent, RoundInv, input-media, complete_request-IsSettled,
  session_failed-IsSettled, request_recovery-Inv, begun-IsConsistent, emit-IsConsistent,
}
use pronk.DisplaySlot.DeviceUpdates.{handle_device-Inv}

publish-revised :
    (snapshot : AddedCastDisplaySnapshot) (event : KernelDisplayEvent)
    → let after = kernel_snapshot snapshot event in after.state_revision ≡ after.runtime.revision
unfolding kernel_snapshot
publish-revised snapshot (changed observation) = refl
publish-revised snapshot revoked = refl
publish-revised snapshot (media_failed error) = refl

handle_kernel-Inv :
    (event : KernelDisplayEvent) (a : SlotActor) → IsConsistent a → RoundInv (handle_kernel event a)
unfolding handle_kernel
handle_kernel-Inv (changed observation) a i = record {
  told = refl;
  revised = publish-revised a.snapshot (changed observation);
  settled = i.settled;
}
handle_kernel-Inv revoked a i = publish-revised a.snapshot revoked
handle_kernel-Inv (media_failed error) a i = record {
  told = refl;
  revised = publish-revised a.snapshot (media_failed error);
  settled = i.settled;
}

handle_ready-Inv :
    (generation : ℕ) (device : DeviceInfo) (session_generation : ℕ) (a : SlotActor)
    → IsConsistent a
    → RoundInv (handle_ready generation device session_generation a)
unfolding handle_ready
handle_ready-Inv generation device session_generation a i =
    let (session, completed) =
      complete_request a.device_session generation device session_generation a.snapshot.device in
    elim (Bool-cases completed) [
      | inr ignored ↦ rw ignored i
      | inl done ↦ rw done (record {
        told = refl;
        revised = i.revised;
        settled =
            complete_request-IsSettled a.device_session generation device session_generation
              a.snapshot.device a.request_generation i.settled;
      })
    ]

handle_recovery_failure-Inv :
    (generation : ℕ) (device : DeviceInfo) (error : Bytes) (a : SlotActor)
    → IsConsistent a
    → RoundInv (handle_recovery_failure generation device error a)
unfolding handle_recovery_failure
handle_recovery_failure-Inv generation device error a i =
    elim (Bool-cases (fail_request a.device_session generation device).1) [
      | inr ignored ↦ rw ignored i
      | inl failed ↦ rw failed refl
    ]

session_failed-ready :
    (s : DeviceSessionPolicyState) (generation : ℕ)
    → (session_failed s generation).1 ≡ true
    → (session_failed s generation).0.ready ≡ false
unfolding session_failed
session_failed-ready s generation e = ground (arith, e)

-- The recovery after a failed transport, in a session that is not ready.
recover_transport-Inv :
    (env : Environment) (diagnostic : Bytes) (a : SlotActor)
    → IsConsistent a
    → a.device_session.ready ≡ false
    → RoundInv (recover_transport env diagnostic a)
recover_transport-Inv env diagnostic a i h = elim (Bool-cases (is_available a.snapshot.device)) [
  | inr away ↦ rw away (emit-IsConsistent (reported_failure diagnostic) a i)
  | inl here ↦ rw here (
      request_recovery-Inv env a.snapshot.device (after_transport a.snapshot.device diagnostic) a
        (λ generation.
          emit-IsConsistent (reported_failure diagnostic) _
            (begun-IsConsistent a.snapshot.device generation a i.told i.revised h))
        (λ _ _. i.revised))
]

handle_transport_failure-Inv :
    (env : Environment) (generation : ℕ) (error : Bytes) (a : SlotActor)
    → IsConsistent a
    → RoundInv (handle_transport_failure env generation error a)
unfolding handle_transport_failure
handle_transport_failure-Inv env generation error a i =
    elim (Bool-cases (session_failed a.device_session generation).1) [
      | inr ignored ↦ rw ignored i
      | inl failed ↦ rw failed (
          recover_transport-Inv env _ _
            (record {
              told = refl;
              revised = refl;
              settled =
                  session_failed-IsSettled a.device_session generation a.request_generation
                    i.settled;
            })
            (session_failed-ready a.device_session generation failed))
    ]

handle_media-Inv :
    (generation : ℕ) (media : MediaState) (error : Option Bytes) (a : SlotActor)
    → IsConsistent a
    → RoundInv (handle_media generation media error a)
unfolding handle_media
handle_media-Inv generation media error a i =
    elim (Bool-cases (observe_media a.snapshot.runtime generation media error).1) [
      | inr same ↦ rw same i
      | inl changes ↦ rw changes (record {
        told = i.told ∙ sym (input-media a.snapshot a.device_session generation media error);
        revised = refl;
        settled = i.settled;
      })
    ]

guarded-Inv :
    (open_branch : Bool) (r : Round) (a : SlotActor)
    → RoundInv r
    → IsConsistent a
    → RoundInv (if open_branch then r else go_on a)
guarded-Inv true r a h i = h
guarded-Inv false r a h i = i

handle_input-Inv :
    (env : Environment) (input : SlotInput) (a : SlotActor)
    → IsConsistent a
    → RoundInv (handle_input env input a)
unfolding handle_input handle_kernel_failure
handle_input-Inv env (update_device device) a i = handle_device-Inv env device a i
handle_input-Inv env (remove reason) a i = i.revised
handle_input-Inv env commands_closed a i = i.revised
handle_input-Inv env (kernel_event event) a i = handle_kernel-Inv event a i
handle_input-Inv env (kernel_failed diagnostic) a i = refl
handle_input-Inv env (recovery_ready generation device session) a i =
    handle_ready-Inv generation device session a i
handle_input-Inv env (recovery_failed generation device error) a i =
    handle_recovery_failure-Inv generation device error a i
handle_input-Inv env (transport_failed generation error) a i =
    handle_transport_failure-Inv env generation error a i
handle_input-Inv env recovery_stopped a i = refl
handle_input-Inv env (media_changed generation media error) a i =
    guarded-Inv a.media_events_open _ a (handle_media-Inv generation media error a i) i
handle_input-Inv env media_closed a i = record {
  told = i.told;
  revised = i.revised;
  settled = i.settled;
}
handle_input-Inv env (policy_exhausted error) a i = i.revised
handle_input-Inv env policy_stopped a i = i.revised

next_round-Inv :
    (rest : SlotActor → Round) (r : Round)
    → ((a : SlotActor) → IsConsistent a → RoundInv (rest a))
    → RoundInv r
    → RoundInv (next_round rest r)
next_round-Inv rest (a, none) k i = k a i
next_round-Inv rest (a, some exit) k i = i

run_loop-Inv :
    (env : Environment) (inputs : List SlotInput) (a : SlotActor)
    → IsConsistent a
    → RoundInv (run_loop env inputs a)
unfolding run_loop
run_loop-Inv env [] a i = i
run_loop-Inv env (input ∷ rest) a i =
    next_round-Inv (run_loop env rest) (handle_input env input a) (run_loop-Inv env rest)
      (handle_input-Inv env input a i)

started-IsConsistent :
    (revision : ℕ) (prepared device : DeviceInfo) (observation : KernelDisplayObservation)
    (session : ℕ)
    → IsConsistent (started revision prepared device observation session)
unfolding new_session
started-IsConsistent revision prepared device observation session = record {
  told = refl;
  revised = refl;
  settled = record { rests = λ _. refl; newest = λ r e. ground (arith, e) };
}

-- The loop keeps the state consistent from its start on.
pub run_loop-RoundInv :
    (env : Environment) (inputs : List SlotInput) (revision : ℕ) (prepared device : DeviceInfo)
    (observation : KernelDisplayObservation) (session : ℕ)
    → RoundInv (run_loop env inputs (started revision prepared device observation session))
run_loop-RoundInv env inputs revision prepared device observation session =
    run_loop-Inv env inputs (started revision prepared device observation session)
      (started-IsConsistent revision prepared device observation session)

-- The answers to an earlier request than the latest do not match the pending one.
stale_request :
    (s : DeviceSessionPolicyState) (latest generation : ℕ) (device : DeviceInfo)
    → IsSettled s latest
    → generation < latest
    → eqb Request-discrete s.pending_request (request generation device) ≡ false
stale_request s latest generation device i h =
    elim (Bool-cases (eqb Request-discrete s.pending_request (request generation device))) [
      | inr differs ↦ differs
      | inl same ↦ absurd (
          omega (
            arith,
            h,
            i.newest (generation, device.connection_generation, device.discovery_generation)
                (ground (arith, same)),
          ))
    ]

ready_ignored :
    (a : SlotActor) (generation session : ℕ) (device : DeviceInfo)
    → eqb Request-discrete a.device_session.pending_request (request generation device) ≡ false
    → handle_ready generation device session a ≡ (a, none)
unfolding handle_ready complete_request
ready_ignored a generation session device e = rw e refl

failure_ignored :
    (a : SlotActor) (generation : ℕ) (device : DeviceInfo) (error : Bytes)
    → eqb Request-discrete a.device_session.pending_request (request generation device) ≡ false
    → handle_recovery_failure generation device error a ≡ (a, none)
unfolding handle_recovery_failure fail_request
failure_ignored a generation device error e = rw e refl

-- After any inputs, an answer to a recovery request that is not the latest one changes nothing,
-- neither a success nor a failure.
pub run_loop-stale :
    (env : Environment) (inputs : List SlotInput) (revision : ℕ) (prepared device : DeviceInfo)
    (observation : KernelDisplayObservation) (session : ℕ) (a : SlotActor)
    → run_loop env inputs (started revision prepared device observation session) ≡ (a, none)
    → (generation : ℕ) (answered : DeviceInfo) (new_session_generation : ℕ) (error : Bytes)
    → generation < a.request_generation
    → (handle_input env (recovery_ready generation answered new_session_generation) a ≡ (a, none))
      × (handle_input env (recovery_failed generation answered error) a ≡ (a, none))
unfolding handle_input
run_loop-stale env inputs revision prepared device observation session a e generation answered new
      error h =
    let consistent : IsConsistent a =
      subst RoundInv e
        (run_loop-RoundInv env inputs revision prepared device observation session) in
    let stale =
      stale_request a.device_session a.request_generation generation answered consistent.settled
        h in
    (
      ready_ignored a generation new answered stale,
      failure_ignored a generation answered error stale,
    )
