-- ===== src/Examples/Displays.antt =====
-- A display whose device comes back under another connection, before its grant is revoked.
use pronk.Common.{
  ℕ, ℕ_discrete, Bytes-discrete, ◌≡◌, true, none, some, List, [], ◌∷◌, arith, refl, codes,
}
use pronk.DisplayState.{attached, active}
use pronk.Protocol.{available}
use pronk.DisplaySlot.Values.{
  DeviceInfo, Availability-discrete, Device-discrete, KernelDisplayObservation, revoked, SlotActor,
  SlotInput, update_device, kernel_event, recovery_ready, recovery_failed, transport_failed,
  Environment,
}
use pronk.DisplaySlot.{new_session, observe_device, begin_request, started}
use pronk.DisplaySlot.Loop.{request_recovery, handle_device, handle_input, run_loop, run_slot}
use pronk.DisplaySlot.Rounds.{run_loop-stale}
use pronk.DisplaySlot.Informed.{RoundInformed, run_loop-RoundInformed}
use pronk.DisplaySlot.History.{IsHistory}
use pronk.DisplaySlot.Ending.{EndsAs, run_slot-EndsAs}

-- Every request is accepted, and the teardown of the media fails.
abbrev env : Environment
env = record {
  accepts_request = λ _. true;
  recovery_error = λ _. none;
  media_error = λ _. some (codes "busy");
  detach_error = λ _. none;
  display = λ media detach. codes "cleanup failed";
}

-- The television, by its connection.
abbrev pub television : ℕ → DeviceInfo
television connection = record {
  backend_id = codes "chromiacast";
  device_id = codes "device-1234";
  display_name = codes "Television";
  availability = available;
  connection_generation = connection;
  discovery_generation = 1;
  device_revision = connection;
  metadata = [];
}

abbrev observation : KernelDisplayObservation
observation = record {
  topology = record { attachment = attached; route = none };
  grant_state = active;
}

abbrev start : SlotActor
start = started 1 (television 1) (television 1) observation 1

-- Two recoveries are requested, and the first of them is answered late.
abbrev reconnected : List SlotInput
reconnected = update_device (television 2) ∷ update_device (television 3) ∷ []

abbrev waiting : SlotActor
waiting = (run_loop env reconnected start).0

run_loop-RoundInformed_example :
    RoundInformed (run_loop env (transport_failed 1 (codes "reset") ∷ reconnected) start)
run_loop-RoundInformed_example =
    run_loop-RoundInformed env (transport_failed 1 (codes "reset") ∷ reconnected) 1 (television 1)
      (television 1) observation 1

waits : (run_loop env reconnected start ≡ (waiting, none)) × (waiting.request_generation ≡ 2)
unfolding run_loop handle_input handle_device observe_device request_recovery begin_request
    new_session Availability-discrete Device-discrete Bytes-discrete ℕ_discrete
waits = (refl, refl)

run_loop-stale_example :
    (handle_input env (recovery_ready 1 (television 2) 2) waiting ≡ (waiting, none))
    × (handle_input env (recovery_failed 1 (television 2) (codes "late")) waiting ≡ (waiting, none))
run_loop-stale_example =
    run_loop-stale env reconnected 1 (television 1) (television 1) observation 1 waiting waits.0 1
      (television 2) 2 (codes "late") (omega (arith, waits.1))

run_slot-EndsAs_example :
    let (last, exit) =
      run_loop env (update_device (television 2) ∷ kernel_event revoked ∷ []) start in
    IsHistory last.snapshot.state_revision last.effects
    × EndsAs
        (last, exit)
        (run_slot env (update_device (television 2) ∷ kernel_event revoked ∷ []) start)
run_slot-EndsAs_example =
    run_slot-EndsAs env (update_device (television 2) ∷ kernel_event revoked ∷ []) 1 (television 1)
      (television 1) observation 1 (omega arith) (omega arith, (tt, tt))
