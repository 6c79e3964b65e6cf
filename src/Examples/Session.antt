-- ===== src/Examples/Session.antt =====
-- Runs of the media session of crates/pronk/src/media_session.rs.
use pronk.Common.{
  [], ◌∷◌, ◌≡◌, ◌≢◌, ◌⊎◌, refl, true, false, none, some, arith, length, ok, codes, ◌+◌, ◌≤◌, ◌<◌,
}
use pronk.DisplayState.{MediaState}
use pronk.MediaSession.{
  Environment, Actor, Outcome, completed, rejected, Calls, DriverCall, start_media, activate,
  stop_to_idle,
}
use pronk.MediaSession.Values.{MediaRoute, output_disabled, idle_snapshot}
use pronk.MediaSession.Commands.{activating, deactivating, run_actor}
use pronk.MediaSession.Traces.{Inv}
use pronk.MediaSession.Settled.{activate_lem}
use pronk.MediaSession.Shutdown.{
  IsShutDown, spawned, spawned-Inv, handle_all, handle_all-Inv, run_actor-IsShutDown,
}
use pronk.MediaSession.Progress.{completing, activate_completes, stop_to_idle_lem}
use pronk.MediaSession.Coordination.{
  System, here, next, Step, advances, interrupts, installs, start, next_generation, interrupt_phase,
  install_phase, RequestCoordinator, new, no_stale_phase,
}

abbrev pub a_route : MediaRoute
a_route = record {
  route_generation = 3;
  target = 7;
  mode = record { width = 1920; height = 1080; refresh_millihz = 60000; flags = 0 };
}

-- A driver whose captures and stops complete, and whose media is refused.
abbrev refusing_answer : Calls → DriverCall → Outcome
refusing_answer calls (start_media request) = rejected (codes "no receiver")
refusing_answer calls call = completed

abbrev pub refusing : Environment
refusing = record { answer = refusing_answer; cleanup_time = λ _. 0; display = λ _. codes "failed" }

abbrev pub willing : Environment
willing = completing (λ _. 0) (λ _. codes "failed")

run_actor-IsShutDown_example :
    IsShutDown (run_actor willing 1000 (activating a_route ∷ deactivating ∷ []) spawned)
run_actor-IsShutDown_example =
    run_actor-IsShutDown willing 1000 (activating a_route ∷ deactivating ∷ []) spawned spawned-Inv

handle_all-Inv_example : Inv (handle_all refusing 1000 (activating a_route ∷ []) spawned)
handle_all-Inv_example =
    handle_all-Inv refusing 1000 (activating a_route ∷ []) spawned spawned-Inv (ground arith, tt)

spawned_room : spawned.snapshot.media_generation < 18446744073709551615
unfolding spawned idle_snapshot
spawned_room = ground arith

activate_lem_example :
    let (b, reply) = activate refusing 1000 a_route spawned in
    (b.snapshot.route ≡ some a_route)
    × (b.snapshot.media_generation ≤ spawned.snapshot.media_generation + 1)
    × (((reply ≡ ok tt) × (b.snapshot.state ≡ MediaState.running) × (b.snapshot.last_error ≡ none))
        ⊎ ((reply ≢ ok tt)
            × (b.snapshot.state ≡ MediaState.failed)
            × (b.snapshot.last_error ≢ none)))
activate_lem_example =
    activate_lem refusing 1000 a_route spawned spawned-Inv (omega arith) spawned_room

activate_completes_example :
    let (b, reply) = activate (completing (λ _. 0) (λ _. codes "failed")) 1000 a_route spawned in
    (reply ≡ ok tt) × (b.snapshot.state ≡ MediaState.running) × (b.snapshot.route ≡ some a_route)
activate_completes_example =
    activate_completes (λ _. 0) (λ _. codes "failed") 1000 a_route spawned (omega arith)
      spawned_room

stop_to_idle_lem_example :
    let (b, reply) = stop_to_idle refusing 1000 output_disabled spawned in
    (((reply ≡ ok tt) × (b.snapshot.state ≡ MediaState.idle) × (b.snapshot.last_error ≡ none))
      ⊎ ((reply ≢ ok tt) × (b.snapshot.state ≡ MediaState.failed) × (b.snapshot.last_error ≢ none)))
    × (b.snapshot.route ≡ none)
    × (b.snapshot.media_generation ≡ spawned.snapshot.media_generation)
    × (length b.calls ≤ length spawned.calls + 1)
stop_to_idle_lem_example = stop_to_idle_lem refusing 1000 output_disabled spawned

-- A session that runs after its activation.
abbrev active : Actor
active = (activate willing 1000 a_route spawned).0

-- One request that advances the generation, interrupts the old phase and has its own installed.
abbrev requested : RequestCoordinator
requested = record { latest_generation = 1; installed = 0; cancelled = false }

abbrev quiet : System
quiet = record {
  coordinator = record { latest_generation = 1; installed = 1; cancelled = false };
  in_flight = 0;
}

abbrev pending : System
pending = record { coordinator = requested; in_flight = 1 }

abbrev interrupted : System
interrupted = record { coordinator = record requested { cancelled = true }; in_flight = 0 }

first-Step : Step start pending
unfolding start new next_generation
first-Step = advances requested 1 refl refl

second-Step : Step pending interrupted
unfolding interrupt_phase
second-Step = interrupts refl refl

third-Step : Step interrupted quiet
unfolding install_phase
third-Step = installs 1 refl

no_stale_phase_example :
    (quiet.coordinator.cancelled ≡ true)
    ⊎ (quiet.coordinator.installed ≡ quiet.coordinator.latest_generation)
no_stale_phase_example =
    no_stale_phase quiet (next (next (next here first-Step) second-Step) third-Step) refl
