-- ===== src/MediaSession/Shutdown.antt =====
-- The command loop of the media-session actor, for any sequence of commands.
use pronk.Common.{ℕ, ◌-◌, ◌≢◌, Option, some, List, [], ◌∷◌, arith, refl, All}
use pronk.Diagnostics.{bounded_text}
use pronk.DisplayState.{MediaState}
use pronk.MediaSession.Values.{
  MediaRoute, idle_snapshot, MediaStopReason, output_disabled, backend_shutdown,
}
use pronk.MediaSession.Commands.{
  CommandKind, activating, deactivating, retrying, suspending, reporting_failure, shutting_down,
  final_reserve, shutdown, retry_from, handle, run_actor,
}
use pronk.MediaSession.Traces.{Inv, Disciplined}
use pronk.MediaSession.{Calls, Environment, Actor, shutdown_driver, max_error_bytes, run_phase}
use pronk.MediaSession.Settled.{
  stop_to_idle-Inv, suspend-Inv, activate-Inv, report_external_failure-Inv,
}

-- A shutdown makes its driver call last: before it the trace is that of a disciplined session.
abbrev pub IsShutDown : Actor → Type 0
IsShutDown a = on a.calls
  where
    on : Calls → Type 0
    on ((shutdown_driver reason, outcome) ∷ earlier) =
        Disciplined a.snapshot.media_generation earlier
    on _ = ⊥

shutdown-IsShutDown :
    (env : Environment) (t : ℕ) (reason : MediaStopReason) (a : Actor)
    → Inv a
    → IsShutDown (shutdown env t reason a).0
unfolding shutdown run_phase
shutdown-IsShutDown env t reason a h =
    ground (arith, stop_to_idle-Inv env (t - final_reserve t) reason a h)

retry_from-Inv :
    (env : Environment) (t : ℕ) (state : MediaState) (route : Option MediaRoute) (a : Actor)
    → Inv a
    → Inv (retry_from env t state route a).0
unfolding retry_from
retry_from-Inv env t MediaState.failed (some route) a h = activate-Inv env t route a h
retry_from-Inv env t _ _ a h = h

handle-Inv :
    (env : Environment) (t : ℕ) (command : CommandKind) (a : Actor)
    → Inv a
    → ((reason : MediaStopReason) → command ≢ shutting_down reason)
    → Inv (handle env t command a).0
unfolding handle
handle-Inv env t (activating route) a h k = activate-Inv env t route a h
handle-Inv env t deactivating a h k = stop_to_idle-Inv env t output_disabled a h
handle-Inv env t retrying a h k = retry_from-Inv env t a.snapshot.state a.snapshot.route a h
handle-Inv env t (suspending reason) a h k = suspend-Inv env t reason a h
handle-Inv env t (reporting_failure error) a h k =
    report_external_failure-Inv env t (bounded_text error max_error_bytes) a h
handle-Inv env t (shutting_down reason) a h k = absurd (k reason refl)

-- The actor as it is spawned.
unfoldable pub spawned : Actor
spawned = record { snapshot = idle_snapshot; calls = [] }

pub spawned-Inv : Inv spawned
unfolding spawned idle_snapshot
spawned-Inv = ground arith

-- A history of commands before any shutdown.
pub handle_all : Environment → ℕ → List CommandKind → Actor → Actor
handle_all env t [] a = a
handle_all env t (command ∷ rest) a = handle_all env t rest (handle env t command a).0

-- From a state with the invariant `Inv`, between two commands of any history without a shutdown, the session is idle, running, suspended
-- or failed (or its generations are exhausted), with the route and the error that the state calls
-- for, and the last driver call is the one that led to the state; the trace is disciplined.
pub handle_all-Inv :
    (env : Environment) (t : ℕ) (commands : List CommandKind) (a : Actor)
    → Inv a
    → All (λ command. (reason : MediaStopReason) → command ≢ shutting_down reason) commands
    → Inv (handle_all env t commands a)
unfolding handle_all
handle_all-Inv env t [] a h k = h
handle_all-Inv env t (command ∷ rest) a h k =
    handle_all-Inv env t rest (handle env t command a).0 (handle-Inv env t command a h k.0) k.1

-- From a state as between two commands (`Inv`, which the spawned actor has), whatever the driver
-- answers and whatever commands arrive, the actor ends with one shutdown call
-- of the driver, and no other call is a shutdown; before it, each media generation starts its
-- capture once, in increasing order, only after a successful stop of the generation before it as
-- the last call, its media only after its own capture has completed, and its suspension only while
-- its media runs.
pub run_actor-IsShutDown :
    (env : Environment) (t : ℕ) (commands : List CommandKind) (a : Actor)
    → Inv a
    → IsShutDown (run_actor env t commands a)
unfolding run_actor
run_actor-IsShutDown env t [] a h = shutdown-IsShutDown env t backend_shutdown a h
run_actor-IsShutDown env t (shutting_down reason ∷ rest) a h = shutdown-IsShutDown env t reason a h
run_actor-IsShutDown env t (command ∷ rest) a h =
    run_actor-IsShutDown env t rest (handle env t command a).0
      (handle-Inv env t command a h (λ reason e. cc))
