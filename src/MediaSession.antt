-- ===== src/MediaSession.antt =====
-- crates/pronk/src/media_session.rs: the actor that owns one display's media session. The driver
-- (capture, PipeWire, backend) and the clock are an `Environment`, an argument of every function:
-- its answer to a call may depend on all earlier calls. The `watch` channel is the snapshot.
pub mod Values
pub mod Commands
pub mod Traces
pub mod Settled
pub mod Shutdown
pub mod Progress
pub mod Coordination
use pronk.Common.{
  ℕ, ◌+◌, ◌-◌, ◌/◌, Bool, true, false, ◌&&◌, Option, none, some, List, [], ◌∷◌, ◌++◌, eqb, ◌==◌,
  if◌then◌else◌, saturating_add, checked_add, max, Bytes, codes, Result, ok, err, String,
  ℕ_discrete, Bytes-discrete,
}
use pronk.Diagnostics.{bounded_text}
use pronk.DisplayState.{
  MediaState, RoutedMode, DisplayRuntimeState, RouteState, ActiveRoute, MediaState-discrete,
  LastError-discrete,
}
use Values.{
  MediaRoute, MediaStartRequest, MediaSuspendReason, MediaStopReason, output_disabled, mode_changed,
  backend_shutdown, transport_failure, MediaSessionSnapshot, SessionError, invalid_route_generation,
  generation_exhausted, suspend_unavailable, retry_unavailable, phase_timeout, driver_failed,
  combined_shutdown, Route-discrete,
}

-- One call of the `MediaSessionDriver`.
pub data DriverCall : Type 0 where
  start_capture start_media : MediaStartRequest → DriverCall
  suspend_media : ℕ → MediaSuspendReason → DriverCall
  stop_media : ℕ → MediaStopReason → DriverCall
  shutdown_driver : MediaStopReason → DriverCall

-- How a call ends under `tokio::time::timeout`.
pub data Outcome : Type 0 where
  completed elapsed : Outcome
  rejected : Bytes → Outcome

-- The calls made so far with their outcomes, the newest first.
abbrev pub Calls : Type 0
Calls = List (DriverCall × Outcome)

pub record Environment : Type 0 where
  pub answer : Calls → DriverCall → Outcome
  -- The nanoseconds that the media cleanup of a shutdown took.
  pub cleanup_time : Calls → ℕ
  -- The derived `Display` of an error.
  pub display : SessionError → Bytes

pub record Actor : Type 0 where
  pub snapshot : MediaSessionSnapshot
  pub calls : Calls

-- A part of a command: the new actor state, and what the command has come to.
abbrev pub Action : Type 0
Action = Actor → Actor × Result SessionError (Unit {0})

-- `?` and an early return, over the actor's state.
infixl 5 ◌>>◌
abbrev pub ◌>>◌ : Action → Action → Action
◌>>◌ first second a = continue (first a)
  where
    continue : Actor × Result SessionError (Unit {0}) → Actor × Result SessionError (Unit {0})
    continue (a', ok _) = second a'
    continue (a', err e) = (a', err e)

-- `if let Err(error) = ... { handler; return Err(error); }`.
abbrev pub on_error : Action → (SessionError → Actor → Actor) → Action
on_error action handler a = handle (action a)
  where
    handle : Actor × Result SessionError (Unit {0}) → Actor × Result SessionError (Unit {0})
    handle (a', ok u) = (a', ok u)
    handle (a', err e) = (handler e a', err e)

abbrev pub max_error_bytes : ℕ
max_error_bytes = 512

abbrev pub phase_result : ℕ → String → Outcome → Result SessionError (Unit {0})
phase_result timeout phase completed = ok tt
phase_result timeout phase elapsed = err (phase_timeout phase timeout)
phase_result timeout phase (rejected m) = err (driver_failed phase m)

abbrev pub or_current : Option ℕ → ℕ → ℕ
or_current none n = n
or_current (some g) n = g

pub set_state : MediaState → Option MediaRoute → Option ℕ → Option Bytes → Actor → Actor
set_state media route generation last_error a =
    let s = a.snapshot in
    let g = or_current generation s.media_generation in
    if eqb MediaState-discrete s.state media
      && eqb Route-discrete s.route route
      && s.media_generation == g
      && eqb LastError-discrete s.last_error last_error
    then a
    else record a {
      snapshot = record {
        revision = saturating_add s.revision 1;
        media_generation = g;
        state = media;
        route = route;
        last_error = last_error;
      };
    }

module _ (env : Environment) where
  pub run_phase : ℕ → String → DriverCall → Action
  run_phase timeout phase call a =
      let outcome = env.answer a.calls call in
      (record a { calls = (call, outcome) ∷ a.calls }, phase_result timeout phase outcome)

  pub fail : Option MediaRoute → SessionError → Actor → Actor
  fail route error =
      set_state MediaState.failed route none
        (some (bounded_text (env.display error) max_error_bytes))

  pub run_stop : ℕ → MediaStopReason → Action
  run_stop timeout reason a =
      if a.snapshot.media_generation == 0
      then (a, ok tt)
      else run_phase timeout "stop media" (stop_media a.snapshot.media_generation reason) a

  rollback_diagnostic : SessionError → Result SessionError (Unit {0}) → Bytes
  rollback_diagnostic start_error (ok _) = env.display start_error
  rollback_diagnostic start_error (err cleanup) =
      bounded_text
        (env.display start_error ++ codes "; rollback also failed: " ++ env.display cleanup)
        max_error_bytes

  pub rollback_after_start_failure : ℕ → MediaStartRequest → SessionError → Actor → Actor
  unfolding rollback_diagnostic
  rollback_after_start_failure timeout request start_error a =
      let (a', cleanup) =
        run_phase timeout "roll back media" (stop_media request.media_generation transport_failure)
          a in
      set_state MediaState.failed (some request.route) none
        (some (rollback_diagnostic start_error cleanup)) a'

  -- The cleanup that `activate` does before it mints a new media generation.
  clear_for : ℕ → MediaRoute → MediaStopReason → Action
  clear_for timeout route reason a =
      on_error (run_stop timeout reason) (fail (some route))
        (set_state MediaState.reconfiguring (some route) none none a)

  reconfigure : ℕ → MediaRoute → Action
  unfolding clear_for
  reconfigure timeout route a = elim a.snapshot.state [
    | MediaState.failed ↦ clear_for timeout route transport_failure a
    | MediaState.idle ↦ (a, ok tt)
    | _ ↦ clear_for timeout route mode_changed a
  ]

  start_phase : ℕ → String → DriverCall → MediaStartRequest → Action
  start_phase timeout phase call request =
      on_error (run_phase timeout phase call) (rollback_after_start_failure timeout request)

  -- A state change that cannot fail.
  abbrev change : (Actor → Actor) → Action
  change f a = (f a, ok tt)

  start_request : ℕ → MediaStartRequest → Action
  unfolding start_phase
  start_request timeout request =
      change (
        set_state MediaState.starting_capture (some request.route) (some request.media_generation)
          none)
      >> start_phase timeout "start capture" (start_capture request) request
      >> change (set_state MediaState.starting_media (some request.route) none none)
      >> start_phase timeout "start backend media" (start_media request) request
      >> change (set_state MediaState.running (some request.route) none none)

  start : ℕ → MediaRoute → Action
  unfolding start_request
  start timeout route a = elim (checked_add a.snapshot.media_generation 1) [
    | none ↦ (a, err generation_exhausted)
    | some generation ↦
        start_request timeout (record { media_generation = generation; route = route }) a
  ]

  pub activate : ℕ → MediaRoute → Action
  unfolding reconfigure start
  activate timeout route a =
      if route.route_generation == 0
      then (a, err invalid_route_generation)
      else if eqb MediaState-discrete a.snapshot.state MediaState.running
          && eqb Route-discrete a.snapshot.route (some route)
      then (a, ok tt)
      else (reconfigure timeout route >> start timeout route) a

  pub suspend : ℕ → MediaSuspendReason → Action
  suspend timeout reason a = elim a.snapshot.state [
    | MediaState.suspended ↦ (a, ok tt)
    | MediaState.running ↦
        (on_error
              (run_phase timeout "suspend media" (suspend_media a.snapshot.media_generation reason))
              (fail a.snapshot.route)
            >> change (set_state MediaState.suspended a.snapshot.route none none))
          a
    | other ↦ (a, err (suspend_unavailable other))
  ]

  pub stop_to_idle : ℕ → MediaStopReason → Action
  stop_to_idle timeout reason a =
      if eqb MediaState-discrete a.snapshot.state MediaState.idle
      then change (set_state MediaState.idle none none none) a
      else (change (set_state MediaState.stopping none none none)
            >> on_error (run_stop timeout reason) (fail none)
            >> change (set_state MediaState.idle none none none))
          a
