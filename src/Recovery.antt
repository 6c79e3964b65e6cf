-- ===== src/Recovery.antt =====
-- crates/pronk/src/device_recovery.rs: the actor that makes a session with the device again. It owns the
-- replacement of the session in the slot of `SessionReplacement`; the events of the session's transport
-- are a source with the number of their session. What the media driver and the control facade do to the
-- slot in the meantime is a list of steps. A cancelled phase is an answer of the factory.
pub mod Compatibility
pub mod Meanwhile
pub mod Order
pub mod Answers
pub mod Generations
pub mod Installing
use pronk.Common.{
  ℕ, ◌+◌, Bool, true, false, ◌&&◌, ◌||◌, not, Option, none, some, List, [], ◌∷◌, ◌++◌,
  if◌then◌else◌, checked_add, Bytes, codes, Result, ok, err,
}
use pronk.Diagnostics.{bounded_text_with_ellipsis}
use pronk.SessionReplacement.Values.{
  DeviceSessionStopReason, daemon_shutdown, stop, Answer, Environment, World, ReplacementError,
  RetirementReport,
}
use pronk.SessionReplacement.Steps.{Step, vacating, installing, ending, step}
use pronk.SessionReplacement.{
  replaceable_device_session, retire_current, install, tear_down, error_of,
}
use pronk.DisplaySlot.Values.{DeviceInfo}
use pronk.Preparation.{PreparedCastDevice}
use Compatibility.{PreparedDeviceRecoveryError, validate_recovery}

-- What the factory makes: a prepared device with a new session.
pub data FactoryAnswer : Type 0 where
  cancelled : FactoryAnswer
  failed : Bytes → FactoryAnswer
  created : PreparedCastDevice → FactoryAnswer

-- What the actor does besides changing its state. An event is one that it sends.
pub data RecoveryEffect : Type 0 where
  events_shut_down : ℕ → RecoveryEffect
  factory_asked : DeviceInfo → ℕ → RecoveryEffect
  ready : ℕ → DeviceInfo → ℕ → Option Bytes → RecoveryEffect
  request_failed : ℕ → DeviceInfo → Bytes → RecoveryEffect
  transport_failed : ℕ → Bytes → RecoveryEffect
  shutdown_answered : RecoveryEffect

abbrev pub RecoveryEffects : Type 0
RecoveryEffects = List RecoveryEffect

-- The ports of the sessions, the factory, whether the receiver of the events is there, and the texts of
-- two errors.
pub record RecoveryEnvironment : Type 0 where
  pub ports : Environment
  pub create : RecoveryEffects → DeviceInfo → ℕ → FactoryAnswer
  pub accepts_event : RecoveryEffects → Bool
  pub replacement_text : ReplacementError → Bytes
  pub incompatible_text : PreparedDeviceRecoveryError → Bytes

pub record RecoveryTask : Type 0 where
  pub prepared : PreparedCastDevice
  pub world : World
  pub last_session_generation : ℕ  -- NonZeroU64
  pub current_events : Option ℕ
  pub effects : RecoveryEffects

pub data RecoveryInput : Type 0 where
  recover : ℕ → DeviceInfo → List Step → RecoveryInput
  session_event : Option (ℕ × Bytes) → RecoveryInput
  elsewhere : Step → RecoveryInput
  shutdown commands_closed : RecoveryInput

-- The task as it is spawned, with the session of the slot and its source.
abbrev pub spawned : PreparedCastDevice → ℕ → RecoveryTask
spawned prepared generation = record {
  prepared = prepared;
  world = replaceable_device_session generation;
  last_session_generation = generation;
  current_events = some 0;
  effects = [];
}

-- A task that goes on, or has returned.
abbrev pub Progress : Type 0
Progress = RecoveryTask × Bool

abbrev pub did : RecoveryEffect → RecoveryTask → RecoveryTask
did effect t = record t { effects = effect ∷ t.effects }

abbrev pub close_source : Option ℕ → RecoveryTask → RecoveryTask
close_source none t = t
close_source (some source) t = did (events_shut_down source) (record t { current_events = none })

-- `current_events.take()` with the shutdown of the source.
abbrev pub close_events : RecoveryTask → RecoveryTask
close_events t = close_source t.current_events t

-- A step of others: only this actor retires and installs sessions.
abbrev pub is_elsewhere : Step → Bool
is_elsewhere vacating = false
is_elsewhere (installing _) = false
is_elsewhere _ = true

abbrev pub max_recovery_error_bytes : ℕ
max_recovery_error_bytes = 512

-- The session that a recovery rejects is stopped without having been offered.
unfoldable pub discard : Environment → World → World
discard env w =
    let port = w.next_session in
    (tear_down env port daemon_shutdown
      (record w { tearing_down = port ∷ w.tearing_down; next_session = port + 1 })).0

abbrev pub incompatible_diagnostic : Bytes → Option Bytes → Bytes
incompatible_diagnostic error none = codes "recovered Device session is incompatible: " ++ error
incompatible_diagnostic error (some cleanup) =
    codes "recovered Device session is incompatible: "
    ++ (error ++ (codes "; replacement cleanup also failed: " ++ cleanup))

abbrev pub transport_event : ℕ → Option (ℕ × Bytes) → RecoveryEffect
transport_event last (some (generation, error)) =
    transport_failed generation (bounded_text_with_ellipsis error max_recovery_error_bytes)
transport_event last none = transport_failed last (codes "Device-session event source stopped")

abbrev pub next_input : (RecoveryTask → RecoveryTask) → Progress → RecoveryTask
next_input rest (t, true) = rest t
next_input rest (t, false) = t

module _ (env : RecoveryEnvironment) where
  unfoldable pub step_elsewhere : World → Step → World
  step_elsewhere w s = if is_elsewhere s then step env.ports w s else w

  unfoldable pub meanwhile : World → List Step → World
  meanwhile w [] = w
  meanwhile w (s ∷ rest) = meanwhile (step_elsewhere w s) rest

  -- `send_failure`, whose send may fail.
  abbrev pub send_failure : ℕ → DeviceInfo → Bytes → RecoveryTask → Progress
  send_failure generation device error t = (
    (if env.accepts_event t.effects
        then did
            (request_failed generation device
              (bounded_text_with_ellipsis error max_recovery_error_bytes))
            t
        else t),
    true,
  )

  -- A send after whose failure the task returns.
  abbrev pub send_or_return : RecoveryEffect → RecoveryTask → Progress
  send_or_return event t = if env.accepts_event t.effects then (did event t, true) else (t, false)

  abbrev pub installed_session :
      ℕ
      → DeviceInfo
      → Option Bytes
      → ℕ
      → RecoveryTask
      → World × Result ReplacementError ℕ
      → Progress
  installed_session generation device cleanup source t (w, ok installed) =
      send_or_return (ready generation device installed cleanup)
        (record t { world = w; current_events = some source })
  installed_session generation device cleanup source t (w, err error) =
      send_failure generation device
        (codes "install recovered Device session: " ++ env.replacement_text error)
        (did (events_shut_down source) (record t { world = w }))

  -- The session that is made has the next number, and so has its source of events. `none` is a panic,
  -- which ends the task.
  abbrev pub with_compatible :
      ℕ
      → DeviceInfo
      → Option Bytes
      → ℕ
      → RecoveryTask
      → Option (Result PreparedDeviceRecoveryError (Unit {0}))
      → Progress
  with_compatible generation device cleanup session t none = (t, false)
  with_compatible generation device cleanup session t (some (err error)) =
      let source = t.world.next_session in
      let answer = env.ports t.world.calls source (stop daemon_shutdown) in
      send_failure generation device
        (incompatible_diagnostic (env.incompatible_text error) (error_of answer))
        (record (did (events_shut_down source) t) { world = discard env.ports t.world })
  with_compatible generation device cleanup session t (some (ok _)) =
      installed_session generation device cleanup t.world.next_session t
        (install env.ports session t.world)

  abbrev pub with_answer :
      ℕ → DeviceInfo → Option Bytes → ℕ → RecoveryTask → FactoryAnswer → Progress
  with_answer generation device cleanup session t cancelled = (t, true)
  with_answer generation device cleanup session t (failed error) =
      send_failure generation device error t
  with_answer generation device cleanup session t (created recovered) =
      with_compatible generation device cleanup session t (validate_recovery t.prepared recovered)

  abbrev pub after_retirement :
      ℕ
      → DeviceInfo
      → List Step
      → ℕ
      → RecoveryTask
      → World × Result ReplacementError RetirementReport
      → Progress
  after_retirement generation device steps session t (w, err error) =
      send_failure generation device
        (codes "retire current Device session: " ++ env.replacement_text error)
        (record t { world = w })
  after_retirement generation device steps session t (w, ok report) =
      with_answer generation device report.cleanup_error session
        (did (factory_asked device session) (record t { world = meanwhile w steps }))
        (env.create t.effects device session)

  unfoldable pub handle_recover : ℕ → DeviceInfo → List Step → RecoveryTask → Progress
  handle_recover generation device steps t = elim (checked_add t.last_session_generation 1) [
    | none ↦ send_failure generation device (codes "Device-session generation exhausted") t
    | some session ↦
        let begun = close_events (record t { last_session_generation = session }) in
        after_retirement generation device steps session begun
          (retire_current env.ports begun.world)
  ]

  -- A source that has been taken gives no event.
  abbrev pub event_from : Option ℕ → Option (ℕ × Bytes) → RecoveryTask → Progress
  event_from none event t = (t, true)
  event_from (some _) event t =
      send_or_return (transport_event t.last_session_generation event) (close_events t)

  abbrev pub handle_session_event : Option (ℕ × Bytes) → RecoveryTask → Progress
  handle_session_event event t = event_from t.current_events event t

  unfoldable pub handle_recovery : RecoveryInput → RecoveryTask → Progress
  handle_recovery (recover generation device steps) t = handle_recover generation device steps t
  handle_recovery (session_event event) t = handle_session_event event t
  handle_recovery (elsewhere s) t = (record t { world = step_elsewhere t.world s }, true)
  handle_recovery shutdown t = (did shutdown_answered (close_events t), false)
  handle_recovery commands_closed t = (t, false)

  unfoldable pub run_recovery : List RecoveryInput → RecoveryTask → RecoveryTask
  run_recovery [] t = t
  run_recovery (input ∷ rest) t = next_input (run_recovery rest) (handle_recovery input t)
