-- ===== src/SessionReplacement.antt =====
-- crates/pronk/src/replaceable_device_session.rs: the slot that holds one display's session with its
-- Device, which media, control and recovery share. A `Box<dyn DeviceSessionPort>` is the number of
-- its making, so that two of them are never the same; what a port answers is an `Environment`, and
-- may depend on all earlier calls. A section under the mutex is one function, and where the source
-- calls a port after the section has ended, the port stands in `tearing_down` in between. An error
-- text that the source formats is a constructor.
pub mod Values
pub mod Steps
pub mod Ledger
pub mod Discipline
pub mod Retirement
pub mod Installation
use pronk.Common.{
  ℕ, ◌+◌, Bool, true, false, ◌||◌, not, Option, none, some, List, [], ◌∷◌, ◌==◌, leb, if◌then◌else◌,
  Bytes, Result, ok, err, String,
}
use Values.{
  DeviceMediaSuspendReason, DeviceMediaStopReason, DeviceSessionStopReason, daemon_shutdown,
  transport_failure, DeviceControlOperation, PortCall, transmit_control, configure, start, resume,
  suspend, stop_media, stop, Answer, Calls, Environment, ActiveSession, SharedState, World,
  DeviceSessionError, owner_stopped, not_installed, already_configured, not_active, another_active,
  port_error, Reply, ReplacementError, stopped, occupied, stale_generation, rejected_cleanup,
  RetirementReport,
}

abbrev pub contains : ℕ → List ℕ → Bool
contains n [] = false
contains n (x ∷ xs) = n == x || contains n xs

abbrev pub without : ℕ → List ℕ → List ℕ
without n [] = []
without n (x ∷ xs) = let rest = without n xs in if n == x then rest else x ∷ rest

-- `BTreeSet::insert` of an optional generation.
abbrev pub insert_some : Option ℕ → List ℕ → List ℕ
insert_some none set = set
insert_some (some n) set = if contains n set then set else n ∷ set

abbrev pub replaceable_device_session : ℕ → World
replaceable_device_session generation = record {
  shared = record {
    current =
        some (record { session_generation = generation; media_generation = none; session = 0 });
    last_session_generation = generation;
    retired_media_generations = [];
    closed = false;
  };
  tearing_down = [];
  next_session = 1;
  calls = [];
}

abbrev pub live_session : SharedState → Result DeviceSessionError ActiveSession
live_session shared =
    if shared.closed
    then err owner_stopped
    else elim shared.current [ none ↦ err not_installed | some current ↦ ok current ]

abbrev pub is_active : Option ℕ → ℕ → Bool
is_active none generation = false
is_active (some active) generation = active == generation

abbrev pub matching_session : SharedState → ℕ → String → Result DeviceSessionError ActiveSession
matching_session shared media_generation operation = elim (live_session shared) [
  | err error ↦ err error
  | ok current ↦
      if is_active current.media_generation media_generation
      then ok current
      else err (not_active operation media_generation current.media_generation)
]

abbrev pub answered : Answer → Reply
answered (ok _) = ok tt
answered (err message) = err (port_error message)

abbrev pub set_media : ActiveSession → Option ℕ → World → World
set_media current media w = record w {
  shared = record w.shared { current = some (record current { media_generation = media }) };
}

-- `?` on the session that an operation is for.
abbrev pub with_session :
    Result DeviceSessionError ActiveSession
    → (ActiveSession → World × Reply)
    → World
    → World × Reply
with_session (err error) f w = (w, err error)
with_session (ok current) f w = f current

module _ (env : Environment) where
  -- One call of a port, under its answer.
  abbrev pub called : ℕ → PortCall → World → World
  called port call w = record w { calls = (port, call, env w.calls port call) ∷ w.calls }

  abbrev pub ask : ℕ → PortCall → World → World × Reply
  ask port call w = (called port call w, answered (env w.calls port call))

  unfoldable pub transmit : DeviceControlOperation → World → World × Reply
  transmit operation w =
      with_session (live_session w.shared)
        (λ current. ask current.session (transmit_control operation) w) w

  -- The generation is kept before the call, whose outcome may be ambiguous.
  abbrev pub configure_session : ℕ → World → ActiveSession → World × Reply
  configure_session generation w current = elim current.media_generation [
    | some active ↦ (w, err (already_configured generation active))
    | none ↦ ask current.session (configure generation) (set_media current (some generation) w)
  ]

  unfoldable pub configure_media : ℕ → World → World × Reply
  configure_media generation w =
      with_session (live_session w.shared) (configure_session generation w) w

  -- `start_media`, `suspend_media` and `resume_media`.
  unfoldable pub ask_matching : String → ℕ → PortCall → World → World × Reply
  ask_matching operation generation call w =
      with_session (matching_session w.shared generation operation)
        (λ current. ask current.session call w) w

  abbrev pub start_media : ℕ → World → World × Reply
  start_media generation = ask_matching "start" generation (start generation)

  abbrev pub suspend_media : ℕ → DeviceMediaSuspendReason → World → World × Reply
  suspend_media generation reason = ask_matching "suspend" generation (suspend generation reason)

  abbrev pub resume_media : ℕ → World → World × Reply
  resume_media generation = ask_matching "resume" generation (resume generation)

  -- The media of the current session, unless its port refuses.
  abbrev pub stopped_media : ActiveSession → Answer → World → World
  stopped_media current (ok _) w = set_media current none w
  stopped_media current (err _) w = w

  abbrev pub stop_current_media : ActiveSession → ℕ → DeviceMediaStopReason → World → World × Reply
  stop_current_media current generation reason w =
      let answer = env w.calls current.session (stop_media generation reason) in
      (
        stopped_media current answer (called current.session (stop_media generation reason) w),
        answered answer,
      )

  abbrev pub stop_matching_media : ℕ → DeviceMediaStopReason → World → ActiveSession → World × Reply
  stop_matching_media generation reason w current = elim current.media_generation [
    | none ↦ (w, ok tt)
    | some active ↦
        if active == generation
        then stop_current_media current generation reason w
        else (w, err (another_active generation active))
  ]

  unfoldable pub stop_live_media : ℕ → DeviceMediaStopReason → World → World × Reply
  stop_live_media generation reason w =
      with_session (live_session w.shared) (stop_matching_media generation reason w) w

  -- A generation whose whole session was retired needs no call.
  unfoldable pub stop_media_generation : ℕ → DeviceMediaStopReason → World → World × Reply
  stop_media_generation generation reason w =
      let retired = w.shared.retired_media_generations in
      if contains generation retired
      then (
        record w {
          shared = record w.shared { retired_media_generations = without generation retired };
        },
        ok tt,
      )
      else stop_live_media generation reason w

  -- The final teardown of a port, after the section that took it.
  unfoldable pub tear_down : ℕ → DeviceSessionStopReason → World → World × Reply
  tear_down port reason w =
      ask port (stop reason) (record w { tearing_down = without port w.tearing_down })

-- The outcome of a section that takes a port out of the slot.
abbrev pub taken : Option ActiveSession → List ℕ → List ℕ
taken none ports = ports
taken (some current) ports = current.session ∷ ports

abbrev pub media_of : Option ActiveSession → Option ℕ
media_of none = none
media_of (some current) = current.media_generation

-- The section of `retire_current`, with the session that it takes.
unfoldable pub vacate : World → World × Result ReplacementError (Option ActiveSession)
vacate w = if w.shared.closed then (w, err stopped) else (
  record w {
    shared = record w.shared {
      current = none;
      retired_media_generations =
          insert_some (media_of w.shared.current) w.shared.retired_media_generations;
    };
    tearing_down = taken w.shared.current w.tearing_down;
  },
  ok w.shared.current,
)

-- The section of `stop`, with the session that it takes.
unfoldable pub close : World → World × Option ActiveSession
close w = if w.shared.closed then (w, none) else (
  record w {
    shared = record w.shared { current = none; retired_media_generations = []; closed = true };
    tearing_down = taken w.shared.current w.tearing_down;
  },
  w.shared.current,
)

-- Why a replacement of this generation is rejected.
unfoldable pub rejection : SharedState → ℕ → Option ReplacementError
rejection shared generation = if shared.closed then some stopped else elim shared.current [
  | some current ↦ some (occupied current.session_generation)
  | none ↦
      if leb generation shared.last_session_generation
      then some (stale_generation shared.last_session_generation generation)
      else none
]

-- The section of `install`, for a session that has just been made: it is installed, or left to be
-- torn down.
unfoldable pub offer : ℕ → World → World × Option ReplacementError
offer generation w = elim (rejection w.shared generation) [
  | some error ↦ (
    record w { tearing_down = w.next_session ∷ w.tearing_down; next_session = w.next_session + 1 },
    some error,
  )
  | none ↦ (
    record w {
      shared = record w.shared {
        current = some (record {
          session_generation = generation;
          media_generation = none;
          session = w.next_session;
        });
        last_session_generation = generation;
      };
      next_session = w.next_session + 1;
    },
    none,
  )
]

abbrev pub error_of : Answer → Option Bytes
error_of (ok _) = none
error_of (err message) = some message

abbrev pub with_cleanup : ReplacementError → Answer → ReplacementError
with_cleanup error (ok _) = error
with_cleanup error (err message) = rejected_cleanup error message

module _ (env : Environment) where
  abbrev pub retired :
      World × Result ReplacementError (Option ActiveSession)
      → World × Result ReplacementError RetirementReport
  retired (w, err error) = (w, err error)
  retired (w, ok none) = (
    w,
    ok (record {
      retired_session_generation = none;
      retired_media_generation = none;
      cleanup_error = none;
    }),
  )
  retired (w, ok (some current)) = (
    (tear_down env current.session daemon_shutdown w).0,
    ok (record {
      retired_session_generation = some current.session_generation;
      retired_media_generation = current.media_generation;
      cleanup_error = error_of (env w.calls current.session (stop daemon_shutdown));
    }),
  )

  unfoldable pub retire_current : World → World × Result ReplacementError RetirementReport
  retire_current w = retired (vacate w)

  abbrev pub installed : ℕ → ℕ → World × Option ReplacementError → World × Result ReplacementError ℕ
  installed generation port (w, none) = (w, ok generation)
  installed generation port (w, some error) = (
    (tear_down env port daemon_shutdown w).0,
    err (with_cleanup error (env w.calls port (stop daemon_shutdown))),
  )

  unfoldable pub install : ℕ → World → World × Result ReplacementError ℕ
  install generation w = installed generation w.next_session (offer generation w)

  abbrev pub stopped_port : DeviceSessionStopReason → World × Option ActiveSession → World × Reply
  stopped_port reason (w, none) = (w, ok tt)
  stopped_port reason (w, some current) = tear_down env current.session reason w

  -- `stop` of the media driver's port.
  unfoldable pub stop_owner : DeviceSessionStopReason → World → World × Reply
  stop_owner reason w = stopped_port reason (close w)
