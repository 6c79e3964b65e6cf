-- ===== src/Recovery/Installing.antt =====
-- A session that crates/pronk/src/device_recovery.rs makes finds its place in the slot.
use pronk.Common.{
  Bytes, String, ℕ, ◌+◌, ◌<◌, ◌≡◌, true, false, Option, none, some, List, [], ◌∷◌, checked_add_room,
  Result, ok, arith, refl, sym, ap, subst, Bool-cases, inl, inr, u64_max,
}
use pronk.SessionReplacement.Values.{
  Environment, ActiveSession, SharedState, World, ReplacementError, RetirementReport,
}
use pronk.SessionReplacement.Retirement.{with_session-keeps}
use pronk.SessionReplacement.Steps.{
  Step, controlling, configuring, starting, resuming, installing, suspending, stopping, vacating,
  closing, ending, step,
}
use pronk.SessionReplacement.{
  contains, live_session, matching_session, transmit, configure_media, ask_matching,
  stop_live_media, stop_media_generation, tear_down, close, vacate, retired, retire_current,
  rejection, offer, install,
}
use pronk.DisplaySlot.Values.{DeviceInfo}
use pronk.Preparation.{PreparedCastDevice}
use pronk.Recovery.Compatibility.{validate_recovery}
use pronk.SessionReplacement.Ledger.{WorldInv}
use pronk.Recovery.Order.{TaskInv, retire_current-Inv}
use pronk.Recovery.Meanwhile.{meanwhile-Last}
use pronk.Recovery.{
  created, RecoveryEnvironment, RecoveryTask, is_elsewhere, close_source, close_events,
  step_elsewhere, meanwhile, handle_recover, did, factory_asked, Progress, RecoveryEffects,
  after_retirement, with_compatible,
}

abbrev IsVacant : World → Type 0
IsVacant w = w.shared.current ≡ none

no_live :
    (shared : SharedState) (s : ActiveSession)
    → shared.current ≡ none
    → live_session shared ≡ ok s
    → ⊥
no_live shared s h e = ground (arith, h, e)

no_match :
    (shared : SharedState) (n : ℕ) (operation : String) (s : ActiveSession)
    → shared.current ≡ none
    → matching_session shared n operation ≡ ok s
    → ⊥
no_match shared n operation s h e = ground (arith, h, e)

step-IsVacant :
    (env : Environment) (w : World) (s : Step)
    → is_elsewhere s ≡ true
    → IsVacant w
    → IsVacant (step env w s)
unfolding step transmit configure_media ask_matching stop_media_generation stop_live_media tear_down
    close
step-IsVacant env w (controlling operation) k h =
    with_session-keeps IsVacant (live_session w.shared) _ w (λ s e. absurd (no_live w.shared s h e))
      h
step-IsVacant env w (configuring other) k h =
    with_session-keeps IsVacant (live_session w.shared) _ w (λ s e. absurd (no_live w.shared s h e))
      h
step-IsVacant env w (starting other) k h =
    with_session-keeps IsVacant (matching_session w.shared other "start") _ w
      (λ s e. absurd (no_match w.shared other "start" s h e)) h
step-IsVacant env w (resuming other) k h =
    with_session-keeps IsVacant (matching_session w.shared other "resume") _ w
      (λ s e. absurd (no_match w.shared other "resume" s h e)) h
step-IsVacant env w (suspending other reason) k h =
    with_session-keeps IsVacant (matching_session w.shared other "suspend") _ w
      (λ s e. absurd (no_match w.shared other "suspend" s h e)) h
step-IsVacant env w (stopping other reason) k h =
    elim (Bool-cases (contains other w.shared.retired_media_generations)) [
      | inl retired ↦ rw (step, stop_media_generation, retired) h
      | inr live ↦
          rw (step, stop_media_generation, live)
            (with_session-keeps IsVacant (live_session w.shared) _ w
              (λ s e. absurd (no_live w.shared s h e)) h)
    ]
step-IsVacant env w (installing other) k h = absurd (cc k)
step-IsVacant env w vacating k h = absurd (cc k)
step-IsVacant env w closing k h = elim (Bool-cases w.shared.closed) [
  | inl shut ↦ rw (step, close, shut) h
  | inr running ↦ rw (step, close, running) refl
]
step-IsVacant env w (ending port reason) k h = elim (Bool-cases (contains port w.tearing_down)) [
  | inl leaving ↦ rw (step, leaving) h
  | inr absent ↦ rw (step, absent) h
]

meanwhile-IsVacant :
    (env : RecoveryEnvironment) (w : World) (steps : List Step)
    → IsVacant w
    → IsVacant (meanwhile env w steps)
unfolding meanwhile step_elsewhere
meanwhile-IsVacant env w [] h = h
meanwhile-IsVacant env w (s ∷ rest) h =
    meanwhile-IsVacant env (step_elsewhere env w s) rest (elim (Bool-cases (is_elsewhere s)) [
      | inl e ↦ rw (step_elsewhere, e) (step-IsVacant env.ports w s e h)
      | inr e ↦ rw (step_elsewhere, e) h
    ])

retired-IsVacant :
    (env : Environment) (w : World) (s : Option ActiveSession)
    → IsVacant w
    → (report : RetirementReport) × ((retired env (w, ok s)).1 ≡ ok report)
      × IsVacant (retired env (w, ok s)).0
unfolding tear_down
retired-IsVacant env w none h = (_, refl, h)
retired-IsVacant env w (some s) h = (_, refl, h)

-- An open slot is emptied.
retire_current-IsVacant :
    (env : Environment) (w : World)
    → w.shared.closed ≡ false
    → (report : RetirementReport) × ((retire_current env w).1 ≡ ok report)
      × IsVacant (retire_current env w).0
unfolding retire_current vacate
retire_current-IsVacant env w h =
    rw (retire_current, h) (retired-IsVacant env _ w.shared.current refl)

-- The slot has this session, with a source of events of the same number.
abbrev pub IsInstalledAs : ℕ → ℕ → Progress → Type 0
IsInstalledAs generation session (after, goes_on) =
    (after.current_events ≡ some session)
    × (after.world.shared.current
        ≡ some (record {
          session_generation = generation;
          media_generation = none;
          session = session;
        }))

-- The task just before the answer of the factory, for a retired slot.
abbrev pub asking : RecoveryEnvironment → DeviceInfo → List Step → RecoveryTask → RecoveryTask
asking env device steps t =
    let session = t.last_session_generation + 1 in
    let begun = close_events (record t { last_session_generation = session }) in
    did (factory_asked device session)
      (record begun { world = meanwhile env (retire_current env.ports begun.world).0 steps })

accepted :
    (shared : SharedState) (generation : ℕ)
    → shared.closed ≡ false
    → shared.current ≡ none
    → shared.last_session_generation < generation
    → rejection shared generation ≡ none
unfolding rejection
accepted shared generation o v l = ground (arith, o, v, l)

installed_as :
    (env : RecoveryEnvironment) (request session : ℕ) (device : DeviceInfo) (cleanup : Option Bytes)
    (t : RecoveryTask)
    → rejection t.world.shared session ≡ none
    → IsInstalledAs session t.world.next_session
        (with_compatible env request device cleanup session t (some (ok tt)))
unfolding install offer
installed_as env request session device cleanup t e =
    elim (Bool-cases (env.accepts_event t.effects)) [
      | inl sent ↦ rw (install, offer, e, sent) (refl, refl)
      | inr unsent ↦ rw (install, offer, e, unsent) (refl, refl)
    ]

close_events-same :
    (t : RecoveryTask)
    → ((close_events t).world ≡ t.world) × ((close_events t).prepared ≡ t.prepared)
close_events-same t = closed t.current_events
  where
    closed :
        (o : Option ℕ)
        → ((close_source o t).world ≡ t.world) × ((close_source o t).prepared ≡ t.prepared)
    closed none = (refl, refl)
    closed (some source) = (refl, refl)

after_retirement-installs :
    (env : RecoveryEnvironment) (request session : ℕ) (device : DeviceInfo) (steps : List Step)
    (t : RecoveryTask) (recovered : PreparedCastDevice)
    (r : World × Result ReplacementError RetirementReport) (report : RetirementReport)
    → r.1 ≡ ok report
    → env.create t.effects device session ≡ created recovered
    → validate_recovery t.prepared recovered ≡ some (ok tt)
    → rejection (meanwhile env r.0 steps).shared session ≡ none
    → IsInstalledAs session
        (meanwhile env r.0 steps).next_session
        (after_retirement env request device steps session t r)
after_retirement-installs env request session device steps t recovered (w, r) report e c v j =
    rw (e, c, v)
      (installed_as env request session device report.cleanup_error
        (did (factory_asked device session) (record t { world = meanwhile env w steps })) j)

-- In a task with the invariant whose generations are not used up, a compatible session that the factory
-- makes is installed, under the generation after the last one and with its source of events, if the
-- display has not ended before the retirement or while the session was made; it is never refused as
-- late or because the slot is occupied, whatever the others do in the meantime.
pub handle_recover-IsInstalledAs :
    (env : RecoveryEnvironment) (request : ℕ) (device : DeviceInfo) (steps : List Step)
    (t : RecoveryTask) (recovered : PreparedCastDevice)
    → TaskInv t
    → t.last_session_generation < u64_max
    → t.world.shared.closed ≡ false
    → (asking env device steps t).world.shared.closed ≡ false
    → ((effects : RecoveryEffects)
        → env.create effects device (t.last_session_generation + 1) ≡ created recovered)
    → validate_recovery t.prepared recovered ≡ some (ok tt)
    → IsInstalledAs
        (t.last_session_generation + 1)
        (asking env device steps t).world.next_session
        (handle_recover env request device steps t)
unfolding handle_recover
handle_recover-IsInstalledAs env request device steps t recovered i room before_end open_slot makes
      compatible =
    let session = t.last_session_generation + 1 in
    let begun : RecoveryTask = record t { last_session_generation = session } in
    let closed = close_events begun in
    let (same, prepared) = close_events-same begun in
    let (report, replied, vacant) =
      retire_current-IsVacant env.ports closed.world
        (subst (λ w. w.shared.closed ≡ false) (sym same) before_end) in
    let left = (retire_current env.ports closed.world).0 in
    let (_, kept) = retire_current-Inv env.ports closed.world (subst WorldInv (sym same) i.world) in
    let last = meanwhile-Last env closed.world.shared.last_session_generation left steps kept in
    let before : closed.world.shared.last_session_generation
        ≡ t.world.shared.last_session_generation =
      ap (λ w. w.shared.last_session_generation) same in
    rw (handle_recover, checked_add_room room)
      (after_retirement-installs env request session device steps closed recovered
        (retire_current env.ports closed.world) report replied (makes closed.effects)
        (subst (λ p. validate_recovery p recovered ≡ some (ok tt)) (sym prepared) compatible)
        (accepted (meanwhile env left steps).shared session open_slot
          (meanwhile-IsVacant env left steps vacant) (omega (arith, last, before, i.below))))
