-- ===== src/Recovery/Generations.antt =====
-- The invariant of crates/pronk/src/device_recovery.rs over any history of its inputs.
use pronk.Common.{
  ℕ, ◌+◌, ◌≤◌, ◌≡◌, true, false, Option, none, some, List, [], ◌∷◌, checked_add, Bytes, Result, ok,
  err, arith, refl, sym, ap, subst, codes, Bool-cases, Option-cases, inl, inr,
}
use pronk.SessionReplacement.Values.{World, ReplacementError, RetirementReport}
use pronk.SessionReplacement.Ledger.{IsDisciplined, WorldInv}
use pronk.SessionReplacement.Discipline.{replaceable_device_session-Inv}
use pronk.SessionReplacement.Steps.{Step}
use pronk.SessionReplacement.{retire_current}
use pronk.DisplaySlot.Values.{DeviceInfo}
use pronk.Preparation.{PreparedCastDevice}
use pronk.Recovery.Meanwhile.{step_elsewhere-Last, meanwhile-Last}
use pronk.Recovery.Order.{
  IsRising, IsSource, TaskInv, step_elsewhere-Inv, meanwhile-Inv, retire_current-Inv,
}
use pronk.Recovery.{
  factory_asked, events_shut_down, transport_failed, RecoveryEnvironment, RecoveryTask,
  RecoveryInput, recover, session_event, elsewhere, shutdown, commands_closed, Progress, did,
  close_events, step_elsewhere, meanwhile, send_or_return, after_retirement, handle_recover,
  transport_event, event_from, handle_recovery, next_input, run_recovery, spawned,
}
use pronk.Recovery.Answers.{
  IsRising-wider, close_source-IsRising, close_source-none, close_source-rest, close_events-Inv,
  send_failure-Inv, with_answer-Inv,
}

after_retirement-Inv :
    (env : RecoveryEnvironment) (generation : ℕ) (device : DeviceInfo) (steps : List Step)
    (t : RecoveryTask) (retired : World × Result ReplacementError RetirementReport)
    → t.current_events ≡ none
    → IsRising t.last_session_generation t.effects
    → WorldInv retired.0
    → retired.0.shared.last_session_generation ≤ t.last_session_generation
    → TaskInv (after_retirement env generation device steps t.last_session_generation t retired).0
unfolding IsRising
after_retirement-Inv env generation device steps t (w, err error) c r v l =
    send_failure-Inv env generation device _ (record t { world = w })
      (record {
        world = v;
        below = l;
        source = subst (λ o. IsSource o w t.last_session_generation) (sym c) tt;
        rising =
            IsRising-wider t.last_session_generation (t.last_session_generation + 1) t.effects
              (omega arith) r;
      })
after_retirement-Inv env generation device steps t (w, ok report) c r v l =
    let after = meanwhile env w steps in
    let last = meanwhile-Last env w.shared.last_session_generation w steps refl in
    with_answer-Inv env generation device report.cleanup_error
      (did (factory_asked device t.last_session_generation) (record t { world = after }))
      (env.create t.effects device t.last_session_generation)
      (
        record {
          world = meanwhile-Inv env w steps v;
          below = omega (arith, last, l);
          source = subst (λ o. IsSource o after t.last_session_generation) (sym c) tt;
          rising = (omega arith, r);
        },
        c,
      )

checked_add-next : (n next : ℕ) → checked_add n 1 ≡ some next → next ≡ n + 1
checked_add-next n next e = ground (arith, e)

handle_recover-Inv :
    (env : RecoveryEnvironment) (generation : ℕ) (device : DeviceInfo) (steps : List Step)
    (t : RecoveryTask)
    → TaskInv t
    → TaskInv (handle_recover env generation device steps t).0
unfolding handle_recover
handle_recover-Inv env generation device steps t i =
    elim (Option-cases (checked_add t.last_session_generation 1)) [
      | inl e ↦ rw (handle_recover, e) (send_failure-Inv env generation device _ t i)
      | inr (session, e) ↦
          let next = checked_add-next t.last_session_generation session e in
          let begun : RecoveryTask = record t { last_session_generation = session } in
          let closed = close_events begun in
          let (same, last) = close_source-rest t.current_events begun in
          let (v, l) =
            retire_current-Inv env.ports closed.world (subst WorldInv (sym same) i.world) in
          let unchanged : closed.world.shared.last_session_generation
              ≡ t.world.shared.last_session_generation =
            ap (λ w. w.shared.last_session_generation) same in
          let rising : IsRising session begun.effects =
            subst (λ b. IsRising b t.effects) (sym next) i.rising in
          rw (handle_recover, e)
            (subst
              (λ s.
                TaskInv
                  (after_retirement env generation device steps s closed
                    (retire_current env.ports closed.world)).0)
              last
              (after_retirement-Inv env generation device steps closed
                (retire_current env.ports closed.world)
                (close_source-none t.current_events begun refl)
                (subst (λ b. IsRising b closed.effects) (sym last)
                  (close_source-IsRising session t.current_events begun rising))
                v (omega (arith, l, unchanged, last, next, i.below))))
    ]

send_or_return-Inv :
    (env : RecoveryEnvironment) (last : ℕ) (event : Option (ℕ × Bytes)) (t : RecoveryTask)
    → TaskInv t
    → TaskInv (send_or_return env (transport_event last event) t).0
unfolding IsRising
send_or_return-Inv env last none t i = elim (Bool-cases (env.accepts_event t.effects)) [
  | inl e ↦ rw e (record { world = i.world; below = i.below; source = i.source; rising = i.rising })
  | inr e ↦ rw e i
]
send_or_return-Inv env last (some (generation, error)) t i =
    elim (Bool-cases (env.accepts_event t.effects)) [
      | inl e ↦
          rw e (record { world = i.world; below = i.below; source = i.source; rising = i.rising })
      | inr e ↦ rw e i
    ]

event_from-Inv :
    (env : RecoveryEnvironment) (o : Option ℕ) (event : Option (ℕ × Bytes)) (t : RecoveryTask)
    → TaskInv t
    → TaskInv (event_from env o event t).0
event_from-Inv env none event t i = i
event_from-Inv env (some source) event t i =
    send_or_return-Inv env t.last_session_generation event (close_events t) (close_events-Inv t i)

elsewhere-Source :
    (env : RecoveryEnvironment) (o : Option ℕ) (w : World) (s : Step) (last : ℕ)
    → IsSource o w last
    → IsSource o (step_elsewhere env w s) last
elsewhere-Source env none w s last h = tt
elsewhere-Source env (some source) w s last h = step_elsewhere-Last env last w s h

handle_recovery-Inv :
    (env : RecoveryEnvironment) (input : RecoveryInput) (t : RecoveryTask)
    → TaskInv t
    → TaskInv (handle_recovery env input t).0
unfolding handle_recovery IsRising
handle_recovery-Inv env (recover generation device steps) t i =
    handle_recover-Inv env generation device steps t i
handle_recovery-Inv env (session_event event) t i = event_from-Inv env t.current_events event t i
handle_recovery-Inv env (elsewhere s) t i =
    let last = step_elsewhere-Last env t.world.shared.last_session_generation t.world s refl in
    record {
      world = step_elsewhere-Inv env t.world s i.world;
      below = omega (arith, last, i.below);
      source = elsewhere-Source env t.current_events t.world s t.last_session_generation i.source;
      rising = i.rising;
    }
handle_recovery-Inv env shutdown t i =
    let closed = close_events-Inv t i in
    record {
      world = closed.world;
      below = closed.below;
      source = closed.source;
      rising = closed.rising;
    }
handle_recovery-Inv env commands_closed t i = i

next_input-Inv :
    (rest : RecoveryTask → RecoveryTask) (p : Progress)
    → ((t : RecoveryTask) → TaskInv t → TaskInv (rest t))
    → TaskInv p.0
    → TaskInv (next_input rest p)
next_input-Inv rest (t, true) k i = k t i
next_input-Inv rest (t, false) k i = i

run_recovery-Inv :
    (env : RecoveryEnvironment) (inputs : List RecoveryInput) (t : RecoveryTask)
    → TaskInv t
    → TaskInv (run_recovery env inputs t)
unfolding run_recovery
run_recovery-Inv env [] t i = i
run_recovery-Inv env (input ∷ rest) t i =
    next_input-Inv (run_recovery env rest) (handle_recovery env input t) (run_recovery-Inv env rest)
      (handle_recovery-Inv env input t i)

pub spawned-Inv :
    (prepared : PreparedCastDevice) (generation : ℕ) → TaskInv (spawned prepared generation)
unfolding IsRising
spawned-Inv prepared generation = record {
  world = replaceable_device_session-Inv generation;
  below = omega arith;
  source = refl;
  rising = tt;
}

-- The end of the source of transport events is reported for the generation of the session that is
-- installed, after the source is shut down, and the task goes on without a source.
abbrev pub StopsFor : RecoveryEnvironment → RecoveryTask → Type 0
StopsFor env t =
    (source : ℕ)
    → t.current_events ≡ some source
    → env.accepts_event (events_shut_down source ∷ t.effects) ≡ true
    → let (after, goes_on) = handle_recovery env (session_event none) t in
      (goes_on ≡ true)
      × (after.current_events ≡ none)
      × (text : Bytes) × (after.effects
          ≡ transport_failed t.world.shared.last_session_generation text
            ∷ events_shut_down source
            ∷ t.effects)

TaskInv-StopsFor : (env : RecoveryEnvironment) (t : RecoveryTask) → TaskInv t → StopsFor env t
unfolding handle_recovery
TaskInv-StopsFor env t i source open_source accepted =
    let same : t.world.shared.last_session_generation ≡ t.last_session_generation =
      subst (λ o. IsSource o t.world t.last_session_generation) open_source i.source in
    rw (open_source, accepted, same) (refl, refl, codes "Device-session event source stopped", refl)

-- Over any history of recoveries, of failures of the transport and of what others do to the session in
-- between, whatever the factory and the ports answer: the ports are used as in any interleaving of the
-- slot's operations, none after its teardown; the factory is never asked for a generation twice, and
-- each is later than the one before; no session has a later generation than the last one asked for; and
-- where an open source of transport events stops and the event can be sent, the source is shut down and the
-- failure is reported for the generation of the last installed session.
pub run_recovery-IsOrdered :
    (env : RecoveryEnvironment) (inputs : List RecoveryInput) (prepared : PreparedCastDevice)
    (generation : ℕ)
    → let t = run_recovery env inputs (spawned prepared generation) in
      IsDisciplined t.world.calls
      × IsRising (t.last_session_generation + 1) t.effects
      × (t.world.shared.last_session_generation ≤ t.last_session_generation)
      × StopsFor env t
run_recovery-IsOrdered env inputs prepared generation =
    let t = run_recovery env inputs (spawned prepared generation) in
    let i =
      run_recovery-Inv env inputs (spawned prepared generation) (spawned-Inv prepared generation) in
    (i.world.disciplined, i.rising, i.below, TaskInv-StopsFor env t i)
