-- ===== src/Recovery/Answers.antt =====
-- What crates/pronk/src/device_recovery.rs does with the answer of the factory keeps its invariant.
use pronk.Common.{
  ℕ, ◌≤◌, ◌≡◌, Option, none, some, [], ◌∷◌, Bytes, Result, ok, err, arith, refl, sym, subst,
  Bool-cases, inl, inr,
}
use pronk.SessionReplacement.Values.{World, ReplacementError}
use pronk.SessionReplacement.Ledger.{WorldInv}
use pronk.SessionReplacement.{install}
use pronk.DisplaySlot.Values.{DeviceInfo}
use pronk.Recovery.Compatibility.{PreparedDeviceRecoveryError, validate_recovery}
use pronk.Recovery.Order.{
  IsRising, IsSource, TaskInv, discard-Inv, discard-Last, IsLast, install-Inv,
}
use pronk.Recovery.{
  FactoryAnswer, cancelled, failed, created, events_shut_down, factory_asked, ready, request_failed,
  transport_failed, shutdown_answered, RecoveryEffects, RecoveryEnvironment, RecoveryTask, did,
  close_source, close_events, discard, send_failure, installed_session, with_compatible,
  with_answer,
}

pub IsRising-wider :
    (b c : ℕ) (effects : RecoveryEffects) → b ≤ c → IsRising b effects → IsRising c effects
unfolding IsRising
IsRising-wider b c [] l h = tt
IsRising-wider b c (factory_asked device generation ∷ rest) l h = (omega (arith, l, h.0), h.1)
IsRising-wider b c (events_shut_down source ∷ rest) l h = IsRising-wider b c rest l h
IsRising-wider b c (ready request device generation cleanup ∷ rest) l h =
    IsRising-wider b c rest l h
IsRising-wider b c (request_failed request device error ∷ rest) l h = IsRising-wider b c rest l h
IsRising-wider b c (transport_failed generation error ∷ rest) l h = IsRising-wider b c rest l h
IsRising-wider b c (shutdown_answered ∷ rest) l h = IsRising-wider b c rest l h

-- Closing the source adds nothing to the generations.
pub close_source-IsRising :
    (b : ℕ) (o : Option ℕ) (t : RecoveryTask)
    → IsRising b t.effects
    → IsRising b (close_source o t).effects
unfolding IsRising
close_source-IsRising b none t h = h
close_source-IsRising b (some source) t h = h

pub close_source-none :
    (o : Option ℕ) (t : RecoveryTask)
    → t.current_events ≡ o
    → (close_source o t).current_events ≡ none
close_source-none none t e = e
close_source-none (some source) t e = refl

pub close_source-rest :
    (o : Option ℕ) (t : RecoveryTask)
    → ((close_source o t).world ≡ t.world)
      × ((close_source o t).last_session_generation ≡ t.last_session_generation)
close_source-rest none t = (refl, refl)
close_source-rest (some source) t = (refl, refl)

pub close_events-Inv : (t : RecoveryTask) → TaskInv t → TaskInv (close_events t)
unfolding IsRising
close_events-Inv t i = closed t.current_events refl
  where
    closed : (o : Option ℕ) → t.current_events ≡ o → TaskInv (close_source o t)
    closed none e = i
    closed (some source) e = record {
      world = i.world;
      below = i.below;
      source = tt;
      rising = i.rising;
    }

pub send_failure-Inv :
    (env : RecoveryEnvironment) (generation : ℕ) (device : DeviceInfo) (error : Bytes)
    (t : RecoveryTask)
    → TaskInv t
    → TaskInv (send_failure env generation device error t).0
unfolding IsRising
send_failure-Inv env generation device error t i = elim (Bool-cases (env.accepts_event t.effects)) [
  | inl e ↦ rw e (record { world = i.world; below = i.below; source = i.source; rising = i.rising })
  | inr e ↦ rw e i
]

-- A session that is being made: its generation is asked for, and no source is open.
abbrev IsMaking : RecoveryTask → Type 0
IsMaking t = TaskInv t × (t.current_events ≡ none)

moved :
    (t : RecoveryTask) (w : World)
    → IsMaking t
    → WorldInv w
    → w.shared.last_session_generation ≤ t.last_session_generation
    → TaskInv (record t { world = w })
moved t w i v l = record {
  world = v;
  below = l;
  source = subst (λ o. IsSource o w t.last_session_generation) (sym i.1) tt;
  rising = i.0.rising;
}

installed_session-Inv :
    (env : RecoveryEnvironment) (generation : ℕ) (device : DeviceInfo) (cleanup : Option Bytes)
    (source : ℕ) (t : RecoveryTask) (made : World × Result ReplacementError ℕ)
    → IsMaking t
    → WorldInv made.0
    → IsLast t.world t.last_session_generation made
    → TaskInv (installed_session env generation device cleanup source t made).0
unfolding IsRising
installed_session-Inv env generation device cleanup source t (w, ok installed) i v l =
    let after : TaskInv (record t { world = w; current_events = some source }) = record {
      world = v;
      below = omega (arith, l.1);
      source = l.1;
      rising = i.0.rising;
    } in
    elim (Bool-cases (env.accepts_event t.effects)) [
      | inl e ↦ rw e (record { world = v; below = after.below; source = l.1; rising = i.0.rising })
      | inr e ↦ rw e after
    ]
installed_session-Inv env generation device cleanup source t (w, err error) i v l =
    let stays = moved t w i v (omega (arith, l, i.0.below)) in
    send_failure-Inv env generation device _
      (did (events_shut_down source) (record t { world = w }))
      (record { world = v; below = stays.below; source = stays.source; rising = i.0.rising })

with_compatible-Inv :
    (env : RecoveryEnvironment) (generation : ℕ) (device : DeviceInfo) (cleanup : Option Bytes)
    (t : RecoveryTask) (o : Option (Result PreparedDeviceRecoveryError (Unit {0})))
    → IsMaking t
    → TaskInv (with_compatible env generation device cleanup t.last_session_generation t o).0
unfolding IsRising
with_compatible-Inv env generation device cleanup t none i = i.0
with_compatible-Inv env generation device cleanup t (some (ok _)) i =
    let (v, l) = install-Inv env.ports t.last_session_generation t.world i.0.world in
    installed_session-Inv env generation device cleanup t.world.next_session t
      (install env.ports t.last_session_generation t.world) i v l
with_compatible-Inv env generation device cleanup t (some (err error)) i =
    let stays =
      moved t (discard env.ports t.world) i (discard-Inv env.ports t.world i.0.world)
        (omega (arith, discard-Last env.ports t.world, i.0.below)) in
    send_failure-Inv env generation device _
      (record (did (events_shut_down t.world.next_session) t) { world = discard env.ports t.world })
      (record {
        world = stays.world;
        below = stays.below;
        source = stays.source;
        rising = i.0.rising;
      })

pub with_answer-Inv :
    (env : RecoveryEnvironment) (generation : ℕ) (device : DeviceInfo) (cleanup : Option Bytes)
    (t : RecoveryTask) (answer : FactoryAnswer)
    → IsMaking t
    → TaskInv (with_answer env generation device cleanup t.last_session_generation t answer).0
with_answer-Inv env generation device cleanup t cancelled i = i.0
with_answer-Inv env generation device cleanup t (failed error) i =
    send_failure-Inv env generation device error t i.0
with_answer-Inv env generation device cleanup t (created recovered) i =
    with_compatible-Inv env generation device cleanup t (validate_recovery t.prepared recovered) i
