-- ===== src/Recovery/Order.antt =====
-- The generations and the sources of events of crates/pronk/src/device_recovery.rs, together with the slot
-- that it replaces sessions in.
use pronk.Common.{
  ℕ, ◌+◌, ◌≤◌, ◌<◌, ◌≡◌, true, Option, none, some, List, [], ◌∷◌, Result, ok, err, arith, refl,
  Bool-cases, Option-cases, inl, inr,
}
use pronk.SessionReplacement.Values.{
  daemon_shutdown, Environment, ActiveSession, World, ReplacementError,
}
use pronk.SessionReplacement.Ledger.{WorldInv, torn_down-Inv, rejected-Inv}
use pronk.SessionReplacement.Discipline.{step-Inv, vacate-Inv, offer-Inv}
use pronk.SessionReplacement.Steps.{Step}
use pronk.SessionReplacement.{
  contains, tear_down, vacate, retired, retire_current, rejection, offer, installed, install,
}
use pronk.Recovery.Meanwhile.{Last}
use pronk.Recovery.{
  events_shut_down, factory_asked, ready, request_failed, transport_failed, shutdown_answered,
  RecoveryEffects, RecoveryEnvironment, RecoveryTask, is_elsewhere, discard, step_elsewhere,
  meanwhile,
}

-- The generations that the factory was asked for rise from the first one on, and stay below a bound.
unfoldable pub IsRising : ℕ → RecoveryEffects → Type 0
IsRising bound [] = Unit
IsRising bound (factory_asked device generation ∷ rest) =
    (generation < bound) × IsRising generation rest
IsRising bound (events_shut_down source ∷ rest) = IsRising bound rest
IsRising bound (ready request device generation cleanup ∷ rest) = IsRising bound rest
IsRising bound (request_failed request device error ∷ rest) = IsRising bound rest
IsRising bound (transport_failed generation error ∷ rest) = IsRising bound rest
IsRising bound (shutdown_answered ∷ rest) = IsRising bound rest

-- While the source of a session is open, its session is the last one that was installed, of the last
-- generation.
abbrev pub IsSource : Option ℕ → World → ℕ → Type 0
IsSource none w last = Unit
IsSource (some source) w last = w.shared.last_session_generation ≡ last

pub record TaskInv (t : RecoveryTask) : Type 0 where
  pub world : WorldInv t.world
  pub below : t.world.shared.last_session_generation ≤ t.last_session_generation
  pub source : IsSource t.current_events t.world t.last_session_generation
  pub rising : IsRising (t.last_session_generation + 1) t.effects

pub step_elsewhere-Inv :
    (env : RecoveryEnvironment) (w : World) (s : Step)
    → WorldInv w
    → WorldInv (step_elsewhere env w s)
unfolding step_elsewhere
step_elsewhere-Inv env w s i = elim (Bool-cases (is_elsewhere s)) [
  | inl e ↦ rw (step_elsewhere, e) (step-Inv env.ports w s i)
  | inr e ↦ rw (step_elsewhere, e) i
]

pub meanwhile-Inv :
    (env : RecoveryEnvironment) (w : World) (steps : List Step)
    → WorldInv w
    → WorldInv (meanwhile env w steps)
unfolding meanwhile
meanwhile-Inv env w [] i = i
meanwhile-Inv env w (s ∷ rest) i =
    meanwhile-Inv env (step_elsewhere env w s) rest (step_elsewhere-Inv env w s i)

-- A teardown of a port that is being torn down.
tear_down-Inv :
    (env : Environment) (port : ℕ) (w : World)
    → contains port w.tearing_down ≡ true
    → WorldInv w
    → WorldInv (tear_down env port daemon_shutdown w).0
unfolding tear_down
tear_down-Inv env port w h i =
    torn_down-Inv w.shared.current w.tearing_down w.next_session port w.calls daemon_shutdown _ h i

contains-first : (port : ℕ) (ports : List ℕ) → contains port (port ∷ ports) ≡ true
contains-first port ports = ground arith

pub discard-Inv : (env : Environment) (w : World) → WorldInv w → WorldInv (discard env w)
unfolding discard
discard-Inv env w i =
    tear_down-Inv env w.next_session
      (record w {
        tearing_down = w.next_session ∷ w.tearing_down;
        next_session = w.next_session + 1;
      })
      (contains-first w.next_session w.tearing_down)
      (rejected-Inv w.shared.current w.tearing_down w.next_session w.calls i)

pub discard-Last :
    (env : Environment) (w : World) → Last w.shared.last_session_generation (discard env w)
unfolding discard tear_down
discard-Last env w = refl

retired-Inv :
    (env : Environment) (n : ℕ) (w : World) (r : Result ReplacementError (Option ActiveSession))
    → WorldInv w
    → Last n w
    → ((s : ActiveSession) → r ≡ ok (some s) → contains s.session w.tearing_down ≡ true)
    → WorldInv (retired env (w, r)).0 × Last n (retired env (w, r)).0
unfolding tear_down
retired-Inv env n w (err error) i l h = (i, l)
retired-Inv env n w (ok none) i l h = (i, l)
retired-Inv env n w (ok (some s)) i l h = (tear_down-Inv env s.session w (h s refl) i, l)

vacate-taken :
    (w : World) (s : ActiveSession)
    → (vacate w).1 ≡ ok (some s)
    → contains s.session (vacate w).0.tearing_down ≡ true
unfolding vacate
vacate-taken w s e = elim (Bool-cases w.shared.closed) [
  | inl shut ↦ absurd (ground (arith, e, shut))
  | inr running ↦
      let there : w.shared.current ≡ some s = ground (arith, e, running) in
      rw (running, there) (contains-first s.session w.tearing_down)
]

vacate-Last : (w : World) → Last w.shared.last_session_generation (vacate w).0
unfolding vacate
vacate-Last w = elim (Bool-cases w.shared.closed) [
  | inl shut ↦ rw (vacate, shut) refl
  | inr running ↦ rw (vacate, running) refl
]

-- What a retirement leaves: the invariant, and the last generation.
pub retire_current-Inv :
    (env : Environment) (w : World)
    → WorldInv w
    → WorldInv (retire_current env w).0
      × Last w.shared.last_session_generation (retire_current env w).0
unfolding retire_current
retire_current-Inv env w i =
    retired-Inv env w.shared.last_session_generation (vacate w).0 (vacate w).1 (vacate-Inv w i)
      (vacate-Last w) (vacate-taken w)

-- The last generation after an installation.
abbrev pub IsLast : World → ℕ → World × Result ReplacementError ℕ → Type 0
IsLast w generation (after, ok installed) = (installed ≡ generation) × Last generation after
IsLast w generation (after, err error) = Last w.shared.last_session_generation after

installed-Inv :
    (env : Environment) (generation : ℕ) (before w : World) (o : Option ReplacementError)
    → WorldInv w
    → (o ≡ none → Last generation w)
    → ((error : ReplacementError)
        → o ≡ some error
        → (contains before.next_session w.tearing_down ≡ true)
          × Last before.shared.last_session_generation w)
    → WorldInv (installed env generation before.next_session (w, o)).0
      × IsLast before generation (installed env generation before.next_session (w, o))
unfolding tear_down
installed-Inv env generation before w none i l h = (i, (refl, l refl))
installed-Inv env generation before w (some error) i l h =
    (tear_down-Inv env before.next_session w (h error refl).0 i, (h error refl).1)

offer-Last :
    (generation : ℕ) (w : World)
    → (offer generation w).1 ≡ none
    → Last generation (offer generation w).0
unfolding offer
offer-Last generation w e = elim (Option-cases (rejection w.shared generation)) [
  | inl accepted ↦ rw (offer, accepted) refl
  | inr (error, rejected) ↦ absurd (ground (arith, e, rejected))
]

offer-rejected :
    (generation : ℕ) (w : World) (error : ReplacementError)
    → (offer generation w).1 ≡ some error
    → (contains w.next_session (offer generation w).0.tearing_down ≡ true)
      × Last w.shared.last_session_generation (offer generation w).0
unfolding offer
offer-rejected generation w error e = elim (Option-cases (rejection w.shared generation)) [
  | inl accepted ↦ absurd (ground (arith, e, accepted))
  | inr (_, rejected) ↦ rw (offer, rejected) (contains-first w.next_session w.tearing_down, refl)
]

pub install-Inv :
    (env : Environment) (generation : ℕ) (w : World)
    → WorldInv w
    → WorldInv (install env generation w).0 × IsLast w generation (install env generation w)
unfolding install
install-Inv env generation w i =
    installed-Inv env generation w (offer generation w).0 (offer generation w).1
      (offer-Inv generation w i) (offer-Last generation w) (offer-rejected generation w)
