-- ===== src/Recovery/Meanwhile.antt =====
-- What the steps of others keep of the slot while crates/pronk/src/device_recovery.rs makes a session.
use pronk.Common.{ℕ, ◌≡◌, true, List, [], ◌∷◌, ◌==◌, ok, err, Bool-cases, Option-cases, inl, inr}
use pronk.SessionReplacement.Values.{
  DeviceMediaStopReason, stop_media, Answer, Environment, ActiveSession, World,
}
use pronk.SessionReplacement.{
  contains, live_session, matching_session, called, transmit, configure_session, configure_media,
  ask_matching, stop_current_media, stop_matching_media, stop_live_media, stop_media_generation,
  stopped_media, tear_down, close,
}
use pronk.SessionReplacement.Retirement.{with_session-keeps}
use pronk.SessionReplacement.Steps.{
  Step, controlling, configuring, starting, resuming, installing, suspending, stopping, vacating,
  closing, ending, step,
}
use pronk.Recovery.{RecoveryEnvironment, is_elsewhere, step_elsewhere, meanwhile}

-- The last generation that was installed.
abbrev pub Last : ℕ → World → Type 0
Last n w = w.shared.last_session_generation ≡ n

stop_current_media-Last :
    (env : Environment) (n other : ℕ) (reason : DeviceMediaStopReason) (s : ActiveSession)
    (w : World)
    → Last n w
    → Last n (stop_current_media env s other reason w).0
stop_current_media-Last env n other reason s w h =
    settled (env w.calls s.session (stop_media other reason))
  where
    settled :
        (answer : Answer)
        → Last n (stopped_media env s answer (called env s.session (stop_media other reason) w))
    settled (ok tt) = h
    settled (err message) = h

stop_media_generation-Last :
    (env : Environment) (n other : ℕ) (reason : DeviceMediaStopReason) (w : World)
    → Last n w
    → Last n (stop_media_generation env other reason w).0
unfolding stop_media_generation stop_live_media
stop_media_generation-Last env n other reason w h =
    elim (Bool-cases (contains other w.shared.retired_media_generations)) [
      | inl retired ↦ rw retired h
      | inr live ↦ rw live (
          with_session-keeps (Last n) (live_session w.shared)
            (stop_matching_media env other reason w) w
            (λ s _. elim (Option-cases s.media_generation) [
              | inl idle ↦ rw idle h
              | inr (active, there) ↦ elim (Bool-cases (active == other)) [
                | inr differs ↦ rw (there, differs) h
                | inl same ↦ rw (there, same) (stop_current_media-Last env n other reason s w h)
              ]
            ])
            h)
    ]

step-Last :
    (env : Environment) (n : ℕ) (w : World) (s : Step)
    → is_elsewhere s ≡ true
    → Last n w
    → Last n (step env w s)
unfolding step transmit configure_media ask_matching tear_down close
step-Last env n w (controlling operation) k h =
    with_session-keeps (Last n) (live_session w.shared) _ w (λ _ _. h) h
step-Last env n w (configuring other) k h =
    with_session-keeps (Last n) (live_session w.shared) (configure_session env other w) w
      (λ s _. elim (Option-cases s.media_generation) [
        | inl idle ↦ rw idle h
        | inr (active, there) ↦ rw there h
      ])
      h
step-Last env n w (starting other) k h =
    with_session-keeps (Last n) (matching_session w.shared other "start") _ w (λ _ _. h) h
step-Last env n w (resuming other) k h =
    with_session-keeps (Last n) (matching_session w.shared other "resume") _ w (λ _ _. h) h
step-Last env n w (suspending other reason) k h =
    with_session-keeps (Last n) (matching_session w.shared other "suspend") _ w (λ _ _. h) h
step-Last env n w (stopping other reason) k h = stop_media_generation-Last env n other reason w h
step-Last env n w (installing other) k h = absurd (cc k)
step-Last env n w vacating k h = absurd (cc k)
step-Last env n w closing k h = elim (Bool-cases w.shared.closed) [
  | inl shut ↦ rw (close, shut) h
  | inr running ↦ rw (close, running) h
]
step-Last env n w (ending port reason) k h = elim (Bool-cases (contains port w.tearing_down)) [
  | inl leaving ↦ rw leaving h
  | inr absent ↦ rw absent h
]

pub step_elsewhere-Last :
    (env : RecoveryEnvironment) (n : ℕ) (w : World) (s : Step)
    → Last n w
    → Last n (step_elsewhere env w s)
unfolding step_elsewhere
step_elsewhere-Last env n w s h = elim (Bool-cases (is_elsewhere s)) [
  | inl e ↦ rw (step_elsewhere, e) (step-Last env.ports n w s e h)
  | inr e ↦ rw (step_elsewhere, e) h
]

pub meanwhile-Last :
    (env : RecoveryEnvironment) (n : ℕ) (w : World) (steps : List Step)
    → Last n w
    → Last n (meanwhile env w steps)
unfolding meanwhile
meanwhile-Last env n w [] h = h
meanwhile-Last env n w (s ∷ rest) h =
    meanwhile-Last env n (step_elsewhere env w s) rest (step_elsewhere-Last env n w s h)
