-- ===== src/SessionReplacement/Retirement.antt =====
-- The media generations of retired sessions in the slot of crates/pronk/src/replaceable_device_session.rs.
use pronk.Common.{
  ℕ, ◌≡◌, Bool, true, false, not, Option, none, some, List, [], ◌∷◌, ◌==◌, All, Result, ok, err,
  arith, refl, Bool-cases, Option-cases, inl, inr,
}
use pronk.SessionReplacement.Values.{
  DeviceMediaStopReason, stop_media, Answer, Environment, ActiveSession, World, DeviceSessionError,
  Reply,
}
use pronk.SessionReplacement.{
  contains, without, insert_some, media_of, live_session, matching_session, with_session, called,
  transmit, configure_session, configure_media, ask_matching, stop_current_media,
  stop_matching_media, stop_live_media, stop_media_generation, stopped_media, tear_down, vacate,
  rejection, offer,
}
use pronk.SessionReplacement.Steps.{
  Step, controlling, configuring, starting, resuming, installing, suspending, stopping, vacating,
  closing, ending, step, run,
}

-- An operation on the session in the slot keeps a property that it keeps for that session.
pub with_session-keeps :
    (P : World → Type 0) (r : Result DeviceSessionError ActiveSession)
    (f : ActiveSession → World × Reply) (w : World)
    → ((s : ActiveSession) → r ≡ ok s → P (f s).0)
    → P w
    → P (with_session r f w).0
with_session-keeps P (err error) f w k i = i
with_session-keeps P (ok s) f w k i = k s refl

-- A step that neither stops this media generation nor ends the display.
abbrev pub leaves_retired : ℕ → Step → Bool
leaves_retired generation (stopping other reason) = not (generation == other)
leaves_retired generation closing = false
leaves_retired generation other = true

abbrev Retired : ℕ → World → Type 0
Retired generation w = contains generation w.shared.retired_media_generations ≡ true

contains-insert_some :
    (n : ℕ) (o : Option ℕ) (xs : List ℕ)
    → contains n xs ≡ true
    → contains n (insert_some o xs) ≡ true
contains-insert_some n none xs h = h
contains-insert_some n (some m) xs h = ground (arith, h)

inserted : (n : ℕ) (xs : List ℕ) → contains n (insert_some (some n) xs) ≡ true
inserted n xs = ground arith

contains-without :
    (n m : ℕ) (xs : List ℕ)
    → (n == m) ≡ false
    → contains n xs ≡ true
    → contains n (without m xs) ≡ true
contains-without n m [] e h = absurd (ground (arith, h))
contains-without n m (x ∷ xs) e h = elim (Bool-cases (n == x)) [
  | inl same ↦ ground (arith, e, same)
  | inr other ↦ ground (arith, e, h, other, contains-without n m xs)
]

stop_current_media-Retired :
    (env : Environment) (generation other : ℕ) (reason : DeviceMediaStopReason) (s : ActiveSession)
    (w : World)
    → Retired generation w
    → Retired generation (stop_current_media env s other reason w).0
stop_current_media-Retired env generation other reason s w h =
    settled (env w.calls s.session (stop_media other reason))
  where
    settled :
        (answer : Answer)
        → Retired generation
            (stopped_media env s answer (called env s.session (stop_media other reason) w))
    settled (ok tt) = h
    settled (err message) = h

stop_media_generation-Retired :
    (env : Environment) (generation other : ℕ) (reason : DeviceMediaStopReason) (w : World)
    → (generation == other) ≡ false
    → Retired generation w
    → Retired generation (stop_media_generation env other reason w).0
unfolding stop_media_generation stop_live_media
stop_media_generation-Retired env generation other reason w apart h =
    elim (Bool-cases (contains other w.shared.retired_media_generations)) [
      | inl retired ↦
          rw retired (contains-without generation other w.shared.retired_media_generations apart h)
      | inr live ↦ rw live (
          with_session-keeps (Retired generation) (live_session w.shared)
            (stop_matching_media env other reason w) w
            (λ s _. elim (Option-cases s.media_generation) [
              | inl idle ↦ rw idle h
              | inr (active, there) ↦ elim (Bool-cases (active == other)) [
                | inr differs ↦ rw (there, differs) h
                | inl same ↦
                    rw (there, same) (stop_current_media-Retired env generation other reason s w h)
              ]
            ])
            h)
    ]

offer-Retired :
    (generation other : ℕ) (w : World) → Retired generation w → Retired generation (offer other w).0
unfolding offer
offer-Retired generation other w h = elim (Option-cases (rejection w.shared other)) [
  | inr (error, e) ↦ rw (offer, e) h
  | inl e ↦ rw (offer, e) h
]

vacate-Retired :
    (generation : ℕ) (w : World) → Retired generation w → Retired generation (vacate w).0
unfolding vacate
vacate-Retired generation w h = elim (Bool-cases w.shared.closed) [
  | inl shut ↦ rw shut h
  | inr running ↦ rw running (
      contains-insert_some generation (media_of w.shared.current) w.shared.retired_media_generations
        h)
]

step-Retired :
    (env : Environment) (generation : ℕ) (w : World) (s : Step)
    → leaves_retired generation s ≡ true
    → Retired generation w
    → Retired generation (step env w s)
unfolding step transmit configure_media ask_matching tear_down
step-Retired env generation w (controlling operation) k h =
    with_session-keeps (Retired generation) (live_session w.shared) _ w (λ _ _. h) h
step-Retired env generation w (configuring other) k h =
    with_session-keeps (Retired generation) (live_session w.shared) (configure_session env other w)
      w
      (λ s _. elim (Option-cases s.media_generation) [
        | inl idle ↦ rw idle h
        | inr (active, there) ↦ rw there h
      ])
      h
step-Retired env generation w (starting other) k h =
    with_session-keeps (Retired generation) (matching_session w.shared other "start") _ w (λ _ _. h)
      h
step-Retired env generation w (resuming other) k h =
    with_session-keeps (Retired generation) (matching_session w.shared other "resume") _ w
      (λ _ _. h) h
step-Retired env generation w (suspending other reason) k h =
    with_session-keeps (Retired generation) (matching_session w.shared other "suspend") _ w
      (λ _ _. h) h
step-Retired env generation w (stopping other reason) k h =
    stop_media_generation-Retired env generation other reason w (ground (arith, k)) h
step-Retired env generation w (installing other) k h = offer-Retired generation other w h
step-Retired env generation w vacating k h = vacate-Retired generation w h
step-Retired env generation w closing k h = absurd (ground (arith, k))
step-Retired env generation w (ending port reason) k h =
    elim (Bool-cases (contains port w.tearing_down)) [
      | inl leaving ↦ rw leaving h
      | inr absent ↦ rw absent h
    ]

run-Retired :
    (env : Environment) (generation : ℕ) (w : World) (steps : List Step)
    → All (λ s. leaves_retired generation s ≡ true) steps
    → Retired generation w
    → Retired generation (run env w steps)
unfolding run
run-Retired env generation w [] k h = h
run-Retired env generation w (s ∷ rest) k h =
    run-Retired env generation (step env w s) rest k.1 (step-Retired env generation w s k.0 h)

without-absent : (n : ℕ) (xs : List ℕ) → contains n (without n xs) ≡ false
without-absent n [] = refl
without-absent n (x ∷ xs) = ground (arith, without-absent n xs)

vacated :
    (w : World) (s : ActiveSession) (generation : ℕ)
    → w.shared.closed ≡ false
    → w.shared.current ≡ some s
    → s.media_generation ≡ some generation
    → Retired generation (vacate w).0
unfolding vacate
vacated w s generation running there active =
    rw (running, there, active) (inserted generation w.shared.retired_media_generations)

-- If a session is retired while it has a media generation, the owner of that generation can still
-- stop it, once: after any steps in between that neither stop it nor end the display, stopping it
-- succeeds without a call to any port, and it is no longer kept as retired.
pub stop_media_generation-vacate :
    (env : Environment) (w : World) (s : ActiveSession) (generation : ℕ)
    (reason : DeviceMediaStopReason) (steps : List Step)
    → w.shared.closed ≡ false
    → w.shared.current ≡ some s
    → s.media_generation ≡ some generation
    → All (λ s. leaves_retired generation s ≡ true) steps
    → let later = run env (vacate w).0 steps in
      let (after, reply) = stop_media_generation env generation reason later in
      (reply ≡ ok tt)
      × (after.calls ≡ later.calls)
      × (contains generation after.shared.retired_media_generations ≡ false)
unfolding stop_media_generation
stop_media_generation-vacate env w s generation reason steps running there active kept =
    let retired : Retired generation (run env (vacate w).0 steps) =
      run-Retired env generation (vacate w).0 steps kept
        (vacated w s generation running there active) in
    rw retired (refl, refl, without-absent generation _)
