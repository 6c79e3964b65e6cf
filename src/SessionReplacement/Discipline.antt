-- ===== src/SessionReplacement/Discipline.antt =====
-- The calls that the slot of crates/pronk/src/replaceable_device_session.rs makes of its ports, over
-- all interleavings of media, control, recovery and the end of the display.
use pronk.Common.{
  ℕ, ◌≡◌, false, Option, none, some, List, [], ◌∷◌, ◌==◌, subst, Result, ok, err, String, arith,
  refl, Bool-cases, Option-cases, inl, inr, ◌∙◌, ap, sym,
}
use pronk.SessionReplacement.Values.{
  DeviceMediaStopReason, PortCall, transmit_control, configure, start, resume, suspend, stop_media,
  Answer, Calls, Environment, ActiveSession, SharedState, World, DeviceSessionError,
  DeviceControlOperation, Reply,
}
use pronk.SessionReplacement.{
  contains, replaceable_device_session, stopped_media, taken, with_session, configure_session,
  stop_matching_media, live_session, matching_session, called, transmit, configure_media,
  ask_matching, stop_current_media, stop_live_media, stop_media_generation, tear_down, vacate,
  close, rejection, offer,
}
use pronk.SessionReplacement.Steps.{
  Step, controlling, configuring, starting, resuming, installing, suspending, stopping, vacating,
  closing, ending, step, run,
}
use pronk.SessionReplacement.Ledger.{
  is_stopped, media_in, media_after, is_stop, Permits, IsDisciplined, Inv, WorldInv, asked-Inv,
  torn_down-Inv, made-Inv, rejected-Inv, taken-Inv,
}

with_session-Inv :
    (r : Result DeviceSessionError ActiveSession) (f : ActiveSession → World × Reply) (w : World)
    → ((s : ActiveSession) → r ≡ ok s → WorldInv (f s).0)
    → WorldInv w
    → WorldInv (with_session r f w).0
with_session-Inv (err error) f w k i = i
with_session-Inv (ok s) f w k i = k s refl

live_session-current :
    (shared : SharedState) (s : ActiveSession)
    → live_session shared ≡ ok s
    → shared.current ≡ some s
live_session-current shared s e = ground (arith, e)

matching_session-current :
    (shared : SharedState) (generation : ℕ) (operation : String) (s : ActiveSession)
    → matching_session shared generation operation ≡ ok s
    → (shared.current ≡ some s) × (s.media_generation ≡ some generation)
matching_session-current shared generation operation s e = (ground (arith, e), ground (arith, e))

-- The account of the session in the slot, and back.
open_slot :
    (w : World) (s : ActiveSession)
    → w.shared.current ≡ some s
    → WorldInv w
    → Inv (some s) w.tearing_down w.next_session w.calls
open_slot w s there i = subst (λ c. Inv c w.tearing_down w.next_session w.calls) there i

-- A call that leaves the media of its port as it is.
called-Inv :
    (env : Environment) (w : World) (s : ActiveSession) (call : PortCall)
    → w.shared.current ≡ some s
    → is_stop call ≡ false
    → Permits s.media_generation call
    → ((answer : Answer) → media_after call answer s.media_generation ≡ s.media_generation)
    → WorldInv w
    → WorldInv (called env s.session call w)
called-Inv env w s call there goes_on permitted keeps i =
    let answer = env w.calls s.session call in
    subst (λ c. Inv c w.tearing_down w.next_session ((s.session, call, answer) ∷ w.calls))
      (ap (λ m. some (record s { media_generation = m })) (keeps answer) ∙ sym there)
      (asked-Inv s w.tearing_down w.next_session w.calls call answer goes_on permitted
        (open_slot w s there i))

transmit-Inv :
    (env : Environment) (operation : DeviceControlOperation) (w : World)
    → WorldInv w
    → WorldInv (transmit env operation w).0
unfolding transmit media_after
transmit-Inv env operation w i =
    with_session-Inv (live_session w.shared) _ w
      (λ s e.
        called-Inv env w s (transmit_control operation) (live_session-current w.shared s e) refl tt
          (λ _. refl) i)
      i

ask_matching-Inv :
    (env : Environment) (operation : String) (generation : ℕ) (call : PortCall) (w : World)
    → is_stop call ≡ false
    → ((media : Option ℕ) → media ≡ some generation → Permits media call)
    → ((answer : Answer) (media : Option ℕ) → media_after call answer media ≡ media)
    → WorldInv w
    → WorldInv (ask_matching env operation generation call w).0
unfolding ask_matching
ask_matching-Inv env operation generation call w goes_on permitted keeps i =
    with_session-Inv (matching_session w.shared generation operation) _ w
      (λ s e.
        let (there, active) = matching_session-current w.shared generation operation s e in
        called-Inv env w s call there goes_on (permitted s.media_generation active)
          (λ answer. keeps answer s.media_generation) i)
      i

configure_media-Inv :
    (env : Environment) (generation : ℕ) (w : World)
    → WorldInv w
    → WorldInv (configure_media env generation w).0
unfolding configure_media media_after
configure_media-Inv env generation w i =
    with_session-Inv (live_session w.shared) (configure_session env generation w) w
      (λ s e. elim (Option-cases s.media_generation) [
        | inr (active, there) ↦ rw there i
        | inl idle ↦ rw idle (
            asked-Inv s w.tearing_down w.next_session w.calls (configure generation) _ refl idle
              (open_slot w s (live_session-current w.shared s e) i))
      ])
      i

stop_current_media-Inv :
    (env : Environment) (s : ActiveSession) (generation : ℕ) (reason : DeviceMediaStopReason)
    (w : World)
    → w.shared.current ≡ some s
    → s.media_generation ≡ some generation
    → WorldInv w
    → WorldInv (stop_current_media env s generation reason w).0
unfolding media_after
stop_current_media-Inv env s generation reason w there active i =
    settled (env w.calls s.session (stop_media generation reason)) (
      asked-Inv s w.tearing_down w.next_session w.calls (stop_media generation reason) _ refl active
        (open_slot w s there i))
  where
    after : Answer → Calls
    after answer = (s.session, stop_media generation reason, answer) ∷ w.calls

    settled :
        (answer : Answer)
        → Inv
            (some (record s {
              media_generation =
                  media_after (stop_media generation reason) answer s.media_generation;
            }))
            w.tearing_down
            w.next_session
            (after answer)
        → WorldInv (stopped_media env s answer (record w { calls = after answer }))
    settled (ok tt) k = k
    settled (err message) k =
        subst (λ c. Inv c w.tearing_down w.next_session (after (err message))) (sym there) k

stop_media_generation-Inv :
    (env : Environment) (generation : ℕ) (reason : DeviceMediaStopReason) (w : World)
    → WorldInv w
    → WorldInv (stop_media_generation env generation reason w).0
unfolding stop_media_generation stop_live_media
stop_media_generation-Inv env generation reason w i =
    elim (Bool-cases (contains generation w.shared.retired_media_generations)) [
      | inl retired ↦ rw retired i
      | inr live ↦ rw live (
          with_session-Inv (live_session w.shared) (stop_matching_media env generation reason w) w
            (λ s e. elim (Option-cases s.media_generation) [
              | inl idle ↦ rw idle i
              | inr (active, there) ↦ elim (Bool-cases (active == generation)) [
                | inr other ↦ rw (there, other) i
                | inl same ↦
                    rw (there, same)
                      (stop_current_media-Inv env s generation reason w
                        (live_session-current w.shared s e) (ground (arith, there, same)) i)
              ]
            ])
            i)
    ]

-- The slot is emptied into the sessions that leave.
emptied-Inv :
    (w : World) (current : Option ActiveSession)
    → Inv current w.tearing_down w.next_session w.calls
    → Inv none (taken current w.tearing_down) w.next_session w.calls
emptied-Inv w none i = i
emptied-Inv w (some s) i = taken-Inv s w.tearing_down w.next_session w.calls i

pub vacate-Inv : (w : World) → WorldInv w → WorldInv (vacate w).0
unfolding vacate
vacate-Inv w i = elim (Bool-cases w.shared.closed) [
  | inl shut ↦ rw shut i
  | inr running ↦ rw running (emptied-Inv w w.shared.current i)
]

close-Inv : (w : World) → WorldInv w → WorldInv (close w).0
unfolding close
close-Inv w i = elim (Bool-cases w.shared.closed) [
  | inl shut ↦ rw shut i
  | inr running ↦ rw running (emptied-Inv w w.shared.current i)
]

accepted-vacant :
    (shared : SharedState) (generation : ℕ)
    → rejection shared generation ≡ none
    → shared.current ≡ none
unfolding rejection
accepted-vacant shared generation e = ground (arith, e)

pub offer-Inv : (generation : ℕ) (w : World) → WorldInv w → WorldInv (offer generation w).0
unfolding offer
offer-Inv generation w i = elim (Option-cases (rejection w.shared generation)) [
  | inr (error, e) ↦
      rw (offer, e) (rejected-Inv w.shared.current w.tearing_down w.next_session w.calls i)
  | inl e ↦
      rw (offer, e)
        (made-Inv _ w.tearing_down w.next_session w.calls refl refl (
          subst (λ c. Inv c w.tearing_down w.next_session w.calls)
            (accepted-vacant w.shared generation e) i))
]

pub step-Inv : (env : Environment) (w : World) (s : Step) → WorldInv w → WorldInv (step env w s)
unfolding step media_after tear_down
step-Inv env w (controlling operation) i = transmit-Inv env operation w i
step-Inv env w (configuring generation) i = configure_media-Inv env generation w i
step-Inv env w (starting generation) i =
    ask_matching-Inv env "start" generation (start generation) w refl (λ _ e. e) (λ _ _. refl) i
step-Inv env w (resuming generation) i =
    ask_matching-Inv env "resume" generation (resume generation) w refl (λ _ e. e) (λ _ _. refl) i
step-Inv env w (suspending generation reason) i =
    ask_matching-Inv env "suspend" generation (suspend generation reason) w refl (λ _ e. e)
      (λ _ _. refl) i
step-Inv env w (stopping generation reason) i = stop_media_generation-Inv env generation reason w i
step-Inv env w (installing generation) i = offer-Inv generation w i
step-Inv env w vacating i = vacate-Inv w i
step-Inv env w closing i = close-Inv w i
step-Inv env w (ending port reason) i = elim (Bool-cases (contains port w.tearing_down)) [
  | inr absent ↦ rw absent i
  | inl leaving ↦
      rw leaving (
        torn_down-Inv w.shared.current w.tearing_down w.next_session port w.calls reason _ leaving
          i)
]

run-Inv :
    (env : Environment) (w : World) (steps : List Step) → WorldInv w → WorldInv (run env w steps)
unfolding run
run-Inv env w [] i = i
run-Inv env w (s ∷ rest) i = run-Inv env (step env w s) rest (step-Inv env w s i)

pub replaceable_device_session-Inv :
    (generation : ℕ) → WorldInv (replaceable_device_session generation)
unfolding IsDisciplined is_stopped media_in
replaceable_device_session-Inv generation = record {
  disciplined = tt;
  installed = (omega arith, refl, refl, refl);
  leaving_made = tt;
  leaving_live = tt;
  unmade = λ p h. (refl, refl);
}

-- In every interleaving of the operations, whatever the ports answer: no port is called again after
-- its teardown, so that none is torn down twice, and media is configured only on a port that has
-- none and started, suspended, resumed or stopped only for the generation that the port has.
pub run-IsDisciplined :
    (env : Environment) (generation : ℕ) (steps : List Step)
    → IsDisciplined (run env (replaceable_device_session generation) steps).calls
run-IsDisciplined env generation steps =
    (run-Inv env (replaceable_device_session generation) steps
      (replaceable_device_session-Inv generation)).disciplined
