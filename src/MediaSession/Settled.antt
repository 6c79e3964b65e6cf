-- ===== src/MediaSession/Settled.antt =====
-- Every command of the media-session actor keeps the invariant.
use pronk.Common.{
  ℕ, ◌+◌, ◌≤◌, ◌<◌, ◌≡◌, ◌≢◌, ◌⊎◌, none, some, arith, ok, u64_max, refl, ap, Bytes,
  checked_add_room,
}
use pronk.DisplayState.{MediaState}
use pronk.MediaSession.Values.{MediaRoute, MediaStartRequest, MediaStopReason, MediaSuspendReason}
use pronk.MediaSession.Commands.{report_external_failure}
use pronk.MediaSession.Traces.{Inv, StoppedBefore, Disciplined}
use pronk.MediaSession.{
  Environment, Actor, set_state, run_phase, fail, run_stop, rollback_after_start_failure,
  reconfigure, start_request, start, activate, suspend, stop_to_idle,
}

pub stop_to_idle-Inv :
    (env : Environment) (t : ℕ) (reason : MediaStopReason) (a : Actor)
    → Inv a
    → Inv (stop_to_idle env t reason a).0
unfolding stop_to_idle fail run_stop run_phase set_state
stop_to_idle-Inv env t reason a h = ground arith

pub suspend-Inv :
    (env : Environment) (t : ℕ) (reason : MediaSuspendReason) (a : Actor)
    → Inv a
    → Inv (suspend env t reason a).0
unfolding suspend fail run_stop run_phase set_state
suspend-Inv env t reason a h = ground arith

-- A phase of a start that fails, or whose rollback fails, ends in the failed state.
reconfigure-Inv :
    (env : Environment) (t : ℕ) (route : MediaRoute) (a : Actor)
    → Inv a
    → let (b, reply) = reconfigure env t route a in
      (reply ≢ ok tt
        → Inv b
          × (b.snapshot.state ≡ MediaState.failed)
          × (b.snapshot.route ≡ some route)
          × (b.snapshot.media_generation ≡ a.snapshot.media_generation))
      × (reply ≡ ok tt
          → StoppedBefore (b.snapshot.media_generation + 1) b.calls
            × Disciplined b.snapshot.media_generation b.calls
            × (b.snapshot.media_generation ≡ a.snapshot.media_generation)
            × ((b.snapshot.state ≡ MediaState.idle) ⊎ (b.snapshot.state ≡ MediaState.reconfiguring))
            × (b.snapshot.state ≡ MediaState.idle → b ≡ a))
unfolding reconfigure fail run_stop run_phase set_state
reconfigure-Inv env t route a h = ground arith

-- From a stopped generation, a start request ends running or failed, and keeps the discipline.
start_request-Inv :
    (env : Environment) (t : ℕ) (request : MediaStartRequest) (a : Actor)
    → StoppedBefore request.media_generation a.calls
    → request.media_generation ≡ a.snapshot.media_generation + 1
    → request.media_generation ≤ u64_max
    → Disciplined a.snapshot.media_generation a.calls
    → let (b, reply) = start_request env t request a in
      Inv b
      × (b.snapshot.media_generation ≡ request.media_generation)
      × (reply ≡ ok tt
          → (b.snapshot.state ≡ MediaState.running) × (b.snapshot.route ≡ some request.route))
      × (reply ≢ ok tt
          → (b.snapshot.state ≡ MediaState.failed) × (b.snapshot.route ≡ some request.route))
unfolding start_request rollback_after_start_failure run_phase set_state
start_request-Inv env t request a stopped next fits d =
    ground (arith, ap (λ (g : ℕ). Disciplined g a.calls) next)

start-Inv :
    (env : Environment) (t : ℕ) (route : MediaRoute) (a : Actor)
    → StoppedBefore (a.snapshot.media_generation + 1) a.calls
    → Disciplined a.snapshot.media_generation a.calls
    → a.snapshot.media_generation < u64_max
    → let (b, reply) = start env t route a in
      Inv b
      × (b.snapshot.media_generation ≡ a.snapshot.media_generation + 1)
      × (reply ≡ ok tt → (b.snapshot.state ≡ MediaState.running) × (b.snapshot.route ≡ some route))
      × (reply ≢ ok tt → (b.snapshot.state ≡ MediaState.failed) × (b.snapshot.route ≡ some route))
unfolding start
start-Inv env t route a stopped d fits =
    let g : ℕ = a.snapshot.media_generation + 1 in
    let request : MediaStartRequest = record { media_generation = g; route = route } in
    let done = start_request-Inv env t request a stopped refl (omega arith) d in
    rw (checked_add_room fits, start) done

pub activate-Inv :
    (env : Environment) (t : ℕ) (route : MediaRoute) (a : Actor)
    → Inv a
    → Inv (activate env t route a).0
unfolding activate
activate-Inv env t route a h =
    ground
      (arith, reconfigure-Inv env t route a h, start-Inv env t route (reconfigure env t route a).0)

-- From a state with the invariant `Inv`, while media generations remain, activating a route whose generation is not zero ends in one of
-- two ways: the reply is a success and the session runs for that route, with no error kept; or the
-- reply is an error, and the session has failed for that route and keeps a diagnostic. At most one
-- media generation is used up.
pub activate_lem :
    (env : Environment) (t : ℕ) (route : MediaRoute) (a : Actor)
    → Inv a
    → route.route_generation ≢ 0
    → a.snapshot.media_generation < u64_max
    → let (b, reply) = activate env t route a in
      (b.snapshot.route ≡ some route)
      × (b.snapshot.media_generation ≤ a.snapshot.media_generation + 1)
      × (((reply ≡ ok tt)
            × (b.snapshot.state ≡ MediaState.running)
            × (b.snapshot.last_error ≡ none))
          ⊎ ((reply ≢ ok tt)
              × (b.snapshot.state ≡ MediaState.failed)
              × (b.snapshot.last_error ≢ none)))
unfolding activate
activate_lem env t route a h nonzero room =
    ground
      (arith, reconfigure-Inv env t route a h, start-Inv env t route (reconfigure env t route a).0)

pub report_external_failure-Inv :
    (env : Environment) (t : ℕ) (error : Bytes) (a : Actor)
    → Inv a
    → Inv (report_external_failure env t error a).0
unfolding report_external_failure run_stop run_phase set_state
report_external_failure-Inv env t error a h = ground arith
