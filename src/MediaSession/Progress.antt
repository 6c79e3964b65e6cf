-- ===== src/MediaSession/Progress.antt =====
-- What the commands of the media-session actor achieve, and what they leave on an error.
use pronk.Common.{
  ℕ, ◌+◌, ◌≤◌, ◌<◌, ◌≡◌, ◌≢◌, ◌⊎◌, none, some, arith, ok, err, u64_max, Bytes, length,
}
use pronk.DisplayState.{MediaState}
use pronk.MediaSession.Values.{
  MediaRoute, MediaStopReason, MediaSuspendReason, SessionError, suspend_unavailable,
}
use pronk.MediaSession.{
  Calls, Environment, Actor, completed, set_state, run_phase, fail, run_stop, activate, suspend,
  stop_to_idle, start_request,
}

-- Stopping replies with success exactly when the session is idle afterwards, and otherwise leaves
-- it failed with a diagnostic; it keeps no route and the media generation, and makes at most one
-- driver call.
pub stop_to_idle_lem :
    (env : Environment) (t : ℕ) (reason : MediaStopReason) (a : Actor)
    → let (b, reply) = stop_to_idle env t reason a in
      (((reply ≡ ok tt) × (b.snapshot.state ≡ MediaState.idle) × (b.snapshot.last_error ≡ none))
        ⊎ ((reply ≢ ok tt)
            × (b.snapshot.state ≡ MediaState.failed)
            × (b.snapshot.last_error ≢ none)))
      × (b.snapshot.route ≡ none)
      × (b.snapshot.media_generation ≡ a.snapshot.media_generation)
      × (length b.calls ≤ length a.calls + 1)
unfolding stop_to_idle fail run_stop run_phase set_state
stop_to_idle_lem env t reason a = ground arith

-- A suspension from a state that is neither running nor suspended is refused and changes nothing,
-- as a suspension of a suspended session does; from a running session it suspends for the same
-- route and generation or leaves the session failed, by one driver call for its generation.
pub suspend_lem :
    (env : Environment) (t : ℕ) (reason : MediaSuspendReason) (a : Actor)
    → let (b, reply) = suspend env t reason a in
      (a.snapshot.state ≢ MediaState.running
        → (b ≡ a)
          × ((a.snapshot.state ≡ MediaState.suspended) × (reply ≡ ok tt)
              ⊎ (reply ≡ err (suspend_unavailable a.snapshot.state))))
      × (a.snapshot.state ≡ MediaState.running
          → (b.snapshot.route ≡ a.snapshot.route)
            × (b.snapshot.media_generation ≡ a.snapshot.media_generation)
            × (length b.calls ≡ length a.calls + 1)
            × (((reply ≡ ok tt) × (b.snapshot.state ≡ MediaState.suspended))
                ⊎ ((reply ≢ ok tt) × (b.snapshot.state ≡ MediaState.failed))))
unfolding suspend fail run_phase set_state
suspend_lem env t reason a = ground arith

-- A driver that completes every phase in time.
abbrev pub completing : (Calls → ℕ) → (SessionError → Bytes) → Environment
completing cleanup_time display = record {
  answer = λ _ _. completed;
  cleanup_time = cleanup_time;
  display = display;
}

-- With a driver that completes every phase, activating a route whose generation is not zero
-- reaches a session that runs for it from every state, while media generations remain.
pub activate_completes :
    (cleanup_time : Calls → ℕ) (display : SessionError → Bytes) (t : ℕ) (route : MediaRoute)
    (a : Actor)
    → route.route_generation ≢ 0
    → a.snapshot.media_generation < u64_max
    → let (b, reply) = activate (completing cleanup_time display) t route a in
      (reply ≡ ok tt) × (b.snapshot.state ≡ MediaState.running) × (b.snapshot.route ≡ some route)
unfolding activate start_request run_stop run_phase set_state
activate_completes cleanup_time display t route a nonzero room = ground arith
