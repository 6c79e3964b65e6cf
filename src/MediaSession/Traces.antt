-- ===== src/MediaSession/Traces.antt =====
-- The invariant of the media-session actor: how the snapshot of crates/pronk/src/media_session.rs
-- and the driver calls made so far belong together between two commands.
use pronk.Common.{ℕ, ◌+◌, ◌-◌, ◌≤◌, ◌≡◌, ◌≢◌, Option, none, some, [], ◌∷◌, u64_max, arith}
use pronk.DisplayState.{MediaState}
use pronk.MediaSession.Values.{MediaRoute, MediaSessionSnapshot}
use pronk.MediaSession.{
  Calls, start_capture, start_media, suspend_media, stop_media, shutdown_driver, completed, Actor,
}

-- Before generation `g` starts, the generation before it has been stopped with success, by the
-- last call; nothing precedes the first.
abbrev pub StoppedBefore : ℕ → Calls → Type 0
StoppedBefore g [] = g ≡ 1
StoppedBefore g ((stop_media h reason, completed) ∷ earlier) = g ≡ h + 1
StoppedBefore g _ = ⊥

-- The last call captured this generation for this route.
abbrev pub Captured : ℕ → MediaRoute → Calls → Type 0
Captured g route ((start_capture request, completed) ∷ earlier) =
    (request.media_generation ≡ g) × (request.route ≡ route)
Captured g route _ = ⊥

-- The last call started the media of this generation.
abbrev pub Started : ℕ → Option MediaRoute → Calls → Type 0
Started g route ((start_media request, completed) ∷ earlier) =
    (request.media_generation ≡ g) × (some request.route ≡ route)
Started g route _ = ⊥

-- The same, for any route.
abbrev pub Live : ℕ → Calls → Type 0
Live g ((start_media request, completed) ∷ earlier) = request.media_generation ≡ g
Live g _ = ⊥

abbrev pub Suspended : ℕ → Calls → Type 0
Suspended g ((suspend_media h reason, completed) ∷ earlier) = h ≡ g
Suspended g _ = ⊥

-- Every call was made when the driver was ready for it, and each generation starts once, in order:
-- all that started is at most `n`.
abbrev pub Disciplined : ℕ → Calls → Type 0
Disciplined n [] = Unit
Disciplined n ((start_capture request, _) ∷ earlier) =
    let g = request.media_generation in
    (g ≤ n) × (g ≢ 0) × StoppedBefore g earlier × Disciplined (g - 1) earlier
Disciplined n ((start_media request, _) ∷ earlier) =
    Captured request.media_generation request.route earlier × Disciplined n earlier
Disciplined n ((suspend_media g reason, _) ∷ earlier) = Live g earlier × Disciplined n earlier
Disciplined n ((stop_media g reason, _) ∷ earlier) = (g ≢ 0) × (g ≤ n) × Disciplined n earlier
Disciplined n ((shutdown_driver reason, _) ∷ earlier) = ⊥

-- Between two commands the session is idle, running, suspended or failed, the route and the error
-- are those that the state calls for, and the last driver call is the one that led there. Only
-- when the media generations are exhausted can a reconfiguration stay unfinished.
abbrev pub LinkedAt : MediaState → MediaSessionSnapshot → Calls → Type 0
LinkedAt MediaState.idle s calls =
    (s.route ≡ none) × (s.last_error ≡ none) × StoppedBefore (s.media_generation + 1) calls
LinkedAt MediaState.running s calls =
    (s.last_error ≡ none) × (s.media_generation ≢ 0) × Started s.media_generation s.route calls
LinkedAt MediaState.suspended s calls =
    (s.last_error ≡ none)
    × (s.route ≢ none)
    × (s.media_generation ≢ 0)
    × Suspended s.media_generation calls
LinkedAt MediaState.failed s calls = (s.last_error ≢ none) × (s.media_generation ≡ 0 → calls ≡ [])
LinkedAt MediaState.reconfiguring s calls = s.media_generation ≡ u64_max
LinkedAt _ s calls = ⊥

abbrev pub Linked : MediaSessionSnapshot → Calls → Type 0
Linked s calls = LinkedAt s.state s calls

pub record Inv (a : Actor) : Type 0 where
  pub linked : Linked a.snapshot a.calls
  pub disciplined : Disciplined a.snapshot.media_generation a.calls
  pub fits : a.snapshot.media_generation ≤ u64_max

pub Disciplined-mono : (m n : ℕ) (calls : Calls) → m ≤ n → Disciplined m calls → Disciplined n calls
Disciplined-mono m n [] h d = tt
Disciplined-mono m n ((start_capture r, _) ∷ earlier) h d = ground arith
Disciplined-mono m n ((start_media r, _) ∷ earlier) h d = (d.0, Disciplined-mono m n earlier h d.1)
Disciplined-mono m n ((suspend_media g r, _) ∷ earlier) h d =
    (d.0, Disciplined-mono m n earlier h d.1)
Disciplined-mono m n ((stop_media g r, _) ∷ earlier) h d =
    (d.0, omega arith, Disciplined-mono m n earlier h d.2)
Disciplined-mono m n ((shutdown_driver r, _) ∷ earlier) h d = d
