-- ===== src/MediaPolicy/Decisions.antt =====
-- When crates/pronk/src/media_policy.rs lets media run, and when it has nothing left to decide.
use pronk.Common.{ℕ, ◌≡◌, ◌≢◌, ◌⊎◌, true, false, Option, none, some, arith}
use pronk.DisplayState.{AttachmentState, DisplayGrantState, MediaState}
use pronk.MediaSession.Values.{MediaRoute, MediaSessionSnapshot}
use pronk.MediaPolicy.{MediaPolicyInput, activating, decide}

-- The display is attached and routed there, the device is ready and the grant is active.
pub record MayRun (input : MediaPolicyInput) (route : MediaRoute) : Type 0 where
  pub routed : input.route ≡ some route
  pub attached : input.attachment ≡ AttachmentState.attached
  pub available : input.device_available ≡ true
  pub ready : input.device_session_ready ≡ true
  pub granted : input.grant ≡ DisplayGrantState.active

-- Media is activated only for the route that the display has, while it is attached, its device is
-- available and ready and its grant is active, and not when it already runs for that route.
pub decide_activating :
    (input : MediaPolicyInput) (media : MediaSessionSnapshot) (delay : Option ℕ)
    (route : MediaRoute)
    → decide input media delay ≡ some (activating route)
    → MayRun input route × ((media.state ≡ MediaState.running) → media.route ≢ some route)
unfolding decide
decide_activating input media delay route h = ground arith

-- Nothing is left to decide only in a session that is as the input wants it: running for the route
-- if media may run, not running if the route stands but authority or device are missing, and idle
-- if there is no route or the display is not attached.
decide-none :
    (input : MediaPolicyInput) (media : MediaSessionSnapshot) (delay : Option ℕ)
    → decide input media delay ≡ none
    → ((route : MediaRoute)
        → MayRun input route
        → (media.state ≡ MediaState.running) × (media.route ≡ some route))
      × ((input.attachment ≢ AttachmentState.attached) ⊎ (input.route ≡ none)
          → media.state ≡ MediaState.idle)
      × (((input.device_available ≡ false)
            ⊎ (input.device_session_ready ≡ false)
            ⊎ (input.grant ≢ DisplayGrantState.active))
          → media.state ≢ MediaState.running)
unfolding decide
decide-none input media delay h = (λ route m. ground arith, λ m. ground arith, λ m. ground arith)
