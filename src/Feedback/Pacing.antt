-- ===== src/Feedback/Pacing.antt =====
-- Histories of observations of the controller of crates/pronk-chromiacast/src/feedback.rs: its
-- ranges, and the pace of its key-frame requests.
use pronk.Common.{
  ℕ, ◌≤◌, ◌<◌, ◌≡◌, ◌⊎◌, Bool, true, false, ◌||◌, Option, none, some, List, [], ◌∷◌, ◌++◌, arith,
  u64_max, if◌then◌else◌, inl, inr, refl, subst, sym,
}
use pronk.Feedback.Pressure.{
  VideoTransportPressure, VideoFeedbackAction, force_key_frame, elapsed_at_least,
}
use pronk.Feedback.Playout.{AdaptivePlayoutDelayConfiguration, AdaptivePlayoutDelayController}
use pronk.Feedback.PlayoutBounds
use pronk.Feedback.BitrateBounds
use pronk.Feedback.BitrateBounds.{IsBounded, observe_pressure_lem}
use pronk.Feedback.{
  VideoFeedbackController, VideoSenderFeedbackSnapshot, new, observe_pressure, observe_playout,
  observe_key_frames, observe_feedback, observe, key_frame_request_interval,
}

abbrev IsPlayoutBounded : Option AdaptivePlayoutDelayController → Type 0
IsPlayoutBounded none = Unit
IsPlayoutBounded (some p) = PlayoutBounds.IsBounded p

-- Both parts of the controller are in their ranges.
pub record IsHealthy (c : VideoFeedbackController) : Type 0 where
  pub bitrate : IsBounded c
  pub playout : IsPlayoutBounded c.playout_delay

abbrev pub asks_key_frame : List VideoFeedbackAction → Bool
asks_key_frame [] = false
asks_key_frame (force_key_frame ∷ rest) = true
asks_key_frame (_ ∷ rest) = asks_key_frame rest

observe_playout_lem :
    (o : Option AdaptivePlayoutDelayController) (pressure : VideoTransportPressure) (now : ℕ)
    → IsPlayoutBounded o
    → IsPlayoutBounded (observe_playout o pressure now).0
      × (asks_key_frame (observe_playout o pressure now).1 ≡ false)
unfolding observe_playout
observe_playout_lem none pressure now h = (tt, ground arith)
observe_playout_lem (some p) pressure now h =
    let steps = PlayoutBounds.observe-Steps p pressure now h in
    (steps.bounded, ground (arith, steps.no_key_frame))

observe_pressure-frames :
    (c : VideoFeedbackController) (pressure : VideoTransportPressure) (now : ℕ)
    → ((observe_pressure c pressure now).0.last_key_frame_action ≡ c.last_key_frame_action)
      × ((observe_pressure c pressure now).0.observed_key_frame_requests
          ≡ c.observed_key_frame_requests)
      × ((observe_pressure c pressure now).0.playout_delay ≡ c.playout_delay)
unfolding observe_pressure
observe_pressure-frames c pressure now = ground arith

asks_key_frame-append :
    (xs ys : List VideoFeedbackAction)
    → asks_key_frame (xs ++ ys) ≡ (asks_key_frame xs || asks_key_frame ys)
asks_key_frame-append [] ys = refl
asks_key_frame-append (x ∷ xs) ys = ground (arith, asks_key_frame-append xs ys)

observe_feedback_lem :
    (c : VideoFeedbackController) (pressure : Option VideoTransportPressure) (now : ℕ)
    → IsHealthy c
    → let (c', actions) = observe_feedback c pressure now in
      IsHealthy c'
      × (c'.last_key_frame_action ≡ c.last_key_frame_action)
      × (asks_key_frame actions ≡ false)
unfolding observe_feedback
observe_feedback_lem c none now h = ground arith
observe_feedback_lem c (some pressure) now h =
    let frames = observe_pressure-frames c pressure now in
    let evaluated = observe_pressure_lem c pressure now h.bitrate in
    let b = (observe_pressure c pressure now).0 in
    let play =
      observe_playout_lem b.playout_delay pressure now
        (subst IsPlayoutBounded (sym frames.2) h.playout) in
    let bits = evaluated.0 in
    (
      record {
        bitrate = record {
          positive = bits.positive;
          above = bits.above;
          below = bits.below;
          ceiling_fits = bits.ceiling_fits;
        };
        playout = play.0;
      },
      frames.0,
      ground (
        arith,
        evaluated.7,
        play.1,
        asks_key_frame-append (observe_pressure c pressure now).1
            (observe_playout b.playout_delay pressure now).1,
      ),
    )

-- A history of snapshots with their times, and the times at which it asked for a key frame.
pub observe_all :
    VideoFeedbackController
    → List (VideoSenderFeedbackSnapshot × ℕ)
    → VideoFeedbackController × List ℕ
observe_all c [] = (c, [])
observe_all c ((feedback, now) ∷ later) =
    let (c', actions) = observe c feedback now in
    let (final, times) = observe_all c' later in
    (final, if asks_key_frame actions then now ∷ times else times)

-- Each time is at least the interval after the mark before it.
abbrev pub Spaced : Option ℕ → List ℕ → Type 0
Spaced mark [] = Unit
Spaced mark (now ∷ times) =
    (elapsed_at_least mark now key_frame_request_interval ≡ true) × Spaced (some now) times

observe_key_frames_lem :
    (c : VideoFeedbackController) (requests now : ℕ)
    → IsHealthy c
    → let (c', actions) = observe_key_frames c requests now in
      IsHealthy c'
      × (((actions ≡ []) × (c'.last_key_frame_action ≡ c.last_key_frame_action))
          ⊎ ((actions ≡ force_key_frame ∷ [])
              × (elapsed_at_least c.last_key_frame_action now key_frame_request_interval ≡ true)
              × (c.observed_key_frame_requests < requests)
              × (c'.last_key_frame_action ≡ some now)))
unfolding observe_key_frames
observe_key_frames_lem c requests now h = ground arith

-- One observation keeps the ranges; it asks for a key frame only when one was requested since the
-- last and the interval has passed, and then marks the time.
observe_lem :
    (c : VideoFeedbackController) (feedback : VideoSenderFeedbackSnapshot) (now : ℕ)
    → IsHealthy c
    → let (c', actions) = observe c feedback now in
      IsHealthy c'
      × (((asks_key_frame actions ≡ false) × (c'.last_key_frame_action ≡ c.last_key_frame_action))
          ⊎ ((asks_key_frame actions ≡ true)
              × (elapsed_at_least c.last_key_frame_action now key_frame_request_interval ≡ true)
              × (c.observed_key_frame_requests < feedback.key_frame_requests)
              × (c'.last_key_frame_action ≡ some now)))
unfolding observe
observe_lem c feedback now h =
    let frames = observe_key_frames_lem c feedback.key_frame_requests now h in
    let b = (observe_key_frames c feedback.key_frame_requests now).0 in
    let rest = observe_feedback_lem b feedback.pressure now frames.0 in
    (rest.0, ground (arith, frames.1, rest))

-- A new controller for a bitrate that is a NonZeroU64 is in its ranges.
pub new-IsHealthy :
    (bitrate : ℕ) (minimum : Option ℕ) (playout : Option AdaptivePlayoutDelayConfiguration)
    → 0 < bitrate
    → bitrate ≤ u64_max
    → IsHealthy (new bitrate minimum playout)
unfolding new
new-IsHealthy bitrate minimum none h k = record {
  bitrate = BitrateBounds.new-IsBounded bitrate minimum none h k;
  playout = tt;
}
new-IsHealthy bitrate minimum (some c) h k = record {
  bitrate = BitrateBounds.new-IsBounded bitrate minimum (some c) h k;
  playout = PlayoutBounds.new-IsBounded c;
}

-- From a controller in its ranges, any history of snapshots leaves both the bitrate and the playout
-- delay in their ranges, and asks for key frames at times that are half a second apart at least,
-- the first of them that long after the last request before.
pub observe_all_lem :
    (c : VideoFeedbackController) (history : List (VideoSenderFeedbackSnapshot × ℕ))
    → IsHealthy c
    → IsHealthy (observe_all c history).0 × Spaced c.last_key_frame_action (observe_all c history).1
unfolding observe_all
observe_all_lem c [] h = (h, tt)
observe_all_lem c ((feedback, now) ∷ later) h =
    let one = observe_lem c feedback now h in
    let c' = (observe c feedback now).0 in
    let rest = observe_all_lem c' later one.0 in
    (
      rest.0,
      elim one.1 [
        | inl (quiet, same) ↦ rw quiet (subst (λ m. Spaced m (observe_all c' later).1) same rest.1)
        | inr (asks, passed, new_request, mark) ↦
            rw asks (passed, subst (λ m. Spaced m (observe_all c' later).1) mark rest.1)
      ],
    )
