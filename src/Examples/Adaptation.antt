-- ===== src/Examples/Adaptation.antt =====
-- Runs of crates/pronk-chromiacast/src/feedback.rs.
use pronk.Common.{
  ℕ, ◌≡◌, ◌≢◌, ◌⊎◌, ◌<◌, refl, true, false, none, some, List, [], ◌∷◌, arith, millis,
}
use pronk.Feedback.Pressure.{VideoTransportPressure, set_bitrate, disable_adaptive_playout_delay}
use pronk.Feedback.Playout.{
  AdaptivePlayoutDelayConfiguration, AdaptivePlayoutDelayController, whole_milliseconds,
}
use pronk.Feedback.Playout
use pronk.Feedback.PlayoutBounds.{Steps, observe-Steps}
use pronk.Feedback.PlayoutBounds
use pronk.Feedback.BitrateBounds.{
  IsBounded, Elapsed, IsOverloaded, MayRecover, observe_pressure_lem,
}
use pronk.Feedback.BitrateBounds
use pronk.Feedback.Pacing.{IsHealthy, Spaced, new-IsHealthy, observe_all, observe_all_lem}
use pronk.Feedback.{VideoSenderFeedbackSnapshot, VideoFeedbackController, new, observe_pressure}

abbrev adaptive : AdaptivePlayoutDelayConfiguration
adaptive = record {
  minimum = millis 66;
  initial = millis 100;
  receiver_maximum = some (millis 400);
}

abbrev controller : VideoFeedbackController
controller = new 5000000 none (some adaptive)

controller-IsHealthy : IsHealthy controller
controller-IsHealthy = new-IsHealthy 5000000 none (some adaptive) (omega arith) (omega arith)

-- A queue that is full and a receiver that loses packets.
abbrev congested : VideoTransportPressure
congested = record {
  in_flight_media_duration = millis 400;
  max_acceptable_in_flight_duration = millis 300;
  current_rtt = some (millis 80);
  receiver_playout_delay = some (millis 100);
  nack_count = 12;
  frames_dropped_or_skipped = 3;
  fraction_lost = some 40;
}

abbrev history : List (VideoSenderFeedbackSnapshot × ℕ)
history =
    (record { key_frame_requests = 1; pressure = some congested }, millis 10)
    ∷ (record { key_frame_requests = 2; pressure = some congested }, millis 200)
    ∷ (record { key_frame_requests = 3; pressure = none }, millis 1800)
    ∷ []

observe_all_lem_example :
    IsHealthy (observe_all controller history).0
    × Spaced controller.last_key_frame_action (observe_all controller history).1
observe_all_lem_example = observe_all_lem controller history controller-IsHealthy

observe_pressure_lem_example :
    let (c', actions) = observe_pressure controller congested (millis 10) in
    let Due = Elapsed controller.last_bitrate_evaluation (millis 10) 1000000000 in
    IsBounded c'
    × (c'.floor ≡ controller.floor)
    × (c'.ceiling ≡ controller.ceiling)
    × (¬ Due → (c' ≡ controller) × (actions ≡ []))
    × (Due
        → IsOverloaded controller congested
        → (c'.current < controller.current)
          ⊎ ((c'.current ≡ controller.current) × (controller.current ≡ controller.floor)))
    × (Due
        → ¬ IsOverloaded controller congested
        → MayRecover controller congested (millis 10)
        → controller.current < c'.current)
    × (Due
        → ¬ IsOverloaded controller congested
        → ¬ MayRecover controller congested (millis 10)
        → c'.current ≡ controller.current)
    × (((c'.current ≡ controller.current) × (actions ≡ []))
        ⊎ ((c'.current ≢ controller.current) × (actions ≡ set_bitrate c'.current ∷ [])))
observe_pressure_lem_example =
    observe_pressure_lem controller congested (millis 10)
      (BitrateBounds.new-IsBounded 5000000 none (some adaptive) (omega arith) (omega arith))

-- A delay that has been sent three times without an answer.
abbrev unanswered : AdaptivePlayoutDelayController
unanswered = record {
  minimum = millis 66;
  maximum = millis 250;
  current = millis 133;
  evaluated_nack_count = 12;
  evaluated_transport_drops = 3;
  step_increase_pending = false;
  confirmed = false;
  stable_since = none;
  last_adjustment = some (millis 1000);
  last_update_sent = some (millis 5000);
  update_attempts = 3;
  updates_enabled = true;
}

unanswered-IsBounded : PlayoutBounds.IsBounded unanswered
unanswered-IsBounded = record { above = omega arith; below = omega arith; attempts = omega arith }

observe-Steps_example :
    Steps unanswered (millis 6000) (Playout.observe unanswered congested (millis 6000))
observe-Steps_example = observe-Steps unanswered congested (millis 6000) unanswered-IsBounded

gives_up :
    (Playout.observe unanswered congested (millis 9000)).1
    ≡ some (disable_adaptive_playout_delay (millis 133) (some (millis 100)))
unfolding Playout.observe Playout.Delay-discrete Playout.await_receiver Playout.note_pressure
gives_up = refl
