-- ===== src/Feedback.antt =====
-- crates/pronk-chromiacast/src/feedback.rs: the generation-local controller that turns transport
-- feedback into key-frame requests, bitrates and playout delays. Instants and durations are
-- nanoseconds; a method returns the new controller with its actions.
pub mod Pressure
pub mod Playout
pub mod PlayoutBounds
pub mod BitrateBounds
pub mod Pacing
use pronk.Common.{
  ℕ, ◌*◌, ◌/◌, Bool, true, false, ◌&&◌, ◌||◌, not, Option, none, some, List, [], ◌∷◌, ◌++◌, ltb,
  leb, if◌then◌else◌, min, max, millis, saturate, duration_max, saturating_add, saturating_mul,
}
use Pressure.{
  VideoTransportPressure, VideoFeedbackAction, force_key_frame, set_bitrate, queue_saturated,
  elapsed_at_least, loss_recovery_threshold, loss_at_least, loss_at_most,
}
use Playout.{AdaptivePlayoutDelayConfiguration, AdaptivePlayoutDelayController}
use Playout

abbrev pub default_bitrate_floor : ℕ
default_bitrate_floor = 250000

abbrev pub key_frame_request_interval : ℕ
key_frame_request_interval = millis 500

abbrev pub bitrate_evaluation_interval : ℕ
bitrate_evaluation_interval = millis 1000

abbrev pub bitrate_recovery_interval : ℕ
bitrate_recovery_interval = millis 5000

abbrev pub loss_decrease_threshold : ℕ
loss_decrease_threshold = 26

-- What the controller reads of a `VideoSenderFeedbackSnapshot`.
pub record VideoSenderFeedbackSnapshot : Type 0 where
  pub key_frame_requests : ℕ  -- u64
  pub pressure : Option VideoTransportPressure

pub record VideoFeedbackController : Type 0 where
  pub ceiling : ℕ  -- NonZeroU64
  pub floor : ℕ  -- NonZeroU64
  pub current : ℕ  -- NonZeroU64
  pub observed_key_frame_requests : ℕ  -- u64
  pub evaluated_transport_drops : ℕ  -- u64
  pub last_key_frame_action : Option ℕ
  pub last_bitrate_evaluation : Option ℕ
  pub last_bitrate_change : Option ℕ
  pub playout_delay : Option AdaptivePlayoutDelayController

abbrev or_zero : Option ℕ → ℕ
or_zero none = 0
or_zero (some n) = n

unfoldable pub new_playout :
    Option AdaptivePlayoutDelayConfiguration → Option AdaptivePlayoutDelayController
new_playout none = none
new_playout (some configuration) = some (Playout.new configuration)

-- `VideoFeedbackController::new`. A `NonZero` value is a number, and where the source builds one
-- from zero it would panic: `new-IsBounded` shows that it does not.
unfoldable pub new :
    ℕ → Option ℕ → Option AdaptivePlayoutDelayConfiguration → VideoFeedbackController
unfolding new_playout
new configured_bitrate receiver_minimum playout_delay = record {
  ceiling = configured_bitrate;
  floor = min (max (or_zero receiver_minimum) default_bitrate_floor) configured_bitrate;
  current = configured_bitrate;
  observed_key_frame_requests = 0;
  evaluated_transport_drops = 0;
  last_key_frame_action = none;
  last_bitrate_evaluation = none;
  last_bitrate_change = none;
  playout_delay = new_playout playout_delay;
}

-- `NonZeroU64::new(value).filter(keep)`.
abbrev nonzero_if : Bool → ℕ → Option ℕ
nonzero_if keep value = if ltb 0 value && keep then some value else none

pub decreased_bitrate : VideoFeedbackController → Option ℕ
decreased_bitrate c =
    if leb c.current c.floor
    then none
    else let decreased = max (saturating_mul c.current 4 / 5) c.floor in
      nonzero_if (ltb decreased c.current) decreased

-- `in_flight_media_duration.checked_mul(2).is_some_and(...)`.
abbrev has_headroom : VideoTransportPressure → Bool
has_headroom p =
    leb (p.in_flight_media_duration * 2) duration_max
    && leb (p.in_flight_media_duration * 2) p.max_acceptable_in_flight_duration

pub can_recover : VideoFeedbackController → VideoTransportPressure → ℕ → Bool
can_recover c pressure now =
    ltb c.current c.ceiling
    && elapsed_at_least c.last_bitrate_change now bitrate_recovery_interval
    && not (queue_saturated pressure)
    && has_headroom pressure
    && loss_at_most pressure loss_recovery_threshold

pub increased_bitrate : VideoFeedbackController → Option ℕ
increased_bitrate c =
    let increment = max (c.current / 10) 100000 in
    let increased = min (saturating_add c.current increment) c.ceiling in
    nonzero_if (ltb c.current increased) increased

pub overloaded : VideoFeedbackController → VideoTransportPressure → Bool
overloaded c pressure =
    queue_saturated pressure
    || ltb c.evaluated_transport_drops pressure.frames_dropped_or_skipped
    || loss_at_least pressure loss_decrease_threshold

requested_bitrate : VideoFeedbackController → VideoTransportPressure → ℕ → Option ℕ
requested_bitrate c pressure now =
    if overloaded c pressure
    then decreased_bitrate c
    else if can_recover c pressure now
    then increased_bitrate c
    else none

change_bitrate :
    VideoFeedbackController → Option ℕ → ℕ → VideoFeedbackController × List VideoFeedbackAction
change_bitrate c none now = (c, [])
change_bitrate c (some requested) now =
    (record c { current = requested; last_bitrate_change = some now }, set_bitrate requested ∷ [])

pub observe_pressure :
    VideoFeedbackController
    → VideoTransportPressure
    → ℕ
    → VideoFeedbackController × List VideoFeedbackAction
unfolding requested_bitrate change_bitrate
observe_pressure c pressure now =
    if not (elapsed_at_least c.last_bitrate_evaluation now bitrate_evaluation_interval)
    then (c, [])
    else change_bitrate
        (record c {
          last_bitrate_evaluation = some now;
          evaluated_transport_drops = pressure.frames_dropped_or_skipped;
        })
        (requested_bitrate c pressure now) now

abbrev to_list : Option VideoFeedbackAction → List VideoFeedbackAction
to_list none = []
to_list (some action) = action ∷ []

observe_playout :
    Option AdaptivePlayoutDelayController
    → VideoTransportPressure
    → ℕ
    → Option AdaptivePlayoutDelayController × List VideoFeedbackAction
observe_playout none pressure now = (none, [])
observe_playout (some p) pressure now =
    let (p', action) = Playout.observe p pressure now in (some p', to_list action)

pub observe_key_frames :
    VideoFeedbackController → ℕ → ℕ → VideoFeedbackController × List VideoFeedbackAction
observe_key_frames c requests now =
    if ltb c.observed_key_frame_requests requests
      && elapsed_at_least c.last_key_frame_action now key_frame_request_interval
    then (
      record c { observed_key_frame_requests = requests; last_key_frame_action = some now },
      force_key_frame ∷ [],
    )
    else (c, [])

observe_feedback :
    VideoFeedbackController
    → Option VideoTransportPressure
    → ℕ
    → VideoFeedbackController × List VideoFeedbackAction
unfolding observe_playout
observe_feedback c none now = (c, [])
observe_feedback c (some pressure) now =
    let (c', bitrate) = observe_pressure c pressure now in
    let (delay, playout) = observe_playout c'.playout_delay pressure now in
    (record c' { playout_delay = delay }, bitrate ++ playout)

pub observe :
    VideoFeedbackController
    → VideoSenderFeedbackSnapshot
    → ℕ
    → VideoFeedbackController × List VideoFeedbackAction
unfolding observe_feedback
observe c feedback now =
    let (c', key_frames) = observe_key_frames c feedback.key_frame_requests now in
    let (c'', others) = observe_feedback c' feedback.pressure now in (c'', key_frames ++ others)
