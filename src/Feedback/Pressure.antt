-- ===== src/Feedback/Pressure.antt =====
-- The transport pressure of crates/pronk-chromiacast/src/transport.rs, and the actions and the
-- clock test of crates/pronk-chromiacast/src/feedback.rs.
use pronk.Common.{ℕ, ◌-◌, Bool, true, false, ◌&&◌, not, Option, none, some, leb, ◌==◌}

-- The fields that the controller reads. A duration or an instant is a number of nanoseconds.
pub record VideoTransportPressure : Type 0 where
  pub in_flight_media_duration : ℕ
  pub max_acceptable_in_flight_duration : ℕ
  pub current_rtt : Option ℕ
  pub receiver_playout_delay : Option ℕ
  pub nack_count : ℕ  -- u64
  pub frames_dropped_or_skipped : ℕ  -- u64
  pub fraction_lost : Option ℕ  -- u8

pub data VideoFeedbackAction : Type 0 where
  force_key_frame : VideoFeedbackAction
  set_bitrate : ℕ → VideoFeedbackAction
  set_playout_delay : ℕ → VideoFeedbackAction
  disable_adaptive_playout_delay : ℕ → Option ℕ → VideoFeedbackAction

abbrev pub queue_saturated : VideoTransportPressure → Bool
queue_saturated p =
    not (p.max_acceptable_in_flight_duration == 0)
    && leb p.max_acceptable_in_flight_duration p.in_flight_media_duration

abbrev pub loss_recovery_threshold : ℕ
loss_recovery_threshold = 5

-- `fraction_lost.is_some_and(|loss| loss >= threshold)`.
abbrev pub loss_at_least : VideoTransportPressure → ℕ → Bool
loss_at_least p threshold = elim p.fraction_lost [ none ↦ false | some loss ↦ leb threshold loss ]

-- `fraction_lost.is_none_or(|loss| loss <= threshold)`.
abbrev pub loss_at_most : VideoTransportPressure → ℕ → Bool
loss_at_most p threshold = elim p.fraction_lost [ none ↦ true | some loss ↦ leb loss threshold ]

-- `now.checked_duration_since(previous).is_some_and(|elapsed| elapsed >= interval)`.
abbrev pub has_passed : ℕ → ℕ → ℕ → Bool
has_passed previous now interval = leb previous now && leb interval (now - previous)

abbrev pub elapsed_at_least : Option ℕ → ℕ → ℕ → Bool
elapsed_at_least none now interval = true
elapsed_at_least (some previous) now interval = has_passed previous now interval
