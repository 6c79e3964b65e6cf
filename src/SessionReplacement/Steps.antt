-- ===== src/SessionReplacement/Steps.antt =====
-- The operations on the slot of crates/pronk/src/replaceable_device_session.rs as steps that interleave.
use pronk.Common.{ℕ, List, [], ◌∷◌, if◌then◌else◌}
use pronk.SessionReplacement.Values.{
  DeviceMediaSuspendReason, DeviceMediaStopReason, DeviceSessionStopReason, DeviceControlOperation,
  Environment, World,
}
use pronk.SessionReplacement.{
  contains, transmit, configure_media, start_media, suspend_media, resume_media,
  stop_media_generation, tear_down, vacate, close, offer,
}

-- What can happen between two sections: a whole operation of the media driver's port or of the
-- control facade, or one part of an operation that tears a session down after its section.
pub data Step : Type 0 where
  controlling : DeviceControlOperation → Step
  configuring starting resuming installing : ℕ → Step
  suspending : ℕ → DeviceMediaSuspendReason → Step
  stopping : ℕ → DeviceMediaStopReason → Step
  vacating closing : Step
  ending : ℕ → DeviceSessionStopReason → Step

module _ (env : Environment) where
  unfoldable pub step : World → Step → World
  step w (controlling operation) = (transmit env operation w).0
  step w (configuring generation) = (configure_media env generation w).0
  step w (starting generation) = (start_media env generation w).0
  step w (resuming generation) = (resume_media env generation w).0
  step w (suspending generation reason) = (suspend_media env generation reason w).0
  step w (stopping generation reason) = (stop_media_generation env generation reason w).0
  step w (installing generation) = (offer generation w).0
  step w vacating = (vacate w).0
  step w closing = (close w).0
  step w (ending port reason) =
      if contains port w.tearing_down then (tear_down env port reason w).0 else w

  unfoldable pub run : World → List Step → World
  run w [] = w
  run w (s ∷ rest) = run (step w s) rest
