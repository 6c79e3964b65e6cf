-- ===== src/Examples/Policy.antt =====
-- Runs of crates/pronk/src/media_policy.rs.
use pronk.Common.{◌+◌, u64_max, ◌≡◌, ◌≢◌, ◌≤◌, refl, true, none, some, arith, millis}
use pronk.DisplayState.{
  attached, DisplayGrantState, MediaState, AttachmentState-discrete, MediaState-discrete,
}
use pronk.MediaSession.Values.{MediaSessionSnapshot, idle_snapshot}
use pronk.MediaSession.Shutdown.{spawned, spawned-Inv}
use pronk.MediaPolicy.{
  MediaPolicyInput, MediaRecoveryPolicy, activating, RetryTracker, decide,
  DisplayGrantState-discrete,
}
use pronk.MediaPolicy.Decisions.{MayRun, decide_activating}
use pronk.MediaPolicy.Loop.{PolicyState, run_policy}
use pronk.MediaPolicy.Loop.Ending.{Ended, run_policy-Ended}
use pronk.MediaPolicy.Loop.Measure.{IsRouted}
use pronk.Examples.Session.{a_route, refusing}

abbrev ready : MediaPolicyInput
ready = record {
  attachment = attached;
  grant = DisplayGrantState.active;
  device_available = true;
  device_session_ready = true;
  device_session_generation = 1;
  route = some a_route;
}

abbrev away : MediaPolicyInput
away = record ready { route = none }

abbrev recovery : MediaRecoveryPolicy
recovery = record { maximum_attempts = 3; initial_delay = millis 250; maximum_delay = millis 4000 }

abbrev untried : RetryTracker
untried = record { context = none; attempts = 0 }

abbrev initial : PolicyState
initial = record { retry = untried; media = spawned }

ready-IsRouted : IsRouted ready
ready-IsRouted route e = ground arith

spawned_room : initial.media.snapshot.media_generation + recovery.maximum_attempts + 1 ≤ u64_max
unfolding spawned idle_snapshot
spawned_room = ground arith

-- A receiver that refuses every start: the loop gives up.
run_policy-Ended_example :
    Ended refusing 1000 recovery ready
      (run_policy refusing 1000 recovery (recovery.maximum_attempts + 2) ready initial)
run_policy-Ended_example =
    run_policy-Ended refusing 1000 recovery ready initial (omega arith) ready-IsRouted spawned-Inv
      spawned_room

abbrev resting : MediaSessionSnapshot
resting = record {
  revision = 1;
  media_generation = 0;
  state = MediaState.idle;
  route = none;
  last_error = none;
}

decides_activating : decide ready resting none ≡ some (activating a_route)
unfolding decide AttachmentState-discrete DisplayGrantState-discrete MediaState-discrete
decides_activating = refl

decide_activating_example :
    MayRun ready a_route × ((resting.state ≡ MediaState.running) → resting.route ≢ some a_route)
decide_activating_example = decide_activating ready resting none a_route decides_activating

decides_none : decide away resting none ≡ none
unfolding decide AttachmentState-discrete DisplayGrantState-discrete MediaState-discrete
decides_none = refl
