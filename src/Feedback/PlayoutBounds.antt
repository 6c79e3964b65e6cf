-- ===== src/Feedback/PlayoutBounds.antt =====
-- The bounds and the pacing of the playout-delay controller of
-- crates/pronk-chromiacast/src/feedback.rs.
use pronk.Common.{
  ℕ, ◌+◌, ◌-◌, ◌%◌, ◌≤◌, ◌<◌, ◌≡◌, ◌≢◌, Bool, true, false, Option, none, some, arith, not, ltb,
  ◌||◌, if◌then◌else◌, u64_max, millis,
}
use pronk.Feedback.Pressure.{
  VideoTransportPressure, set_playout_delay, disable_adaptive_playout_delay, force_key_frame,
  set_bitrate, elapsed_at_least,
}
use pronk.Feedback.Playout.{
  AdaptivePlayoutDelayConfiguration, AdaptivePlayoutDelayController, new, required_for_rtt,
  whole_milliseconds, await_receiver, recover, adjust, confirm, mark_stable, is_lossy,
  note_pressure, observe, playout_delay_step, playout_adjustment_interval, Observed,
}

-- The delay lies in the range of the generation, which holds no more than three sent updates that
-- the receiver has not confirmed.
pub record IsBounded (p : AdaptivePlayoutDelayController) : Type 0 where
  pub above : p.minimum ≤ p.current
  pub below : p.current ≤ p.maximum
  pub attempts : p.update_attempts ≤ 3

-- A time does not run backwards past the last mark, and passes the interval.
abbrev Passed : Option ℕ → ℕ → ℕ → Type 0
Passed mark now interval = (last : ℕ) → mark ≡ some last → last + interval ≤ now

-- What one observation may do to the delay, and what it then says to the receiver.
pub record Steps (p : AdaptivePlayoutDelayController) (now : ℕ) (r : Observed) : Type 0 where
  pub bounded : IsBounded r.0
  pub same_minimum : r.0.minimum ≡ p.minimum
  pub same_maximum : r.0.maximum ≡ p.maximum
  pub sent : (d : ℕ) → r.1 ≡ some (set_playout_delay d) → d ≡ r.0.current
  pub silent : r.1 ≡ none → r.0.current ≡ p.current
  pub paced :
      p.current < r.0.current
      → elapsed_at_least p.last_adjustment now playout_adjustment_interval ≡ true
  pub lowered : p.current ≤ r.0.current + playout_delay_step
  pub no_bitrate : (b : ℕ) → r.1 ≢ some (set_bitrate b)
  pub no_key_frame : r.1 ≢ some force_key_frame
  pub disabled :
      (d : ℕ) (receiver : Option ℕ)
      → r.1 ≡ some (disable_adaptive_playout_delay d receiver)
      → r.0.updates_enabled ≡ false

-- The same delay, range and pacing marks.
record SameDelay (p q : AdaptivePlayoutDelayController) : Type 0 where
  minimum : q.minimum ≡ p.minimum
  maximum : q.maximum ≡ p.maximum
  current : q.current ≡ p.current
  last_adjustment : q.last_adjustment ≡ p.last_adjustment
  attempts : q.update_attempts ≤ p.update_attempts

required_for_rtt_bounds :
    (p : AdaptivePlayoutDelayController) (pressure : VideoTransportPressure)
    → p.minimum ≤ p.maximum
    → (p.minimum ≤ required_for_rtt p pressure) × (required_for_rtt p pressure ≤ p.maximum)
unfolding required_for_rtt
required_for_rtt_bounds p pressure h = ground arith

pub new-IsBounded : (c : AdaptivePlayoutDelayConfiguration) → IsBounded (new c)
unfolding new
new-IsBounded c = ground arith

await_receiver-Steps :
    (p : AdaptivePlayoutDelayController) (receiver : Option ℕ) (now : ℕ)
    → IsBounded p
    → Steps p now (await_receiver p receiver now)
unfolding await_receiver
await_receiver-Steps p receiver now h = ground arith

recover-Steps :
    (p : AdaptivePlayoutDelayController) (required : ℕ) (lossy : Bool) (now : ℕ)
    → IsBounded p
    → p.minimum ≤ required
    → required ≤ p.maximum
    → Steps p now (recover p required lossy now)
unfolding recover
recover-Steps p required lossy now h low high = ground arith

adjust-Steps :
    (p : AdaptivePlayoutDelayController) (required : ℕ) (lossy : Bool) (now : ℕ)
    → IsBounded p
    → p.minimum ≤ required
    → required ≤ p.maximum
    → Steps p now (adjust p required lossy now)
unfolding adjust
adjust-Steps p required lossy now h low high =
    let q = record p { step_increase_pending = false } in
    ground (
      arith,
      recover-Steps p required lossy now h low high,
      recover-Steps q required lossy now
          (record { above = h.above; below = h.below; attempts = h.attempts }) low high,
    )

noted-SameDelay :
    (p : AdaptivePlayoutDelayController) (pressure : VideoTransportPressure) (step pressed : Bool)
    → SameDelay p (note_pressure p pressure step pressed)
unfolding note_pressure
noted-SameDelay p pressure step pressed = ground arith

marked-SameDelay :
    (p : AdaptivePlayoutDelayController) (pressed : Bool) (now : ℕ)
    → SameDelay p (mark_stable (confirm p) pressed now)
unfolding mark_stable confirm
marked-SameDelay p pressed now = ground arith

SameDelay-IsBounded :
    (p q : AdaptivePlayoutDelayController) → SameDelay p q → IsBounded p → IsBounded q
SameDelay-IsBounded p q e h = omega arith

SameDelay-Steps :
    (p q : AdaptivePlayoutDelayController) (now : ℕ) (r : Observed)
    → SameDelay p q
    → Steps q now r
    → Steps p now r
SameDelay-Steps p q now r e h = ground (arith, e, h)

if-Steps :
    (p : AdaptivePlayoutDelayController) (now : ℕ) (b : Bool) {r s : Observed}
    → Steps p now r
    → Steps p now s
    → Steps p now (if b then r else s)
if-Steps p now true h k = h
if-Steps p now false h k = k

kept-Steps : (p : AdaptivePlayoutDelayController) (now : ℕ) → IsBounded p → Steps p now (p, none)
kept-Steps p now h = ground arith

-- In every observation of a bounded controller, whether its updates are on or off, the delay stays in the
-- range that the generation fixed, with at most three updates counted; a delay that is sent is the
-- new current one, and silence keeps the current one; the delay rises only when the adjustment
-- interval has passed since the last adjustment, and falls by one step at most; no bitrate or
-- key frame is asked for; and giving up leaves the updates off.
pub observe-Steps :
    (p : AdaptivePlayoutDelayController) (pressure : VideoTransportPressure) (now : ℕ)
    → IsBounded p
    → Steps p now (observe p pressure now)
unfolding observe
observe-Steps p pressure now h = if-Steps p now (not p.updates_enabled) (kept-Steps p now h) (
    if-Steps p now _
      (SameDelay-Steps p noted now _ same
        (await_receiver-Steps noted pressure.receiver_playout_delay now bounded))
      (SameDelay-Steps p noted now _ same (
        SameDelay-Steps noted marked now _ same' (
          adjust-Steps marked required (is_lossy pressure) now
            (SameDelay-IsBounded noted marked same' bounded) (omega (arith, range, same, same'))
            (omega (arith, range, same, same'))))))
  where
    step_pressure : Bool
    step_pressure =
        ltb p.evaluated_nack_count pressure.nack_count
        || ltb p.evaluated_transport_drops pressure.frames_dropped_or_skipped

    required : ℕ
    required = required_for_rtt p pressure

    pressed : Bool
    pressed = (step_pressure || ltb p.current required) || is_lossy pressure

    noted : AdaptivePlayoutDelayController
    noted = note_pressure p pressure step_pressure pressed

    marked : AdaptivePlayoutDelayController
    marked = mark_stable (confirm noted) pressed now

    same : SameDelay p noted
    same = noted-SameDelay p pressure step_pressure pressed

    same' : SameDelay noted marked
    same' = marked-SameDelay noted pressed now

    bounded : IsBounded noted
    bounded = SameDelay-IsBounded p noted same h

    range : (p.minimum ≤ required) × (required ≤ p.maximum)
    range = required_for_rtt_bounds p pressure (omega arith)

-- A round trip time is rounded up to the least whole millisecond that covers it, unless it is near
-- the largest number of milliseconds in a u64.
whole_milliseconds_lem :
    (duration : ℕ)
    → duration ≤ millis (u64_max - 1)
    → (duration ≤ whole_milliseconds duration)
      × (whole_milliseconds duration < duration + millis 1)
      × (whole_milliseconds duration % millis 1 ≡ 0)
unfolding whole_milliseconds
whole_milliseconds_lem duration h = ground arith

observe_off :
    (p : AdaptivePlayoutDelayController) (pressure : VideoTransportPressure) (now : ℕ)
    → p.updates_enabled ≡ false
    → observe p pressure now ≡ (p, none)
unfolding observe
observe_off p pressure now e = rw e

-- Once an observation has disabled the adaptation, no later one changes the controller or acts.
observe_disabled :
    (p : AdaptivePlayoutDelayController) (pressure : VideoTransportPressure) (now d : ℕ)
    (receiver : Option ℕ) (pressure' : VideoTransportPressure) (later : ℕ)
    → IsBounded p
    → (observe p pressure now).1 ≡ some (disable_adaptive_playout_delay d receiver)
    → observe (observe p pressure now).0 pressure' later ≡ ((observe p pressure now).0, none)
observe_disabled p pressure now d receiver pressure' later h e =
    observe_off (observe p pressure now).0 pressure' later
      ((observe-Steps p pressure now h).disabled d receiver e)
