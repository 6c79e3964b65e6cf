-- ===== src/Feedback/Playout.antt =====
-- `AdaptivePlayoutDelayController` of crates/pronk-chromiacast/src/feedback.rs. `observe` mutates
-- the controller in steps with early returns; each part below is a stretch of it.
use pronk.Common.{
  ℕ, ◌+◌, ◌-◌, ◌*◌, ◌/◌, ◌%◌, Bool, true, false, ◌&&◌, ◌||◌, not, Option, none, some, ltb, leb,
  ◌==◌, eqb, if◌then◌else◌, min, max, millis, saturate, duration_max, saturating_add,
  saturating_mul, ℕ_discrete,
}
use pronk.Feedback.Pressure.{
  VideoTransportPressure, VideoFeedbackAction, set_playout_delay, disable_adaptive_playout_delay,
  elapsed_at_least, has_passed, loss_recovery_threshold,
}

abbrev pub playout_delay_step : ℕ
playout_delay_step = millis 33

abbrev pub maximum_playout_delay : ℕ
maximum_playout_delay = millis 250

abbrev pub playout_adjustment_interval : ℕ
playout_adjustment_interval = millis 1000

abbrev pub playout_update_retry_interval : ℕ
playout_update_retry_interval = millis 2000

abbrev pub maximum_playout_update_attempts : ℕ
maximum_playout_update_attempts = 3

abbrev pub playout_recovery_interval : ℕ
playout_recovery_interval = millis 15000

abbrev pub rtt_playout_multiplier : ℕ
rtt_playout_multiplier = 3

pub record AdaptivePlayoutDelayConfiguration : Type 0 where
  pub minimum : ℕ
  pub initial : ℕ
  pub receiver_maximum : Option ℕ

pub record AdaptivePlayoutDelayController : Type 0 where
  pub minimum : ℕ
  pub maximum : ℕ
  pub current : ℕ
  pub evaluated_nack_count : ℕ  -- u64
  pub evaluated_transport_drops : ℕ  -- u64
  pub step_increase_pending : Bool
  pub confirmed : Bool
  pub stable_since : Option ℕ
  pub last_adjustment : Option ℕ
  pub last_update_sent : Option ℕ
  pub update_attempts : ℕ  -- u8
  pub updates_enabled : Bool

abbrev or_else : ℕ → Option ℕ → ℕ
or_else d none = d
or_else d (some n) = n

unfoldable pub new : AdaptivePlayoutDelayConfiguration → AdaptivePlayoutDelayController
new c = record {
  minimum = min c.minimum c.initial;
  maximum =
      max (min (or_else maximum_playout_delay c.receiver_maximum) maximum_playout_delay) c.initial;
  current = c.initial;
  evaluated_nack_count = 0;
  evaluated_transport_drops = 0;
  step_increase_pending = false;
  confirmed = false;
  stable_since = none;
  last_adjustment = none;
  last_update_sent = none;
  update_attempts = 0;
  updates_enabled = true;
}

unfoldable pub Delay-discrete : Discrete (Option ℕ)
unfolding ℕ_discrete
Delay-discrete = hlevel ℕ_discrete

-- A duration rounded up to whole milliseconds, from its seconds and its nanoseconds below one.
unfoldable pub whole_milliseconds : ℕ → ℕ
whole_milliseconds duration =
    let secs = duration / 1000000000 in
    let subsec_nanos = duration % 1000000000 in
    millis (
      saturating_add (saturating_add (saturating_mul secs 1000) (subsec_nanos / 1000000))
        (if subsec_nanos % 1000000 == 0 then 0 else 1))

-- `Ord::clamp`.
abbrev clamp : ℕ → ℕ → ℕ → ℕ
clamp low high n = if ltb n low then low else if ltb high n then high else n

unfoldable pub rtt_delay : ℕ → Option ℕ → ℕ
rtt_delay minimum none = minimum
rtt_delay minimum (some rtt) =
    whole_milliseconds (saturate duration_max (rtt * rtt_playout_multiplier))

unfoldable pub required_for_rtt : AdaptivePlayoutDelayController → VideoTransportPressure → ℕ
required_for_rtt p pressure = clamp p.minimum p.maximum (rtt_delay p.minimum pressure.current_rtt)

abbrev pub Observed : Type 0
Observed = AdaptivePlayoutDelayController × Option VideoFeedbackAction

unfoldable pub set_current : AdaptivePlayoutDelayController → ℕ → ℕ → Observed
set_current p requested now = (
  record p {
    current = requested;
    confirmed = false;
    stable_since = none;
    last_adjustment = some now;
    last_update_sent = some now;
    update_attempts = 1;
  },
  some (set_playout_delay requested),
)

-- An update that the receiver has not taken over yet is sent again, or given up.
resend : AdaptivePlayoutDelayController → Option ℕ → ℕ → Observed
resend p receiver now =
    let p' = record p { last_update_sent = some now } in
    if leb maximum_playout_update_attempts p.update_attempts
    then (
      record p' { updates_enabled = false },
      some (disable_adaptive_playout_delay p.current receiver),
    )
    else (record p' { update_attempts = p.update_attempts + 1 }, some (set_playout_delay p.current))

unfoldable pub await_receiver : AdaptivePlayoutDelayController → Option ℕ → ℕ → Observed
unfolding resend
await_receiver p receiver now =
    let last_update_sent = or_else now p.last_update_sent in
    let p' = record p {
      confirmed = false;
      stable_since = none;
      last_update_sent = some last_update_sent;
    } in
    if has_passed last_update_sent now playout_update_retry_interval
    then resend p' receiver now
    else (p', none)

-- The confirmed controller may lower the delay after a long stable time.
unfoldable pub recover : AdaptivePlayoutDelayController → ℕ → Bool → ℕ → Observed
unfolding set_current
recover p required lossy now =
    if ltb p.minimum p.current
      && not p.step_increase_pending
      && not lossy
      && elapsed_at_least p.stable_since now playout_recovery_interval
    then (let requested = max (max (p.current - playout_delay_step) required) p.minimum in
        if ltb requested p.current then set_current p requested now else (p, none))
    else (p, none)

unfoldable pub adjust : AdaptivePlayoutDelayController → ℕ → Bool → ℕ → Observed
unfolding set_current
adjust p required lossy now =
    if (p.step_increase_pending || ltb p.current required)
      && elapsed_at_least p.last_adjustment now playout_adjustment_interval
    then (let stepped =
          if p.step_increase_pending
          then saturate duration_max (p.current + playout_delay_step)
          else p.current in
        let requested = min (max stepped required) p.maximum in
        let p' = record p { step_increase_pending = false } in
        if ltb p.current requested
        then set_current p' requested now
        else recover p' required lossy now)
    else recover p required lossy now

unfoldable pub confirm : AdaptivePlayoutDelayController → AdaptivePlayoutDelayController
confirm p =
    if p.confirmed
    then p
    else record p { confirmed = true; last_update_sent = none; update_attempts = 0 }

unfoldable pub mark_stable :
    AdaptivePlayoutDelayController → Bool → ℕ → AdaptivePlayoutDelayController
mark_stable p pressed now =
    if pressed then p else record p { stable_since = some (or_else now p.stable_since) }

-- The counters and marks that every observation updates first.
unfoldable pub note_pressure :
    AdaptivePlayoutDelayController
    → VideoTransportPressure
    → Bool
    → Bool
    → AdaptivePlayoutDelayController
note_pressure p pressure step_pressure pressed = record p {
  evaluated_nack_count = pressure.nack_count;
  evaluated_transport_drops = pressure.frames_dropped_or_skipped;
  stable_since = if pressed then none else p.stable_since;
  step_increase_pending = p.step_increase_pending || step_pressure;
}

abbrev pub is_lossy : VideoTransportPressure → Bool
is_lossy pressure = elim pressure.fraction_lost [
  | none ↦ false
  | some loss ↦ ltb loss_recovery_threshold loss
]

unfoldable pub observe : AdaptivePlayoutDelayController → VideoTransportPressure → ℕ → Observed
unfolding confirm mark_stable
observe p pressure now =
    if not p.updates_enabled
    then (p, none)
    else (let step_pressure =
          ltb p.evaluated_nack_count pressure.nack_count
          || ltb p.evaluated_transport_drops pressure.frames_dropped_or_skipped in
        let required = required_for_rtt p pressure in
        let lossy = is_lossy pressure in
        let pressed = (step_pressure || ltb p.current required) || lossy in
        let noted = note_pressure p pressure step_pressure pressed in
        if not (eqb Delay-discrete pressure.receiver_playout_delay (some p.current))
        then await_receiver noted pressure.receiver_playout_delay now
        else adjust (mark_stable (confirm noted) pressed now) required lossy now)
