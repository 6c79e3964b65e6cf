-- ===== src/Feedback/BitrateBounds.antt =====
-- The bitrate of the controller of crates/pronk-chromiacast/src/feedback.rs stays in its range, and
-- moves in the direction that the pressure calls for.
use pronk.Common.{
  ℕ, ◌+◌, ◌*◌, ◌≤◌, ◌<◌, ◌≡◌, ◌≢◌, ◌⊎◌, ◌↔◌, Bool, refl, duration_max, true, false, Option, none,
  some, [], ◌∷◌, arith, u64_max, Option-cases, inl, inr,
}
use pronk.Feedback.Pressure.{VideoTransportPressure, set_bitrate, elapsed_at_least}
use pronk.Feedback.Playout.{AdaptivePlayoutDelayConfiguration}
use pronk.Feedback.{
  VideoFeedbackController, new, overloaded, can_recover, decreased_bitrate, increased_bitrate,
  observe_pressure, bitrate_evaluation_interval,
}

pub record IsBounded (c : VideoFeedbackController) : Type 0 where
  pub positive : 0 < c.floor
  pub above : c.floor ≤ c.current
  pub below : c.current ≤ c.ceiling
  pub ceiling_fits : c.ceiling ≤ u64_max

-- A controller for a bitrate that is a NonZeroU64 starts in its range, whatever the receiver asks.
pub new-IsBounded :
    (bitrate : ℕ) (minimum : Option ℕ) (playout : Option AdaptivePlayoutDelayConfiguration)
    → 0 < bitrate
    → bitrate ≤ u64_max
    → IsBounded (new bitrate minimum playout)
unfolding new
new-IsBounded bitrate minimum playout h k = ground arith

decreased_some :
    (c : VideoFeedbackController) (v : ℕ)
    → decreased_bitrate c ≡ some v
    → (c.floor ≤ v) × (v < c.current)
unfolding decreased_bitrate
decreased_some c v e = ground arith

decreased_none :
    (c : VideoFeedbackController) → IsBounded c → decreased_bitrate c ≡ none → c.current ≡ c.floor
unfolding decreased_bitrate
decreased_none c h e = ground arith

increased_some :
    (c : VideoFeedbackController) (v : ℕ)
    → increased_bitrate c ≡ some v
    → (c.current < v) × (v ≤ c.ceiling)
unfolding increased_bitrate
increased_some c v e = ground arith

increased_none :
    (c : VideoFeedbackController) (pressure : VideoTransportPressure) (now : ℕ)
    → IsBounded c
    → can_recover c pressure now ≡ true
    → increased_bitrate c ≢ none
unfolding increased_bitrate can_recover
increased_none c pressure now h e = ground arith

-- The interval has passed since the instant, if there was one.
abbrev pub Elapsed : Option ℕ → ℕ → ℕ → Type 0
Elapsed none now interval = Unit {0}
Elapsed (some previous) now interval = previous + interval ≤ now

-- The queue of frames in flight holds as much media as it may, if it has a limit.
abbrev pub IsSaturated : VideoTransportPressure → Type 0
IsSaturated p =
    (p.max_acceptable_in_flight_duration ≢ 0)
    × (p.max_acceptable_in_flight_duration ≤ p.in_flight_media_duration)

-- The receiver reports a loss of a tenth, of 256 parts.
abbrev pub IsLossy : Option ℕ → Type 0
IsLossy none = ⊥
IsLossy (some loss) = 26 ≤ loss

abbrev pub IsClean : Option ℕ → Type 0
IsClean none = Unit {0}
IsClean (some loss) = loss ≤ 5

abbrev pub IsOverloaded : VideoFeedbackController → VideoTransportPressure → Type 0
IsOverloaded c p =
    IsSaturated p
    ⊎ (c.evaluated_transport_drops < p.frames_dropped_or_skipped)
    ⊎ IsLossy p.fraction_lost

-- Below the ceiling, five seconds after the last change, with at most half of the queue in use and
-- hardly a loss.
pub record MayRecover (c : VideoFeedbackController) (p : VideoTransportPressure) (now : ℕ)
    : Type 0 where
  pub below : c.current < c.ceiling
  pub steady : Elapsed c.last_bitrate_change now 5000000000
  pub unsaturated : ¬ IsSaturated p
  pub fits : p.in_flight_media_duration * 2 ≤ duration_max
  pub half_empty : p.in_flight_media_duration * 2 ≤ p.max_acceptable_in_flight_duration
  pub clean : IsClean p.fraction_lost

elapsed_at_least_lem :
    (o : Option ℕ) (now interval : ℕ)
    → (elapsed_at_least o now interval ≡ true) ↔ Elapsed o now interval
elapsed_at_least_lem none now interval = ground arith
elapsed_at_least_lem (some previous) now interval = ground arith

overloaded-IsOverloaded :
    (c : VideoFeedbackController) (p : VideoTransportPressure)
    → (overloaded c p ≡ true) ↔ IsOverloaded c p
unfolding overloaded
overloaded-IsOverloaded c p = ground arith

can_recover-MayRecover :
    (c : VideoFeedbackController) (p : VideoTransportPressure) (now : ℕ)
    → (can_recover c p now ≡ true) ↔ MayRecover c p now
unfolding can_recover
can_recover-MayRecover c p now = ground arith

observe_pressure-branches :
    (c : VideoFeedbackController) (pressure : VideoTransportPressure) (now : ℕ)
    → IsBounded c
    → let (c', actions) = observe_pressure c pressure now in
      let due = elapsed_at_least c.last_bitrate_evaluation now bitrate_evaluation_interval in
      IsBounded c'
      × (c'.floor ≡ c.floor)
      × (c'.ceiling ≡ c.ceiling)
      × (due ≡ false → (c' ≡ c) × (actions ≡ []))
      × (due ≡ true
          → overloaded c pressure ≡ true
          → (c'.current < c.current) ⊎ ((c'.current ≡ c.current) × (c.current ≡ c.floor)))
      × (due ≡ true
          → overloaded c pressure ≡ false
          → can_recover c pressure now ≡ true
          → c.current < c'.current)
      × (due ≡ true
          → overloaded c pressure ≡ false
          → can_recover c pressure now ≡ false
          → c'.current ≡ c.current)
      × (((c'.current ≡ c.current) × (actions ≡ []))
          ⊎ ((c'.current ≢ c.current) × (actions ≡ set_bitrate c'.current ∷ [])))
unfolding observe_pressure
observe_pressure-branches c pressure now h = elim (Option-cases (decreased_bitrate c)) [
  | inl floored ↦ elim (Option-cases (increased_bitrate c)) [
    | inl topped ↦ ground (arith, decreased_none c h, increased_none c pressure now h)
    | inr (v, raised) ↦ ground (arith, decreased_none c h, increased_some c v)
  ]
  | inr (v, lowered) ↦ elim (Option-cases (increased_bitrate c)) [
    | inl topped ↦ ground (arith, decreased_some c v, increased_none c pressure now h)
    | inr (w, raised) ↦ ground (arith, decreased_some c v, increased_some c w)
  ]
]

-- A test that decides a predicate fails where the predicate does not hold.
unless : {P : Type 0} (b : Bool) → (b ≡ true) ↔ P → ¬ P → b ≡ false
unless true h n = absurd (n (h.0 refl))
unless false h n = refl

-- One evaluation of the pressure keeps the range and the bitrate within it. With an evaluation due,
-- a second after the last, an overloaded transport (its queue full, new drops or a loss of a
-- tenth) lowers the bitrate unless it is at the floor. A transport that is not overloaded never lowers
-- it, and raises it exactly if it is below the ceiling, was not changed for five seconds, and the
-- queue is at most half full with hardly a loss. The action is the new bitrate, and there is none
-- where the bitrate stays; an evaluation that is not due does nothing.
pub observe_pressure_lem :
    (c : VideoFeedbackController) (pressure : VideoTransportPressure) (now : ℕ)
    → IsBounded c
    → let (c', actions) = observe_pressure c pressure now in
      let Due = Elapsed c.last_bitrate_evaluation now 1000000000 in
      IsBounded c'
      × (c'.floor ≡ c.floor)
      × (c'.ceiling ≡ c.ceiling)
      × (¬ Due → (c' ≡ c) × (actions ≡ []))
      × (Due
          → IsOverloaded c pressure
          → (c'.current < c.current) ⊎ ((c'.current ≡ c.current) × (c.current ≡ c.floor)))
      × (Due → ¬ IsOverloaded c pressure → MayRecover c pressure now → c.current < c'.current)
      × (Due → ¬ IsOverloaded c pressure → ¬ MayRecover c pressure now → c'.current ≡ c.current)
      × (((c'.current ≡ c.current) × (actions ≡ []))
          ⊎ ((c'.current ≢ c.current) × (actions ≡ set_bitrate c'.current ∷ [])))
observe_pressure_lem c pressure now h =
    let (bounded, floor, ceiling, early, lower, raise, keep, action) =
      observe_pressure-branches c pressure now h in
    let due = elapsed_at_least_lem c.last_bitrate_evaluation now bitrate_evaluation_interval in
    let over = overloaded-IsOverloaded c pressure in
    let up = can_recover-MayRecover c pressure now in
    (
      bounded,
      floor,
      ceiling,
      (λ d. early (unless _ due d)),
      (λ d o. lower (due.1 d) (over.1 o)),
      (λ d o r. raise (due.1 d) (unless _ over o) (up.1 r)),
      (λ d o r. keep (due.1 d) (unless _ over o) (unless _ up r)),
      action,
    )
