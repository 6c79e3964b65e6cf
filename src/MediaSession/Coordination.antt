-- ===== src/MediaSession/Coordination.antt =====
-- `RequestCoordinator` of crates/pronk/src/media_session.rs: requests of any thread against the
-- phase that the actor installs. A request advances the generation and then interrupts the
-- installed phase, in two atomic steps; the actor installs the phase of a queued request under the
-- same mutex as the interruption. The token is its cancellation flag, with the request it is for.
use pronk.Common.{
  ℕ, ◌+◌, ◌≡◌, refl, ◌≢◌, ◌⊎◌, Bool, true, false, Option, none, some, arith, ◌==◌, not, checked_add,
}

pub record RequestCoordinator : Type 0 where
  pub latest_generation : ℕ  -- u64
  pub installed : ℕ
  pub cancelled : Bool

unfoldable pub new : RequestCoordinator
new = record { latest_generation = 0; installed = 0; cancelled = false }

-- `none` is `ControlGenerationExhausted`.
unfoldable pub next_generation : RequestCoordinator → Option (RequestCoordinator × ℕ)
next_generation c = elim (checked_add c.latest_generation 1) [
  | none ↦ none
  | some g ↦ some (record c { latest_generation = g }, g)
]

unfoldable pub interrupt_phase : RequestCoordinator → RequestCoordinator
interrupt_phase c = record c { cancelled = true }

unfoldable pub install_phase : RequestCoordinator → ℕ → RequestCoordinator
install_phase c request_generation = record c {
  installed = request_generation;
  cancelled = not (c.latest_generation == request_generation);
}

-- The coordinator, and how many requests stand between their two steps.
pub record System : Type 0 where
  pub coordinator : RequestCoordinator
  pub in_flight : ℕ

pub data Step (s : System) (t : System) : Type 0 where
  advances :
      (c : RequestCoordinator) (g : ℕ)
      → next_generation s.coordinator ≡ some (c, g)
      → t ≡ record { coordinator = c; in_flight = s.in_flight + 1 }
      → Step s t
  interrupts :
      s.in_flight ≡ t.in_flight + 1 → t.coordinator ≡ interrupt_phase s.coordinator → Step s t
  -- `cancel_phase`, which is no part of a request.
  cancels : t ≡ record s { coordinator = interrupt_phase s.coordinator } → Step s t
  installs : (g : ℕ) → t ≡ record s { coordinator = install_phase s.coordinator g } → Step s t

pub data Reach (s : System) : System → Type 0 where
  here : Reach s s
  next : {t u : System} → Reach s t → Step t u → Reach s u

unfoldable pub start : System
start = record { coordinator = new; in_flight = 0 }

-- A phase that is stale and still runs is about to be interrupted.
abbrev Covered : System → Type 0
Covered s =
    s.coordinator.latest_generation ≢ s.coordinator.installed
    → s.coordinator.cancelled ≡ false
    → s.in_flight ≢ 0

Step-Covered : {s t : System} → Step s t → Covered s → Covered t
unfolding next_generation interrupt_phase install_phase
Step-Covered (advances c g e h) v = ground arith
Step-Covered (interrupts e h) v = ground arith
Step-Covered (cancels h) v = ground arith
Step-Covered (installs g h) v = ground arith

Reach-Covered : {s t : System} → Reach s t → Covered s → Covered t
Reach-Covered here v = v
Reach-Covered (next r st) v = Step-Covered st (Reach-Covered r v)

-- In every interleaving of requests, cancellations and installations, once no request stands
-- between its two steps, the installed phase is cancelled or belongs to the newest request.
pub no_stale_phase :
    (s : System)
    → Reach start s
    → s.in_flight ≡ 0
    → (s.coordinator.cancelled ≡ true) ⊎ (s.coordinator.installed ≡ s.coordinator.latest_generation)
unfolding start new
no_stale_phase s r quiet = ground (arith, Reach-Covered r (λ stale _. absurd (stale refl)))
