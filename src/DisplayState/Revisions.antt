-- ===== src/DisplayState/Revisions.antt =====
-- What the observations of crates/pronk/src/display_state.rs change, and how revisions count them.
use pronk.Common.{
  ℕ, suc, ◌≤◌, ◌<◌, ◌≡◌, ◌≢◌, ◌↔◌, Bool, false, List, [], ◌∷◌, Option, none, some, ◌⊎◌, arith,
  u64_max, Bytes, saturating_add, if◌then◌else◌,
}
use pronk.DisplayState.{
  DisplayRuntimeState, DisplayTopology, MediaState, RouteState, attached, active, disabled,
  initially_attached, routed, observe_topology, observe_media,
}

-- A connector that is not attached has no active route; revisions start at 1 and fit a u64.
pub record IsValid (s : DisplayRuntimeState) : Type 0 where
  pub detached_disabled : s.attachment ≢ attached → s.route ≡ disabled
  pub revised : 1 ≤ s.revision
  pub revision_fits : s.revision ≤ u64_max
  pub generation_fits : s.route_generation ≤ u64_max

-- One call of the state's owner.
pub data Observation : Type 0 where
  topology : DisplayTopology → Observation
  media : ℕ → MediaState → Option Bytes → Observation

pub observe : DisplayRuntimeState → Observation → DisplayRuntimeState × Bool
observe s (topology t) = observe_topology s t
observe s (media generation state last_error) = observe_media s generation state last_error

-- A history of observations, with the number of those that reported a change.
pub observe_all : DisplayRuntimeState → List Observation → DisplayRuntimeState × ℕ
unfolding observe
observe_all s [] = (s, 0)
observe_all s (o ∷ os) =
    let (s', changed) = observe s o in
    let (final, changes) = observe_all s' os in (final, if changed then suc changes else changes)

initially_attached-IsValid : (r : ℕ) → r ≤ u64_max → IsValid (initially_attached r)
unfolding initially_attached
initially_attached-IsValid r h = ground arith

observe-IsValid : (s : DisplayRuntimeState) (o : Observation) → IsValid s → IsValid (observe s o).0
unfolding observe observe_topology observe_media
observe-IsValid s (topology t) v = ground arith
observe-IsValid s (media g st e) v = ground arith

observe-revision :
    (s : DisplayRuntimeState) (o : Observation)
    → (observe s o).0.revision
      ≡ (if (observe s o).1 then saturating_add s.revision 1 else s.revision)
unfolding observe observe_topology observe_media
observe-revision s (topology t) = ground arith
observe-revision s (media g st e) = ground arith

observe_all-IsValid :
    (s : DisplayRuntimeState) (os : List Observation) → IsValid s → IsValid (observe_all s os).0
unfolding observe_all
observe_all-IsValid s [] v = v
observe_all-IsValid s (o ∷ os) v = observe_all-IsValid (observe s o).0 os (observe-IsValid s o v)

observe_all_counted :
    (s : DisplayRuntimeState) (os : List Observation)
    → s.revision ≤ u64_max
    → (observe_all s os).0.revision ≡ saturating_add s.revision (observe_all s os).1
unfolding observe_all
observe_all_counted s [] h = ground arith
observe_all_counted s (o ∷ os) h =
    ground (arith, observe-revision s o, observe_all_counted (observe s o).0 os)

-- After any history of observations of a fresh display whose first revision is a u64, the state is
-- valid (a connector that is not attached has no active route, and the counters fit their
-- integers), and its revision is the first one plus the number of observations that reported a
-- change, saturated at the largest u64.
pub observe_all-revision :
    (r : ℕ) (os : List Observation)
    → r ≤ u64_max
    → let after = observe_all (initially_attached r) os in
      IsValid after.0 × (after.0.revision ≡ saturating_add (initially_attached r).revision after.1)
observe_all-revision r os h =
    let v = initially_attached-IsValid r h in
    (
      observe_all-IsValid (initially_attached r) os v,
      observe_all_counted (initially_attached r) os v.revision_fits,
    )

-- The route that a topology allows: the one it has, if it has one and is attached.
abbrev pub Allows : DisplayTopology → RouteState → Type 0
Allows t (active r) = (t.attachment ≡ attached) × (t.route ≡ some r)
Allows t disabled = (t.attachment ≢ attached) ⊎ (t.route ≡ none)

routed-Allows : (t : DisplayTopology) → Allows t (routed t)
routed-Allows t = ground arith

-- While the two counters have room, a topology observation leaves the observed attachment, and the
-- observed route if the connector is attached and has one, else no active route; reports no change exactly
-- when the state is as it was; keeps the route generation exactly when it keeps the route; and touches
-- neither the state, the generation nor the error of the media.
pub observe_topology_lem :
    (s : DisplayRuntimeState) (t : DisplayTopology)
    → s.revision < u64_max
    → s.route_generation < u64_max
    → let (s', changed) = observe_topology s t in
      (s'.attachment ≡ t.attachment)
      × Allows t s'.route
      × ((changed ≡ false) ↔ (s' ≡ s))
      × ((s'.route_generation ≡ s.route_generation) ↔ (s'.route ≡ s.route))
      × (s'.media ≡ s.media)
      × (s'.media_generation ≡ s.media_generation)
      × (s'.last_error ≡ s.last_error)
unfolding observe_topology
observe_topology_lem s t h k = ground (arith, routed-Allows t)
