-- ===== src/DisplayState/Frames.antt =====
-- What an observation of crates/pronk/src/display_state.rs leaves as it is.
use pronk.Common.{ℕ, ◌≤◌, ◌≡◌, false, Option, Bytes, arith, u64_max}
use pronk.DisplayState.{
  MediaState, DisplayRuntimeState, DisplayTopology, initially_attached, observe_topology,
  observe_media,
}

-- A media observation keeps the attachment and the route.
pub observe_media-route :
    (s : DisplayRuntimeState) (generation : ℕ) (state : MediaState) (error : Option Bytes)
    → let after = (observe_media s generation state error).0 in
      (after.attachment ≡ s.attachment)
      × (after.route ≡ s.route)
      × (after.route_generation ≡ s.route_generation)
unfolding observe_media
observe_media-route s generation state error = ground arith

-- One that reports no change leaves the state as it is.
pub observe_media-false :
    (s : DisplayRuntimeState) (generation : ℕ) (state : MediaState) (error : Option Bytes)
    → (observe_media s generation state error).1 ≡ false
    → (observe_media s generation state error).0 ≡ s
unfolding observe_media
observe_media-false s generation state error e = ground (arith, e)

-- Revisions do not fall and stay in a u64.
pub observe_media-revision :
    (s : DisplayRuntimeState) (generation : ℕ) (state : MediaState) (error : Option Bytes)
    → s.revision ≤ u64_max
    → let after = (observe_media s generation state error).0 in
      (s.revision ≤ after.revision) × (after.revision ≤ u64_max)
unfolding observe_media
observe_media-revision s generation state error h = ground (arith, h)

pub observe_topology-revision :
    (s : DisplayRuntimeState) (topology : DisplayTopology)
    → s.revision ≤ u64_max
    → let after = (observe_topology s topology).0 in
      (s.revision ≤ after.revision) × (after.revision ≤ u64_max)
unfolding observe_topology
observe_topology-revision s topology h = ground (arith, h)

pub initially_attached-revision : (r : ℕ) → r ≤ u64_max → (initially_attached r).revision ≤ u64_max
unfolding initially_attached
initially_attached-revision r h = ground (arith, h)
