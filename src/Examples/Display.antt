-- ===== src/Examples/Display.antt =====
-- Runs of crates/pronk/src/display_state.rs and of the cuts of diagnostics.
use pronk.Common.{List, [], ◌∷◌, ◌≡◌, ◌↔◌, arith, false, none, some, Bytes, saturating_add}
use pronk.DisplayState.{
  AttachmentState, attached, detached, MediaState, DisplayTopology, DisplayRuntimeState,
  initially_attached, observe_topology,
}
use pronk.DisplayState.Revisions.{
  Allows, Observation, topology, media, observe_all, IsValid, observe_all-revision,
  observe_topology_lem,
}

abbrev wired : DisplayTopology
wired = record {
  attachment = attached;
  route = some (record {
    target = 4;
    mode = record { width = 1280; height = 720; refresh_millihz = 60000; flags = 0 };
  });
}

abbrev gone : DisplayTopology
gone = record { attachment = detached; route = none }

abbrev history : List Observation
history = topology wired ∷ topology wired ∷ media 1 MediaState.running none ∷ topology gone ∷ []

observe_all-revision_example :
    let after = observe_all (initially_attached 1) history in
    IsValid after.0 × (after.0.revision ≡ saturating_add (initially_attached 1).revision after.1)
observe_all-revision_example = observe_all-revision 1 history (omega arith)

abbrev fresh : DisplayRuntimeState
fresh = record {
  revision = 5;
  route_generation = 2;
  attachment = detached;
  route = pronk.DisplayState.RouteState.disabled;
  media_generation = 0;
  media = MediaState.idle;
  last_error = none;
}

observe_topology_lem_example :
    let (s', changed) = observe_topology fresh wired in
    (s'.attachment ≡ attached)
    × Allows wired s'.route
    × ((changed ≡ false) ↔ (s' ≡ fresh))
    × ((s'.route_generation ≡ 2) ↔ (s'.route ≡ fresh.route))
    × (s'.media ≡ MediaState.idle)
    × (s'.media_generation ≡ 0)
    × (s'.last_error ≡ none)
observe_topology_lem_example = observe_topology_lem fresh wired (omega arith) (omega arith)

-- "née" in UTF-8.
abbrev accented : Bytes
accented = 110 ∷ 195 ∷ 169 ∷ 101 ∷ []
