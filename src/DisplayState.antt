-- ===== src/DisplayState.antt =====
-- crates/pronk/src/display_state.rs: the state of one cast display and its transition rules. A
-- method that mutates `DisplayRuntimeState` returns the new record, with its result if it has one.
pub mod Revisions
pub mod Frames
use pronk.Common.{
  ℕ, Bool, true, false, ◌&&◌, not, Option, none, some, ltb, eqb, if◌then◌else◌, max, saturating_add,
  ◌==◌, ℕ_discrete, Bytes, Bytes-discrete,
}

pub data AttachmentState : Type 0 where
  attached detached unknown : AttachmentState

pub record RoutedMode : Type 0 where
  pub width : ℕ
  pub height : ℕ
  pub refresh_millihz : ℕ
  pub flags : ℕ

-- `target` is the number of a `RouteTarget`, a `NonZeroU32` that the state carries unchanged.
pub record ActiveRoute : Type 0 where
  pub target : ℕ
  pub mode : RoutedMode

pub record DisplayTopology : Type 0 where
  pub attachment : AttachmentState
  pub route : Option ActiveRoute

pub data RouteState : Type 0 where
  disabled : RouteState
  active : ActiveRoute → RouteState

pub data DisplayGrantState : Type 0 where
  pending active suspended_no_master suspended_other_master : DisplayGrantState
  suspended_foreign_content revoked : DisplayGrantState

pub data MediaState : Type 0 where
  idle starting_capture starting_media running suspended : MediaState
  reconfiguring reconnecting stopping failed : MediaState

unfoldable pub AttachmentState-discrete : Discrete AttachmentState
AttachmentState-discrete = hlevel

unfoldable pub RouteState-discrete : Discrete RouteState
unfolding ℕ_discrete
RouteState-discrete = hlevel ℕ_discrete

unfoldable pub MediaState-discrete : Discrete MediaState
MediaState-discrete = hlevel

unfoldable pub LastError-discrete : Discrete (Option Bytes)
unfolding Bytes-discrete
LastError-discrete = hlevel Bytes-discrete

pub record DisplayRuntimeState : Type 0 where
  pub revision : ℕ  -- u64
  pub route_generation : ℕ  -- u64
  pub attachment : AttachmentState
  pub route : RouteState
  pub media_generation : ℕ  -- u64
  pub media : MediaState
  pub last_error : Option Bytes

pub initially_attached : ℕ → DisplayRuntimeState
initially_attached initial_revision = record {
  revision = max initial_revision 1;
  route_generation = 0;
  attachment = attached;
  route = disabled;
  media_generation = 0;
  media = idle;
  last_error = none;
}

-- `DisplayRuntimeState::advance`.
advance : DisplayRuntimeState → DisplayRuntimeState
advance s = record s { revision = saturating_add s.revision 1 }

-- The route that a topology leaves: a connector that is not attached has none.
abbrev pub routed : DisplayTopology → RouteState
routed t = on t.attachment t.route
  where
    on : AttachmentState → Option ActiveRoute → RouteState
    on attached none = disabled
    on attached (some r) = active r
    on _ _ = disabled

pub observe_topology : DisplayRuntimeState → DisplayTopology → DisplayRuntimeState × Bool
unfolding advance
observe_topology s topology =
    let route = routed topology in
    if eqb AttachmentState-discrete s.attachment topology.attachment
      && eqb RouteState-discrete s.route route
    then (s, false)
    else (
      advance (record s {
        attachment = topology.attachment;
        route_generation =
            if eqb RouteState-discrete s.route route
            then s.route_generation
            else saturating_add s.route_generation 1;
        route = route;
      }),
      true,
    )

pub observe_media : DisplayRuntimeState → ℕ → MediaState → Option Bytes → DisplayRuntimeState × Bool
unfolding advance
observe_media s generation state last_error =
    if s.media_generation == generation
      && eqb MediaState-discrete s.media state
      && eqb LastError-discrete s.last_error last_error
    then (s, false)
    else (
      advance (record s { media_generation = generation; media = state; last_error = last_error }),
      true,
    )

pub advance_to_at_least : DisplayRuntimeState → ℕ → DisplayRuntimeState
advance_to_at_least s revision =
    if ltb s.revision revision then record s { revision = revision } else s
