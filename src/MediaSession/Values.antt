-- ===== src/MediaSession/Values.antt =====
-- The values that crates/pronk/src/media_session.rs passes around: routes, requests, reasons, the
-- snapshot and the errors. Texts of errors are bytes; a timeout is a number of nanoseconds.
use pronk.Common.{◌≡◌, refl, ℕ, Option, none, some, Bytes, String, ℕ_discrete, if◌then◌else◌, ◌==◌}
use pronk.DisplayState.{MediaState, RoutedMode, DisplayRuntimeState, RouteState}

pub record MediaRoute : Type 0 where
  pub route_generation : ℕ  -- u64
  pub target : ℕ
  pub mode : RoutedMode

unfoldable pub from_route_state : ℕ → RouteState → Option MediaRoute
from_route_state route_generation RouteState.disabled = none
from_route_state route_generation (RouteState.active route) =
    if route_generation == 0
    then none
    else some
        (record { route_generation = route_generation; target = route.target; mode = route.mode })

-- `MediaRoute::from_display_state`.
unfoldable pub from_display_state : DisplayRuntimeState → Option MediaRoute
unfolding from_route_state
from_display_state s = from_route_state s.route_generation s.route

-- The route of a session is made of the route and of its generation only.
pub from_display_state-route :
    (s t : DisplayRuntimeState)
    → s.route_generation ≡ t.route_generation
    → s.route ≡ t.route
    → from_display_state s ≡ from_display_state t
unfolding from_display_state
from_display_state-route s t g r = rw (g, r) refl

pub record MediaStartRequest : Type 0 where
  pub media_generation : ℕ  -- u64
  pub route : MediaRoute

pub data MediaSuspendReason : Type 0 where
  grant_unavailable device_unavailable session_inactive : MediaSuspendReason

pub data MediaStopReason : Type 0 where
  output_disabled mode_changed display_removed backend_shutdown transport_failure : MediaStopReason

pub record MediaSessionSnapshot : Type 0 where
  pub revision : ℕ  -- u64
  pub media_generation : ℕ  -- u64
  pub state : MediaState
  pub route : Option MediaRoute
  pub last_error : Option Bytes

-- `MediaSessionSnapshot::idle`.
unfoldable pub idle_snapshot : MediaSessionSnapshot
idle_snapshot = record {
  revision = 1;
  media_generation = 0;
  state = MediaState.idle;
  route = none;
  last_error = none;
}

pub data SessionError : Type 0 where
  no_runtime invalid_policy stopped : SessionError
  join : Bytes → SessionError
  invalid_route_generation generation_exhausted control_generation_exhausted : SessionError
  suspend_unavailable retry_unavailable : MediaState → SessionError
  phase_timeout : String → ℕ → SessionError
  driver_failed : String → Bytes → SessionError
  combined_shutdown : Bytes → Bytes → SessionError

unfoldable pub Route-discrete : Discrete (Option MediaRoute)
unfolding ℕ_discrete
Route-discrete = hlevel ℕ_discrete
