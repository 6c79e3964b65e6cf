-- ===== src/DisplaySlot/Informed.antt =====
-- What the media policy of crates/pronk/src/cast_display_slot.rs knows between the rounds of the loop.
use pronk.Common.{ℕ, ◌≡◌, ◌≢◌, ◌⊎◌, ◌↔◌, true, Option, none, some, List, arith, refl, sym, subst}
use pronk.Protocol.{available}
use pronk.DisplayState.{RouteState}
use pronk.MediaSession.Values.{MediaRoute, from_display_state, from_route_state}
use pronk.MediaPolicy.{MediaPolicyInput}
use pronk.DisplaySlot.Values.{
  DeviceInfo, Availability-discrete, KernelDisplayObservation, AddedCastDisplaySnapshot,
  DeviceSessionPolicyState, SlotActor, SlotInput, Environment,
}
use pronk.DisplaySlot.{media_policy_input, started}
use pronk.DisplaySlot.Loop.{Round, run_loop}
use pronk.DisplaySlot.Consistency.{IsSettled, IsConsistent, RoundInv}
use pronk.DisplaySlot.Rounds.{run_loop-RoundInv}

-- The media route of a route of the display: its target and its mode, under the generation that the
-- route has, if this is one.
abbrev pub RouteAs : ℕ → RouteState → Option MediaRoute → Type 0
RouteAs generation RouteState.disabled route = route ≡ none
RouteAs generation (RouteState.active r) route =
    ((generation ≡ 0) × (route ≡ none))
    ⊎ ((generation ≢ 0)
        × (route
            ≡ some (record { route_generation = generation; target = r.target; mode = r.mode })))

-- The input describes the display and the session as they are.
pub record IsInformed (input : MediaPolicyInput) (snapshot : AddedCastDisplaySnapshot)
    (session : DeviceSessionPolicyState) : Type 0 where
  pub attachment : input.attachment ≡ snapshot.runtime.attachment
  pub grant : input.grant ≡ snapshot.grant_state
  pub reachable :
      (input.device_available ≡ true)
      ↔ ((session.ready ≡ true) ⊎ (snapshot.device.availability ≡ available))
  pub ready : input.device_session_ready ≡ session.ready
  pub generation : input.device_session_generation ≡ session.session_generation
  pub route : RouteAs snapshot.runtime.route_generation snapshot.runtime.route input.route

-- A state of the loop that goes on, and one at its end.
abbrev pub RoundInformed : Round → Type 0
RoundInformed (a, none) =
    IsInformed a.policy_input a.snapshot a.device_session
    × (a.snapshot.state_revision ≡ a.snapshot.runtime.revision)
    × IsSettled a.device_session a.request_generation
RoundInformed (a, some exit) = a.snapshot.state_revision ≡ a.snapshot.runtime.revision

from_route_state-RouteAs :
    (generation : ℕ) (route : RouteState)
    → RouteAs generation route (from_route_state generation route)
unfolding from_route_state
from_route_state-RouteAs generation RouteState.disabled = refl
from_route_state-RouteAs generation (RouteState.active r) = ground arith

media_policy_input-IsInformed :
    (snapshot : AddedCastDisplaySnapshot) (session : DeviceSessionPolicyState)
    → IsInformed (media_policy_input snapshot session) snapshot session
unfolding from_display_state Availability-discrete
media_policy_input-IsInformed snapshot session = record {
  attachment = refl;
  grant = refl;
  reachable = ground arith;
  ready = refl;
  generation = refl;
  route = from_route_state-RouteAs snapshot.runtime.route_generation snapshot.runtime.route;
}

IsConsistent-IsInformed :
    (a : SlotActor) → IsConsistent a → IsInformed a.policy_input a.snapshot a.device_session
IsConsistent-IsInformed a i =
    subst (λ input. IsInformed input a.snapshot a.device_session) (sym i.told)
      (media_policy_input-IsInformed a.snapshot a.device_session)

RoundInv-RoundInformed : (r : Round) → RoundInv r → RoundInformed r
RoundInv-RoundInformed (a, none) i = (IsConsistent-IsInformed a i, i.revised, i.settled)
RoundInv-RoundInformed (a, some exit) i = i

-- After any inputs, as long as the loop goes on, the media policy has been told of the attachment and
-- the grant as they are, of the readiness and the generation of the session as they are, that the
-- device is available exactly if the session is ready or its discovery says so, and of the route by
-- its target, its mode and its generation (none where there is no route or the generation is zero);
-- the snapshot has the revision of its runtime state, also when the loop ends; a session that is
-- ready has no pending request, and a pending request is the latest.
pub run_loop-RoundInformed :
    (env : Environment) (inputs : List SlotInput) (revision : ℕ) (prepared device : DeviceInfo)
    (observation : KernelDisplayObservation) (session : ℕ)
    → RoundInformed (run_loop env inputs (started revision prepared device observation session))
run_loop-RoundInformed env inputs revision prepared device observation session =
    let start = started revision prepared device observation session in
    RoundInv-RoundInformed (run_loop env inputs start)
      (run_loop-RoundInv env inputs revision prepared device observation session)
