-- ===== src/DisplaySlot/Ending.antt =====
-- How the actor of crates/pronk/src/cast_display_slot.rs ends.
use pronk.Common.{
  ℕ, ◌≤◌, ◌≡◌, Option, none, some, List, [], ◌∷◌, ◌++◌, u64_max, Bytes, ok, err, refl, All,
}
use pronk.DisplayState.Frames.{observe_topology-revision, initially_attached-revision}
use pronk.DisplaySlot.Values.{
  DeviceInfo, KernelDisplayObservation, shut_down_recovery, shut_down_media, detached_kernel,
  released_output, removal_replied, terminal_failure, Effects, SlotActor, SlotInput, Exit, removal,
  terminal, closed, Removal, Environment,
}
use pronk.DisplaySlot.{started}
use pronk.DisplaySlot.Loop.{
  Round, run_loop, stop_reason, media_reason, announced, tear_down, finished, run_slot,
}
use pronk.DisplayState.{initially_attached}
use pronk.DisplaySlot.History.{IsHistory, Revised, Fits, run_loop-Revised}

-- What is said at the end: the answer to a removal, or the failure that has ended the loop.
abbrev pub IsSaid : Exit → Effects → Type 0
IsSaid (removal reason) said = (result : Removal) × (said ≡ removal_replied result ∷ [])
IsSaid (terminal error) said =
    (cleanup : Option Bytes) × (said ≡ terminal_failure error cleanup ∷ [])
IsSaid closed said = said ≡ []

-- The end of a display: its parts are torn down in order, each once, and then it is said.
abbrev pub IsEnding : Exit → Effects → Effects → Type 0
IsEnding exit before after =
    (said : Effects) × IsSaid exit said
    × (after
        ≡ said
          ++ (released_output
              ∷ detached_kernel
              ∷ shut_down_media (media_reason (stop_reason exit))
              ∷ shut_down_recovery
              ∷ before))

abbrev pub EndsAs : Round → Round → Type 0
EndsAs (a, none) final = final ≡ (a, none)
EndsAs (a, some exit) final = IsEnding exit a.effects final.0.effects

announced-IsSaid :
    (env : Environment) (exit : Exit) (result : Removal) (a : SlotActor)
    → (said : Effects) × IsSaid exit said
      × ((announced env exit result a).effects ≡ said ++ a.effects)
announced-IsSaid env (removal reason) result a = (removal_replied result ∷ [], (result, refl), refl)
announced-IsSaid env (terminal error) (ok tt) a =
    (terminal_failure error none ∷ [], (none, refl), refl)
announced-IsSaid env (terminal error) (err e) a =
    let cleanup : Option Bytes = some (env.display e.media e.detach) in
    (terminal_failure error cleanup ∷ [], (cleanup, refl), refl)
announced-IsSaid env closed result a = ([], refl, refl)

tear_down-IsEnding :
    (env : Environment) (exit : Exit) (a : SlotActor)
    → IsEnding exit a.effects (tear_down env exit a).effects
unfolding tear_down
tear_down-IsEnding env exit a = announced-IsSaid env exit _ _

finished-EndsAs : (env : Environment) (r : Round) → EndsAs r (finished env r)
finished-EndsAs env (a, none) = refl
finished-EndsAs env (a, some exit) = tear_down-IsEnding env exit a

started-Revised :
    (revision : ℕ) (prepared device : DeviceInfo) (observation : KernelDisplayObservation)
    (session : ℕ)
    → revision ≤ u64_max
    → Revised (started revision prepared device observation session)
started-Revised revision prepared device observation session h = record {
  history = tt;
  same = refl;
  fits =
      (observe_topology-revision (initially_attached revision) observation.topology
        (initially_attached-revision revision h)).1;
}

-- For inputs with u64 revisions, the loop publishes only snapshots with the revision of their runtime
-- state, which never falls, and tears nothing down. When it ends, the recovery, the media, the
-- kernel's display and the output are released in this order, once each, and then a removal is
-- answered or a terminal failure announced, never both; while it waits, nothing is torn down.
pub run_slot-EndsAs :
    (env : Environment) (inputs : List SlotInput) (revision : ℕ) (prepared device : DeviceInfo)
    (observation : KernelDisplayObservation) (session : ℕ)
    → revision ≤ u64_max
    → All Fits inputs
    → let start = started revision prepared device observation session in
      let (last, exit) = run_loop env inputs start in
      IsHistory last.snapshot.state_revision last.effects
      × EndsAs (last, exit) (run_slot env inputs start)
unfolding run_slot
run_slot-EndsAs env inputs revision prepared device observation session h f =
    let start = started revision prepared device observation session in
    (
      (run_loop-Revised env inputs start f
          (started-Revised revision prepared device observation session h)).history,
      finished-EndsAs env (run_loop env inputs start),
    )
