-- ===== src/DisplaySlot/History.antt =====
-- What the actor of crates/pronk/src/cast_display_slot.rs has published.
use pronk.Common.{
  ℕ, ◌≤◌, ◌≡◌, Bool, true, false, Option, none, some, List, [], ◌∷◌, eqb, if◌then◌else◌, u64_max,
  checked_add, Bytes, codes, Result, ok, err, arith, refl, Bool-cases, Option-cases, inl, inr, All,
}
use pronk.DisplayState.{
  detached, unknown, DisplayRuntimeState, DisplayTopology, MediaState, observe_topology,
}
use pronk.DisplayState.Frames.{observe_media-revision, observe_topology-revision}
use pronk.DisplaySlot.Values.{
  DeviceInfo, Device-discrete, KernelDisplayEvent, changed, revoked, media_failed,
  AddedCastDisplaySnapshot, DeviceSessionAction, cancel, recover, published, replied,
  cancelled_phase, requested_recovery, reported_failure, shut_down_recovery, shut_down_media,
  detached_kernel, released_output, removal_replied, terminal_failure, Effects, SlotActor,
  SlotInput, update_device, remove, commands_closed, media_closed, recovery_stopped, policy_stopped,
  kernel_event, kernel_failed, policy_exhausted, recovery_ready, recovery_failed, transport_failed,
  media_changed, Environment,
}
use pronk.DisplaySlot.{
  is_available, observe_device, fail_request, session_failed, with_runtime, with_device,
  failed_media, kernel_snapshot, emit, publish, publish_media_failure,
}
use pronk.DisplaySlot.Loop.{
  Round, advanced, request_recovery, after_request, act, take_device, update_observed,
  handle_device, handle_kernel, handle_kernel_failure, handle_ready, handle_recovery_failure,
  after_transport, recover_transport, handle_transport_failure, handle_media, handle_input,
  next_round, run_loop,
}

-- The effects of the loop, the newest first: every published snapshot has the revision of its runtime
-- state, no lower than that of the one before and at most `top`; and none is a part of a teardown.
abbrev pub IsHistory : ℕ → Effects → Type 0
IsHistory top [] = Unit
IsHistory top (published s ∷ rest) =
    (s.state_revision ≤ top)
    × (s.state_revision ≡ s.runtime.revision)
    × IsHistory s.state_revision rest
IsHistory top (replied b ∷ rest) = IsHistory top rest
IsHistory top (cancelled_phase ∷ rest) = IsHistory top rest
IsHistory top (requested_recovery generation device ∷ rest) = IsHistory top rest
IsHistory top (reported_failure error ∷ rest) = IsHistory top rest
IsHistory top (shut_down_recovery ∷ rest) = ⊥
IsHistory top (shut_down_media reason ∷ rest) = ⊥
IsHistory top (detached_kernel ∷ rest) = ⊥
IsHistory top (released_output ∷ rest) = ⊥
IsHistory top (removal_replied result ∷ rest) = ⊥
IsHistory top (terminal_failure error cleanup ∷ rest) = ⊥

later-IsHistory :
    (low high : ℕ) (effects : Effects) → low ≤ high → IsHistory low effects → IsHistory high effects
later-IsHistory low high [] l h = tt
later-IsHistory low high (published s ∷ rest) l h = (omega (arith, l, h.0), h.1, h.2)
later-IsHistory low high (replied b ∷ rest) l h = later-IsHistory low high rest l h
later-IsHistory low high (cancelled_phase ∷ rest) l h = later-IsHistory low high rest l h
later-IsHistory low high (requested_recovery generation device ∷ rest) l h =
    later-IsHistory low high rest l h
later-IsHistory low high (reported_failure error ∷ rest) l h = later-IsHistory low high rest l h
later-IsHistory low high (shut_down_recovery ∷ rest) l h = absurd h
later-IsHistory low high (shut_down_media reason ∷ rest) l h = absurd h
later-IsHistory low high (detached_kernel ∷ rest) l h = absurd h
later-IsHistory low high (released_output ∷ rest) l h = absurd h
later-IsHistory low high (removal_replied result ∷ rest) l h = absurd h
later-IsHistory low high (terminal_failure error cleanup ∷ rest) l h = absurd h

-- A snapshot with the revision of its runtime state, a u64, and the history behind it.
pub record IsRevised (snapshot : AddedCastDisplaySnapshot) (effects : Effects) : Type 0 where
  pub history : IsHistory snapshot.state_revision effects
  pub same : snapshot.state_revision ≡ snapshot.runtime.revision
  pub fits : snapshot.runtime.revision ≤ u64_max

abbrev pub Revised : SlotActor → Type 0
Revised a = IsRevised a.snapshot a.effects

-- A snapshot may follow another if its revision is its own and does not fall.
abbrev Follows : AddedCastDisplaySnapshot → AddedCastDisplaySnapshot → Type 0
Follows before after =
    (before.runtime.revision ≤ after.runtime.revision)
    × (after.runtime.revision ≤ u64_max)
    × (after.state_revision ≡ after.runtime.revision)

publish-Revised :
    (snapshot : AddedCastDisplaySnapshot) (a : SlotActor)
    → Revised a
    → Follows a.snapshot snapshot
    → Revised (publish snapshot a)
publish-Revised snapshot a i f = record {
  history = (
    omega arith,
    f.2,
    later-IsHistory a.snapshot.state_revision snapshot.state_revision a.effects
        (omega (arith, i.same, f)) i.history,
  );
  same = f.2;
  fits = f.1;
}

failed_media-Follows :
    (snapshot : AddedCastDisplaySnapshot) (runtime : DisplayRuntimeState) (diagnostic : Bytes)
    → snapshot.runtime.revision ≤ runtime.revision
    → runtime.revision ≤ u64_max
    → Follows snapshot (with_runtime snapshot (failed_media runtime diagnostic))
failed_media-Follows snapshot runtime diagnostic low fits =
    let step =
      observe_media-revision runtime runtime.media_generation MediaState.failed (some diagnostic)
        fits in
    (omega (arith, low, step), omega (arith, step), refl)

kernel_snapshot-Follows :
    (snapshot : AddedCastDisplaySnapshot) (event : KernelDisplayEvent)
    → snapshot.runtime.revision ≤ u64_max
    → Follows snapshot (kernel_snapshot snapshot event)
unfolding kernel_snapshot
kernel_snapshot-Follows snapshot (changed observation) fits =
    let step = observe_topology-revision snapshot.runtime observation.topology fits in
    ground (arith, step)
kernel_snapshot-Follows snapshot revoked fits =
    let topology : DisplayTopology = record { attachment = detached; route = none } in
    let step = observe_topology-revision snapshot.runtime topology fits in
    failed_media-Follows snapshot (observe_topology snapshot.runtime topology).0
      (codes "CastKMS grant was revoked") step.0 step.1
kernel_snapshot-Follows snapshot (media_failed error) fits =
    failed_media-Follows snapshot snapshot.runtime error (omega arith) fits

-- More effects that publish nothing.
also :
    (snapshot : AddedCastDisplaySnapshot) (before after : Effects)
    → (IsHistory snapshot.state_revision before → IsHistory snapshot.state_revision after)
    → IsRevised snapshot before
    → IsRevised snapshot after
also snapshot before after f i = record { history = f i.history; same = i.same; fits = i.fits }

-- The numbers of an input are u64.
abbrev pub Fits : SlotInput → Type 0
Fits (update_device device) = device.device_revision ≤ u64_max
Fits other = Unit

abbrev pub RoundRevised : Round → Type 0
RoundRevised r = Revised r.0

request_recovery-Revised :
    (env : Environment) (device : DeviceInfo) (k : SlotActor × Result Bytes ℕ → Round)
    (a : SlotActor)
    → ((generation : ℕ)
        → RoundRevised (
            k (emit (requested_recovery generation device) (advanced a generation), ok generation)))
    → ((generation : ℕ) (error : Bytes) → RoundRevised (k (advanced a generation, err error)))
    → RoundRevised (k (request_recovery env device a))
unfolding request_recovery
request_recovery-Revised env device k a accepts refuses =
    elim (Option-cases (checked_add a.request_generation 1)) [
      | inl spent ↦ rw (request_recovery, spent) (refuses a.request_generation _)
      | inr (generation, e) ↦ elim (Bool-cases (env.accepts_request a.effects)) [
        | inr refused ↦ rw (request_recovery, e, refused) (refuses generation _)
        | inl accepted ↦ rw (request_recovery, e, accepted) (accepts generation)
      ]
    ]

publish_media_failure-Revised :
    (diagnostic : Bytes) (a : SlotActor) → Revised a → Revised (publish_media_failure diagnostic a)
publish_media_failure-Revised diagnostic a i =
    publish-Revised _ a i
      (failed_media-Follows a.snapshot a.snapshot.runtime diagnostic (omega arith) i.fits)

act-Revised :
    (env : Environment) (action : Option DeviceSessionAction) (a : SlotActor)
    → Revised a
    → RoundRevised (act env action a)
act-Revised env none a i = i
act-Revised env (some cancel) a i =
    also a.snapshot a.effects (cancelled_phase ∷ a.effects) (λ h. h) i
act-Revised env (some (recover device)) a i =
    request_recovery-Revised env device (after_request device) a
      (λ generation.
        also a.snapshot a.effects (requested_recovery generation device ∷ a.effects) (λ h. h) i)
      (λ generation error. publish_media_failure-Revised _ (advanced a generation) i)

take_device-Revised :
    (device : DeviceInfo) (a : SlotActor)
    → device.device_revision ≤ u64_max
    → Revised a
    → Revised (take_device device a).0
take_device-Revised device a small i =
    elim (Bool-cases (eqb Device-discrete a.snapshot.device device)) [
      | inl same ↦ rw same i
      | inr other ↦
          rw other
            (publish-Revised (with_device a.snapshot device) a i (ground (arith, i.fits, small)))
    ]

update_observed-Revised :
    (device_changed : Bool) (action : Option DeviceSessionAction) (a : SlotActor)
    → Revised a
    → Revised (update_observed device_changed action a)
update_observed-Revised true action a i =
    also a.snapshot a.effects (replied true ∷ a.effects) (λ h. h) i
update_observed-Revised false (some action) a i =
    also a.snapshot a.effects (replied false ∷ a.effects) (λ h. h) i
update_observed-Revised false none a i =
    also a.snapshot a.effects (replied false ∷ a.effects) (λ h. h) i

handle_kernel-Revised :
    (event : KernelDisplayEvent) (a : SlotActor) → Revised a → RoundRevised (handle_kernel event a)
unfolding handle_kernel
handle_kernel-Revised (changed observation) a i =
    publish-Revised _ a i (kernel_snapshot-Follows a.snapshot (changed observation) i.fits)
handle_kernel-Revised revoked a i =
    publish-Revised _ a i (kernel_snapshot-Follows a.snapshot revoked i.fits)
handle_kernel-Revised (media_failed error) a i =
    also _ _ (reported_failure error ∷ _) (λ h. h)
      (publish-Revised _ a i (kernel_snapshot-Follows a.snapshot (media_failed error) i.fits))

handle_kernel_failure-Revised :
    (diagnostic : Bytes) (a : SlotActor)
    → Revised a
    → RoundRevised (handle_kernel_failure diagnostic a)
unfolding handle_kernel_failure
handle_kernel_failure-Revised diagnostic a i =
    let topology : DisplayTopology = record { attachment = unknown; route = none } in
    let step = observe_topology-revision a.snapshot.runtime topology i.fits in
    publish-Revised _ a i (
      failed_media-Follows a.snapshot (observe_topology a.snapshot.runtime topology).0 diagnostic
        step.0 step.1)

recover_transport-Revised :
    (env : Environment) (diagnostic : Bytes) (a : SlotActor)
    → Revised a
    → RoundRevised (recover_transport env diagnostic a)
recover_transport-Revised env diagnostic a i = elim (Bool-cases (is_available a.snapshot.device)) [
  | inr away ↦
      rw away (also a.snapshot a.effects (reported_failure diagnostic ∷ a.effects) (λ h. h) i)
  | inl here ↦ rw here (
      request_recovery-Revised env a.snapshot.device (after_transport a.snapshot.device diagnostic)
        a
        (λ generation.
          also a.snapshot a.effects
            (reported_failure diagnostic
              ∷ requested_recovery generation a.snapshot.device
              ∷ a.effects)
            (λ h. h) i)
        (λ _ _. also a.snapshot a.effects (reported_failure diagnostic ∷ a.effects) (λ h. h) i))
]

if-Revised :
    (b : Bool) (r s : Round) → RoundRevised r → RoundRevised s → RoundRevised (if b then r else s)
if-Revised true r s h k = h
if-Revised false r s h k = k

handle_input-Revised :
    (env : Environment) (input : SlotInput) (a : SlotActor)
    → Fits input
    → Revised a
    → RoundRevised (handle_input env input a)
unfolding handle_input handle_device handle_ready handle_recovery_failure handle_transport_failure
    handle_media
handle_input-Revised env (update_device device) a f i =
    let (session, action) = observe_device a.device_session device in
    act-Revised env action _ (
      update_observed-Revised _ action _
        (take_device-Revised device (record a { device_session = session }) f i))
handle_input-Revised env (remove reason) a f i = i
handle_input-Revised env commands_closed a f i = i
handle_input-Revised env (kernel_event event) a f i = handle_kernel-Revised event a i
handle_input-Revised env (kernel_failed diagnostic) a f i =
    handle_kernel_failure-Revised diagnostic a i
handle_input-Revised env (recovery_ready generation device session) a f i = if-Revised _ _ _ i i
handle_input-Revised env (recovery_failed generation device error) a f i =
    if-Revised _ _ _
      (publish_media_failure-Revised _
        (record a { device_session = (fail_request a.device_session generation device).0 }) i)
      i
handle_input-Revised env (transport_failed generation error) a f i =
    if-Revised _ _ _
      (recover_transport-Revised env _ _ (
        publish_media_failure-Revised _
          (record a { device_session = (session_failed a.device_session generation).0 }) i))
      i
handle_input-Revised env recovery_stopped a f i = publish_media_failure-Revised _ a i
handle_input-Revised env (media_changed generation media error) a f i =
    if-Revised _ _ _
      (if-Revised _ _ _
        (publish-Revised _ a i (
          let step = observe_media-revision a.snapshot.runtime generation media error i.fits in
          (step.0, step.1, refl)))
        i)
      i
handle_input-Revised env media_closed a f i = i
handle_input-Revised env (policy_exhausted error) a f i = i
handle_input-Revised env policy_stopped a f i = i

next_round-Revised :
    (rest : SlotActor → Round) (r : Round)
    → ((a : SlotActor) → Revised a → RoundRevised (rest a))
    → RoundRevised r
    → RoundRevised (next_round rest r)
next_round-Revised rest (a, none) k i = k a i
next_round-Revised rest (a, some exit) k i = i

pub run_loop-Revised :
    (env : Environment) (inputs : List SlotInput) (a : SlotActor)
    → All Fits inputs
    → Revised a
    → RoundRevised (run_loop env inputs a)
unfolding run_loop
run_loop-Revised env [] a f i = i
run_loop-Revised env (input ∷ rest) a f i =
    next_round-Revised (run_loop env rest) (handle_input env input a)
      (λ b. run_loop-Revised env rest b f.1) (handle_input-Revised env input a f.0 i)
