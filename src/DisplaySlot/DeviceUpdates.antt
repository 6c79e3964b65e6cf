-- ===== src/DisplaySlot/DeviceUpdates.antt =====
-- A round of the loop of crates/pronk/src/cast_display_slot.rs that updates the device.
use pronk.Common.{
  ◌≡◌, Bool, true, false, Option, none, some, eqb, arith, refl, sym, ap, ◌∙◌, Bool-cases, inl, inr,
}
use pronk.DisplaySlot.Values.{
  DeviceInfo, Device-discrete, DeviceSessionPolicyState, DeviceSessionAction, cancel, recover,
  cancelled_phase, SlotActor, Environment,
}
use pronk.DisplaySlot.{observe_device, media_policy_input}
use pronk.DisplaySlot.Loop.{after_request, act, take_device, update_observed, handle_device}
use pronk.DisplaySlot.Consistency.{
  IsSettled, IsConsistent, RoundInv, observe_device-IsSettled, request_recovery-Inv,
  begun-IsConsistent, emit-IsConsistent,
}

observe_device-none :
    (s : DeviceSessionPolicyState) (device : DeviceInfo)
    → (observe_device s device).1 ≡ none
    → (observe_device s device).0 ≡ s
unfolding observe_device
observe_device-none s device e = ground (arith, e)

observe_device-recover :
    (s : DeviceSessionPolicyState) (device other : DeviceInfo)
    → (observe_device s device).1 ≡ some (recover other)
    → (observe_device s device).0.ready ≡ false
unfolding observe_device
observe_device-recover s device other e = ground (arith, e)

act-Inv :
    (env : Environment) (action : Option DeviceSessionAction) (a : SlotActor)
    → IsConsistent a
    → ((device : DeviceInfo) → action ≡ some (recover device) → a.device_session.ready ≡ false)
    → RoundInv (act env action a)
act-Inv env none a i h = i
act-Inv env (some cancel) a i h = emit-IsConsistent cancelled_phase a i
act-Inv env (some (recover device)) a i h =
    request_recovery-Inv env device (after_request device) a
      (λ generation. begun-IsConsistent device generation a i.told i.revised (h device refl))
      (λ _ _. refl)

-- What the policy has not been told after an update is what it had been told before.
update_observed-IsConsistent :
    (device_changed : Bool) (action : Option DeviceSessionAction) (a : SlotActor)
    → a.snapshot.state_revision ≡ a.snapshot.runtime.revision
    → IsSettled a.device_session a.request_generation
    → (device_changed ≡ false
        → action ≡ none
        → a.policy_input ≡ media_policy_input a.snapshot a.device_session)
    → IsConsistent (update_observed device_changed action a)
update_observed-IsConsistent true action a r s h = record { told = refl; revised = r; settled = s }
update_observed-IsConsistent false (some action) a r s h = record {
  told = refl;
  revised = r;
  settled = s;
}
update_observed-IsConsistent false none a r s h = record {
  told = h refl refl;
  revised = r;
  settled = s;
}

-- The state after an update of the device: its snapshot is revised, and it has the given session.
record IsTaken (a : SlotActor) (taken : SlotActor × Bool) : Type 0 where
  pub revised : taken.0.snapshot.state_revision ≡ taken.0.snapshot.runtime.revision
  pub session : taken.0.device_session ≡ a.device_session
  pub requests : taken.0.request_generation ≡ a.request_generation
  pub input : taken.0.policy_input ≡ a.policy_input
  pub same : taken.1 ≡ false → taken.0.snapshot ≡ a.snapshot

take_device-IsTaken :
    (device : DeviceInfo) (a : SlotActor)
    → a.snapshot.state_revision ≡ a.snapshot.runtime.revision
    → IsTaken a (take_device device a)
take_device-IsTaken device a r = elim (Bool-cases (eqb Device-discrete a.snapshot.device device)) [
  | inl same ↦
      rw same
        (record { revised = r; session = refl; requests = refl; input = refl; same = λ _. refl })
  | inr other ↦ rw other (record {
    revised = refl;
    session = refl;
    requests = refl;
    input = refl;
    same = λ e. absurd (ground (arith, e));
  })
]

update_observed-session :
    (device_changed : Bool) (action : Option DeviceSessionAction) (a : SlotActor)
    → (update_observed device_changed action a).device_session.ready ≡ a.device_session.ready
update_observed-session true action a = refl
update_observed-session false (some action) a = refl
update_observed-session false none a = refl

ap2 {ℓ κ μ} :
    {A : Type ℓ} {B : Type κ} {C : Type μ} (f : A → B → C) {a a' : A} {b b' : B}
    → a ≡ a'
    → b ≡ b'
    → f a b ≡ f a' b'
ap2 f p q = cc (p, q)

pub handle_device-Inv :
    (env : Environment) (device : DeviceInfo) (a : SlotActor)
    → IsConsistent a
    → RoundInv (handle_device env device a)
unfolding handle_device
handle_device-Inv env device a i =
    let (session, action) = observe_device a.device_session device in
    let before : SlotActor = record a { device_session = session } in
    let (taken, device_changed) = take_device device before in
    let t = take_device-IsTaken device before i.revised in
    let settled : IsSettled taken.device_session taken.request_generation =
      rw (t.session, t.requests)
        (observe_device-IsSettled a.device_session device a.request_generation i.settled) in
    act-Inv env action (update_observed device_changed action taken)
      (update_observed-IsConsistent device_changed action taken t.revised settled (λ kept quiet.
        t.input
        ∙ (i.told
            ∙ sym (
                ap2 media_policy_input (t.same kept)
                  (t.session ∙ observe_device-none a.device_session device quiet)))))
      (λ other e.
        update_observed-session device_changed action taken
        ∙ (ap (λ s. s.ready) t.session ∙ observe_device-recover a.device_session device other e))
