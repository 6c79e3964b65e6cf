-- ===== src/Inventory/Replica.antt =====
-- The inventory of crates/pronk-backend-host/src/inventory.rs as a copy of the backend's own table.
use pronk.Common.{
  ℕ, zero, suc, ◌+◌, ◌-◌, ◌≤◌, ◌≡◌, ◌≢◌, ◌⊎◌, inl, inr, true, false, Option, none, some, List, [],
  ◌∷◌, All, ℕ_discrete, eqb, if◌then◌else◌, is_some, arith, refl, ok, Result-cases, BTreeMap, get,
  get-insert_entry, get-remove_entry, subst, sym, ap, ◌∙◌,
}
use pronk.Protocol.{DeviceInfo}
use pronk.Inventory.{
  DeviceEvent, added, changed, removed, revision_of, generation_of, Key, key_order, device_key,
  identity_key, DeviceInventory, ApplyOutcome, ignored_duplicate, validate_event, change, apply,
  Event-discrete,
}

-- The table of a backend: a function from keys.
abbrev pub Table : Type 0
Table = Key → Option DeviceInfo

-- What an event does to a table.
pub replay : DeviceEvent → Table → Table
replay (added g r device) t k =
    if eqb key_order.same k (device_key device) then some device else t k
replay (changed g r device) t k =
    if eqb key_order.same k (device_key device) then some device else t k
replay (removed g r device) t k = if eqb key_order.same k (identity_key device) then none else t k

abbrev pub table_of : BTreeMap Key DeviceInfo → Table
table_of devices k = get key_order k devices

-- The table after `n` events of a log from revision `base` on.
pub replica : Table → (ℕ → DeviceEvent) → ℕ → ℕ → Table
replica t log base zero = t
replica t log base (suc n) = replay (log (base + suc n)) (replica t log base n)

-- An event fits a table: it adds what is absent, and changes or removes what is present.
abbrev pub Fits : DeviceEvent → Table → Type 0
Fits (added g r device) t = is_some (t (device_key device)) ≡ false
Fits (changed g r device) t = is_some (t (device_key device)) ≡ true
Fits (removed g r device) t = is_some (t (identity_key device)) ≡ true

change-replay :
    (event : DeviceEvent) (devices devices' : BTreeMap Key DeviceInfo)
    → change event devices ≡ ok devices'
    → Fits event (table_of devices)
      × ((k : Key) → get key_order k devices' ≡ replay event (table_of devices) k)
unfolding change replay
change-replay (added g r device) devices devices' e = (
  ground arith,
  λ k. ground (arith, get-insert_entry key_order k (device_key device) device devices),
)
change-replay (changed g r device) devices devices' e = (
  ground arith,
  λ k. ground (arith, get-insert_entry key_order k (device_key device) device devices),
)
change-replay (removed g r device) devices devices' e =
    (ground arith, λ k. ground (arith, get-remove_entry key_order k (identity_key device) devices))

-- What one event does to an inventory.
pub record Advances (s s' : DeviceInventory) (event : DeviceEvent) : Type 0 where
  pub next : revision_of event ≡ s.revision + 1
  pub reached : s'.revision ≡ revision_of event
  pub same_generation : generation_of event ≡ s.discovery_generation
  pub kept_generation : s'.discovery_generation ≡ s.discovery_generation
  pub kept_backend : s'.expected_backend_id ≡ s.expected_backend_id
  pub kept_baseline : s'.baseline_revision ≡ s.baseline_revision
  pub last : s'.last_applied ≡ some event
  pub valid : validate_event s.expected_backend_id event ≡ ok tt
  pub becomes : change event s.devices ≡ ok s'.devices

pub apply_cases :
    (s : DeviceInventory) (event : DeviceEvent)
    → ((apply s event).0 ≡ s) × ((apply s event).1 ≢ ok ApplyOutcome.changed)
      ⊎ ((apply s event).1 ≡ ok ApplyOutcome.changed) × Advances s (apply s event).0 event
unfolding apply
apply_cases s event = elim (Result-cases (validate_event s.expected_backend_id event)) [
  | inr (x, e) ↦ inl (ground (arith, e))
  | inl (u, e) ↦ elim (Result-cases (change event s.devices)) [
    | inr (x, f) ↦ inl (ground (arith, e, f))
    | inl (devices, f) ↦ elim (ℕ_discrete (generation_of event) s.discovery_generation) [
      | no n ↦ inl (ground (arith, e, n))
      | yes g ↦ elim (ℕ_discrete (revision_of event) (s.revision + 1)) [
        | no n ↦ inl (ground (arith, e, g, n))
        | yes n ↦ ground (arith, e, f, g, n)
      ]
    ]
  ]
]

replay-table :
    (event : DeviceEvent) (t u : Table)
    → ((k : Key) → t k ≡ u k)
    → (k : Key) → replay event t k ≡ replay event u k
unfolding replay
replay-table (added g r device) t u h k = ground (arith, h k)
replay-table (changed g r device) t u h k = ground (arith, h k)
replay-table (removed g r device) t u h k = ground (arith, h k)

-- Events delivered one after another, whatever each comes to.
unfoldable pub apply_all : DeviceInventory → List DeviceEvent → DeviceInventory
apply_all s [] = s
apply_all s (event ∷ rest) = apply_all (apply s event).0 rest

-- The inventory holds the table of the log at its own revision.
record Follows (start s : DeviceInventory) (log : ℕ → DeviceEvent) : Type 0 where
  past : start.revision ≤ s.revision
  holds :
      (k : Key)
      → get key_order k s.devices
        ≡ replica (table_of start.devices) log start.revision (s.revision - start.revision) k

Advances-Follows :
    (start s s' : DeviceInventory) (event : DeviceEvent) (log : ℕ → DeviceEvent)
    → Follows start s log
    → event ≡ log (revision_of event)
    → Advances s s' event
    → Follows start s' log
unfolding replica
Advances-Follows start s s' event log h drawn a =
    let steps : ℕ = s.revision - start.revision in
    let before : Table = replica (table_of start.devices) log start.revision steps in
    let more : s'.revision - start.revision ≡ suc steps =
      omega (arith, a.next, a.reached, h.past) in
    let here : log (start.revision + suc steps) ≡ event =
      ap log (omega (arith, a.next, h.past)) ∙ sym drawn in
    record {
      past = omega (arith, a.next, a.reached, h.past);
      holds = λ k.
          subst
            (λ n.
              get key_order k s'.devices ≡ replica (table_of start.devices) log start.revision n k)
            (sym more)
            ((change-replay event s.devices s'.devices a.becomes).1 k
              ∙ replay-table event (table_of s.devices) before h.holds k
              ∙ ap (λ e. replay e before k) (sym here));
    }

apply_all-Follows :
    (start s : DeviceInventory) (log : ℕ → DeviceEvent) (events : List DeviceEvent)
    → Follows start s log
    → All (λ event. event ≡ log (revision_of event)) events
    → Follows start (apply_all s events) log
unfolding apply_all
apply_all-Follows start s log [] h drawn = h
apply_all-Follows start s log (event ∷ rest) h drawn = elim (apply_cases s event) [
  | inl (same, _) ↦ apply_all-Follows start (apply s event).0 log rest (rw same h) drawn.1
  | inr (_, a) ↦
      apply_all-Follows start (apply s event).0 log rest
        (Advances-Follows start s (apply s event).0 event log h drawn.0 a) drawn.1
]

-- Whatever events of a backend's log are delivered, in whatever order and however often, a key is
-- in the inventory exactly as in the table that the log has at the inventory's revision, which is
-- never before the one it started at.
pub apply_all-replica :
    (start : DeviceInventory) (log : ℕ → DeviceEvent) (events : List DeviceEvent)
    → All (λ event. event ≡ log (revision_of event)) events
    → let after = apply_all start events in
      (start.revision ≤ after.revision)
      × ((k : Key)
          → get key_order k after.devices
            ≡ replica
                (table_of start.devices)
                log
                start.revision
                (after.revision - start.revision)
                k)
unfolding replica
apply_all-replica start log events drawn =
    let none_yet : 0 ≡ start.revision - start.revision = omega arith in
    let follows =
      apply_all-Follows start start log events
        (record {
          past = omega arith;
          holds = λ k.
              subst
                (λ n.
                  get key_order k start.devices
                  ≡ replica (table_of start.devices) log start.revision n k)
                none_yet refl;
        })
        drawn in
    (follows.past, follows.holds)

again :
    (s s' : DeviceInventory) (event : DeviceEvent)
    → s.baseline_revision ≤ s.revision
    → Advances s s' event
    → apply s' event ≡ (s', ok ignored_duplicate)
unfolding apply
again s s' event past a =
    let valid : validate_event s'.expected_backend_id event ≡ ok tt =
      ap (λ b. validate_event b event) a.kept_backend ∙ a.valid in
    elim (Event-discrete s'.last_applied (some event)) [
      | yes e ↦ ground (
        arith, valid, e, past, a.next, a.reached, a.same_generation, a.kept_generation,
        a.kept_baseline,
      )
      | no n ↦ absurd (n a.last)
    ]

-- An event that has just been applied is recognised when it is delivered again, in an inventory
-- whose revision is not below its baseline: nothing changes.
apply_again :
    (s : DeviceInventory) (event : DeviceEvent)
    → s.baseline_revision ≤ s.revision
    → (apply s event).1 ≡ ok ApplyOutcome.changed
    → let (after, _) = apply s event in apply after event ≡ (after, ok ignored_duplicate)
apply_again s event past e = elim (apply_cases s event) [
  | inl (_, not_changed) ↦ absurd (not_changed e)
  | inr (_, a) ↦ again s (apply s event).0 event past a
]
