-- ===== src/Inventory/Valid.antt =====
-- What holds of every inventory of crates/pronk-backend-host/src/inventory.rs.
use pronk.Common.{
  ◌≤◌, ◌≡◌, inl, inr, Option, none, some, List, [], ◌∷◌, All, arith, refl, ok, Result-cases,
  BTreeMap, Bytes, IsSorted, subst, ◌>>◌, insert_entry, remove_entry, insert_entry-IsSorted,
  remove_entry-IsSorted, All-insert_entry, All-remove_entry,
}
use pronk.Protocol.{DeviceInfo, DeviceSnapshot, validate_device, validate_snapshot}
use pronk.Protocol.Admission.{IsDevice, validate_device_lem, validate_snapshot_lem}
use pronk.Inventory.{
  DeviceEvent, added, changed, removed, revision_of, Key, key_order, device_key, identity_key,
  DeviceInventory, checked, require_backend, insert_all, inventory_of, from_snapshot,
  validate_record, validate_event, change, apply,
}
use pronk.Inventory.Replica.{apply_cases, apply_all}

-- An entry of a backend's inventory: a valid device of that backend, under its own key.
pub record IsEntryOf (expected : Bytes) (e : Key × DeviceInfo) : Type 0 where
  pub key : e.0 ≡ device_key e.1
  pub backend : e.1.backend_id ≡ expected
  pub valid : IsDevice e.1

-- The last applied event is the one of the revision; before it there is only the snapshot.
abbrev pub LastAt : DeviceInventory → Option DeviceEvent → Type 0
LastAt s none = s.revision ≡ s.baseline_revision
LastAt s (some event) = s.revision ≡ revision_of event

pub record IsValid (s : DeviceInventory) : Type 0 where
  pub sorted : IsSorted key_order s.devices
  pub entries : All (IsEntryOf s.expected_backend_id) s.devices
  pub past : s.baseline_revision ≤ s.revision
  pub last : LastAt s s.last_applied

require_backend_ok :
    (expected actual : Bytes) → require_backend expected actual ≡ ok tt → actual ≡ expected
unfolding require_backend
require_backend_ok expected actual e = ground arith

-- The map of an inventory: sorted, and with entries of the backend only.
abbrev IsMapOf : Bytes → BTreeMap Key DeviceInfo → Type 0
IsMapOf expected m = IsSorted key_order m × All (IsEntryOf expected) m

insert_entry-IsMapOf :
    (expected : Bytes) (device : DeviceInfo) (m : BTreeMap Key DeviceInfo)
    → IsDevice device
    → require_backend expected device.backend_id ≡ ok tt
    → IsMapOf expected m
    → IsMapOf expected (insert_entry key_order (device_key device) device m)
insert_entry-IsMapOf expected device m d b h =
    let entry : IsEntryOf expected (device_key device, device) = record {
      key = refl;
      backend = require_backend_ok expected device.backend_id b;
      valid = d;
    } in
    (
      insert_entry-IsSorted key_order (device_key device) device m h.0,
      All-insert_entry key_order (IsEntryOf expected) (device_key device) device m entry h.1,
    )

insert_all-IsMapOf :
    (expected : Bytes) (m m' : BTreeMap Key DeviceInfo) (devices : List DeviceInfo)
    → IsMapOf expected m
    → All IsDevice devices
    → insert_all expected m devices ≡ ok m'
    → IsMapOf expected m'
unfolding insert_all
insert_all-IsMapOf expected m m' [] h d e = subst (IsMapOf expected) (ground (arith, e)) h
insert_all-IsMapOf expected m m' (device ∷ rest) h d e =
    elim (Result-cases (require_backend expected device.backend_id)) [
      | inr (x, f) ↦ absurd (ground (arith, f, e))
      | inl (u, f) ↦
          insert_all-IsMapOf expected (insert_entry key_order (device_key device) device m) m' rest
            (insert_entry-IsMapOf expected device m d.0 f h) d.1 (ground (arith, f, e))
    ]

record-IsDevice :
    (expected : Bytes) (device : DeviceInfo)
    → (checked (validate_device device) >> require_backend expected device.backend_id) ≡ ok tt
    → IsDevice device × (require_backend expected device.backend_id ≡ ok tt)
record-IsDevice expected device e = elim (Result-cases (validate_device device)) [
  | inr (x, f) ↦ absurd (ground (arith, f, e))
  | inl (u, f) ↦ ((validate_device_lem device).0 f, ground (arith, f, e))
]

change-IsMapOf :
    (expected : Bytes) (event : DeviceEvent) (m m' : BTreeMap Key DeviceInfo)
    → IsMapOf expected m
    → validate_event expected event ≡ ok tt
    → change event m ≡ ok m'
    → IsMapOf expected m'
unfolding change validate_event validate_record
change-IsMapOf expected (added g r device) m m' h v e =
    let (d, b) = record-IsDevice expected device (ground (arith, v)) in
    subst (IsMapOf expected) (ground (arith, e)) (insert_entry-IsMapOf expected device m d b h)
change-IsMapOf expected (changed g r device) m m' h v e =
    let (d, b) = record-IsDevice expected device (ground (arith, v)) in
    subst (IsMapOf expected) (ground (arith, e)) (insert_entry-IsMapOf expected device m d b h)
change-IsMapOf expected (removed g r device) m m' h v e =
    let k : Key = identity_key device in
    let rest : IsMapOf expected (remove_entry key_order k m) = (
      remove_entry-IsSorted key_order k m h.0,
      All-remove_entry key_order (IsEntryOf expected) k m h.1,
    ) in
    subst (IsMapOf expected) (ground (arith, e)) rest

from_snapshot-IsValid :
    (expected : Bytes) (snapshot : DeviceSnapshot) (s : DeviceInventory)
    → from_snapshot expected snapshot ≡ ok s
    → IsValid s
unfolding from_snapshot
from_snapshot-IsValid expected snapshot s e = elim (Result-cases (validate_snapshot snapshot)) [
  | inr (x, f) ↦ absurd (ground (arith, f, e))
  | inl (u, f) ↦ elim (Result-cases (insert_all expected [] snapshot.devices)) [
    | inr (x, g) ↦ absurd (ground (arith, f, g, e))
    | inl (m, g) ↦
        let map : IsMapOf expected m =
          insert_all-IsMapOf expected [] m snapshot.devices (tt, tt)
            ((validate_snapshot_lem snapshot).0 f).devices g in
        subst IsValid (ground (arith, f, g, e)) (begins expected snapshot m map)
  ]
]
  where
    begins :
        (expected : Bytes) (snapshot : DeviceSnapshot) (m : BTreeMap Key DeviceInfo)
        → IsMapOf expected m
        → IsValid (inventory_of expected snapshot m)
    begins expected snapshot m h = record {
      sorted = h.0;
      entries = h.1;
      past = omega arith;
      last = refl;
    }

apply-IsValid : (s : DeviceInventory) (event : DeviceEvent) → IsValid s → IsValid (apply s event).0
apply-IsValid s event h = elim (apply_cases s event) [
  | inl (same, _) ↦ rw same h
  | inr (_, a) ↦
      let map : IsMapOf s.expected_backend_id (apply s event).0.devices =
        change-IsMapOf s.expected_backend_id event s.devices (apply s event).0.devices
          (h.sorted, h.entries) a.valid a.becomes in
      record {
        sorted = map.0;
        entries = rw a.kept_backend map.1;
        past = omega (arith, h.past, a.next, a.reached, a.kept_baseline);
        last = rw a.last a.reached;
      }
]

all-IsValid :
    (s : DeviceInventory) (events : List DeviceEvent) → IsValid s → IsValid (apply_all s events)
unfolding apply_all
all-IsValid s [] h = h
all-IsValid s (event ∷ rest) h = all-IsValid (apply s event).0 rest (apply-IsValid s event h)

-- After any events on an inventory that a snapshot has given, the devices are in the order of
-- their keys, each once, under its own key, valid and of the expected backend; the revision is not
-- below the baseline; and the last applied event is the one of the revision, where there is one.
pub apply_all-IsValid :
    (expected : Bytes) (snapshot : DeviceSnapshot) (s : DeviceInventory) (events : List DeviceEvent)
    → from_snapshot expected snapshot ≡ ok s
    → IsValid (apply_all s events)
apply_all-IsValid expected snapshot s events e =
    all-IsValid s events (from_snapshot-IsValid expected snapshot s e)
