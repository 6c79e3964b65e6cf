-- ===== src/Inventory.antt =====
-- crates/pronk-backend-host/src/inventory.rs: the manager's copy of a backend's devices, from a
-- snapshot and the events that follow it. `apply` returns the new inventory with its result; an
-- error carries the validation error whose text the source keeps.
pub mod Valid
pub mod Replica
use pronk.Common.{
  ℕ, ◌+◌, Bool, true, false, ◌||◌, Option, none, some, List, [], ◌∷◌, ltb, leb, ◌==◌, eqb, not,
  if◌then◌else◌, ℕ_discrete, Bytes, Bytes-discrete, Result, ok, err, ◌>>=◌, ◌>>◌, checked_add,
  TotalOrder, bytes_order, pair_order, BTreeMap, get, contains_key, insert_entry, remove_entry,
  values,
}
use pronk.Protocol.{
  DeviceInfo, DeviceIdentity, DeviceAvailability, DiscoveryMetadataEntry, DeviceSnapshot,
  ValidationError, Validation, validate_device, validate_identity, validate_snapshot,
}

pub data DeviceEvent : Type 0 where
  added changed : ℕ → ℕ → DeviceInfo → DeviceEvent
  removed : ℕ → ℕ → DeviceIdentity → DeviceEvent

-- The `discovery_generation` and the `revision` of an event.
abbrev pub generation_of : DeviceEvent → ℕ
generation_of (added g r d) = g
generation_of (changed g r d) = g
generation_of (removed g r d) = g

abbrev pub revision_of : DeviceEvent → ℕ
revision_of (added g r d) = r
revision_of (changed g r d) = r
revision_of (removed g r d) = r

unfoldable pub Availability-discrete : Discrete DeviceAvailability
Availability-discrete = hlevel

unfoldable pub Event-discrete : Discrete (Option DeviceEvent)
unfolding Bytes-discrete ℕ_discrete Availability-discrete
Event-discrete = hlevel (Bytes-discrete, ℕ_discrete, Availability-discrete)

abbrev pub Key : Type 0
Key = Bytes × Bytes

abbrev pub key_order : TotalOrder Key
key_order = pair_order bytes_order bytes_order

abbrev pub device_key : DeviceInfo → Key
device_key device = (device.backend_id, device.device_id)

abbrev pub identity_key : DeviceIdentity → Key
identity_key device = (device.backend_id, device.device_id)

pub record DeviceInventory : Type 0 where
  pub expected_backend_id : Bytes
  pub discovery_generation : ℕ  -- u64
  pub baseline_revision : ℕ  -- u64
  pub revision : ℕ  -- u64
  pub devices : BTreeMap Key DeviceInfo
  pub last_applied : Option DeviceEvent

pub data ApplyOutcome : Type 0 where
  changed ignored_covered_by_snapshot ignored_duplicate : ApplyOutcome

pub data InventoryError : Type 0 where
  invalid_record : ValidationError → InventoryError
  zero_event_revision revision_exhausted : InventoryError
  wrong_backend_id : Bytes → Bytes → InventoryError
  generation_mismatch revision_gap : ℕ → ℕ → InventoryError
  conflicting_duplicate : ℕ → InventoryError
  already_present not_present : Key → InventoryError

abbrev pub Checked : Type 0
Checked = Result InventoryError (Unit {0})

-- `map_err(InventoryError::InvalidRecord)`.
abbrev pub checked : Validation → Checked
checked (ok u) = ok u
checked (err e) = err (invalid_record e)

unfoldable pub require_backend : Bytes → Bytes → Checked
require_backend expected actual =
    if eqb Bytes-discrete expected actual then ok tt else err (wrong_backend_id expected actual)

-- The loop of `from_snapshot`.
unfoldable pub insert_all :
    Bytes
    → BTreeMap Key DeviceInfo
    → List DeviceInfo
    → Result InventoryError (BTreeMap Key DeviceInfo)
insert_all expected devices [] = ok devices
insert_all expected devices (device ∷ rest) =
    require_backend expected device.backend_id
    >> insert_all expected (insert_entry key_order (device_key device) device devices) rest

abbrev pub inventory_of : Bytes → DeviceSnapshot → BTreeMap Key DeviceInfo → DeviceInventory
inventory_of expected snapshot devices = record {
  expected_backend_id = expected;
  discovery_generation = snapshot.discovery_generation;
  baseline_revision = snapshot.revision;
  revision = snapshot.revision;
  devices = devices;
  last_applied = none;
}

unfoldable pub from_snapshot : Bytes → DeviceSnapshot → Result InventoryError DeviceInventory
unfolding insert_all
from_snapshot expected snapshot =
    checked (validate_snapshot snapshot)
    >> (insert_all expected [] snapshot.devices >>= λ devices.
        ok (inventory_of expected snapshot devices))

-- The devices of `DeviceInventory::snapshot`, in the order of their keys.
abbrev pub snapshot_devices : DeviceInventory → List DeviceInfo
snapshot_devices inventory = values key_order inventory.devices

unfoldable pub validate_record : Bytes → DeviceEvent → Checked
validate_record expected (removed g r device) =
    checked (validate_identity device) >> require_backend expected device.backend_id
validate_record expected (added g r device) =
    checked (validate_device device) >> require_backend expected device.backend_id
validate_record expected (changed g r device) =
    checked (validate_device device) >> require_backend expected device.backend_id

unfoldable pub validate_event : Bytes → DeviceEvent → Checked
validate_event expected event =
    if revision_of event == 0 then err zero_event_revision else validate_record expected event

-- The map after an event, where the event fits it.
unfoldable pub change :
    DeviceEvent → BTreeMap Key DeviceInfo → Result InventoryError (BTreeMap Key DeviceInfo)
change (added g r device) devices =
    if contains_key key_order (device_key device) devices
    then err (already_present (device_key device))
    else ok (insert_entry key_order (device_key device) device devices)
change (changed g r device) devices =
    if contains_key key_order (device_key device) devices
    then ok (insert_entry key_order (device_key device) device devices)
    else err (not_present (device_key device))
change (removed g r device) devices =
    if contains_key key_order (identity_key device) devices
    then ok (remove_entry key_order (identity_key device) devices)
    else err (not_present (identity_key device))

abbrev pub Applied : Type 0
Applied = DeviceInventory × Result InventoryError ApplyOutcome

abbrev pub apply_change :
    DeviceInventory → DeviceEvent → Result InventoryError (BTreeMap Key DeviceInfo) → Applied
apply_change inventory event (err e) = (inventory, err e)
apply_change inventory event (ok devices) = (
  record inventory { devices = devices; revision = revision_of event; last_applied = some event },
  ok ApplyOutcome.changed,
)

abbrev pub apply_next : DeviceInventory → DeviceEvent → Option ℕ → Applied
apply_next inventory event none = (inventory, err revision_exhausted)
apply_next inventory event (some expected) =
    if revision_of event == expected
    then apply_change inventory event (change event inventory.devices)
    else (inventory, err (revision_gap expected (revision_of event)))

-- What the revision of a valid event of this generation calls for.
abbrev pub apply_revision : DeviceInventory → DeviceEvent → Applied
apply_revision inventory event =
    if leb (revision_of event) inventory.baseline_revision
      || ltb (revision_of event) inventory.revision
    then (inventory, ok ignored_covered_by_snapshot)
    else if revision_of event == inventory.revision
    then if eqb Event-discrete inventory.last_applied (some event)
      then (inventory, ok ignored_duplicate)
      else (inventory, err (conflicting_duplicate (revision_of event)))
    else apply_next inventory event (checked_add inventory.revision 1)

abbrev pub apply_valid : DeviceInventory → DeviceEvent → Checked → Applied
apply_valid inventory event (err e) = (inventory, err e)
apply_valid inventory event (ok _) =
    if generation_of event == inventory.discovery_generation
    then apply_revision inventory event
    else (inventory, err (generation_mismatch inventory.discovery_generation (generation_of event)))

unfoldable pub apply : DeviceInventory → DeviceEvent → Applied
apply inventory event =
    apply_valid inventory event (validate_event inventory.expected_backend_id event)
