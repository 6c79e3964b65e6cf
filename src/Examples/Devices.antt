-- ===== src/Examples/Devices.antt =====
-- Runs of the inventory of crates/pronk-backend-host/src/inventory.rs.
use pronk.Common.{ℕ, ◌+◌, ◌-◌, ◌≤◌, ◌≡◌, List, [], ◌∷◌, ok, refl, codes, get, Bytes-discrete}
use pronk.Protocol.{
  DeviceInfo, DeviceSnapshot, DeviceIdentity, validate_snapshot, validate_devices,
  validate_generation, validate_count, validate_device, validate_text, validate_backend_id,
  validate_entries, has_control,
}
use pronk.Inventory.{
  DeviceEvent, added, Key, key_order, DeviceInventory, ApplyOutcome, inventory_of, from_snapshot,
  insert_all, apply, validate_event, validate_record, require_backend, change,
}
use pronk.Inventory.Replica.{replica, table_of, apply_all, apply_all-replica}
use pronk.Inventory.Valid.{IsValid, apply_all-IsValid}
use pronk.Examples.Discovery.{device}

abbrev empty_snapshot : DeviceSnapshot
empty_snapshot = record { discovery_generation = 1; revision = 4; devices = [] }

abbrev start : DeviceInventory
start = inventory_of (codes "mock") empty_snapshot []

abbrev log : ℕ → DeviceEvent
log n = added 1 n (device (48 ∷ (n + 48) ∷ []))

-- The events of the log out of order, with one twice.
abbrev delivered : List DeviceEvent
delivered = log 50 ∷ log 5 ∷ log 5 ∷ log 7 ∷ log 6 ∷ log 7 ∷ []

apply_all-replica_example :
    let after = apply_all start delivered in
    (4 ≤ after.revision)
    × ((k : Key)
        → get key_order k after.devices ≡ replica (table_of []) log 4 (after.revision - 4) k)
apply_all-replica_example =
    apply_all-replica start log delivered (refl, (refl, (refl, (refl, (refl, (refl, tt))))))

starts : from_snapshot (codes "mock") empty_snapshot ≡ ok start
unfolding from_snapshot insert_all validate_snapshot validate_devices validate_generation
    validate_count
starts = refl

apply_all-IsValid_example : IsValid (apply_all start delivered)
apply_all-IsValid_example = apply_all-IsValid (codes "mock") empty_snapshot start delivered starts

changes : (apply start (added 1 5 (device (codes "A")))).1 ≡ ok ApplyOutcome.changed
unfolding apply validate_event validate_record validate_device validate_backend_id validate_text
    has_control validate_count validate_entries pronk.Protocol.validate_entry
    pronk.Protocol.validate_metadata_key pronk.Protocol.validate_token pronk.Protocol.seen
    require_backend Bytes-discrete change get
changes = refl
