-- ===== src/Examples/Discovery.antt =====
-- A run of the validation of crates/pronk-backend-protocol/src/lib.rs.
use pronk.Common.{◌≡◌, ◌↔◌, [], ◌∷◌, ok, refl, true, false, codes, Bytes}
use pronk.Protocol.{DeviceInfo, DeviceSnapshot, DeviceAvailability, validate_snapshot, has_control}
use pronk.Protocol.Admission.{IsSnapshot, validate_snapshot_lem}

abbrev pub device : Bytes → DeviceInfo
device id = record {
  backend_id = codes "mock";
  device_id = id;
  display_name = codes "Device";
  availability = DeviceAvailability.available;
  metadata = record { key = codes "model"; value = codes "Deterministic Mock" } ∷ [];
}

abbrev snapshot : DeviceSnapshot
snapshot = record {
  discovery_generation = 1;
  revision = 2;
  devices = device (codes "one") ∷ device (codes "two") ∷ [];
}

validate_snapshot_lem_example : (validate_snapshot snapshot ≡ ok tt) ↔ IsSnapshot snapshot
validate_snapshot_lem_example = validate_snapshot_lem snapshot

-- A control character of one byte, and one of two.
controls : (has_control (97 ∷ 10 ∷ []) ≡ true) × (has_control (194 ∷ 133 ∷ []) ≡ true)
unfolding has_control
controls = (refl, refl)

-- A letter that begins with the same byte.
prints : has_control (194 ∷ 161 ∷ 98 ∷ []) ≡ false
unfolding has_control
prints = refl
