-- ===== src/Examples/Slots.antt =====
-- Runs of the pool of display slots of crates/pronk/src/slot.rs. A path is a number, the odd ones
-- absolute.
use pronk.Common.{
  ℕ, ◌+◌, ◌%◌, ◌≡◌, ◌≢◌, true, false, none, some, List, [], ◌∷◌, arith, refl, ok, ltb, ◌==◌,
  ℕ_discrete,
}
use pronk.Slot.{
  DeviceKey, DeviceKey-discrete, OutputConnection, disconnected, connected, CastKmsOutput,
  CastKmsOutputId, OutputReservation, OutputReservationRelease, OutputSlotPool, PathOperations,
  id_discrete, available, claimed, reserve, release, release_of, default_pool, find_preferred,
  select, find, validate_inventory,
}
use pronk.Slot.Inventory.{IsListed, IsInventory}
use pronk.Slot.Ownership.{IsConsistent}
use pronk.Slot.Histories.{Operation, reserving, releasing, run, run-IsConsistent, release-stale}
use pronk.Slot.Selection.{IsStrict, NoneBefore, reserve_lem, release-reserve, reserve-NoneBefore}

abbrev paths : PathOperations ℕ
paths = record { same = ℕ_discrete; before = ltb; is_absolute = λ p. p % 2 == 1 }

abbrev television : DeviceKey
television = record { backend_id = "chromecast"; device_id = "living-room" }

abbrev id_of : ℕ → CastKmsOutputId ℕ
id_of index = record { device_path = 11; output_index = index }

abbrev output : ℕ → OutputConnection → CastKmsOutput ℕ
output index connection = record {
  id = id_of index;
  node_path = 21;
  device_major = 226;
  device_minor = 1;
  connector_id = 40 + index;
  connector_name = "Virtual";
  connection = connection;
}

abbrev inventory : List (CastKmsOutput ℕ)
inventory = output 2 disconnected ∷ output 0 connected ∷ output 1 disconnected ∷ []

abbrev fresh : OutputSlotPool ℕ
fresh = default_pool paths

abbrev reservation : ℕ → OutputReservation ℕ
reservation index = record { token = 1; device = television; output = output index disconnected }

abbrev held : ℕ → OutputSlotPool ℕ
held index = claimed paths fresh 1 television (output index disconnected)

abbrev history : List (Operation ℕ)
history =
    reserving television inventory none
    ∷ releasing (release_of paths (reservation 1))
    ∷ reserving television inventory (some (id_of 2))
    ∷ []

run-IsConsistent_example : IsConsistent (run paths (default_pool paths) history)
run-IsConsistent_example = run-IsConsistent paths history

release-stale_example :
    let later = run paths (release paths (held 1) (release_of paths (reservation 1))).0 history in
    release paths later (release_of paths (reservation 1)) ≡ (later, false)
release-stale_example =
    release-stale paths (held 1) (release_of paths (reservation 1)) history (omega arith)

reserves_preferred :
    reserve paths fresh television inventory (some (id_of 2)) ≡ ok (held 2, reservation 2)
unfolding reserve validate_inventory id_discrete pronk.Slot.connector_discrete select
    pronk.Slot.or_else find_preferred find pronk.Slot.min_by_id
reserves_preferred = refl

reserves_least : reserve paths fresh television inventory none ≡ ok (held 1, reservation 1)
unfolding reserve validate_inventory id_discrete pronk.Slot.connector_discrete select
    pronk.Slot.or_else find_preferred find pronk.Slot.min_by_id
reserves_least = refl

reserve_lem_example :
    (fresh.devices television ≡ none)
    × IsInventory paths inventory
    × IsListed (output 2 disconnected) inventory
    × (disconnected ≡ disconnected)
    × (fresh.claims (id_of 2) ≡ none)
    × (television ≡ television)
    × (◌≡◌ {A = ℕ} 1 (0 + 1))
    × ((held 2).next_token ≡ 1)
    × ((held 2).claims (id_of 2) ≡ some (record { token = 1; device = television }))
    × ((held 2).devices television ≡ some (id_of 2))
    × ((id : CastKmsOutputId ℕ) → id ≢ id_of 2 → (held 2).claims id ≡ fresh.claims id)
    × ((d : DeviceKey) → d ≢ television → (held 2).devices d ≡ fresh.devices d)
    × ((o : CastKmsOutput ℕ)
        → IsListed o inventory
        → some (id_of 2) ≡ some o.id
        → o.connection ≡ disconnected
        → fresh.claims o.id ≡ none
        → id_of 2 ≡ o.id)
reserve_lem_example =
    reserve_lem paths fresh (held 2) television inventory (some (id_of 2)) (reservation 2)
      reserves_preferred

release-reserve_example :
    let (after, found) = release paths (held 1) (release_of paths (reservation 1)) in
    (found ≡ true)
    × ((id : CastKmsOutputId ℕ) → after.claims id ≡ fresh.claims id)
    × ((d : DeviceKey) → after.devices d ≡ fresh.devices d)
    × (after.next_token ≡ 1)
release-reserve_example =
    release-reserve paths fresh (held 1) television inventory none (reservation 1) reserves_least

paths-IsStrict : IsStrict paths
paths-IsStrict = record {
  irreflexive = λ p. ground arith;
  transitive = λ p q r a b. ground arith;
  total = λ p q a b. ground arith;
}

prefers_nothing : find_preferred paths fresh inventory none ≡ none
unfolding find_preferred
prefers_nothing = refl

reserve-NoneBefore_example :
    NoneBefore paths (available paths fresh) (output 1 disconnected) inventory
reserve-NoneBefore_example =
    reserve-NoneBefore paths fresh (held 1) television inventory none (reservation 1) paths-IsStrict
      prefers_nothing reserves_least
