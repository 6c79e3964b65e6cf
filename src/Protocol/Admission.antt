-- ===== src/Protocol/Admission.antt =====
-- What a snapshot that crates/pronk-backend-protocol/src/lib.rs admits is like, said without the
-- order of its tests and without its sets.
use pronk.Common.{
  ℕ, ◌≤◌, ◌≡◌, ◌≢◌, ◌↔◌, false, List, [], ◌∷◌, arith, length, All, Bytes, Bytes-discrete, ok,
  String, not,
}
use pronk.Protocol.{
  validate_text, validate_backend_id, validate_token, validate_metadata_key, validate_generation,
  validate_count, DiscoveryMetadataEntry, DeviceInfo, DeviceSnapshot, validate_entry, seen,
  validate_entries, validate_device, Identity-discrete, identity, validate_devices,
  validate_snapshot, has_control, any, is_backend_id_byte, is_token_byte,
}

-- A text of 1 to `limit` bytes without control characters.
pub record IsText (value : Bytes) (limit : ℕ) : Type 0 where
  pub nonempty : length value ≢ 0
  pub fits : length value ≤ limit
  pub printable : has_control value ≡ false

pub record IsEntry (entry : DiscoveryMetadataEntry) : Type 0 where
  pub key : IsText entry.key 64
  pub token : any (λ b. not (is_token_byte b)) entry.key ≡ false
  pub value : IsText entry.value 256

-- No element of a list is one of `earlier` or of the elements before it.
abbrev pub Distinct {ℓ} : {K : Type ℓ} → List K → List K → Type ℓ
Distinct earlier [] = Unit
Distinct earlier (k ∷ ks) = All (λ e. k ≢ e) earlier × Distinct (k ∷ earlier) ks

abbrev pub keys_of : List DiscoveryMetadataEntry → List Bytes
keys_of [] = []
keys_of (e ∷ es) = e.key ∷ keys_of es

abbrev pub identities_of : List DeviceInfo → List (Bytes × Bytes)
identities_of [] = []
identities_of (d ∷ ds) = identity d ∷ identities_of ds

pub record IsDevice (device : DeviceInfo) : Type 0 where
  pub backend : IsText device.backend_id 64
  pub backend_bytes : any (λ b. not (is_backend_id_byte b)) device.backend_id ≡ false
  pub id : IsText device.device_id 256
  pub name : IsText device.display_name 256
  pub few : length device.metadata ≤ 16
  pub entries : All IsEntry device.metadata
  pub keys : Distinct [] (keys_of device.metadata)

-- A nonzero generation with at most 128 valid devices of different identities.
pub record IsSnapshot (snapshot : DeviceSnapshot) : Type 0 where
  pub generation : snapshot.discovery_generation ≢ 0
  pub few : length snapshot.devices ≤ 128
  pub devices : All IsDevice snapshot.devices
  pub identities : Distinct [] (identities_of snapshot.devices)

pub validate_text_lem :
    (field : String) (value : Bytes) (limit : ℕ)
    → (validate_text field value limit ≡ ok tt) ↔ IsText value limit
unfolding validate_text
validate_text_lem field value limit = ground arith

pub seen_lem {ℓ} :
    {K : Type ℓ} (d : Discrete K) (k : K) (ks : List K)
    → (seen d k ks ≡ false) ↔ All (λ e. k ≢ e) ks
unfolding seen
seen_lem d k [] = ground arith
seen_lem d k (e ∷ es) = ground (arith, seen_lem d k es)

validate_entry_lem :
    (entry : DiscoveryMetadataEntry) → (validate_entry entry ≡ ok tt) ↔ IsEntry entry
unfolding validate_entry validate_metadata_key validate_token
validate_entry_lem entry = ground (
  arith,
  validate_text_lem "discovery metadata key" entry.key 64,
  validate_text_lem "discovery metadata value" entry.value 256,
)

validate_entries_lem :
    (keys : List Bytes) (entries : List DiscoveryMetadataEntry)
    → (validate_entries keys entries ≡ ok tt)
      ↔ (All IsEntry entries × Distinct keys (keys_of entries))
unfolding validate_entries
validate_entries_lem keys [] = ground arith
validate_entries_lem keys (e ∷ es) = ground (
  arith,
  validate_entry_lem e,
  seen_lem Bytes-discrete e.key keys,
  validate_entries_lem (e.key ∷ keys) es,
)

pub validate_device_lem : (device : DeviceInfo) → (validate_device device ≡ ok tt) ↔ IsDevice device
unfolding validate_device validate_backend_id validate_count
validate_device_lem device = ground (
  arith,
  validate_text_lem "backend ID" device.backend_id 64,
  validate_text_lem "device ID" device.device_id 256,
  validate_text_lem "device display name" device.display_name 256,
  validate_entries_lem [] device.metadata,
)

pub validate_devices_lem :
    (identities : List (Bytes × Bytes)) (devices : List DeviceInfo)
    → (validate_devices identities devices ≡ ok tt)
      ↔ (All IsDevice devices × Distinct identities (identities_of devices))
unfolding validate_devices
validate_devices_lem identities [] = ground arith
validate_devices_lem identities (d ∷ ds) = ground (
  arith,
  validate_device_lem d,
  seen_lem Identity-discrete (identity d) identities,
  validate_devices_lem (identity d ∷ identities) ds,
)

-- A snapshot is admitted exactly when its generation is not zero, it has at most 128 devices, each
-- of them is valid with at most 16 valid metadata entries under different keys, and no two devices
-- have the same identity.
pub validate_snapshot_lem :
    (snapshot : DeviceSnapshot) → (validate_snapshot snapshot ≡ ok tt) ↔ IsSnapshot snapshot
unfolding validate_snapshot validate_generation validate_count
validate_snapshot_lem snapshot = ground (arith, validate_devices_lem [] snapshot.devices)
