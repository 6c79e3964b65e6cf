-- ===== src/Slot.antt =====
-- crates/pronk/src/slot.rs: the reservations of display slots, over the outputs of
-- crates/pronk-core/src/output.rs. A path of the file system is a parameter, with the equality, the
-- order and the `is_absolute` of the standard library's `PathBuf`. A map is a function.
pub mod Inventory
pub mod Selection
pub mod Ownership
pub mod Histories
use pronk.Common.{
  ℕ, ◌+◌, Bool, true, false, ◌&&◌, ◌||◌, not, Option, none, some, is_some, List, [], ◌∷◌, ltb, ◌==◌,
  eqb, if◌then◌else◌, ℕ_discrete, String, String-discrete, is_empty, Result, ok, err, checked_add,
}

-- The key of a device: the two fields of its `DeviceInfo` that `DeviceKey::from_device` takes.
pub record DeviceKey : Type 0 where
  pub backend_id : String
  pub device_id : String

unfoldable pub DeviceKey-discrete : Discrete DeviceKey
unfolding String-discrete
DeviceKey-discrete = hlevel String-discrete

pub data OutputConnection : Type 0 where
  connected disconnected unknown : OutputConnection

abbrev pub is_available : OutputConnection → Bool
is_available disconnected = true
is_available _ = false

pub data OutputReservationError : Type 0 where
  invalid_inventory capacity_exhausted token_exhausted : OutputReservationError
  device_already_claimed : DeviceKey → OutputReservationError

pub record OutputClaim : Type 0 where
  pub token : ℕ  -- u64
  pub device : DeviceKey

-- A map's `insert` and `remove`.
abbrev pub insert {ℓ κ} :
    {K : Type ℓ} {V : Type κ} → Discrete K → K → V → (K → Option V) → K → Option V
insert d k v m k' = if eqb d k' k then some v else m k'

abbrev pub remove {ℓ κ} : {K : Type ℓ} {V : Type κ} → Discrete K → K → (K → Option V) → K → Option V
remove d k m k' = if eqb d k' k then none else m k'

-- A set's `contains`.
abbrev pub contains {ℓ} : {K : Type ℓ} → Discrete K → K → List K → Bool
contains d k [] = false
contains d k (x ∷ xs) = eqb d k x || contains d k xs

unfoldable pub find {ℓ} : {A : Type ℓ} → (A → Bool) → List A → Option A
find p [] = none
find p (x ∷ xs) = if p x then some x else find p xs

unfoldable pub or_else {ℓ} : {A : Type ℓ} → Option A → Option A → Option A
or_else none o = o
or_else (some x) o = some x

module _ (PathBuf : Type 0) where
  pub record CastKmsOutputId : Type 0 where
    pub device_path : PathBuf
    pub output_index : ℕ  -- u32

  pub record CastKmsOutput : Type 0 where
    pub id : CastKmsOutputId
    pub node_path : PathBuf
    pub device_major : ℕ  -- u32
    pub device_minor : ℕ  -- u32
    pub connector_id : ℕ  -- u32
    pub connector_name : String
    pub connection : OutputConnection

  pub record OutputReservation : Type 0 where
    pub token : ℕ  -- u64
    pub device : DeviceKey
    pub output : CastKmsOutput

  pub record OutputReservationRelease : Type 0 where
    pub token : ℕ  -- u64
    pub device : DeviceKey
    pub output_id : CastKmsOutputId

  pub record OutputSlotPool : Type 0 where
    pub next_token : ℕ  -- u64
    pub claims : CastKmsOutputId → Option OutputClaim
    pub devices : DeviceKey → Option CastKmsOutputId

-- What the program uses of `PathBuf`.
pub record PathOperations (PathBuf : Type 0) : Type 0 where
  pub same : Discrete PathBuf
  pub before : PathBuf → PathBuf → Bool
  pub is_absolute : PathBuf → Bool

module _ {PathBuf : Type 0} (paths : PathOperations PathBuf) where
  unfoldable pub id_discrete : Discrete (CastKmsOutputId PathBuf)
  unfolding ℕ_discrete
  id_discrete = hlevel (paths.same, ℕ_discrete)

  unfoldable pub connector_discrete : Discrete (PathBuf × ℕ)
  unfolding ℕ_discrete
  connector_discrete = hlevel (paths.same, ℕ_discrete)

  -- The derived `Ord` of `CastKmsOutputId`.
  abbrev pub id_before : CastKmsOutputId PathBuf → CastKmsOutputId PathBuf → Bool
  id_before a b =
      if eqb paths.same a.device_path b.device_path
      then ltb a.output_index b.output_index
      else paths.before a.device_path b.device_path

  unfoldable pub well_formed : CastKmsOutput PathBuf → Bool
  well_formed output =
      paths.is_absolute output.node_path
      && paths.is_absolute output.id.device_path
      && not (output.device_major == 0)
      && not (output.connector_id == 0)
      && not (is_empty output.connector_name)

  -- The loop of `validate_inventory`, with the identities and the connectors seen so far.
  unfoldable pub validate_unseen :
      List (CastKmsOutputId PathBuf) → List (PathBuf × ℕ) → List (CastKmsOutput PathBuf) → Bool
  unfolding well_formed
  validate_unseen identities connectors [] = true
  validate_unseen identities connectors (output ∷ rest) =
      well_formed output
      && not (contains id_discrete output.id identities)
      && not (contains connector_discrete (output.id.device_path, output.connector_id) connectors)
      && validate_unseen (output.id ∷ identities)
          ((output.id.device_path, output.connector_id) ∷ connectors) rest

  unfoldable pub validate_inventory : List (CastKmsOutput PathBuf) → Bool
  unfolding validate_unseen
  validate_inventory outputs = validate_unseen [] [] outputs

  abbrev pub available : OutputSlotPool PathBuf → CastKmsOutput PathBuf → Bool
  available pool output = is_available output.connection && not (is_some (pool.claims output.id))

  -- `filter` and `min_by`: the first of the outputs that no other is before.
  abbrev pub lesser :
      CastKmsOutput PathBuf → Option (CastKmsOutput PathBuf) → Option (CastKmsOutput PathBuf)
  lesser x none = some x
  lesser x (some y) = if id_before y.id x.id then some y else some x

  unfoldable pub min_by_id :
      (CastKmsOutput PathBuf → Bool) → List (CastKmsOutput PathBuf) → Option (CastKmsOutput PathBuf)
  min_by_id p [] = none
  min_by_id p (x ∷ xs) = let rest = min_by_id p xs in if p x then lesser x rest else rest

  unfoldable pub find_preferred :
      OutputSlotPool PathBuf
      → List (CastKmsOutput PathBuf)
      → Option (CastKmsOutputId PathBuf)
      → Option (CastKmsOutput PathBuf)
  find_preferred pool outputs none = none
  find_preferred pool outputs (some preferred) =
      find (λ output. eqb id_discrete output.id preferred && available pool output) outputs

  unfoldable pub select :
      OutputSlotPool PathBuf
      → List (CastKmsOutput PathBuf)
      → Option (CastKmsOutputId PathBuf)
      → Option (CastKmsOutput PathBuf)
  select pool outputs preferred =
      or_else (find_preferred pool outputs preferred) (min_by_id (available pool) outputs)

  abbrev pub claimed :
      OutputSlotPool PathBuf → ℕ → DeviceKey → CastKmsOutput PathBuf → OutputSlotPool PathBuf
  claimed pool token device selected = record {
    next_token = token;
    claims = insert id_discrete selected.id (record { token = token; device = device }) pool.claims;
    devices = insert DeviceKey-discrete device selected.id pool.devices;
  }

  unfoldable pub grant :
      OutputSlotPool PathBuf
      → DeviceKey
      → Option ℕ
      → CastKmsOutput PathBuf
      → Result OutputReservationError (OutputSlotPool PathBuf × OutputReservation PathBuf)
  grant pool device none selected = err token_exhausted
  grant pool device (some token) selected = ok (
    claimed pool token device selected,
    record { token = token; device = device; output = selected },
  )

  unfoldable pub reserve_selected :
      OutputSlotPool PathBuf
      → DeviceKey
      → Option (CastKmsOutput PathBuf)
      → Result OutputReservationError (OutputSlotPool PathBuf × OutputReservation PathBuf)
  unfolding grant
  reserve_selected pool device none = err capacity_exhausted
  reserve_selected pool device (some selected) =
      grant pool device (checked_add pool.next_token 1) selected

  -- An error comes before the first change of the pool.
  unfoldable pub reserve :
      OutputSlotPool PathBuf
      → DeviceKey
      → List (CastKmsOutput PathBuf)
      → Option (CastKmsOutputId PathBuf)
      → Result OutputReservationError (OutputSlotPool PathBuf × OutputReservation PathBuf)
  unfolding reserve_selected
  reserve pool device outputs preferred =
      if is_some (pool.devices device)
      then err (device_already_claimed device)
      else if not (validate_inventory outputs)
      then err invalid_inventory
      else reserve_selected pool device (select pool outputs preferred)

  -- `OutputReservation::release`.
  abbrev pub release_of : OutputReservation PathBuf → OutputReservationRelease PathBuf
  release_of r = record { token = r.token; device = r.device; output_id = r.output.id }

  abbrev pub matches : Option OutputClaim → OutputReservationRelease PathBuf → Bool
  matches none r = false
  matches (some claim) r = claim.token == r.token && eqb DeviceKey-discrete claim.device r.device

  abbrev pub released :
      OutputSlotPool PathBuf → CastKmsOutputId PathBuf → DeviceKey → OutputSlotPool PathBuf
  released pool id device = record pool {
    claims = remove id_discrete id pool.claims;
    devices = remove DeviceKey-discrete device pool.devices;
  }

  pub release :
      OutputSlotPool PathBuf → OutputReservationRelease PathBuf → OutputSlotPool PathBuf × Bool
  release pool r =
      if matches (pool.claims r.output_id) r
      then (released pool r.output_id r.device, true)
      else (pool, false)

  -- `OutputSlotPool::default`.
  abbrev pub default_pool : OutputSlotPool PathBuf
  default_pool = record { next_token = 0; claims = λ _. none; devices = λ _. none }
