-- ===== src/Protocol/Capabilities.antt =====
-- What the capabilities of a device that crates/pronk-backend-protocol/src/session.rs admits are like, said
-- without the order of its tests and without its sets.
use pronk.Common.{
  ℕ, ◌/◌, ◌%◌, ◌≤◌, ◌≡◌, ◌≢◌, ◌↔◌, ◌⊎◌, false, not, Option, none, some, List, [], ◌∷◌, arith,
  length, All, Bytes, Bytes-discrete, ℕ_discrete, ok, String,
}
use pronk.Protocol.{
  Validation, any, validate_token, validate_generation, validate_count, is_token_byte,
}
use pronk.Protocol.Admission.{IsText, Distinct, validate_text_lem, seen_lem}
use pronk.Protocol.Session.{
  validate_feature_bits, validate_profile_id, validate_range, validate_all, validate_bounded,
  validate_nonempty_bounded, validate_unique, DisplayMode, validate_mode, VideoProfile,
  validate_video, AudioProfile, validate_rates, validate_audio, video_ids, audio_ids,
  IdentitySource, absent, setup_endpoint, authenticated_device_info, discovery_advertisement,
  DisplayIdentity, validate_sourced_identity, is_uppercase, validate_pnp, validate_display_identity,
  DeviceCapabilities, validate_profiles, validate_capabilities,
}

pub record IsToken (value : Bytes) (limit : ℕ) : Type 0 where
  pub text : IsText value limit
  pub bytes : any (λ b. not (is_token_byte b)) value ≡ false

abbrev pub IsWithin : ℕ → ℕ → ℕ → Type 0
IsWithin low high value = (low ≤ value) × (value ≤ high)

pub record IsMode (mode : DisplayMode) : Type 0 where
  pub width : IsWithin 320 7680 mode.width
  pub height : IsWithin 240 4320 mode.height
  pub refresh : IsWithin 1000 240000 mode.refresh_millihz
  pub flags : mode.flags ≡ 0

pub record IsVideo (profile : VideoProfile) : Type 0 where
  pub id : IsToken profile.profile_id 128
  pub codec : IsToken profile.codec 64
  pub width : IsWithin 320 7680 profile.max_width
  pub height : IsWithin 240 4320 profile.max_height
  pub refresh : IsWithin 1000 240000 profile.max_refresh_millihz

pub record IsAudio (profile : AudioProfile) : Type 0 where
  pub id : IsToken profile.profile_id 128
  pub codec : IsToken profile.codec 64
  pub channels : IsWithin 1 8 profile.max_channels
  pub some_rate : length profile.sample_rates ≢ 0
  pub few : length profile.sample_rates ≤ 16
  pub rates : All (IsWithin 8000 192000) profile.sample_rates
  pub different : Distinct [] profile.sample_rates

-- A name is there exactly if its source is, and is then a text.
abbrev pub IsSourced : Option Bytes → IdentitySource → ℕ → Type 0
IsSourced none source limit = source ≡ absent
IsSourced (some value) source limit = (source ≢ absent) × IsText value limit

abbrev pub IsVouched : IdentitySource → Type 0
IsVouched source = (source ≡ setup_endpoint) ⊎ (source ≡ authenticated_device_info)

abbrev pub IsPnp : Option Bytes → IdentitySource → Type 0
IsPnp none source = Unit
IsPnp (some pnp_id) source =
    (length pnp_id ≡ 3) × (any (λ b. not (is_uppercase b)) pnp_id ≡ false) × IsVouched source

pub record IsIdentity (identity : DisplayIdentity) : Type 0 where
  pub manufacturer : IsSourced identity.manufacturer_name identity.manufacturer_source 128
  pub product : IsSourced identity.product_name identity.product_source 106
  pub pnp : IsPnp identity.pnp_id identity.manufacturer_source

pub record IsCapabilities (c : DeviceCapabilities) : Type 0 where
  pub generation : c.preparation_generation ≢ 0
  pub identity : IsIdentity c.display_identity
  pub some_mode : length c.modes ≢ 0
  pub few_modes : length c.modes ≤ 64
  pub modes : All IsMode c.modes
  pub some_video : length c.video_profiles ≢ 0
  pub few_video : length c.video_profiles ≤ 16
  pub video : All IsVideo c.video_profiles
  pub video_ids : Distinct [] (video_ids c.video_profiles)
  pub few_audio : length c.audio_profiles ≤ 16
  pub audio : All IsAudio c.audio_profiles
  pub audio_ids : Distinct [] (audio_ids c.audio_profiles)
  pub known : c.features / 4 ≡ 0
  pub audio_feature : (c.features % 2 ≡ 1) ↔ (length c.audio_profiles ≢ 0)

pub validate_token_lem :
    (field : String) (value : Bytes) (limit : ℕ)
    → (validate_token field value limit ≡ ok tt) ↔ IsToken value limit
unfolding validate_token
validate_token_lem field value limit = ground (arith, validate_text_lem field value limit)

pub validate_range_lem :
    (field : String) (actual minimum maximum : ℕ)
    → (validate_range field actual minimum maximum ≡ ok tt) ↔ IsWithin minimum maximum actual
unfolding validate_range
validate_range_lem field actual minimum maximum = ground arith

pub validate_all_lem :
    {T : Type 0} {P : T → Type 0} (validate : T → Validation)
    → ((value : T) → (validate value ≡ ok tt) ↔ P value)
    → (values : List T) → (validate_all validate values ≡ ok tt) ↔ All P values
unfolding validate_all
validate_all_lem validate h [] = ground arith
validate_all_lem validate h (value ∷ rest) =
    ground (arith, h value, validate_all_lem validate h rest)

validate_unique_lem :
    (field : String) (earlier identifiers : List Bytes)
    → (validate_unique field earlier identifiers ≡ ok tt) ↔ Distinct earlier identifiers
unfolding validate_unique
validate_unique_lem field earlier [] = ground arith
validate_unique_lem field earlier (identifier ∷ rest) = ground (
  arith,
  seen_lem Bytes-discrete identifier earlier,
  validate_unique_lem field (identifier ∷ earlier) rest,
)

pub validate_mode_lem : (mode : DisplayMode) → (validate_mode mode ≡ ok tt) ↔ IsMode mode
unfolding validate_mode
validate_mode_lem mode = ground (
  arith,
  validate_range_lem "mode width" mode.width 320 7680,
  validate_range_lem "mode height" mode.height 240 4320,
  validate_range_lem "mode refresh millihertz" mode.refresh_millihz 1000 240000,
)

validate_video_lem : (profile : VideoProfile) → (validate_video profile ≡ ok tt) ↔ IsVideo profile
unfolding validate_video validate_profile_id
validate_video_lem profile = ground (
  arith,
  validate_token_lem "video profile ID" profile.profile_id 128,
  validate_token_lem "video codec" profile.codec 64,
  validate_range_lem "video maximum width" profile.max_width 320 7680,
  validate_range_lem "video maximum height" profile.max_height 240 4320,
  validate_range_lem "video maximum refresh millihertz" profile.max_refresh_millihz 1000 240000,
)

validate_rates_lem :
    (to_string : ℕ → Bytes) (earlier rates : List ℕ)
    → (validate_rates to_string earlier rates ≡ ok tt)
      ↔ (All (IsWithin 8000 192000) rates × Distinct earlier rates)
unfolding validate_rates
validate_rates_lem to_string earlier [] = ground arith
validate_rates_lem to_string earlier (rate ∷ rest) = ground (
  arith,
  validate_range_lem "audio sample rate" rate 8000 192000,
  seen_lem ℕ_discrete rate earlier,
  validate_rates_lem to_string (rate ∷ earlier) rest,
)

validate_audio_lem :
    (to_string : ℕ → Bytes) (profile : AudioProfile)
    → (validate_audio to_string profile ≡ ok tt) ↔ IsAudio profile
unfolding validate_audio validate_profile_id validate_count
validate_audio_lem to_string profile = ground (
  arith,
  validate_token_lem "audio profile ID" profile.profile_id 128,
  validate_token_lem "audio codec" profile.codec 64,
  validate_range_lem "audio maximum channels" profile.max_channels 1 8,
  validate_rates_lem to_string [] profile.sample_rates,
)

validate_sourced_identity_lem :
    (field : String) (value : Option Bytes) (source : IdentitySource) (limit : ℕ)
    → (validate_sourced_identity field value source limit ≡ ok tt) ↔ IsSourced value source limit
unfolding validate_sourced_identity
validate_sourced_identity_lem field none absent limit = ground arith
validate_sourced_identity_lem field (some v) absent limit = ground arith
validate_sourced_identity_lem field none setup_endpoint limit = ground arith
validate_sourced_identity_lem field none authenticated_device_info limit = ground arith
validate_sourced_identity_lem field none discovery_advertisement limit = ground arith
validate_sourced_identity_lem field (some v) setup_endpoint limit =
    ground (arith, validate_text_lem field v limit)
validate_sourced_identity_lem field (some v) authenticated_device_info limit =
    ground (arith, validate_text_lem field v limit)
validate_sourced_identity_lem field (some v) discovery_advertisement limit =
    ground (arith, validate_text_lem field v limit)

validate_pnp_lem :
    (pnp_id : Option Bytes) (source : IdentitySource)
    → (validate_pnp pnp_id source ≡ ok tt) ↔ IsPnp pnp_id source
unfolding validate_pnp
validate_pnp_lem none source = ground arith
validate_pnp_lem (some pnp_id) absent = ground arith
validate_pnp_lem (some pnp_id) setup_endpoint = ground arith
validate_pnp_lem (some pnp_id) authenticated_device_info = ground arith
validate_pnp_lem (some pnp_id) discovery_advertisement = ground arith

validate_display_identity_lem :
    (identity : DisplayIdentity)
    → (validate_display_identity identity ≡ ok tt) ↔ IsIdentity identity
unfolding validate_display_identity
validate_display_identity_lem identity = ground (
  arith,
  validate_sourced_identity_lem "manufacturer name" identity.manufacturer_name
      identity.manufacturer_source 128,
  validate_sourced_identity_lem "product name" identity.product_name identity.product_source 106,
  validate_pnp_lem identity.pnp_id identity.manufacturer_source,
)

-- Capabilities are admitted exactly when their generation is not zero; each name has a source exactly
-- if it is there, and a PNP identifier three capital letters and a source that the device vouches for;
-- there are one to 64 modes and one to 16 video profiles, at most 16 audio profiles, all of them within
-- their ranges, and no two profiles of a kind with one identifier; and the features are known ones, with
-- audio exactly if there is an audio profile.
pub validate_capabilities_lem :
    (to_string : ℕ → Bytes) (c : DeviceCapabilities)
    → (validate_capabilities to_string c ≡ ok tt) ↔ IsCapabilities c
unfolding validate_capabilities validate_profiles validate_feature_bits validate_nonempty_bounded
    validate_bounded validate_generation validate_count
validate_capabilities_lem to_string c = ground (
  arith,
  validate_display_identity_lem c.display_identity,
  validate_all_lem validate_mode validate_mode_lem c.modes,
  validate_all_lem validate_video validate_video_lem c.video_profiles,
  validate_all_lem (validate_audio to_string) (validate_audio_lem to_string) c.audio_profiles,
  validate_unique_lem "video profile" [] (video_ids c.video_profiles),
  validate_unique_lem "audio profile" [] (audio_ids c.audio_profiles),
)
