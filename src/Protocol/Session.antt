-- ===== src/Protocol/Session.antt =====
-- crates/pronk-backend-protocol/src/session.rs: what the parties of a session admit of an offer, of the
-- capabilities of a device and of a media configuration. A text is its UTF-8 bytes.
use pronk.Common.{
  ℕ, ◌*◌, ◌/◌, ◌%◌, Bool, true, false, ◌&&◌, ◌||◌, not, Option, none, some, List, [], ◌∷◌, ◌==◌,
  length, Bytes, Bytes-discrete, ℕ_discrete, ok, err, ◌>>◌, String,
}
use pronk.Protocol.{
  empty, unknown_capabilities, out_of_range, unexpected_identity_value, missing_identity_value,
  invalid_pnp_id, duplicate_identifier, invalid_media_layout, Validation, refuse_if, between, any,
  validate_text, validate_token, validate_generation, validate_count, seen,
}

abbrev pub max_modes : ℕ
max_modes = 64

abbrev pub max_video_profiles : ℕ
max_video_profiles = 16

abbrev pub max_audio_profiles : ℕ
max_audio_profiles = 16

abbrev pub max_endpoints : ℕ
max_endpoints = 16

abbrev pub max_node_name_bytes : ℕ
max_node_name_bytes = 256

abbrev pub max_manufacturer_name_bytes : ℕ
max_manufacturer_name_bytes = 128

abbrev pub max_product_name_bytes : ℕ
max_product_name_bytes = 106

-- The two bits of the known features.
abbrev pub has_audio : ℕ → Bool
has_audio features = features % 2 == 1

abbrev pub has_control_feature : ℕ → Bool
has_control_feature features = features / 2 % 2 == 1

unfoldable pub validate_feature_bits : ℕ → Validation
validate_feature_bits features =
    refuse_if (not (features / 4 == 0)) (unknown_capabilities (features / 4 * 4))

unfoldable pub validate_profile_id : String → Bytes → Validation
validate_profile_id field value = validate_token field value 128

unfoldable pub validate_range : String → ℕ → ℕ → ℕ → Validation
validate_range field actual minimum maximum =
    refuse_if (not (between minimum maximum actual)) (out_of_range field actual minimum maximum)

module _ {T : Type 0} (validate : T → Validation) where
  unfoldable pub validate_all : List T → Validation
  validate_all [] = ok tt
  validate_all (value ∷ rest) = validate value >> validate_all rest

  unfoldable pub validate_bounded : String → List T → ℕ → Validation
  validate_bounded field values maximum =
      validate_count field (length values) maximum >> validate_all values

  unfoldable pub validate_nonempty_bounded : String → List T → ℕ → Validation
  validate_nonempty_bounded field values maximum =
      refuse_if (length values == 0) (empty field) >> validate_bounded field values maximum

-- `validate_unique_profiles` on the identifiers, with those seen so far.
unfoldable pub validate_unique : String → List Bytes → List Bytes → Validation
validate_unique field identifiers [] = ok tt
validate_unique field identifiers (identifier ∷ rest) =
    refuse_if (seen Bytes-discrete identifier identifiers) (duplicate_identifier field identifier)
    >> validate_unique field (identifier ∷ identifiers) rest

pub record DisplayMode : Type 0 where
  pub width : ℕ  -- u32
  pub height : ℕ  -- u32
  pub refresh_millihz : ℕ  -- u32
  pub flags : ℕ  -- u32

unfoldable pub validate_mode : DisplayMode → Validation
validate_mode mode =
    validate_range "mode width" mode.width 320 7680
    >> validate_range "mode height" mode.height 240 4320
    >> validate_range "mode refresh millihertz" mode.refresh_millihz 1000 240000
    >> refuse_if (not (mode.flags == 0)) (out_of_range "mode flags" mode.flags 0 0)

pub record VideoProfile : Type 0 where
  pub profile_id : Bytes
  pub codec : Bytes
  pub max_width : ℕ  -- u32
  pub max_height : ℕ  -- u32
  pub max_refresh_millihz : ℕ  -- u32

unfoldable pub validate_video : VideoProfile → Validation
validate_video profile =
    validate_profile_id "video profile ID" profile.profile_id
    >> validate_token "video codec" profile.codec 64
    >> validate_range "video maximum width" profile.max_width 320 7680
    >> validate_range "video maximum height" profile.max_height 240 4320
    >> validate_range "video maximum refresh millihertz" profile.max_refresh_millihz 1000 240000

pub record AudioProfile : Type 0 where
  pub profile_id : Bytes
  pub codec : Bytes
  pub max_channels : ℕ  -- u8
  pub sample_rates : List ℕ  -- u32

-- The loop over the sample rates; the repeated rate is its digits in the source.
unfoldable pub validate_rates : (ℕ → Bytes) → List ℕ → List ℕ → Validation
validate_rates to_string rates [] = ok tt
validate_rates to_string rates (rate ∷ rest) =
    validate_range "audio sample rate" rate 8000 192000
    >> refuse_if (seen ℕ_discrete rate rates)
        (duplicate_identifier "audio sample rate" (to_string rate))
    >> validate_rates to_string (rate ∷ rates) rest

unfoldable pub validate_audio : (ℕ → Bytes) → AudioProfile → Validation
validate_audio to_string profile =
    validate_profile_id "audio profile ID" profile.profile_id
    >> validate_token "audio codec" profile.codec 64
    >> validate_range "audio maximum channels" profile.max_channels 1 8
    >> validate_count "audio sample rates" (length profile.sample_rates) 16
    >> refuse_if (length profile.sample_rates == 0) (empty "audio sample rates")
    >> validate_rates to_string [] profile.sample_rates

abbrev pub video_ids : List VideoProfile → List Bytes
video_ids [] = []
video_ids (profile ∷ rest) = profile.profile_id ∷ video_ids rest

abbrev pub audio_ids : List AudioProfile → List Bytes
audio_ids [] = []
audio_ids (profile ∷ rest) = profile.profile_id ∷ audio_ids rest

pub data IdentitySource : Type 0 where
  absent setup_endpoint authenticated_device_info discovery_advertisement : IdentitySource

pub record DisplayIdentity : Type 0 where
  pub manufacturer_name : Option Bytes
  pub manufacturer_source : IdentitySource
  pub product_name : Option Bytes
  pub product_source : IdentitySource
  pub pnp_id : Option Bytes

unfoldable pub validate_sourced_identity : String → Option Bytes → IdentitySource → ℕ → Validation
validate_sourced_identity field none absent limit = ok tt
validate_sourced_identity field (some _) absent limit = err (unexpected_identity_value field)
validate_sourced_identity field none _ limit = err (missing_identity_value field)
validate_sourced_identity field (some value) _ limit = validate_text field value limit

abbrev pub is_uppercase : ℕ → Bool
is_uppercase b = between 65 90 b

-- `matches!` on the two sources that a device vouches for.
abbrev pub is_vouched : IdentitySource → Bool
is_vouched setup_endpoint = true
is_vouched authenticated_device_info = true
is_vouched _ = false

unfoldable pub validate_pnp : Option Bytes → IdentitySource → Validation
validate_pnp none source = ok tt
validate_pnp (some pnp_id) source =
    refuse_if (not (length pnp_id == 3) || any (λ b. not (is_uppercase b)) pnp_id) invalid_pnp_id
    >> refuse_if (not (is_vouched source)) (
        invalid_media_layout
          "PNP ID requires setup or authenticated device manufacturer provenance")

unfoldable pub validate_display_identity : DisplayIdentity → Validation
validate_display_identity identity =
    validate_sourced_identity "manufacturer name" identity.manufacturer_name
      identity.manufacturer_source max_manufacturer_name_bytes
    >> validate_sourced_identity "product name" identity.product_name identity.product_source
        max_product_name_bytes
    >> validate_pnp identity.pnp_id identity.manufacturer_source

pub record DeviceCapabilities : Type 0 where
  pub preparation_generation : ℕ  -- u64
  pub display_identity : DisplayIdentity
  pub modes : List DisplayMode
  pub video_profiles : List VideoProfile
  pub audio_profiles : List AudioProfile
  pub features : ℕ  -- u64

module _ (to_string : ℕ → Bytes) where
  -- The checks that an offer and capabilities share, on the profiles.
  unfoldable pub validate_profiles : List VideoProfile → List AudioProfile → Validation
  validate_profiles video audio =
      validate_unique "video profile" [] (video_ids video)
      >> validate_unique "audio profile" [] (audio_ids audio)

  unfoldable pub validate_capabilities : DeviceCapabilities → Validation
  validate_capabilities c =
      validate_generation "preparation" c.preparation_generation
      >> validate_display_identity c.display_identity
      >> validate_nonempty_bounded validate_mode "device modes" c.modes max_modes
      >> validate_nonempty_bounded validate_video "device video profiles" c.video_profiles
          max_video_profiles
      >> validate_bounded (validate_audio to_string) "device audio profiles" c.audio_profiles
          max_audio_profiles
      >> validate_profiles c.video_profiles c.audio_profiles
      >> validate_feature_bits c.features
      >> refuse_if (has_audio c.features && (length c.audio_profiles == 0))
          (invalid_media_layout "audio capability has no audio profile")
      >> refuse_if (not (has_audio c.features) && not (length c.audio_profiles == 0))
          (invalid_media_layout "audio profiles require the audio capability")
