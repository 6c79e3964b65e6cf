-- ===== src/Protocol/Media.antt =====
-- crates/pronk-backend-protocol/src/session.rs: the options, the offer and the media of a session, its
-- control operations and its object path. A text is its UTF-8 bytes.
use pronk.Common.{
  ℕ, suc, Bool, false, ◌&&◌, ◌||◌, not, Option, none, some, is_some, List, [], ◌∷◌, ◌==◌, eqb,
  if◌then◌else◌, length, get_elem?, u32_max, codes, Bytes, Bytes-discrete, ok, err, ◌>>◌, String,
}
use pronk.Protocol.{
  invalid_session_id, invalid_media_layout, invalid_control_operation, Validation, refuse_if,
  between, validate_text, validate_token, validate_generation, validate_count,
}
use pronk.Protocol.Session.{
  max_modes, max_video_profiles, max_audio_profiles, max_endpoints, max_node_name_bytes, has_audio,
  validate_feature_bits, validate_profile_id, validate_range, validate_bounded,
  validate_nonempty_bounded, DisplayMode, validate_mode, VideoProfile, validate_video, AudioProfile,
  validate_audio, validate_profiles,
}

pub record SessionOptions : Type 0 where
  pub connection_generation : ℕ  -- u64
  pub discovery_generation : ℕ  -- u64
  pub session_generation : ℕ  -- u64
  pub requested_features : ℕ  -- u64

unfoldable pub validate_options : SessionOptions → Validation
validate_options options =
    validate_generation "connection" options.connection_generation
    >> validate_generation "discovery" options.discovery_generation
    >> validate_generation "session" options.session_generation
    >> validate_feature_bits options.requested_features

pub record PreparationRequest : Type 0 where
  pub preparation_generation : ℕ  -- u64
  pub candidate_modes : List DisplayMode
  pub video_profiles : List VideoProfile
  pub audio_profiles : List AudioProfile
  pub requested_features : ℕ  -- u64

unfoldable pub validate_preparation : (ℕ → Bytes) → PreparationRequest → Validation
validate_preparation to_string request =
    validate_generation "preparation" request.preparation_generation
    >> validate_nonempty_bounded validate_mode "candidate modes" request.candidate_modes max_modes
    >> validate_nonempty_bounded validate_video "video profiles" request.video_profiles
        max_video_profiles
    >> validate_bounded (validate_audio to_string) "audio profiles" request.audio_profiles
        max_audio_profiles
    >> validate_profiles to_string request.video_profiles request.audio_profiles
    >> validate_feature_bits request.requested_features
    >> refuse_if (has_audio request.requested_features && (length request.audio_profiles == 0))
        (invalid_media_layout "audio was requested without an audio profile")

-- A digit or a letter from a to f.
abbrev pub is_hex : ℕ → Bool
is_hex b = between 48 57 b || between 97 102 b

-- The loop of `validate_session_id`, by the index.
unfoldable pub validate_characters : ℕ → Bytes → Validation
validate_characters index [] = ok tt
validate_characters index (byte ∷ rest) =
    refuse_if
      (if (index == 8) || (index == 13) || (index == 18) || (index == 23)
        then not (byte == 45)
        else not (is_hex byte))
      invalid_session_id
    >> validate_characters (suc index) rest

unfoldable pub validate_session_id : Bytes → Validation
validate_session_id session_id =
    refuse_if (not (length session_id == 36)) invalid_session_id >> validate_characters 0 session_id

pub data MediaKind : Type 0 where
  video audio : MediaKind

unfoldable pub Kind-discrete : Discrete (Option MediaKind)
Kind-discrete = hlevel

pub record PipeWireTarget : Type 0 where
  pub kind : MediaKind
  pub node_name : Bytes
  pub object_serial : ℕ  -- u64
  pub session_id : Bytes
  pub device_instance : Bytes
  pub connector_id : ℕ  -- u32
  pub output_index : ℕ  -- u32
  pub media_generation : ℕ  -- u64
  pub caps : Bytes

unfoldable pub validate_target : PipeWireTarget → Validation
validate_target target =
    validate_text "PipeWire node name" target.node_name max_node_name_bytes
    >> validate_generation "PipeWire object serial" target.object_serial
    >> validate_session_id target.session_id
    >> validate_token "device instance" target.device_instance 128
    >> validate_range "connector ID" target.connector_id 1 u32_max
    >> validate_range "output index" target.output_index 0 127
    >> validate_generation "media" target.media_generation
    >> validate_text "PipeWire caps" target.caps max_node_name_bytes

pub record MediaConfiguration : Type 0 where
  pub video_profile_id : Bytes
  pub audio_profile_id : Option Bytes
  pub mode : DisplayMode
  pub video_bitrate : ℕ  -- u64

unfoldable pub validate_audio_profile_id : Option Bytes → Validation
validate_audio_profile_id none = ok tt
validate_audio_profile_id (some id) = validate_profile_id "audio profile ID" id

unfoldable pub validate_configuration : MediaConfiguration → Validation
validate_configuration configuration =
    validate_profile_id "video profile ID" configuration.video_profile_id
    >> validate_audio_profile_id configuration.audio_profile_id
    >> validate_mode configuration.mode
    >> validate_range "video bitrate" configuration.video_bitrate 1 1000000000

-- The loop over the targets.
unfoldable pub validate_targets : ℕ → List PipeWireTarget → Validation
validate_targets media_generation [] = ok tt
validate_targets media_generation (target ∷ rest) =
    validate_target target
    >> refuse_if (not (target.media_generation == media_generation))
        (invalid_media_layout "target generation differs from ConfigureMedia generation")
    >> validate_targets media_generation rest

abbrev pub kind_of : Option PipeWireTarget → Option MediaKind
kind_of none = none
kind_of (some target) = some target.kind

abbrev pub is_kind : MediaKind → List PipeWireTarget → ℕ → Bool
is_kind kind targets i = eqb Kind-discrete (kind_of (get_elem? targets i)) (some kind)

unfoldable pub validate_media_configuration :
    ℕ → List PipeWireTarget → MediaConfiguration → ℕ → Validation
validate_media_configuration remote_count targets configuration media_generation =
    let expected = if is_some configuration.audio_profile_id then 2 else 1 in
    validate_generation "media" media_generation
    >> validate_configuration configuration
    >> validate_count "PipeWire targets" (length targets) max_endpoints
    >> refuse_if (not (remote_count == length targets))
        (invalid_media_layout "remote count differs from target count")
    >> refuse_if (not (remote_count == expected))
        (invalid_media_layout "version 1 requires video, then optional audio")
    >> validate_targets media_generation targets
    >> refuse_if (not (is_kind video targets 0))
        (invalid_media_layout "first remote must target video")
    >> refuse_if ((expected == 2) && not (is_kind audio targets 1))
        (invalid_media_layout "second remote must target audio")

pub data ControlKind : Type 0 where
  activate deactivate power standby key_down key_up volume mute : ControlKind

pub record ControlOperation : Type 0 where
  pub session_generation : ℕ  -- u64
  pub kind : ControlKind
  pub code : Option Bytes
  pub value : ℕ  -- i32, by its 32 bits

unfoldable pub require_control_shape : Bool → String → Validation
require_control_shape valid reason = if valid then ok tt else err (invalid_control_operation reason)

-- `code == Some(word)`.
abbrev pub is_code : Option Bytes → String → Bool
is_code none word = false
is_code (some code) word = eqb Bytes-discrete code (codes word)

abbrev pub simple_shape : ControlOperation → Validation
simple_shape o =
    require_control_shape (not (is_some o.code) && (o.value == 0)) "simple operation shape"

abbrev pub key_shape : ControlOperation → Validation
key_shape o =
    require_control_shape (is_some o.code && (o.value == 0))
      "key operation requires code and zero value"

-- A value of -100 to 100 that is not zero.
abbrev pub is_relative : ℕ → Bool
is_relative value = between 1 100 value || between 4294967196 4294967295 value

unfoldable pub validate_shape : ControlKind → ControlOperation → Validation
validate_shape activate o = simple_shape o
validate_shape deactivate o = simple_shape o
validate_shape standby o = simple_shape o
validate_shape power o =
    require_control_shape ((is_code o.code "on" || is_code o.code "toggle") && (o.value == 0))
      "power requires code on or toggle and zero value"
validate_shape key_down o = key_shape o
validate_shape key_up o = key_shape o
validate_shape volume o =
    if is_code o.code "relative"
    then require_control_shape (is_relative o.value) "relative volume must be nonzero in -100..=100"
    else if is_code o.code "absolute"
    then require_control_shape (between 0 100 o.value) "absolute volume must be in 0..=100"
    else err (invalid_control_operation "volume requires relative or absolute code")
validate_shape mute o =
    require_control_shape
      ((is_code o.code "on" || is_code o.code "off" || is_code o.code "toggle") && (o.value == 0))
      "mute requires code on, off, or toggle and zero value"

unfoldable pub validate_code : Option Bytes → Validation
validate_code none = ok tt
validate_code (some code) = validate_token "control code" code 64

unfoldable pub validate_control : ControlOperation → Validation
validate_control o =
    validate_generation "session" o.session_generation
    >> validate_code o.code
    >> validate_shape o.kind o
