-- ===== src/Protocol/Layouts.antt =====
-- What the media configurations that crates/pronk-backend-protocol/src/session.rs admits are like.
use pronk.Common.{
  ℕ, ◌&&◌, ◌==◌, is_some, if◌then◌else◌, ◌≤◌, ◌≡◌, ◌≢◌, ◌↔◌, false, true, not, Option, none, some,
  List, [], ◌∷◌, arith, length, All, u32_max, Bytes, ok,
}
use pronk.Protocol.{validate_generation, validate_count}
use pronk.Protocol.Admission.{IsText, validate_text_lem}
use pronk.Protocol.Session.{validate_profile_id}
use pronk.Protocol.Capabilities.{
  IsToken, IsWithin, IsMode, validate_token_lem, validate_range_lem, validate_mode_lem,
}
use pronk.Protocol.Media.{
  validate_session_id, video, audio, Kind-discrete, PipeWireTarget, validate_target,
  MediaConfiguration, validate_audio_profile_id, validate_configuration, validate_targets, is_kind,
  validate_media_configuration,
}

pub record IsTarget (media_generation : ℕ) (target : PipeWireTarget) : Type 0 where
  pub node : IsText target.node_name 256
  pub serial : target.object_serial ≢ 0
  pub session : validate_session_id target.session_id ≡ ok tt
  pub device : IsToken target.device_instance 128
  pub connector : IsWithin 1 u32_max target.connector_id
  pub output : target.output_index ≤ 127
  pub generation : target.media_generation ≡ media_generation
  pub caps : IsText target.caps 256

abbrev pub IsAudioId : Option Bytes → Type 0
IsAudioId none = Unit
IsAudioId (some id) = IsToken id 128

pub record IsConfiguration (configuration : MediaConfiguration) : Type 0 where
  pub video_id : IsToken configuration.video_profile_id 128
  pub audio_id : IsAudioId configuration.audio_profile_id
  pub mode : IsMode configuration.mode
  pub bitrate : IsWithin 1 1000000000 configuration.video_bitrate

-- One video target without an audio profile, and a video and an audio target with one.
abbrev pub IsLayout : Option Bytes → List PipeWireTarget → Type 0
IsLayout none (t ∷ []) = t.kind ≡ video
IsLayout (some _) (t ∷ u ∷ []) = (t.kind ≡ video) × (u.kind ≡ audio)
IsLayout _ _ = ⊥

validate_target_lem :
    (generation : ℕ) (target : PipeWireTarget)
    → generation ≢ 0
    → ((validate_target target ≡ ok tt) × (target.media_generation ≡ generation))
      ↔ IsTarget generation target
unfolding validate_target validate_generation
validate_target_lem generation target h = ground (
  arith,
  validate_text_lem "PipeWire node name" target.node_name 256,
  validate_token_lem "device instance" target.device_instance 128,
  validate_range_lem "connector ID" target.connector_id 1 u32_max,
  validate_range_lem "output index" target.output_index 0 127,
  validate_text_lem "PipeWire caps" target.caps 256,
)

validate_targets_lem :
    (generation : ℕ) (targets : List PipeWireTarget)
    → generation ≢ 0
    → (validate_targets generation targets ≡ ok tt) ↔ All (IsTarget generation) targets
unfolding validate_targets
validate_targets_lem generation [] h = ground arith
validate_targets_lem generation (target ∷ rest) h =
    ground (arith, validate_target_lem generation target h, validate_targets_lem generation rest h)

validate_audio_profile_id_lem :
    (id : Option Bytes) → (validate_audio_profile_id id ≡ ok tt) ↔ IsAudioId id
unfolding validate_audio_profile_id validate_profile_id
validate_audio_profile_id_lem none = ground arith
validate_audio_profile_id_lem (some id) =
    ground (arith, validate_token_lem "audio profile ID" id 128)

validate_configuration_lem :
    (configuration : MediaConfiguration)
    → (validate_configuration configuration ≡ ok tt) ↔ IsConfiguration configuration
unfolding validate_configuration validate_profile_id
validate_configuration_lem configuration = ground (
  arith,
  validate_audio_profile_id_lem configuration.audio_profile_id,
  validate_token_lem "video profile ID" configuration.video_profile_id 128,
  validate_mode_lem configuration.mode,
  validate_range_lem "video bitrate" configuration.video_bitrate 1 1000000000,
)

abbrev expected_of : Option Bytes → ℕ
expected_of id = if is_some id then 2 else 1

abbrev IsSeparate : Option Bytes → List PipeWireTarget → Type 0
IsSeparate id targets =
    (expected_of id ≡ length targets)
    × (is_kind video targets 0 ≡ true)
    × ((expected_of id == 2) && not (is_kind audio targets 1) ≡ false)

layout_lem :
    (id : Option Bytes) (targets : List PipeWireTarget)
    → IsSeparate id targets ↔ IsLayout id targets
unfolding Kind-discrete
layout_lem none [] = ground arith
layout_lem none (t ∷ []) = ground arith
layout_lem none (t ∷ u ∷ rest) = ground arith
layout_lem (some id) [] = ground arith
layout_lem (some id) (t ∷ []) = ground arith
layout_lem (some id) (t ∷ u ∷ []) = ground arith
layout_lem (some id) (t ∷ u ∷ v ∷ rest) = ground arith

-- A media configuration is admitted exactly when its generation is not zero, the configuration itself
-- is valid, there are as many remotes as targets, the targets are one of video and, exactly if an audio
-- profile is chosen, one of audio after it, and each of them is valid and of this generation.
pub validate_media_configuration_lem :
    (remote_count : ℕ) (targets : List PipeWireTarget) (configuration : MediaConfiguration)
    (generation : ℕ)
    → (validate_media_configuration remote_count targets configuration generation ≡ ok tt) ↔ (
        (generation ≢ 0)
        × IsConfiguration configuration
        × (remote_count ≡ length targets)
        × IsLayout configuration.audio_profile_id targets
        × All (IsTarget generation) targets)
unfolding validate_media_configuration validate_generation validate_count
validate_media_configuration_lem remote_count targets configuration generation = ground (
  arith,
  validate_configuration_lem configuration,
  validate_targets_lem generation targets,
  layout_lem configuration.audio_profile_id targets,
)
