-- ===== src/Recovery/Compatibility.antt =====
-- `PreparedCastDevice::validate_recovery` of crates/pronk/src/preparation.rs, with
-- `has_same_monitor_configuration` of crates/pronk-core/src/edid.rs.
use pronk.Common.{
  ℕ, Bool, ◌&&◌, ◌||◌, not, Option, none, some, List, [], ◌∷◌, eqb, if◌then◌else◌, Bytes,
  Bytes-discrete, ℕ_discrete, Result, ok, err,
}
use pronk.Edid.Timings.{EdidMode, Mode-discrete}
use pronk.Edid.Blocks.{EdidNumericIdentity}
use pronk.Edid.Build.{GeneratedCastDisplayEdid}
use pronk.Protocol.Session.{VideoProfile, AudioProfile}
use pronk.Preparation.{PreparedCastDevice}

unfoldable pub Numeric-discrete : Discrete EdidNumericIdentity
unfolding ℕ_discrete
Numeric-discrete = hlevel ℕ_discrete

unfoldable pub Modes-discrete : Discrete (List EdidMode)
unfolding Mode-discrete ℕ_discrete
Modes-discrete = hlevel (Mode-discrete, ℕ_discrete)

unfoldable pub Audio-discrete : Discrete Bool
Audio-discrete = hlevel

unfoldable pub Address-discrete : Discrete (Option ℕ)
unfolding ℕ_discrete
Address-discrete = hlevel ℕ_discrete

unfoldable pub VideoProfile-discrete : Discrete (Option VideoProfile)
unfolding Bytes-discrete ℕ_discrete
VideoProfile-discrete = hlevel (Bytes-discrete, ℕ_discrete)

unfoldable pub AudioProfile-discrete : Discrete (Option AudioProfile)
unfolding Bytes-discrete ℕ_discrete
AudioProfile-discrete = hlevel (Bytes-discrete, ℕ_discrete)

pub data PreparedDeviceRecoveryError : Type 0 where
  different_device edid_changed : PreparedDeviceRecoveryError
  video_profile_changed audio_profile_changed : Bytes → PreparedDeviceRecoveryError

unfoldable pub has_same_monitor_configuration :
    GeneratedCastDisplayEdid → GeneratedCastDisplayEdid → Bool
has_same_monitor_configuration a b =
    eqb Numeric-discrete a.identity b.identity
    && eqb Modes-discrete a.modes b.modes
    && eqb Audio-discrete a.audio b.audio
    && eqb Address-discrete a.cec_physical_address b.cec_physical_address

abbrev pub find_video : Bytes → List VideoProfile → Option VideoProfile
find_video id [] = none
find_video id (profile ∷ rest) =
    let others = find_video id rest in
    if eqb Bytes-discrete profile.profile_id id then some profile else others

abbrev pub find_audio : Bytes → List AudioProfile → Option AudioProfile
find_audio id [] = none
find_audio id (profile ∷ rest) =
    let others = find_audio id rest in
    if eqb Bytes-discrete profile.profile_id id then some profile else others

abbrev pub Compatible : Type 0
Compatible = Result PreparedDeviceRecoveryError (Unit {0})

abbrev pub validate_first_audio : List AudioProfile → List AudioProfile → Compatible
validate_first_audio [] replacement = ok tt
validate_first_audio (audio ∷ _) replacement =
    if eqb AudioProfile-discrete (find_audio audio.profile_id replacement) (some audio)
    then ok tt
    else err (audio_profile_changed audio.profile_id)

-- `none` is the panic without a video profile.
abbrev pub validate_profiles_of :
    List VideoProfile → PreparedCastDevice → PreparedCastDevice → Option Compatible
validate_profiles_of [] p replacement = none
validate_profiles_of (video ∷ _) p replacement =
    let audio =
      validate_first_audio p.capabilities.audio_profiles replacement.capabilities.audio_profiles in
    some (
      if eqb VideoProfile-discrete
        (find_video video.profile_id replacement.capabilities.video_profiles) (some video)
      then audio
      else err (video_profile_changed video.profile_id))

unfoldable pub validate_recovery : PreparedCastDevice → PreparedCastDevice → Option Compatible
validate_recovery p replacement =
    let same_backend = eqb Bytes-discrete p.device.backend_id replacement.device.backend_id in
    let same_device = eqb Bytes-discrete p.device.device_id replacement.device.device_id in
    if not same_backend || not same_device
    then some (err different_device)
    else if not (has_same_monitor_configuration p.generated_edid replacement.generated_edid)
    then some (err edid_changed)
    else validate_profiles_of p.capabilities.video_profiles p replacement
