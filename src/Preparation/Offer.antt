-- ===== src/Preparation/Offer.antt =====
-- `initial_preparation_offer` of crates/pronk/src/preparation.rs.
use pronk.Common.{
  ℕ, ◌+◌, ◌≡◌, Bool, true, false, List, [], ◌∷◌, All, is_some, if◌then◌else◌, codes, Bytes, ok,
  refl,
}
use pronk.Protocol.{
  validate_token, validate_text, has_control, validate_generation, validate_count, seen,
}
use pronk.Protocol.Session.{
  DisplayMode, VideoProfile, AudioProfile, validate_nonempty_bounded, validate_bounded,
  validate_all, validate_mode, validate_range, validate_video, validate_audio, validate_rates,
  validate_profile_id, validate_profiles, validate_unique, validate_feature_bits,
}
use pronk.Protocol.Media.{PreparationRequest, validate_preparation}
use pronk.Edid.Timings.{timing_for}
use pronk.Preparation.{edid_mode}

abbrev mode : ℕ → ℕ → ℕ → DisplayMode
mode width height refresh = record {
  width = width;
  height = height;
  refresh_millihz = refresh;
  flags = 0;
}

abbrev pub offered_modes : List DisplayMode
offered_modes =
    mode 3840 2160 30000
    ∷ mode 2560 1440 60000
    ∷ mode 1920 1200 60000
    ∷ mode 1920 1080 60000
    ∷ mode 1680 1050 60000
    ∷ mode 1600 900 60000
    ∷ mode 1440 900 60000
    ∷ mode 1366 768 60000
    ∷ mode 1280 1024 60000
    ∷ mode 1280 800 60000
    ∷ mode 1280 720 60000
    ∷ mode 1024 768 60000
    ∷ mode 800 600 60000
    ∷ mode 640 480 60000
    ∷ []

abbrev pub h264_high : VideoProfile
h264_high = record {
  profile_id = codes "h264-high";
  codec = codes "h264";
  max_width = 3840;
  max_height = 2160;
  max_refresh_millihz = 60000;
}

abbrev pub opus_stereo : AudioProfile
opus_stereo = record {
  profile_id = codes "opus-stereo";
  codec = codes "opus";
  max_channels = 2;
  sample_rates = 48000 ∷ [];
}

unfoldable pub initial_preparation_offer : Bool → PreparationRequest
initial_preparation_offer audio_enabled = record {
  preparation_generation = 1;
  candidate_modes = offered_modes;
  video_profiles = h264_high ∷ [];
  audio_profiles = if audio_enabled then opus_stereo ∷ [] else [];
  requested_features = 2 + (if audio_enabled then 1 else 0);
}

-- The offer is one that a backend admits.
initial_preparation_offer-valid :
    (to_string : ℕ → Bytes) (audio_enabled : Bool)
    → validate_preparation to_string (initial_preparation_offer audio_enabled) ≡ ok tt
unfolding initial_preparation_offer validate_preparation validate_nonempty_bounded validate_bounded
    validate_all validate_mode validate_range validate_video validate_audio validate_rates
    validate_profile_id validate_token validate_text has_control validate_generation validate_count
    validate_profiles validate_unique seen validate_feature_bits
initial_preparation_offer-valid to_string true = refl
initial_preparation_offer-valid to_string false = refl

-- Each of its modes has a timing.
offered_modes-IsSupported : All (λ mode. is_some (timing_for (edid_mode mode)) ≡ true) offered_modes
unfolding timing_for
offered_modes-IsSupported = (
  refl,
  (
    refl,
    (
      refl,
      (refl, (refl, (refl, (refl, (refl, (refl, (refl, (refl, (refl, (refl, (refl, tt))))))))))),
    ),
  ),
)
