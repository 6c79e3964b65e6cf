-- ===== src/Examples/Preparations.antt =====
-- A television that is prepared with a database of one name, and then recovered.
use pronk.Common.{
  ℕ, ◌≡◌, ◌≢◌, ◌↔◌, ◌++◌, true, none, some, List, [], ◌∷◌, Bytes, codes, refl, ap, ok, length, All,
  get, insert_entry, Bytes-discrete, ℕ_discrete, bytes_order,
}
use pronk.Protocol.{has_control}
use pronk.Protocol.Session.{
  DisplayMode, VideoProfile, DeviceCapabilities, setup_endpoint, absent, validate_capabilities,
}
use pronk.Protocol.Capabilities.{IsCapabilities, validate_capabilities_lem}
use pronk.Protocol.Media.{
  PipeWireTarget, MediaKind, MediaConfiguration, validate_media_configuration,
}
use pronk.Protocol.Layouts.{IsTarget, IsConfiguration, IsLayout, validate_media_configuration_lem}
use pronk.Edid.Panics.{Gives}
use pronk.Edid.Timings.{timing_for, Mode-discrete}
use pronk.Edid.Blocks.{PnpId}
use pronk.Edid.Request.{validate_modes}
use pronk.Edid.Identity.{normalize_manufacturer_name, collapse_name}
use pronk.Identity.Values.{
  LineLibraries, PnpIdResolver, Pnp-discrete, bytes_pnp, parse, pop_suffixes, strip_legal_suffixes,
  split_once, trim_end_returns,
}
use pronk.Identity.{
  insert_line, insert_lines, check_names, insert_aliases, index_names, from_database,
}
use pronk.Preparation.{select_initial_modes, supported_modes, from_capabilities}
use pronk.Preparation.Selection.{select_initial_modes-valid}
use pronk.Preparation.Requests.{IsTrimmed}
use pronk.Preparation.Outcome.{IsPreparation, from_capabilities-IsPreparation}
use pronk.Examples.Monitors.{libraries, full_hd, vga}
use pronk.Examples.Displays.{television}

abbrev lines : LineLibraries
lines = record { lines = λ b. b ∷ []; split_whitespace = λ b. b ∷ [] }

abbrev pub google : PnpId
google = record { first_letter = 71; second_letter = 71; third_letter = 76 }

abbrev fallback : PnpId
fallback = record { first_letter = 67; second_letter = 75; third_letter = 77 }

abbrev database : Bytes
database = codes "GGL" ++ (9 ∷ codes "Google Inc.")

abbrev resolver : PnpIdResolver
resolver = record {
  names_by_id = (google, codes "Google Inc.") ∷ [];
  exact_ids_by_name = (codes "google inc", (google, tt) ∷ []) ∷ [];
  legal_ids_by_name = (codes "google inc", (google, tt) ∷ []) ∷ [];
  aliases = [];
  fallback = fallback;
}

made : from_database libraries lines database [] fallback ≡ ok resolver
unfolding from_database insert_lines insert_line trim_end_returns split_once parse bytes_pnp
    insert_entry get Pnp-discrete Bytes-discrete ℕ_discrete check_names normalize_manufacturer_name
    collapse_name strip_legal_suffixes pop_suffixes index_names insert_aliases has_control
made = refl

abbrev display_mode : ℕ → ℕ → DisplayMode
display_mode width height = record {
  width = width;
  height = height;
  refresh_millihz = 60000;
  flags = 0;
}

abbrev h264 : VideoProfile
h264 = record {
  profile_id = codes "h264-high";
  codec = codes "h264";
  max_width = 3840;
  max_height = 2160;
  max_refresh_millihz = 60000;
}

-- The device also reports a mode without a timing, and one of its modes twice.
abbrev pub capabilities : DeviceCapabilities
capabilities = record {
  preparation_generation = 1;
  display_identity = record {
    manufacturer_name = some (codes "Google, Inc.");
    manufacturer_source = setup_endpoint;
    product_name = none;
    product_source = absent;
    pnp_id = none;
  };
  modes =
      display_mode 1920 1080
      ∷ display_mode 1234 567
      ∷ display_mode 1920 1080
      ∷ display_mode 640 480
      ∷ [];
  video_profiles = h264 ∷ [];
  audio_profiles = [];
  features = 2;
}

validate_capabilities_lem_example :
    (validate_capabilities (λ n. []) capabilities ≡ ok tt) ↔ IsCapabilities capabilities
validate_capabilities_lem_example = validate_capabilities_lem (λ n. []) capabilities

selected : select_initial_modes capabilities ≡ ok (full_hd ∷ vga ∷ [])
unfolding select_initial_modes supported_modes timing_for Mode-discrete ℕ_discrete
selected = refl

select_initial_modes-valid_example : validate_modes (full_hd ∷ vga ∷ []) ≡ ok tt
select_initial_modes-valid_example =
    select_initial_modes-valid capabilities (full_hd ∷ vga ∷ []) selected

whole : (value : Bytes) → value ≡ value ++ []
whole [] = refl
whole (b ∷ bs) = ap (λ rest. b ∷ rest) (whole bs)

untrimmed : (value : Bytes) → IsTrimmed value (libraries.trim value)
untrimmed value = ([], [], whole value)

from_capabilities-IsPreparation_example :
    Gives
      (IsPreparation libraries lines (λ n. []) (television 1) capabilities)
      (from_capabilities libraries lines (λ n. []) (television 1) capabilities resolver true)
from_capabilities-IsPreparation_example =
    from_capabilities-IsPreparation libraries lines (λ n. []) database [] fallback resolver
      untrimmed made (television 1) capabilities true

abbrev target : MediaKind → PipeWireTarget
target kind = record {
  kind = kind;
  node_name = codes "pronk";
  object_serial = 7;
  session_id = codes "00112233-4455-6677-8899-aabbccddeeff";
  device_instance = codes "card0";
  connector_id = 1;
  output_index = 0;
  media_generation = 3;
  caps = codes "video/x-raw";
}

abbrev configuration : MediaConfiguration
configuration = record {
  video_profile_id = codes "h264-high";
  audio_profile_id = some (codes "opus-stereo");
  mode = display_mode 1920 1080;
  video_bitrate = 8000000;
}

abbrev targets : List PipeWireTarget
targets = target MediaKind.video ∷ target MediaKind.audio ∷ []

abbrev remote_count : ℕ
remote_count = 2

abbrev generation : ℕ
generation = 3

validate_media_configuration_lem_example :
    (validate_media_configuration remote_count targets configuration generation ≡ ok tt) ↔ (
      (generation ≢ 0)
      × IsConfiguration configuration
      × (remote_count ≡ length targets)
      × IsLayout configuration.audio_profile_id targets
      × All (IsTarget generation) targets)
validate_media_configuration_lem_example =
    validate_media_configuration_lem remote_count targets configuration generation
