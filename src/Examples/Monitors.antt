-- ===== src/Examples/Monitors.antt =====
-- A request for a display of 1920x1080 and 640x480, as the tests of crates/pronk-core/src/edid.rs make
-- them, with texts of ASCII and a small hash.
use pronk.Common.{
  ℕ, ◌+◌, ◌≡◌, ◌↔◌, ◌≤◌, true, ◌&&◌, ◌==◌, leb, if◌then◌else◌, none, some, [], ◌∷◌, map, Bytes,
  codes, refl, ok, err,
}
use pronk.Edid.Panics.{Gives, zeros}
use pronk.Edid.Timings.{EdidMode, DetailedTiming, timing_for}
use pronk.Edid.Blocks.{wrapping_sum, write_detailed_timing}
use pronk.Edid.Descriptor.{
  IsTimingOf, timing_for-IsTimingOf, read_detailed_timing, read-write_detailed_timing,
}
use pronk.Edid.Request.{TextLibraries, CastDisplayEdidRequest}
use pronk.Edid.Build.{build_cast_display_edid, validate_edid}
use pronk.Edid.Framing.{IsFramed, validate_edid-IsFramed}
use pronk.Edid.Generated.{IsOutcome, build_cast_display_edid-IsOutcome}

abbrev pub libraries : TextLibraries
libraries = record {
  trim = λ b. b;
  lowercase_nfkc = map (λ c. if leb 65 c && leb c 90 then c + 32 else c);
  is_whitespace = λ c. c == 32;
  utf8 = λ c. c;
  sha256 = λ b. wrapping_sum 7 b ∷ zeros 31;
}

abbrev pub full_hd : EdidMode
full_hd = record { width = 1920; height = 1080; refresh_millihz = 60000 }

abbrev pub vga : EdidMode
vga = record { width = 640; height = 480; refresh_millihz = 60000 }

abbrev request : CastDisplayEdidRequest
request = record {
  pnp_id = record { first_letter = 71; second_letter = 71; third_letter = 76 };
  manufacturer_name = some (codes "Google, Inc.");
  product_name = some (codes "Chromecast");
  display_name = some (codes "Chromecast");
  backend_id = codes "chromiacast";
  device_id = codes "device-1234";
  modes = full_hd ∷ vga ∷ [];
  audio = true;
  cec_physical_address = some 4096;
}

abbrev full_hd_timing : DetailedTiming
full_hd_timing = record {
  clock_10khz = 14850;
  hactive = 1920;
  hblank = 280;
  vactive = 1080;
  vblank = 45;
  hfront = 88;
  hsync = 44;
  vfront = 4;
  vsync = 5;
  features = 30;
}

full_hd_timing-fits : timing_for full_hd ≡ some full_hd_timing
unfolding timing_for
full_hd_timing-fits = refl

build_cast_display_edid-IsOutcome_example :
    Gives (IsOutcome libraries request) (build_cast_display_edid libraries request)
build_cast_display_edid-IsOutcome_example = build_cast_display_edid-IsOutcome libraries request

-- The EDID that is made, empty if there is none.
abbrev made : Bytes
made = elim (build_cast_display_edid libraries request) [
  | none ↦ []
  | some (err _) ↦ []
  | some (ok generated) ↦ generated.edid
]

validate_edid-IsFramed_example :
    validate_edid made ≡ ok tt ↔ ((n : ℕ) × ((1 ≤ n) × (n ≤ 4)) × IsFramed n made)
validate_edid-IsFramed_example = validate_edid-IsFramed made

timing_for-IsTimingOf_example : IsTimingOf full_hd full_hd_timing
timing_for-IsTimingOf_example = timing_for-IsTimingOf full_hd full_hd_timing full_hd_timing-fits

read-write_detailed_timing_example :
    Gives
      (λ d. read_detailed_timing d ≡ full_hd_timing)
      (write_detailed_timing full_hd_timing (zeros 18))
read-write_detailed_timing_example =
    read-write_detailed_timing full_hd_timing
      (timing_for-IsTimingOf full_hd full_hd_timing full_hd_timing-fits).0
