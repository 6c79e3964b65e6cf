-- ===== src/Edid/Timings.antt =====
-- The timing table of crates/pronk-core/src/edid.rs and what it derives from a mode. A `match` on
-- the numbers of a mode is a chain of tests.
use pronk.Common.{ℕ, Bool, ◌&&◌, Option, none, some, ◌==◌, if◌then◌else◌, ℕ_discrete}

pub record EdidMode : Type 0 where
  pub width : ℕ  -- u32
  pub height : ℕ  -- u32
  pub refresh_millihz : ℕ  -- u32

unfoldable pub Mode-discrete : Discrete EdidMode
unfolding ℕ_discrete
Mode-discrete = hlevel ℕ_discrete

pub record DetailedTiming : Type 0 where
  pub clock_10khz : ℕ  -- u16
  pub hactive : ℕ  -- u16
  pub hblank : ℕ  -- u16
  pub vactive : ℕ  -- u16
  pub vblank : ℕ  -- u16
  pub hfront : ℕ  -- u16
  pub hsync : ℕ  -- u16
  pub vfront : ℕ  -- u8
  pub vsync : ℕ  -- u8
  pub features : ℕ  -- u8

-- The numbers of a mode are these.
abbrev pub is_mode : EdidMode → ℕ → ℕ → ℕ → Bool
is_mode mode width height refresh =
    mode.width == width && mode.height == height && mode.refresh_millihz == refresh

unfoldable pub timing_for : EdidMode → Option DetailedTiming
timing_for mode =
    if is_mode mode 640 480 60000
    then some (record {
      clock_10khz = 2518;
      hactive = 640;
      hblank = 160;
      vactive = 480;
      vblank = 45;
      hfront = 16;
      hsync = 96;
      vfront = 10;
      vsync = 2;
      features = 24;
    })
    else if is_mode mode 1280 720 60000
    then some (record {
      clock_10khz = 7425;
      hactive = 1280;
      hblank = 370;
      vactive = 720;
      vblank = 30;
      hfront = 110;
      hsync = 40;
      vfront = 5;
      vsync = 5;
      features = 30;
    })
    else if is_mode mode 800 600 60000
    then some (record {
      clock_10khz = 4000;
      hactive = 800;
      hblank = 256;
      vactive = 600;
      vblank = 28;
      hfront = 40;
      hsync = 128;
      vfront = 1;
      vsync = 4;
      features = 30;
    })
    else if is_mode mode 1024 768 60000
    then some (record {
      clock_10khz = 6500;
      hactive = 1024;
      hblank = 320;
      vactive = 768;
      vblank = 38;
      hfront = 24;
      hsync = 136;
      vfront = 3;
      vsync = 6;
      features = 24;
    })
    else if is_mode mode 1280 800 60000
    then some (record {
      clock_10khz = 7100;
      hactive = 1280;
      hblank = 160;
      vactive = 800;
      vblank = 23;
      hfront = 48;
      hsync = 32;
      vfront = 3;
      vsync = 6;
      features = 26;
    })
    else if is_mode mode 1280 1024 60000
    then some (record {
      clock_10khz = 10800;
      hactive = 1280;
      hblank = 408;
      vactive = 1024;
      vblank = 42;
      hfront = 48;
      hsync = 112;
      vfront = 1;
      vsync = 3;
      features = 30;
    })
    else if is_mode mode 1366 768 60000
    then some (record {
      clock_10khz = 8550;
      hactive = 1366;
      hblank = 426;
      vactive = 768;
      vblank = 30;
      hfront = 70;
      hsync = 143;
      vfront = 3;
      vsync = 3;
      features = 30;
    })
    else if is_mode mode 1440 900 60000
    then some (record {
      clock_10khz = 8875;
      hactive = 1440;
      hblank = 160;
      vactive = 900;
      vblank = 26;
      hfront = 48;
      hsync = 32;
      vfront = 3;
      vsync = 6;
      features = 26;
    })
    else if is_mode mode 1600 900 60000
    then some (record {
      clock_10khz = 9750;
      hactive = 1600;
      hblank = 160;
      vactive = 900;
      vblank = 26;
      hfront = 48;
      hsync = 32;
      vfront = 3;
      vsync = 5;
      features = 26;
    })
    else if is_mode mode 1680 1050 60000
    then some (record {
      clock_10khz = 11900;
      hactive = 1680;
      hblank = 160;
      vactive = 1050;
      vblank = 30;
      hfront = 48;
      hsync = 32;
      vfront = 3;
      vsync = 6;
      features = 26;
    })
    else if is_mode mode 1920 1080 60000
    then some (record {
      clock_10khz = 14850;
      hactive = 1920;
      hblank = 280;
      vactive = 1080;
      vblank = 45;
      hfront = 88;
      hsync = 44;
      vfront = 4;
      vsync = 5;
      features = 30;
    })
    else if is_mode mode 1920 1200 60000
    then some (record {
      clock_10khz = 15400;
      hactive = 1920;
      hblank = 160;
      vactive = 1200;
      vblank = 35;
      hfront = 48;
      hsync = 32;
      vfront = 3;
      vsync = 6;
      features = 26;
    })
    else if is_mode mode 2560 1440 60000
    then some (record {
      clock_10khz = 24150;
      hactive = 2560;
      hblank = 160;
      vactive = 1440;
      vblank = 41;
      hfront = 48;
      hsync = 32;
      vfront = 3;
      vsync = 5;
      features = 26;
    })
    else if is_mode mode 3840 2160 30000
    then some (record {
      clock_10khz = 29700;
      hactive = 3840;
      hblank = 560;
      vactive = 2160;
      vblank = 90;
      hfront = 176;
      hsync = 88;
      vfront = 8;
      vsync = 10;
      features = 30;
    })
    else if is_mode mode 3840 2160 60000
    then some (record {
      clock_10khz = 59400;
      hactive = 3840;
      hblank = 560;
      vactive = 2160;
      vblank = 90;
      hfront = 176;
      hsync = 88;
      vfront = 8;
      vsync = 10;
      features = 30;
    })
    else none
