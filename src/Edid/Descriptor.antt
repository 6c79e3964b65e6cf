-- ===== src/Edid/Descriptor.antt =====
-- The timing table of crates/pronk-core/src/edid.rs fits the fields that it is written to.
use pronk.Common.{
  ℕ, zero, suc, Bool, ◌+◌, ◌-◌, ◌*◌, ◌/◌, ◌%◌, ◌≤◌, ◌<◌, ◌≡◌, Option, none, some, arith, Bytes,
  refl, Option-cases, inl, inr, Bool-cases, subst, if◌then◌else◌, get_elem?,
}
use mathlib.Core.Option.{some-injective}
use pronk.Edid.Panics.{
  Gives, gives, Gives-bind, copy_at, copy_all, copy_all-Gives, minus_one, zeros, length-zeros,
}
use pronk.Edid.Timings.{EdidMode, DetailedTiming, is_mode, timing_for}
use pronk.Edid.Blocks.{timing_writes, write_detailed_timing}
use pronk.Edid.Lengths.{HasLength, IsSupported}
use pronk.Edid.Extensions.{
  hsync_positive, vsync_positive, displayid_type_i_timing_block, write_minus_one_u16,
  write_minus_one_sync,
}

-- The ranges of the fields of a detailed timing descriptor.
pub record FitsFields (t : DetailedTiming) : Type 0 where
  pub clock : (1 ≤ t.clock_10khz) × (t.clock_10khz < 65536)
  pub hactive : (1 ≤ t.hactive) × (t.hactive < 4096)
  pub hblank : (1 ≤ t.hblank) × (t.hblank < 4096)
  pub vactive : (1 ≤ t.vactive) × (t.vactive < 4096)
  pub vblank : (1 ≤ t.vblank) × (t.vblank < 4096)
  pub hfront : (1 ≤ t.hfront) × (t.hfront < 1024)
  pub hsync : (1 ≤ t.hsync) × (t.hsync < 1024)
  pub vfront : (1 ≤ t.vfront) × (t.vfront < 64)
  pub vsync : (1 ≤ t.vsync) × (t.vsync < 64)
  pub features : t.features < 256
  -- The pulses lie within the blanking.
  pub horizontal : t.hfront + t.hsync < t.hblank
  pub vertical : t.vfront + t.vsync < t.vblank

-- A timing that fits, for the size of its mode.
abbrev pub IsTimingOf : EdidMode → DetailedTiming → Type 0
IsTimingOf mode t = FitsFields t × (t.hactive ≡ mode.width) × (t.vactive ≡ mode.height)

abbrev Sound : EdidMode → Option DetailedTiming → Type 0
Sound mode o = (t : DetailedTiming) → o ≡ some t → IsTimingOf mode t

row :
    (mode : EdidMode) (w h r : ℕ) (d : DetailedTiming) (rest : Option DetailedTiming)
    → FitsFields d
    → d.hactive ≡ w
    → d.vactive ≡ h
    → Sound mode rest
    → Sound mode (if is_mode mode w h r then some d else rest)
row mode w h r d rest fits a b below t e = elim (Bool-cases (is_mode mode w h r)) [
  | inr other ↦ below t (ground (arith, other, e))
  | inl this ↦
      subst (IsTimingOf mode) (some-injective d t (ground (arith, this, e)))
        (fits, ground (arith, this), ground (arith, this))
]

nothing : (mode : EdidMode) → Sound mode none
nothing mode t e = absurd (ground (arith, e))

-- Every mode of the table has a timing of its own size whose numbers fit the fields of a
-- descriptor, with the sync pulses within the blanking.
pub timing_for-IsTimingOf :
    (mode : EdidMode) (t : DetailedTiming) → timing_for mode ≡ some t → IsTimingOf mode t
unfolding timing_for
timing_for-IsTimingOf mode = row mode 640 480 60000 _ _ (ground arith) refl refl (
    row mode 1280 720 60000 _ _ (ground arith) refl refl (
      row mode 800 600 60000 _ _ (ground arith) refl refl (
        row mode 1024 768 60000 _ _ (ground arith) refl refl (
          row mode 1280 800 60000 _ _ (ground arith) refl refl (
            row mode 1280 1024 60000 _ _ (ground arith) refl refl (
              row mode 1366 768 60000 _ _ (ground arith) refl refl (
                row mode 1440 900 60000 _ _ (ground arith) refl refl (
                  row mode 1600 900 60000 _ _ (ground arith) refl refl (
                    row mode 1680 1050 60000 _ _ (ground arith) refl refl (
                      row mode 1920 1080 60000 _ _ (ground arith) refl refl (
                        row mode 1920 1200 60000 _ _ (ground arith) refl refl (
                          row mode 2560 1440 60000 _ _ (ground arith) refl refl (
                            row mode 3840 2160 30000 _ _ (ground arith) refl refl (
                              row mode 3840 2160 60000 _ _ (ground arith) refl refl
                                (nothing mode)))))))))))))))

pub supported_timing :
    (mode : EdidMode) → IsSupported mode → Gives (IsTimingOf mode) (timing_for mode)
supported_timing mode h = elim (Option-cases (timing_for mode)) [
  | inl e ↦ absurd (panics (timing_for mode) h e)
  | inr (t, e) ↦ rw e (gives (timing_for-IsTimingOf mode t e))
]
  where
    panics : (o : Option DetailedTiming) → Gives (λ t. Unit {0}) o → o ≡ none → ⊥
    panics o (gives u) e = ground arith

minus_one-Gives : (n : ℕ) → 1 ≤ n → Gives (λ m. m ≡ n - 1) (minus_one n)
unfolding minus_one
minus_one-Gives zero h = absurd (omega arith)
minus_one-Gives (suc n) h = gives (omega arith)

minus_one_u16-Gives : (n : ℕ) → 1 ≤ n → Gives (HasLength 2) (write_minus_one_u16 n)
unfolding write_minus_one_u16
minus_one_u16-Gives n h = Gives-bind (minus_one-Gives n h) (λ v _. gives (omega arith))

minus_one_sync-Gives :
    (n : ℕ) (positive : Bool) → 1 ≤ n → Gives (HasLength 2) (write_minus_one_sync n positive)
unfolding write_minus_one_sync
minus_one_sync-Gives n positive h = Gives-bind (minus_one-Gives n h) (λ v _. gives (omega arith))

pub displayid_type_i_timing_block-Gives :
    (mode : EdidMode) → IsSupported mode → Gives (HasLength 23) (displayid_type_i_timing_block mode)
unfolding displayid_type_i_timing_block
displayid_type_i_timing_block-Gives mode h = Gives-bind (supported_timing mode h) λ t good.
    let f = good.0 in
    Gives-bind (minus_one-Gives t.clock_10khz f.clock.0) λ clock _.
      Gives-bind (minus_one_u16-Gives t.hactive f.hactive.0) λ hactive a.
        Gives-bind (minus_one_u16-Gives t.hblank f.hblank.0) λ hblank b.
          Gives-bind (minus_one_sync-Gives t.hfront (hsync_positive t) f.hfront.0) λ hfront c.
            Gives-bind (minus_one_u16-Gives t.hsync f.hsync.0) λ hsync d.
              Gives-bind (minus_one_u16-Gives t.vactive f.vactive.0) λ vactive e.
                Gives-bind (minus_one_u16-Gives t.vblank f.vblank.0) λ vblank g.
                  Gives-bind (minus_one_sync-Gives t.vfront (vsync_positive t) f.vfront.0)
                    λ vfront i. Gives-bind (minus_one_u16-Gives t.vsync f.vsync.0) λ vsync j.
                      copy_all-Gives 23 _ (zeros 23) (omega (arith, a, b, c, d, e, g, i, j))
                        (length-zeros 23)

abbrev byte : ℕ → Bytes → ℕ
byte i bytes = elim (get_elem? bytes i) [ none ↦ 0 | some b ↦ b ]

-- How a sink reads a detailed timing descriptor.
pub read_detailed_timing : Bytes → DetailedTiming
read_detailed_timing d = record {
  clock_10khz = byte 0 d + 256 * byte 1 d;
  hactive = byte 2 d + 256 * (byte 4 d / 16);
  hblank = byte 3 d + 256 * (byte 4 d % 16);
  vactive = byte 5 d + 256 * (byte 7 d / 16);
  vblank = byte 6 d + 256 * (byte 7 d % 16);
  hfront = byte 8 d + 256 * (byte 11 d / 64);
  hsync = byte 9 d + 256 * (byte 11 d / 16 % 4);
  vfront = byte 10 d / 16 + 16 * (byte 11 d / 4 % 4);
  vsync = byte 10 d % 16 + 16 * (byte 11 d % 4);
  features = byte 17 d;
}

-- The parts of a number of twelve bits, of ten bits and of six, in bytes that hold two or four of
-- them.
high_part :
    (a b : ℕ) → a < 4096 → a % 256 + 256 * ((a / 16 % 256 / 16 * 16 + b / 256 % 256 % 16) / 16) ≡ a
high_part a b h = omega (arith, h)

low_part :
    (a b : ℕ) → b < 4096 → b % 256 + 256 * ((a / 16 % 256 / 16 * 16 + b / 256 % 256 % 16) % 16) ≡ b
low_part a b h = omega (arith, h)

module _ (a b c d : ℕ) where
  abbrev packed : ℕ
  packed = a / 256 % 256 % 4 * 64 + b / 256 % 256 % 4 * 16 + c / 16 % 4 * 4 + d / 16 % 4

  first_part : a < 1024 → a % 256 + 256 * (packed / 64) ≡ a
  first_part ha = omega (arith, ha)

  second_part : b < 1024 → b % 256 + 256 * (packed / 16 % 4) ≡ b
  second_part hb = omega (arith, hb)

  third_part : c < 64 → (c % 16 * 16 + d % 16) / 16 + 16 * (packed / 4 % 4) ≡ c
  third_part hc = omega (arith, hc)

  fourth_part : d < 64 → (c % 16 * 16 + d % 16) % 16 + 16 * (packed % 4) ≡ d
  fourth_part hd = omega (arith, hd)

-- A timing whose numbers fit the fields of a descriptor is written without a panic, and reading
-- the descriptor gives the same timing back.
pub read-write_detailed_timing :
    (t : DetailedTiming)
    → FitsFields t
    → Gives (λ d. read_detailed_timing d ≡ t) (write_detailed_timing t (zeros 18))
unfolding read_detailed_timing write_detailed_timing timing_writes copy_all copy_at zeros
read-write_detailed_timing t f =
    let clock : t.clock_10khz % 256 + 256 * (t.clock_10khz / 256 % 256) ≡ t.clock_10khz =
      omega (arith, f.clock) in
    let a : t.hfront < 1024 = f.hfront.1 in
    let b : t.hsync < 1024 = f.hsync.1 in
    let c : t.vfront < 64 = f.vfront.1 in
    let d : t.vsync < 64 = f.vsync.1 in
    gives (λ i. record {
      clock_10khz = clock i;
      hactive = high_part t.hactive t.hblank f.hactive.1 i;
      hblank = low_part t.hactive t.hblank f.hblank.1 i;
      vactive = high_part t.vactive t.vblank f.vactive.1 i;
      vblank = low_part t.vactive t.vblank f.vblank.1 i;
      hfront = first_part t.hfront t.hsync t.vfront t.vsync a i;
      hsync = second_part t.hfront t.hsync t.vfront t.vsync b i;
      vfront = third_part t.hfront t.hsync t.vfront t.vsync c i;
      vsync = fourth_part t.hfront t.hsync t.vfront t.vsync d i;
      features = t.features;
    })
