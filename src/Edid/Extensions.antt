-- ===== src/Edid/Extensions.antt =====
-- The extension blocks that crates/pronk-core/src/edid.rs writes.
use Prim.Native.Nat.{bit_or}
use pronk.Common.{
  ℕ, ◌+◌, ◌/◌, ◌%◌, Bool, true, false, Option, none, some, List, [], ◌∷◌, ◌++◌, ◌==◌, if◌then◌else◌,
  take, drop, length, Bytes,
}
use pronk.Edid.Panics.{◌>>=◌, copy_at, copy_all, with_slice, minus_one, zeros, first}
use pronk.Edid.Timings.{EdidMode, DetailedTiming, timing_for}
use pronk.Edid.Modes.{aspect_ratio_code, aspect_ratio_value, video_identification_code}
use pronk.Edid.Blocks.{
  EdidNumericIdentity, le16, le24, le32, pnp_bytes, checksum, write_detailed_timing,
}

-- The name is empty where the source has `None`.
unfoldable pub displayid_product_block : EdidNumericIdentity → Bytes → Option Bytes
displayid_product_block identity product_name =
    let payload = 12 + length product_name in
    copy_all
      ((0, 0 ∷ 0 ∷ payload % 256 ∷ [])
        ∷ (3, pnp_bytes identity.pnp_id)
        ∷ (6, le16 identity.product_code)
        ∷ (8, le32 identity.serial)
        ∷ (12, 0 ∷ 0 ∷ length product_name % 256 ∷ [])
        ∷ (15, product_name)
        ∷ [])
      (zeros (3 + payload))

unfoldable pub displayid_parameters_block : EdidMode → Bool → Option Bytes
displayid_parameters_block preferred audio =
    copy_all
      ((0, 1 ∷ 0 ∷ 12 ∷ [])
        ∷ (7, le16 preferred.width)
        ∷ (9, le16 preferred.height)
        ∷ (11, (if audio then 128 else 0) ∷ [])
        ∷ (12, 120 ∷ aspect_ratio_value preferred ∷ 119 ∷ [])
        ∷ [])
      (zeros 15)

unfoldable pub write_minus_one_u16 : ℕ → Option Bytes
write_minus_one_u16 value = minus_one value >>= λ v. some (le16 v)

unfoldable pub write_minus_one_sync : ℕ → Bool → Option Bytes
write_minus_one_sync value positive = minus_one value >>= λ v.
    some (v % 256 ∷ (v / 256 % 256 % 128 + (if positive then 128 else 0)) ∷ [])

-- `features & 0x02 != 0`, `features & 0x04 != 0`.
abbrev pub hsync_positive : DetailedTiming → Bool
hsync_positive t = t.features / 2 % 2 == 1

abbrev pub vsync_positive : DetailedTiming → Bool
vsync_positive t = t.features / 4 % 2 == 1

unfoldable pub displayid_type_i_timing_block : EdidMode → Option Bytes
displayid_type_i_timing_block preferred = do
  timing ← timing_for preferred
  clock ← minus_one timing.clock_10khz
  hactive ← write_minus_one_u16 timing.hactive
  hblank ← write_minus_one_u16 timing.hblank
  hfront ← write_minus_one_sync timing.hfront (hsync_positive timing)
  hsync ← write_minus_one_u16 timing.hsync
  vactive ← write_minus_one_u16 timing.vactive
  vblank ← write_minus_one_u16 timing.vblank
  vfront ← write_minus_one_sync timing.vfront (vsync_positive timing)
  vsync ← write_minus_one_u16 timing.vsync
  copy_all
      ((0, 3 ∷ 1 ∷ 20 ∷ [])
        ∷ (3, le24 clock)
        ∷ (6, (128 + aspect_ratio_code preferred) ∷ [])
        ∷ (7, hactive)
        ∷ (9, hblank)
        ∷ (11, hfront)
        ∷ (13, hsync)
        ∷ (15, vactive)
        ∷ (17, vblank)
        ∷ (19, vfront)
        ∷ (21, vsync)
        ∷ [])
      (zeros 23)

-- The structure checksum covers what stands before it, without the tag.
unfoldable pub write_displayid_extension : ℕ → ℕ → Bytes → Bytes → Option Bytes
write_displayid_extension product_type extension_count section block = do
  written ←
      copy_all
        ((0, 112 ∷ 19 ∷ length section % 256 ∷ product_type ∷ extension_count ∷ [])
          ∷ (5, section)
          ∷ [])
        block
  copy_at (5 + length section) (checksum (take (4 + length section) (drop 1 written)) ∷ []) written

unfoldable pub video_codes : List EdidMode → Bytes
video_codes [] = []
video_codes (mode ∷ rest) =
    let others = video_codes rest in
    elim (video_identification_code mode) [ none ↦ others | some code ↦ code ∷ others ]

abbrev pub cec_bytes : Option ℕ → Bytes
cec_bytes none = []
cec_bytes (some address) = 101 ∷ 3 ∷ 12 ∷ 0 ∷ address / 256 % 256 ∷ address % 256 ∷ []

abbrev pub audio_bytes : Bool → Bytes
audio_bytes true = 35 ∷ 9 ∷ 4 ∷ 1 ∷ 131 ∷ 1 ∷ 0 ∷ 0 ∷ []
audio_bytes false = []

-- The data blocks, which are written one after another from the fourth byte on.
unfoldable pub cta_data : List EdidMode → Bool → Option ℕ → Bytes
cta_data modes audio cec_physical_address =
    let codes = video_codes modes in
    (bit_or 64 (length codes % 256) ∷ codes)
    ++ (226 ∷ 0 ∷ 74 ∷ (cec_bytes cec_physical_address ++ audio_bytes audio))

unfoldable pub write_cta_extension : List EdidMode → Bool → Option ℕ → Bytes → Option Bytes
write_cta_extension modes audio cec_physical_address block = do
  let blocks = cta_data modes audio cec_physical_address
  let position = 4 + length blocks
  written ←
      copy_all ((0, 2 ∷ 3 ∷ position % 256 ∷ (if audio then 193 else 129) ∷ []) ∷ (4, blocks) ∷ [])
        block
  preferred ← first modes
  timing ← timing_for preferred
  with_slice position 18 (write_detailed_timing timing) written
