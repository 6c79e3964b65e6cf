-- ===== src/Edid/Blocks.antt =====
-- The blocks of an EDID that crates/pronk-core/src/edid.rs writes. A field that joins parts of
-- disjoint bits adds them; `as u8` is `% 256`, and a shift is a quotient or a product.
use pronk.Common.{
  ℕ, zero, suc, ◌+◌, ◌-◌, ◌*◌, ◌/◌, ◌%◌, ◌^◌, Bool, false, ◌&&◌, ◌||◌, not, Option, none, some,
  is_some, List, [], ◌∷◌, ◌++◌, ◌==◌, eqb, if◌then◌else◌, take, length, Bytes,
}
use pronk.Edid.Panics.{◌>>=◌, copy_at, copy_all, zeros}
use pronk.Edid.Timings.{EdidMode, Mode-discrete, DetailedTiming, timing_for}
use pronk.Edid.Modes.{established_timing_bit, standard_timing}

-- `PnpId` of crates/pronk-core/src/identity.rs: three ASCII uppercase letters.
pub record PnpId : Type 0 where
  pub first_letter : ℕ
  pub second_letter : ℕ
  pub third_letter : ℕ

pub record EdidNumericIdentity : Type 0 where
  pub pnp_id : PnpId
  pub product_code : ℕ  -- u16
  pub serial : ℕ  -- u32

-- `to_le_bytes`.
abbrev pub le16 : ℕ → Bytes
le16 v = v % 256 ∷ v / 256 % 256 ∷ []

abbrev pub le24 : ℕ → Bytes
le24 v = v % 256 ∷ v / 256 % 256 ∷ v / 65536 % 256 ∷ []

abbrev pub le32 : ℕ → Bytes
le32 v = v % 256 ∷ v / 256 % 256 ∷ v / 65536 % 256 ∷ v / 16777216 % 256 ∷ []

-- A fold of `wrapping_add`.
unfoldable pub wrapping_sum : ℕ → Bytes → ℕ
wrapping_sum acc [] = acc
wrapping_sum acc (b ∷ bs) = wrapping_sum ((acc + b) % 256) bs

unfoldable pub checksum : Bytes → ℕ
checksum bytes = (256 - wrapping_sum 0 bytes) % 256

unfoldable pub letter_bits : ℕ → ℕ
letter_bits letter = letter - 65 + 1

unfoldable pub encode_pnp_id : PnpId → Bytes
encode_pnp_id p =
    let value =
      letter_bits p.first_letter * 1024
      + letter_bits p.second_letter * 32
      + letter_bits p.third_letter in
    value / 256 % 256 ∷ value % 256 ∷ []

abbrev pub pnp_bytes : PnpId → Bytes
pnp_bytes p = p.first_letter ∷ p.second_letter ∷ p.third_letter ∷ []

-- The bytes of a detailed timing at their offsets.
unfoldable pub timing_writes : DetailedTiming → List (ℕ × Bytes)
timing_writes t =
    (0, le16 t.clock_10khz)
    ∷ (2, t.hactive % 256 ∷ [])
    ∷ (3, t.hblank % 256 ∷ [])
    ∷ (4, (t.hactive / 16 % 256 / 16 * 16 + t.hblank / 256 % 256 % 16) ∷ [])
    ∷ (5, t.vactive % 256 ∷ [])
    ∷ (6, t.vblank % 256 ∷ [])
    ∷ (7, (t.vactive / 16 % 256 / 16 * 16 + t.vblank / 256 % 256 % 16) ∷ [])
    ∷ (8, t.hfront % 256 ∷ [])
    ∷ (9, t.hsync % 256 ∷ [])
    ∷ (10, (t.vfront % 16 * 16 + t.vsync % 16) ∷ [])
    ∷ (
      11,
      (t.hfront / 256 % 256 % 4 * 64
            + t.hsync / 256 % 256 % 4 * 16
            + t.vfront / 16 % 4 * 4
            + t.vsync / 16 % 4)
          ∷ [],
    )
    ∷ (17, t.features ∷ [])
    ∷ []

unfoldable pub write_detailed_timing : DetailedTiming → Bytes → Option Bytes
write_detailed_timing t descriptor = copy_all (timing_writes t) descriptor

-- `contains` of a slice of modes.
abbrev pub contains_mode : EdidMode → List EdidMode → Bool
contains_mode m [] = false
contains_mode m (x ∷ xs) = eqb Mode-discrete m x || contains_mode m xs

-- The second half of `select_base_detailed_modes`: modes not yet selected, up to four in all.
unfoldable pub select_more : List EdidMode → List EdidMode → List EdidMode
select_more selected [] = selected
select_more selected (mode ∷ rest) =
    let next =
      select_more (if contains_mode mode selected then selected else selected ++ (mode ∷ []))
        rest in
    if length selected == 4 then selected else next

-- The modes that no other timing field can name.
unfoldable pub only_detailed : List EdidMode → List EdidMode
only_detailed [] = []
only_detailed (mode ∷ rest) =
    let others = only_detailed rest in
    if not (is_some (established_timing_bit mode)) && not (is_some (standard_timing mode))
    then mode ∷ others
    else others

unfoldable pub select_base_detailed_modes : List EdidMode → Option (List EdidMode)
select_base_detailed_modes [] = none
select_base_detailed_modes (preferred ∷ rest) =
    some (select_more (preferred ∷ take 3 (only_detailed rest)) (preferred ∷ rest))

-- `byte |= 1 << bit`.
abbrev pub or_bit : ℕ → ℕ → ℕ
or_bit byte bit = if byte / 2 ^ bit % 2 == 1 then byte else byte + 2 ^ bit

unfoldable pub set_bit : ℕ → ℕ → Bytes → Bytes
set_bit i bit [] = []
set_bit zero bit (b ∷ bs) = or_bit b bit ∷ bs
set_bit (suc i) bit (b ∷ bs) = b ∷ set_bit i bit bs

abbrev pub set_established : Option (ℕ × ℕ) → Bytes → Bytes
set_established none bytes = bytes
set_established (some (i, bit)) bytes = set_bit i bit bytes

unfoldable pub write_established_timings : Bytes → List EdidMode → Bytes
write_established_timings bytes [] = bytes
write_established_timings bytes (mode ∷ rest) =
    write_established_timings (set_established (established_timing_bit mode) bytes) rest

abbrev pub cons_some : Option Bytes → List Bytes → List Bytes
cons_some none rest = rest
cons_some (some x) rest = x ∷ rest

-- The standard timings of the modes that are named by no other field.
unfoldable pub standard_timings : List EdidMode → List EdidMode → List Bytes
standard_timings detailed [] = []
standard_timings detailed (mode ∷ rest) =
    let others = standard_timings detailed rest in
    if not (contains_mode mode detailed) && not (is_some (established_timing_bit mode))
    then cons_some (standard_timing mode) others
    else others

-- The slots of two bytes, the first of them with the given timings and the rest unused.
unfoldable pub standard_slots : ℕ → List Bytes → Bytes
standard_slots zero timings = []
standard_slots (suc n) [] = 1 ∷ 1 ∷ standard_slots n []
standard_slots (suc n) (timing ∷ rest) = timing ++ standard_slots n rest

-- The descriptors of 18 bytes: a detailed timing for each selected mode, then dummies.
unfoldable pub detailed_descriptors : ℕ → List EdidMode → Option Bytes
detailed_descriptors zero modes = some []
detailed_descriptors (suc n) [] = do
  descriptor ← copy_at 3 (16 ∷ []) (zeros 18)
  rest ← detailed_descriptors n []
  some (descriptor ++ rest)
detailed_descriptors (suc n) (mode ∷ modes) = do
  timing ← timing_for mode
  descriptor ← write_detailed_timing timing (zeros 18)
  rest ← detailed_descriptors n modes
  some (descriptor ++ rest)

abbrev pub edid_header : Bytes
edid_header = 0 ∷ 255 ∷ 255 ∷ 255 ∷ 255 ∷ 255 ∷ 255 ∷ 0 ∷ []

-- The writes of the base block between its header and its last field.
abbrev pub base_writes :
    EdidNumericIdentity → List EdidMode → List EdidMode → Bytes → List (ℕ × Bytes)
base_writes identity modes detailed descriptors =
    (8, encode_pnp_id identity.pnp_id)
    ∷ (10, le16 identity.product_code)
    ∷ (12, le32 identity.serial)
    ∷ (16, 0 ∷ 30 ∷ 1 ∷ 4 ∷ 128 ∷ [])
    ∷ (23, 120 ∷ 14 ∷ [])
    ∷ (25, 238 ∷ 145 ∷ 163 ∷ 84 ∷ 76 ∷ 153 ∷ 38 ∷ 15 ∷ 80 ∷ 84 ∷ [])
    ∷ (35, write_established_timings (zeros 3) modes)
    ∷ (38, standard_slots 8 (standard_timings detailed modes))
    ∷ (54, descriptors)
    ∷ []

unfoldable pub write_base_block : EdidNumericIdentity → List EdidMode → ℕ → Bytes → Option Bytes
write_base_block identity modes extension_count block = do
  headed ← copy_at 0 edid_header block
  detailed ← select_base_detailed_modes modes
  descriptors ← detailed_descriptors 4 detailed
  written ← copy_all (base_writes identity modes detailed descriptors) headed
  copy_at 126 (extension_count ∷ []) written
