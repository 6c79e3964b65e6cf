-- ===== src/Edid/Modes.antt =====
-- What crates/pronk-core/src/edid.rs derives from a mode: its aspect ratio and the codes of the timing
-- fields that can name it.
use pronk.Common.{
  ℕ, zero, suc, ◌-◌, ◌*◌, ◌/◌, ◌%◌, Bool, true, false, ◌&&◌, not, Option, none, some, [], ◌∷◌, leb,
  ◌==◌, if◌then◌else◌, Bytes,
}
use pronk.Edid.Timings.{EdidMode, is_mode}

-- The loop of `greatest_common_divisor`, on fuel for its rounds.
unfoldable pub gcd_loop : ℕ → ℕ → ℕ → ℕ
gcd_loop zero left right = left
gcd_loop (suc fuel) left right = elim (right == 0) [
  | true ↦ left
  | false ↦ gcd_loop fuel right (left % right)
]

-- One round more than the right number: it falls in every round.
unfoldable pub greatest_common_divisor : ℕ → ℕ → ℕ
greatest_common_divisor left right = gcd_loop (suc right) left right

unfoldable pub reduced_aspect_ratio : EdidMode → ℕ × ℕ
reduced_aspect_ratio mode =
    let divisor = greatest_common_divisor mode.width mode.height in
    (mode.width / divisor, mode.height / divisor)

abbrev pub is_ratio : ℕ × ℕ → ℕ → ℕ → Bool
is_ratio (w, h) a b = w == a && h == b

unfoldable pub aspect_ratio_code : EdidMode → ℕ
aspect_ratio_code mode =
    let ratio = reduced_aspect_ratio mode in
    if is_ratio ratio 5 4
    then 1
    else if is_ratio ratio 4 3
    then 2
    else if is_ratio ratio 8 5
    then 5
    else 4

unfoldable pub aspect_ratio_value : EdidMode → ℕ
aspect_ratio_value mode =
    let ratio = reduced_aspect_ratio mode in
    if is_ratio ratio 5 4
    then 25
    else if is_ratio ratio 4 3
    then 33
    else if is_ratio ratio 8 5
    then 60
    else 78

unfoldable pub established_timing_bit : EdidMode → Option (ℕ × ℕ)
established_timing_bit mode =
    if is_mode mode 640 480 60000
    then some (0, 5)
    else if is_mode mode 800 600 60000
    then some (0, 0)
    else if is_mode mode 1024 768 60000
    then some (1, 3)
    else none

unfoldable pub standard_aspect : ℕ × ℕ → Option ℕ
standard_aspect ratio =
    if is_ratio ratio 8 5
    then some 0
    else if is_ratio ratio 4 3
    then some 1
    else if is_ratio ratio 5 4
    then some 2
    else if is_ratio ratio 16 9
    then some 3
    else none

unfoldable pub standard_bytes : ℕ → Option ℕ → Option Bytes
standard_bytes horizontal none = none
standard_bytes horizontal (some aspect) = some ((horizontal - 31) % 256 ∷ aspect * 64 % 256 ∷ [])

unfoldable pub standard_timing : EdidMode → Option Bytes
standard_timing mode =
    let horizontal = mode.width / 8 in
    if not (mode.refresh_millihz == 60000)
    then none
    else if not (mode.width % 8 == 0)
    then none
    else if not (leb 31 horizontal && leb horizontal 286)
    then none
    else standard_bytes horizontal (standard_aspect (reduced_aspect_ratio mode))

unfoldable pub video_identification_code : EdidMode → Option ℕ
video_identification_code mode =
    if is_mode mode 640 480 60000
    then some 1
    else if is_mode mode 1280 720 60000
    then some 4
    else if is_mode mode 1920 1080 60000
    then some 16
    else if is_mode mode 3840 2160 30000
    then some 95
    else if is_mode mode 3840 2160 60000
    then some 97
    else none
