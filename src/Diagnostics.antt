-- ===== src/Diagnostics.antt =====
-- The two functions that bound diagnostic text: `bounded_text` of crates/pronk/src/media_session.rs
-- and of crates/pronk/src/device_recovery.rs. A `String` is its UTF-8 bytes, and
-- `str::is_char_boundary` is the documented test on the byte at the index.
pub mod Cuts
use pronk.Common.{
  ℕ, zero, suc, ◌-◌, Bool, true, false, ◌||◌, Option, none, some, ◌++◌, leb, ltb, ◌==◌,
  if◌then◌else◌, length, get_elem?, take, min, Bytes, codes,
}

-- A byte that begins a character, which is not of the form 0b10xxxxxx.
abbrev pub begins_char : ℕ → Bool
begins_char b = ltb b 0x80 || leb 0xc0 b

pub is_char_boundary : Bytes → ℕ → Bool
is_char_boundary value zero = true
is_char_boundary value (suc index) = elim (get_elem? value (suc index)) [
  | none ↦ suc index == length value
  | some byte ↦ begins_char byte
]

-- `while !value.is_char_boundary(boundary) { boundary -= 1; }`: index 0 is a boundary.
pub last_boundary : Bytes → ℕ → ℕ
last_boundary value zero = zero
last_boundary value (suc boundary) =
    let earlier = last_boundary value boundary in
    if is_char_boundary value (suc boundary) then suc boundary else earlier

-- `media_session::bounded_text`.
unfoldable pub bounded_text : Bytes → ℕ → Bytes
bounded_text value maximum =
    if leb (length value) maximum then value else take (last_boundary value maximum) value

-- `device_recovery::bounded_text`, which marks the cut.
pub bounded_text_with_ellipsis : Bytes → ℕ → Bytes
bounded_text_with_ellipsis value maximum =
    if leb (length value) maximum
    then value
    else take (last_boundary value (min (maximum - 3) (length value))) value ++ codes "..."
