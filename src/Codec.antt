-- ===== src/Codec.antt =====
-- crates/pronk-media/src/h264.rs: what is checked of an encoded video frame before it is sent. An error
-- text that the source formats is a constructor. The parser of Annex B keeps the bytes from its index
-- on, so that a start code is found at a distance; `none` is the end of its fuel.
pub mod StartCodes
pub mod AnnexB
pub mod Vp8
use pronk.Common.{
  ℕ, zero, suc, ◌+◌, ◌-◌, ◌/◌, ◌%◌, Bool, true, false, ◌&&◌, ◌||◌, not, Option, none, some, List,
  [], ◌∷◌, ltb, leb, ◌==◌, if◌then◌else◌, length, take, drop, Bytes, Result, ok, err, ◌>>=◌, ◌>>◌,
}

pub data VideoFrameDependency : Type 0 where
  key_frame delta : VideoFrameDependency

-- Of crates/pronk-media/src/model.rs, by its message.
pub data MediaGraphError : Type 0 where
  empty_unit no_start_code leading_data empty_nal unspecified_nal first_not_key mislabeled_idr :
      MediaGraphError
  too_long missing_nal bitrate_out_of_range : ℕ → MediaGraphError
  frame_too_short no_frame_start_code : MediaGraphError
  mislabeled_frame : VideoFrameDependency → VideoFrameDependency → MediaGraphError

abbrev pub Checked : Type 0
Checked = Result MediaGraphError (Unit {0})

abbrev pub max_encoded_access_unit_bytes : ℕ
max_encoded_access_unit_bytes = 8388608

-- `starts_with(&[0, 0, 1])` and `starts_with(&[0, 0, 0, 1])`.
abbrev pub starts_with_short : Bytes → Bool
starts_with_short [] = false
starts_with_short (a ∷ []) = false
starts_with_short (a ∷ b ∷ []) = false
starts_with_short (a ∷ b ∷ c ∷ rest) = a == 0 && b == 0 && c == 1

abbrev pub starts_with_long : Bytes → Bool
starts_with_long [] = false
starts_with_long (a ∷ rest) = a == 0 && starts_with_short rest

abbrev pub later : Option (ℕ × ℕ) → Option (ℕ × ℕ)
later none = none
later (some (distance, prefix_bytes)) = some (suc distance, prefix_bytes)

-- The distance of the first start code, and its length.
unfoldable pub find_start_code : Bytes → Option (ℕ × ℕ)
find_start_code [] = none
find_start_code (b ∷ rest) =
    let further = later (find_start_code rest) in
    if starts_with_long (b ∷ rest)
    then some (0, 4)
    else if starts_with_short (b ∷ rest)
    then some (0, 3)
    else further

abbrev pub any_nonzero : Bytes → Bool
any_nonzero [] = false
any_nonzero (b ∷ bs) = not (b == 0) || any_nonzero bs

-- The type of the unit whose payload begins here and ends at this distance.
unfoldable pub nal_type : ℕ → Bytes → Result MediaGraphError ℕ
nal_type end [] = err empty_nal
nal_type end (b ∷ rest) =
    if end == 0 then err empty_nal else if b % 32 == 0 then err unspecified_nal else ok (b % 32)

abbrev pub NalTypes : Type 0
NalTypes = Option (Result MediaGraphError (List ℕ))

-- `nal_types.push(nal_type)`, before the rest of the loop.
abbrev pub push : Result MediaGraphError ℕ → NalTypes → NalTypes
push (err error) rest = some (err error)
push (ok t) none = none
push (ok t) (some (err error)) = some (err error)
push (ok t) (some (ok types)) = some (ok (t ∷ types))

-- The loop, from the payload of a unit on.
unfoldable pub nal_types : ℕ → Bytes → NalTypes
nal_types zero payload = none
nal_types (suc fuel) payload = elim (find_start_code payload) [
  | none ↦ push (nal_type (length payload) payload) (some (ok []))
  | some (end, prefix_bytes) ↦
      push (nal_type end payload) (nal_types fuel (drop (end + prefix_bytes) payload))
]

unfoldable pub annex_b_nal_types : Bytes → NalTypes
annex_b_nal_types bytes = elim (find_start_code bytes) [
  | none ↦ some (err no_start_code)
  | some (start, prefix_bytes) ↦
      if any_nonzero (take start bytes)
      then some (err leading_data)
      else nal_types (suc (length bytes)) (drop (start + prefix_bytes) bytes)
]

abbrev pub contains_type : ℕ → List ℕ → Bool
contains_type t [] = false
contains_type t (x ∷ xs) = t == x || contains_type t xs

abbrev pub refuse_if : Bool → MediaGraphError → Checked
refuse_if bad error = if bad then err error else ok tt

abbrev pub is_key : VideoFrameDependency → Bool
is_key key_frame = true
is_key delta = false

unfoldable pub validate_types : VideoFrameDependency → Bool → List ℕ → Checked
validate_types key_frame first types =
    refuse_if (not (contains_type 7 types)) (missing_nal 7)
    >> refuse_if (not (contains_type 8 types)) (missing_nal 8)
    >> refuse_if (not (contains_type 5 types)) (missing_nal 5)
validate_types delta first types =
    refuse_if first first_not_key >> refuse_if (contains_type 5 types) mislabeled_idr

abbrev pub with_types : NalTypes → (List ℕ → Checked) → Option Checked
with_types none check = none
with_types (some types) check = some (types >>= check)

unfoldable pub validate_access_unit : Bytes → VideoFrameDependency → Bool → Option Checked
validate_access_unit bytes dependency first =
    if length bytes == 0
    then some (err empty_unit)
    else if ltb max_encoded_access_unit_bytes (length bytes)
    then some (err (too_long (length bytes)))
    else with_types (annex_b_nal_types bytes) (validate_types dependency first)

-- `bitrate_kbits`; `div_ceil` rounds up.
unfoldable pub bitrate_kbits : ℕ → Result MediaGraphError ℕ
bitrate_kbits bits_per_second =
    let kbits = (bits_per_second + 999) / 1000 in
    if leb 1 kbits && leb kbits 2048000
    then ok kbits
    else err (bitrate_out_of_range bits_per_second)
