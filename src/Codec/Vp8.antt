-- ===== src/Codec/Vp8.antt =====
-- `validate_frame` of crates/pronk-media/src/vp8.rs.
use pronk.Common.{
  ◌%◌, ◌≤◌, ◌≡◌, ◌↔◌, Bool, true, false, ◌&&◌, ◌||◌, not, [], ◌∷◌, ltb, ◌==◌, eqb, if◌then◌else◌,
  length, Bytes, ok, err, ◌>>◌, arith,
}
use pronk.Codec.{
  VideoFrameDependency, key_frame, delta, MediaGraphError, too_long, first_not_key, frame_too_short,
  mislabeled_frame, no_frame_start_code, Checked, max_encoded_access_unit_bytes,
}

unfoldable pub Dependency-discrete : Discrete VideoFrameDependency
Dependency-discrete = hlevel

-- The dependency that the frame tag, in its first byte, says.
abbrev pub encoded_dependency : Bytes → VideoFrameDependency
encoded_dependency [] = delta
encoded_dependency (tag ∷ rest) = if tag % 2 == 0 then key_frame else delta

-- The bytes 3 to 5.
abbrev pub has_start_code : Bytes → Bool
has_start_code (_ ∷ _ ∷ _ ∷ a ∷ b ∷ c ∷ _) = a == 157 && b == 1 && c == 42
has_start_code _ = false

abbrev fail_if : Bool → MediaGraphError → Checked
fail_if bad error = if bad then err error else ok tt

unfoldable pub validate_frame : Bytes → VideoFrameDependency → Bool → Checked
validate_frame bytes dependency first =
    let is_key = eqb Dependency-discrete dependency key_frame in
    fail_if (ltb (length bytes) 3) frame_too_short
    >> fail_if (ltb max_encoded_access_unit_bytes (length bytes)) (too_long (length bytes))
    >> fail_if (not (eqb Dependency-discrete dependency (encoded_dependency bytes)))
        (mislabeled_frame (encoded_dependency bytes) dependency)
    >> fail_if (first && not is_key) first_not_key
    >> fail_if (is_key && (ltb (length bytes) 10 || not (has_start_code bytes))) no_frame_start_code

-- What a frame of each kind is like.
abbrev IsFrameOf : VideoFrameDependency → Bool → Bytes → Type 0
IsFrameOf key_frame first bytes = (10 ≤ length bytes) × (has_start_code bytes ≡ true)
IsFrameOf delta first bytes = (3 ≤ length bytes) × (first ≡ false)

-- A frame is admitted exactly when it is not too long, its tag says what it is marked as, and it is
-- either a key frame with its start code in at least ten bytes, or another frame that is not the first
-- one, with its whole tag.
validate_frame_lem :
    (bytes : Bytes) (dependency : VideoFrameDependency) (first : Bool)
    → (validate_frame bytes dependency first ≡ ok tt) ↔ (
        (length bytes ≤ 8388608)
        × (dependency ≡ encoded_dependency bytes)
        × IsFrameOf dependency first bytes)
unfolding validate_frame
validate_frame_lem bytes key_frame first = ground arith
validate_frame_lem bytes delta first = ground arith
