-- ===== src/Codec/AnnexB.antt =====
-- The parser of Annex B in crates/pronk-media/src/h264.rs reads what an encoder writes.
use pronk.Common.{
  ltb, ℕ, zero, suc, ◌+◌, ◌%◌, ◌≤◌, ◌<◌, ◌≡◌, Bool, false, none, some, List, [], ◌∷◌, ◌++◌, ◌==◌,
  length, length-append, drop, All, Bytes, ok, err, arith, refl, ap, ◌∙◌, true, leb, Bool-cases,
  inl, inr, ◌⊎◌, ◌↔◌,
}
use pronk.Codec.{
  VideoFrameDependency, key_frame, delta, Checked, contains_type, too_long,
  max_encoded_access_unit_bytes, validate_access_unit, validate_types, find_start_code, nal_type,
  push, nal_types, annex_b_nal_types,
}
use pronk.Codec.StartCodes.{
  NalUnit, unit_bytes, prefix, prefix_bytes, IsUnit, annex_b, find_start_code-alone,
  find_start_code-next, find_start_code-prefix, drop-next, drop-prefix, length-prefix,
}

-- The types of the units, the low five bits of their first bytes.
abbrev pub types_of : List NalUnit → List ℕ
types_of [] = []
types_of (u ∷ rest) = u.first_byte % 32 ∷ types_of rest

nal_type-unit :
    (u : NalUnit) (end : ℕ) (tail : Bytes)
    → IsUnit u
    → 1 ≤ end
    → nal_type end (unit_bytes u ++ tail) ≡ ok (u.first_byte % 32)
unfolding nal_type
nal_type-unit u end tail h long = ground (arith, h.1, long)

nal_types-last :
    (fuel : ℕ) (payload : Bytes)
    → find_start_code payload ≡ none
    → nal_types (suc fuel) payload ≡ push (nal_type (length payload) payload) (some (ok []))
unfolding nal_types
nal_types-last fuel payload e = rw (nal_types, e) refl

nal_types-next :
    (fuel distance n : ℕ) (payload : Bytes)
    → find_start_code payload ≡ some (distance, n)
    → nal_types (suc fuel) payload
      ≡ push (nal_type distance payload) (nal_types fuel (drop (distance + n) payload))
unfolding nal_types
nal_types-next fuel distance n payload e = rw (nal_types, e) refl

nal_types-annex_b :
    (fuel : ℕ) (u : NalUnit) (rest : List NalUnit)
    → IsUnit u
    → All IsUnit rest
    → length (unit_bytes u ++ annex_b rest) < fuel
    → nal_types fuel (unit_bytes u ++ annex_b rest) ≡ some (ok (types_of (u ∷ rest)))
nal_types-annex_b zero u rest h k enough = absurd (omega arith)
nal_types-annex_b (suc fuel) u [] h k enough =
    nal_types-last fuel (unit_bytes u ++ []) (find_start_code-alone (unit_bytes u) h.0)
    ∙ ap (λ t. push t (some (ok [])))
        (nal_type-unit u (length (unit_bytes u ++ [])) [] h (omega arith))
nal_types-annex_b (suc fuel) u (v ∷ rest) h k enough =
    let tail = unit_bytes v ++ annex_b rest in
    let more = nal_types-annex_b fuel v rest k.0 k.1 (
      omega (
        arith,
        enough,
        length-append (unit_bytes u) (prefix v.long_prefix ++ tail),
        length-append (prefix v.long_prefix) tail,
        length-prefix v.long_prefix,
      )) in
    nal_types-next fuel (length (unit_bytes u) + 0) (prefix_bytes v.long_prefix)
      (unit_bytes u ++ (prefix v.long_prefix ++ tail))
      (find_start_code-next (unit_bytes u) v.long_prefix tail h.0)
    ∙ (ap
          (λ t. push t (
            nal_types fuel (
              drop (length (unit_bytes u) + 0 + prefix_bytes v.long_prefix)
                (unit_bytes u ++ (prefix v.long_prefix ++ tail)))))
          (nal_type-unit u (length (unit_bytes u) + 0) (prefix v.long_prefix ++ tail) h
            (omega arith))
        ∙ ap (λ r. push (ok (u.first_byte % 32)) r)
            (ap (nal_types fuel) (drop-next (unit_bytes u) v.long_prefix tail) ∙ more))

annex_b_nal_types-first :
    (n : ℕ) (bytes : Bytes)
    → find_start_code bytes ≡ some (0, n)
    → annex_b_nal_types bytes ≡ nal_types (suc (length bytes)) (drop (0 + n) bytes)
unfolding annex_b_nal_types
annex_b_nal_types-first n bytes e = rw (annex_b_nal_types, e) refl

read-annex_b :
    (u : NalUnit) (rest : List NalUnit)
    → IsUnit u
    → All IsUnit rest
    → annex_b_nal_types (annex_b (u ∷ rest)) ≡ some (ok (types_of (u ∷ rest)))
read-annex_b u rest h k =
    let payload = unit_bytes u ++ annex_b rest in
    annex_b_nal_types-first (prefix_bytes u.long_prefix) (prefix u.long_prefix ++ payload)
      (find_start_code-prefix u.long_prefix payload)
    ∙ (ap (nal_types (suc (length (prefix u.long_prefix ++ payload)))) (
          ap (λ n. drop n (prefix u.long_prefix ++ payload)) (omega arith)
          ∙ drop-prefix u.long_prefix payload)
        ∙ nal_types-annex_b _ u rest h k (
            omega
              (arith, length-append (prefix u.long_prefix) payload, length-prefix u.long_prefix)))

accepts :
    (bytes : Bytes) (dependency : VideoFrameDependency) (first : Bool) (types : List ℕ)
    → 1 ≤ length bytes
    → length bytes ≤ max_encoded_access_unit_bytes
    → annex_b_nal_types bytes ≡ some (ok types)
    → validate_access_unit bytes dependency first ≡ some (validate_types dependency first types)
unfolding validate_access_unit
accepts bytes dependency first types h k e =
    let present : (length bytes == 0) ≡ false = ground (arith, h) in
    let short : ltb max_encoded_access_unit_bytes (length bytes) ≡ false = ground (arith, k) in
    cc (present, short, e)

too_large :
    (bytes : Bytes) (dependency : VideoFrameDependency) (first : Bool)
    → max_encoded_access_unit_bytes < length bytes
    → validate_access_unit bytes dependency first ≡ some (err (too_long (length bytes)))
unfolding validate_access_unit
too_large bytes dependency first h = ground (arith, h)

-- A unit of the type is among the units.
abbrev pub HasType : ℕ → List NalUnit → Type 0
HasType n [] = ⊥
HasType n (u ∷ rest) = (u.first_byte % 32 ≡ n) ⊎ HasType n rest

-- A key frame holds both parameter sets and an IDR picture; a delta frame holds no IDR picture, and
-- is not the first.
abbrev pub IsAcceptable : VideoFrameDependency → Bool → List NalUnit → Type 0
IsAcceptable key_frame first units = HasType 7 units × HasType 8 units × HasType 5 units
IsAcceptable delta first units = (first ≡ false) × ¬ HasType 5 units

contains_type-HasType :
    (n : ℕ) (units : List NalUnit) → (contains_type n (types_of units) ≡ true) ↔ HasType n units
contains_type-HasType n [] = ground arith
contains_type-HasType n (u ∷ rest) = ground (arith, contains_type-HasType n rest)

validate_types-IsAcceptable :
    (dependency : VideoFrameDependency) (first : Bool) (units : List NalUnit)
    → (validate_types dependency first (types_of units) ≡ ok tt)
      ↔ IsAcceptable dependency first units
unfolding validate_types
validate_types-IsAcceptable key_frame first units = ground (
  arith,
  contains_type-HasType 7 units,
  contains_type-HasType 8 units,
  contains_type-HasType 5 units,
)
validate_types-IsAcceptable delta first units = ground (arith, contains_type-HasType 5 units)

-- An access unit written in Annex B, one start code of three or four bytes before each unit, is read
-- with the types of its units in order, if there is a unit and each holds no start code, does not
-- end with a zero byte and has a type that is not zero; the fuel does not end. The validation refuses
-- one beyond the size limit; one within it is accepted exactly if it is a key frame with a sequence
-- parameter set, a picture parameter set and an IDR picture, or a delta frame without an IDR picture
-- that is not the first frame.
pub annex_b_nal_types-annex_b :
    (u : NalUnit) (rest : List NalUnit) (dependency : VideoFrameDependency) (first : Bool)
    → IsUnit u
    → All IsUnit rest
    → let bytes = annex_b (u ∷ rest) in
      (annex_b_nal_types bytes ≡ some (ok (types_of (u ∷ rest))))
      × (((length bytes ≤ max_encoded_access_unit_bytes)
            × (answer : Checked) × (validate_access_unit bytes dependency first ≡ some answer)
            × ((answer ≡ ok tt) ↔ IsAcceptable dependency first (u ∷ rest)))
          ⊎ ((max_encoded_access_unit_bytes < length bytes)
              × (validate_access_unit bytes dependency first
                  ≡ some (err (too_long (length bytes))))))
annex_b_nal_types-annex_b u rest dependency first h k =
    let bytes = annex_b (u ∷ rest) in
    let read = read-annex_b u rest h k in
    let payload = unit_bytes u ++ annex_b rest in
    let present : 1 ≤ length bytes =
      omega (arith, length-append (prefix u.long_prefix) payload, length-prefix u.long_prefix) in
    (
      read,
      elim (Bool-cases (leb (length bytes) max_encoded_access_unit_bytes)) [
        | inl e ↦
            let short : length bytes ≤ max_encoded_access_unit_bytes = ground (arith, e) in
            inl (
              short,
              validate_types dependency first (types_of (u ∷ rest)),
              accepts bytes dependency first (types_of (u ∷ rest)) present short read,
              validate_types-IsAcceptable dependency first (u ∷ rest),
            )
        | inr e ↦
            let long : max_encoded_access_unit_bytes < length bytes = ground (arith, e) in
            inr (long, too_large bytes dependency first long)
      ],
    )
