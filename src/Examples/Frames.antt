-- ===== src/Examples/Frames.antt =====
-- The access unit of the tests of crates/pronk-media/src/h264.rs.
use pronk.Common.{◌≡◌, ◌↔◌, ◌⊎◌, ◌≤◌, ◌<◌, length, err, true, false, some, [], ◌∷◌, ok, arith, refl}
use pronk.Codec.{
  key_frame, Checked, too_long, max_encoded_access_unit_bytes, annex_b_nal_types,
  validate_access_unit,
}
use pronk.Codec.StartCodes.{NalUnit, annex_b}
use pronk.Codec.AnnexB.{IsAcceptable, annex_b_nal_types-annex_b}

abbrev sps : NalUnit
sps = record { long_prefix = true; first_byte = 103; others = 170 ∷ [] }

abbrev pps : NalUnit
pps = record { long_prefix = false; first_byte = 104; others = 187 ∷ [] }

abbrev idr : NalUnit
idr = record { long_prefix = false; first_byte = 101; others = 204 ∷ [] }

annex_b_nal_types-annex_b_example :
    let bytes = annex_b (sps ∷ pps ∷ idr ∷ []) in
    (annex_b_nal_types bytes ≡ some (ok (7 ∷ 8 ∷ 5 ∷ [])))
    × (((length bytes ≤ max_encoded_access_unit_bytes)
          × (answer : Checked) × (validate_access_unit bytes key_frame true ≡ some answer)
          × ((answer ≡ ok tt) ↔ IsAcceptable key_frame true (sps ∷ pps ∷ idr ∷ [])))
        ⊎ ((max_encoded_access_unit_bytes < length bytes)
            × (validate_access_unit bytes key_frame true ≡ some (err (too_long (length bytes))))))
annex_b_nal_types-annex_b_example =
    annex_b_nal_types-annex_b sps (pps ∷ idr ∷ []) key_frame true (refl, ground arith)
      ((refl, ground arith), ((refl, ground arith), tt))
