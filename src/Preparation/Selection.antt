-- ===== src/Preparation/Selection.antt =====
-- The modes that `select_initial_modes` of crates/pronk/src/preparation.rs selects.
use pronk.Common.{
  ℕ, suc, zero, ◌≤◌, ◌≡◌, ◌≢◌, true, false, is_some, List, [], ◌∷◌, ◌++◌, take, length, length-take,
  ok, refl, arith, Bool-cases, inl, inr, subst,
}
use pronk.Edid.Timings.{EdidMode, Mode-discrete, timing_for}
use pronk.Edid.Blocks.{contains_mode}
use pronk.Edid.Request.{validate_each_mode, has_required_mode, validate_modes, max_edid_modes}
use pronk.Protocol.Session.{DisplayMode, DeviceCapabilities}
use pronk.Preparation.{
  edid_mode, supported_modes, required_mode, replace_last, with_required, select_initial_modes,
}

-- Supported modes, none of them earlier or twice.
abbrev IsUnique : List EdidMode → List EdidMode → Type 0
IsUnique earlier [] = Unit
IsUnique earlier (mode ∷ rest) =
    (is_some (timing_for mode) ≡ true)
    × (contains_mode mode earlier ≡ false)
    × IsUnique (mode ∷ earlier) rest

validate_each_mode-ok :
    (earlier modes : List EdidMode)
    → IsUnique earlier modes
    → validate_each_mode earlier modes ≡ ok tt
unfolding validate_each_mode
validate_each_mode-ok earlier [] h = refl
validate_each_mode-ok earlier (mode ∷ rest) h =
    ground (arith, h, validate_each_mode-ok (mode ∷ earlier) rest)

IsUnique-take :
    (n : ℕ) (earlier modes : List EdidMode)
    → IsUnique earlier modes
    → IsUnique earlier (take n modes)
IsUnique-take zero earlier modes h = tt
IsUnique-take (suc n) earlier [] h = tt
IsUnique-take (suc n) earlier (mode ∷ rest) h =
    (h.0, h.1, IsUnique-take n (mode ∷ earlier) rest h.2)

-- A mode that is new at the end.
IsUnique-append :
    (earlier modes : List EdidMode) (mode : EdidMode)
    → IsUnique earlier modes
    → is_some (timing_for mode) ≡ true
    → contains_mode mode earlier ≡ false
    → contains_mode mode modes ≡ false
    → IsUnique earlier (modes ++ (mode ∷ []))
IsUnique-append earlier [] mode h s e n = (s, e, tt)
IsUnique-append earlier (x ∷ rest) mode h s e n = (
  h.0,
  h.1,
  IsUnique-append (x ∷ earlier) rest mode h.2 s (ground (arith, e, n)) (ground (arith, n)),
)

IsUnique-replace_last :
    (earlier modes : List EdidMode) (mode : EdidMode)
    → IsUnique earlier modes
    → is_some (timing_for mode) ≡ true
    → contains_mode mode earlier ≡ false
    → contains_mode mode modes ≡ false
    → IsUnique earlier (replace_last mode modes)
IsUnique-replace_last earlier [] mode h s e n = tt
IsUnique-replace_last earlier (x ∷ []) mode h s e n = (s, e, tt)
IsUnique-replace_last earlier (x ∷ y ∷ rest) mode h s e n = (
  h.0,
  h.1,
  IsUnique-replace_last (x ∷ earlier) (y ∷ rest) mode h.2 s (ground (arith, e, n))
      (ground (arith, n)),
)

supported_modes-IsUnique :
    (supported : List EdidMode) (modes : List DisplayMode)
    → IsUnique [] supported
    → IsUnique [] (supported_modes supported modes)
unfolding supported_modes
supported_modes-IsUnique supported [] h = h
supported_modes-IsUnique supported (mode ∷ rest) h =
    elim (Bool-cases (is_some (timing_for (edid_mode mode)))) [
      | inr e ↦ rw (supported_modes, e) (supported_modes-IsUnique supported rest h)
      | inl e ↦ elim (Bool-cases (contains_mode (edid_mode mode) supported)) [
        | inl c ↦ rw (supported_modes, e, c) (supported_modes-IsUnique supported rest h)
        | inr c ↦
            rw (supported_modes, e, c)
              (supported_modes-IsUnique (supported ++ (edid_mode mode ∷ [])) rest
                (IsUnique-append [] supported (edid_mode mode) h e refl c))
      ]
    ]

replace_last-required :
    (modes : List EdidMode)
    → length modes ≢ 0
    → has_required_mode (replace_last required_mode modes) ≡ true
replace_last-required [] h = absurd (h refl)
replace_last-required (x ∷ []) h = refl
replace_last-required (x ∷ y ∷ rest) h = ground (arith, replace_last-required (y ∷ rest))

length-replace_last :
    (mode : EdidMode) (modes : List EdidMode) → length (replace_last mode modes) ≡ length modes
length-replace_last mode [] = refl
length-replace_last mode (x ∷ []) = refl
length-replace_last mode (x ∷ y ∷ rest) = omega (arith, length-replace_last mode (y ∷ rest))

contains_mode-required :
    (modes : List EdidMode)
    → contains_mode required_mode modes ≡ true
    → has_required_mode modes ≡ true
unfolding Mode-discrete
contains_mode-required [] h = h
contains_mode-required (x ∷ rest) h = ground (arith, h, contains_mode-required rest)

pub required-IsSupported : is_some (timing_for required_mode) ≡ true
unfolding timing_for
required-IsSupported = refl

accepted :
    (modes : List EdidMode)
    → length modes ≢ 0
    → length modes ≤ 16
    → IsUnique [] modes
    → has_required_mode modes ≡ true
    → validate_modes modes ≡ ok tt
unfolding validate_modes
accepted modes nonempty few unique required =
    ground (arith, nonempty, few, validate_each_mode-ok [] modes unique, required)

with_required-valid :
    (selected : List EdidMode)
    → length selected ≢ 0
    → length selected ≤ 16
    → IsUnique [] selected
    → validate_modes (with_required selected) ≡ ok tt
with_required-valid selected nonempty few unique =
    elim (Bool-cases (contains_mode required_mode selected)) [
      | inl e ↦ rw e (accepted selected nonempty few unique (contains_mode-required selected e))
      | inr e ↦
          let same = length-replace_last required_mode selected in
          rw e (
            accepted (replace_last required_mode selected) (omega (arith, same, nonempty))
              (omega (arith, same, few))
              (IsUnique-replace_last [] selected required_mode unique required-IsSupported refl e)
              (replace_last-required selected nonempty))
    ]

-- The modes that are selected pass the validation of an EDID's modes, whatever the device reports.
pub select_initial_modes-valid :
    (capabilities : DeviceCapabilities) (modes : List EdidMode)
    → select_initial_modes capabilities ≡ ok modes
    → validate_modes modes ≡ ok tt
unfolding select_initial_modes
select_initial_modes-valid capabilities modes e =
    let supported = supported_modes [] capabilities.modes in
    let selected = take max_edid_modes supported in
    let nonempty : length supported ≢ 0 = ground (arith, e) in
    let same : with_required selected ≡ modes = ground (arith, e) in
    subst (λ m. validate_modes m ≡ ok tt) same
      (with_required-valid selected (omega (arith, nonempty, length-take 16 supported))
        (omega (arith, length-take 16 supported))
        (IsUnique-take 16 [] supported (supported_modes-IsUnique [] capabilities.modes tt)))
