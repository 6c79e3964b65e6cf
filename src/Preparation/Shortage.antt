-- ===== src/Preparation/Shortage.antt =====
-- Which modes are missing where crates/pronk/src/preparation.rs selects none.
use pronk.Common.{
  ◌≡◌, ◌≢◌, true, false, is_some, none, List, [], ◌∷◌, ◌++◌, arith, length, All, err, Bool-cases,
  inl, inr, sym, subst, length-append, ◌==◌,
}
use pronk.Protocol.Session.{DisplayMode, DeviceCapabilities}
use pronk.Edid.Timings.{EdidMode, timing_for}
use pronk.Edid.Blocks.{contains_mode}
use pronk.DisplaySlot.Values.{DeviceInfo}
use pronk.Preparation.Selection.{required-IsSupported}
use pronk.Preparation.{
  PrepareCastDeviceError, edid_mode, supported_modes, required_mode, select_initial_modes,
}
use pronk.Preparation.Inputs.{Refusal, no_mode, no_vga}

nowhere :
    (mode : EdidMode) (modes : List EdidMode)
    → length modes ≡ 0
    → contains_mode mode modes ≡ true
    → ⊥
nowhere mode [] n e = ground (arith, e)
nowhere mode (x ∷ xs) n e = absurd (omega (arith, n))

untimed : (mode : EdidMode) → mode ≡ required_mode → is_some (timing_for mode) ≡ false → ⊥
untimed mode same e =
    let timed : is_some (timing_for mode) ≡ true =
      subst (λ m. is_some (timing_for m) ≡ true) (sym same) required-IsSupported in
    ground (arith, e, timed)

known_elsewhere :
    (mode : EdidMode) (modes : List EdidMode)
    → mode ≡ required_mode
    → contains_mode mode modes ≡ true
    → contains_mode required_mode modes ≡ false
    → ⊥
known_elsewhere mode modes same e n =
    let there : contains_mode required_mode modes ≡ true =
      subst (λ m. contains_mode m modes ≡ true) same e in
    ground (arith, there, n)

unsupported :
    (supported : List EdidMode) (modes : List DisplayMode)
    → length (supported_modes supported modes) ≡ 0
    → (length supported ≡ 0) × All (λ mode. timing_for (edid_mode mode) ≡ none) modes
unfolding supported_modes
unsupported supported [] e = (e, tt)
unsupported supported (mode ∷ rest) e = elim (Bool-cases (is_some (timing_for (edid_mode mode)))) [
  | inr other_size ↦
      let (n, more) = unsupported supported rest (ground (arith, other_size, e)) in
      (n, (ground (arith, other_size), more))
  | inl timed ↦ elim (Bool-cases (contains_mode (edid_mode mode) supported)) [
    | inl known ↦
        let (n, more) = unsupported supported rest (ground (arith, timed, known, e)) in
        absurd (nowhere (edid_mode mode) supported n known)
    | inr new ↦
        let (n, more) =
          unsupported (supported ++ (edid_mode mode ∷ [])) rest (ground (arith, timed, new, e)) in
        absurd (omega (arith, n, length-append supported (edid_mode mode ∷ [])))
  ]
]

contains_mode-append :
    (mode new : EdidMode) (modes : List EdidMode)
    → contains_mode mode (modes ++ (new ∷ [])) ≡ false
    → (contains_mode mode modes ≡ false) × (new ≢ mode)
contains_mode-append mode new [] e = ground (arith, e)
contains_mode-append mode new (x ∷ xs) e = ground (arith, e, contains_mode-append mode new xs)

unlisted :
    (supported : List EdidMode) (modes : List DisplayMode)
    → contains_mode required_mode (supported_modes supported modes) ≡ false
    → (contains_mode required_mode supported ≡ false)
      × All (λ mode. edid_mode mode ≢ required_mode) modes
unfolding supported_modes
unlisted supported [] e = (e, tt)
unlisted supported (mode ∷ rest) e = elim (Bool-cases (is_some (timing_for (edid_mode mode)))) [
  | inr other_size ↦
      let (n, more) = unlisted supported rest (ground (arith, other_size, e)) in
      (n, ((λ same. absurd (untimed (edid_mode mode) same other_size)), more))
  | inl timed ↦ elim (Bool-cases (contains_mode (edid_mode mode) supported)) [
    | inl known ↦
        let (n, more) = unlisted supported rest (ground (arith, timed, known, e)) in
        (n, ((λ same. absurd (known_elsewhere (edid_mode mode) supported same known n)), more))
    | inr new ↦
        let (n, more) =
          unlisted (supported ++ (edid_mode mode ∷ [])) rest (ground (arith, timed, new, e)) in
        let (before, other) = contains_mode-append required_mode (edid_mode mode) supported n in
        (before, (other, more))
  ]
]

-- The error of the modes says which of them are missing.
pub select_initial_modes-refusal :
    (device : DeviceInfo) (c : DeviceCapabilities) (e : PrepareCastDeviceError)
    → select_initial_modes c ≡ err e
    → Refusal device c e
unfolding select_initial_modes
select_initial_modes-refusal device c e h =
    let supported = supported_modes [] c.modes in
    elim (Bool-cases (length supported == 0)) [
      | inl none_there ↦
          subst (Refusal device c) (ground (arith, none_there, h))
            (no_mode (unsupported [] c.modes (ground (arith, none_there))).1)
      | inr some_there ↦ elim (Bool-cases (contains_mode required_mode supported)) [
        | inl there ↦ absurd (ground (arith, some_there, there, h))
        | inr missing ↦
            subst (Refusal device c) (ground (arith, some_there, missing, h))
              (no_vga (unlisted [] c.modes missing).1)
      ]
    ]
