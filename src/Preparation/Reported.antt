-- ===== src/Preparation/Reported.antt =====
-- The modes that crates/pronk/src/preparation.rs selects are modes that the device reports.
use pronk.Common.{
  ◌≡◌, ◌⊎◌, true, is_some, List, [], ◌∷◌, ◌++◌, All, take, ok, arith, refl, subst, sym, Bool-cases,
  inl, inr,
}
use pronk.Edid.Timings.{EdidMode, Mode-discrete, timing_for}
use pronk.Edid.Blocks.{contains_mode}
use pronk.Edid.Lengths.{All-take}
use pronk.Edid.Request.{max_edid_modes}
use pronk.Protocol.Session.{DisplayMode, DeviceCapabilities}
use pronk.Preparation.{
  edid_mode, supported_modes, required_mode, replace_last, with_required, select_initial_modes,
}

-- A reported mode has the size and the rate.
abbrev pub IsReported : List DisplayMode → EdidMode → Type 0
IsReported [] mode = ⊥
IsReported (d ∷ rest) mode =
    ((d.width ≡ mode.width) × (d.height ≡ mode.height) × (d.refresh_millihz ≡ mode.refresh_millihz))
    ⊎ IsReported rest mode

module _ (P : EdidMode → Type 0) where
  All-last :
      (modes : List EdidMode) (mode : EdidMode)
      → All P modes
      → P mode
      → All P (modes ++ (mode ∷ []))
  All-last [] mode h p = (p, tt)
  All-last (x ∷ xs) mode h p = (h.0, All-last xs mode h.1 p)

  All-replace_last :
      (modes : List EdidMode) (mode : EdidMode)
      → All P modes
      → P mode
      → All P (replace_last mode modes)
  All-replace_last [] mode h p = tt
  All-replace_last (x ∷ []) mode h p = (p, tt)
  All-replace_last (x ∷ y ∷ rest) mode h p = (h.0, All-replace_last (y ∷ rest) mode h.1 p)

  contained :
      (modes : List EdidMode) (mode : EdidMode)
      → All P modes
      → contains_mode mode modes ≡ true
      → P mode
  contained [] mode h e = absurd (ground (arith, e))
  contained (x ∷ xs) mode h e = elim (Mode-discrete mode x) [
    | yes same ↦ subst P (sym same) h.0
    | no other ↦ contained xs mode h.1 (ground (arith, e, other))
  ]

  All-supported_modes :
      (supported : List EdidMode) (modes : List DisplayMode)
      → All P supported
      → All (λ d. P (edid_mode d)) modes
      → All P (supported_modes supported modes)
  unfolding supported_modes
  All-supported_modes supported [] h k = h
  All-supported_modes supported (mode ∷ rest) h k =
      elim (Bool-cases (is_some (timing_for (edid_mode mode)))) [
        | inr other_size ↦
            rw (supported_modes, other_size) (All-supported_modes supported rest h k.1)
        | inl timed ↦ elim (Bool-cases (contains_mode (edid_mode mode) supported)) [
          | inl known ↦
              rw (supported_modes, timed, known) (All-supported_modes supported rest h k.1)
          | inr new ↦
              rw (supported_modes, timed, new)
                (All-supported_modes (supported ++ (edid_mode mode ∷ [])) rest
                  (All-last supported (edid_mode mode) h k.0) k.1)
        ]
      ]

  All-with_required :
      (selected : List EdidMode) → All P selected → P required_mode → All P (with_required selected)
  All-with_required selected h p = elim (Bool-cases (contains_mode required_mode selected)) [
    | inl there ↦ rw there h
    | inr missing ↦ rw missing (All-replace_last selected required_mode h p)
  ]

  -- What holds of the reported modes holds of the selected ones.
  All-select_initial_modes :
      (c : DeviceCapabilities) (modes : List EdidMode)
      → All (λ d. P (edid_mode d)) c.modes
      → select_initial_modes c ≡ ok modes
      → All P modes
  unfolding select_initial_modes
  All-select_initial_modes c modes h e =
      let supported = supported_modes [] c.modes in
      let every = All-supported_modes [] c.modes tt h in
      let same : with_required (take max_edid_modes supported) ≡ modes = ground (arith, e) in
      let required = contained supported required_mode every (ground (arith, e)) in
      subst (All P) same
        (All-with_required (take max_edid_modes supported) (All-take P 16 supported every) required)

reports_own :
    (modes : List DisplayMode) {P : EdidMode → Type 0}
    → ((mode : EdidMode) → IsReported modes mode → P mode)
    → All (λ d. P (edid_mode d)) modes
reports_own [] f = tt
reports_own (d ∷ rest) f =
    (f (edid_mode d) (inl (refl, refl, refl)), reports_own rest (λ mode h. f mode (inr h)))

-- Every mode that is selected is reported by the device.
pub select_initial_modes-IsReported :
    (c : DeviceCapabilities) (modes : List EdidMode)
    → select_initial_modes c ≡ ok modes
    → All (IsReported c.modes) modes
select_initial_modes-IsReported c modes e =
    All-select_initial_modes (IsReported c.modes) c modes (reports_own c.modes (λ mode h. h)) e
