-- ===== src/Preparation/Requests.antt =====
-- The request for an EDID that crates/pronk/src/preparation.rs makes is one that edid.rs accepts.
use pronk.Common.{
  ℕ, ◌≤◌, ◌≡◌, Bool, true, false, Option, none, some, List, [], ◌∷◌, ◌++◌, length, length-append,
  if◌then◌else◌, Bytes, ok, refl, subst, arith, Bool-cases, inl, inr, String, ltb, ◌==◌,
}
use pronk.Protocol.{has_control, between}
use pronk.Protocol.Admission.{IsText}
use pronk.Protocol.Session.{IdentitySource, DeviceCapabilities, has_control_feature}
use pronk.Protocol.Capabilities.{IsCapabilities, IsSourced}
use pronk.Edid.Timings.{EdidMode}
use pronk.Edid.Blocks.{PnpId}
use pronk.Edid.Request.{
  TextLibraries, all_bytes, validate_stable_id, validate_manufacturer_name, validate_product_name,
  validate_cec, validate_cec_physical_address, has_gap, validate_modes, validate_request,
}
use pronk.DisplaySlot.Values.{DeviceInfo}
use pronk.Preparation.Device.{check_text, check_backend_id, check_device}
use pronk.Preparation.{edid_safe_product_name, safe_name, safe_product, edid_request}

-- What is trimmed is white space at the ends of a text.
abbrev pub IsTrimmed : Bytes → Bytes → Type 0
IsTrimmed value trimmed = (before after : Bytes) × (value ≡ before ++ (trimmed ++ after))

abbrev pub Trims : TextLibraries → Type 0
Trims text = (value : Bytes) → IsTrimmed value (text.trim value)

has_control-left : (xs ys : Bytes) → has_control (xs ++ ys) ≡ false → has_control xs ≡ false
unfolding has_control
has_control-left [] ys h = refl
has_control-left (x ∷ []) [] h = h
has_control-left (x ∷ []) (y ∷ ys) h = ground (arith, h)
has_control-left (x ∷ x' ∷ xs) ys h = ground (arith, h, has_control-left (x' ∷ xs) ys)

has_control-right : (xs ys : Bytes) → has_control (xs ++ ys) ≡ false → has_control ys ≡ false
unfolding has_control
has_control-right [] ys h = h
has_control-right (x ∷ []) [] h = refl
has_control-right (x ∷ []) (y ∷ ys) h = ground (arith, h)
has_control-right (x ∷ x' ∷ xs) ys h = has_control-right (x' ∷ xs) ys (ground (arith, h))

all_bytes-left :
    (p : ℕ → Bool) (xs ys : Bytes) → all_bytes p (xs ++ ys) ≡ true → all_bytes p xs ≡ true
all_bytes-left p [] ys h = refl
all_bytes-left p (x ∷ xs) ys h = ground (arith, h, all_bytes-left p xs ys)

all_bytes-right :
    (p : ℕ → Bool) (xs ys : Bytes) → all_bytes p (xs ++ ys) ≡ true → all_bytes p ys ≡ true
all_bytes-right p [] ys h = h
all_bytes-right p (x ∷ xs) ys h = all_bytes-right p xs ys (ground (arith, h))

length-trimmed : (value trimmed : Bytes) → IsTrimmed value trimmed → length trimmed ≤ length value
length-trimmed value trimmed (before, after, e) =
    rw e (omega (arith, length-append before (trimmed ++ after), length-append trimmed after))

has_control-trimmed :
    (value trimmed : Bytes)
    → IsTrimmed value trimmed
    → has_control value ≡ false
    → has_control trimmed ≡ false
has_control-trimmed value trimmed (before, after, e) h =
    has_control-left trimmed after
      (has_control-right before (trimmed ++ after) (subst (λ v. has_control v ≡ false) e h))

all_bytes-trimmed :
    (p : ℕ → Bool) (value trimmed : Bytes)
    → IsTrimmed value trimmed
    → all_bytes p value ≡ true
    → all_bytes p trimmed ≡ true
all_bytes-trimmed p value trimmed (before, after, e) h =
    all_bytes-left p trimmed after
      (all_bytes-right p before (trimmed ++ after) (subst (λ v. all_bytes p v ≡ true) e h))

validate_manufacturer_name-ok :
    (text : TextLibraries) (name : Option Bytes) (source : IdentitySource)
    → Trims text
    → IsSourced name source 128
    → (trimmed : Option Bytes) × (validate_manufacturer_name text name ≡ ok trimmed)
unfolding validate_manufacturer_name
validate_manufacturer_name-ok text none source t h = (none, refl)
validate_manufacturer_name-ok text (some name) source t h =
    let fits = length-trimmed name (text.trim name) (t name) in
    let printable = has_control-trimmed name (text.trim name) (t name) h.1.printable in
    elim (Bool-cases (length (text.trim name) == 0)) [
      | inl e ↦ rw (validate_manufacturer_name, e) (none, refl)
      | inr e ↦
          let small : ltb 128 (length (text.trim name)) ≡ false = ground (arith, fits, h.1.fits) in
          rw (validate_manufacturer_name, e, small, printable) (some (text.trim name), refl)
    ]

validate_product_name-ok :
    (text : TextLibraries) (name : Option Bytes)
    → Trims text
    → ((value : Bytes)
        → name ≡ some value
        → (length value ≤ 106) × (all_bytes (between 32 126) value ≡ true))
    → (trimmed : Option Bytes) × (validate_product_name text name ≡ ok trimmed)
unfolding validate_product_name
validate_product_name-ok text none t h = (none, refl)
validate_product_name-ok text (some name) t h =
    let fits = length-trimmed name (text.trim name) (t name) in
    let given = h name refl in
    let printable = all_bytes-trimmed (between 32 126) name (text.trim name) (t name) given.1 in
    elim (Bool-cases (length (text.trim name) == 0)) [
      | inl e ↦ rw (validate_product_name, e) (none, refl)
      | inr e ↦
          let small : ltb 106 (length (text.trim name)) ≡ false = ground (arith, fits, given.0) in
          rw (validate_product_name, e, small, printable) (some (text.trim name), refl)
    ]

safe_name-IsSafe :
    (value name : Bytes)
    → safe_name value ≡ some name
    → (length name ≤ 106) × (all_bytes (between 32 126) name ≡ true)
safe_name-IsSafe value name e = ground (arith, e)

check_text_lem :
    (field : String) (value : Bytes) (limit : ℕ)
    → check_text field value limit ≡ ok tt
    → IsText value limit
unfolding check_text
check_text_lem field value limit e = ground (arith, e)

pub check_device-ids :
    (device : DeviceInfo)
    → check_device device ≡ ok tt
    → IsText device.backend_id 64 × IsText device.device_id 256
unfolding check_device check_backend_id
check_device-ids device e = ground (
  arith,
  e,
  check_text_lem "backend ID" device.backend_id 64,
  check_text_lem "device ID" device.device_id 256,
)

validate_stable_id-ok :
    (field : String) (value : Bytes) (limit : ℕ)
    → IsText value limit
    → validate_stable_id field value limit ≡ ok tt
unfolding validate_stable_id
validate_stable_id-ok field value limit h = ground (arith, h.nonempty, h.fits, h.printable)

validate_cec-ok : (control : Bool) → validate_cec (if control then some 4096 else none) ≡ ok tt
unfolding validate_cec validate_cec_physical_address has_gap
validate_cec-ok true = refl
validate_cec-ok false = refl

safe_product-IsSafe :
    (text : TextLibraries) (given : Option Bytes) (value : Bytes)
    → safe_product text given ≡ some value
    → (length value ≤ 106) × (all_bytes (between 32 126) value ≡ true)
unfolding edid_safe_product_name
safe_product-IsSafe text none value e = cc e
safe_product-IsSafe text (some name) value e = safe_name-IsSafe (text.trim name) value e

pub edid_request-ok :
    (text : TextLibraries) (device : DeviceInfo) (c : DeviceCapabilities) (audio : Bool)
    (pnp_id : PnpId) (modes : List EdidMode)
    → Trims text
    → check_device device ≡ ok tt
    → IsCapabilities c
    → validate_modes modes ≡ ok tt
    → (names : Option Bytes × Option Bytes × Option Bytes) × (validate_request text
          (edid_request text device c audio pnp_id modes)
        ≡ ok names)
unfolding validate_request edid_safe_product_name
edid_request-ok text device c audio pnp_id modes t d h m =
    let request = edid_request text device c audio pnp_id modes in
    let (backend, id) = check_device-ids device d in
    let (manufacturer, me) =
      validate_manufacturer_name-ok text c.display_identity.manufacturer_name
        c.display_identity.manufacturer_source t h.identity.manufacturer in
    let (product, pe) =
      validate_product_name-ok text request.product_name t
        (safe_product-IsSafe text c.display_identity.product_name) in
    let (display, de) =
      validate_product_name-ok text request.display_name t
        (safe_name-IsSafe (text.trim device.display_name)) in
    (
      (manufacturer, product, display),
      rw
          (
            validate_request,
            validate_stable_id-ok "backend ID" device.backend_id 64 backend,
            validate_stable_id-ok "device ID" device.device_id 256 id,
            me,
            pe,
            de,
            m,
            validate_cec-ok (has_control_feature c.features),
          )
          refl,
    )
