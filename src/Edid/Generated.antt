-- ===== src/Edid/Generated.antt =====
-- What `build_cast_display_edid` of crates/pronk-core/src/edid.rs makes of a request.
use pronk.Common.{
  ℕ, suc, ◌*◌, ◌/◌, ◌≤◌, ◌≡◌, true, Option, none, some, is_some, List, [], ◌∷◌, ◌++◌, ltb,
  if◌then◌else◌, length, length-append, take, get_elem?, All, Bytes, Result, ok, err, arith, refl,
  sym, ap, subst, ◌∙◌, Bool-cases, Option-cases, Result-cases, inl, inr,
}
use pronk.Edid.Panics.{Gives, gives, Gives-bind, Gives-map, zeros, length-zeros, first}
use pronk.Edid.Slices.{take-take, get_elem?-take, take-append, get_elem?-append}
use pronk.Edid.Fields.{Gives-both}
use pronk.Edid.Reading.{
  HasIdentity, Announces, Describes, Describes-prefix, write_base_block-Describes,
}
use pronk.Edid.Timings.{EdidMode, timing_for}
use pronk.Edid.Blocks.{EdidNumericIdentity}
use pronk.Edid.Lengths.{HasLength, IsSupported}
use pronk.Edid.Layout.{
  IsBase, write_base_block-Gives, displayid_product_block-Gives, displayid_parameters_block-Gives,
  write_displayid_extension-Gives, write_cta_extension-Gives,
}
use pronk.Edid.Descriptor.{displayid_type_i_timing_block-Gives}
use pronk.Edid.Request.{
  TextLibraries, CastDisplayEdidRequest, CastDisplayEdidError, validate_product_name,
  validate_each_mode, validate_modes, validate_request,
}
use pronk.Edid.Identity.{numeric_identity}
use pronk.Edid.Build.{
  validate_edid, set_block_checksums, GeneratedCastDisplayEdid, unwrap_or_default,
  two_displayid_blocks, needs_continuation, displayid_blocks, edid_bytes, checked_edid,
  build_cast_display_edid,
}
use pronk.Edid.Framing.{IsFramed, set_checksums-Gives, validate_edid-IsFramed}

validate_product_name-length :
    (libraries : TextLibraries) (value name : Option Bytes)
    → validate_product_name libraries value ≡ ok name
    → length (unwrap_or_default name) ≤ 106
unfolding validate_product_name
validate_product_name-length libraries none name e = ground (arith, e)
validate_product_name-length libraries (some given) name e = ground (arith, e)

supported : (mode : EdidMode) → is_some (timing_for mode) ≡ true → IsSupported mode
supported mode e = elim (Option-cases (timing_for mode)) [
  | inl none_there ↦ absurd (ground (arith, none_there, e))
  | inr (t, there) ↦ subst (Gives (λ t. Unit {0})) (sym there) (gives tt)
]

validate_each_mode-IsSupported :
    (unique modes : List EdidMode) → validate_each_mode unique modes ≡ ok tt → All IsSupported modes
unfolding validate_each_mode
validate_each_mode-IsSupported unique [] e = tt
validate_each_mode-IsSupported unique (mode ∷ rest) e = (
  supported mode (ground (arith, e)),
  validate_each_mode-IsSupported (mode ∷ unique) rest (ground (arith, e)),
)

-- What validated modes are, as far as the blocks need it.
abbrev AreModes : List EdidMode → Type 0
AreModes modes =
    (preferred : EdidMode) × (rest : List EdidMode) × (modes ≡ preferred ∷ rest)
    × All IsSupported (preferred ∷ rest)
    × (length (preferred ∷ rest) ≤ 16)

validate_modes-AreModes : (modes : List EdidMode) → validate_modes modes ≡ ok tt → AreModes modes
unfolding validate_modes
validate_modes-AreModes [] e = absurd (ground (arith, e))
validate_modes-AreModes (preferred ∷ rest) e = (
  preferred,
  rest,
  refl,
  validate_each_mode-IsSupported [] (preferred ∷ rest) (ground (arith, e)),
  ground (arith, e),
)

validated :
    (libraries : TextLibraries) (request : CastDisplayEdidRequest)
    (manufacturer product display : Option Bytes)
    → validate_request libraries request ≡ ok (manufacturer, product, display)
    → AreModes request.modes × (length (unwrap_or_default display) ≤ 106)
unfolding validate_request
validated libraries request manufacturer product display e = (
  validate_modes-AreModes request.modes (ground (arith, e)),
  validate_product_name-length libraries request.display_name display (ground (arith, e)),
)

-- Three blocks of which the last is a DisplayID block, or four of which the last two are.
abbrev pub block_count : Option Bytes → ℕ
block_count display_name = if ltb 68 (length (unwrap_or_default display_name)) then 4 else 3

displayid_blocks-Gives :
    (product parameters timing : Bytes)
    → length product ≤ 121
    → length parameters ≡ 15
    → length timing ≡ 23
    → Gives
        (HasLength (if needs_continuation product parameters timing then 256 else 128))
        (displayid_blocks product parameters timing)
unfolding displayid_blocks two_displayid_blocks
displayid_blocks-Gives product parameters timing h k l =
    elim (Bool-cases (needs_continuation product parameters timing)) [
      | inl both ↦ rw both (
          Gives-bind (write_displayid_extension-Gives 4 1 product (zeros 128) h (length-zeros 128))
            λ one o.
              Gives-bind
                (write_displayid_extension-Gives 0 0 (parameters ++ timing) (zeros 128)
                  (omega (arith, k, l, length-append parameters timing)) (length-zeros 128))
                λ two t. gives (omega (arith, o, t, length-append one two)))
      | inr single ↦ rw single (
          write_displayid_extension-Gives 4 0 (product ++ (parameters ++ timing)) (zeros 128)
            (ground (
              arith,
              single,
              length-append product (parameters ++ timing),
              length-append parameters timing,
            ))
            (length-zeros 128))
    ]

-- Sealing the blocks that follow a base block makes a framed EDID that says what the base block says.
set_block_checksums-IsFramed :
    (n : ℕ) (identity : EdidNumericIdentity) (mode : EdidMode) (base rest : Bytes)
    → IsBase n base × Describes identity mode base
    → length rest ≡ n * 128
    → Gives
        (λ s. IsFramed (suc n) s × Describes identity mode s)
        (set_block_checksums (base ++ rest))
unfolding set_block_checksums
set_block_checksums-IsFramed n identity mode base rest (b, said) e =
    let whole : length (base ++ rest) ≡ suc n * 128 =
      omega (arith, e, b.size, length-append base rest) in
    let blocks : length (base ++ rest) / 128 ≡ suc n = omega (arith, whole) in
    rw blocks (
      Gives-map (set_checksums-Gives (suc n) (base ++ rest) whole) (λ s k. (
        record {
          size = k.0;
          header =
              sym (take-take 8 127 s (omega arith))
              ∙ (ap (take 8) k.2
                  ∙ (take-take 8 127 (base ++ rest) (omega arith)
                      ∙ (take-append 8 base rest (omega (arith, b.size)) ∙ b.header)));
          count =
              sym (get_elem?-take 126 127 s (omega arith))
              ∙ (ap (λ l. get_elem? l 126) k.2
                  ∙ (get_elem?-take 126 127 (base ++ rest) (omega arith)
                      ∙ (get_elem?-append 126 base rest (omega (arith, b.size))
                          ∙ (b.count ∙ ap some (omega arith)))));
          sums = k.1;
        },
        Describes-prefix identity mode s base
            (sym (take-take 126 127 s (omega arith))
              ∙ (ap (take 126) k.2
                  ∙ (take-take 126 127 (base ++ rest) (omega arith)
                      ∙ take-append 126 base rest (omega (arith, b.size)))))
            said,
      )))

edid_bytes-IsFramed :
    (identity : EdidNumericIdentity) (request : CastDisplayEdidRequest)
    (display_name : Option Bytes)
    → AreModes request.modes
    → length (unwrap_or_default display_name) ≤ 106
    → Gives
        (λ edid.
          IsFramed (block_count display_name) edid
          × (HasIdentity identity edid × Announces request.modes edid))
        (edid_bytes identity request display_name)
unfolding edid_bytes first
edid_bytes-IsFramed identity request display_name (preferred, rest, e, supported_modes, few) short =
    rw e (
      Gives-bind (displayid_product_block-Gives identity (unwrap_or_default display_name))
        λ product p.
          Gives-bind (displayid_parameters_block-Gives preferred request.audio) λ parameters q.
            Gives-bind (displayid_type_i_timing_block-Gives preferred supported_modes.0) λ timing t.
              let n = if needs_continuation product parameters timing then 3 else 2 in
              let count : suc n ≡ block_count display_name = ground (arith, p, q, t) in
              Gives-bind
                (Gives-both
                  (write_base_block-Gives identity preferred rest n (zeros 128) supported_modes
                    (length-zeros 128))
                  (write_base_block-Describes identity preferred rest n (zeros 128) supported_modes
                    (length-zeros 128)))
                λ base b.
                  Gives-bind
                    (write_cta_extension-Gives preferred rest request.audio
                      request.cec_physical_address (zeros 128) supported_modes.0 few
                      (length-zeros 128))
                    λ cta c.
                      Gives-bind
                        (displayid_blocks-Gives product parameters timing (omega (arith, p, short))
                          q t)
                        λ displayid d.
                          subst
                            (λ m.
                              Gives (λ edid. IsFramed m edid × Describes identity preferred edid)
                                (set_block_checksums (base ++ (cta ++ displayid))))
                            count
                            (set_block_checksums-IsFramed n identity preferred base
                              (cta ++ displayid) b
                              (ground (arith, c, d, length-append cta displayid))))

-- A request that is not valid is refused with the first error; one that is valid gives an EDID with
-- its numbers and names.
pub data IsOutcome (libraries : TextLibraries) (request : CastDisplayEdidRequest)
    : Result CastDisplayEdidError GeneratedCastDisplayEdid → Type 0 where
  refused :
      {error : CastDisplayEdidError}
      → validate_request libraries request ≡ err error
      → IsOutcome libraries request (err error)
  generated :
      {generated : GeneratedCastDisplayEdid} {manufacturer product : Option Bytes}
      → validate_request libraries request ≡ ok (manufacturer, product, generated.display_name)
      → generated.identity ≡ numeric_identity libraries request manufacturer product
      → generated.modes ≡ request.modes
      → IsFramed (block_count generated.display_name) generated.edid
      → HasIdentity generated.identity generated.edid
      → Announces generated.modes generated.edid
      → IsOutcome libraries request (ok generated)

checked_edid-IsOutcome :
    (libraries : TextLibraries) (request : CastDisplayEdidRequest)
    (manufacturer product display : Option Bytes) (bytes : Bytes)
    → validate_request libraries request ≡ ok (manufacturer, product, display)
    → IsFramed (block_count display) bytes
    → HasIdentity (numeric_identity libraries request manufacturer product) bytes
    → Announces request.modes bytes
    → IsOutcome libraries request (
        checked_edid
          (numeric_identity libraries request manufacturer product)
          request
          display
          bytes)
unfolding checked_edid
checked_edid-IsOutcome libraries request manufacturer product display bytes valid framed says
      starts =
    let accepted : validate_edid bytes ≡ ok tt =
      (validate_edid-IsFramed bytes).1
        (block_count display, (ground arith, ground arith), framed) in
    rw (checked_edid, accepted) (generated valid refl refl framed says starts)

-- Whatever the request, making an EDID does not panic: a request that is not valid gives the error
-- of its validation; a valid one an EDID whose record has the derived identity and the request's modes.
-- Its bytes have the header, that identity (the letters of the maker, the product code and the serial
-- number) at its place, a first descriptor that reads as the timing of the first mode, three
-- blocks or (where the name has more than 68 bytes) four, that number in the base block, and blocks
-- that each sum to 0; the framing check never fails.
pub build_cast_display_edid-IsOutcome :
    (libraries : TextLibraries) (request : CastDisplayEdidRequest)
    → Gives (IsOutcome libraries request) (build_cast_display_edid libraries request)
unfolding build_cast_display_edid
build_cast_display_edid-IsOutcome libraries request =
    elim (Result-cases (validate_request libraries request)) [
      | inr (error, e) ↦ rw (build_cast_display_edid, e) (gives (refused e))
      | inl ((manufacturer, product, display), e) ↦
          let facts = validated libraries request manufacturer product display e in
          rw (build_cast_display_edid, e)
            (Gives-bind
              (edid_bytes-IsFramed (numeric_identity libraries request manufacturer product) request
                display facts.0 facts.1)
              (λ bytes (framed, (says, starts)). gives (
                checked_edid-IsOutcome libraries request manufacturer product display bytes e framed
                  says starts)))
    ]
