-- ===== src/SessionReplacement/Ledger.antt =====
-- An account of the calls that the slot of crates/pronk/src/replaceable_device_session.rs makes of its
-- ports: what the calls leave a port with, and what keeps the account true.
use pronk.Common.{
  ℕ, ◌+◌, ◌≤◌, ◌<◌, ◌≡◌, Bool, true, false, ◌&&◌, ◌||◌, Option, none, some, List, [], ◌∷◌, ◌==◌,
  if◌then◌else◌, All, All-map, subst, ok, err, arith, refl, Bool-cases, inl, inr, ◌∙◌, ap,
}
use pronk.SessionReplacement.Values.{
  DeviceSessionStopReason, PortCall, transmit_control, configure, start, resume, suspend,
  stop_media, stop, Answer, Calls, ActiveSession, World,
}
use pronk.SessionReplacement.{contains, without}

-- The media generation of a port after a call: configured by `configure`, and gone with a
-- `stop_media` that succeeds.
unfoldable pub media_after : PortCall → Answer → Option ℕ → Option ℕ
media_after (configure generation) answer media = some generation
media_after (stop_media generation reason) (ok _) media = none
media_after (stop_media generation reason) (err _) media = media
media_after (transmit_control operation) answer media = media
media_after (start generation) answer media = media
media_after (resume generation) answer media = media
media_after (suspend generation reason) answer media = media
media_after (stop reason) answer media = media

-- The media generation that the calls have left a port with.
unfoldable pub media_in : Calls → ℕ → Option ℕ
media_in [] port = none
media_in ((other, call, answer) ∷ rest) port =
    let before = media_in rest port in
    if port == other then media_after call answer before else before

abbrev pub is_stop : PortCall → Bool
is_stop (stop reason) = true
is_stop call = false

-- Whether a port has been torn down.
unfoldable pub is_stopped : Calls → ℕ → Bool
is_stopped [] port = false
is_stopped ((other, call, answer) ∷ rest) port =
    let before = is_stopped rest port in (port == other && is_stop call) || before

-- What a port with this media generation may be asked: to configure media if it has none, and to
-- start, suspend, resume or stop the media generation that it has.
abbrev pub Permits : Option ℕ → PortCall → Type 0
Permits media (configure generation) = media ≡ none
Permits media (start generation) = media ≡ some generation
Permits media (resume generation) = media ≡ some generation
Permits media (suspend generation reason) = media ≡ some generation
Permits media (stop_media generation reason) = media ≡ some generation
Permits media (transmit_control operation) = Unit
Permits media (stop reason) = Unit

-- Each call is to a port that was not torn down before, and that permits it.
unfoldable pub IsDisciplined : Calls → Type 0
IsDisciplined [] = Unit
IsDisciplined ((port, call, answer) ∷ rest) =
    (is_stopped rest port ≡ false) × Permits (media_in rest port) call × IsDisciplined rest

-- The session in the slot, of those made before the next one.
abbrev pub IsCurrent : Option ActiveSession → List ℕ → ℕ → Calls → Type 0
IsCurrent none leaving next calls = Unit
IsCurrent (some s) leaving next calls =
    (s.session < next)
    × (is_stopped calls s.session ≡ false)
    × (media_in calls s.session ≡ s.media_generation)
    × (contains s.session leaving ≡ false)

pub record Inv (current : Option ActiveSession) (leaving : List ℕ) (next : ℕ) (calls : Calls)
    : Type 0 where
  pub disciplined : IsDisciplined calls
  pub installed : IsCurrent current leaving next calls
  pub leaving_made : All (λ p. p < next) leaving
  pub leaving_live : All (λ p. is_stopped calls p ≡ false) leaving
  pub unmade : (p : ℕ) → next ≤ p → (media_in calls p ≡ none) × (is_stopped calls p ≡ false)

abbrev pub WorldInv : World → Type 0
WorldInv w = Inv w.shared.current w.tearing_down w.next_session w.calls

-- What is left of a list has a property that all but the removed number get from another.
All-without {ℓ κ} :
    {P : ℕ → Type ℓ} {Q : ℕ → Type κ} (n : ℕ) (xs : List ℕ)
    → ((p : ℕ) → (n == p) ≡ false → P p → Q p)
    → All P xs
    → All Q (without n xs)
All-without n [] f h = tt
All-without n (x ∷ xs) f h = elim (Bool-cases (n == x)) [
  | inl same ↦ rw same (All-without n xs f h.1)
  | inr other ↦ rw other (f x other h.0, All-without n xs f h.1)
]

All-contains {ℓ} : (P : ℕ → Type ℓ) (n : ℕ) (xs : List ℕ) → contains n xs ≡ true → All P xs → P n
All-contains P n [] e h = absurd (ground (arith, e))
All-contains P n (x ∷ xs) e h = elim (Bool-cases (n == x)) [
  | inl same ↦ subst P (ground (arith, same)) h.0
  | inr other ↦ All-contains P n xs (ground (arith, other, e)) h.1
]

apart-contains :
    (m n : ℕ) (xs : List ℕ) → contains m xs ≡ false → contains n xs ≡ true → (m == n) ≡ false
apart-contains m n [] h k = absurd (ground (arith, k))
apart-contains m n (x ∷ xs) h k = elim (Bool-cases (n == x)) [
  | inl same ↦ ground (arith, same, h)
  | inr other ↦ apart-contains m n xs (ground (arith, h)) (ground (arith, k, other))
]

contains-without :
    (m n : ℕ) (xs : List ℕ) → contains m xs ≡ false → contains m (without n xs) ≡ false
contains-without m n [] h = refl
contains-without m n (x ∷ xs) h = ground (arith, contains-without m n xs)

contains-unmade : (n : ℕ) (xs : List ℕ) → All (λ p. p < n) xs → contains n xs ≡ false
contains-unmade n [] h = refl
contains-unmade n (x ∷ xs) h = ground (arith, h.0, contains-unmade n xs h.1)

-- Another call than the teardown of the port leaves a port as it is.
is_stopped-other :
    (rest : Calls) (port other : ℕ) (call : PortCall) (answer : Answer)
    → (port == other && is_stop call) ≡ false
    → is_stopped rest port ≡ false
    → is_stopped ((other, call, answer) ∷ rest) port ≡ false
unfolding is_stopped
is_stopped-other rest port other call answer h k = ground (arith, h, k)

media_in-other :
    (rest : Calls) (port other : ℕ) (call : PortCall) (answer : Answer)
    → (port == other) ≡ false
    → media_in ((other, call, answer) ∷ rest) port ≡ media_in rest port
unfolding media_in
media_in-other rest port other call answer h = rw h refl

media_in-same :
    (rest : Calls) (port : ℕ) (call : PortCall) (answer : Answer)
    → media_in ((port, call, answer) ∷ rest) port ≡ media_after call answer (media_in rest port)
unfolding media_in
media_in-same rest port call answer = ground arith

-- A call of the session in the slot.
pub asked-Inv :
    (s : ActiveSession) (leaving : List ℕ) (next : ℕ) (calls : Calls) (call : PortCall)
    (answer : Answer)
    → is_stop call ≡ false
    → Permits s.media_generation call
    → Inv (some s) leaving next calls
    → Inv
        (some (record s { media_generation = media_after call answer s.media_generation }))
        leaving
        next
        ((s.session, call, answer) ∷ calls)
unfolding IsDisciplined
asked-Inv s leaving next calls call answer goes_on permitted i =
    let (made, live, media, apart) = i.installed in
    let still : (p : ℕ)
        → is_stopped calls p ≡ false
        → is_stopped ((s.session, call, answer) ∷ calls) p ≡ false =
      λ p l. is_stopped-other calls p s.session call answer (ground (arith, goes_on)) l in
    record {
      disciplined = (live, rw media permitted, i.disciplined);
      installed = (
        made,
        still s.session live,
        media_in-same calls s.session call answer ∙ ap (media_after call answer) media,
        apart,
      );
      leaving_made = i.leaving_made;
      leaving_live = All-map leaving still i.leaving_live;
      unmade = λ p h. (
        media_in-other calls p s.session call answer (ground (arith, made, h)) ∙ (i.unmade p h).0,
        still p (i.unmade p h).1,
      );
    }

-- The teardown of a port that has left the slot.
pub torn_down-Inv :
    (current : Option ActiveSession) (leaving : List ℕ) (next port : ℕ) (calls : Calls)
    (reason : DeviceSessionStopReason) (answer : Answer)
    → contains port leaving ≡ true
    → Inv current leaving next calls
    → Inv current (without port leaving) next ((port, stop reason, answer) ∷ calls)
unfolding IsDisciplined
torn_down-Inv current leaving next port calls reason answer h i =
    let made : port < next = All-contains (λ p. p < next) port leaving h i.leaving_made in
    let still : (p : ℕ)
        → (p == port) ≡ false
        → is_stopped calls p ≡ false
        → is_stopped ((port, stop reason, answer) ∷ calls) p ≡ false =
      λ p other l. is_stopped-other calls p port (stop reason) answer (ground (arith, other)) l in
    record {
      disciplined = (
        All-contains (λ p. is_stopped calls p ≡ false) port leaving h i.leaving_live,
        tt,
        i.disciplined,
      );
      installed = stays current i.installed;
      leaving_made = All-without port leaving (λ p _ l. l) i.leaving_made;
      leaving_live =
          All-without port leaving (λ p other l. still p (ground (arith, other)) l) i.leaving_live;
      unmade = λ p l. (
        media_in-other calls p port (stop reason) answer (ground (arith, made, l))
            ∙ (i.unmade p l).0,
        still p (ground (arith, made, l)) (i.unmade p l).1,
      );
    }
  where
    stays :
        (current : Option ActiveSession)
        → IsCurrent current leaving next calls
        → IsCurrent current (without port leaving) next ((port, stop reason, answer) ∷ calls)
    stays none k = tt
    stays (some s) (made, live, media, apart) =
        let other : (s.session == port) ≡ false = apart-contains s.session port leaving apart h in
        (
          made,
          is_stopped-other calls s.session port (stop reason) answer (ground (arith, other)) live,
          media_in-other calls s.session port (stop reason) answer other ∙ media,
          contains-without s.session port leaving apart,
        )

pub made-Inv :
    (s : ActiveSession) (leaving : List ℕ) (next : ℕ) (calls : Calls)
    → s.session ≡ next
    → s.media_generation ≡ none
    → Inv none leaving next calls
    → Inv (some s) leaving (next + 1) calls
made-Inv s leaving next calls e m i = record {
  disciplined = i.disciplined;
  installed = (
    omega (arith, e),
    rw e (i.unmade next (omega arith)).1,
    rw (e, m) (i.unmade next (omega arith)).0,
    rw e (contains-unmade next leaving i.leaving_made),
  );
  leaving_made = All-map leaving (λ p h. omega (arith, h)) i.leaving_made;
  leaving_live = i.leaving_live;
  unmade = λ p h. i.unmade p (omega (arith, h));
}

-- A session that is rejected leaves at once.
pub rejected-Inv :
    (current : Option ActiveSession) (leaving : List ℕ) (next : ℕ) (calls : Calls)
    → Inv current leaving next calls
    → Inv current (next ∷ leaving) (next + 1) calls
rejected-Inv current leaving next calls i = record {
  disciplined = i.disciplined;
  installed = still current i.installed;
  leaving_made = (omega arith, All-map leaving (λ p h. omega (arith, h)) i.leaving_made);
  leaving_live = ((i.unmade next (omega arith)).1, i.leaving_live);
  unmade = λ p h. i.unmade p (omega (arith, h));
}
  where
    still :
        (current : Option ActiveSession)
        → IsCurrent current leaving next calls
        → IsCurrent current (next ∷ leaving) (next + 1) calls
    still none h = tt
    still (some s) (made, live, media, apart) =
        (omega (arith, made), live, media, ground (arith, made, apart))

pub taken-Inv :
    (s : ActiveSession) (leaving : List ℕ) (next : ℕ) (calls : Calls)
    → Inv (some s) leaving next calls
    → Inv none (s.session ∷ leaving) next calls
taken-Inv s leaving next calls i =
    let (made, live, media, apart) = i.installed in
    record {
      disciplined = i.disciplined;
      installed = tt;
      leaving_made = (made, i.leaving_made);
      leaving_live = (live, i.leaving_live);
      unmade = i.unmade;
    }
