-- ===== src/MediaTimeline/Order.antt =====
-- Time never runs backwards in crates/pronk-media/src/media_timeline.rs: histories of packets and
-- anchors of one media generation.
use pronk.Common.{
  ℕ, ◌+◌, ◌-◌, ◌≤◌, ◌<◌, ◌≡◌, ◌≢◌, ◌⊎◌, Option, none, some, List, [], ◌∷◌, arith, Result, ok, err,
  Result-cases, inl, inr, Option-cases, refl, Bool, true, false, ◌++◌, if◌then◌else◌,
}
use pronk.MediaTimeline.{
  MediaStreamKind, video, audio, TimelineError, StreamTimeline, GenerationMediaTimeline, Times, new,
  reanchor, times, timing, reanchor_stream, new_stream,
}

pub data Operation : Type 0 where
  packet : MediaStreamKind → ℕ → ℕ → Operation
  anchor : ℕ → Option ℕ → ℕ → Operation

-- What a stream's state says of the last packet that it timed, at media time `l` and reference
-- time `r`.
abbrev Since : GenerationMediaTimeline → StreamTimeline → Option ℕ → ℕ → ℕ → Type 0
Since t s none l r = (l ≤ s.segment_media_origin) × (r ≤ t.segment_reference_origin)
Since t s (some pts) l r =
    (s.segment_pts_origin ≤ pts)
    × (t.segment_pts_origin ≤ pts)
    × (l ≡ s.segment_media_origin + (pts - s.segment_pts_origin))
    × (r ≡ t.segment_reference_origin + (pts - t.segment_pts_origin))

record Follows (t : GenerationMediaTimeline) (s : StreamTimeline) (l r : ℕ) : Type 0 where
  since : Since t s s.last_pts l r
  before_next : l ≤ s.next_media_timestamp
  before_floor : r ≤ t.reference_time_floor

times-Follows :
    (latest : ℕ) (t : GenerationMediaTimeline) (s : StreamTimeline) (pts duration l r : ℕ)
    (n : Times)
    → Follows t s l r
    → times latest t s pts duration ≡ ok n
    → (l ≤ n.media_timestamp)
      × (r ≤ n.reference_time)
      × (n.media_timestamp ≡ s.segment_media_origin + (pts - s.segment_pts_origin))
      × (n.reference_time ≡ t.segment_reference_origin + (pts - t.segment_pts_origin))
      × (s.segment_pts_origin ≤ pts)
      × (t.segment_pts_origin ≤ pts)
      × (n.next_media_timestamp ≡ n.media_timestamp + duration)
      × (n.reference_time_end ≡ n.reference_time + duration)
unfolding times
times-Follows latest t s pts duration l r n h e = ground arith

times-cases :
    (latest : ℕ) (t : GenerationMediaTimeline) (s : StreamTimeline) (pts duration : ℕ)
    → ((n : Times) × (times latest t s pts duration ≡ ok n))
      ⊎ ((e : TimelineError) × (times latest t s pts duration ≡ err e))
times-cases latest t s pts duration = Result-cases (times latest t s pts duration)

-- The stream of a kind follows its last packet, where the generation has the stream.
abbrev Kept : MediaStreamKind → GenerationMediaTimeline → ℕ → ℕ → Type 0
Kept video t l r = Follows t t.video l r
Kept audio t l r = on t.audio
  where
    on : Option StreamTimeline → Type 0
    on none = Unit
    on (some s) = Follows t s l r

-- A packet of the stream is timed no earlier than the one before it, and becomes the last.
timing-Kept :
    (kind : MediaStreamKind) (latest : ℕ) (t t' : GenerationMediaTimeline)
    (pts duration l r l' r' : ℕ)
    → Kept kind t l r
    → timing latest t kind pts duration ≡ ok (t', l', r')
    → (l ≤ l') × (r ≤ r') × Kept kind t' l' r'
unfolding timing
timing-Kept video latest t t' pts duration l r l' r' h e =
    elim (Result-cases (times latest t t.video pts duration)) [
      | inl (n, g) ↦ ground (arith, times-Follows latest t t.video pts duration l r n h g)
      | inr (x, g) ↦ absurd (ground arith)
    ]
timing-Kept audio latest t t' pts duration l r l' r' h e = elim (Option-cases t.audio) [
  | inl absent ↦ absurd (ground arith)
  | inr (s, present) ↦
      let held : Follows t s l r = ground arith in
      elim (Result-cases (times latest t s pts duration)) [
        | inl (n, g) ↦ ground (arith, times-Follows latest t s pts duration l r n held g)
        | inr (x, g) ↦ absurd (ground arith)
      ]
]

-- A packet of the other stream leaves this one where it was.
timing-Kept_other :
    (kind other : MediaStreamKind) (latest : ℕ) (t t' : GenerationMediaTimeline)
    (pts duration l r l' r' : ℕ)
    → kind ≢ other
    → Kept kind t l r
    → timing latest t other pts duration ≡ ok (t', l', r')
    → Kept kind t' l r
unfolding timing
timing-Kept_other video video latest t t' pts duration l r l' r' ne h e = absurd (ne refl)
timing-Kept_other audio audio latest t t' pts duration l r l' r' ne h e = absurd (ne refl)
timing-Kept_other audio video latest t t' pts duration l r l' r' ne h e =
    elim (Result-cases (times latest t t.video pts duration)) [
      | inl (n, g) ↦ ground arith
      | inr (x, g) ↦ absurd (ground arith)
    ]
timing-Kept_other video audio latest t t' pts duration l r l' r' ne h e =
    elim (Option-cases t.audio) [
      | inl absent ↦ absurd (ground arith)
      | inr (s, present) ↦ elim (Result-cases (times latest t s pts duration)) [
        | inl (n, g) ↦ ground arith
        | inr (x, g) ↦ absurd (ground arith)
      ]
    ]

reanchor-Kept :
    (kind : MediaStreamKind) (t t' : GenerationMediaTimeline) (v : ℕ) (a : Option ℕ) (ref l r : ℕ)
    → Kept kind t l r
    → reanchor t v a ref ≡ ok t'
    → Kept kind t' l r
unfolding reanchor reanchor_stream
reanchor-Kept video t t' v a ref l r h e = ground arith
reanchor-Kept audio t t' v a ref l r h e = ground arith

-- One operation: an error leaves the timeline, and a packet of `kind` that is timed is reported.
abbrev same_kind : MediaStreamKind → MediaStreamKind → Bool
same_kind video video = true
same_kind audio audio = true
same_kind _ _ = false

timed :
    MediaStreamKind
    → MediaStreamKind
    → GenerationMediaTimeline
    → Result TimelineError (GenerationMediaTimeline × ℕ × ℕ)
    → GenerationMediaTimeline × List (ℕ × ℕ)
timed kind of_kind t (err e) = (t, [])
timed kind of_kind t (ok (t', l, r)) = (t', if same_kind kind of_kind then (l, r) ∷ [] else [])

anchored :
    GenerationMediaTimeline → Result TimelineError GenerationMediaTimeline → GenerationMediaTimeline
anchored t (err e) = t
anchored t (ok t') = t'

step :
    MediaStreamKind
    → ℕ
    → GenerationMediaTimeline
    → Operation
    → GenerationMediaTimeline × List (ℕ × ℕ)
step kind latest t (packet of_kind pts duration) =
    timed kind of_kind t (timing latest t of_kind pts duration)
step kind latest t (anchor v a ref) = (anchored t (reanchor t v a ref), [])

-- The times that a history gives to the packets of one kind, in order.
pub timed_all : MediaStreamKind → ℕ → GenerationMediaTimeline → List Operation → List (ℕ × ℕ)
timed_all kind latest t [] = []
timed_all kind latest t (o ∷ os) =
    let (t', now) = step kind latest t o in now ++ timed_all kind latest t' os

-- Neither time ever falls, from `l` and `r` on.
abbrev pub Rising : ℕ → ℕ → List (ℕ × ℕ) → Type 0
Rising l r [] = Unit
Rising l r ((l', r') ∷ rest) = (l ≤ l') × (r ≤ r') × Rising l' r' rest

Rising-from :
    (kind : MediaStreamKind) (latest : ℕ) (t : GenerationMediaTimeline) (l r : ℕ)
    (os : List Operation)
    → Kept kind t l r
    → Rising l r (timed_all kind latest t os)
unfolding timed_all step anchored timed
Rising-from kind latest t l r [] h = tt
Rising-from kind latest t l r (anchor v a ref ∷ os) h = elim (Result-cases (reanchor t v a ref)) [
  | inl (t', e) ↦
      rw (e, anchored) (Rising-from kind latest t' l r os (reanchor-Kept kind t t' v a ref l r h e))
  | inr (x, e) ↦ rw (e, anchored) (Rising-from kind latest t l r os h)
]
Rising-from video latest t l r (packet video pts duration ∷ os) h =
    elim (Result-cases (timing latest t video pts duration)) [
      | inl ((t', l', r'), e) ↦
          rw (e, timed)
            (let kept = timing-Kept video latest t t' pts duration l r l' r' h e in
              (kept.0, kept.1, Rising-from video latest t' l' r' os kept.2))
      | inr (x, e) ↦ rw (e, timed) (Rising-from video latest t l r os h)
    ]
Rising-from video latest t l r (packet audio pts duration ∷ os) h =
    elim (Result-cases (timing latest t audio pts duration)) [
      | inl ((t', l', r'), e) ↦
          rw (e, timed)
            (Rising-from video latest t' l r os
              (timing-Kept_other video audio latest t t' pts duration l r l' r' (λ d. cc) h e))
      | inr (x, e) ↦ rw (e, timed) (Rising-from video latest t l r os h)
    ]
Rising-from audio latest t l r (packet video pts duration ∷ os) h =
    elim (Result-cases (timing latest t video pts duration)) [
      | inl ((t', l', r'), e) ↦
          rw (e, timed)
            (Rising-from audio latest t' l r os
              (timing-Kept_other audio video latest t t' pts duration l r l' r' (λ d. cc) h e))
      | inr (x, e) ↦ rw (e, timed) (Rising-from audio latest t l r os h)
    ]
Rising-from audio latest t l r (packet audio pts duration ∷ os) h =
    elim (Result-cases (timing latest t audio pts duration)) [
      | inl ((t', l', r'), e) ↦
          rw (e, timed)
            (let kept = timing-Kept audio latest t t' pts duration l r l' r' h e in
              (kept.0, kept.1, Rising-from audio latest t' l' r' os kept.2))
      | inr (x, e) ↦ rw (e, timed) (Rising-from audio latest t l r os h)
    ]

new-Kept :
    (kind : MediaStreamKind) (v : ℕ) (a : Option ℕ) (origin : ℕ)
    → Kept kind (new v a origin) 0 origin
unfolding new new_stream
new-Kept video v a origin = ground arith
new-Kept audio v none origin = tt
new-Kept audio v (some n) origin = ground arith

-- Over any history of packets and anchors of a generation, failed ones included, the media times
-- of each stream never fall, its reference times never fall, and no reference time is before the
-- origin of the generation.
pub timed_all-Rising :
    (kind : MediaStreamKind) (latest v : ℕ) (a : Option ℕ) (origin : ℕ) (os : List Operation)
    → Rising 0 origin (timed_all kind latest (new v a origin) os)
timed_all-Rising kind latest v a origin os =
    Rising-from kind latest (new v a origin) 0 origin os (new-Kept kind v a origin)

timing-reference :
    (kind : MediaStreamKind) (latest : ℕ) (t t' : GenerationMediaTimeline) (pts duration l r : ℕ)
    → timing latest t kind pts duration ≡ ok (t', l, r)
    → (t.segment_pts_origin ≤ pts) × (r ≡ t.segment_reference_origin + (pts - t.segment_pts_origin))
unfolding timing times
timing-reference video latest t t' pts duration l r e = ground arith
timing-reference audio latest t t' pts duration l r e = ground arith

-- Within one segment the two streams stay in step: the reference times of a video and an audio
-- packet, both accepted, differ by exactly as much as their presentation timestamps.
timing_in_step :
    (latest : ℕ) (t t₁ t₂ : GenerationMediaTimeline) (p₁ p₂ d₁ d₂ l₁ r₁ l₂ r₂ : ℕ)
    → timing latest t video p₁ d₁ ≡ ok (t₁, l₁, r₁)
    → timing latest t audio p₂ d₂ ≡ ok (t₂, l₂, r₂)
    → r₁ + p₂ ≡ r₂ + p₁
timing_in_step latest t t₁ t₂ p₁ p₂ d₁ d₂ l₁ r₁ l₂ r₂ p q =
    let shown = timing-reference video latest t t₁ p₁ d₁ l₁ r₁ p in
    let heard = timing-reference audio latest t t₂ p₂ d₂ l₂ r₂ q in omega (arith, shown, heard)

-- Two packets of the video stream in one segment: the second is accepted only with a later
-- presentation timestamp, and its media time is later by the same amount.
timing_strict :
    (latest : ℕ) (t t₁ t₂ : GenerationMediaTimeline) (p₁ p₂ d₁ d₂ l₁ r₁ l₂ r₂ : ℕ)
    → timing latest t video p₁ d₁ ≡ ok (t₁, l₁, r₁)
    → timing latest t₁ video p₂ d₂ ≡ ok (t₂, l₂, r₂)
    → (p₁ < p₂) × (l₂ ≡ l₁ + (p₂ - p₁))
unfolding timing times
timing_strict latest t t₁ t₂ p₁ p₂ d₁ d₂ l₁ r₁ l₂ r₂ p q = ground arith
