-- ===== src/MediaTimeline.antt =====
-- crates/pronk-media/src/media_timeline.rs: the timing that the video and the audio of one media
-- generation share. A presentation timestamp, a duration and an instant are nanoseconds; the
-- latest instant that the platform represents is an argument of `timing`.
pub mod Order
use pronk.Common.{
  ℕ, ◌+◌, ◌-◌, Bool, true, false, Option, none, some, leb, if◌then◌else◌, min, max, is_some,
  checked_sub, checked_below, duration_max, Result, ok, err, ◌>>=◌, ◌>>◌,
}

pub data MediaStreamKind : Type 0 where
  video audio : MediaStreamKind

-- The messages of the `MediaGraphError`s.
pub data TimelineError : Type 0 where
  audio_presence_changed video_only not_advanced : TimelineError
  precedes_stream_anchor precedes_segment_anchor : TimelineError
  timestamp_overflowed reference_overflowed end_overflowed reference_end_overflowed : TimelineError

pub record StreamTimeline : Type 0 where
  pub segment_pts_origin : ℕ  -- u64
  pub segment_media_origin : ℕ
  pub next_media_timestamp : ℕ
  pub last_pts : Option ℕ  -- u64

pub record GenerationMediaTimeline : Type 0 where
  pub segment_pts_origin : ℕ  -- u64
  pub segment_reference_origin : ℕ
  pub reference_time_floor : ℕ
  pub video : StreamTimeline
  pub audio : Option StreamTimeline

pub new_stream : ℕ → StreamTimeline
new_stream pts_origin = record {
  segment_pts_origin = pts_origin;
  segment_media_origin = 0;
  next_media_timestamp = 0;
  last_pts = none;
}

pub reanchor_stream : ℕ → StreamTimeline → StreamTimeline
reanchor_stream pts_origin s = record {
  segment_pts_origin = pts_origin;
  segment_media_origin = s.next_media_timestamp;
  next_media_timestamp = s.next_media_timestamp;
  last_pts = none;
}

-- `audio.map(|audio| audio.min(video)).unwrap_or(video)`.
abbrev pub pts_origin_of : ℕ → Option ℕ → ℕ
pts_origin_of video_origin none = video_origin
pts_origin_of video_origin (some audio_origin) = min audio_origin video_origin

map_stream : (ℕ → StreamTimeline) → Option ℕ → Option StreamTimeline
map_stream f none = none
map_stream f (some n) = some (f n)

pub new : ℕ → Option ℕ → ℕ → GenerationMediaTimeline
unfolding map_stream
new video_pts_origin audio_pts_origin generation_reference_origin = record {
  segment_pts_origin = pts_origin_of video_pts_origin audio_pts_origin;
  segment_reference_origin = generation_reference_origin;
  reference_time_floor = generation_reference_origin;
  video = new_stream video_pts_origin;
  audio = map_stream new_stream audio_pts_origin;
}

pub reanchor_audio : Option StreamTimeline → Option ℕ → Option StreamTimeline
reanchor_audio (some s) (some origin) = some (reanchor_stream origin s)
reanchor_audio s _ = s

abbrev same_bool : Bool → Bool → Bool
same_bool true b = b
same_bool false true = false
same_bool false false = true

pub reanchor :
    GenerationMediaTimeline → ℕ → Option ℕ → ℕ → Result TimelineError GenerationMediaTimeline
unfolding reanchor_audio
reanchor t video_pts_origin audio_pts_origin reference_origin =
    if same_bool (is_some t.audio) (is_some audio_pts_origin)
    then ok (record {
      segment_pts_origin = pts_origin_of video_pts_origin audio_pts_origin;
      segment_reference_origin = max reference_origin t.reference_time_floor;
      reference_time_floor = t.reference_time_floor;
      video = reanchor_stream video_pts_origin t.video;
      audio = reanchor_audio t.audio audio_pts_origin;
    })
    else err audio_presence_changed

-- `ok_or_else`.
abbrev or_fail {ℓ} : {A : Type ℓ} → TimelineError → Option A → Result TimelineError A
or_fail e none = err e
or_fail e (some a) = ok a

pub stream_of : MediaStreamKind → GenerationMediaTimeline → Option StreamTimeline
stream_of video t = some t.video
stream_of audio t = t.audio

store_stream : MediaStreamKind → StreamTimeline → GenerationMediaTimeline → GenerationMediaTimeline
store_stream video s t = record t { video = s }
store_stream audio s t = record t { audio = some s }

abbrev require_advance : ℕ → Option ℕ → Result TimelineError (Unit {0})
require_advance pts none = ok tt
require_advance pts (some previous) = if leb pts previous then err not_advanced else ok tt

-- The two times of a packet and their ends, or the first check that fails.
pub record Times : Type 0 where
  pub media_timestamp : ℕ
  pub reference_time : ℕ
  pub next_media_timestamp : ℕ
  pub reference_time_end : ℕ

unfoldable pub times :
    ℕ → GenerationMediaTimeline → StreamTimeline → ℕ → ℕ → Result TimelineError Times
times latest t stream pts duration = do
  require_advance pts stream.last_pts
  media_elapsed ← or_fail precedes_stream_anchor (checked_sub pts stream.segment_pts_origin)
  segment_elapsed ← or_fail precedes_segment_anchor (checked_sub pts t.segment_pts_origin)
  media_timestamp ←
      or_fail timestamp_overflowed
        (checked_below duration_max (stream.segment_media_origin + media_elapsed))
  reference_time ←
      or_fail reference_overflowed
        (checked_below latest (t.segment_reference_origin + segment_elapsed))
  next_media_timestamp ←
      or_fail end_overflowed (checked_below duration_max (media_timestamp + duration))
  reference_time_end ←
      or_fail reference_end_overflowed (checked_below latest (reference_time + duration))
  ok (record {
    media_timestamp = media_timestamp;
    reference_time = reference_time;
    next_media_timestamp = next_media_timestamp;
    reference_time_end = reference_time_end;
  })

commit :
    MediaStreamKind → ℕ → GenerationMediaTimeline → StreamTimeline → Times → GenerationMediaTimeline
unfolding store_stream
commit kind pts t stream n =
    let stream' = record stream {
      last_pts = some pts;
      next_media_timestamp = max stream.next_media_timestamp n.next_media_timestamp;
    } in
    let t' = store_stream kind stream' t in
    record t' { reference_time_floor = max t'.reference_time_floor n.reference_time_end }

-- The new timeline with the media timestamp and the reference time. On an error the timeline is
-- untouched: every check comes before the first change.
unfoldable pub timing :
    ℕ
    → GenerationMediaTimeline
    → MediaStreamKind
    → ℕ
    → ℕ
    → Result TimelineError (GenerationMediaTimeline × ℕ × ℕ)
unfolding stream_of commit
timing latest t kind pts duration = do
  stream ← or_fail video_only (stream_of kind t)
  n ← times latest t stream pts duration
  ok (commit kind pts t stream n, n.media_timestamp, n.reference_time)
