-- ===== src/Examples/Streams.antt =====
-- Runs of crates/pronk-media/src/media_timeline.rs.
use pronk.Common.{ℕ, List, [], ◌∷◌, ◌≡◌, refl, none, some, ok}
use pronk.MediaTimeline.{video, audio, GenerationMediaTimeline, StreamTimeline, new, times, timing}
use pronk.MediaTimeline.Order.{Operation, packet, anchor, timed_all, Rising, timed_all-Rising}

-- Video, audio, an anchor of a new segment, and a video packet again; the last anchor is refused.
abbrev history : List Operation
history =
    packet video 100 10
    ∷ packet audio 90 20
    ∷ anchor 500 (some 495) 130
    ∷ packet video 510 10
    ∷ anchor 600 none 200
    ∷ []

timed_all-Rising_example : Rising 0 1000 (timed_all video 100000 (new 100 (some 90) 1000) history)
timed_all-Rising_example = timed_all-Rising video 100000 100 (some 90) 1000 history

abbrev stream : ℕ → StreamTimeline
stream origin = record {
  segment_pts_origin = origin;
  segment_media_origin = 0;
  next_media_timestamp = 0;
  last_pts = none;
}

abbrev begun : GenerationMediaTimeline
begun = record {
  segment_pts_origin = 90;
  segment_reference_origin = 1000;
  reference_time_floor = 1000;
  video = stream 100;
  audio = some (stream 90);
}

abbrev shown : ℕ → ℕ → StreamTimeline → StreamTimeline
shown pts next s = record s { next_media_timestamp = next; last_pts = some pts }

abbrev after_video : GenerationMediaTimeline
after_video = record begun { video = shown 110 20 (stream 100); reference_time_floor = 1030 }

abbrev after_audio : GenerationMediaTimeline
after_audio = record begun { audio = some (shown 115 30 (stream 90)); reference_time_floor = 1030 }

abbrev after_second : GenerationMediaTimeline
after_second = record begun { video = shown 120 30 (stream 100); reference_time_floor = 1040 }

times_video : timing 100000 begun video 110 10 ≡ ok (after_video, 10, 1020)
unfolding timing times
times_video = refl

times_audio : timing 100000 begun audio 115 5 ≡ ok (after_audio, 25, 1025)
unfolding timing times
times_audio = refl

times_second : timing 100000 after_video video 120 10 ≡ ok (after_second, 20, 1030)
unfolding timing times
times_second = refl
