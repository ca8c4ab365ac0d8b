-- ===== src/Camera/Parallel/Runs.antt =====
-- What holds between the turns of the three threads of cpp/x264/Camera2ToolNative.cpp, and what turns
-- add to the stream.
use mathlib.Core.Path.{subst}
use android_study_rtmp_avcod.Common.{
  zero, suc, ◌+◌, length, ◌∷◌, ℕ, ◌≡◌, refl, sym, ap, ◌∙◌, Option, some, List, [], ◌++◌, append-nil,
  append_assoc, map, map-append, Run, done, ◌>>=◌, Merge, merge_none, Merge-append,
  Merge-append_left, Merge-append_right,
}
use android_study_rtmp_avcod.Rtmp.{Rtmp}
use android_study_rtmp_avcod.Flv.{Message}
use android_study_rtmp_avcod.VideoEncode.Contract.{Sps, Encoded, nals_of, AllFit, heard_of, Heard}
use android_study_rtmp_avcod.VideoEncode.Frames.{Holds}
use android_study_rtmp_avcod.Camera.Feed.{Feed, preview, samples}
use android_study_rtmp_avcod.Camera.Streaming.{
  Said, heard_on, on_video, Means, picture, sound, silence, AllMean,
}
use android_study_rtmp_avcod.Camera.Schedule.{Serves}
use android_study_rtmp_avcod.Camera.Parallel.{
  Picture, Sound, System, Who, camera_thread, audio_thread, sender,
}

abbrev pub as_feed : Picture → Feed
as_feed f = preview f.compress f.junk f.junk' f.frame

abbrev pub sound_as_feed : Sound → Feed
sound_as_feed x = samples x.compress x.pcm x.count

-- The units that x264 makes of a frame.
abbrev pub units_in : (size uv max : ℕ) (f : Feed) (said : List Said) → Means size uv max f said → ℕ
units_in size uv max f said
      (picture compress us ms y u v behind junk junk' frame heard ly lu lv frames lj lj' made fit
        contract says) =
    length us
units_in size uv max f said (sound compress pcm n b bs heard made fits small says) = 0
units_in size uv max f said (silence compress pcm n heard made says) = 0

-- The turns that the camera thread needs: one for each frame and one for each unit of it.
abbrev pub work :
    (size uv max : ℕ) (fs : List Picture) (said : List Said)
    → AllMean size uv max (map as_feed fs) said
    → ℕ
work size uv max [] said nothing = 0
work size uv max (f ∷ fs) said (now, rest, means, others, e) =
    suc (units_in size uv max (as_feed f) now means + work size uv max fs rest others)

-- The stream runs and the thread that sends is in its loop; `video` is what the units that are left
-- and the frames that come yet mean, in this order, and `audio` what the samples that come yet mean;
-- `left` are the turns that the camera thread and the audio thread need for them.
pub record Runs (size uv max : ℕ) (r : Rtmp) (all : List Heard) (video audio : List Said)
    (left : ℕ × ℕ) (s : System) : Type 0 where
  pub serves : Serves size uv max r all s.place s.camera
  pub encoded : List Encoded
  pub set : Option Sps
  pub now : List Message
  pub later : List Said
  pub has_units : s.units ≡ nals_of encoded
  pub holds : Holds s.arrays set
  pub fit : AllFit encoded
  pub says : heard_of set encoded ≡ some now
  pub frames : AllMean size uv max (map as_feed s.pictures) later
  pub sounds : AllMean size uv max (map sound_as_feed s.sounds) audio
  pub splits : video ≡ on_video now ++ later
  pub frames_left : left.0 ≡ length encoded + work size uv max s.pictures later frames
  pub sounds_left : left.1 ≡ length s.sounds

-- A run of turns that goes well: it queues or sends a part of `video` from its front, and of `audio`,
-- interleaved, and the rest, which needs `left` turns, is still to come.
pub record Advances (size uv max : ℕ) (r : Rtmp) (all : List Heard) (video audio : List Said)
    (left : ℕ × ℕ) (run : Run System) : Type 0 where
  pub after : System
  pub ends : run ≡ done after
  pub seen : List Said
  pub heard : List Said
  pub both : List Said
  pub rest_video : List Said
  pub rest_audio : List Said
  pub merged : Merge seen heard both
  pub of_video : video ≡ seen ++ rest_video
  pub of_audio : audio ≡ heard ++ rest_audio
  pub runs : Runs size uv max r (all ++ heard_on r.stream_id both) rest_video rest_audio left after

abbrev pub less : ℕ → ℕ
less zero = zero
less (suc n) = n

-- The turns that are left behind a turn.
abbrev pub spend : Who → ℕ × ℕ → ℕ × ℕ
spend camera_thread left = (less left.0, left.1)
spend audio_thread left = (left.0, less left.1)
spend sender left = left

pub heard_on-append :
    (stream : ℕ) (xs ys : List Said)
    → heard_on stream (xs ++ ys) ≡ heard_on stream xs ++ heard_on stream ys
heard_on-append stream xs ys = map-append (λ m. (m.0, stream, some m.1)) xs ys

module _ (size uv max : ℕ) (r : Rtmp) where
  -- Nothing is added.
  pub Advances-none :
      (all : List Heard) (video audio : List Said) (left : ℕ × ℕ) (s : System) (run : Run System)
      → run ≡ done s
      → Runs size uv max r all video audio left s
      → Advances size uv max r all video audio left run
  Advances-none all video audio left s run e rs = record {
    after = s;
    ends = e;
    seen = [];
    heard = [];
    both = [];
    rest_video = video;
    rest_audio = audio;
    merged = merge_none;
    of_video = refl;
    of_audio = refl;
    runs = subst (λ l. Runs size uv max r l video audio left s) (sym (append-nil all)) rs;
  }

  -- A part of `video` is added.
  pub Advances-video :
      (all : List Heard) (video audio seen rest : List Said) (left : ℕ × ℕ) (s : System)
      (run : Run System)
      → run ≡ done s
      → video ≡ seen ++ rest
      → Runs size uv max r (all ++ heard_on r.stream_id seen) rest audio left s
      → Advances size uv max r all video audio left run
  Advances-video all video audio seen rest left s run e splits rs = record {
    after = s;
    ends = e;
    seen = seen;
    heard = [];
    both = seen;
    rest_video = rest;
    rest_audio = audio;
    merged = subst (λ l. Merge l [] l) (append-nil seen) (Merge-append_left seen merge_none);
    of_video = splits;
    of_audio = refl;
    runs = rs;
  }

  -- A part of `audio` is added.
  pub Advances-audio :
      (all : List Heard) (video audio heard rest : List Said) (left : ℕ × ℕ) (s : System)
      (run : Run System)
      → run ≡ done s
      → audio ≡ heard ++ rest
      → Runs size uv max r (all ++ heard_on r.stream_id heard) video rest left s
      → Advances size uv max r all video audio left run
  Advances-audio all video audio heard rest left s run e splits rs = record {
    after = s;
    ends = e;
    seen = [];
    heard = heard;
    both = heard;
    rest_video = video;
    rest_audio = rest;
    merged = subst (λ l. Merge [] l l) (append-nil heard) (Merge-append_right heard merge_none);
    of_video = refl;
    of_audio = splits;
    runs = rs;
  }

  -- Turns behind turns.
  pub Advances-then :
      (all : List Heard) (video audio : List Said) (between left : ℕ × ℕ) (run : Run System)
      (go : System → Run System) (first : Advances size uv max r all video audio between run)
      → Advances size uv max r
          (all ++ heard_on r.stream_id first.both)
          first.rest_video
          first.rest_audio
          left
          (go first.after)
      → Advances size uv max r all video audio left (run >>= go)
  Advances-then all video audio between left run go first next = record {
    after = next.after;
    ends = ap (λ x. x >>= go) first.ends ∙ next.ends;
    seen = first.seen ++ next.seen;
    heard = first.heard ++ next.heard;
    both = first.both ++ next.both;
    rest_video = next.rest_video;
    rest_audio = next.rest_audio;
    merged = Merge-append first.merged next.merged;
    of_video =
        first.of_video
        ∙ ap (λ l. first.seen ++ l) next.of_video
        ∙ sym (append_assoc first.seen next.seen next.rest_video);
    of_audio =
        first.of_audio
        ∙ ap (λ l. first.heard ++ l) next.of_audio
        ∙ sym (append_assoc first.heard next.heard next.rest_audio);
    runs =
        subst (λ l. Runs size uv max r l next.rest_video next.rest_audio left next.after)
          (append_assoc all (heard_on r.stream_id first.both) (heard_on r.stream_id next.both)
            ∙ ap (λ l. all ++ l) (sym (heard_on-append r.stream_id first.both next.both)))
          next.runs;
  }
