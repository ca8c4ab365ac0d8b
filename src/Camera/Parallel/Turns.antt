-- ===== src/Camera/Parallel/Turns.antt =====
-- One turn of each of the three threads of cpp/x264/Camera2ToolNative.cpp, while the stream runs.
use mathlib.Core.Path.{subst}
use android_study_rtmp_avcod.Common.{
  length, ℕ, ◌≡◌, refl, sym, ap, ◌∙◌, Option, List, [], ◌∷◌, map, done, ◌>>=◌,
}
use android_study_rtmp_avcod.Rtmp.{Rtmp, Answers, PacketAlloc, Allocates}
use android_study_rtmp_avcod.Session.{Clock}
use android_study_rtmp_avcod.VideoEncode.Contract.{Heard}
use android_study_rtmp_avcod.Camera.Streaming.{Said, AllMean}
use android_study_rtmp_avcod.Camera.Streaming.Adding.{feed-Adds}
use android_study_rtmp_avcod.Camera.Schedule.Order.{Serves-more}
use android_study_rtmp_avcod.Camera.Schedule.Turns.{turned}
use android_study_rtmp_avcod.Camera.Parallel.{
  Sound, System, Who, camera_thread, audio_thread, sender, audio_turn, step,
}
use android_study_rtmp_avcod.Camera.Parallel.Runs.{
  sound_as_feed, less, spend, Runs, Advances, Advances-none, Advances-audio,
}
use android_study_rtmp_avcod.Camera.Parallel.Frames.{camera_turn-Advances}

module _ (alloc : PacketAlloc) (clock : Clock) (memory : (n : ℕ) → Allocates alloc n)
    (size uv max : ℕ) (r : Rtmp) where
  sender-Advances :
      (a : Answers) (header : Option (List ℕ)) (all : List Heard) (video audio : List Said)
      (left : ℕ × ℕ) (s : System)
      → Runs size uv max r all video audio left s
      → Advances size uv max r all video audio left (step alloc clock a header sender s)
  sender-Advances a header all video audio left s rs =
      let (p, c, runs, there) =
        turned alloc clock a header size uv max r all s.place s.camera rs.serves in
      Advances-none size uv max r all video audio left (record s { place = p; camera = c }) _
        (ap (λ x. x >>= λ k. done (record s { place = k.0; camera = k.1 })) runs)
        (record {
          serves = there;
          encoded = rs.encoded;
          set = rs.set;
          now = rs.now;
          later = rs.later;
          has_units = rs.has_units;
          holds = rs.holds;
          fit = rs.fit;
          says = rs.says;
          frames = rs.frames;
          sounds = rs.sounds;
          splits = rs.splits;
          frames_left = rs.frames_left;
          sounds_left = rs.sounds_left;
        })

  audio_turn-Advances :
      (xs : List Sound) (all : List Heard) (video audio : List Said) (left : ℕ × ℕ) (s : System)
      → AllMean size uv max (map sound_as_feed xs) audio
      → left.1 ≡ length xs
      → Runs size uv max r all video audio left s
      → Advances size uv max r all video audio (left.0, less left.1) (audio_turn alloc clock xs s)
  audio_turn-Advances [] all video audio left s means none_left rs =
      Advances-none size uv max r all video audio (left.0, less left.1) s _ refl
        (subst (λ k. Runs size uv max r all video audio (left.0, k) s)
          (none_left ∙ sym (ap less none_left)) rs)
  audio_turn-Advances (x ∷ xs) all video audio left s (now, rest, means, others, splits) some_left
        rs =
      let (c, runs, there) = Serves-more size uv max r all now s.place s.camera _ rs.serves (
        feed-Adds alloc clock memory size uv max r s.camera (sound_as_feed x) now rs.serves.streams
          means) in
      Advances-audio size uv max r all video audio now rest (left.0, less left.1)
        (record s { camera = c; sounds = xs }) _
        (ap (λ x. x >>= λ c. done (record s { camera = c; sounds = xs })) runs) splits
        (record {
          serves = there;
          encoded = rs.encoded;
          set = rs.set;
          now = rs.now;
          later = rs.later;
          has_units = rs.has_units;
          holds = rs.holds;
          fit = rs.fit;
          says = rs.says;
          frames = rs.frames;
          sounds = others;
          splits = rs.splits;
          frames_left = rs.frames_left;
          sounds_left = ap less some_left;
        })

  -- A turn of any thread.
  pub step-Advances :
      (a : Answers) (header : Option (List ℕ)) (w : Who) (all : List Heard)
      (video audio : List Said) (left : ℕ × ℕ) (s : System)
      → Runs size uv max r all video audio left s
      → Advances size uv max r all video audio (spend w left) (step alloc clock a header w s)
  step-Advances a header camera_thread all video audio left s rs =
      camera_turn-Advances alloc clock memory size uv max r s.units rs.encoded s.pictures all video
        audio left s rs rs.has_units rs.fit rs.says rs.frames rs.frames_left rs.frames_left
  step-Advances a header audio_thread all video audio left s rs =
      audio_turn-Advances s.sounds all video audio left s rs.sounds rs.sounds_left rs
  step-Advances a header sender all video audio left s rs =
      sender-Advances a header all video audio left s rs
