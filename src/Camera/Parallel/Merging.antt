-- ===== src/Camera/Parallel/Merging.antt =====
-- Every schedule of the three threads of cpp/x264/Camera2ToolNative.cpp.
use mathlib.Core.Path.{subst}
use android_study_rtmp_avcod.Common.{
  zero, suc, ◌≤◌, arith, ℕ, ◌+◌, ◌*◌, ◌≡◌, refl, sym, ap, ◌∙◌, append-nil, Option, some, List, [],
  ◌∷◌, ◌++◌, map, length, done, Merge,
}
use android_study_rtmp_avcod.Rtmp.{Rtmp, Answers, PacketAlloc, Allocates}
use android_study_rtmp_avcod.Session.{Clock}
use android_study_rtmp_avcod.VideoEncode.Contract.{Encoded, heard_of, Heard}
use android_study_rtmp_avcod.Camera.Streaming.{Said, heard_on, on_video, AllMean}
use android_study_rtmp_avcod.Camera.Thread.{run_thread}
use android_study_rtmp_avcod.Camera.Schedule.Drain.{Drained, Serves-Drained}
use android_study_rtmp_avcod.Camera.Parallel.{
  Picture, Sound, System, Who, camera_thread, audio_thread, sender, run_all,
}
use android_study_rtmp_avcod.Camera.Parallel.Runs.{
  as_feed, sound_as_feed, work, less, spend, Runs, Advances, Advances-none, Advances-then,
}
use android_study_rtmp_avcod.Camera.Parallel.Turns.{step-Advances}

-- The turns of Java's threads in a schedule.
abbrev pub camera_turns : List Who → ℕ
camera_turns [] = 0
camera_turns (camera_thread ∷ ws) = suc (camera_turns ws)
camera_turns (audio_thread ∷ ws) = camera_turns ws
camera_turns (sender ∷ ws) = camera_turns ws

abbrev pub audio_turns : List Who → ℕ
audio_turns [] = 0
audio_turns (camera_thread ∷ ws) = audio_turns ws
audio_turns (audio_thread ∷ ws) = suc (audio_turns ws)
audio_turns (sender ∷ ws) = audio_turns ws

abbrev pub spend_all : List Who → ℕ × ℕ → ℕ × ℕ
spend_all [] left = left
spend_all (w ∷ ws) left = spend_all ws (spend w left)

less_le : (m n : ℕ) → m ≤ suc n → less m ≤ n
less_le zero n h = omega arith
less_le (suc m) n h = omega arith

-- Enough turns leave none to be taken.
spend_all-zero :
    (ws : List Who) (left : ℕ × ℕ)
    → left.0 ≤ camera_turns ws
    → left.1 ≤ audio_turns ws
    → ((spend_all ws left).0 ≡ 0) × ((spend_all ws left).1 ≡ 0)
spend_all-zero [] left h h' = (omega arith, omega arith)
spend_all-zero (camera_thread ∷ ws) left h h' =
    spend_all-zero ws (less left.0, left.1) (less_le left.0 _ h) h'
spend_all-zero (audio_thread ∷ ws) left h h' =
    spend_all-zero ws (left.0, less left.1) h (less_le left.1 _ h')
spend_all-zero (sender ∷ ws) left h h' = spend_all-zero ws left h h'

module _ (alloc : PacketAlloc) (clock : Clock) (a : Answers) (header : Option (List ℕ))
    (memory : (n : ℕ) → Allocates alloc n) (size uv max : ℕ) (r : Rtmp) where
  -- However the turns interleave, none fails, and what is sent or queued is an interleaving.
  pub run_all-Advances :
      (ws : List Who) (all : List Heard) (video audio : List Said) (left : ℕ × ℕ) (s : System)
      → Runs size uv max r all video audio left s
      → Advances size uv max r all video audio
          (spend_all ws left)
          (run_all alloc clock a header ws s)
  run_all-Advances [] all video audio left s rs =
      Advances-none size uv max r all video audio left s _ refl rs
  run_all-Advances (w ∷ ws) all video audio left s rs =
      let first =
        step-Advances alloc clock memory size uv max r a header w all video audio left s rs in
      Advances-then size uv max r all video audio (spend w left) (spend_all ws (spend w left)) _
        (run_all alloc clock a header ws) first
        (run_all-Advances ws _ _ _ (spend w left) first.after first.runs)

  -- Nothing is still to come where no turn is left.
  at_end :
      (all : List Heard) (video audio : List Said) (left : ℕ × ℕ) (s : System)
      → left.0 ≡ 0
      → left.1 ≡ 0
      → Runs size uv max r all video audio left s
      → (video ≡ []) × (audio ≡ [])
  unfolding heard_of
  at_end all video audio left s no_frames no_sounds rs = (
    rs.splits
        ∙ ap (λ l. on_video l ++ rs.later)
            (by_units rs.encoded (sym no_frames ∙ rs.frames_left) rs.says)
        ∙ by_frames s.pictures rs.later rs.frames (sym no_frames ∙ rs.frames_left),
    by_sounds s.sounds (sym no_sounds ∙ rs.sounds_left) rs.sounds,
  )
    where
      by_units :
          (us : List Encoded)
          → 0 ≡ length us + work size uv max s.pictures rs.later rs.frames
          → heard_of rs.set us ≡ some rs.now
          → rs.now ≡ []
      by_units [] e says = cc
      by_units (u ∷ us) e says = absurd (omega arith)

      by_frames :
          (fs : List Picture) (later : List Said)
          (frames : AllMean size uv max (map as_feed fs) later)
          → 0 ≡ length rs.encoded + work size uv max fs later frames
          → later ≡ []
      by_frames [] later means e = means
      by_frames (f ∷ fs) later means e = absurd (omega arith)

      by_sounds :
          (xs : List Sound)
          → 0 ≡ length xs
          → AllMean size uv max (map sound_as_feed xs) audio
          → audio ≡ []
      by_sounds [] e means = means
      by_sounds (x ∷ xs) e means = absurd (omega arith)

  -- Turns of which enough are the camera thread's and the audio thread's, and then the thread that sends.
  pub run_all_delivers :
      (ws : List Who) (all : List Heard) (video audio : List Said) (left : ℕ × ℕ) (s : System)
      → Runs size uv max r all video audio left s
      → left.0 ≤ camera_turns ws
      → left.1 ≤ audio_turns ws
      → (s' : System) × (both : List Said) × (run_all alloc clock a header ws s ≡ done s')
        × Merge video audio both
        × Drained alloc clock a header size uv max r (all ++ heard_on r.stream_id both) (
            run_thread alloc clock a header
              (3 * length s'.camera.shared.queue.items + 3)
              s'.place
              s'.camera)
  run_all_delivers ws all video audio left s rs enough enough' =
      let more = run_all-Advances ws all video audio left s rs in
      let (no_frames, no_sounds) = spend_all-zero ws left enough enough' in
      let (no_video, no_audio) =
        at_end (all ++ heard_on r.stream_id more.both) more.rest_video more.rest_audio
          (spend_all ws left) more.after no_frames no_sounds more.runs in
      (
        more.after,
        more.both,
        more.ends,
        subst (λ l. Merge l audio more.both)
            (sym (whole more.seen more.rest_video video more.of_video no_video))
            (subst (λ l. Merge more.seen l more.both)
              (sym (whole more.heard more.rest_audio audio more.of_audio no_audio)) more.merged),
        Serves-Drained alloc clock a header size uv max r
            (3 * length more.after.camera.shared.queue.items + 3)
            (all ++ heard_on r.stream_id more.both) more.after.place more.after.camera
            more.runs.serves (omega arith),
      )
    where
      whole : (part rest l : List Said) → l ≡ part ++ rest → rest ≡ [] → l ≡ part
      whole part rest l e none_left = e ∙ ap (λ t. part ++ t) none_left ∙ append-nil part
