-- ===== src/Camera/Parallel/Session.antt =====
-- The three threads of cpp/x264/Camera2ToolNative.cpp from the load of the library on.
use mathlib.Core.Path.{subst}
use android_study_rtmp_avcod.Common.{
  arith, ◌≤◌, ◌+◌, Merge, ℕ, ◌*◌, ◌/◌, ◌^◌, ◌<◌, ◌≡◌, refl, true, none, some, List, [], ◌∷◌, ◌++◌,
  map, length, done,
}
use android_study_rtmp_avcod.Rtmp.{Rtmp, Answers, PacketAlloc, Allocates}
use android_study_rtmp_avcod.Flv.{aac_config}
use android_study_rtmp_avcod.Session.{Clock}
use android_study_rtmp_avcod.Delivery.{deliveries}
use android_study_rtmp_avcod.VideoEncode.{Opening, outcome, open_and_ready}
use android_study_rtmp_avcod.VideoEncode.Queueing.{locals}
use android_study_rtmp_avcod.VideoEncode.Contract.{Heard, heard_of}
use android_study_rtmp_avcod.AudioEncode.{Opened}
use android_study_rtmp_avcod.Camera.{Camera, loaded}
use android_study_rtmp_avcod.Camera.Setup.{set_up, set_up-IsReady}
use android_study_rtmp_avcod.Camera.Thread.{Position, starting, testing, try_connect, run_thread}
use android_study_rtmp_avcod.Camera.Streaming.{Said, heard_on, AllMean}
use android_study_rtmp_avcod.Camera.Schedule.{heard_by, Serves}
use android_study_rtmp_avcod.Camera.Schedule.Drain.{Drained}
use android_study_rtmp_avcod.Camera.Starting.{run_thread-Serves}
use android_study_rtmp_avcod.Camera.Parallel.{Picture, Sound, System, Who, run_all}
use android_study_rtmp_avcod.Camera.Parallel.Runs.{as_feed, sound_as_feed, work, Runs, Advances}
use android_study_rtmp_avcod.Camera.Parallel.Merging.{
  camera_turns, audio_turns, spend_all, run_all-Advances, run_all_delivers,
}

-- None of Java's threads is in a call.
abbrev pub at_rest : Position → Camera → List ℕ → List ℕ → List Picture → List Sound → System
at_rest p c junk junk' fs xs = record {
  place = p;
  camera = c;
  units = [];
  arrays = locals junk junk';
  pictures = fs;
  sounds = xs;
}

-- A stream that runs, and frames and samples that mean something.
pub at_rest-Runs :
    (size uv max : ℕ) (r : Rtmp) (all : List Heard) (video audio : List Said) (p : Position)
    (c : Camera) (junk junk' : List ℕ) (fs : List Picture) (xs : List Sound)
    → Serves size uv max r all p c
    → length junk ≡ 100
    → length junk' ≡ 100
    → (frames : AllMean size uv max (map as_feed fs) video)
    → AllMean size uv max (map sound_as_feed xs) audio
    → Runs size uv max r all video audio
        (work size uv max fs video frames, length xs)
        (at_rest p c junk junk' fs xs)
unfolding heard_of
at_rest-Runs size uv max r all video audio p c junk junk' fs xs sv lj lj' frames sounds = record {
  serves = sv;
  encoded = [];
  set = none;
  now = [];
  later = video;
  has_units = refl;
  holds = (lj, lj', refl);
  fit = tt;
  says = refl;
  frames = frames;
  sounds = sounds;
  splits = refl;
  frames_left = omega arith;
  sounds_left = refl;
}

-- The library is loaded, Java has made and opened both encoders and asked for a connection, and it
-- succeeds; Java's threads have the frames `fs` and the samples `xs`.
module _ (alloc : PacketAlloc) (clock : Clock) (a : Answers) (memory : (n : ℕ) → Allocates alloc n)
    (o : Opening) (f : Opened) (w h fps bit_rate sample_rate channel_count reads : ℕ)
    (input url : List ℕ) (id : ℕ) (junk junk' : List ℕ) (fs : List Picture) (xs : List Sound)
    (video audio : List Said) (fits : w * h < 2 ^ 31) (often : fps * 2 < 2 ^ 31)
    (opens : outcome o ≡ open_and_ready) (configured : f.configuration ≡ true)
    (handle : f.handle ≡ true) (found : a.allocated ≡ true)
    (reached : (try_connect a url).1 ≡ some id) (small : length input < 2 ^ 30)
    (lj : length junk ≡ 100) (lj' : length junk' ≡ 100)
    (frames : AllMean (w * h) (w * h / 4) f.max_bytes (map as_feed fs) video)
    (sounds : AllMean (w * h) (w * h / 4) f.max_bytes (map sound_as_feed xs) audio) where
  abbrev r : Rtmp
  r = record { stream_id = id }

  session_starts :
      (c c' : Camera) × (set_up o f w h fps bit_rate sample_rate channel_count url (loaded reads)
        ≡ done c)
      × (run_thread alloc clock a (some input) 7 (starting url) c ≡ done (testing, c'))
      × Runs
          (w * h)
          (w * h / 4)
          f.max_bytes
          r
          (heard_on id ((11, aac_config input) ∷ []))
          video
          audio
          (work (w * h) (w * h / 4) f.max_bytes fs video frames, length xs)
          (at_rest testing c' junk junk' fs xs)
  unfolding deliveries run_thread
  session_starts =
      let (c, set, ready, goes_on, no_calls, same) =
        set_up-IsReady o f w h fps bit_rate sample_rate channel_count url (loaded reads) fits often
          opens configured handle refl refl in
      let (c', starts, serves, heard, items) =
        run_thread-Serves alloc clock a memory input url id (w * h) (w * h / 4) f.max_bytes 0 c
          ready goes_on found reached small in
      (
        c,
        c',
        set,
        starts,
        at_rest-Runs (w * h) (w * h / 4) f.max_bytes r _ video audio testing c' junk junk' fs xs
            (subst
              (λ l.
                Serves (w * h) (w * h / 4) f.max_bytes r
                  (heard_by l ++ heard_on id ((11, aac_config input) ∷ [])) testing c')
              no_calls serves)
            lj lj' frames sounds,
      )

  -- From the load of the library on, with Java's two threads and the thread that sends: if x264 and faac
  -- open, the frame's size and the interval of key frames do not overflow, the connection succeeds,
  -- faac's header has fewer than 2 ^ 30 bytes, memory is found and every frame and all samples have a
  -- meaning, then the calls that make and open the encoders and ask for a connection succeed, the thread
  -- connects in seven steps, and from there, however the turns of the three threads interleave, also
  -- between the units of one frame, no turn fails; what was sent, what the thread has in hand and what
  -- is queued are together, in this order, faac's header and an interleaving of a part of what the
  -- frames mean and a part of what the samples mean, each from its front and in its order; and the rest
  -- is what the units, frames and samples that are left mean, which need a turn less for each turn that
  -- their thread had.
  pub session_merges :
      (ws : List Who)
      → (c c' : Camera) × (set_up o f w h fps bit_rate sample_rate channel_count url (loaded reads)
          ≡ done c)
        × (run_thread alloc clock a (some input) 7 (starting url) c ≡ done (testing, c'))
        × Advances
            (w * h)
            (w * h / 4)
            f.max_bytes
            r
            (heard_on id ((11, aac_config input) ∷ []))
            video
            audio
            (spend_all ws (work (w * h) (w * h / 4) f.max_bytes fs video frames, length xs))
            (run_all alloc clock a (some input) ws (at_rest testing c' junk junk' fs xs))
  session_merges ws =
      let (c, c', set, starts, rs) = session_starts in
      (
        c,
        c',
        set,
        starts,
        run_all-Advances alloc clock a (some input) memory (w * h) (w * h / 4) f.max_bytes r ws _
            video audio (work (w * h) (w * h / 4) f.max_bytes fs video frames, length xs) _ rs,
      )

  -- From the load of the library to the server, with Java's two threads and the thread that sends: if
  -- x264 and faac open, the frame's size and the interval of key frames do not overflow, the connection
  -- succeeds, faac's header has fewer than 2 ^ 30 bytes, memory is found and every frame and all samples
  -- have a meaning, then the thread connects in seven steps; turns of the three threads, in any order, of
  -- which the camera thread has at least one for each frame and one for each unit that x264 makes of it,
  -- and the audio thread at least one for each call with samples, do not fail; and behind them the thread
  -- that sends, given three steps for each queued packet and three more, has sent faac's header and then
  -- an interleaving of all that the frames mean and all that the samples mean, each in its order, and
  -- nothing else, and waits at an empty queue.
  pub session_sends_all :
      (ws : List Who)
      → work (w * h) (w * h / 4) f.max_bytes fs video frames ≤ camera_turns ws
      → length xs ≤ audio_turns ws
      → (c c' : Camera) × (s : System) × (both : List Said) × (set_up o f w h fps bit_rate
            sample_rate channel_count url
            (loaded reads)
          ≡ done c)
        × (run_thread alloc clock a (some input) 7 (starting url) c ≡ done (testing, c'))
        × (run_all alloc clock a (some input) ws (at_rest testing c' junk junk' fs xs) ≡ done s)
        × Merge video audio both
        × Drained alloc clock a
            (some input)
            (w * h)
            (w * h / 4)
            f.max_bytes
            r
            (heard_on id ((11, aac_config input) ∷ both))
            (run_thread alloc clock a
              (some input)
              (3 * length s.camera.shared.queue.items + 3)
              s.place
              s.camera)
  session_sends_all ws enough enough' =
      let (c, c', set, starts, rs) = session_starts in
      let (s, both, runs, merged, drained) =
        run_all_delivers alloc clock a (some input) memory (w * h) (w * h / 4) f.max_bytes r ws _
          video audio _ _ rs enough enough' in
      (c, c', s, both, set, starts, runs, merged, drained)
