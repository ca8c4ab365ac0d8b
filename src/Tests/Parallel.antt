-- ===== src/Tests/Parallel.antt =====
-- The theorems on the three threads at concrete inputs.
use android_study_rtmp_avcod.Common.{
  none, ℕ, ◌*◌, ◌+◌, ◌≡◌, refl, some, List, [], ◌∷◌, ◌++◌, arith, length, done, map, Merge,
}
use android_study_rtmp_avcod.Flv.{aac_frame, aac_config}
use android_study_rtmp_avcod.AudioEncode.{calloc}
use android_study_rtmp_avcod.VideoEncode.Contract.{heard_of}
use android_study_rtmp_avcod.Camera.{Camera, loaded}
use android_study_rtmp_avcod.Camera.Setup.{set_up}
use android_study_rtmp_avcod.Camera.Thread.{starting, testing, run_thread}
use android_study_rtmp_avcod.Camera.Streaming.{Said, heard_on, AllMean, picture, sound}
use android_study_rtmp_avcod.Camera.Schedule.Drain.{Drained}
use android_study_rtmp_avcod.Camera.Parallel.{
  Picture, Sound, System, Who, camera_thread, audio_thread, sender, run_all,
}
use android_study_rtmp_avcod.Camera.Parallel.Runs.{as_feed, sound_as_feed, Advances}
use android_study_rtmp_avcod.Camera.Parallel.Merging.{spend_all}
use android_study_rtmp_avcod.Camera.Parallel.Runs.{Runs}
use android_study_rtmp_avcod.Camera.Parallel.Halting.{frees_of}
use android_study_rtmp_avcod.Camera.Parallel.Silence.{native_stop_silences}
use android_study_rtmp_avcod.VideoEncode.Contract.{nals_of}
use android_study_rtmp_avcod.VideoEncode.Queueing.{locals}
use android_study_rtmp_avcod.Camera.{native_stop}
use android_study_rtmp_avcod.Tests.Pipeline.{live_camera-Serves}
use android_study_rtmp_avcod.Camera.Parallel.Session.{at_rest, session_merges, session_sends_all}
use android_study_rtmp_avcod.Tests.{zeros, zeros-Allocates, ticks, rtmp, keep}
use android_study_rtmp_avcod.Tests.Encoder.{units, units_fit, makes}
use android_study_rtmp_avcod.Tests.Thread.{good}
use android_study_rtmp_avcod.Tests.Pipeline.{
  x264_opens, faac_opens, units_said, reached, live_camera,
}

abbrev view : Picture
view = record {
  compress = makes;
  junk = calloc 100;
  junk' = calloc 100;
  frame = 1 ∷ 2 ∷ 3 ∷ 4 ∷ 5 ∷ 6 ∷ [];
}

abbrev note : Sound
note = record { compress = keep; pcm = 3 ∷ 4 ∷ []; count = 1 }

abbrev note_said : List Said
note_said = (11, aac_frame (3 ∷ 4 ∷ [])) ∷ []

-- Five turns of the camera thread and one of the audio thread: the samples come between the units of the frame, which are sent meanwhile.
abbrev turns : List Who
turns =
    camera_thread ∷ camera_thread ∷ sender ∷ camera_thread ∷ audio_thread ∷ sender ∷ camera_thread
    ∷ sender ∷ camera_thread ∷ []

view-AllMean : AllMean 4 1 4 (map as_feed (view ∷ [])) units_said
unfolding heard_of
view-AllMean = (
  units_said,
  [],
  picture makes units _ (1 ∷ 2 ∷ 3 ∷ 4 ∷ []) (5 ∷ []) (6 ∷ []) [] (calloc 100) (calloc 100)
      (1 ∷ 2 ∷ 3 ∷ 4 ∷ 5 ∷ 6 ∷ []) units_said refl refl refl refl refl refl refl units_fit refl
      refl,
  refl,
  refl,
)

note-AllMean : AllMean 4 1 4 (map sound_as_feed (note ∷ [])) note_said
note-AllMean = (
  note_said,
  [],
  sound keep (3 ∷ 4 ∷ []) 1 3 (4 ∷ []) note_said refl (omega arith) (omega arith) refl,
  refl,
  refl,
)

session_merges_example :
    (c c' : Camera) × (set_up x264_opens faac_opens 2 2 30 4096 44100 2 (9 ∷ []) (loaded 0)
      ≡ done c)
    × (run_thread zeros ticks good (some (18 ∷ 16 ∷ [])) 7 (starting (9 ∷ [])) c
        ≡ done (testing, c'))
    × Advances 4 1 4 rtmp
        (heard_on 1 ((11, aac_config (18 ∷ 16 ∷ [])) ∷ []))
        units_said
        note_said
        (spend_all turns (5, 1))
        (run_all zeros ticks good
          (some (18 ∷ 16 ∷ []))
          turns
          (at_rest testing c' (calloc 100) (calloc 100) (view ∷ []) (note ∷ [])))
unfolding view-AllMean
session_merges_example =
    session_merges zeros ticks good zeros-Allocates x264_opens faac_opens 2 2 30 4096 44100 2 0
      (18 ∷ 16 ∷ []) (9 ∷ []) 1 (calloc 100) (calloc 100) (view ∷ []) (note ∷ []) units_said
      note_said (omega arith) (omega arith) refl refl refl refl reached (omega arith) refl refl
      view-AllMean note-AllMean turns

session_sends_all_example :
    (c c' : Camera) × (s : System) × (both : List Said) × (set_up x264_opens faac_opens 2 2 30 4096
        44100 2
        (9 ∷ [])
        (loaded 0)
      ≡ done c)
    × (run_thread zeros ticks good (some (18 ∷ 16 ∷ [])) 7 (starting (9 ∷ [])) c
        ≡ done (testing, c'))
    × (run_all zeros ticks good
          (some (18 ∷ 16 ∷ []))
          turns
          (at_rest testing c' (calloc 100) (calloc 100) (view ∷ []) (note ∷ []))
        ≡ done s)
    × Merge units_said note_said both
    × Drained zeros ticks good
        (some (18 ∷ 16 ∷ []))
        4
        1
        4
        rtmp
        (heard_on 1 ((11, aac_config (18 ∷ 16 ∷ [])) ∷ both))
        (run_thread zeros ticks good
          (some (18 ∷ 16 ∷ []))
          (3 * length s.camera.shared.queue.items + 3)
          s.place
          s.camera)
unfolding view-AllMean
session_sends_all_example =
    session_sends_all zeros ticks good zeros-Allocates x264_opens faac_opens 2 2 30 4096 44100 2 0
      (18 ∷ 16 ∷ []) (9 ∷ []) 1 (calloc 100) (calloc 100) (view ∷ []) (note ∷ []) units_said
      note_said (omega arith) (omega arith) refl refl refl refl reached (omega arith) refl refl
      view-AllMean note-AllMean turns (omega arith) (omega arith)

abbrev live_system : System
live_system = at_rest testing live_camera (calloc 100) (calloc 100) (view ∷ []) (note ∷ [])

-- The frame has come, and none of its units is queued.
abbrev midway : System
midway = record live_system {
  units = nals_of units;
  arrays = locals (calloc 100) (calloc 100);
  pictures = [];
}

midway-Runs : Runs 4 1 4 rtmp [] units_said note_said (4, 1) midway
unfolding heard_of
midway-Runs = record {
  serves = live_camera-Serves;
  encoded = units;
  set = none;
  now = _;
  later = [];
  has_units = refl;
  holds = (refl, refl, refl);
  fit = units_fit;
  says = refl;
  frames = refl;
  sounds = note-AllMean;
  splits = refl;
  frames_left = omega arith;
  sounds_left = refl;
}

native_stop_silences_example :
    (s' : System) × (n : ℕ) × (run_all zeros ticks good none turns
        (record midway { camera = native_stop live_camera })
      ≡ done s')
    × (s'.camera.calls ≡ [] ++ frees_of n)
    × (s'.camera.rtmp ≡ some rtmp)
native_stop_silences_example =
    native_stop_silences zeros ticks good none zeros-Allocates 4 1 4 rtmp [] units_said note_said
      (4, 1) midway turns midway-Runs
