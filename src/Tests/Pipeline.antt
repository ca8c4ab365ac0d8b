-- ===== src/Tests/Pipeline.antt =====
-- The theorems on the whole camera stream at concrete inputs.
use android_study_rtmp_avcod.Common.{
  ◌*◌, ◌+◌, ◌≡◌, refl, true, false, none, some, List, [], ◌∷◌, ◌++◌, arith, length, done, to, ◌>>=◌,
}
use android_study_rtmp_avcod.Flv.{avc_unit, avc_config, aac_frame, aac_config}
use android_study_rtmp_avcod.Delivery.{deliveries}
use android_study_rtmp_avcod.VideoEncode.{Opening, planes_of}
use android_study_rtmp_avcod.AudioEncode.{Opened, calloc}
use android_study_rtmp_avcod.VideoEncode.Units.{queued}
use android_study_rtmp_avcod.VideoEncode.Contract.{heard_of, hear, hear_all}
use android_study_rtmp_avcod.Camera.{Camera, loaded}
use android_study_rtmp_avcod.Camera.Feed.{preview, samples}
use android_study_rtmp_avcod.Camera.Setup.{set_up}
use android_study_rtmp_avcod.Camera.Thread.{Position, starting, testing, run_thread, try_connect}
use android_study_rtmp_avcod.Camera.Streaming.{Said, heard_on, picture, sound, IsStreaming}
use android_study_rtmp_avcod.Camera.Schedule.{
  Event, feeds, turn, Tells, ends, hears, turns, heard_by, act_all, Serves, at_test,
}
use android_study_rtmp_avcod.Camera.Schedule.Order.{act_all-Serves}
use android_study_rtmp_avcod.Camera.Schedule.Drain.{Drained, Serves-Drained}
use android_study_rtmp_avcod.Camera.Starting.{IsReady, run_thread-Serves}
use android_study_rtmp_avcod.Camera.Pipeline.{session_delivers}
use android_study_rtmp_avcod.Tests.{zeros, zeros-Allocates, ticks, rtmp, shared, keep, speaker}
use android_study_rtmp_avcod.Tests.Encoder.{recorder, recorder-IsOpen, units, units_fit, makes}
use android_study_rtmp_avcod.Tests.Thread.{good, camera, packet}

abbrev pub x264_opens : Opening
x264_opens = record { opened = true; planes = some (planes_of [] [] []) }

abbrev pub faac_opens : Opened
faac_opens = record { handle = true; configuration = true; input_samples = 2; max_bytes = 4 }

abbrev pub calls : List Event
calls =
    turn
    ∷ feeds (preview makes (calloc 100) (calloc 100) (1 ∷ 2 ∷ 3 ∷ 4 ∷ 5 ∷ 6 ∷ []))
    ∷ turn
    ∷ feeds (samples keep (3 ∷ 4 ∷ []) 1)
    ∷ turn
    ∷ []

abbrev pub units_said : List Said
units_said =
    (10, avc_config 66 0 31 (0x67 ∷ 66 ∷ 0 ∷ 31 ∷ 7 ∷ []) (0x68 ∷ 5 ∷ []))
    ∷ (10, avc_unit true (0x65 ∷ 1 ∷ 2 ∷ []))
    ∷ (10, avc_unit false (0x41 ∷ 3 ∷ []))
    ∷ []

abbrev pub said : List Said
said = units_said ++ ((11, aac_frame (3 ∷ 4 ∷ [])) ∷ [])

pub calls-Tells : Tells 4 1 4 calls said
unfolding heard_of
calls-Tells = turns (
    hears
      (picture makes units _ (1 ∷ 2 ∷ 3 ∷ 4 ∷ []) (5 ∷ []) (6 ∷ []) [] (calloc 100) (calloc 100)
        (1 ∷ 2 ∷ 3 ∷ 4 ∷ 5 ∷ 6 ∷ []) units_said refl refl refl refl refl refl refl units_fit refl
        refl)
      (turns (
        hears
          (sound keep (3 ∷ 4 ∷ []) 1 3 (4 ∷ []) ((11, aac_frame (3 ∷ 4 ∷ [])) ∷ []) refl
            (omega arith) (omega arith) refl)
          (turns ends) refl))
      refl)

pub reached : (try_connect good (9 ∷ [])).1 ≡ some 1
unfolding try_connect
reached = refl

session_delivers_example :
    (c : Camera) × (p : Position) × (c' : Camera) × (set_up x264_opens faac_opens 2 2 30 4096 44100
        2
        (9 ∷ [])
        (loaded 0)
      ≡ done c)
    × ((run_thread zeros ticks good (some (18 ∷ 16 ∷ [])) 7 (starting (9 ∷ [])) c
          >>= act_all zeros ticks good (some (18 ∷ 16 ∷ [])) calls)
        ≡ done (p, c'))
    × Drained zeros ticks good
        (some (18 ∷ 16 ∷ []))
        4
        1
        4
        rtmp
        (heard_on 1 ((11, aac_config (18 ∷ 16 ∷ [])) ∷ said))
        (run_thread zeros ticks good
          (some (18 ∷ 16 ∷ []))
          (3 * length c'.shared.queue.items + 3)
          p
          c')
session_delivers_example =
    session_delivers zeros ticks good zeros-Allocates x264_opens faac_opens 2 2 30 4096 44100 2 0
      (18 ∷ 16 ∷ []) (9 ∷ []) 1 calls said (omega arith) (omega arith) refl refl refl refl reached
      (omega arith) calls-Tells

abbrev pub ready_camera : Camera
ready_camera = record (loaded 0) {
  tried = true;
  video = some (record recorder { queue = to tt });
  audio = some speaker;
}

pub ready_camera-IsReady : IsReady 4 1 4 ready_camera
ready_camera-IsReady = record {
  no_packet = refl;
  no_items = refl;
  video = recorder;
  has_video = refl;
  is_open = recorder-IsOpen;
  audio = speaker;
  has_audio = refl;
  audio_encoder = refl;
  buffer = calloc 4;
  has_buffer = refl;
  has_room = refl;
  has_max = refl;
}

run_thread-Serves_example :
    (c' : Camera) × (run_thread zeros ticks good
        (some (18 ∷ 16 ∷ []))
        14
        (starting (9 ∷ []))
        ready_camera
      ≡ run_thread zeros ticks good (some (18 ∷ 16 ∷ [])) 7 testing c')
    × Serves 4 1 4 rtmp
        (heard_by [] ++ heard_on 1 ((11, aac_config (18 ∷ 16 ∷ [])) ∷ []))
        testing
        c'
    × (heard_by c'.calls ≡ heard_by [])
    × (hear_all c'.shared.queue.items ≡ heard_on 1 ((11, aac_config (18 ∷ 16 ∷ [])) ∷ []))
run_thread-Serves_example =
    run_thread-Serves zeros ticks good zeros-Allocates (18 ∷ 16 ∷ []) (9 ∷ []) 1 4 1 4 7
      ready_camera ready_camera-IsReady refl refl reached (omega arith)

-- The stream of `recorder` and `speaker`, at the test of the thread's loop.
abbrev pub live_camera : Camera
live_camera = record camera { video = some recorder; audio = some speaker }

abbrev pub live_camera_streams : IsStreaming 4 1 4 rtmp live_camera
live_camera_streams = record {
  pushing = refl;
  has_rtmp = refl;
  works = refl;
  video = recorder;
  has_video = refl;
  is_open = recorder-IsOpen;
  video_queue = refl;
  video_rtmp = refl;
  audio = speaker;
  has_audio = refl;
  audio_encoder = refl;
  buffer = calloc 4;
  has_buffer = refl;
  has_room = refl;
  has_max = refl;
  audio_queue = refl;
  audio_rtmp = refl;
}

pub live_camera-Serves : Serves 4 1 4 rtmp [] testing live_camera
unfolding deliveries
live_camera-Serves = record {
  streams = live_camera_streams;
  tried = refl;
  in_loop = at_test refl refl;
  accounted = refl;
}

act_all-Serves_example :
    (p' : Position) × (c' : Camera) × (act_all zeros ticks good none calls (testing, live_camera)
      ≡ done (p', c'))
    × Serves 4 1 4 rtmp (heard_on 1 said) p' c'
act_all-Serves_example =
    act_all-Serves zeros ticks good none 4 1 4 rtmp zeros-Allocates calls said [] testing
      live_camera live_camera-Serves calls-Tells

abbrev pub behind_camera : Camera
behind_camera = record live_camera { shared = queued (packet 1) shared }

Serves-Drained_example :
    Drained zeros ticks good none 4 1 4 rtmp
      (hear (packet 1) ∷ [])
      (run_thread zeros ticks good none 6 testing behind_camera)
unfolding deliveries
Serves-Drained_example =
    Serves-Drained zeros ticks good none 4 1 4 rtmp 6 (hear (packet 1) ∷ []) testing behind_camera
      (record {
        streams = record {
          pushing = refl;
          has_rtmp = refl;
          works = refl;
          video = recorder;
          has_video = refl;
          is_open = recorder-IsOpen;
          video_queue = refl;
          video_rtmp = refl;
          audio = speaker;
          has_audio = refl;
          audio_encoder = refl;
          buffer = calloc 4;
          has_buffer = refl;
          has_room = refl;
          has_max = refl;
          audio_queue = refl;
          audio_rtmp = refl;
        };
        tried = refl;
        in_loop = at_test refl refl;
        accounted = refl;
      })
      (omega arith)
