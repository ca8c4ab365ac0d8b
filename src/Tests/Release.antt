-- ===== src/Tests/Release.antt =====
-- The theorems on a release and on a frame that comes too early, at concrete inputs.
use android_study_rtmp_avcod.Common.{
  arith, List, ◌≡◌, ◌≢◌, ◌⊎◌, refl, true, none, some, [], ◌∷◌, done, fault, null_pointer, unset,
  wild,
}
use android_study_rtmp_avcod.VideoEncode.{planes_of}
use android_study_rtmp_avcod.AudioEncode.{calloc}
use android_study_rtmp_avcod.Camera.{
  Camera, loaded, native_release, native_rtmp_start, native_send_preview_data, close_rtmp,
}
use android_study_rtmp_avcod.Camera.Thread.{
  starting, waking, attaching_video, heading, testing, wake, taking, finished, run_thread,
}
use android_study_rtmp_avcod.Camera.Starting.{IsReady}
use android_study_rtmp_avcod.Camera.Releasing.{
  released, native_release_answers, restart_faults, release_races,
}
use android_study_rtmp_avcod.Camera.Racing.{early_frame_faults, data_overtakes_header}
use android_study_rtmp_avcod.Camera.Feed.{Feed, samples, feed_all}
use android_study_rtmp_avcod.Camera.Streaming.{heard_on, sound}
use android_study_rtmp_avcod.VideoEncode.Contract.{hear_all}
use android_study_rtmp_avcod.VideoEncode.Units.{queued}
use android_study_rtmp_avcod.Flv.{aac_frame, aac_config}
use android_study_rtmp_avcod.Tests.{zeros, zeros-Allocates, ticks, rtmp, shared, speaker, keep}
use android_study_rtmp_avcod.Tests.Encoder.{recorder, units, units_fit, makes}
use android_study_rtmp_avcod.Tests.Thread.{good, packet}
use android_study_rtmp_avcod.Tests.Pipeline.{live_camera, live_camera_streams, reached}

native_release_answers_example :
    ((live_camera.shared.queue.items ≡ [])
      × (native_release live_camera ≡ done (released live_camera))
      × (run_thread zeros ticks good none 5 taking (released live_camera)
          ≡ done (finished, released live_camera)))
    ⊎ ((live_camera.shared.queue.items ≢ []) × (native_release live_camera ≡ fault null_pointer))
native_release_answers_example =
    native_release_answers zeros ticks good none 4 1 4 0 rtmp live_camera live_camera_streams refl
      refl refl

restart_faults_example :
    (native_release live_camera ≡ done (released live_camera))
    × (run_thread zeros ticks good none 2
          (starting (9 ∷ []))
          (native_rtmp_start (9 ∷ []) (released live_camera))
        ≡ fault null_pointer)
restart_faults_example =
    restart_faults zeros ticks good none 4 1 4 0 1 (9 ∷ []) rtmp live_camera live_camera_streams
      refl refl refl reached

abbrev first_camera : Camera
first_camera = record (loaded 0) {
  tried = true;
  video = some (record recorder { queue = wild; rtmp = wild });
  audio = some speaker;
}

abbrev first_camera_ready : IsReady 4 1 4 first_camera
first_camera_ready = record {
  no_packet = refl;
  no_items = refl;
  video = record recorder { queue = wild; rtmp = wild };
  has_video = refl;
  is_open = record {
    planes = planes_of [] [] [];
    has_planes = refl;
    has_size = refl;
    has_uv = refl;
    has_encoder = refl;
  };
  audio = speaker;
  has_audio = refl;
  audio_encoder = refl;
  buffer = calloc 4;
  has_buffer = refl;
  has_room = refl;
  has_max = refl;
}

early_frame_faults_example :
    (k : Camera) × (run_thread zeros ticks good none 3 (starting (9 ∷ [])) first_camera
      ≡ done (waking, k))
    × (run_thread zeros ticks good none 4 (starting (9 ∷ [])) first_camera
        ≡ done (attaching_video, wake k))
    × (native_send_preview_data zeros ticks makes
          (calloc 100)
          (calloc 100)
          (1 ∷ 2 ∷ 3 ∷ 4 ∷ 5 ∷ 6 ∷ [])
          k
        ≡ fault unset)
    × (native_send_preview_data zeros ticks makes
          (calloc 100)
          (calloc 100)
          (1 ∷ 2 ∷ 3 ∷ 4 ∷ 5 ∷ 6 ∷ [])
          (wake k)
        ≡ fault unset)
early_frame_faults_example =
    early_frame_faults zeros ticks good none makes units (1 ∷ 2 ∷ 3 ∷ 4 ∷ []) (5 ∷ []) (6 ∷ []) []
      (calloc 100) (calloc 100) (9 ∷ []) 1 4 first_camera first_camera_ready refl refl reached refl
      refl refl refl units_fit tt

abbrev sounds : List Feed
sounds = samples keep (3 ∷ 4 ∷ []) 1 ∷ []

data_overtakes_header_example :
    (w : Camera) × (k : Camera) × (c' : Camera) × (run_thread zeros ticks good
        (some (18 ∷ 16 ∷ []))
        6
        (starting (9 ∷ []))
        first_camera
      ≡ done (heading, w))
    × (feed_all zeros ticks sounds w ≡ done k)
    × (run_thread zeros ticks good (some (18 ∷ 16 ∷ [])) 1 heading k ≡ done (testing, c'))
    × (hear_all c'.shared.queue.items
        ≡ heard_on 1 ((11, aac_frame (3 ∷ 4 ∷ [])) ∷ (11, aac_config (18 ∷ 16 ∷ [])) ∷ []))
data_overtakes_header_example =
    data_overtakes_header zeros ticks good zeros-Allocates (18 ∷ 16 ∷ []) (9 ∷ []) 1 4 1 4
      first_camera sounds ((11, aac_frame (3 ∷ 4 ∷ [])) ∷ []) first_camera_ready refl reached
      (omega arith)
      (
        (11, aac_frame (3 ∷ 4 ∷ [])) ∷ [],
        [],
        sound keep (3 ∷ 4 ∷ []) 1 3 (4 ∷ []) ((11, aac_frame (3 ∷ 4 ∷ [])) ∷ []) refl (omega arith)
            (omega arith) refl,
        refl,
        refl,
      )

abbrev full_camera : Camera
full_camera = record live_camera { shared = queued (packet 1) shared }

release_races_example :
    run_thread zeros ticks good none 2 taking (close_rtmp full_camera) ≡ fault null_pointer
release_races_example =
    release_races zeros ticks good none 4 1 4 0 rtmp full_camera (packet 1) []
      (record {
        pushing = refl;
        has_rtmp = refl;
        works = refl;
        video = recorder;
        has_video = refl;
        is_open = live_camera_streams.is_open;
        video_queue = refl;
        video_rtmp = refl;
        audio = speaker;
        has_audio = refl;
        audio_encoder = refl;
        buffer = calloc 4;
        has_buffer = refl;
        has_room = refl;
        has_max = refl;
        audio_queue = refl;
        audio_rtmp = refl;
      })
      refl refl
