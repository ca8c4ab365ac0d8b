-- ===== src/Tests/Stopping.antt =====
-- The theorems on `nativeStop` at concrete inputs.
use android_study_rtmp_avcod.Common.{◌≡◌, refl, false, none, some, [], ◌∷◌, arith, done}
use android_study_rtmp_avcod.Rtmp.{frees_packet}
use android_study_rtmp_avcod.Flv.{aac_config}
use android_study_rtmp_avcod.Delivery.{deliveries}
use android_study_rtmp_avcod.AudioEncode.{calloc}
use android_study_rtmp_avcod.VideoEncode.Contract.{hear_all}
use android_study_rtmp_avcod.Camera.{Camera, native_stop}
use android_study_rtmp_avcod.Camera.Thread.{starting, finished, checking, run_thread}
use android_study_rtmp_avcod.Camera.Streaming.{heard_on, IsStreaming}
use android_study_rtmp_avcod.Camera.Schedule.{heard_by, act_all}
use android_study_rtmp_avcod.Camera.Stopping.{native_stop_leaks, stop_while_connecting}
use android_study_rtmp_avcod.Tests.{zeros, zeros-Allocates, ticks, rtmp, speaker}
use android_study_rtmp_avcod.Tests.Encoder.{recorder, recorder-IsOpen}
use android_study_rtmp_avcod.Tests.Thread.{good, packet}
use android_study_rtmp_avcod.Tests.Pipeline.{
  live_camera, ready_camera, calls, said, calls-Tells, reached,
}

abbrev holding_camera : Camera
holding_camera = record live_camera { packet = some (packet 1) }

native_stop_leaks_example :
    run_thread zeros ticks good none 4 checking (native_stop holding_camera)
    ≡ done
        (finished, record (native_stop holding_camera) { packet = none; calls = frees_packet ∷ [] })
native_stop_leaks_example = native_stop_leaks zeros ticks good none 0 holding_camera (packet 1) refl

abbrev stopped_camera : Camera
stopped_camera = record ready_camera { tried = false }

stop_while_connecting_example :
    (k : Camera) × (c' : Camera) × (run_thread zeros ticks good
        (some (18 ∷ 16 ∷ []))
        11
        (starting (9 ∷ []))
        stopped_camera
      ≡ done (finished, k))
    × IsStreaming 4 1 4 rtmp k
    × (act_all zeros ticks good (some (18 ∷ 16 ∷ [])) calls (finished, k) ≡ done (finished, c'))
    × (heard_by c'.calls ≡ [])
    × (hear_all c'.shared.queue.items ≡ heard_on 1 ((11, aac_config (18 ∷ 16 ∷ [])) ∷ said))
unfolding deliveries
stop_while_connecting_example =
    stop_while_connecting zeros ticks good zeros-Allocates (18 ∷ 16 ∷ []) (9 ∷ []) 1 4 1 4 0
      stopped_camera calls said
      (record {
        no_packet = refl;
        no_items = refl;
        video = recorder;
        has_video = refl;
        is_open = recorder-IsOpen;
        audio = speaker;
        has_audio = refl;
        audio_encoder = refl;
        buffer = calloc 4;
        has_buffer = refl;
        has_room = refl;
        has_max = refl;
      })
      refl refl reached (omega arith) calls-Tells
