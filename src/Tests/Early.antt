-- ===== src/Tests/Early.antt =====
-- The theorems on a video encoder that was not opened or not given a queue, and on parameter sets that
-- are too long, at concrete inputs.
use android_study_rtmp_avcod.Common.{
  ◌≡◌, ◌≢◌, ◌⊎◌, refl, false, some, [], ◌∷◌, arith, done, fault, null_pointer, out_of_bounds,
}
use android_study_rtmp_avcod.VideoEncode.{
  Opening, Params, VideoEncode, open_and_ready, not_open, init_and_open, planes_of,
  new_video_encode,
}
use android_study_rtmp_avcod.VideoEncode.Queueing.{begin_frame, locals, queue_nal, encode_data}
use android_study_rtmp_avcod.VideoEncode.Contract.{Sps, sps, pps, nal_of}
use android_study_rtmp_avcod.VideoEncode.Ready.{Configures, opening_calls, init_and_open_answers}
use android_study_rtmp_avcod.VideoEncode.Sets.{queue_nal_overflows}
use android_study_rtmp_avcod.AudioEncode.{calloc}
use android_study_rtmp_avcod.Tests.{zeros, ticks, shared}
use android_study_rtmp_avcod.Tests.Encoder.{recorder, makes}

abbrev fails_to_open : Opening
fails_to_open = record { opened = false; planes = some (planes_of [] [] []) }

init_and_open_answers_example :
    (e : VideoEncode) × (p : Params) × (init_and_open fails_to_open 2 2 30 4096 new_video_encode
      ≡ done (not_open, e))
    × Configures 2 2 30 4096 p
    × (e.calls ≡ opening_calls false 2 2 p)
    × (((not_open ≡ open_and_ready)
          × (begin_frame makes (1 ∷ 2 ∷ 3 ∷ 4 ∷ 5 ∷ 6 ∷ []) e
              ≡ done (
                makes (planes_of (1 ∷ 2 ∷ 3 ∷ 4 ∷ []) (5 ∷ []) (6 ∷ [])),
                record e { input = some (planes_of (1 ∷ 2 ∷ 3 ∷ 4 ∷ []) (5 ∷ []) (6 ∷ [])) },
              )))
        ⊎ ((not_open ≢ open_and_ready)
            × (encode_data zeros ticks makes
                  (locals (calloc 100) (calloc 100))
                  (1 ∷ 2 ∷ 3 ∷ 4 ∷ 5 ∷ 6 ∷ [])
                  (e, shared)
                ≡ fault null_pointer)))
init_and_open_answers_example =
    init_and_open_answers fails_to_open 2 2 30 4096 new_video_encode zeros ticks makes
      (locals (calloc 100) (calloc 100)) (1 ∷ 2 ∷ 3 ∷ 4 ∷ []) (5 ∷ []) (6 ∷ []) [] shared
      (omega arith) (omega arith) refl refl refl

abbrev long_sps : Sps
long_sps = record { first = 0x67; profile = 66; compatibility = 0; level = 31; rest = calloc 97 }

queue_nal_overflows_example :
    (queue_nal zeros ticks
        (nal_of (sps long_sps))
        (locals (calloc 100) (calloc 100), (recorder, shared))
      ≡ fault out_of_bounds)
    × (queue_nal zeros ticks
          (nal_of (pps (calloc 101)))
          (locals (calloc 100) (calloc 100), (recorder, shared))
        ≡ fault out_of_bounds)
queue_nal_overflows_example =
    queue_nal_overflows zeros ticks long_sps (calloc 101) (locals (calloc 100) (calloc 100))
      (recorder, shared) refl refl (omega arith) (omega arith)
