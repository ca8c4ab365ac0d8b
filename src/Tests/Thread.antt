-- ===== src/Tests/Thread.antt =====
-- The theorems on the thread that sends, at concrete inputs.
use android_study_rtmp_avcod.Common.{ℕ, ◌≡◌, refl, true, false, none, some, List, [], ◌∷◌, done}
use android_study_rtmp_avcod.Rtmp.{
  allocates, inits, sets_timeout, sets_url, enables_write, connects, closes, frees, Packet, Answers,
}
use android_study_rtmp_avcod.VideoEncode.{new_video_encode}
use android_study_rtmp_avcod.AudioEncode.{new_audio_encode}
use android_study_rtmp_avcod.Camera.{Camera, loaded}
use android_study_rtmp_avcod.Camera.Thread.{starting, finished, try_connect, run_thread}
use android_study_rtmp_avcod.Camera.Feed.{Feed, preview, samples}
use android_study_rtmp_avcod.Camera.Connecting.{run_thread_fails}
use android_study_rtmp_avcod.Tests.{zeros, ticks, rtmp, shared}

abbrev pub packet : ℕ → Packet
packet t = record {
  header_type = 0;
  packet_type = 9;
  has_abs_timestamp = 0;
  channel = 10;
  time_stamp = t;
  info_field2 = 1;
  body_size = 0;
  body = [];
}

abbrev pub good : Answers
good = record { allocated = true; url_accepted = true; connected = true; stream = some 1 }

abbrev pub camera : Camera
camera = record (loaded 0) {
  video = some new_video_encode;
  audio = some new_audio_encode;
  rtmp = some rtmp;
  tried = true;
  pushing = true;
  shared = shared;
}

abbrev data_calls : List Feed
data_calls = preview (λ p. []) [] [] (1 ∷ []) ∷ samples (λ p n. p) (2 ∷ []) 1 ∷ []

abbrev refused : Answers
refused = record good { connected = false }

abbrev calling : Camera
calling = record camera { rtmp = none; pushing = false }

run_thread_fails_example :
    run_thread zeros ticks refused none 3 (starting (1 ∷ [])) calling
    ≡ done (
      finished,
      record calling {
        calls =
            allocates
            ∷ inits
            ∷ sets_timeout 10
            ∷ sets_url (1 ∷ [])
            ∷ enables_write
            ∷ connects
            ∷ closes
            ∷ frees
            ∷ [];
      },
    )
unfolding try_connect
run_thread_fails_example =
    run_thread_fails zeros ticks refused none (1 ∷ []) 0 calling refl refl refl
