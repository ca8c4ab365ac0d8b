-- ===== src/Camera/Starting.antt =====
-- How the thread of cpp/x264/Camera2ToolNative.cpp starts on a connection that succeeds.
use android_study_rtmp_avcod.Common.{
  ℕ, suc, ◌^◌, ◌<◌, ◌≡◌, refl, ap, ◌∙◌, true, none, some, List, [], ◌∷◌, ◌++◌, append-nil, length,
  to,
}
use android_study_rtmp_avcod.Rtmp.{Call, allocates, Answers, PacketAlloc, Allocates}
use android_study_rtmp_avcod.Flv.{aac_config}
use android_study_rtmp_avcod.SafeQueue.{set_work}
use android_study_rtmp_avcod.Session.{Clock}
use android_study_rtmp_avcod.VideoEncode.{VideoEncode}
use android_study_rtmp_avcod.VideoEncode.Contract.{hear_all}
use android_study_rtmp_avcod.VideoEncode.Encode.{IsOpen}
use android_study_rtmp_avcod.AudioEncode.{AudioEncode}
use android_study_rtmp_avcod.Camera.{Camera}
use android_study_rtmp_avcod.Camera.Thread.{
  starting, heading, testing, try_connect, to_position, thread_step, run_thread, opened,
}
use android_study_rtmp_avcod.Camera.Sending.{run_thread_goes}
use android_study_rtmp_avcod.Camera.Streaming.{IsStreaming, heard_on}
use android_study_rtmp_avcod.Camera.Schedule.{Serves, heard_by, heard_by-append, in_hand, at_test}
use android_study_rtmp_avcod.Camera.Steps.{wired_camera, run_thread_wires, try_connect-silent}
use android_study_rtmp_avcod.Camera.Heading.{queue_header-Adds}

-- Both encoders are open, for frames of `size` and `uv` bytes and for `max` bytes of audio, and nothing
-- is in hand or queued.
pub record IsReady (size uv max : ℕ) (c : Camera) : Type 0 where
  pub no_packet : c.packet ≡ none
  pub no_items : c.shared.queue.items ≡ []
  pub video : VideoEncode
  pub has_video : c.video ≡ some video
  pub is_open : IsOpen size uv video
  pub audio : AudioEncode
  pub has_audio : c.audio ≡ some audio
  pub audio_encoder : audio.encoder ≡ true
  pub buffer : List ℕ
  pub has_buffer : audio.encoded_data ≡ some buffer
  pub has_room : length buffer ≡ max
  pub has_max : audio.max_bytes ≡ some max

-- Both encoders are given the handle and the queue, and the queue works.
pub wired-IsStreaming :
    (clock : Clock) (calls : List Call) (id size uv max : ℕ) (c : Camera)
    (ready : IsReady size uv max c)
    → IsStreaming size uv max
        (record { stream_id = id })
        (wired_camera clock (record { stream_id = id }) ready.video ready.audio (opened id calls c))
unfolding set_work
wired-IsStreaming clock calls id size uv max c ready = record {
  pushing = refl;
  has_rtmp = refl;
  works = refl;
  video = record ready.video { rtmp = to (record { stream_id = id }); queue = to tt };
  has_video = refl;
  is_open = record {
    planes = ready.is_open.planes;
    has_planes = ready.is_open.has_planes;
    has_size = ready.is_open.has_size;
    has_uv = ready.is_open.has_uv;
    has_encoder = ready.is_open.has_encoder;
  };
  video_queue = refl;
  video_rtmp = refl;
  audio = record ready.audio { rtmp = to (record { stream_id = id }); queue = to tt };
  has_audio = refl;
  audio_encoder = ready.audio_encoder;
  buffer = ready.buffer;
  has_buffer = ready.has_buffer;
  has_room = ready.has_room;
  has_max = ready.has_max;
  audio_queue = refl;
  audio_rtmp = refl;
}

-- Seven steps lead from the start of the thread to the test of its loop.
abbrev pub behind_start : ℕ → ℕ
behind_start n = suc (suc (suc (suc (suc (suc (suc n))))))

module _ (alloc : PacketAlloc) (clock : Clock) (a : Answers) where
  -- What the first seven steps of the thread leave of a connection that succeeds.
  unfoldable pub Connected : (size uv max id n : ℕ) (input url : List ℕ) → Camera → Type 0
  Connected size uv max id n input url c =
      (c' : Camera) × (run_thread alloc clock a (some input) (behind_start n) (starting url) c
        ≡ run_thread alloc clock a (some input) n testing c')
      × IsStreaming size uv max (record { stream_id = id }) c'
      × (c'.tried ≡ c.tried)
      × (c'.packet ≡ none)
      × (heard_by c'.calls ≡ heard_by c.calls)
      × (hear_all c'.shared.queue.items ≡ heard_on id ((11, aac_config input) ∷ []))

  pub opened-silent :
      (id : ℕ) (url : List ℕ) (c : Camera)
      → heard_by (opened id (try_connect a url).0 c).calls ≡ heard_by c.calls
  opened-silent id url c =
      heard_by-append c.calls (allocates ∷ (try_connect a url).0)
      ∙ ap (λ l. heard_by c.calls ++ l) (try_connect-silent a url)
      ∙ append-nil (heard_by c.calls)

  pub run_thread-Connected :
      (memory : (n : ℕ) → Allocates alloc n) (input url : List ℕ) (id size uv max n : ℕ)
      (c : Camera)
      → IsReady size uv max c
      → a.allocated ≡ true
      → (try_connect a url).1 ≡ some id
      → length input < 2 ^ 30
      → Connected size uv max id n input url c
  unfolding Connected thread_step set_work
  run_thread-Connected memory input url id size uv max n c ready found reached small =
      let more =
        queue_header-Adds alloc clock memory size uv max (record { stream_id = id }) wired input
          (wired-IsStreaming clock (try_connect a url).0 id size uv max c ready) small in
      (
        more.after,
        run_thread_wires alloc clock a (some input) (suc n) url id c ready.video ready.audio found
              reached ready.has_video ready.has_audio
            ∙ run_thread_goes alloc clock a (some input) n heading testing wired more.after
                (ap (to_position testing) more.ends),
        more.streams,
        more.same_tried,
        more.same_packet ∙ ready.no_packet,
        ap heard_by more.same_calls ∙ opened-silent id url c,
        more.queue_grows
            ∙ ap (λ l. hear_all l ++ heard_on id ((11, aac_config input) ∷ [])) ready.no_items,
      )
    where
      wired : Camera
      wired =
          wired_camera clock (record { stream_id = id }) ready.video ready.audio
            (opened id (try_connect a url).0 c)

  -- A thread whose connection succeeds, where both encoders are open, nothing is in hand or queued, Java
  -- has not stopped it and memory is found, comes to the test of its loop in seven steps, with the stream
  -- running. Faac's header, of fewer than 2 ^ 30 bytes, is then all that is queued, nothing is in hand,
  -- and the server has heard nothing more than before.
  pub run_thread-Serves :
      (memory : (n : ℕ) → Allocates alloc n) (input url : List ℕ) (id size uv max n : ℕ)
      (c : Camera)
      → IsReady size uv max c
      → c.tried ≡ true
      → a.allocated ≡ true
      → (try_connect a url).1 ≡ some id
      → length input < 2 ^ 30
      → (c' : Camera) × (run_thread alloc clock a (some input) (behind_start n) (starting url) c
          ≡ run_thread alloc clock a (some input) n testing c')
        × Serves size uv max
            (record { stream_id = id })
            (heard_by c.calls ++ heard_on id ((11, aac_config input) ∷ []))
            testing
            c'
        × (heard_by c'.calls ≡ heard_by c.calls)
        × (hear_all c'.shared.queue.items ≡ heard_on id ((11, aac_config input) ∷ []))
  unfolding Connected
  run_thread-Serves memory input url id size uv max n c ready goes_on found reached small =
      let (c', runs, streams, same, no_packet, heard, items) =
        run_thread-Connected memory input url id size uv max n c ready found reached small in
      (
        c',
        runs,
        record {
          streams = streams;
          tried = same ∙ goes_on;
          in_loop = at_test refl no_packet;
          accounted =
              ap (λ o. heard_by c'.calls ++ (in_hand o ++ hear_all c'.shared.queue.items)) no_packet
              ∙ ap (λ l. heard_by c'.calls ++ l) items
              ∙ ap (λ l. l ++ heard_on id ((11, aac_config input) ∷ [])) heard;
        },
        heard,
        items,
      )
