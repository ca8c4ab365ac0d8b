-- ===== src/Camera/Heading.antt =====
-- `queueAccDataHeader` on a stream of cpp/x264/Camera2ToolNative.cpp.
use android_study_rtmp_avcod.Common.{
  ℕ, ◌^◌, ◌<◌, ◌≡◌, refl, ap, ◌∙◌, some, List, [], ◌∷◌, ◌++◌, length, done, map-append,
}
use android_study_rtmp_avcod.Rtmp.{Packet, Rtmp, PacketAlloc, Allocates}
use android_study_rtmp_avcod.Flv.{aac_config}
use android_study_rtmp_avcod.Delivery.{deliver}
use android_study_rtmp_avcod.Session.{Shared, Clock}
use android_study_rtmp_avcod.VideoEncode.Units.{queued}
use android_study_rtmp_avcod.VideoEncode.Contract.{hear, hear_all}
use android_study_rtmp_avcod.AudioEncode.{AudioEncode, note_start, queue_acc_data_header}
use android_study_rtmp_avcod.AudioEncode.Contract.{QueuesHeader, queue_acc_data_header-QueuesHeader}
use android_study_rtmp_avcod.AudioEncode.Silence.{note_start-timeless, note_start-queue}
use android_study_rtmp_avcod.Camera.{Camera}
use android_study_rtmp_avcod.Camera.Thread.{queue_header}
use android_study_rtmp_avcod.Camera.Steps.{queue_header_ends}
use android_study_rtmp_avcod.Camera.Streaming.{IsStreaming, Adds}
use android_study_rtmp_avcod.Camera.Streaming.Audio.{streams_with}

-- The header is queued behind what there was, and the stream runs on.
pub queue_header-Adds :
    (alloc : PacketAlloc) (clock : Clock) (memory : (n : ℕ) → Allocates alloc n) (size uv max : ℕ)
    (r : Rtmp) (c : Camera) (input : List ℕ)
    → IsStreaming size uv max r c
    → length input < 2 ^ 30
    → Adds size uv max r ((11, aac_config input) ∷ []) c (queue_header alloc clock (some input) c)
unfolding QueuesHeader
queue_header-Adds alloc clock memory size uv max r c input st small = adds (
    queue_acc_data_header-QueuesHeader alloc clock memory r input st.audio c.shared
      (record { has_queue = st.audio_queue; has_rtmp = st.audio_rtmp; works = st.works })
      st.audio_encoder small)
  where
    started : AudioEncode × Shared
    started = note_start clock (st.audio, c.shared)

    adds :
        (packet : Packet) × (queue_acc_data_header alloc clock (some input) (st.audio, c.shared)
            ≡ done (started.0, queued packet started.1))
          × (deliver packet ≡ record {
            channel = 11;
            time = 0;
            stream = r.stream_id;
            message = some (aac_config input);
          })
        → Adds size uv max r
            ((11, aac_config input) ∷ [])
            c
            (queue_header alloc clock (some input) c)
    adds (packet, runs, seen) =
        let queue = note_start-queue clock st.audio c.shared in
        record {
          after = record c { audio = some started.0; shared = queued packet started.1 };
          ends =
              queue_header_ends alloc clock (some input) c st.audio started.0
                (queued packet started.1) st.has_audio runs;
          streams =
              streams_with alloc clock memory size uv max r c started.0 st.buffer
                (queued packet started.1) st
                (note_start-timeless clock st.audio c.shared ∙ λ i. record st.audio {
                  encoded_data = st.has_buffer i;
                  start_time = 0;
                })
                st.has_room (ap (λ q. q.work) queue);
          same_packet = refl;
          same_calls = refl;
          same_tried = refl;
          queue_grows =
              ap (λ q. hear_all (q.items ++ (packet ∷ []))) queue
              ∙ map-append hear c.shared.queue.items (packet ∷ [])
              ∙ ap (λ d. hear_all c.shared.queue.items ++ ((d.channel, d.stream, d.message) ∷ []))
                  seen;
        }
