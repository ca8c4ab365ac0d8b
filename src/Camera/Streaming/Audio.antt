-- ===== src/Camera/Streaming/Audio.antt =====
-- What a call with samples of cpp/x264/Camera2ToolNative.cpp adds to a stream that runs.

use android_study_rtmp_avcod.Common.{
  ℕ, ◌^◌, ◌≤◌, ◌<◌, ◌≡◌, refl, sym, ap, ◌∙◌, true, some, List, [], ◌∷◌, ◌++◌, append-nil, arith,
  length, drop, done, sub32, ◌==◌, map-append, length-append, length-drop,
}
use android_study_rtmp_avcod.Rtmp.{Packet, Rtmp, PacketAlloc, Allocates}
use android_study_rtmp_avcod.Flv.{aac_frame}
use android_study_rtmp_avcod.Session.{Shared, Clock, get_time}
use android_study_rtmp_avcod.VideoEncode.Units.{queued}
use android_study_rtmp_avcod.Delivery.{deliver}
use android_study_rtmp_avcod.VideoEncode.Contract.{hear, hear_all}
use android_study_rtmp_avcod.AudioEncode.{AudioEncode, encode, note_start}
use android_study_rtmp_avcod.AudioEncode.Contract.{QueuesFrame, encode-QueuesFrame}
use android_study_rtmp_avcod.AudioEncode.Silence.{
  encode-silent, note_start-timeless, note_start-queue,
}
use android_study_rtmp_avcod.Camera.{Camera, encode_audio, send_audio_pcm_data}
use android_study_rtmp_avcod.Camera.Feed.{samples, feed}
use android_study_rtmp_avcod.Camera.Streaming.{IsStreaming, Adds}

module _ (alloc : PacketAlloc) (clock : Clock) (memory : (n : ℕ) → Allocates alloc n) where
  encode_audio_runs :
      (compress : List ℕ → ℕ → List ℕ) (pcm : List ℕ) (n : ℕ) (c : Camera) (a a' : AudioEncode)
      (s : Shared)
      → c.pushing ≡ true
      → encode alloc clock compress pcm n (a, c.shared) ≡ done (a', s)
      → encode_audio alloc clock compress pcm n (some a) c
        ≡ done (record c { audio = some a'; shared = s })
  encode_audio_runs compress pcm n c a a' s pushing runs = simp (pushing, runs)

  -- The stream runs on with an audio encoder that differs in its buffer and its start alone.
  pub streams_with :
      (size uv max : ℕ) (r : Rtmp) (c : Camera) (a : AudioEncode) (kept : List ℕ) (s : Shared)
      (st : IsStreaming size uv max r c)
      → record a { start_time = 0 } ≡ record st.audio { encoded_data = some kept; start_time = 0 }
      → length kept ≡ max
      → s.queue.work ≡ c.shared.queue.work
      → IsStreaming size uv max r (record c { audio = some a; shared = s })
  streams_with size uv max r c a kept s st same room work = record {
    pushing = st.pushing;
    has_rtmp = st.has_rtmp;
    works = ap (λ w. w == 0) work ∙ st.works;
    video = st.video;
    has_video = st.has_video;
    is_open = st.is_open;
    video_queue = st.video_queue;
    video_rtmp = st.video_rtmp;
    audio = a;
    has_audio = refl;
    audio_encoder = ap (λ k. k.encoder) same ∙ st.audio_encoder;
    buffer = kept;
    has_buffer = ap (λ k. k.encoded_data) same;
    has_room = room;
    has_max = ap (λ k. k.max_bytes) same ∙ st.has_max;
    audio_queue = ap (λ k. k.queue) same ∙ st.audio_queue;
    audio_rtmp = ap (λ k. k.rtmp) same ∙ st.audio_rtmp;
  }

  -- Samples of which faac makes bytes add a frame of these.
  pub sound-Adds :
      (size uv max : ℕ) (r : Rtmp) (c : Camera) (compress : List ℕ → ℕ → List ℕ) (pcm : List ℕ)
      (n b : ℕ) (bs : List ℕ)
      → IsStreaming size uv max r c
      → compress pcm n ≡ b ∷ bs
      → length (b ∷ bs) ≤ max
      → max < 2 ^ 30
      → Adds size uv max r
          ((11, aac_frame (b ∷ bs)) ∷ [])
          c
          (feed alloc clock (samples compress pcm n) c)
  unfolding send_audio_pcm_data QueuesFrame
  sound-Adds size uv max r c compress pcm n b bs st made fits small = adds (
      encode-QueuesFrame alloc clock memory r compress pcm n b max bs st.buffer st.audio c.shared
        (record { has_queue = st.audio_queue; has_rtmp = st.audio_rtmp; works = st.works })
        st.audio_encoder st.has_buffer st.has_max made (omega (arith, st.has_room)) (omega arith))
    where
      kept : List ℕ
      kept = (b ∷ bs) ++ drop (length (b ∷ bs)) st.buffer

      started : AudioEncode × Shared
      started = note_start clock (record st.audio { encoded_data = some kept }, c.shared)

      adds :
          (packet : Packet) × (encode alloc clock compress pcm n (st.audio, c.shared)
              ≡ done (started.0, queued packet (get_time clock started.1).1))
            × (deliver packet ≡ record {
              channel = 11;
              time = sub32 (get_time clock started.1).0 started.0.start_time;
              stream = r.stream_id;
              message = some (aac_frame (b ∷ bs));
            })
          → Adds size uv max r
              ((11, aac_frame (b ∷ bs)) ∷ [])
              c
              (feed alloc clock (samples compress pcm n) c)
      adds (packet, runs, seen) =
          let queue =
            note_start-queue clock (record st.audio { encoded_data = some kept }) c.shared in
          record {
            after = record c {
              audio = some started.0;
              shared = queued packet (get_time clock started.1).1;
            };
            ends =
                ap (λ x. encode_audio alloc clock compress pcm n x c) st.has_audio
                ∙ encode_audio_runs compress pcm n c st.audio started.0 _ st.pushing runs;
            streams =
                streams_with size uv max r c started.0 kept
                  (queued packet (get_time clock started.1).1) st
                  (note_start-timeless clock (record st.audio { encoded_data = some kept })
                    c.shared)
                  (omega (
                    arith,
                    st.has_room,
                    length-append (b ∷ bs) (drop (length (b ∷ bs)) st.buffer),
                    length-drop (length (b ∷ bs)) st.buffer,
                  ))
                  (ap (λ q. q.work) queue);
            same_packet = refl;
            same_calls = refl;
            same_tried = refl;
            queue_grows =
                ap (λ q. hear_all (q.items ++ (packet ∷ []))) queue
                ∙ map-append hear c.shared.queue.items (packet ∷ [])
                ∙ ap (λ d. hear_all c.shared.queue.items ++ ((d.channel, d.stream, d.message) ∷ []))
                    seen;
          }

  -- Samples of which faac makes nothing add nothing.
  pub silence-Adds :
      (size uv max : ℕ) (r : Rtmp) (c : Camera) (compress : List ℕ → ℕ → List ℕ) (pcm : List ℕ)
      (n : ℕ)
      → IsStreaming size uv max r c
      → compress pcm n ≡ []
      → Adds size uv max r [] c (feed alloc clock (samples compress pcm n) c)
  unfolding send_audio_pcm_data
  silence-Adds size uv max r c compress pcm n st made = record {
    after = record c {
      audio = some (record st.audio { encoded_data = some st.buffer });
      shared = c.shared;
    };
    ends =
        ap (λ x. encode_audio alloc clock compress pcm n x c) st.has_audio
        ∙ encode_audio_runs compress pcm n c st.audio _ c.shared st.pushing (
            encode-silent alloc clock compress pcm n max st.buffer st.audio c.shared
              st.audio_encoder st.has_buffer st.has_max made);
    streams =
        streams_with size uv max r c (record st.audio { encoded_data = some st.buffer }) st.buffer
          c.shared st refl st.has_room refl;
    same_packet = refl;
    same_calls = refl;
    same_tried = refl;
    queue_grows = sym (append-nil _);
  }
