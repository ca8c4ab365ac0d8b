-- ===== src/Camera/Streaming/Video.antt =====
-- What a call with a frame of cpp/x264/Camera2ToolNative.cpp adds to a stream that runs.
use mathlib.Core.Path.{subst}
use android_study_rtmp_avcod.Common.{
  ℕ, ◌≡◌, refl, sym, ap, ◌∙◌, true, none, some, List, [], ◌∷◌, ◌++◌, length, Run, done,
}
use android_study_rtmp_avcod.Rtmp.{Rtmp, PacketAlloc, Allocates}
use android_study_rtmp_avcod.Flv.{Message}
use android_study_rtmp_avcod.Session.{Shared, Clock}
use android_study_rtmp_avcod.VideoEncode.{VideoEncode, Planes, planes_of}
use android_study_rtmp_avcod.VideoEncode.Queueing.{Nal, locals, encode_data}
use android_study_rtmp_avcod.VideoEncode.Units.{IsUsable}
use android_study_rtmp_avcod.VideoEncode.Contract.{
  Encoded, nals_of, AllFit, heard_of, hear_all, video as video_heard,
}
use android_study_rtmp_avcod.VideoEncode.Frames.{Agrees, timeless}
use android_study_rtmp_avcod.VideoEncode.Encode.{IsOpen, encode_data-Agrees}
use android_study_rtmp_avcod.Camera.{Camera, encode_video, native_send_preview_data}
use android_study_rtmp_avcod.Camera.Feed.{preview, feed}
use android_study_rtmp_avcod.Camera.Streaming.{heard_on, on_video, IsStreaming, Adds}

heard_on-on_video :
    (stream : ℕ) (ms : List Message) → heard_on stream (on_video ms) ≡ video_heard stream ms
heard_on-on_video stream [] = refl
heard_on-on_video stream (m ∷ ms) = ap (λ l. (10, stream, some m) ∷ l) (heard_on-on_video stream ms)

module _ (alloc : PacketAlloc) (clock : Clock) (memory : (n : ℕ) → Allocates alloc n) where
  -- The encoder stays open for the same frames when the start of its stream alone changes.
  IsOpen-timeless :
      (size uv : ℕ) (e e' : VideoEncode)
      → timeless e' ≡ timeless e
      → IsOpen size uv e
      → IsOpen size uv e'
  IsOpen-timeless size uv e e' same o = record {
    planes = o.planes;
    has_planes = ap (λ k. k.input) same ∙ o.has_planes;
    has_size = ap (λ k. k.y_size) same ∙ o.has_size;
    has_uv = ap (λ k. k.uv_size) same ∙ o.has_uv;
    has_encoder = ap (λ k. k.encoder) same ∙ o.has_encoder;
  }

  -- An open video encoder that can queue, and heard behind the queue what was said.
  pub video-Adds :
      (size uv max : ℕ) (r : Rtmp) (c : Camera) (e e' : VideoEncode) (s : Shared)
      (ms : List Message) (run : Run Camera)
      → IsStreaming size uv max r c
      → IsOpen size uv e
      → timeless e' ≡ timeless e
      → IsUsable r e' s
      → hear_all s.queue.items ≡ hear_all c.shared.queue.items ++ video_heard r.stream_id ms
      → run ≡ done (record c { video = some e'; shared = s })
      → Adds size uv max r (on_video ms) c run
  video-Adds size uv max r c e e' s ms run st o same usable heard runs = record {
    after = record c { video = some e'; shared = s };
    ends = runs;
    streams = record {
      pushing = st.pushing;
      has_rtmp = st.has_rtmp;
      works = usable.works;
      video = e';
      has_video = refl;
      is_open = IsOpen-timeless size uv e e' same o;
      video_queue = usable.has_queue;
      video_rtmp = usable.has_rtmp;
      audio = st.audio;
      has_audio = st.has_audio;
      audio_encoder = st.audio_encoder;
      buffer = st.buffer;
      has_buffer = st.has_buffer;
      has_room = st.has_room;
      has_max = st.has_max;
      audio_queue = st.audio_queue;
      audio_rtmp = st.audio_rtmp;
    };
    same_packet = refl;
    same_calls = refl;
    same_tried = refl;
    queue_grows =
        heard
        ∙ ap (λ l. hear_all c.shared.queue.items ++ l) (sym (heard_on-on_video r.stream_id ms));
  }

  encode_video_runs :
      (compress : Planes → List Nal) (junk junk' frame : List ℕ) (c : Camera) (e e' : VideoEncode)
      (s : Shared)
      → c.pushing ≡ true
      → encode_data alloc clock compress (locals junk junk') frame (e, c.shared) ≡ done (e', s)
      → encode_video alloc clock compress junk junk' frame (some e) c
        ≡ done (record c { video = some e'; shared = s })
  encode_video_runs compress junk junk' frame c e e' s pushing runs = simp (pushing, runs)

  -- A frame adds what the contract says of its units.
  pub picture-Adds :
      (size uv max : ℕ) (r : Rtmp) (c : Camera) (compress : Planes → List Nal) (us : List Encoded)
      (ms : List Message) (y u v behind junk junk' : List ℕ)
      → IsStreaming size uv max r c
      → length y ≡ size
      → length u ≡ uv
      → length v ≡ uv
      → length junk ≡ 100
      → length junk' ≡ 100
      → compress (planes_of y u v) ≡ nals_of us
      → AllFit us
      → heard_of none us ≡ some ms
      → Adds size uv max r
          (on_video ms)
          c
          (feed alloc clock (preview compress junk junk' (y ++ (u ++ (v ++ behind)))) c)
  unfolding native_send_preview_data
  picture-Adds size uv max r c compress us ms y u v behind junk junk' st ly lu lv lj lj' made fit
        contract =
      adds (
        subst
          (λ o.
            Agrees r (record st.video { input = some (planes_of y u v) })
              (hear_all c.shared.queue.items) o
              (encode_data alloc clock compress (locals junk junk') (y ++ (u ++ (v ++ behind)))
                (st.video, c.shared)))
          contract
          (encode_data-Agrees alloc clock memory compress us y u v behind junk junk' r st.video
            c.shared (rw (← ly, ← lu) at st.is_open) (lv ∙ sym lu) lj lj' made fit
            (record { has_queue = st.video_queue; has_rtmp = st.video_rtmp; works = st.works })))
    where
      adds :
          Agrees r
            (record st.video { input = some (planes_of y u v) })
            (hear_all c.shared.queue.items)
            (some ms)
            (encode_data alloc clock compress
              (locals junk junk')
              (y ++ (u ++ (v ++ behind)))
              (st.video, c.shared))
          → Adds size uv max r
              (on_video ms)
              c
              (feed alloc clock (preview compress junk junk' (y ++ (u ++ (v ++ behind)))) c)
      adds (e', s, runs, usable, same, heard) =
          video-Adds size uv max r c (record st.video { input = some (planes_of y u v) }) e' s ms _
            st
            (record {
              planes = planes_of y u v;
              has_planes = refl;
              has_size = st.is_open.has_size;
              has_uv = st.is_open.has_uv;
              has_encoder = st.is_open.has_encoder;
            })
            same usable heard
            (ap (λ x. encode_video alloc clock compress junk junk' (y ++ (u ++ (v ++ behind))) x c)
                st.has_video
              ∙ encode_video_runs compress junk junk' (y ++ (u ++ (v ++ behind))) c st.video e' s
                  st.pushing runs)
