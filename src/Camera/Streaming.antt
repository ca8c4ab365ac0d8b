-- ===== src/Camera/Streaming.antt =====
-- A camera whose stream runs, and what one of Java's calls with data does to it.
pub mod Video
pub mod Audio
pub mod Adding
use mathlib.Core.Path.{subst}
use android_study_rtmp_avcod.Common.{
  ℕ, ◌^◌, ◌≤◌, ◌<◌, ◌≡◌, refl, sym, ap, ◌∙◌, true, false, none, some, List, [], ◌∷◌, ◌++◌,
  append-nil, arith, length, drop, Run, done, to, sub32, ◌==◌, map, map-append, length-append,
  length-drop,
}
use android_study_rtmp_avcod.Rtmp.{Packet, Rtmp, PacketAlloc, Allocates}
use android_study_rtmp_avcod.Flv.{Message, aac_frame}
use android_study_rtmp_avcod.Session.{Shared, Clock, get_time}
use android_study_rtmp_avcod.VideoEncode.{VideoEncode, Planes, planes_of}
use android_study_rtmp_avcod.VideoEncode.Queueing.{Nal, locals, encode_data}
use android_study_rtmp_avcod.VideoEncode.Units.{queued}
use android_study_rtmp_avcod.Delivery.{deliver}
use android_study_rtmp_avcod.VideoEncode.Contract.{
  Encoded, nals_of, AllFit, heard_of, Heard, hear, hear_all, video as video_heard,
}
use android_study_rtmp_avcod.VideoEncode.Frames.{Agrees}
use android_study_rtmp_avcod.VideoEncode.Encode.{IsOpen, encode_data-Agrees}
use android_study_rtmp_avcod.AudioEncode.{AudioEncode, encode, note_start}
use android_study_rtmp_avcod.AudioEncode.Contract.{QueuesFrame, encode-QueuesFrame}
use android_study_rtmp_avcod.AudioEncode.Silence.{
  encode-silent, note_start-timeless, note_start-queue,
}
use android_study_rtmp_avcod.Camera.{
  Camera, encode_video, encode_audio, native_send_preview_data, send_audio_pcm_data,
}
use android_study_rtmp_avcod.Camera.Feed.{Feed, preview, samples, feed}

-- The channel and the message of a packet.
abbrev pub Said : Type 0
Said = ℕ × Message

-- What is heard of messages that go out on the stream `stream`.
abbrev pub heard_on : ℕ → List Said → List Heard
heard_on stream = map (λ m. (m.0, stream, some m.1))

abbrev pub on_video : List Message → List Said
on_video = map (λ m. (10, m))

-- What a call with data means for the server: the units that x264 makes of a frame of `size` luma
-- bytes and twice `uv` chroma bytes, or the bytes, `max` at most, that faac makes of samples.
pub data Means (size uv max : ℕ) : Feed → List Said → Type 0 where
  picture :
      (compress : Planes → List Nal) (us : List Encoded) (ms : List Message)
      (y u v behind junk junk' frame : List ℕ) (said : List Said)
      → length y ≡ size
      → length u ≡ uv
      → length v ≡ uv
      → frame ≡ y ++ (u ++ (v ++ behind))
      → length junk ≡ 100
      → length junk' ≡ 100
      → compress (planes_of y u v) ≡ nals_of us
      → AllFit us
      → heard_of none us ≡ some ms
      → said ≡ on_video ms
      → Means size uv max (preview compress junk junk' frame) said
  sound :
      (compress : List ℕ → ℕ → List ℕ) (pcm : List ℕ) (n b : ℕ) (bs : List ℕ) (said : List Said)
      → compress pcm n ≡ b ∷ bs
      → length (b ∷ bs) ≤ max
      → max < 2 ^ 30
      → said ≡ (11, aac_frame (b ∷ bs)) ∷ []
      → Means size uv max (samples compress pcm n) said
  silence :
      (compress : List ℕ → ℕ → List ℕ) (pcm : List ℕ) (n : ℕ) (said : List Said)
      → compress pcm n ≡ []
      → said ≡ []
      → Means size uv max (samples compress pcm n) said

-- What calls with data mean together.
abbrev pub AllMean : ℕ → ℕ → ℕ → List Feed → List Said → Type 0
AllMean size uv max [] said = said ≡ []
AllMean size uv max (f ∷ fs) said =
    (now : List Said) × (rest : List Said) × Means size uv max f now
    × AllMean size uv max fs rest
    × (said ≡ now ++ rest)

-- Both encoders are open, for frames of `size` and `uv` bytes and for `max` bytes of audio, and have
-- the working queue and the handle `r`, which is that of the thread.
pub record IsStreaming (size uv max : ℕ) (r : Rtmp) (c : Camera) : Type 0 where
  pub pushing : c.pushing ≡ true
  pub has_rtmp : c.rtmp ≡ some r
  pub works : (c.shared.queue.work == 0) ≡ false
  pub video : VideoEncode
  pub has_video : c.video ≡ some video
  pub is_open : IsOpen size uv video
  pub video_queue : video.queue ≡ to tt
  pub video_rtmp : video.rtmp ≡ to r
  pub audio : AudioEncode
  pub has_audio : c.audio ≡ some audio
  pub audio_encoder : audio.encoder ≡ true
  pub buffer : List ℕ
  pub has_buffer : audio.encoded_data ≡ some buffer
  pub has_room : length buffer ≡ max
  pub has_max : audio.max_bytes ≡ some max
  pub audio_queue : audio.queue ≡ to tt
  pub audio_rtmp : audio.rtmp ≡ to r

-- A call with data that goes well: the stream runs on, and the queue holds what was said behind what
-- it held.
pub record Adds (size uv max : ℕ) (r : Rtmp) (said : List Said) (c : Camera) (run : Run Camera)
    : Type 0 where
  pub after : Camera
  pub ends : run ≡ done after
  pub streams : IsStreaming size uv max r after
  pub same_packet : after.packet ≡ c.packet
  pub same_calls : after.calls ≡ c.calls
  pub same_tried : after.tried ≡ c.tried
  pub queue_grows :
      hear_all after.shared.queue.items ≡ hear_all c.shared.queue.items ++ heard_on r.stream_id said
