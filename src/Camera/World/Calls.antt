-- ===== src/Camera/World/Calls.antt =====
-- Java's calls of cpp/x264/Camera2ToolNative.cpp: each keeps the fields of all packets fitting.
use android_study_rtmp_avcod.Common.{
  ℕ, ◌^◌, ◌<◌, not, Option, none, some, List, [], ◌∷◌, ◌++◌, arith, done, ◌>>=◌, Ensures, returns,
  Ensures-bind, if_both, Ensures-if, Ensures-any, AreBytes,
}
use android_study_rtmp_avcod.Rtmp.{Packet, Rtmp, closes, frees, frees_packet, PacketAlloc}
use android_study_rtmp_avcod.Session.{Shared, Clock}
use android_study_rtmp_avcod.Packing.Packed.{BufferOf}
use android_study_rtmp_avcod.Packing.Typed.{
  IsPacket, SendsPackets, SendsPackets-append, HoldsPackets,
}
use android_study_rtmp_avcod.VideoEncode.{VideoEncode, Planes, Opening, init_and_open}
use android_study_rtmp_avcod.VideoEncode.Queueing.{Nal, locals}
use android_study_rtmp_avcod.VideoEncode.Packed.{
  UnitsFit, encode_data-StateFits, destroy-StateFits, new_video_encode-fits, init_and_open-fits,
}
use android_study_rtmp_avcod.AudioEncode.{
  AudioEncode, Opened, open_faac_encode, get_input_data_size,
}
use android_study_rtmp_avcod.AudioEncode.Packed.{
  AudioFits, open_faac_encode-AudioFits, encode-StateFits,
}
use android_study_rtmp_avcod.Camera.{
  Camera, native_x264_encode_init, native_faac_encode_init, native_faac_encode_open,
  native_x264_encode_open, native_rtmp_start, native_send_preview_data, send_audio_pcm_data,
  native_stop, encode_video, encode_audio, close_rtmp, delete_video, delete_audio, free_video,
  free_audio, native_release, release_packet,
}

abbrev pub VideoFits : Option VideoEncode → Type 0
VideoFits none = Unit {0}
VideoFits (some e) = e.start_time < 2 ^ 32

abbrev pub EncoderFits : Option AudioEncode → Type 0
EncoderFits none = Unit {0}
EncoderFits (some e) = AudioFits e

abbrev pub InHand : Option Packet → Type 0
InHand none = Unit {0}
InHand (some p) = IsPacket p

-- The encoders' times and buffers fit, and so do the packets that are queued, in hand and sent.
abbrev pub CameraFits : Camera → Type 0
CameraFits c =
    VideoFits c.video
    × EncoderFits c.audio
    × HoldsPackets c.shared.queue
    × InHand c.packet
    × SendsPackets c.calls

pub native_x264_encode_init-CameraFits :
    (c : Camera) → CameraFits c → CameraFits (native_x264_encode_init c)
unfolding native_x264_encode_init
native_x264_encode_init-CameraFits c (v, a, q, p, s) = (new_video_encode-fits, a, q, p, s)

pub native_faac_encode_init-CameraFits :
    (c : Camera) → CameraFits c → CameraFits (native_faac_encode_init c)
unfolding native_faac_encode_init
native_faac_encode_init-CameraFits c (v, a, q, p, s) = (v, (omega arith, tt), q, p, s)

pub native_stop-CameraFits : (c : Camera) → CameraFits c → CameraFits (native_stop c)
unfolding native_stop
native_stop-CameraFits c h = h

pub native_rtmp_start-CameraFits :
    (url : List ℕ) (c : Camera) → CameraFits c → CameraFits (native_rtmp_start url c)
unfolding native_rtmp_start
native_rtmp_start-CameraFits url c h = if_both CameraFits c.tried h h

module _ (c : Camera) (h : CameraFits c) where
  pub native_faac_encode_open-CameraFits :
      (o : Opened) (sample_rate channel_count : ℕ)
      → Ensures (λ r. CameraFits r.1) (native_faac_encode_open o sample_rate channel_count c)
  unfolding native_faac_encode_open
  native_faac_encode_open-CameraFits o sample_rate channel_count = by_audio c.audio h.1
    where
      by_audio :
          (audio : Option AudioEncode)
          → EncoderFits audio
          → Ensures {A = Option ℕ × Camera}
              (λ r. CameraFits r.1)
              (elim audio [
                | none ↦ done (none, c)
                | some e ↦ do
                  e' ← open_faac_encode o sample_rate channel_count e
                  size ← get_input_data_size e'
                  done (some size, record c { audio = some e' })
              ])
      by_audio none fits = returns h
      by_audio (some e) fits =
          Ensures-bind (open_faac_encode-AudioFits o sample_rate channel_count e fits) λ e' fits'.
            Ensures-bind (Ensures-any (get_input_data_size e'))
              λ size _. returns ((h.0, fits', h.2, h.3, h.4))

  pub native_x264_encode_open-CameraFits :
      (o : Opening) (width height fps bit_rate : ℕ)
      → Ensures CameraFits (native_x264_encode_open o width height fps bit_rate c)
  unfolding native_x264_encode_open
  native_x264_encode_open-CameraFits o width height fps bit_rate = by_video c.video h.0
    where
      by_video :
          (video : Option VideoEncode)
          → VideoFits video
          → Ensures CameraFits (elim video [
            | none ↦ done c
            | some e ↦ do
              (ret, e') ← init_and_open o width height fps bit_rate e
              done (record c { video = some e' })
          ])
      by_video none fits = returns h
      by_video (some e) fits =
          Ensures-bind (init_and_open-fits o width height fps bit_rate e fits)
            λ r fits'. returns ((fits', h.1, h.2, h.3, h.4))

  pub release_packet-CameraFits : CameraFits (release_packet c)
  unfolding release_packet
  release_packet-CameraFits = by_packet c.packet
    where
      by_packet :
          (packet : Option Packet)
          → CameraFits (elim packet [
            | none ↦ c
            | some p ↦ record c { packet = none; calls = c.calls ++ (frees_packet ∷ []) }
          ])
      by_packet none = h
      by_packet (some p) =
          (h.0, h.1, h.2, tt, SendsPackets-append c.calls (frees_packet ∷ []) h.4 (tt, tt))

  pub close_rtmp-CameraFits : CameraFits (close_rtmp c)
  unfolding close_rtmp
  close_rtmp-CameraFits = by_rtmp c.rtmp
    where
      by_rtmp :
          (rtmp : Option Rtmp)
          → CameraFits (elim rtmp [
            | none ↦ c
            | some r ↦ record c { rtmp = none; calls = c.calls ++ (closes ∷ frees ∷ []) }
          ])
      by_rtmp none = h
      by_rtmp (some r) =
          (h.0, h.1, h.2, h.3, SendsPackets-append c.calls (closes ∷ frees ∷ []) h.4 (tt, (tt, tt)))

delete_video-HoldsPackets :
    (o : Option VideoEncode) (s : Shared)
    → VideoFits o
    → HoldsPackets s.queue
    → Ensures (λ s'. HoldsPackets s'.queue) (delete_video o s)
unfolding delete_video
delete_video-HoldsPackets none s start held = returns held
delete_video-HoldsPackets (some e) s start held =
    Ensures-bind {Q = λ s'. HoldsPackets s'.queue} (destroy-StateFits (e, s) (start, held))
      λ r held'. returns held'

pub native_release-CameraFits : (c : Camera) → CameraFits c → Ensures CameraFits (native_release c)
unfolding native_release free_video free_audio
native_release-CameraFits c h =
    let k = close_rtmp-CameraFits c h in
    Ensures-bind
      (Ensures-bind {Q = CameraFits}
        (delete_video-HoldsPackets (close_rtmp c).video (close_rtmp c).shared k.0 k.2)
        λ s held. returns ((tt, k.1, held, k.3, k.4)))
      λ c' k'.
        Ensures-bind
          (Ensures-bind {Q = CameraFits} (Ensures-any (delete_audio c'.audio))
            λ gone _. returns ((k'.0, tt, k'.2, k'.3, k'.4)))
          λ c'' k''. returns k''

module _ (alloc : PacketAlloc) (memory : (n : ℕ) → BufferOf n (alloc n)) (clock : Clock) where
  pub native_send_preview_data-CameraFits :
      (compress : Planes → List Nal) (junk junk' frame : List ℕ) (c : Camera)
      → ((p : Planes) → UnitsFit (compress p))
      → AreBytes junk
      → AreBytes junk'
      → CameraFits c
      → Ensures CameraFits (native_send_preview_data alloc clock compress junk junk' frame c)
  unfolding native_send_preview_data
  native_send_preview_data-CameraFits compress junk junk' frame c makes bytes bytes' h =
      by_video c.video h.0
    where
      by_video :
          (video : Option VideoEncode)
          → VideoFits video
          → Ensures CameraFits (encode_video alloc clock compress junk junk' frame video c)
      by_video none start = returns h
      by_video (some e) start = Ensures-if (not c.pushing) (returns h) (
          Ensures-bind
            (encode_data-StateFits alloc memory clock compress (locals junk junk') frame
              (e, c.shared) makes (bytes, bytes') (start, h.2))
            λ r k. returns ((k.0, h.1, k.1, h.3, h.4)))

  pub send_audio_pcm_data-CameraFits :
      (compress : List ℕ → ℕ → List ℕ) (pcm : List ℕ) (n : ℕ) (c : Camera)
      → AreBytes (compress pcm n)
      → CameraFits c
      → Ensures CameraFits (send_audio_pcm_data alloc clock compress pcm n c)
  unfolding send_audio_pcm_data
  send_audio_pcm_data-CameraFits compress pcm n c made h = by_audio c.audio h.1
    where
      by_audio :
          (audio : Option AudioEncode)
          → EncoderFits audio
          → Ensures CameraFits (encode_audio alloc clock compress pcm n audio c)
      by_audio none fits = returns h
      by_audio (some e) fits = Ensures-if (not c.pushing) (returns h) (
          Ensures-bind
            (encode-StateFits alloc memory clock compress pcm n (e, c.shared) made (fits, h.2))
            λ r k. returns ((h.0, k.0, k.1, h.3, h.4)))
