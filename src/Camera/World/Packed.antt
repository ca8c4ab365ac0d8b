-- ===== src/Camera/World/Packed.antt =====
-- Whatever Java calls in cpp/x264/Camera2ToolNative.cpp, and however the sending threads take their turns:
-- the fields of every packet fit.
use android_study_rtmp_avcod.Common.{
  refl, ℕ, zero, suc, Option, none, some, List, [], ◌∷◌, Run, AreBytes, Ensures, returns,
  Ensures-bind, Ensures-weaken,
}
use android_study_rtmp_avcod.Rtmp.{Answers, PacketAlloc}
use android_study_rtmp_avcod.Session.{Clock}
use android_study_rtmp_avcod.Packing.Packed.{BufferOf}
use android_study_rtmp_avcod.Packing.Typed.{HoldsPackets, SendsPackets}
use android_study_rtmp_avcod.VideoEncode.{Planes}
use android_study_rtmp_avcod.VideoEncode.Packed.{UnitsFit}
use android_study_rtmp_avcod.AudioEncode.Packed.{HeaderFits}
use android_study_rtmp_avcod.Camera.{Camera}
use android_study_rtmp_avcod.Camera.Thread.{Position}
use android_study_rtmp_avcod.Camera.World.{
  World, Event, inits_video, inits_audio, stops, releases, opens_audio, opens_video, starts,
  brings_picture, brings_samples, turn, fresh, stepped, step_at, on_camera, act, act_all,
}
use android_study_rtmp_avcod.Camera.World.Calls.{
  CameraFits, InHand, native_x264_encode_init-CameraFits, native_faac_encode_init-CameraFits,
  native_stop-CameraFits, native_rtmp_start-CameraFits, native_faac_encode_open-CameraFits,
  native_x264_encode_open-CameraFits, native_release-CameraFits,
  native_send_preview_data-CameraFits, send_audio_pcm_data-CameraFits,
}
use android_study_rtmp_avcod.Camera.World.Steps.{StepFits, thread_step-StepFits}

-- The data that x264 and faac give, and the arrays on the stack, hold bytes.
abbrev pub GivesBytes : Event → Type 0
GivesBytes (brings_picture compress junk junk' frame) =
    ((p : Planes) → UnitsFit (compress p)) × AreBytes junk × AreBytes junk'
GivesBytes (brings_samples compress pcm n) = AreBytes (compress pcm n)
GivesBytes (turn a header number) = HeaderFits header
GivesBytes _ = Unit {0}

abbrev pub AllGiveBytes : List Event → Type 0
AllGiveBytes [] = Unit {0}
AllGiveBytes (e ∷ es) = GivesBytes e × AllGiveBytes es

-- The packets that are queued, in hand and sent fit, and the queue has no release callback.
abbrev pub PacketsFit : World → Type 0
PacketsFit w =
    HoldsPackets w.camera.shared.queue × InHand w.camera.packet × SendsPackets w.camera.calls

on_camera-CameraFits :
    (w : World) (run : Run Camera)
    → Ensures CameraFits run
    → Ensures (λ w'. CameraFits w'.camera) (on_camera w run)
on_camera-CameraFits w run h = Ensures-bind h λ c k. returns k

module _ (alloc : PacketAlloc) (memory : (n : ℕ) → BufferOf n (alloc n)) (clock : Clock) where
  stepped-CameraFits :
      (p : Position) (c : Camera) (o : Option (Position × Camera))
      → CameraFits c
      → StepFits o
      → CameraFits (stepped alloc clock p c o).1
  stepped-CameraFits p c none h k = h
  stepped-CameraFits p c (some r) h k = k

  step_at-CameraFits :
      (a : Answers) (header : Option (List ℕ)) (number : ℕ) (ps : List Position) (c : Camera)
      → HeaderFits header
      → CameraFits c
      → Ensures {A = List Position × Camera}
          (λ r. CameraFits r.1)
          (step_at alloc clock a header number ps c)
  step_at-CameraFits a header number [] c bytes h = returns h
  step_at-CameraFits a header zero (p ∷ ps) c bytes h =
      Ensures-bind (thread_step-StepFits alloc memory clock a header p c bytes h)
        λ o k. returns (stepped-CameraFits p c o h k)
  step_at-CameraFits a header (suc number) (p ∷ ps) c bytes h =
      Ensures-bind (step_at-CameraFits a header number ps c bytes h) λ r k. returns k

  act-CameraFits :
      (e : Event) (w : World)
      → GivesBytes e
      → CameraFits w.camera
      → Ensures (λ w'. CameraFits w'.camera) (act alloc clock e w)
  act-CameraFits inits_video w b h = returns (native_x264_encode_init-CameraFits w.camera h)
  act-CameraFits inits_audio w b h = returns (native_faac_encode_init-CameraFits w.camera h)
  act-CameraFits stops w b h = returns (native_stop-CameraFits w.camera h)
  act-CameraFits releases w b h = on_camera-CameraFits w _ (native_release-CameraFits w.camera h)
  act-CameraFits (opens_audio o sample_rate channel_count) w b h =
      Ensures-bind (native_faac_encode_open-CameraFits w.camera h o sample_rate channel_count)
        λ r k. returns k
  act-CameraFits (opens_video o width height fps bit_rate) w b h =
      on_camera-CameraFits w _
        (native_x264_encode_open-CameraFits w.camera h o width height fps bit_rate)
  act-CameraFits (starts url) w b h = returns (native_rtmp_start-CameraFits url w.camera h)
  act-CameraFits (brings_picture compress junk junk' frame) w (makes, bytes, bytes') h =
      on_camera-CameraFits w _ (
        native_send_preview_data-CameraFits alloc memory clock compress junk junk' frame w.camera
          makes bytes bytes' h)
  act-CameraFits (brings_samples compress pcm n) w made h =
      on_camera-CameraFits w _
        (send_audio_pcm_data-CameraFits alloc memory clock compress pcm n w.camera made h)
  act-CameraFits (turn a header number) w bytes h =
      Ensures-bind (step_at-CameraFits a header number w.threads w.camera bytes h) λ r k. returns k

  act_all-CameraFits :
      (es : List Event) (w : World)
      → AllGiveBytes es
      → CameraFits w.camera
      → Ensures (λ w'. CameraFits w'.camera) (act_all alloc clock es w)
  act_all-CameraFits [] w bytes h = returns h
  act_all-CameraFits (e ∷ es) w (b, bytes) h =
      Ensures-bind (act-CameraFits e w b h) λ w' k. act_all-CameraFits es w' bytes k

-- Whatever Java calls from the load of the library on, in whatever order and with whatever data, and
-- however any number of sending threads take their turns between these calls, if the allocator of
-- packets gives blocks of the announced size, and x264 and faac give bytes: after every sequence of them
-- that does not crash, every packet that is queued, in hand or was given to `RTMP_SendPacket` fits
-- librtmp's record. Its type is audio or video, its channel fits, its time has 32 bits, and its body has
-- exactly the announced size and holds bytes only. And the queue has no release callback.
pub act_all-PacketsFit :
    (alloc : PacketAlloc)
    → ((n : ℕ) → BufferOf n (alloc n))
    → (clock : Clock) (events : List Event) → AllGiveBytes events
    → Ensures PacketsFit (act_all alloc clock events fresh)
act_all-PacketsFit alloc memory clock events bytes =
    Ensures-weaken
      (act_all-CameraFits alloc memory clock events fresh bytes (tt, tt, (tt, refl), tt, tt))
      λ w h. (h.2, h.3, h.4)
