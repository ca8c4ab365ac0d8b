-- ===== src/Camera/World/Steps.antt =====
-- The steps of a sending thread of cpp/x264/Camera2ToolNative.cpp: each keeps the fields of all packets
-- fitting.
use android_study_rtmp_avcod.Common.{
  ℕ, Option, none, some, List, [], ◌∷◌, ◌++◌, Run, done, ◌>>=◌, ◌==◌, Ensures, returns, faults,
  Ensures-bind, if_both, Ensures-if, Ensures-any,
}
use android_study_rtmp_avcod.Rtmp.{Packet, Call, allocates, sends, Answers, PacketAlloc}
use android_study_rtmp_avcod.SafeQueue.{SafeQueue, take_front, is_empty, try_pop, set_work}
use android_study_rtmp_avcod.Session.{Clock}
use android_study_rtmp_avcod.Packing.Packed.{BufferOf}
use android_study_rtmp_avcod.Packing.Typed.{
  ArePackets, SendsPackets, SendsPackets-append, HoldsPackets,
}
use android_study_rtmp_avcod.VideoEncode.{VideoEncode, non_null}
use android_study_rtmp_avcod.AudioEncode.{AudioEncode}
use android_study_rtmp_avcod.AudioEncode.Packed.{HeaderFits, queue_acc_data_header-StateFits}
use android_study_rtmp_avcod.Camera.{Camera, release_packet}
use android_study_rtmp_avcod.Camera.World.Calls.{
  VideoFits, EncoderFits, InHand, CameraFits, release_packet-CameraFits, close_rtmp-CameraFits,
}
use android_study_rtmp_avcod.Camera.Thread.{
  Position, starting, introducing, allowing, waking, attaching_video, attaching_audio, heading,
  testing, taking, checking, leaving, ending, finished, try_connect, go_on, start, introduce,
  attach_video, attach_audio, queue_header, to_position, check, popped, take, thread_step,
}

-- What a step leaves, if the thread does not wait.
abbrev pub StepFits : Option (Position × Camera) → Type 0
StepFits none = Unit {0}
StepFits (some r) = CameraFits r.1

video-VideoFits :
    (o : Option VideoEncode) → VideoFits o → Ensures (λ e. VideoFits (some e)) (non_null o)
video-VideoFits none h = faults
video-VideoFits (some e) h = returns h

audio-EncoderFits :
    (o : Option AudioEncode) → EncoderFits o → Ensures (λ e. EncoderFits (some e)) (non_null o)
audio-EncoderFits none h = faults
audio-EncoderFits (some e) h = returns h

to_position-StepFits :
    (p : Position) (run : Run Camera)
    → Ensures CameraFits run
    → Ensures StepFits (to_position p run)
to_position-StepFits p run h = Ensures-bind h λ c k. returns k

try_connect-SendsPackets : (a : Answers) (url : List ℕ) → SendsPackets (try_connect a url).0
unfolding try_connect
try_connect-SendsPackets a url =
    if_both Fits a.url_accepted
      (if_both Fits a.connected (tt, (tt, (tt, (tt, (tt, (tt, tt))))))
        (tt, (tt, (tt, (tt, (tt, tt))))))
      (tt, (tt, (tt, tt)))
  where
    Fits : List Call × Option ℕ → Type 0
    Fits r = SendsPackets r.0

-- What `pop` gives, if it does not wait.
abbrev pub PoppedFits : Option (Option Packet × SafeQueue Packet) → Type 0
PoppedFits none = Unit {0}
PoppedFits (some r) = InHand r.0 × HoldsPackets r.1

take_front-PoppedFits :
    (q : SafeQueue Packet) (items : List Packet)
    → HoldsPackets q
    → ArePackets items
    → PoppedFits (some (take_front q items))
take_front-PoppedFits q [] h k = (tt, h)
take_front-PoppedFits q (p ∷ ps) h (a, k) = (a, (k, h.1))

popped-InHand : (value old : Option Packet) → InHand value → InHand old → InHand (popped value old)
popped-InHand none old h k = k
popped-InHand (some p) old h k = h

module _ (c : Camera) (h : CameraFits c) where
  start-CameraFits : (a : Answers) (url : List ℕ) → CameraFits (start a url c).1
  unfolding start
  start-CameraFits a url =
      if_both Fits a.allocated
        (opens (try_connect a url).0 (try_connect a url).1 (try_connect-SendsPackets a url))
        (h.0, h.1, h.2, h.3, SendsPackets-append c.calls (allocates ∷ []) h.4 (tt, tt))
    where
      Fits : Position × Camera → Type 0
      Fits r = CameraFits r.1

      opens :
          (calls : List Call) (stream : Option ℕ)
          → SendsPackets calls
          → CameraFits (go_on calls stream c).1
      opens calls none sent =
          (h.0, h.1, h.2, h.3, SendsPackets-append c.calls (allocates ∷ calls) h.4 (tt, sent))
      opens calls (some id) sent =
          (h.0, h.1, h.2, h.3, SendsPackets-append c.calls (allocates ∷ calls) h.4 (tt, sent))

  introduce-CameraFits : Ensures CameraFits (introduce c)
  unfolding introduce
  introduce-CameraFits = Ensures-bind (video-VideoFits c.video h.0) λ video v.
      Ensures-bind (audio-EncoderFits c.audio h.1) λ audio a. returns (v, a, h.2, h.3, h.4)

  attach_video-CameraFits : Ensures CameraFits (attach_video c)
  unfolding attach_video
  attach_video-CameraFits =
      Ensures-bind (video-VideoFits c.video h.0) λ video v. returns (v, h.1, h.2, h.3, h.4)

  attach_audio-CameraFits : Ensures CameraFits (attach_audio c)
  unfolding attach_audio
  attach_audio-CameraFits =
      Ensures-bind (audio-EncoderFits c.audio h.1) λ audio a. returns (h.0, a, h.2, h.3, h.4)

  check-CameraFits : Ensures {A = Position × Camera} (λ r. CameraFits r.1) (check c)
  unfolding check
  check-CameraFits = Ensures-if c.tried (by_packet c.packet h.3) (returns h)
    where
      by_packet :
          (packet : Option Packet)
          → InHand packet
          → Ensures {A = Position × Camera}
              (λ r. CameraFits r.1)
              (elim packet [
                | none ↦ done (leaving, c)
                | some p ↦ non_null c.rtmp >>= λ r.
                    done (testing, release_packet (record c { calls = c.calls ++ (sends p ∷ []) }))
              ])
      by_packet none fits = returns h
      by_packet (some p) fits = Ensures-bind (Ensures-any (non_null c.rtmp)) λ r _. returns (
          release_packet-CameraFits (record c { calls = c.calls ++ (sends p ∷ []) })
            (h.0, h.1, h.2, h.3, SendsPackets-append c.calls (sends p ∷ []) h.4 (fits, tt)))

  take-StepFits :
      (o : Option (Option Packet × SafeQueue Packet)) → PoppedFits o → StepFits (take o c)
  take-StepFits none fits = tt
  take-StepFits (some (value, queue)) (fits, held) =
      (h.0, h.1, held, popped-InHand value c.packet fits h.3, h.4)

  try_pop-PoppedFits : PoppedFits (try_pop c.shared.queue)
  unfolding try_pop
  try_pop-PoppedFits =
      let fits = take_front-PoppedFits c.shared.queue c.shared.queue.items h.2 h.2.0 in
      if_both PoppedFits (c.shared.queue.work == 0) fits
        (if_both PoppedFits {x = none} (is_empty c.shared.queue.items) tt fits)

module _ (alloc : PacketAlloc) (memory : (n : ℕ) → BufferOf n (alloc n)) (clock : Clock) where
  queue_header-CameraFits :
      (header : Option (List ℕ)) (c : Camera)
      → HeaderFits header
      → CameraFits c
      → Ensures CameraFits (queue_header alloc clock header c)
  unfolding queue_header
  queue_header-CameraFits header c bytes h = Ensures-bind (audio-EncoderFits c.audio h.1) λ audio a.
      Ensures-bind
        (queue_acc_data_header-StateFits alloc memory clock header (audio, c.shared) bytes (a, h.2))
        λ r k. returns (h.0, k.0, k.1, h.3, h.4)

  pub thread_step-StepFits :
      (a : Answers) (header : Option (List ℕ)) (p : Position) (c : Camera)
      → HeaderFits header
      → CameraFits c
      → Ensures StepFits (thread_step alloc clock a header p c)
  unfolding thread_step set_work
  thread_step-StepFits a header (starting url) c bytes h = returns (start-CameraFits c h a url)
  thread_step-StepFits a header introducing c bytes h =
      to_position-StepFits allowing _ (introduce-CameraFits c h)
  thread_step-StepFits a header allowing c bytes h = returns h
  thread_step-StepFits a header waking c bytes h = returns h
  thread_step-StepFits a header attaching_video c bytes h =
      to_position-StepFits attaching_audio _ (attach_video-CameraFits c h)
  thread_step-StepFits a header attaching_audio c bytes h =
      to_position-StepFits heading _ (attach_audio-CameraFits c h)
  thread_step-StepFits a header heading c bytes h =
      to_position-StepFits testing _ (queue_header-CameraFits header c bytes h)
  thread_step-StepFits a header testing c bytes h = returns h
  thread_step-StepFits a header taking c bytes h =
      returns (take-StepFits c h _ (try_pop-PoppedFits c h))
  thread_step-StepFits a header checking c bytes h =
      Ensures-bind {Q = StepFits} (check-CameraFits c h) λ r k. returns k
  thread_step-StepFits a header leaving c bytes h = returns (release_packet-CameraFits c h)
  thread_step-StepFits a header ending c bytes h =
      returns (if_both CameraFits c.tried (close_rtmp-CameraFits c h) h)
  thread_step-StepFits a header finished c bytes h = returns tt
