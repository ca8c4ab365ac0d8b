-- ===== src/VideoEncode/Packed.antt =====
-- Whatever an encoder of cpp/x264/X264VideoEncode.cpp is given, it queues packets whose fields fit.
use android_study_rtmp_avcod.Common.{
  load, load_all, advance, sub_length, deref, is_set, ℕ, ◌+◌, ◌^◌, ◌<◌, inl, inr, refl, List, [],
  ◌∷◌, arith, ◌==◌, if◌then◌else◌, sub32, length, assigned, Bool_cases, mul_int, Ensures, returns,
  faults, Ensures-bind, Ensures-if, Ensures-any, AreBytes, advance-Ensures, copy-Ensures,
}
use android_study_rtmp_avcod.Rtmp.{Packet, PacketAlloc}
use android_study_rtmp_avcod.SafeQueue.{set_work}
use android_study_rtmp_avcod.Session.{Shared, Clock, get_time}
use android_study_rtmp_avcod.Packing.Packed.{BufferOf, frame_body-IsPacked, config_body-IsPacked}
use android_study_rtmp_avcod.Packing.Typed.{
  IsPacket, packet_of-IsPacket, HoldsPackets, push-HoldsPackets, clear-HoldsPackets,
}
use android_study_rtmp_avcod.VideoEncode.{
  VideoEncode, Planes, Opening, planes_of, non_null, new_video_encode, set_callback, init_and_open,
}
use android_study_rtmp_avcod.VideoEncode.Queueing.{
  State, Nal, Locals, push_packet, both_set, note_start, push_frame, queue_frame_packet,
  queue_sps_pps_packet, queue_nal, queue_nals, begin_frame, encode_data, destroy,
}

-- The encoder's time fits an `int`'s 32 bits, and packets alone are queued.
abbrev pub StateFits : State → Type 0
StateFits (e, s) = (e.start_time < 2 ^ 32) × HoldsPackets s.queue

abbrev pub LocalsFit : Locals → Type 0
LocalsFit b = AreBytes b.sps × AreBytes b.pps

abbrev pub UnitsFit : List Nal → Type 0
UnitsFit [] = Unit {0}
UnitsFit (nal ∷ nals) = AreBytes nal.payload × UnitsFit nals

pub push_packet-HoldsPackets :
    (p : Packet) (s : Shared)
    → IsPacket p
    → HoldsPackets s.queue
    → Ensures (λ s'. HoldsPackets s'.queue) (push_packet p s)
push_packet-HoldsPackets p s h held =
    Ensures-bind (push-HoldsPackets p s.queue h held) λ q k. returns k

pub sub32-fits : (a b : ℕ) → sub32 a b < 2 ^ 32
sub32-fits a b = omega arith

note_start-StateFits : (clock : Clock) (st : State) → StateFits st → StateFits (note_start clock st)
note_start-StateFits clock (e, s) h = elim (Bool_cases (e.start_time == 0)) [
  | inl unset ↦ rw unset (omega arith, h.1)
  | inr set ↦ rw set h
]

begin_frame-fits :
    (compress : Planes → List Nal) (frame : List ℕ) (e : VideoEncode)
    → ((p : Planes) → UnitsFit (compress p))
    → e.start_time < 2 ^ 32
    → Ensures (λ r. UnitsFit r.0 × (r.1.start_time < 2 ^ 32)) (begin_frame compress frame e)
unfolding begin_frame
begin_frame-fits compress frame e makes start =
    Ensures-bind (Ensures-any (non_null e.input)) λ old _.
      Ensures-bind (Ensures-any (assigned e.y_size)) λ size _.
        Ensures-bind (Ensures-any (assigned e.uv_size)) λ uv _.
          Ensures-bind (Ensures-any (load_all frame size)) λ y _.
            Ensures-bind (Ensures-any (advance frame size)) λ from_u _.
              Ensures-bind (Ensures-any (load_all from_u uv)) λ u _.
                Ensures-bind (Ensures-any (advance frame (size + uv))) λ from_v _.
                  Ensures-bind (Ensures-any (load_all from_v uv))
                    λ v _. Ensures-if e.encoder (returns (makes (planes_of y u v), start)) faults

module _ (alloc : PacketAlloc) (memory : (n : ℕ) → BufferOf n (alloc n)) (clock : Clock) where
  queue_sps_pps_packet-StateFits :
      (sps pps : List ℕ) (m n : ℕ) (st : State)
      → AreBytes sps
      → AreBytes pps
      → StateFits st
      → Ensures StateFits (queue_sps_pps_packet alloc sps pps m n st)
  unfolding queue_sps_pps_packet
  queue_sps_pps_packet-StateFits sps pps m n (e, s) bytes more (start, held) =
      Ensures-bind (Ensures-any (both_set e.queue e.rtmp)) λ usable _.
        Ensures-if usable
          (Ensures-bind (config_body-IsPacked alloc memory sps pps m n bytes more) λ r packed.
            Ensures-bind (Ensures-any (deref e.rtmp)) λ rtmp _.
              Ensures-bind
                (push_packet-HoldsPackets _ s
                  (packet_of-IsPacket 1 9 10 0 rtmp.stream_id r (omega arith) (inr refl)
                    (omega arith, omega arith) (omega arith) packed)
                  held)
                λ s' held'. returns (start, held'))
          (returns (start, held))

  push_frame-StateFits :
      (payload : List ℕ) (len now : ℕ) (st : State)
      → AreBytes payload
      → StateFits st
      → Ensures StateFits (push_frame alloc payload len now st)
  unfolding push_frame
  push_frame-StateFits payload len now (e, s) bytes (start, held) =
      Ensures-bind (Ensures-any (load payload 2)) λ third _.
        Ensures-bind (advance-Ensures payload (if third == 0x00 then 4 else 3) bytes) λ nal more.
          Ensures-bind (Ensures-any (sub_length len (if third == 0x00 then 4 else 3))) λ n _.
            Ensures-bind (frame_body-IsPacked alloc memory nal n more) λ r packed.
              Ensures-bind (Ensures-any (deref e.rtmp)) λ rtmp _.
                Ensures-bind
                  (push_packet-HoldsPackets _ s
                    (packet_of-IsPacket 0 9 10 (sub32 now e.start_time) rtmp.stream_id r
                      (omega arith) (inr refl) (omega arith, omega arith)
                      (sub32-fits now e.start_time) packed)
                    held)
                  λ s' held'. returns (start, held')

  queue_frame_packet-StateFits :
      (payload : List ℕ) (len : ℕ) (st : State)
      → AreBytes payload
      → StateFits st
      → Ensures StateFits (queue_frame_packet alloc clock payload len st)
  unfolding queue_frame_packet
  queue_frame_packet-StateFits payload len (e, s) bytes h =
      let started = note_start clock (e, s) in
      Ensures-bind (Ensures-any (both_set e.queue e.rtmp)) λ usable _.
        Ensures-if usable
          (push_frame-StateFits payload len (get_time clock started.1).0
            (started.0, (get_time clock started.1).1) bytes (note_start-StateFits clock (e, s) h))
          (returns h)

  -- One round of the loop over the units.
  queue_nal-StateFits :
      (nal : Nal) (b : Locals) (st : State)
      → AreBytes nal.payload
      → LocalsFit b
      → StateFits st
      → Ensures (λ r. LocalsFit r.0 × StateFits r.1) (queue_nal alloc clock nal (b, st))
  unfolding queue_nal
  queue_nal-StateFits nal b st bytes (sps, pps) h =
      Ensures-if (nal.kind == 7)
        (Ensures-bind (Ensures-any (sub_length (length nal.payload) 4)) λ n _.
          Ensures-bind (advance-Ensures nal.payload 4 bytes) λ from more.
            Ensures-bind (copy-Ensures b.sps 0 from n (sps, refl) more)
              λ r k. returns ((k.0, pps), h))
        (Ensures-if (nal.kind == 8)
          (Ensures-bind (Ensures-any (sub_length (length nal.payload) 4)) λ n _.
            Ensures-bind (advance-Ensures nal.payload 4 bytes) λ from more.
              Ensures-bind (copy-Ensures b.pps 0 from n (pps, refl) more) λ r k.
                Ensures-bind (Ensures-any (assigned b.sps_length)) λ m _.
                  Ensures-bind (queue_sps_pps_packet-StateFits b.sps r.0 m n st sps k.0 h)
                    λ st' h'. returns ((sps, k.0), h'))
          (Ensures-bind (queue_frame_packet-StateFits nal.payload (length nal.payload) st bytes h)
            λ st' h'. returns ((sps, pps), h')))

  queue_nals-StateFits :
      (nals : List Nal) (b : Locals) (st : State)
      → UnitsFit nals
      → LocalsFit b
      → StateFits st
      → Ensures StateFits (queue_nals alloc clock nals (b, st))
  unfolding queue_nals
  queue_nals-StateFits [] b st bytes fit h = returns h
  queue_nals-StateFits (nal ∷ nals) b st (first, bytes) fit h =
      Ensures-bind (queue_nal-StateFits nal b st first fit h)
        λ r k. queue_nals-StateFits nals r.0 r.1 bytes k.0 k.1

  pub encode_data-StateFits :
      (compress : Planes → List Nal) (b : Locals) (frame : List ℕ) (st : State)
      → ((p : Planes) → UnitsFit (compress p))
      → LocalsFit b
      → StateFits st
      → Ensures StateFits (encode_data alloc clock compress b frame st)
  unfolding encode_data
  encode_data-StateFits compress b frame (e, s) makes fit (start, held) =
      Ensures-bind (begin_frame-fits compress frame e makes start)
        λ r k. queue_nals-StateFits r.0 b (r.1, s) k.0 fit (k.1, held)

pub destroy-StateFits :
    (st : State) → StateFits st → Ensures (λ r. HoldsPackets r.1.queue) (destroy st)
unfolding destroy set_work
destroy-StateFits (e, s) (start, held) = Ensures-bind (Ensures-any (is_set e.rtmp)) λ has_rtmp _.
    Ensures-bind (Ensures-any (is_set e.queue)) λ has_queue _.
      Ensures-bind
        (Ensures-if has_queue (clear-HoldsPackets (set_work 0 s.queue) held) (returns held))
        λ q held'. Ensures-bind (Ensures-any (is_set e.callback)) λ has_callback _. returns held'

pub new_video_encode-fits : (set_callback new_video_encode).start_time < 2 ^ 32
unfolding set_callback
new_video_encode-fits = omega arith

pub init_and_open-fits :
    (o : Opening) (w h fps bit_rate : ℕ) (e : VideoEncode)
    → e.start_time < 2 ^ 32
    → Ensures (λ r. r.1.start_time < 2 ^ 32) (init_and_open o w h fps bit_rate e)
unfolding init_and_open
init_and_open-fits o w h fps bit_rate e start =
    Ensures-bind (Ensures-any (mul_int w h))
      λ size _. Ensures-bind (Ensures-any (mul_int fps 2)) λ gop _. returns start
