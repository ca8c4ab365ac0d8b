-- ===== src/AudioEncode/Packed.antt =====
-- Whatever an encoder of cpp/x264/FAACAudioEncode.cpp is given, it queues packets whose fields fit.
use android_study_rtmp_avcod.Common.{
  ℕ, zero, suc, ◌^◌, ◌<◌, inl, inr, refl, ◌&&◌, Option, none, some, List, arith, ◌==◌, ltb, sub32,
  length, put, assigned, deref, Bool_cases, store, Ensures, returns, faults, Ensures-bind,
  Ensures-if, Ensures-any, AreBytes, IsBuffer, store-Ensures, put-Ensures,
}
use android_study_rtmp_avcod.Rtmp.{PacketAlloc}
use android_study_rtmp_avcod.Session.{Clock, get_time}
use android_study_rtmp_avcod.Packing.Packed.{BufferOf, audio_body-IsPacked}
use android_study_rtmp_avcod.Packing.Typed.{packet_of-IsPacket, HoldsPackets}
use android_study_rtmp_avcod.VideoEncode.{non_null}
use android_study_rtmp_avcod.VideoEncode.Queueing.{both_set}
use android_study_rtmp_avcod.VideoEncode.Packed.{push_packet-HoldsPackets, sub32-fits}
use android_study_rtmp_avcod.AudioEncode.{
  AudioEncode, State, Opened, calloc, open_faac_encode, note_start, queue_aac_data, encode,
  queue_acc_data_header,
}

-- The buffer of an encoder, if it has one, holds as many bytes as faac was said to make at most.
abbrev pub HasRoom : Option ℕ → Option (List ℕ) → Type 0
HasRoom max none = Unit {0}
HasRoom none (some b) = ⊥
HasRoom (some n) (some b) = IsBuffer n b

abbrev pub AudioFits : AudioEncode → Type 0
AudioFits e = (e.start_time < 2 ^ 32) × HasRoom e.max_bytes e.encoded_data

abbrev pub StateFits : State → Type 0
StateFits (e, s) = AudioFits e × HoldsPackets s.queue

pub calloc-IsBuffer : (n : ℕ) → IsBuffer n (calloc n)
calloc-IsBuffer zero = (tt, refl)
calloc-IsBuffer (suc n) =
    let (bytes, same) = calloc-IsBuffer n in ((omega arith, bytes), omega (arith, same))

pub open_faac_encode-AudioFits :
    (o : Opened) (sample_rate channel_count : ℕ) (e : AudioEncode)
    → AudioFits e
    → Ensures AudioFits (open_faac_encode o sample_rate channel_count e)
unfolding open_faac_encode
open_faac_encode-AudioFits o sample_rate channel_count e (start, room) =
    Ensures-if o.configuration (returns (start, calloc-IsBuffer o.max_bytes)) faults

note_start-StateFits : (clock : Clock) (st : State) → StateFits st → StateFits (note_start clock st)
note_start-StateFits clock (e, s) h = elim (Bool_cases (e.start_time == 0)) [
  | inl unset ↦ rw unset ((omega arith, h.0.1), h.1)
  | inr set ↦ rw set h
]

marks-IsBuffer :
    (v : ℕ) → v < 256 → (n : ℕ) (b : List ℕ) → IsBuffer n b → Ensures (IsBuffer n) (store b 1 v)
marks-IsBuffer v small n b h = store-Ensures b 1 v h small

non_null-HasRoom :
    (max : Option ℕ) (o : Option (List ℕ))
    → HasRoom max o
    → Ensures (λ b. HasRoom max (some b)) (non_null o)
non_null-HasRoom max none h = faults
non_null-HasRoom max (some b) h = returns h

put-HasRoom :
    (max : Option ℕ) (b vs : List ℕ)
    → HasRoom max (some b)
    → AreBytes vs
    → Ensures (λ r. HasRoom max (some r.0)) (put b 0 vs)
put-HasRoom none b vs h bytes = absurd h
put-HasRoom (some n) b vs h bytes = put-Ensures b 0 vs h bytes

HasRoom-bytes : (max : Option ℕ) (b : List ℕ) → HasRoom max (some b) → AreBytes b
HasRoom-bytes none b h = absurd h
HasRoom-bytes (some n) b h = h.0

-- What faac gives as its header, if anything.
abbrev pub HeaderFits : Option (List ℕ) → Type 0
HeaderFits none = Unit {0}
HeaderFits (some input) = AreBytes input

assigned-bytes : (o : Option (List ℕ)) → HeaderFits o → Ensures AreBytes (assigned o)
assigned-bytes none h = faults
assigned-bytes (some input) h = returns h

module _ (alloc : PacketAlloc) (memory : (n : ℕ) → BufferOf n (alloc n)) (clock : Clock) where
  queue_aac_data-StateFits :
      (input : List ℕ) (len : ℕ) (st : State)
      → AreBytes input
      → StateFits st
      → Ensures StateFits (queue_aac_data alloc clock input len st)
  unfolding queue_aac_data
  queue_aac_data-StateFits input len (e, s) bytes (fits, held) =
      Ensures-bind (Ensures-any (both_set e.rtmp e.queue)) λ usable _.
        Ensures-if usable
          (Ensures-bind
            (audio_body-IsPacked alloc memory (λ b. store b 1 0x01) input len
              (marks-IsBuffer 0x01 (omega arith)) bytes)
            λ r packed. Ensures-bind (Ensures-any (deref e.rtmp)) λ rtmp _.
              let (now, s') = get_time clock s in
              Ensures-bind
                (push_packet-HoldsPackets _ s'
                  (packet_of-IsPacket 0 8 11 (sub32 now e.start_time) rtmp.stream_id r (omega arith)
                    (inl refl) (omega arith, omega arith) (sub32-fits now e.start_time) packed)
                  held)
                λ s'' held'. returns (fits, held'))
          (returns (fits, held))

  pub encode-StateFits :
      (compress : List ℕ → ℕ → List ℕ) (pcm : List ℕ) (n : ℕ) (st : State)
      → AreBytes (compress pcm n)
      → StateFits st
      → Ensures StateFits (encode alloc clock compress pcm n st)
  unfolding encode
  encode-StateFits compress pcm n (e, s) made (fits, held) =
      Ensures-if e.encoder
        (Ensures-bind (non_null-HasRoom e.max_bytes e.encoded_data fits.1) λ buffer room.
          Ensures-bind (Ensures-any (assigned e.max_bytes)) λ max _.
            Ensures-bind (put-HasRoom e.max_bytes buffer (compress pcm n) room made) λ r kept.
              Ensures-if (ltb 0 (length (compress pcm n)))
                (queue_aac_data-StateFits r.0 (length (compress pcm n))
                  (note_start clock (record e { encoded_data = some r.0 }, s))
                  (HasRoom-bytes e.max_bytes r.0 kept)
                  (note_start-StateFits clock (record e { encoded_data = some r.0 }, s)
                    ((fits.0, kept), held)))
                (returns ((fits.0, kept), held)))
        (returns (fits, held))

  pub queue_acc_data_header-StateFits :
      (header : Option (List ℕ)) (st : State)
      → HeaderFits header
      → StateFits st
      → Ensures StateFits (queue_acc_data_header alloc clock header st)
  unfolding queue_acc_data_header
  queue_acc_data_header-StateFits header (e, s) bytes (fits, held) =
      Ensures-bind (Ensures-any (both_set e.rtmp e.queue)) λ usable _.
        Ensures-if (usable && e.encoder)
          (Ensures-bind (assigned-bytes header bytes) λ input more.
            Ensures-bind
              (audio_body-IsPacked alloc memory (λ b. store b 1 0x00) input (length input)
                (marks-IsBuffer 0x00 (omega arith)) more)
              λ r packed. Ensures-bind (Ensures-any (deref e.rtmp)) λ rtmp _.
                let started = note_start clock (e, s) in
                let (fits', held') = note_start-StateFits clock (e, s) (fits, held) in
                Ensures-bind
                  (push_packet-HoldsPackets _ started.1
                    (packet_of-IsPacket 1 8 11 0 rtmp.stream_id r (omega arith) (inl refl)
                      (omega arith, omega arith) (omega arith) packed)
                    held')
                  λ s'' held''. returns (fits', held''))
          (returns (fits, held))
