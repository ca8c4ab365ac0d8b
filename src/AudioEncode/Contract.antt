-- ===== src/AudioEncode/Contract.antt =====
-- What the queue gets of an audio buffer, and of the header.
use mathlib.Core.Path.{subst}
use android_study_rtmp_avcod.Common.{
  ℕ, ◌+◌, ◌^◌, ◌≤◌, ◌<◌, ◌≡◌, refl, sym, ap, true, false, some, List, [], ◌∷◌, ◌++◌, arith, length,
  drop, done, to, store, sub32, ◌==◌, put-part, lt→ltb, Bool_cases, inl, inr, ◌>>=◌,
}
use android_study_rtmp_avcod.Rtmp.{
  Packet, Rtmp, PacketAlloc, Allocates, packet_of, packet_type_audio, packet_size_large,
  packet_size_medium,
}
use android_study_rtmp_avcod.Flv.{aac_frame, aac_config, read_audio}
use android_study_rtmp_avcod.Delivery.{deliver, message-audio}
use android_study_rtmp_avcod.Session.{Shared, Clock, get_time}
use android_study_rtmp_avcod.Packing.Whole.{audio_body_part, audio_body_whole}
use android_study_rtmp_avcod.VideoEncode.Queueing.{both_set}
use android_study_rtmp_avcod.VideoEncode.Units.{queued, push_packet_works}
use android_study_rtmp_avcod.AudioEncode.{
  AudioEncode, State, note_start, queue_aac_data, encode, queue_acc_data_header,
}

-- The encoder has been given a queue that works and a connection.
pub record IsUsable (r : Rtmp) (e : AudioEncode) (s : Shared) : Type 0 where
  pub has_queue : e.queue ≡ to tt
  pub has_rtmp : e.rtmp ≡ to r
  pub works : (s.queue.work == 0) ≡ false

usable-both_set :
    {r : Rtmp} {e : AudioEncode} {s : Shared} → IsUsable r e s → both_set e.rtmp e.queue ≡ done true
unfolding both_set
usable-both_set v = rw (v.has_rtmp, v.has_queue)

note_start-IsUsable :
    (clock : Clock) (r : Rtmp) (e : AudioEncode) (s : Shared)
    → IsUsable r e s
    → IsUsable r (note_start clock (e, s)).0 (note_start clock (e, s)).1
note_start-IsUsable clock r e s v = elim (Bool_cases (e.start_time == 0)) [
  | inl not_noted ↦
      rw not_noted (record { has_queue = v.has_queue; has_rtmp = v.has_rtmp; works = v.works })
  | inr noted ↦ rw noted v
]

-- Noting the start changes the encoder in nothing else, and leaves the queue alone.
module _ (alloc : PacketAlloc) (clock : Clock) (memory : (n : ℕ) → Allocates alloc n)
    (r : Rtmp) where
  -- The packet of one audio buffer.
  abbrev pub audio_packet : ℕ → ℕ → ℕ → List ℕ → Packet
  audio_packet header time kind input =
      packet_of header packet_type_audio 11 time r.stream_id (length input + 2)
        (0xaf ∷ kind ∷ input)

  queue_aac_data_queues :
      (input junk : List ℕ) (e : AudioEncode) (s : Shared)
      → IsUsable r e s
      → length input < 2 ^ 30
      → let (now, s') = get_time clock s in
        queue_aac_data alloc clock (input ++ junk) (length input) (e, s)
        ≡ done (e, queued (audio_packet packet_size_large (sub32 now e.start_time) 0x01 input) s')
  unfolding queue_aac_data
  queue_aac_data_queues input junk e s v small =
      rw
        (
          usable-both_set v,
          audio_body_part alloc (λ b. store b 1 0x01) 0x01 input junk (λ b. refl) (omega arith)
              (memory _),
        )
        (simp (
          v.has_rtmp,
          push_packet_works
              (audio_packet packet_size_large (sub32 (get_time clock s).0 e.start_time) 0x01 input)
              (get_time clock s).1 v.works,
        ))

  -- `encode` queues one packet on channel 11, from which a server reads the frame `aac`; `kept` is then
  -- in the encoder's buffer. Its time is counted, modulo 2 ^ 32, from the start, which is the first
  -- reading of the clock if none was noted.
  unfoldable pub QueuesFrame :
      (compress : List ℕ → ℕ → List ℕ) (pcm : List ℕ) (n : ℕ) (aac kept : List ℕ) → State → Type 0
  QueuesFrame compress pcm n aac kept (e, s) =
      let started = note_start clock (record e { encoded_data = some kept }, s) in
      let (now, s') = get_time clock started.1 in
      (packet : Packet) × (encode alloc clock compress pcm n (e, s)
        ≡ done (started.0, queued packet s'))
      × (deliver packet ≡ record {
        channel = 11;
        time = sub32 now started.0.start_time;
        stream = r.stream_id;
        message = some (aac_frame aac);
      })

  opened_queues :
      (compress : List ℕ → ℕ → List ℕ) (pcm : List ℕ) (n b max : ℕ) (bs buffer : List ℕ)
      (e : AudioEncode) (s : Shared)
      → IsUsable r e s
      → compress pcm n ≡ b ∷ bs
      → length (b ∷ bs) ≤ length buffer
      → length (b ∷ bs) < 2 ^ 30
      → QueuesFrame compress pcm n
          (b ∷ bs)
          ((b ∷ bs) ++ drop (length (b ∷ bs)) buffer)
          (record e { encoder = true; encoded_data = some buffer; max_bytes = some max }, s)
  unfolding encode read_audio QueuesFrame
  opened_queues compress pcm n b max bs buffer e s v made fits small = (
    packet,
    rw (made, put-part [] buffer (b ∷ bs) 0 refl fits, lt→ltb 0 (length (b ∷ bs)) (omega arith))
        (queue_aac_data_queues (b ∷ bs) (drop (length (b ∷ bs)) buffer) started.0 started.1
          (record { has_queue = u.has_queue; has_rtmp = u.has_rtmp; works = u.works }) small),
    ap
        (λ m. record {
          channel = 11;
          time = sub32 now started.0.start_time;
          stream = r.stream_id;
          message = m;
        })
        (message-audio packet refl (omega arith) refl),
  )
    where
      e' : AudioEncode
      e' = record e {
        encoder = true;
        max_bytes = some max;
        encoded_data = some ((b ∷ bs) ++ drop (length (b ∷ bs)) buffer);
      }

      started : State
      started = note_start clock (e', s)

      u : IsUsable r started.0 started.1
      u =
          note_start-IsUsable clock r e' s
            (record { has_queue = v.has_queue; has_rtmp = v.has_rtmp; works = v.works })

      now : ℕ
      now = (get_time clock started.1).0

      packet : Packet
      packet = audio_packet packet_size_large (sub32 now started.0.start_time) 0x01 (b ∷ bs)

  -- What an open faac makes of a buffer of samples is queued, if it is not empty, fits the buffer of
  -- the encoder, and has fewer than 2 ^ 30 bytes, and if the encoder was given a queue that works and a
  -- connection.
  pub encode-QueuesFrame :
      (compress : List ℕ → ℕ → List ℕ) (pcm : List ℕ) (n b max : ℕ) (bs buffer : List ℕ)
      (e : AudioEncode) (s : Shared)
      → IsUsable r e s
      → e.encoder ≡ true
      → e.encoded_data ≡ some buffer
      → e.max_bytes ≡ some max
      → compress pcm n ≡ b ∷ bs
      → length (b ∷ bs) ≤ length buffer
      → length (b ∷ bs) < 2 ^ 30
      → QueuesFrame compress pcm n (b ∷ bs) ((b ∷ bs) ++ drop (length (b ∷ bs)) buffer) (e, s)
  encode-QueuesFrame compress pcm n b max bs buffer e s v is_open has_buffer has_max made fits
        small =
      subst
        (λ k.
          QueuesFrame compress pcm n (b ∷ bs) ((b ∷ bs) ++ drop (length (b ∷ bs)) buffer) (k, s))
        whole (opened_queues compress pcm n b max bs buffer e s v made fits small)
    where
      whole : record e { encoder = true; encoded_data = some buffer; max_bytes = some max } ≡ e
      whole = λ i. record e {
        encoder = sym is_open i;
        encoded_data = sym has_buffer i;
        max_bytes = sym has_max i;
      }

  -- `queueAccDataHeader` queues one packet at time 0 on channel 11, from which a server reads the
  -- header `input`, and the start is noted if it was not.
  unfoldable pub QueuesHeader : List ℕ → State → Type 0
  QueuesHeader input (e, s) =
      let started = note_start clock (e, s) in
      (packet : Packet) × (queue_acc_data_header alloc clock (some input) (e, s)
        ≡ done (started.0, queued packet started.1))
      × (deliver packet ≡ record {
        channel = 11;
        time = 0;
        stream = r.stream_id;
        message = some (aac_config input);
      })

  opened-header :
      (input : List ℕ) (e : AudioEncode) (s : Shared)
      → (s.queue.work == 0) ≡ false
      → length input < 2 ^ 30
      → QueuesHeader input (record e { encoder = true; queue = to tt; rtmp = to r }, s)
  unfolding queue_acc_data_header read_audio QueuesHeader both_set
  opened-header input e s works small = (
    packet,
    rw
        (audio_body_whole alloc (λ b. store b 1 0x00) 0x00 input (λ b. refl) (omega arith)
          (memory _))
        (ap (λ run. run >>= λ s'. done (started.0, s'))
          (push_packet_works packet started.1 u.works)),
    ap (λ m. record { channel = 11; time = 0; stream = r.stream_id; message = m })
        (message-audio packet refl (omega arith) refl),
  )
    where
      e' : AudioEncode
      e' = record e { encoder = true; queue = to tt; rtmp = to r }

      started : State
      started = note_start clock (e', s)

      u : IsUsable r started.0 started.1
      u =
          note_start-IsUsable clock r e' s
            (record { has_queue = refl; has_rtmp = refl; works = works })

      packet : Packet
      packet = audio_packet packet_size_medium 0 0x00 input

  -- The header of an open faac is queued, if it has fewer than 2 ^ 30 bytes and the encoder was given
  -- a queue that works and a connection.
  pub queue_acc_data_header-QueuesHeader :
      (input : List ℕ) (e : AudioEncode) (s : Shared)
      → IsUsable r e s
      → e.encoder ≡ true
      → length input < 2 ^ 30
      → QueuesHeader input (e, s)
  queue_acc_data_header-QueuesHeader input e s v is_open small =
      subst (λ k. QueuesHeader input (k, s)) whole (opened-header input e s v.works small)
    where
      whole : record e { encoder = true; queue = to tt; rtmp = to r } ≡ e
      whole = λ i. record e {
        encoder = sym is_open i;
        queue = sym v.has_queue i;
        rtmp = sym v.has_rtmp i;
      }
