-- ===== src/VideoEncode/Units.antt =====
-- What the queue gets for one unit or one pair of parameter sets.
use android_study_rtmp_avcod.Common.{
  ℕ, suc, ◌+◌, ◌%◌, ◌^◌, ◌<◌, ◌≡◌, refl, ap, Bool, true, false, some, List, [], ◌∷◌, ◌++◌, arith,
  length, done, to, load, advance-append, sub_length_eq, ◌==◌, Bool_cases, inl, inr, sub32,
}
use android_study_rtmp_avcod.Rtmp.{
  Packet, Rtmp, PacketAlloc, Allocates, packet_of, packet_type_video, packet_size_large,
  packet_size_medium,
}
use android_study_rtmp_avcod.Flv.{avc_unit, avc_config, read_video}
use android_study_rtmp_avcod.Delivery.{deliver, message-video}
use android_study_rtmp_avcod.SafeQueue.{push}
use android_study_rtmp_avcod.Session.{Shared, Clock, get_time}
use android_study_rtmp_avcod.Packing.{frame_body, config_body}
use android_study_rtmp_avcod.Packing.Whole.{frame_body_whole, config_body_whole}
use android_study_rtmp_avcod.VideoEncode.{VideoEncode}
use android_study_rtmp_avcod.VideoEncode.Queueing.{
  both_set, push_packet, note_start, push_frame, queue_frame_packet, queue_sps_pps_packet,
}

-- The start codes of x264: four bytes or three.
abbrev pub start_code_of : Bool → List ℕ
start_code_of true = 0 ∷ 0 ∷ 0 ∷ 1 ∷ []
start_code_of false = 0 ∷ 0 ∷ 1 ∷ []

-- The encoder has been given a queue that works and a connection.
pub record IsUsable (r : Rtmp) (e : VideoEncode) (s : Shared) : Type 0 where
  pub has_queue : e.queue ≡ to tt
  pub has_rtmp : e.rtmp ≡ to r
  pub works : (s.queue.work == 0) ≡ false

usable-both_set :
    {r : Rtmp} {e : VideoEncode} {s : Shared} → IsUsable r e s → both_set e.queue e.rtmp ≡ done true
unfolding both_set
usable-both_set v = rw (v.has_queue, v.has_rtmp)

-- The queue with one packet more.
abbrev pub queued : Packet → Shared → Shared
queued p s = record s { queue = record s.queue { items = s.queue.items ++ (p ∷ []) } }

pub push_packet_works :
    (p : Packet) (s : Shared) → (s.queue.work == 0) ≡ false → push_packet p s ≡ done (queued p s)
unfolding push
push_packet_works p s w = simp w

push_frame_queues :
    (alloc : PacketAlloc) (long : Bool) (t : ℕ) (nal : List ℕ) (now : ℕ) (r : Rtmp)
    (e : VideoEncode) (s : Shared)
    → IsUsable r e s
    → length nal < 2 ^ 30
    → Allocates alloc (suc (length nal) + 9)
    → let p = start_code_of long ++ (t ∷ nal) in
      (packet : Packet) × (push_frame alloc p (length p) now (e, s) ≡ done (e, queued packet s))
      × (deliver packet ≡ record {
        channel = 10;
        time = sub32 now e.start_time;
        stream = r.stream_id;
        message = some (avc_unit (t == 0x65) (t ∷ nal));
      })
unfolding push_frame load
push_frame_queues alloc long t nal now r e s v small ok =
    built (frame_body_whole alloc t nal (omega arith) ok) long
  where
    built :
        (body : List ℕ) × (frame_body alloc (t ∷ nal) (suc (length nal)) ≡ done (length body, body))
          × (read_video body ≡ some (avc_unit (t == 0x65) (t ∷ nal)))
        → (long : Bool)
        → let p = start_code_of long ++ (t ∷ nal) in
          (packet : Packet) × (push_frame alloc p (length p) now (e, s) ≡ done (e, queued packet s))
          × (deliver packet ≡ record {
            channel = 10;
            time = sub32 now e.start_time;
            stream = r.stream_id;
            message = some (avc_unit (t == 0x65) (t ∷ nal));
          })
    built (body, b, read) long = (
      packet_of packet_size_large packet_type_video 10 (sub32 now e.start_time) r.stream_id
          (length body) body,
      prefixed long,
      ap
          (λ m. record {
            channel = 10;
            time = sub32 now e.start_time;
            stream = r.stream_id;
            message = m;
          })
          (message-video _ refl refl read),
    )
      where
        prefixed :
            (long : Bool)
            → let p = start_code_of long ++ (t ∷ nal) in
              push_frame alloc p (length p) now (e, s)
              ≡ done (
                e,
                queued
                    (packet_of packet_size_large packet_type_video 10
                      (sub32 now e.start_time)
                      r.stream_id
                      (length body)
                      body)
                    s,
              )
        prefixed true =
            rw
              (
                advance-append (0 ∷ 0 ∷ 0 ∷ 1 ∷ []) (t ∷ nal) 4 refl,
                sub_length_eq (length (start_code_of true ++ (t ∷ nal))) 4 (suc (length nal))
                    (omega arith),
                b,
              )
              (simp (v.has_rtmp, push_packet_works _ s v.works))
        prefixed false =
            rw
              (
                advance-append (0 ∷ 0 ∷ 1 ∷ []) (t ∷ nal) 3 refl,
                sub_length_eq (length (start_code_of false ++ (t ∷ nal))) 3 (suc (length nal))
                    (omega arith),
                b,
              )
              (simp (v.has_rtmp, push_packet_works _ s v.works))

-- The state when the first reading of the clock, if one is made, is done.
pub note_start_cases :
    (clock : Clock) (r : Rtmp) (e : VideoEncode) (s : Shared)
    → IsUsable r e s
    → IsUsable r (note_start clock (e, s)).0 (note_start clock (e, s)).1
note_start_cases clock r e s v = elim (Bool_cases (e.start_time == 0)) [
  | inl unset ↦
      rw unset (record { has_queue = v.has_queue; has_rtmp = v.has_rtmp; works = v.works })
  | inr set ↦ rw set v
]

-- On an encoder with a queue that works and a connection, if the unit has fewer than 2 ^ 30 bytes
-- behind its first and memory is found: a unit behind either start code is queued as one packet on
-- channel 10, from which a server reads that unit, marked as a key frame exactly if its first byte
-- is 0x65. Its time is counted, modulo 2 ^ 32, from the start, which is the first reading of the
-- clock if none was noted.
pub queue_frame_packet_queues :
    (alloc : PacketAlloc) (clock : Clock) (long : Bool) (t : ℕ) (nal : List ℕ) (r : Rtmp)
    (e : VideoEncode) (s : Shared)
    → IsUsable r e s
    → length nal < 2 ^ 30
    → Allocates alloc (suc (length nal) + 9)
    → let p = start_code_of long ++ (t ∷ nal) in
      let started = note_start clock (e, s) in
      let (now, s') = get_time clock started.1 in
      (packet : Packet) × (queue_frame_packet alloc clock p (length p) (e, s)
        ≡ done (started.0, queued packet s'))
      × (deliver packet ≡ record {
        channel = 10;
        time = sub32 now started.0.start_time;
        stream = r.stream_id;
        message = some (avc_unit (t == 0x65) (t ∷ nal));
      })
unfolding queue_frame_packet
queue_frame_packet_queues alloc clock long t nal r e s v small ok =
    let started = note_start clock (e, s) in
    let u = note_start_cases clock r e s v in
    rw (usable-both_set v) (
      push_frame_queues alloc long t nal (clock started.1.reads % 2 ^ 32) r started.0
        (get_time clock started.1).1
        (record { has_queue = u.has_queue; has_rtmp = u.has_rtmp; works = u.works }) small ok)

-- On an encoder with a queue that works and a connection, if both are below 2 ^ 16 bytes and memory is
-- found: parameter sets in buffers that may go on behind them are queued as one packet at time 0 on
-- channel 10, from which a server reads them.
pub queue_sps_pps_packet_queues :
    (alloc : PacketAlloc) (t p c l : ℕ) (sps pps junk junk' : List ℕ) (r : Rtmp) (e : VideoEncode)
    (s : Shared)
    → IsUsable r e s
    → 4 + length sps < 2 ^ 16
    → length pps < 2 ^ 16
    → Allocates alloc (length (t ∷ p ∷ c ∷ l ∷ sps) + length pps + 16)
    → (packet : Packet) × (queue_sps_pps_packet alloc
          (t ∷ p ∷ c ∷ l ∷ (sps ++ junk))
          (pps ++ junk')
          (length (t ∷ p ∷ c ∷ l ∷ sps))
          (length pps)
          (e, s)
        ≡ done (e, queued packet s))
      × (deliver packet ≡ record {
        channel = 10;
        time = 0;
        stream = r.stream_id;
        message = some (avc_config p c l (t ∷ p ∷ c ∷ l ∷ sps) pps);
      })
unfolding queue_sps_pps_packet
queue_sps_pps_packet_queues alloc t p c l sps pps junk junk' r e s v ls lp ok =
    packed (config_body_whole alloc t p c l sps pps junk junk' ls lp ok)
  where
    packed :
        (body : List ℕ) × (config_body alloc
              (t ∷ p ∷ c ∷ l ∷ (sps ++ junk))
              (pps ++ junk')
              (length (t ∷ p ∷ c ∷ l ∷ sps))
              (length pps)
            ≡ done (length body, body))
          × (read_video body ≡ some (avc_config p c l (t ∷ p ∷ c ∷ l ∷ sps) pps))
        → (packet : Packet) × (queue_sps_pps_packet alloc
              (t ∷ p ∷ c ∷ l ∷ (sps ++ junk))
              (pps ++ junk')
              (length (t ∷ p ∷ c ∷ l ∷ sps))
              (length pps)
              (e, s)
            ≡ done (e, queued packet s))
          × (deliver packet ≡ record {
            channel = 10;
            time = 0;
            stream = r.stream_id;
            message = some (avc_config p c l (t ∷ p ∷ c ∷ l ∷ sps) pps);
          })
    packed (body, built, read) = (
      packet_of packet_size_medium packet_type_video 10 0 r.stream_id (length body) body,
      rw (usable-both_set v, built) (rw v.has_rtmp (rw (push_packet_works _ s v.works))),
      ap (λ m. record { channel = 10; time = 0; stream = r.stream_id; message = m })
          (message-video _ refl refl read),
    )
