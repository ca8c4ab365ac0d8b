-- ===== src/VideoEncode/Frames.antt =====
-- The loop of `encodeData` over the units of a frame keeps its contract.
use mathlib.Core.Path.{subst}
use android_study_rtmp_avcod.Common.{
  suc, ◌%◌, ◌^◌, sub32, ℕ, ◌+◌, ◌≤◌, ◌≡◌, refl, sym, ap, ◌∙◌, Bool, true, Option, none, some, List,
  [], ◌∷◌, ◌++◌, append_assoc, append-nil, arith, length, drop, length-append, length-drop, Run,
  done, fault, unset, advance-append, sub_length_eq, copy-part, ◌==◌, ne→==, map-append,
}
use android_study_rtmp_avcod.Rtmp.{Packet, Rtmp, PacketAlloc, Allocates}
use android_study_rtmp_avcod.Flv.{Message, avc_unit, avc_config}
use android_study_rtmp_avcod.Delivery.{deliver}
use android_study_rtmp_avcod.Session.{Shared, Clock, get_time}
use android_study_rtmp_avcod.VideoEncode.{VideoEncode}
use android_study_rtmp_avcod.VideoEncode.Queueing.{
  State, Locals, note_start, queue_nal, queue_nals, queue_sps_pps_packet,
}
use android_study_rtmp_avcod.VideoEncode.Units.{
  IsUsable, queued, note_start_cases, start_code_of, queue_frame_packet_queues,
  queue_sps_pps_packet_queues,
}
use android_study_rtmp_avcod.VideoEncode.Sets.{queue_nal-sps, queue_nal-early}
use android_study_rtmp_avcod.VideoEncode.Times.{began}
use android_study_rtmp_avcod.VideoEncode.Contract.{
  Sps, bytes_of, Encoded, sps, pps, slice, nal_of, nals_of, Fits, AllFit, heard_of, Heard, prepend,
  hear, hear_all, video,
}

-- The arrays have 100 bytes, and the first begins with the last sequence parameter set.
abbrev pub Holds : Locals → Option Sps → Type 0
Holds b none = (length b.sps ≡ 100) × (length b.pps ≡ 100) × (b.sps_length ≡ none)
Holds b (some q) =
    (junk : List ℕ) × (b.sps ≡ bytes_of q ++ junk)
    × (length (bytes_of q) + length junk ≡ 100)
    × (length b.pps ≡ 100)
    × (b.sps_length ≡ some (length (bytes_of q)))

-- The encoder without the time at which its stream started.
abbrev pub timeless : VideoEncode → VideoEncode
timeless e = record e { start_time = 0 }

-- What a run from `e` does, against what the contract says: an unset variable is read where it
-- refuses, and otherwise the encoder stays as it was, but for the start of its stream.
abbrev pub Agrees : Rtmp → VideoEncode → List Heard → Option (List Message) → Run State → Type 0
Agrees r e before none run = run ≡ fault unset
Agrees r e before (some ms) run =
    (e' : VideoEncode) × (s : Shared) × (run ≡ done (e', s))
    × IsUsable r e' s
    × (timeless e' ≡ timeless e)
    × (hear_all s.queue.items ≡ before ++ video r.stream_id ms)

-- The packet has the time since the start of the stream, which is noted if it was not.
pub record Stamped (clock : Clock) (e : VideoEncode) (s : Shared) (packet : Packet)
    (e' : VideoEncode) (s' : Shared) : Type 0 where
  pub at :
      packet.time_stamp
      ≡ sub32
          (clock (began clock e.start_time s.reads).1 % 2 ^ 32)
          (began clock e.start_time s.reads).0
  pub starts : e'.start_time ≡ (began clock e.start_time s.reads).0
  pub reads : s'.reads ≡ suc (began clock e.start_time s.reads).1

module _ (alloc : PacketAlloc) (clock : Clock) (memory : (n : ℕ) → Allocates alloc n)
    (r : Rtmp) where
  pub queue_nal-pps :
      (q : Sps) (bs : List ℕ) (b : Locals) (e : VideoEncode) (s : Shared)
      → Holds b (some q)
      → length bs ≤ 100
      → IsUsable r e s
      → (packet : Packet) × (queue_nal alloc clock (nal_of (pps bs)) (b, (e, s))
          ≡ done (
            record b { pps = bs ++ drop (length bs) b.pps; pps_length = some (length bs) },
            (e, queued packet s),
          ))
        × (hear packet ≡ (
          10,
          r.stream_id,
          some (avc_config q.profile q.compatibility q.level (bytes_of q) bs),
        ))
        × (packet.time_stamp ≡ 0)
  unfolding queue_nal
  queue_nal-pps q bs b e s (junk, hs, l, lp, ls) small v = go (
      queue_sps_pps_packet_queues alloc q.first q.profile q.compatibility q.level q.rest bs junk
        (drop (length bs) b.pps) r e s v (omega arith) (omega arith) (memory _))
    where
      go :
          (packet : Packet) × (queue_sps_pps_packet alloc
                (bytes_of q ++ junk)
                (bs ++ drop (length bs) b.pps)
                (length (bytes_of q))
                (length bs)
                (e, s)
              ≡ done (e, queued packet s))
            × (deliver packet ≡ record {
              channel = 10;
              time = 0;
              stream = r.stream_id;
              message = some (avc_config q.profile q.compatibility q.level (bytes_of q) bs);
            })
          → (packet : Packet) × (queue_nal alloc clock (nal_of (pps bs)) (b, (e, s))
              ≡ done (
                record b { pps = bs ++ drop (length bs) b.pps; pps_length = some (length bs) },
                (e, queued packet s),
              ))
            × (hear packet ≡ (
              10,
              r.stream_id,
              some (avc_config q.profile q.compatibility q.level (bytes_of q) bs),
            ))
            × (packet.time_stamp ≡ 0)
      go (packet, built, seen) = (
        packet,
        rw
            (
              sub_length_eq (length (start_code_of true ++ bs)) 4 (length bs) (omega arith),
              advance-append (start_code_of true) bs 4 refl,
              copy-part b.pps bs (length bs) refl (omega arith),
            )
            (simp (ls, hs, built)),
        ap (λ d. (d.channel, d.stream, d.message)) seen,
        ap (λ d. d.time) seen,
      )

  note_start-queue : (e : VideoEncode) (s : Shared) → (note_start clock (e, s)).1.queue ≡ s.queue
  note_start-queue e s = ground arith

  note_start-timeless :
      (e : VideoEncode) (s : Shared) → timeless (note_start clock (e, s)).0 ≡ timeless e
  note_start-timeless e s = ground arith

  note_start-began :
      (e : VideoEncode) (s : Shared)
      → ((note_start clock (e, s)).0.start_time, (note_start clock (e, s)).1.reads)
        ≡ began clock e.start_time s.reads
  note_start-began e s = ground arith

  -- Any other unit is queued by `queueFramePacket`.
  pub queue_nal-slice :
      (long : Bool) (kind t : ℕ) (nal : List ℕ) (b : Locals) (e : VideoEncode) (s : Shared)
      → Fits (slice long kind t nal)
      → IsUsable r e s
      → (packet : Packet) × (e' : VideoEncode) × (s' : Shared) × (queue_nal alloc clock
            (nal_of (slice long kind t nal))
            (b, (e, s))
          ≡ done (b, (e', s')))
        × IsUsable r e' s'
        × (timeless e' ≡ timeless e)
        × (s'.queue.items ≡ s.queue.items ++ (packet ∷ []))
        × (hear packet ≡ (10, r.stream_id, some (avc_unit (t == 0x65) (t ∷ nal))))
        × Stamped clock e s packet e' s'
  unfolding queue_nal
  queue_nal-slice long kind t nal b e s (not_sps, not_pps, small) v =
      let (packet, built, seen) =
        queue_frame_packet_queues alloc clock long t nal r e s v small (memory _) in
      let u = note_start_cases clock r e s v in
      (
        packet,
        (note_start clock (e, s)).0,
        queued packet (get_time clock (note_start clock (e, s)).1).1,
        rw (ne→== kind 7 not_sps, ne→== kind 8 not_pps) (simp built),
        record { has_queue = u.has_queue; has_rtmp = u.has_rtmp; works = u.works },
        note_start-timeless e s,
        ap (λ q. q.items ++ (packet ∷ [])) (note_start-queue e s),
        ap (λ d. (d.channel, d.stream, d.message)) seen,
        record {
          at =
              ap (λ d. d.time) seen
              ∙ ap (λ k. sub32 (clock k.1 % 2 ^ 32) k.0) (note_start-began e s);
          starts = ap (λ k. k.0) (note_start-began e s);
          reads = ap (λ k. suc k.1) (note_start-began e s);
        },
      )

  -- A packet that is heard as `m` puts `m` in front of what the rest is heard as.
  Agrees-after :
      (m : Message) (items : List Packet) (packet : Packet) (e e' : VideoEncode)
      (o : Option (List Message)) (run : Run State)
      → hear packet ≡ (10, r.stream_id, some m)
      → timeless e' ≡ timeless e
      → Agrees r e' (hear_all (items ++ (packet ∷ []))) o run
      → Agrees r e (hear_all items) (prepend m o) run
  Agrees-after m items packet e e' none run seen same a = a
  Agrees-after m items packet e e' (some ms) run seen same (e'', s, done_run, v, t, heard) = (
    e'',
    s,
    done_run,
    v,
    t ∙ same,
    heard
        ∙ rw (map-append, seen)
            (append_assoc (hear_all items) ((10, r.stream_id, some m) ∷ []) (video r.stream_id ms)),
  )

  pub Holds-length :
      (b : Locals) (q : Option Sps) → Holds b q → (length b.sps ≡ 100) × (length b.pps ≡ 100)
  Holds-length b none h = (h.0, h.1)
  Holds-length b (some q) (junk, hs, l, lp, ls) =
      (rw hs (omega (arith, length-append (bytes_of q) junk)), lp)

  -- All the units of a frame that fit, on an encoder with a queue that works, from arrays that hold the
  -- last sequence parameter set, if any: the queue gets exactly what the contract says, in order, and
  -- an unset length is read exactly where the contract refuses.
  pub queue_nals-Agrees :
      (us : List Encoded) (b : Locals) (q : Option Sps) (e : VideoEncode) (s : Shared)
      → Holds b q
      → AllFit us
      → IsUsable r e s
      → Agrees r e
          (hear_all s.queue.items)
          (heard_of q us)
          (queue_nals alloc clock (nals_of us) (b, (e, s)))
  unfolding queue_nals heard_of
  queue_nals-Agrees [] b q e s h f v = (e, s, refl, v, refl, sym (append-nil _))
  queue_nals-Agrees (sps q' ∷ us) b q e s h f v =
      let (ls, lp) = Holds-length b q h in
      rw (queue_nal-sps alloc clock q' b (e, s) f.0 ls) (
        queue_nals-Agrees us _ (some q') e s
          (
            drop (length (bytes_of q')) b.sps,
            refl,
            omega (arith, length-drop (length (bytes_of q')) b.sps),
            lp,
            refl,
          )
          f.1 v)
  queue_nals-Agrees (pps bs ∷ us) b none e s h f v =
      rw (queue_nal-early alloc clock bs b (e, s) f.0 h.1 h.2)
  queue_nals-Agrees (pps bs ∷ us) b (some q) e s h f v =
      let (packet, built, seen, at) = queue_nal-pps q bs b e s h f.0 v in
      rw built (
        Agrees-after _ s.queue.items packet e e (heard_of (some q) us) _ seen refl (
          queue_nals-Agrees us _ (some q) e (queued packet s)
            (
              h.0,
              h.1,
              h.2,
              omega
                  (arith, length-append bs (drop (length bs) b.pps), length-drop (length bs) b.pps),
              h.4,
            )
            f.1 (record { has_queue = v.has_queue; has_rtmp = v.has_rtmp; works = v.works })))
  queue_nals-Agrees (slice long kind t nal ∷ us) b q e s h f v =
      let (packet, e', s', built, u, same, items, seen, stamped) =
        queue_nal-slice long kind t nal b e s f.0 v in
      rw built (
        Agrees-after _ s.queue.items packet e e' (heard_of q us) _ seen same (
          subst
            (λ l.
              Agrees r e' (hear_all l) (heard_of q us)
                (queue_nals alloc clock (nals_of us) (b, (e', s'))))
            items (queue_nals-Agrees us b q e' s' h f.1 u)))
