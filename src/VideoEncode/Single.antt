-- ===== src/VideoEncode/Single.antt =====
-- One round of the loop of `encodeData` in cpp/x264/X264VideoEncode.cpp keeps the contract of the rest.
use android_study_rtmp_avcod.Common.{
  suc, ℕ, ◌≡◌, refl, sym, ap, ◌∙◌, Option, none, some, List, [], ◌∷◌, ◌++◌, append-nil, arith,
  length, drop, length-append, length-drop, done, ◌==◌, map-append,
}
use android_study_rtmp_avcod.Rtmp.{Rtmp, PacketAlloc, Allocates}
use android_study_rtmp_avcod.Flv.{Message, avc_unit, avc_config}
use android_study_rtmp_avcod.Session.{Shared, Clock}
use android_study_rtmp_avcod.VideoEncode.{VideoEncode}
use android_study_rtmp_avcod.VideoEncode.Queueing.{Locals, queue_nal}
use android_study_rtmp_avcod.VideoEncode.Units.{IsUsable, queued}
use android_study_rtmp_avcod.VideoEncode.Sets.{queue_nal-sps}
use android_study_rtmp_avcod.VideoEncode.Times.{began, times, times_of}
use android_study_rtmp_avcod.VideoEncode.Contract.{
  Sps, bytes_of, Encoded, sps, pps, slice, nal_of, Fits, heard_of, prepend, hear, hear_all, video,
}
use android_study_rtmp_avcod.VideoEncode.Frames.{
  Holds, Holds-length, timeless, queue_nal-pps, queue_nal-slice,
}

-- A unit is queued, and heard as `said`; of the units behind it the contract then says `rest`.
pub record QueuesUnit (alloc : PacketAlloc) (clock : Clock) (r : Rtmp) (u : Encoded)
    (us : List Encoded) (b : Locals) (e : VideoEncode) (s : Shared) (all : List Message)
    : Type 0 where
  pub arrays : Locals
  pub set : Option Sps
  pub encoder : VideoEncode
  pub shared : Shared
  pub said : List Message
  pub rest : List Message
  pub runs : queue_nal alloc clock (nal_of u) (b, (e, s)) ≡ done (arrays, (encoder, shared))
  pub holds : Holds arrays set
  pub usable : IsUsable r encoder shared
  pub same : timeless encoder ≡ timeless e
  pub heard : hear_all shared.queue.items ≡ hear_all s.queue.items ++ video r.stream_id said
  pub behind : heard_of set us ≡ some rest
  pub at : List ℕ
  pub stamped : times_of shared.queue.items ≡ times_of s.queue.items ++ at
  pub runs_on :
      times clock (u ∷ us) e.start_time s.reads
      ≡ at ++ times clock us encoder.start_time shared.reads
  pub splits : all ≡ said ++ rest

prepend-some :
    (m : Message) (o : Option (List Message)) (all : List Message)
    → prepend m o ≡ some all
    → (rest : List Message) × (o ≡ some rest) × (all ≡ m ∷ rest)
prepend-some m none all e = absurd cc
prepend-some m (some ms) all e = (ms, refl, cc)

module _ (alloc : PacketAlloc) (clock : Clock) (memory : (n : ℕ) → Allocates alloc n)
    (r : Rtmp) where
  -- Where the contract does not refuse the units, the first is queued as it says, and it says the rest
  -- of the units behind it.
  pub queue_nal-QueuesUnit :
      (u : Encoded) (us : List Encoded) (b : Locals) (q : Option Sps) (e : VideoEncode) (s : Shared)
      (all : List Message)
      → Holds b q
      → Fits u
      → IsUsable r e s
      → heard_of q (u ∷ us) ≡ some all
      → QueuesUnit alloc clock r u us b e s all
  unfolding heard_of
  queue_nal-QueuesUnit (sps q') us b q e s all h f v contract =
      let (ls, lp) = Holds-length alloc clock memory r b q h in
      record {
        arrays = _;
        set = some q';
        encoder = e;
        shared = s;
        said = [];
        rest = all;
        runs = queue_nal-sps alloc clock q' b (e, s) f ls;
        holds = (
          drop (length (bytes_of q')) b.sps,
          refl,
          omega (arith, length-drop (length (bytes_of q')) b.sps),
          lp,
          refl,
        );
        usable = v;
        same = refl;
        heard = sym (append-nil _);
        behind = contract;
        splits = refl;
        at = [];
        stamped = sym (append-nil _);
        runs_on = refl;
      }
  queue_nal-QueuesUnit (pps bs) us b none e s all h f v contract = absurd cc
  queue_nal-QueuesUnit (pps bs) us b (some q) e s all h f v contract =
      let (packet, built, seen, at) = queue_nal-pps alloc clock memory r q bs b e s h f v in
      let m = avc_config q.profile q.compatibility q.level (bytes_of q) bs in
      let (rest, found, same) = prepend-some m (heard_of (some q) us) all contract in
      record {
        arrays = _;
        set = some q;
        encoder = e;
        shared = queued packet s;
        said = m ∷ [];
        rest = rest;
        runs = built;
        holds = (
          h.0,
          h.1,
          h.2,
          omega (arith, length-append bs (drop (length bs) b.pps), length-drop (length bs) b.pps),
          h.4,
        );
        usable = record { has_queue = v.has_queue; has_rtmp = v.has_rtmp; works = v.works };
        same = refl;
        heard =
            map-append hear s.queue.items (packet ∷ [])
            ∙ ap (λ x. hear_all s.queue.items ++ (x ∷ [])) seen;
        behind = found;
        splits = same;
        at = 0 ∷ [];
        stamped =
            map-append (λ p. p.time_stamp) s.queue.items (packet ∷ [])
            ∙ ap (λ x. times_of s.queue.items ++ (x ∷ [])) at;
        runs_on = refl;
      }
  queue_nal-QueuesUnit (slice long kind t nal) us b q e s all h f v contract =
      let (packet, e', s', built, usable, same, items, seen, stamps) =
        queue_nal-slice alloc clock memory r long kind t nal b e s f v in
      let m = avc_unit (t == 0x65) (t ∷ nal) in
      let (rest, found, splits) = prepend-some m (heard_of q us) all contract in
      record {
        arrays = b;
        set = q;
        encoder = e';
        shared = s';
        said = m ∷ [];
        rest = rest;
        runs = built;
        holds = h;
        usable = usable;
        same = same;
        heard =
            ap hear_all items
            ∙ map-append hear s.queue.items (packet ∷ [])
            ∙ ap (λ x. hear_all s.queue.items ++ (x ∷ [])) seen;
        behind = found;
        splits = splits;
        at = packet.time_stamp ∷ [];
        stamped = ap times_of items ∙ map-append (λ p. p.time_stamp) s.queue.items (packet ∷ []);
        runs_on =
            ap
              (λ l.
                l
                ∷ times clock us (began clock e.start_time s.reads).0
                    (suc (began clock e.start_time s.reads).1))
              (sym stamps.at)
            ∙ ap
                (λ k.
                  packet.time_stamp ∷ times clock us k (suc (began clock e.start_time s.reads).1))
                (sym stamps.starts)
            ∙ ap (λ k. packet.time_stamp ∷ times clock us e'.start_time k) (sym stamps.reads);
      }
