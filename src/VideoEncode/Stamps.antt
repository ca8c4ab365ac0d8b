-- ===== src/VideoEncode/Stamps.antt =====
-- The times of the packets that a whole call of `encodeData` of cpp/x264/X264VideoEncode.cpp queues.
use android_study_rtmp_avcod.Common.{
  ℕ, suc, ◌+◌, ◌^◌, ◌≤◌, ◌<◌, ◌≡◌, refl, sym, ap, ◌∙◌, Option, none, some, List, [], ◌∷◌, ◌++◌,
  append-nil, append_assoc, length, Run, done, ◌>>=◌,
}
use android_study_rtmp_avcod.Rtmp.{Rtmp, PacketAlloc, Allocates}
use android_study_rtmp_avcod.Flv.{Message}
use android_study_rtmp_avcod.Session.{Shared, Clock}
use android_study_rtmp_avcod.VideoEncode.{VideoEncode, Planes, planes_of}
use android_study_rtmp_avcod.VideoEncode.Queueing.{
  State, Nal, Locals, locals, queue_nals, encode_data,
}
use android_study_rtmp_avcod.VideoEncode.Units.{IsUsable}
use android_study_rtmp_avcod.VideoEncode.Contract.{Sps, Encoded, nals_of, AllFit, heard_of}
use android_study_rtmp_avcod.VideoEncode.Frames.{Holds}
use android_study_rtmp_avcod.VideoEncode.Encode.{IsOpen, encode_data_copies}
use android_study_rtmp_avcod.VideoEncode.Single.{queue_nal-QueuesUnit}
use android_study_rtmp_avcod.VideoEncode.Times.{times, times_of, NoSets, InOrder, times-ordered}

-- A run that queues packets with the times `added`.
unfoldable pub Stamps : VideoEncode → Shared → List ℕ → Run State → Type 0
Stamps e s added run =
    (e' : VideoEncode) × (s' : Shared) × (run ≡ done (e', s'))
    × (times_of s'.queue.items ≡ times_of s.queue.items ++ added)

module _ (alloc : PacketAlloc) (clock : Clock) (memory : (n : ℕ) → Allocates alloc n)
    (r : Rtmp) where
  queue_nals-Stamps :
      (us : List Encoded) (b : Locals) (q : Option Sps) (e : VideoEncode) (s : Shared)
      (all : List Message)
      → Holds b q
      → AllFit us
      → IsUsable r e s
      → heard_of q us ≡ some all
      → Stamps e s
          (times clock us e.start_time s.reads)
          (queue_nals alloc clock (nals_of us) (b, (e, s)))
  unfolding queue_nals Stamps
  queue_nals-Stamps [] b q e s all h f v says = (e, s, refl, sym (append-nil _))
  queue_nals-Stamps (u ∷ us) b q e s all h (fits, f) v says =
      let unit = queue_nal-QueuesUnit alloc clock memory r u us b q e s all h fits v says in
      let (e', s', runs, added) =
        queue_nals-Stamps us unit.arrays unit.set unit.encoder unit.shared unit.rest unit.holds f
          unit.usable unit.behind in
      (
        e',
        s',
        ap (λ x. x >>= queue_nals alloc clock (nals_of us)) unit.runs ∙ runs,
        added
            ∙ ap (λ l. l ++ times clock us unit.encoder.start_time unit.shared.reads) unit.stamped
            ∙ append_assoc (times_of s.queue.items) unit.at
                (times clock us unit.encoder.start_time unit.shared.reads)
            ∙ ap (λ l. times_of s.queue.items ++ l) (sym unit.runs_on),
      )

  -- A frame whose units the contract does not refuse, on an open encoder with a queue that works: each
  -- pair of parameter sets is queued at time 0, and every other unit at the time since the start of the
  -- stream, modulo 2 ^ 32, which is the first reading of the clock if none was noted. All units fit, and
  -- memory is found.
  pub encode_data-Stamps :
      (compress : Planes → List Nal) (us : List Encoded) (all : List Message)
      (y u v behind junk junk' : List ℕ) (e : VideoEncode) (s : Shared)
      → IsOpen (length y) (length u) e
      → length v ≡ length u
      → length junk ≡ 100
      → length junk' ≡ 100
      → compress (planes_of y u v) ≡ nals_of us
      → AllFit us
      → heard_of none us ≡ some all
      → IsUsable r e s
      → Stamps e s
          (times clock us e.start_time s.reads)
          (encode_data alloc clock compress (locals junk junk') (y ++ (u ++ (v ++ behind))) (e, s))
  unfolding Stamps
  encode_data-Stamps compress us all y u v behind junk junk' e s o ev ej ej' made f says usable =
      rw (encode_data_copies alloc clock compress (locals junk junk') y u v behind e s o ev, made)
        (queue_nals-Stamps us (locals junk junk') none (record e { input = some (planes_of y u v) })
          s all (ej, ej', refl) f
          (record {
            has_queue = usable.has_queue;
            has_rtmp = usable.has_rtmp;
            works = usable.works;
          })
          says)

  -- Between two pairs of parameter sets the times do not go back: a frame whose units have no picture
  -- parameter set among them, on a clock that does not go back, whose next reading is neither 0 nor
  -- before the time `low` of the stream, and whose readings for the frame do not reach 2 ^ 32, is queued
  -- in packets whose times do not go back, from `low` on; a stream that has not started has `low` 0. The
  -- encoder is open and its queue works, all units fit, and memory is found.
  pub encode_data_ordered :
      (onward : (m n : ℕ) → m ≤ n → clock m ≤ clock n) (compress : Planes → List Nal)
      (us : List Encoded) (all : List Message) (y u v behind junk junk' : List ℕ) (low : ℕ)
      (e : VideoEncode) (s : Shared)
      → IsOpen (length y) (length u) e
      → length v ≡ length u
      → length junk ≡ 100
      → length junk' ≡ 100
      → compress (planes_of y u v) ≡ nals_of us
      → AllFit us
      → heard_of none us ≡ some all
      → IsUsable r e s
      → NoSets us
      → e.start_time + low ≤ clock s.reads
      → (e.start_time ≡ 0 → low ≡ 0)
      → 0 < clock s.reads
      → clock (s.reads + suc (length us)) < 2 ^ 32
      → (added : List ℕ) × InOrder low added
        × Stamps e s added (
            encode_data alloc clock compress (locals junk junk') (y ++ (u ++ (v ++ behind))) (e, s))
  encode_data_ordered onward compress us all y u v behind junk junk' low e s o ev ej ej' made f says
        usable none_there late fresh later small =
      (
        times clock us e.start_time s.reads,
        times-ordered clock onward us e.start_time s.reads low none_there late fresh later small,
        encode_data-Stamps compress us all y u v behind junk junk' e s o ev ej ej' made f says
            usable,
      )
