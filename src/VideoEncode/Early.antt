-- ===== src/VideoEncode/Early.antt =====
-- Frames that come to cpp/x264/X264VideoEncode.cpp before `setQueue`, and parameter sets that its
-- arrays cannot hold.
use android_study_rtmp_avcod.Common.{
  ℕ, ◌≤◌, ◌≡◌, refl, Bool, true, Option, none, some, List, [], ◌∷◌, ◌++◌, arith, length, drop,
  length-append, length-drop, Run, done, fault, unset, wild, assigned, ◌>>=◌, sub_length_eq,
  advance-append, copy-part, ne→==,
}
use android_study_rtmp_avcod.Rtmp.{PacketAlloc}
use android_study_rtmp_avcod.Session.{Shared, Clock}
use android_study_rtmp_avcod.VideoEncode.{VideoEncode, Planes, planes_of}
use android_study_rtmp_avcod.VideoEncode.Queueing.{
  State, Locals, Nal, locals, both_set, queue_nal, queue_nals, queue_frame_packet,
  queue_sps_pps_packet, encode_data,
}
use android_study_rtmp_avcod.VideoEncode.Units.{start_code_of}
use android_study_rtmp_avcod.VideoEncode.Sets.{queue_nal-sps}
use android_study_rtmp_avcod.VideoEncode.Contract.{
  bytes_of, Encoded, sps, pps, slice, nal_of, nals_of, Fits, AllFit,
}
use android_study_rtmp_avcod.VideoEncode.Encode.{IsOpen, encode_data_copies}

-- Something stands among the units that is more than a sequence parameter set.
abbrev pub HasMore : List Encoded → Type 0
HasMore [] = ⊥
HasMore (sps q ∷ us) = HasMore us
HasMore (_ ∷ us) = Unit {0}

module _ (alloc : PacketAlloc) (clock : Clock) where
  early_frame_packet :
      (payload : List ℕ) (len : ℕ) (e : VideoEncode) (s : Shared)
      → e.queue ≡ wild
      → queue_frame_packet alloc clock payload len (e, s) ≡ fault unset
  unfolding queue_frame_packet both_set
  early_frame_packet payload len e s early = rw early

  early_sps_pps_packet :
      (xs ys : List ℕ) (m n : ℕ) (e : VideoEncode) (s : Shared)
      → e.queue ≡ wild
      → queue_sps_pps_packet alloc xs ys m n (e, s) ≡ fault unset
  unfolding queue_sps_pps_packet both_set
  early_sps_pps_packet xs ys m n e s early = rw early

  abbrev stored : Locals → List ℕ → ℕ → State → Run (Locals × State)
  stored b xs n st = done (record b { pps = xs; pps_length = some n }, st)

  early_pps :
      (bs : List ℕ) (b : Locals) (e : VideoEncode) (s : Shared)
      → length bs ≤ 100
      → length b.pps ≡ 100
      → e.queue ≡ wild
      → queue_nal alloc clock (nal_of (pps bs)) (b, (e, s)) ≡ fault unset
  unfolding queue_nal
  early_pps bs b e s small room early =
      rw
        (
          sub_length_eq (length (start_code_of true ++ bs)) 4 (length bs) (omega arith),
          advance-append (start_code_of true) bs 4 refl,
          copy-part b.pps bs (length bs) refl (omega arith),
        )
        (by_length b.sps_length)
    where
      by_length :
          (m : Option ℕ)
          → (assigned m >>= λ k.
              queue_sps_pps_packet alloc b.sps (bs ++ drop (length bs) b.pps) k (length bs) (e, s)
              >>= λ st. stored b (bs ++ drop (length bs) b.pps) (length bs) st)
            ≡ fault unset
      by_length none = refl
      by_length (some m) =
          rw (early_sps_pps_packet b.sps (bs ++ drop (length bs) b.pps) m (length bs) e s early)

  early_slice :
      (long : Bool) (kind t : ℕ) (nal : List ℕ) (b : Locals) (e : VideoEncode) (s : Shared)
      → Fits (slice long kind t nal)
      → e.queue ≡ wild
      → queue_nal alloc clock (nal_of (slice long kind t nal)) (b, (e, s)) ≡ fault unset
  unfolding queue_nal
  early_slice long kind t nal b e s (not_sps, not_pps, small) early = rw (
    ne→== kind 7 not_sps,
    ne→== kind 8 not_pps,
    early_frame_packet (start_code_of long ++ (t ∷ nal)) (length (start_code_of long ++ (t ∷ nal)))
        e s early,
  )

  early_nals :
      (us : List Encoded) (b : Locals) (e : VideoEncode) (s : Shared)
      → AllFit us
      → HasMore us
      → length b.sps ≡ 100
      → length b.pps ≡ 100
      → e.queue ≡ wild
      → queue_nals alloc clock (nals_of us) (b, (e, s)) ≡ fault unset
  unfolding queue_nals
  early_nals [] b e s f more ls lp early = absurd more
  early_nals (sps q ∷ us) b e s f more ls lp early =
      rw (queue_nal-sps alloc clock q b (e, s) f.0 ls) (
        early_nals us _ e s f.1 more
          (omega (
            arith,
            length-append (bytes_of q) (drop (length (bytes_of q)) b.sps),
            length-drop (length (bytes_of q)) b.sps,
          ))
          lp early)
  early_nals (pps bs ∷ us) b e s f more ls lp early = rw (early_pps bs b e s f.0 lp early)
  early_nals (slice long kind t nal ∷ us) b e s f more ls lp early =
      rw (early_slice long kind t nal b e s f.0 early)

  -- A frame that comes to an open encoder before `setQueue` reads the unset pointer of the queue, unless
  -- x264 makes no unit of it, or sequence parameter sets alone; all units fit.
  pub encode_data_early :
      (compress : Planes → List Nal) (us : List Encoded) (y u v behind junk junk' : List ℕ)
      (e : VideoEncode) (s : Shared)
      → IsOpen (length y) (length u) e
      → length v ≡ length u
      → length junk ≡ 100
      → length junk' ≡ 100
      → compress (planes_of y u v) ≡ nals_of us
      → AllFit us
      → HasMore us
      → e.queue ≡ wild
      → encode_data alloc clock compress (locals junk junk') (y ++ (u ++ (v ++ behind))) (e, s)
        ≡ fault unset
  encode_data_early compress us y u v behind junk junk' e s o ev ej ej' made f more early =
      rw (encode_data_copies alloc clock compress (locals junk junk') y u v behind e s o ev, made)
        (early_nals us (locals junk junk') (record e { input = some (planes_of y u v) }) s f more ej
          ej' early)
