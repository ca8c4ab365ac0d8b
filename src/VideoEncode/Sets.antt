-- ===== src/VideoEncode/Sets.antt =====
-- Parameter sets and the two arrays of `encodeData` in cpp/x264/X264VideoEncode.cpp.
use android_study_rtmp_avcod.Common.{
  ℕ, ◌≤◌, ◌<◌, ◌≡◌, refl, true, none, some, List, ◌++◌, arith, length, drop, done, fault, unset,
  out_of_bounds, sub_length_eq, advance-append, copy-part, copy_overflows,
}
use android_study_rtmp_avcod.Rtmp.{PacketAlloc}
use android_study_rtmp_avcod.Session.{Clock}
use android_study_rtmp_avcod.VideoEncode.Queueing.{State, Locals, queue_nal}
use android_study_rtmp_avcod.VideoEncode.Units.{start_code_of}
use android_study_rtmp_avcod.VideoEncode.Contract.{Sps, bytes_of, sps, pps, nal_of}

module _ (alloc : PacketAlloc) (clock : Clock) where
  -- A sequence parameter set is copied to its array, and nothing is queued.
  pub queue_nal-sps :
      (q : Sps) (b : Locals) (st : State)
      → length (bytes_of q) ≤ 100
      → length b.sps ≡ 100
      → queue_nal alloc clock (nal_of (sps q)) (b, st)
        ≡ done (
          record b {
            sps = bytes_of q ++ drop (length (bytes_of q)) b.sps;
            sps_length = some (length (bytes_of q));
          },
          st,
        )
  unfolding queue_nal
  queue_nal-sps q b st h e = rw (
    sub_length_eq (length (start_code_of true ++ bytes_of q)) 4 (length (bytes_of q)) (omega arith),
    advance-append (start_code_of true) (bytes_of q) 4 refl,
    copy-part b.sps (bytes_of q) (length (bytes_of q)) refl (omega arith),
  )

  -- A picture parameter set with no other before it.
  pub queue_nal-early :
      (bs : List ℕ) (b : Locals) (st : State)
      → length bs ≤ 100
      → length b.pps ≡ 100
      → b.sps_length ≡ none
      → queue_nal alloc clock (nal_of (pps bs)) (b, st) ≡ fault unset
  unfolding queue_nal
  queue_nal-early bs b st h e no_length =
      rw
        (
          sub_length_eq (length (start_code_of true ++ bs)) 4 (length bs) (omega arith),
          advance-append (start_code_of true) bs 4 refl,
          copy-part b.pps bs (length bs) refl (omega arith),
        )
        (simp no_length)

  -- A parameter set of more than 100 bytes, of either kind, is written past the end of its array.
  pub queue_nal_overflows :
      (q : Sps) (bs : List ℕ) (b : Locals) (st : State)
      → length b.sps ≡ 100
      → length b.pps ≡ 100
      → 100 < length (bytes_of q)
      → 100 < length bs
      → (queue_nal alloc clock (nal_of (sps q)) (b, st) ≡ fault out_of_bounds)
        × (queue_nal alloc clock (nal_of (pps bs)) (b, st) ≡ fault out_of_bounds)
  unfolding queue_nal
  queue_nal_overflows q bs b st ls lp long longer = (
    rw (
      sub_length_eq (length (start_code_of true ++ bytes_of q)) 4 (length (bytes_of q))
          (omega arith),
      advance-append (start_code_of true) (bytes_of q) 4 refl,
      copy_overflows b.sps (bytes_of q) (length (bytes_of q)) refl (omega arith),
    ),
    rw (
      sub_length_eq (length (start_code_of true ++ bs)) 4 (length bs) (omega arith),
      advance-append (start_code_of true) bs 4 refl,
      copy_overflows b.pps bs (length bs) refl (omega arith),
    ),
  )
