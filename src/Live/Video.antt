-- ===== src/Live/Video.antt =====
-- `sendVideoEncodeData` agrees with the contract: parameter sets, key frames and the other units.

use android_study_rtmp_avcod.Common.{
  ℕ, ◌%◌, ◌^◌, ◌≡◌, ◌≢◌, refl, sym, false, Option, none, some, List, [], ◌∷◌, ◌++◌, append-nil,
  arith, length, done, load, ◌==◌, ne→==, ◌∙◌, ap,
}
use android_study_rtmp_avcod.Rtmp.{Packet, Call, PacketAlloc, Allocates}
use android_study_rtmp_avcod.Flv.{avc_unit, avc_config}
use android_study_rtmp_avcod.Muxer.{Sets, sps_of, pps_of, sets, unit, next}
use android_study_rtmp_avcod.Delivery.{deliver, deliveries}
use mathlib.Core.Path.{ap₂}
use android_study_rtmp_avcod.Live.{
  Live, send_packet, send_video, send_data, keep_sets, create_frame_packet, create_sps_pps_packet,
}
use android_study_rtmp_avcod.Live.Save.{start_code, save_sps_pps_eq}
use android_study_rtmp_avcod.Live.Packets.{Holds, create_sps_pps_packet_delivers}
use android_study_rtmp_avcod.Live.Contract.{
  bytes_of, Fits, connected, Agrees, deliveries-send, deliveries-send-send,
}

module _ (alloc : PacketAlloc) (memory : (n : ℕ) → Allocates alloc n) (live : Live)
    (calls : List Call) (time : ℕ) where
  pub send_sets :
      (m : Option Sets) (q : Sets)
      → Holds live m
      → Fits (sets q)
      → Agrees live.rtmp.stream_id (deliveries calls) (next live.rtmp.stream_id time m (sets q)) (
          send_data alloc
            (bytes_of (sets q))
            (length (bytes_of (sets q)))
            time
            0
            (connected live calls))
  unfolding send_data send_video keep_sets next load
  send_sets none q (hs, hp) (ls, lp, u) = (
    record live {
      sps_length = length (sps_of q);
      sps = some (sps_of q);
      pps_length = length (pps_of q);
      pps = some (pps_of q);
    },
    calls,
    simp (hs, save_sps_pps_eq (sps_of q) q.pps_rest live ls (omega arith) u),
    (refl, refl, refl, refl, ls, lp),
    refl,
    sym (append-nil _),
  )
  send_sets (some r) q h f = (live, calls, simp (h.0, h.1), h, refl, sym (append-nil _))

  -- A packet for the unit, as `create_frame_packet_delivers` has it.
  abbrev pub Frame : ℕ → List ℕ → Type 0
  Frame t nal =
      let p = start_code ++ (t ∷ nal) in
      (packet : Packet) × (create_frame_packet alloc live p (length p) time ≡ done packet)
      × (deliver packet ≡ record {
        channel = 4;
        time = time % 2 ^ 32;
        stream = live.rtmp.stream_id;
        message = some (avc_unit (t == 0x65) (t ∷ nal));
      })

  abbrev Config : Sets → Type 0
  Config q =
      (packet : Packet) × (create_sps_pps_packet alloc live ≡ done packet)
      × (deliver packet ≡ record {
        channel = 4;
        time = 0;
        stream = live.rtmp.stream_id;
        message = some (avc_config q.profile q.compatibility q.level (sps_of q) (pps_of q));
      })

  send_inter :
      (t : ℕ) (nal : List ℕ)
      → t ≢ 0x67
      → t ≢ 0x65
      → Frame t nal
      → (packet : Packet) × (send_video alloc
            (start_code ++ (t ∷ nal))
            (length (start_code ++ (t ∷ nal)))
            time
            (connected live calls)
          ≡ done (send_packet packet (connected live calls)))
        × (deliver packet ≡ record {
          channel = 4;
          time = time % 2 ^ 32;
          stream = live.rtmp.stream_id;
          message = some (avc_unit false (t ∷ nal));
        })
  unfolding send_video load
  send_inter t nal set key (packet, built, seen) =
      (packet, simp (ne→== t 0x67 set, ne→== t 0x65 key, built), simp (ne→== t 0x65 key) at seen)

  send_key :
      (nal : List ℕ) (q : Sets) (f : Frame 0x65 nal) (c : Config q)
      → send_video alloc
          (start_code ++ (0x65 ∷ nal))
          (length (start_code ++ (0x65 ∷ nal)))
          time
          (connected live calls)
        ≡ done (send_packet f.0 (send_packet c.0 (connected live calls)))
  unfolding send_video load send_packet
  send_key nal q (packet, built, _) (config, built', _) = simp (built', built)

  pub inter_Agrees :
      (m : Option Sets) (t : ℕ) (nal : List ℕ)
      → Holds live m
      → t ≢ 0x67
      → t ≢ 0x65
      → Frame t nal
      → Agrees live.rtmp.stream_id
          (deliveries calls)
          (next live.rtmp.stream_id time m (unit t nal))
          (send_data alloc
            (bytes_of (unit t nal))
            (length (bytes_of (unit t nal)))
            time
            0
            (connected live calls))
  unfolding send_data next send_packet
  inter_Agrees m t nal h set key f = sent m h (send_inter t nal set key f)
    where
      sent :
          (m : Option Sets)
          → Holds live m
          → (packet : Packet) × (send_video alloc
                (start_code ++ (t ∷ nal))
                (length (start_code ++ (t ∷ nal)))
                time
                (connected live calls)
              ≡ done (send_packet packet (connected live calls)))
            × (deliver packet ≡ record {
              channel = 4;
              time = time % 2 ^ 32;
              stream = live.rtmp.stream_id;
              message = some (avc_unit false (t ∷ nal));
            })
          → Agrees live.rtmp.stream_id
              (deliveries calls)
              (next live.rtmp.stream_id time m (unit t nal))
              (send_data alloc
                (bytes_of (unit t nal))
                (length (bytes_of (unit t nal)))
                time
                0
                (connected live calls))
      sent none h (packet, e, seen) = rw (ne→== t 0x65 key) (
        live,
        _,
        e,
        h,
        refl,
        deliveries-send calls packet ∙ ap (λ d. deliveries calls ++ (d ∷ [])) seen,
      )
      sent (some q) h (packet, e, seen) = rw (ne→== t 0x65 key) (
        live,
        _,
        e,
        h,
        refl,
        deliveries-send calls packet ∙ ap (λ d. deliveries calls ++ (d ∷ [])) seen,
      )

  pub key_Agrees :
      (m : Option Sets) (nal : List ℕ)
      → Holds live m
      → Frame 0x65 nal
      → Agrees live.rtmp.stream_id
          (deliveries calls)
          (next live.rtmp.stream_id time m (unit 0x65 nal))
          (send_data alloc
            (bytes_of (unit 0x65 nal))
            (length (bytes_of (unit 0x65 nal)))
            time
            0
            (connected live calls))
  unfolding send_data send_video next send_packet create_sps_pps_packet load
  key_Agrees none nal h f = simp h.0
  key_Agrees (some q) nal h f = sent f (create_sps_pps_packet_delivers alloc live q h (memory _))
    where
      sent :
          (f : Frame 0x65 nal) (c : Config q)
          → Agrees live.rtmp.stream_id
              (deliveries calls)
              (next live.rtmp.stream_id time (some q) (unit 0x65 nal))
              (send_data alloc
                (bytes_of (unit 0x65 nal))
                (length (bytes_of (unit 0x65 nal)))
                time
                0
                (connected live calls))
      sent (packet, built, seen) (config, built', seen') = (
        live,
        _,
        send_key nal q (packet, built, seen) (config, built', seen'),
        h,
        refl,
        deliveries-send-send calls config packet
            ∙ ap₂ (λ c d. deliveries calls ++ (c ∷ d ∷ [])) seen' seen,
      )
