-- ===== src/Live/Packets.antt =====
-- The packets of RtmpLive.cpp, as a server takes them.
use android_study_rtmp_avcod.Common.{
  ℕ, suc, ◌+◌, ◌%◌, ◌^◌, ◌<◌, ◌≡◌, refl, Option, none, some, List, ◌∷◌, ◌++◌, arith, length, done,
  sub_length_eq, advance-append, ◌==◌, ap,
}
use android_study_rtmp_avcod.Rtmp.{Packet, PacketAlloc, Allocates, large_packet, packet_type_video}
use android_study_rtmp_avcod.Muxer.{Sets, sps_of, pps_of}
use android_study_rtmp_avcod.Flv.{read_video, avc_unit, avc_config}
use android_study_rtmp_avcod.Delivery.{message-video, deliver}
use android_study_rtmp_avcod.Packing.Whole.{frame_body_whole, config_body_exact}
use android_study_rtmp_avcod.Packing.{config_body}
use android_study_rtmp_avcod.Live.{Live, create_frame_packet, create_sps_pps_packet}
use android_study_rtmp_avcod.Live.Save.{start_code}

-- If it has fewer than 2 ^ 31 - 14 bytes behind its first and memory is found, a unit behind a start
-- code becomes a packet on channel 4 with the time and the stream's id, from
-- which a server reads that unit, marked as a key frame exactly if its first byte is 0x65.
pub create_frame_packet_delivers :
    (alloc : PacketAlloc) (live : Live) (t : ℕ) (nal : List ℕ) (time : ℕ)
    → length nal + 14 < 2 ^ 31
    → Allocates alloc (suc (length nal) + 9)
    → let p = start_code ++ (t ∷ nal) in
      (packet : Packet) × (create_frame_packet alloc live p (length p) time ≡ done packet)
      × (deliver packet ≡ record {
        channel = 4;
        time = time % 2 ^ 32;
        stream = live.rtmp.stream_id;
        message = some (avc_unit (t == 0x65) (t ∷ nal));
      })
unfolding create_frame_packet
create_frame_packet_delivers alloc live t nal time small ok =
    let (body, built, read) = frame_body_whole alloc t nal (omega arith) ok in
    (
      large_packet packet_type_video 4 (time % 2 ^ 32) live.rtmp.stream_id (length body) body,
      rw (
        advance-append start_code (t ∷ nal) 4 refl,
        sub_length_eq (length (start_code ++ (t ∷ nal))) 4 (suc (length nal)) (omega arith),
        built,
      ),
      ap
          (λ m. record {
            channel = 4;
            time = time % 2 ^ 32;
            stream = live.rtmp.stream_id;
            message = m;
          })
          (message-video _ refl refl read),
    )

-- What `saveSPSAndPPS` keeps of two parameter sets: their bytes and lengths.
abbrev pub Holds : Live → Option Sets → Type 0
Holds live none = (live.sps ≡ none) × (live.pps ≡ none)
Holds live (some q) =
    (live.sps ≡ some (sps_of q))
    × (live.pps ≡ some (pps_of q))
    × (live.sps_length ≡ length (sps_of q))
    × (live.pps_length ≡ length (pps_of q))
    × (length (sps_of q) < 2 ^ 15)
    × (length (pps_of q) < 2 ^ 15)

-- If memory is found, kept parameter sets become a packet at time 0 on channel 4, from which a
-- server reads them.
pub create_sps_pps_packet_delivers :
    (alloc : PacketAlloc) (live : Live) (q : Sets)
    → Holds live (some q)
    → Allocates alloc (length (sps_of q) + length (pps_of q) + 16)
    → (packet : Packet) × (create_sps_pps_packet alloc live ≡ done packet)
      × (deliver packet ≡ record {
        channel = 4;
        time = 0;
        stream = live.rtmp.stream_id;
        message = some (avc_config q.profile q.compatibility q.level (sps_of q) (pps_of q));
      })
unfolding create_sps_pps_packet
create_sps_pps_packet_delivers alloc live q (hs, hp, ms, mp, ls, lp) ok = packed (
    config_body_exact alloc 0x67 q.profile q.compatibility q.level q.sps_rest (pps_of q)
      (omega arith) (omega arith) ok)
  where
    packed :
        (body : List ℕ) × (config_body alloc
              (sps_of q)
              (pps_of q)
              (length (sps_of q))
              (length (pps_of q))
            ≡ done (length body, body))
          × (read_video body
              ≡ some (avc_config q.profile q.compatibility q.level (sps_of q) (pps_of q)))
        → (packet : Packet) × (create_sps_pps_packet alloc live ≡ done packet)
          × (deliver packet ≡ record {
            channel = 4;
            time = 0;
            stream = live.rtmp.stream_id;
            message = some (avc_config q.profile q.compatibility q.level (sps_of q) (pps_of q));
          })
    packed (body, built, read) = (
      large_packet packet_type_video 4 0 live.rtmp.stream_id (length body) body,
      rw (hs, hp, ms, mp, built),
      ap (λ m. record { channel = 4; time = 0; stream = live.rtmp.stream_id; message = m })
          (message-video _ refl refl read),
    )
