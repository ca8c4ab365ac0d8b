-- ===== src/Live/Audio.antt =====
-- `sendAudioEncodeData` agrees with the contract.

use android_study_rtmp_avcod.Common.{
  ℕ, ◌+◌, ◌%◌, ◌^◌, ◌<◌, ◌≡◌, refl, true, false, Option, some, List, [], ◌∷◌, ◌++◌, arith, length,
  store, ◌==◌, ◌∙◌, ap, ◌||◌,
}
use android_study_rtmp_avcod.Rtmp.{
  Packet, Call, sends, frees_packet, PacketAlloc, Allocates, large_packet, packet_type_audio,
}
use android_study_rtmp_avcod.Flv.{Message, read_audio}
use android_study_rtmp_avcod.Muxer.{Sets}
use android_study_rtmp_avcod.Delivery.{message-audio, deliveries}
use android_study_rtmp_avcod.Packing.Whole.{audio_body_whole}
use android_study_rtmp_avcod.Live.{Live, send_packet, send_audio, send_data, mark_kind}
use android_study_rtmp_avcod.Live.Packets.{Holds}
use android_study_rtmp_avcod.Live.Contract.{connected, Agrees, deliveries-send}

module _ (alloc : PacketAlloc) (memory : (n : ℕ) → Allocates alloc n) (live : Live)
    (calls : List Call) (time : ℕ) where
  pub audio_Agrees :
      (m : Option Sets) (kind mark : ℕ) (bs : List ℕ) (msg : Message)
      → Holds live m
      → (kind == 1 || kind == 2) ≡ true
      → (kind == 0) ≡ false
      → ((b : List ℕ) → mark_kind kind b ≡ store b 1 mark)
      → read_audio (0xaf ∷ mark ∷ bs) ≡ some msg
      → length bs < 2 ^ 30
      → Agrees live.rtmp.stream_id
          (deliveries calls)
          (some (
            m,
            record {
              channel = 5;
              time = time % 2 ^ 32;
              stream = live.rtmp.stream_id;
              message = some msg;
            }
                ∷ [],
          ))
          (send_data alloc bs (length bs) time kind (connected live calls))
  unfolding send_data send_audio send_packet
  audio_Agrees m kind mark bs msg h is not_video marks read small = (
    live,
    calls ++ (sends packet ∷ frees_packet ∷ []),
    simp (
      not_video,
      is,
      audio_body_whole alloc (mark_kind kind) mark bs marks (omega arith) (memory _),
    ),
    h,
    refl,
    deliveries-send calls packet
        ∙ ap
            (λ d.
              deliveries calls
              ++ (record {
                channel = 5;
                time = time % 2 ^ 32;
                stream = live.rtmp.stream_id;
                message = d;
              }
                  ∷ []))
            (message-audio packet refl (omega arith) read),
  )
    where
      packet : Packet
      packet =
          large_packet packet_type_audio 5 (time % 2 ^ 32) live.rtmp.stream_id (length bs + 2)
            (0xaf ∷ mark ∷ bs)
