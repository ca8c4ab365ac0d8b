-- ===== src/Tests.antt =====
-- The theorems at concrete inputs, and runs of the code on them.
use android_study_rtmp_avcod.Common.{
  ℕ, zero, suc, ◌+◌, ◌<◌, ◌≤◌, ◌≡◌, ◌≢◌, refl, ap, Bool, true, false, Option, none, some, List, [],
  ◌∷◌, ◌++◌, arith, length, drop, Run, done, fault, null_pointer, unset, to, wild, ◌==◌, sub32,
  if◌then◌else◌, null,
}
use android_study_rtmp_avcod.Rtmp.{Packet, Rtmp, PacketAlloc, Allocates, Answers, packet_of, Call}
use android_study_rtmp_avcod.Flv.{avc_unit, avc_config, aac_frame, aac_config}
use android_study_rtmp_avcod.Muxer.{
  Sets, sps_of, pps_of, Input, sets, unit, header, frame, next, stream_of,
}
use android_study_rtmp_avcod.Delivery.{deliver, deliveries}
use android_study_rtmp_avcod.Live.{
  Live, save_sps_pps, create_frame_packet, create_sps_pps_packet, send_data,
}
use android_study_rtmp_avcod.Live.Save.{start_code, save_sps_pps_eq}
use android_study_rtmp_avcod.Live.Packets.{
  create_frame_packet_delivers, create_sps_pps_packet_delivers,
}
use android_study_rtmp_avcod.Live.Contract.{bytes_of, kind_of, connected, Agrees}
use android_study_rtmp_avcod.Live.Stream.{AllFit, send_data-Agrees, send_all, send_all-Agrees}
use android_study_rtmp_avcod.SafeQueue.{SafeQueue, zeroed, set_work, push, try_pop, clear}
use android_study_rtmp_avcod.SafeQueue.Effects.{as_list, clear_releases, clear_faults}
use android_study_rtmp_avcod.SafeQueue.Monitor.{
  Monitor, Step, Inv, Reach, here, after, pushes, takes, fresh, away, Reach-Inv, stop_frees_taker,
}
use android_study_rtmp_avcod.Session.{Shared, Clock, get_time}
use android_study_rtmp_avcod.AudioEncode.{AudioEncode, new_audio_encode, calloc}
use android_study_rtmp_avcod.AudioEncode.Contract.{
  QueuesFrame, QueuesHeader, encode-QueuesFrame, queue_acc_data_header-QueuesHeader,
}
use android_study_rtmp_avcod.AudioEncode.Silence.{length-calloc}
pub mod Encoder
pub mod Times
pub mod Thread
pub mod Images
pub mod Pipeline
pub mod Parallel
pub mod Early
pub mod Streams
pub mod Release
pub mod Queue
pub mod Stopping
pub mod Orders

abbrev pub zeros : PacketAlloc
zeros n = some (calloc n)

pub zeros-Allocates : (n : ℕ) → Allocates zeros n
zeros-Allocates n = (calloc n, refl, length-calloc n)

abbrev pub ticks : Clock
ticks n = n + 1

abbrev pub live : Live
live = record {
  rtmp = record { stream_id = 1 };
  sps_length = 0;
  sps = none;
  pps_length = 0;
  pps = none;
}

abbrev two_sets : Sets
two_sets = record {
  profile = 66;
  compatibility = 0;
  level = 31;
  sps_rest = 7 ∷ 9 ∷ [];
  pps_rest = 5 ∷ [];
}

abbrev pub stream : List (ℕ × Input)
stream =
    (0, header (18 ∷ 16 ∷ []))
    ∷ (0, sets two_sets)
    ∷ (5, unit 0x65 (1 ∷ 2 ∷ []))
    ∷ (6, frame (4 ∷ []))
    ∷ (7, unit 0x41 (3 ∷ []))
    ∷ []

pub stream_fits : AllFit stream
stream_fits = (
  omega arith,
  (
    (
      omega arith,
      omega arith,
      (refl, (refl, (refl, (refl, (refl, (refl, (refl, (refl, (refl, (refl, tt)))))))))),
    ),
    ((λ e. omega arith, omega arith), (omega arith, ((λ e. omega arith, omega arith), tt))),
  ),
)

send_all-Agrees_example :
    Agrees 1 (deliveries []) (stream_of 1 none stream) (send_all zeros stream (connected live []))
send_all-Agrees_example =
    send_all-Agrees zeros zeros-Allocates stream live [] none (refl, refl) stream_fits

save_sps_pps_eq_example :
    save_sps_pps
      (start_code ++ ((0x67 ∷ 66 ∷ 0 ∷ 31 ∷ []) ++ (start_code ++ (0x68 ∷ 5 ∷ []))))
      14
      live
    ≡ done (record live {
      sps_length = 4;
      sps = some (0x67 ∷ 66 ∷ 0 ∷ 31 ∷ []);
      pps_length = 2;
      pps = some (0x68 ∷ 5 ∷ []);
    })
save_sps_pps_eq_example =
    save_sps_pps_eq (0x67 ∷ 66 ∷ 0 ∷ 31 ∷ []) (5 ∷ []) live (omega arith) (omega arith)
      (refl, (refl, (refl, (refl, (refl, (refl, (refl, (refl, tt))))))))

create_frame_packet_delivers_example :
    (packet : Packet) × (create_frame_packet zeros live (0 ∷ 0 ∷ 0 ∷ 1 ∷ 0x65 ∷ 8 ∷ []) 6 40
      ≡ done packet)
    × (deliver packet ≡ record {
      channel = 4;
      time = 40;
      stream = 1;
      message = some (avc_unit true (0x65 ∷ 8 ∷ []));
    })
create_frame_packet_delivers_example =
    create_frame_packet_delivers zeros live 0x65 (8 ∷ []) 40 (omega arith) (zeros-Allocates 11)

abbrev holder : Live
holder = record live {
  sps_length = length (sps_of two_sets);
  sps = some (sps_of two_sets);
  pps_length = length (pps_of two_sets);
  pps = some (pps_of two_sets);
}

create_sps_pps_packet_delivers_example :
    (packet : Packet) × (create_sps_pps_packet zeros holder ≡ done packet)
    × (deliver packet ≡ record {
      channel = 4;
      time = 0;
      stream = 1;
      message = some (avc_config 66 0 31 (sps_of two_sets) (pps_of two_sets));
    })
create_sps_pps_packet_delivers_example =
    create_sps_pps_packet_delivers zeros holder two_sets
      (refl, refl, refl, refl, omega arith, omega arith) (zeros-Allocates _)

abbrev pub rtmp : Rtmp
rtmp = record { stream_id = 1 }

abbrev pub shared : Shared
shared = record { queue = record zeroed { work = 1 }; reads = 0 }

abbrev pub speaker : AudioEncode
speaker = record new_audio_encode {
  encoder = true;
  max_bytes = some 4;
  encoded_data = some (calloc 4);
  rtmp = to rtmp;
  queue = to tt;
}

abbrev pub keep : List ℕ → ℕ → List ℕ
keep pcm n = pcm

encode-QueuesFrame_example :
    QueuesFrame zeros ticks zeros-Allocates rtmp keep
      (3 ∷ 4 ∷ [])
      1
      (3 ∷ 4 ∷ [])
      (3 ∷ 4 ∷ 0 ∷ 0 ∷ [])
      (speaker, shared)
encode-QueuesFrame_example =
    encode-QueuesFrame zeros ticks zeros-Allocates rtmp keep (3 ∷ 4 ∷ []) 1 3 4 (4 ∷ []) (calloc 4)
      speaker shared (record { has_queue = refl; has_rtmp = refl; works = refl }) refl refl refl
      refl (omega arith) (omega arith)

queue_acc_data_header-QueuesHeader_example :
    QueuesHeader zeros ticks zeros-Allocates rtmp (18 ∷ 16 ∷ []) (speaker, shared)
queue_acc_data_header-QueuesHeader_example =
    queue_acc_data_header-QueuesHeader zeros ticks zeros-Allocates rtmp (18 ∷ 16 ∷ []) speaker
      shared (record { has_queue = refl; has_rtmp = refl; works = refl }) refl (omega arith)
