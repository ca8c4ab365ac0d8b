-- ===== src/Live/Contract.antt =====
-- When a run of `sendData` agrees with the contract of the stream.

use android_study_rtmp_avcod.Common.{
  ℕ, ◌^◌, ◌<◌, ◌≡◌, ◌≢◌, Option, none, some, List, [], ◌∷◌, ◌++◌, append_assoc, length, done, fault,
  null_pointer, Run,
}
use android_study_rtmp_avcod.Rtmp.{Packet, Call, sends, frees_packet}
use android_study_rtmp_avcod.Muxer.{Sets, sps_of, pps_of, Input, sets, unit, header, frame}
use android_study_rtmp_avcod.Delivery.{Delivery, deliver, deliveries, deliveries-append}
use android_study_rtmp_avcod.Live.{Live, State}
use android_study_rtmp_avcod.Live.Save.{start_code, Unmarked}
use android_study_rtmp_avcod.Live.Packets.{Holds}

-- The bytes and the kind that Java passes for an input.
abbrev pub bytes_of : Input → List ℕ
bytes_of (sets q) = start_code ++ (sps_of q ++ (start_code ++ pps_of q))
bytes_of (unit t nal) = start_code ++ (t ∷ nal)
bytes_of (header bs) = bs
bytes_of (frame bs) = bs

abbrev pub kind_of : Input → ℕ
kind_of (sets q) = 0
kind_of (unit t nal) = 0
kind_of (header bs) = 1
kind_of (frame bs) = 2

-- Parameter sets below 2 ^ 15 bytes, the first free of the second's start code; units that are no
-- parameter sets, and lengths below 2 ^ 30.
abbrev pub Fits : Input → Type 0
Fits (sets q) =
    (length (sps_of q) < 2 ^ 15) × (length (pps_of q) < 2 ^ 15) × Unmarked (start_code ++ sps_of q)
Fits (unit t nal) = (t ≢ 0x67) × (length nal < 2 ^ 30)
Fits (header bs) = length bs < 2 ^ 30
Fits (frame bs) = length bs < 2 ^ 30

abbrev pub connected : Live → List Call → State
connected live calls = record { live = some live; calls = calls }

-- What a run does, against what the contract says: a null pointer is read where it refuses.
-- Otherwise the run succeeds, keeps the sets that it names and sends what it delivers.
abbrev pub Agrees : ℕ → List Delivery → Option (Option Sets × List Delivery) → Run State → Type 0
Agrees stream before none r = r ≡ fault null_pointer
Agrees stream before (some (m, out)) r =
    (live : Live) × (calls : List Call) × (r ≡ done (connected live calls))
    × Holds live m
    × (live.rtmp.stream_id ≡ stream)
    × (deliveries calls ≡ before ++ out)

pub deliveries-send :
    (calls : List Call) (p : Packet)
    → deliveries (calls ++ (sends p ∷ frees_packet ∷ [])) ≡ deliveries calls ++ (deliver p ∷ [])
unfolding deliveries
deliveries-send calls p = deliveries-append calls (sends p ∷ frees_packet ∷ [])

pub deliveries-send-send :
    (calls : List Call) (p q : Packet)
    → deliveries ((calls ++ (sends p ∷ frees_packet ∷ [])) ++ (sends q ∷ frees_packet ∷ []))
      ≡ deliveries calls ++ (deliver p ∷ deliver q ∷ [])
deliveries-send-send calls p q =
    rw (deliveries-send (calls ++ (sends p ∷ frees_packet ∷ [])) q, deliveries-send calls p)
      (append_assoc (deliveries calls) (deliver p ∷ []) (deliver q ∷ []))
