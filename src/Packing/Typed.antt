-- ===== src/Packing/Typed.antt =====
-- Packets whose fields fit the C types and the RTMP format, in a queue and among calls.
use android_study_rtmp_avcod.Common.{
  false, zero, suc, length, out_of_bounds, ◌>>=◌, ℕ, ◌^◌, ◌≤◌, ◌<◌, ◌≡◌, ◌⊎◌, List, [], ◌∷◌, ◌++◌,
  fault, ◌==◌, Ensures, returns, faults, Ensures-bind, Ensures-if, IsBuffer,
}
use android_study_rtmp_avcod.Rtmp.{Packet, Call, sends, packet_of}
use android_study_rtmp_avcod.SafeQueue.{SafeQueue, release, push, clear_loop, clear}
use android_study_rtmp_avcod.Packing.Packed.{IsPacked}

-- A chunk stream of one byte, a video or an audio message, and a body of bytes of the announced size.
pub record IsPacket (p : Packet) : Type 0 where
  pub header : p.header_type < 4
  pub kind : (p.packet_type ≡ 8) ⊎ (p.packet_type ≡ 9)
  pub channel : (3 ≤ p.channel) × (p.channel < 64)
  pub time : p.time_stamp < 2 ^ 32
  pub size : p.body_size < 2 ^ 31
  pub body : IsBuffer p.body_size p.body

pub packet_of-IsPacket :
    (header kind channel time stream : ℕ) (r : ℕ × List ℕ)
    → header < 4
    → (kind ≡ 8) ⊎ (kind ≡ 9)
    → (3 ≤ channel) × (channel < 64)
    → time < 2 ^ 32
    → IsPacked r
    → IsPacket (packet_of header kind channel time stream r.0 r.1)
packet_of-IsPacket header kind channel time stream r h k c t (size, body) = record {
  header = h;
  kind = k;
  channel = c;
  time = t;
  size = size;
  body = body;
}

abbrev pub ArePackets : List Packet → Type 0
ArePackets [] = Unit {0}
ArePackets (p ∷ ps) = IsPacket p × ArePackets ps

ArePackets-append : (ps qs : List Packet) → ArePackets ps → ArePackets qs → ArePackets (ps ++ qs)
ArePackets-append [] qs h k = k
ArePackets-append (p ∷ ps) qs (a, h) k = (a, ArePackets-append ps qs h k)

-- The packets that `RTMP_SendPacket` was given.
abbrev pub SendsPacket : Call → Type 0
SendsPacket (sends p) = IsPacket p
SendsPacket _ = Unit {0}

abbrev pub SendsPackets : List Call → Type 0
SendsPackets [] = Unit {0}
SendsPackets (c ∷ cs) = SendsPacket c × SendsPackets cs

pub SendsPackets-append :
    (cs ds : List Call) → SendsPackets cs → SendsPackets ds → SendsPackets (cs ++ ds)
SendsPackets-append [] ds h k = k
SendsPackets-append (c ∷ cs) ds (a, h) k = (a, SendsPackets-append cs ds h k)

-- The packets that are queued fit, and there is no release callback.
abbrev pub HoldsPackets : SafeQueue Packet → Type 0
HoldsPackets q = ArePackets q.items × (q.release_callback ≡ false)

release_faults :
    {P : SafeQueue Packet → Type 0} (p : Packet) (q : SafeQueue Packet)
    → q.release_callback ≡ false
    → Ensures P (release p q)
unfolding release
release_faults p q bare = rw bare faults

pub push-HoldsPackets :
    (p : Packet) (q : SafeQueue Packet)
    → IsPacket p
    → HoldsPackets q
    → Ensures HoldsPackets (push p q)
unfolding push
push-HoldsPackets p q h (items, bare) =
    Ensures-if (q.work == 0) (release_faults p q bare)
      (returns (ArePackets-append q.items (p ∷ []) items (h, tt), bare))

clear_loop-HoldsPackets :
    (n : ℕ) (q : SafeQueue Packet) → HoldsPackets q → Ensures HoldsPackets (clear_loop n q)
unfolding clear_loop
clear_loop-HoldsPackets zero q h = returns h
clear_loop-HoldsPackets (suc n) q (items, bare) = by_items q.items
  where
    by_items :
        (items : List Packet)
        → Ensures HoldsPackets (elim items [
          | [] ↦ fault out_of_bounds
          | value ∷ rest ↦ release value q >>= λ k. clear_loop n (record k { items = rest })
        ])
    by_items [] = faults
    by_items (p ∷ ps) = Ensures-bind {P = λ k. ⊥} (release_faults p q bare) λ k no. absurd no

pub clear-HoldsPackets : (q : SafeQueue Packet) → HoldsPackets q → Ensures HoldsPackets (clear q)
unfolding clear
clear-HoldsPackets q h = clear_loop-HoldsPackets (length q.items) q h
