-- ===== src/Live/Asked.antt =====
-- The JNI calls on cpp/rtmp/RtmpLive.cpp, in any order.
use android_study_rtmp_avcod.Common.{
  ℕ, List, [], ◌∷◌, none, Run, done, ◌>>=◌, AreBytes, Ensures, returns, Ensures-bind,
  Ensures-weaken,
}
use android_study_rtmp_avcod.Rtmp.{Answers, PacketAlloc}
use android_study_rtmp_avcod.Packing.Packed.{BufferOf}
use android_study_rtmp_avcod.Packing.Typed.{SendsPackets}
use android_study_rtmp_avcod.Live.{State, connect, send_data}
use android_study_rtmp_avcod.Live.Packed.{StateFits, connect-StateFits, send_data-StateFits}

-- A call that Java makes: a connection to a url, with librtmp's answers, or data of a kind.
pub data Ask : Type 0 where
  connecting : Answers → List ℕ → Ask
  sending : (p : List ℕ) (len time kind : ℕ) → Ask

-- The arrays that Java brings hold bytes.
abbrev pub BringsBytes : List Ask → Type 0
BringsBytes [] = Unit {0}
BringsBytes (connecting a url ∷ asks) = BringsBytes asks
BringsBytes (sending p len time kind ∷ asks) = AreBytes p × BringsBytes asks

-- The library is loaded: there is no stream, and librtmp was not called.
abbrev pub unused : State
unused = record { live = none; calls = [] }

abbrev pub ask : PacketAlloc → Ask → State → Run State
ask alloc (connecting a url) s = connect a url s >>= λ r. done r.1
ask alloc (sending p len time kind) s = send_data alloc p len time kind s

abbrev pub ask_all : PacketAlloc → List Ask → State → Run State
ask_all alloc [] s = done s
ask_all alloc (q ∷ qs) s = ask alloc q s >>= ask_all alloc qs

ask_all-StateFits :
    (alloc : PacketAlloc)
    → ((n : ℕ) → BufferOf n (alloc n))
    → (asks : List Ask) (s : State) → BringsBytes asks
    → StateFits s
    → Ensures StateFits (ask_all alloc asks s)
ask_all-StateFits alloc memory [] s bytes h = returns h
ask_all-StateFits alloc memory (connecting a url ∷ asks) s bytes h =
    Ensures-bind (Ensures-bind {Q = StateFits} (connect-StateFits a url s h) λ r k. returns k)
      λ s' k. ask_all-StateFits alloc memory asks s' bytes k
ask_all-StateFits alloc memory (sending p len time kind ∷ asks) s (b, bytes) h =
    Ensures-bind (send_data-StateFits alloc memory p len time kind s b h)
      λ s' k. ask_all-StateFits alloc memory asks s' bytes k

-- Whatever Java asks from the load of the library on, in whatever order, with whatever arrays of bytes
-- and with whatever answers of librtmp, if the allocator of packets gives blocks of the announced size:
-- after every sequence of these calls that does not crash, every packet that was given to
-- `RTMP_SendPacket` fits librtmp's record. Its type is audio or video, its channel fits, its time has 32
-- bits, and its body has exactly the announced size and holds bytes only.
pub ask_all-SendsPackets :
    (alloc : PacketAlloc)
    → ((n : ℕ) → BufferOf n (alloc n))
    → (asks : List Ask) → BringsBytes asks
    → Ensures (λ s. SendsPackets s.calls) (ask_all alloc asks unused)
ask_all-SendsPackets alloc memory asks bytes =
    Ensures-weaken (ask_all-StateFits alloc memory asks unused bytes (tt, tt)) λ s h. h.1
