-- ===== src/Live.antt =====
-- cpp/rtmp/RtmpLive.cpp: the hardware-encoded stream. Java hands over encoded units one by one; each
-- becomes one or two RTMP packets, which are sent at once. `malloc` finds memory. A length that comes
-- from Java is not negative.
pub mod Save
pub mod Packets
pub mod Contract
pub mod Video
pub mod Audio
pub mod Stream
pub mod Search
pub mod Connect
pub mod Packed
pub mod Asked
use android_study_rtmp_avcod.Common.{
  ℕ, zero, suc, ◌+◌, ◌-◌, ◌%◌, ◌^◌, Bool, true, false, not, ◌&&◌, ◌||◌, Option, none, some, List,
  [], ◌∷◌, ◌++◌, Run, done, fault, null_pointer, out_of_bounds, ◌>>=◌, load, store, load_all,
  advance, sub_length, to_int16, ltb, ◌==◌, if◌then◌else◌,
}
use android_study_rtmp_avcod.Rtmp.{
  Packet, Rtmp, Call, allocates, inits, enables_write, connects, connects_stream, frees_packet,
  sets_timeout, sets_url, sends, Answers, PacketAlloc, packet_type_audio, packet_type_video,
  large_packet,
}
use android_study_rtmp_avcod.Packing.{frame_body, config_body, audio_body}

-- `struct RtmpLive`; the two data pointers are null until they are set.
pub record Live : Type 0 where
  pub rtmp : Rtmp
  pub sps_length : ℕ
  pub sps : Option (List ℕ)
  pub pps_length : ℕ
  pub pps : Option (List ℕ)

-- The global `rtmpLive`, and the calls that were made.
pub record State : Type 0 where
  pub live : Option Live
  pub calls : List Call

abbrev non_null {ℓ} : {A : Type ℓ} → Option A → Run A
non_null none = fault null_pointer
non_null (some a) = done a

abbrev is_null {ℓ} : {A : Type ℓ} → Option A → Bool
is_null none = true
is_null (some a) = false

-- The `do … while (0)` of `connect` behind `RTMP_Init`: the stream's id, unless a call fails.
pub attempt : Answers → List ℕ → List Call → Option ℕ × List Call
attempt a url calls =
    let named = calls ++ (sets_timeout 10 ∷ sets_url url ∷ []) in
    let tried = named ++ (enables_write ∷ connects ∷ []) in
    if not a.url_accepted
    then (none, named)
    else if not a.connected
    then (none, tried)
    else (a.stream, tried ++ (connects_stream ∷ []))

-- After a failure only the `RtmpLive` is freed.
abbrev finish : Option ℕ × List Call → Bool × State
finish (none, calls) = (false, record { live = none; calls = calls })
finish (some id, calls) = (
  true,
  record {
    live = some (record {
      rtmp = record { stream_id = id };
      sps_length = 0;
      sps = none;
      pps_length = 0;
      pps = none;
    });
    calls = calls;
  },
)

-- `MyMediaProjection.connect`. `RTMP_Init` writes through what `RTMP_Alloc` returned.
pub connect : Answers → List ℕ → State → Run (Bool × State)
connect a url s =
    if a.allocated
    then done (finish (attempt a url (s.calls ++ (allocates ∷ inits ∷ []))))
    else fault null_pointer

-- `sendPacket`; what `RTMP_SendPacket` returns is only logged.
pub send_packet : Packet → State → State
send_packet p s = record s { calls = s.calls ++ (sends p ∷ frees_packet ∷ []) }

-- The second byte of an audio packet: 1 stands for the header, 2 for data.
abbrev pub mark_kind : ℕ → List ℕ → Run (List ℕ)
mark_kind kind b =
    if kind == 1 then store b 1 0x00 else if kind == 2 then store b 1 0x01 else done b

-- `sendAudioEncodeData`. `m_nTimeStamp` takes the low 32 bits of the time.
pub send_audio : PacketAlloc → List ℕ → ℕ → ℕ → ℕ → State → Run State
send_audio alloc input len time kind s = do
  live ← non_null s.live
  (size, body) ← audio_body alloc (mark_kind kind) input len
  done (
      send_packet (large_packet packet_type_audio 5 (time % 2 ^ 32) live.rtmp.stream_id size body)
        s)

-- Whether the bytes `vs` stand at `p[i]`, compared in turn up to the first difference.
pub stands_at : List ℕ → ℕ → List ℕ → Run Bool
stands_at p i [] = done true
stands_at p i (v ∷ vs) =
    let rest = stands_at p (i + 1) vs in do x ← load p i; if x == v then rest else done false

-- The body of the loop of `saveSPSAndPPS` where the start code of the pps was found at `i`.
pub split_sets : List ℕ → ℕ → ℕ → Live → Run Live
split_sets p len i live = do
  before ← sub_length i 4
  m ← to_int16 before
  behind ← sub_length len 8
  behind' ← sub_length behind m
  n ← to_int16 behind'
  from_sps ← advance p 4
  sps ← load_all from_sps m
  from_pps ← advance p (m + 8)
  pps ← load_all from_pps n
  done (record live { sps_length = m; sps = some sps; pps_length = n; pps = some pps })

-- The loop from `i` on, with `n` rounds left.
pub save_loop : List ℕ → ℕ → Live → ℕ → ℕ → Run Live
save_loop p len live zero i = done live
save_loop p len live (suc n) i =
    let rest = save_loop p len live n (i + 1) in
    if ltb (i + 4) len
    then (stands_at p i (0x00 ∷ 0x00 ∷ 0x00 ∷ 0x01 ∷ 0x68 ∷ []) >>= λ found.
        if found then split_sets p len i live else rest)
    else rest

-- `saveSPSAndPPS`
pub save_sps_pps : List ℕ → ℕ → Live → Run Live
save_sps_pps p len live = save_loop p len live len 0

-- `createSPSPPSPacket`
pub create_sps_pps_packet : PacketAlloc → Live → Run Packet
create_sps_pps_packet alloc live = do
  sps ← non_null live.sps
  pps ← non_null live.pps
  (size, body) ← config_body alloc sps pps live.sps_length live.pps_length
  done (large_packet packet_type_video 4 0 live.rtmp.stream_id size body)

-- `createFramePacket`
pub create_frame_packet : PacketAlloc → Live → List ℕ → ℕ → ℕ → Run Packet
create_frame_packet alloc live p len time = do
  nal ← advance p 4
  n ← sub_length len 4
  (size, body) ← frame_body alloc nal n
  done (large_packet packet_type_video 4 (time % 2 ^ 32) live.rtmp.stream_id size body)

-- The branch of `sendVideoEncodeData` for parameter sets: they are kept once.
pub keep_sets : List ℕ → ℕ → Option Live → State → Run State
keep_sets p len none s = done s
keep_sets p len (some live) s =
    if is_null live.sps || is_null live.pps
    then (save_sps_pps p len live >>= λ saved. done (record s { live = some saved }))
    else done s

-- `sendVideoEncodeData`: a key frame goes behind the parameter sets.
pub send_video : PacketAlloc → List ℕ → ℕ → ℕ → State → Run State
send_video alloc p len time s = do
  t ← load p 4
  if t == 0x67 then keep_sets p len s.live s else (if t == 0x65 then key else done s) >>= frame
  where
    key : Run State
    key = do
      live ← non_null s.live
      packet ← create_sps_pps_packet alloc live
      done (send_packet packet s)

    frame : State → Run State
    frame s' = do
      live ← non_null s'.live
      packet ← create_frame_packet alloc live p len time
      done (send_packet packet s')

-- `MyMediaProjection.sendData`; a kind that is none of the three is ignored.
pub send_data : PacketAlloc → List ℕ → ℕ → ℕ → ℕ → State → Run State
send_data alloc p len time kind s =
    if kind == 0
    then send_video alloc p len time s
    else if kind == 1 || kind == 2
    then send_audio alloc p len time kind s
    else done s
