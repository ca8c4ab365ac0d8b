-- ===== src/VideoEncode/Queueing.antt =====
-- The half of cpp/x264/X264VideoEncode.cpp that packs encoded units into packets and queues them.
use android_study_rtmp_avcod.Common.{
  ℕ, ◌+◌, Bool, false, Option, none, some, List, [], ◌∷◌, ◌++◌, length, Run, done, fault,
  null_pointer, Pointer, null, is_set, deref, assigned, ◌>>=◌, load, load_all, advance, copy,
  sub_length, sub32, ◌==◌, if◌then◌else◌,
}
use android_study_rtmp_avcod.Rtmp.{
  Packet, PacketAlloc, packet_type_video, packet_size_large, packet_size_medium, packet_of,
}
use android_study_rtmp_avcod.SafeQueue.{push, set_work, clear}
use android_study_rtmp_avcod.Session.{Shared, Clock, get_time}
use android_study_rtmp_avcod.Packing.{frame_body, config_body}
use android_study_rtmp_avcod.VideoEncode.{VideoEncode, Planes, planes_of, non_null, closes}

-- `p && q` on two pointers: the second is not read where the first is null.
unfoldable pub both_set {ℓ κ} : {A : Type ℓ} {B : Type κ} → Pointer A → Pointer B → Run Bool
both_set p q = is_set p >>= λ first. if first then is_set q else done false

abbrev pub State : Type 0
State = VideoEncode × Shared

-- `packetQueue->push`
abbrev pub push_packet : Packet → Shared → Run Shared
push_packet packet s = push packet s.queue >>= λ queue. done (record s { queue = queue })

-- `queueSPSAndPPSPacket`
unfoldable pub queue_sps_pps_packet : PacketAlloc → List ℕ → List ℕ → ℕ → ℕ → State → Run State
queue_sps_pps_packet alloc sps pps sps_length pps_length (e, s) = do
  usable ← both_set e.queue e.rtmp
  if usable
      then (do
        (size, body) ← config_body alloc sps pps sps_length pps_length
        rtmp ← deref e.rtmp
        s' ←
            push_packet
              (packet_of packet_size_medium packet_type_video 10 0 rtmp.stream_id size body) s
        done (e, s'))
      else done (e, s)

-- The start of the stream is the time at which the first unit is queued.
abbrev pub note_start : Clock → State → State
note_start clock (e, s) =
    if e.start_time == 0
    then (let (now, s') = get_time clock s in (record e { start_time = now }, s'))
    else (e, s)

-- The packing and queueing half of `queueFramePacket`, at the reading `now` of the clock.
unfoldable pub push_frame : PacketAlloc → List ℕ → ℕ → ℕ → State → Run State
push_frame alloc payload len now (e, s) = do
  third ← load payload 2
  let prefix = if third == 0x00 then 4 else 3
  nal ← advance payload prefix
  n ← sub_length len prefix
  (size, body) ← frame_body alloc nal n
  rtmp ← deref e.rtmp
  s' ←
      push_packet
        (packet_of packet_size_large packet_type_video 10 (sub32 now e.start_time) rtmp.stream_id
          size body)
        s
  done (e, s')

-- `queueFramePacket`
unfoldable pub queue_frame_packet : PacketAlloc → Clock → List ℕ → ℕ → State → Run State
queue_frame_packet alloc clock payload len (e, s) = do
  usable ← both_set e.queue e.rtmp
  if usable
      then (let (e', s') = note_start clock (e, s) in
          let (now, s'') = get_time clock s' in push_frame alloc payload len now (e', s''))
      else done (e, s)

-- `x264_nal_t`: `i_type`, and the `i_payload` bytes at `p_payload`.
pub record Nal : Type 0 where
  pub kind : ℕ
  pub payload : List ℕ

abbrev pub nal_sps : ℕ
nal_sps = 7

abbrev pub nal_pps : ℕ
nal_pps = 8

-- The local variables of `encodeData`: two arrays of 100 bytes and the two lengths.
pub record Locals : Type 0 where
  pub sps : List ℕ
  pub pps : List ℕ
  pub sps_length : Option ℕ
  pub pps_length : Option ℕ

-- One round of the loop over the units of a frame.
unfoldable pub queue_nal : PacketAlloc → Clock → Nal → Locals × State → Run (Locals × State)
queue_nal alloc clock nal (b, st) =
    if nal.kind == nal_sps
    then (do
      n ← sub_length (length nal.payload) 4
      from ← advance nal.payload 4
      (sps, i) ← copy b.sps 0 from n
      done (record b { sps = sps; sps_length = some n }, st))
    else if nal.kind == nal_pps
    then (do
      n ← sub_length (length nal.payload) 4
      from ← advance nal.payload 4
      (pps, i) ← copy b.pps 0 from n
      m ← assigned b.sps_length
      st' ← queue_sps_pps_packet alloc b.sps pps m n st
      done (record b { pps = pps; pps_length = some n }, st'))
    else (do
      st' ← queue_frame_packet alloc clock nal.payload (length nal.payload) st
      done (b, st'))

unfoldable pub queue_nals : PacketAlloc → Clock → List Nal → Locals × State → Run State
queue_nals alloc clock [] (b, st) = done st
queue_nals alloc clock (nal ∷ nals) l = queue_nal alloc clock nal l >>= queue_nals alloc clock nals

-- The arrays are on the stack and hold whatever stood there.
abbrev pub locals : List ℕ → List ℕ → Locals
locals sps pps = record { sps = sps; pps = pps; sps_length = none; pps_length = none }

-- `encodeData` up to its loop: the frame's planes are copied, and x264 makes units of them.
unfoldable pub begin_frame :
    (Planes → List Nal) → List ℕ → VideoEncode → Run (List Nal × VideoEncode)
begin_frame compress frame e = do
  old ← non_null e.input
  size ← assigned e.y_size
  uv ← assigned e.uv_size
  y ← load_all frame size
  from_u ← advance frame size
  u ← load_all from_u uv
  from_v ← advance frame (size + uv)
  v ← load_all from_v uv
  let planes = planes_of y u v
  if e.encoder then done (compress planes, record e { input = some planes }) else fault null_pointer

-- `encodeData`: the units of the frame are queued.
unfoldable pub encode_data :
    PacketAlloc → Clock → (Planes → List Nal) → Locals → List ℕ → State → Run State
encode_data alloc clock compress b frame (e, s) = do
  (nals, e') ← begin_frame compress frame e
  queue_nals alloc clock nals (b, (e', s))

-- `~X264VideoEncode`
unfoldable pub destroy : State → Run State
destroy (e, s) = do
  has_rtmp ← is_set e.rtmp
  has_queue ← is_set e.queue
  queue ← if has_queue then clear (set_work 0 s.queue) else done s.queue
  has_callback ← is_set e.callback
  done (
    record e {
      encoder = false;
      rtmp = null;
      queue = null;
      callback = null;
      calls = if e.encoder then e.calls ++ (closes ∷ []) else e.calls;
    },
    record s { queue = queue },
  )
