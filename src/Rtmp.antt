-- ===== src/Rtmp.antt =====
-- What the streaming code touches of librtmp (head/rtmp/rtmp.h): the packet that it fills, the
-- field of the connection that it reads, and the calls that it makes. librtmp itself is a copy of
-- another project: what its functions answer is a parameter, and each call is recorded.
use android_study_rtmp_avcod.Common.{ℕ, ◌≡◌, Bool, Option, some, List, length}

-- `RTMPPacket`, less `m_nBytesRead` and `m_chunk`, which only librtmp uses.
pub record Packet : Type 0 where
  pub header_type : ℕ
  pub packet_type : ℕ
  pub has_abs_timestamp : ℕ
  pub channel : ℕ
  pub time_stamp : ℕ
  pub info_field2 : ℕ
  pub body_size : ℕ
  pub body : List ℕ

abbrev pub packet_type_audio : ℕ
packet_type_audio = 0x08

abbrev pub packet_type_video : ℕ
packet_type_video = 0x09

abbrev pub packet_size_large : ℕ
packet_size_large = 0

abbrev pub packet_size_medium : ℕ
packet_size_medium = 1

-- A packet by its header's size, its type, channel, time, stream, the size of its body and its body.
abbrev pub packet_of : ℕ → ℕ → ℕ → ℕ → ℕ → ℕ → List ℕ → Packet
packet_of header kind channel time stream size body = record {
  header_type = header;
  packet_type = kind;
  has_abs_timestamp = 0;
  channel = channel;
  time_stamp = time;
  info_field2 = stream;
  body_size = size;
  body = body;
}

abbrev pub large_packet : ℕ → ℕ → ℕ → ℕ → ℕ → List ℕ → Packet
large_packet = packet_of packet_size_large

-- `RTMP`: of its fields the code reads `m_stream_id` alone.
pub record Rtmp : Type 0 where
  pub stream_id : ℕ

-- The calls of librtmp, in the order in which they are made. `sets_timeout` is the assignment to
-- `Link.timeout`, and `frees_packet` is `RTMPPacket_Free` with the `free` or `delete` behind it.
pub data Call : Type 0 where
  allocates inits enables_write connects connects_stream closes frees frees_packet : Call
  sets_timeout : ℕ → Call
  sets_url : List ℕ → Call
  sends : Packet → Call

-- What librtmp answers while a connection is made: whether `RTMP_Alloc` finds memory, whether the
-- url is accepted, whether the server is reached, and the id of the stream, if one is created.
pub record Answers : Type 0 where
  pub allocated : Bool
  pub url_accepted : Bool
  pub connected : Bool
  pub stream : Option ℕ

-- `RTMPPacket_Alloc(p, n)`: the bytes of the body, or `none` if there is no memory.
abbrev pub PacketAlloc : Type 0
PacketAlloc = ℕ → Option (List ℕ)

-- It gives a body of the size that was asked for.
abbrev pub Allocates : PacketAlloc → ℕ → Type 0
Allocates alloc n = (b : List ℕ) × (alloc n ≡ some b) × (length b ≡ n)
