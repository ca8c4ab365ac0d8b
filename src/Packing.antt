-- ===== src/Packing.antt =====
-- The bodies that RtmpLive.cpp and X264VideoEncode.cpp give to RTMP packets. The two files hold
-- the same stores, line for line; each of their functions calls the one here.
pub mod Frame
pub mod Config
pub mod Read
pub mod Whole
pub mod Bounds
pub mod Packed
pub mod Typed
use android_study_rtmp_avcod.Common.{
  ℕ, ◌+◌, ◌/◌, ◌%◌, ◌^◌, Option, List, [], ◌∷◌, Run, done, ◌>>=◌, assigned, add_int, load, store,
  put, copy, ◌==◌, if◌then◌else◌,
}
use android_study_rtmp_avcod.Rtmp.{PacketAlloc}

-- `(x >> k) & 0xff`
abbrev pub byte_at : ℕ → ℕ → ℕ
byte_at x k = x / 2 ^ k % 256

-- The body of a packet with one unit: `nal` is the unit behind its start code, of which `len`
-- bytes count. The result is the size of the body and its bytes.
unfoldable pub frame_body : PacketAlloc → List ℕ → ℕ → Run (ℕ × List ℕ)
frame_body alloc nal len = do
  size ← add_int len 9
  b ← assigned (alloc size)
  b ← store b 0 0x27
  t ← load nal 0
  b ← if t == 0x65 then store b 0 0x17 else done b
  b ← store b 1 0x01
  b ← store b 2 0x00
  b ← store b 3 0x00
  b ← store b 4 0x00
  b ← store b 5 (byte_at len 24)
  b ← store b 6 (byte_at len 16)
  b ← store b 7 (byte_at len 8)
  b ← store b 8 (len % 256)
  (b, i) ← copy b 9 nal len
  done (size, b)

-- The body of the packet with the decoder's configuration.
unfoldable pub config_body : PacketAlloc → List ℕ → List ℕ → ℕ → ℕ → Run (ℕ × List ℕ)
config_body alloc sps pps sps_len pps_len = do
  both ← add_int sps_len pps_len
  size ← add_int both 16
  b ← assigned (alloc size)
  (b, i) ← put b 0 (0x17 ∷ 0x00 ∷ 0x00 ∷ 0x00 ∷ 0x00 ∷ 0x01 ∷ [])
  profile ← load sps 1
  compatibility ← load sps 2
  level ← load sps 3
  (b, i) ← put b i (profile ∷ compatibility ∷ level ∷ [])
  (b, i) ← put b i (0xff ∷ 0xe1 ∷ byte_at sps_len 8 ∷ sps_len % 256 ∷ [])
  (b, i) ← copy b i sps sps_len
  (b, i) ← put b i (0x01 ∷ byte_at pps_len 8 ∷ pps_len % 256 ∷ [])
  (b, i) ← copy b i pps pps_len
  done (size, b)

-- The body of an audio packet: 0xaf, a byte that `mark` stores, and `len` bytes of data.
unfoldable pub audio_body : PacketAlloc → (List ℕ → Run (List ℕ)) → List ℕ → ℕ → Run (ℕ × List ℕ)
audio_body alloc mark input len = do
  size ← add_int len 2
  b ← assigned (alloc size)
  b ← store b 0 0xaf
  b ← mark b
  (b, i) ← copy b 2 input len
  done (size, b)
