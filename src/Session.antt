-- ===== src/Session.antt =====
-- What the encoders and the thread that sends share (the globals of cpp/x264/Camera2ToolNative.cpp
-- that an encoder reaches): the packet queue, and the clock behind `RTMP_GetTime`.
use android_study_rtmp_avcod.Common.{ℕ, suc, ◌%◌, ◌^◌}
use android_study_rtmp_avcod.Rtmp.{Packet}
use android_study_rtmp_avcod.SafeQueue.{SafeQueue}

-- `reads` counts the readings of the clock so far.
pub record Shared : Type 0 where
  pub queue : SafeQueue Packet
  pub reads : ℕ

-- The milliseconds that each reading of the clock gives; `RTMP_GetTime` returns the low 32 bits.
abbrev pub Clock : Type 0
Clock = ℕ → ℕ

-- `RTMP_GetTime()`
abbrev pub get_time : Clock → Shared → ℕ × Shared
get_time clock s = (clock s.reads % 2 ^ 32, record s { reads = suc s.reads })
