-- ===== src/AudioEncode/Silence.antt =====
-- Samples of which faac makes nothing yet, and what noting the start of cpp/x264/FAACAudioEncode.cpp
-- leaves as it was.

use android_study_rtmp_avcod.Common.{
  zero, suc, put, ℕ, ◌≡◌, refl, true, some, List, [], arith, length, done,
}
use android_study_rtmp_avcod.Rtmp.{PacketAlloc}
use android_study_rtmp_avcod.Session.{Shared, Clock}
use android_study_rtmp_avcod.AudioEncode.{calloc, AudioEncode, note_start, encode}

pub note_start-timeless :
    (clock : Clock) (e : AudioEncode) (s : Shared)
    → record (note_start clock (e, s)).0 { start_time = 0 } ≡ record e { start_time = 0 }
note_start-timeless clock e s = ground arith

pub note_start-queue :
    (clock : Clock) (e : AudioEncode) (s : Shared) → (note_start clock (e, s)).1.queue ≡ s.queue
note_start-queue clock e s = ground arith

-- Where faac makes nothing of the samples, nothing is queued and nothing but the buffer is touched.
pub encode-silent :
    (alloc : PacketAlloc) (clock : Clock) (compress : List ℕ → ℕ → List ℕ) (pcm : List ℕ)
    (n max : ℕ) (buffer : List ℕ) (e : AudioEncode) (s : Shared)
    → e.encoder ≡ true
    → e.encoded_data ≡ some buffer
    → e.max_bytes ≡ some max
    → compress pcm n ≡ []
    → encode alloc clock compress pcm n (e, s) ≡ done (record e { encoded_data = some buffer }, s)
unfolding encode put
encode-silent alloc clock compress pcm n max buffer e s is_open has_buffer has_max made =
    simp (is_open, has_buffer, has_max, made)

pub length-calloc : (n : ℕ) → length (calloc n) ≡ n
length-calloc zero = refl
length-calloc (suc n) = omega (arith, length-calloc n)
