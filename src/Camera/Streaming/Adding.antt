-- ===== src/Camera/Streaming/Adding.antt =====
-- What a call with data of cpp/x264/Camera2ToolNative.cpp adds to a stream that runs.

use android_study_rtmp_avcod.Common.{ℕ, List}
use android_study_rtmp_avcod.Rtmp.{Rtmp, PacketAlloc, Allocates}
use android_study_rtmp_avcod.Session.{Clock}
use android_study_rtmp_avcod.Camera.{Camera}
use android_study_rtmp_avcod.Camera.Feed.{Feed, feed}
use android_study_rtmp_avcod.Camera.Streaming.{
  Said, Means, picture, sound, silence, IsStreaming, Adds,
}
use android_study_rtmp_avcod.Camera.Streaming.Video.{picture-Adds}
use android_study_rtmp_avcod.Camera.Streaming.Audio.{sound-Adds, silence-Adds}

module _ (alloc : PacketAlloc) (clock : Clock) (memory : (n : ℕ) → Allocates alloc n) where
  -- On a stream that runs, every call with data adds to the queue exactly what it means.
  pub feed-Adds :
      (size uv max : ℕ) (r : Rtmp) (c : Camera) (f : Feed) (said : List Said)
      → IsStreaming size uv max r c
      → Means size uv max f said
      → Adds size uv max r said c (feed alloc clock f c)
  feed-Adds size uv max r c f said st
        (picture compress us ms y u v behind junk junk' frame heard ly lu lv frames lj lj' made fit
          contract says) =
      rw (frames, says)
        (picture-Adds alloc clock memory size uv max r c compress us ms y u v behind junk junk' st
          ly lu lv lj lj' made fit contract)
  feed-Adds size uv max r c f said st (sound compress pcm n b bs heard made fits small says) =
      rw says (sound-Adds alloc clock memory size uv max r c compress pcm n b bs st made fits small)
  feed-Adds size uv max r c f said st (silence compress pcm n heard made says) =
      rw says (silence-Adds alloc clock memory size uv max r c compress pcm n st made)
