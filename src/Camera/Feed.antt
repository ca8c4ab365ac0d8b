-- ===== src/Camera/Feed.antt =====
-- Java's calls of cpp/x264/Camera2ToolNative.cpp that bring data, one after the other.
use android_study_rtmp_avcod.Common.{
  ℕ, ◌≡◌, refl, false, Option, none, some, List, [], ◌∷◌, Run, done, ◌>>=◌,
}
use android_study_rtmp_avcod.Rtmp.{PacketAlloc}
use android_study_rtmp_avcod.Session.{Clock}
use android_study_rtmp_avcod.VideoEncode.{VideoEncode, Planes}
use android_study_rtmp_avcod.VideoEncode.Queueing.{Nal}
use android_study_rtmp_avcod.AudioEncode.{AudioEncode}
use android_study_rtmp_avcod.Camera.{
  Camera, encode_video, encode_audio, native_send_preview_data, send_audio_pcm_data,
}

-- A frame, with what x264 makes of it and what stands on the stack; or samples, with what faac makes
-- of them.
pub data Feed : Type 0 where
  preview : (Planes → List Nal) → List ℕ → List ℕ → List ℕ → Feed
  samples : (List ℕ → ℕ → List ℕ) → List ℕ → ℕ → Feed

module _ (alloc : PacketAlloc) (clock : Clock) where
  abbrev pub feed : Feed → Camera → Run Camera
  feed (preview compress junk junk' frame) =
      native_send_preview_data alloc clock compress junk junk' frame
  feed (samples compress pcm n) = send_audio_pcm_data alloc clock compress pcm n

  abbrev pub feed_all : List Feed → Camera → Run Camera
  feed_all [] c = done c
  feed_all (f ∷ fs) c = feed f c >>= feed_all fs

  -- Where pushing is not allowed a call changes nothing.
  pub feed_nothing : (f : Feed) (c : Camera) → c.pushing ≡ false → feed f c ≡ done c
  unfolding native_send_preview_data send_audio_pcm_data
  feed_nothing (preview compress junk junk' frame) c h = by_video c.video
    where
      by_video :
          (v : Option VideoEncode) → encode_video alloc clock compress junk junk' frame v c ≡ done c
      by_video none = refl
      by_video (some x) = simp h
  feed_nothing (samples compress pcm n) c h = by_audio c.audio
    where
      by_audio : (v : Option AudioEncode) → encode_audio alloc clock compress pcm n v c ≡ done c
      by_audio none = refl
      by_audio (some x) = simp h

  -- Before a connection and after a stop, data changes nothing.
  pub feed_all_nothing : (fs : List Feed) (c : Camera) → c.pushing ≡ false → feed_all fs c ≡ done c
  feed_all_nothing [] c h = refl
  feed_all_nothing (f ∷ fs) c h = rw (feed_nothing f c h) (feed_all_nothing fs c h)
