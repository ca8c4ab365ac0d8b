-- ===== src/Camera.antt =====
-- cpp/x264/Camera2ToolNative.cpp: the camera's stream. Java's calls and the thread that sends share
-- the globals. JNI, x264, faac and librtmp are parameters. Strings and arrays of Java are lists of
-- bytes, whose copies and releases have no effect here.
pub mod Thread
pub mod Connecting
pub mod Feed
pub mod Sending
pub mod Streaming
pub mod Schedule
pub mod Steps
pub mod Heading
pub mod Starting
pub mod Setup
pub mod Pipeline
pub mod Stopping
pub mod Releasing
pub mod Racing
pub mod Parallel
pub mod World
use android_study_rtmp_avcod.Common.{
  ℕ, ◌∷◌, ◌++◌, Bool, true, false, not, ◌||◌, Option, none, some, List, [], Run, done, fault,
  null_pointer, Pointer, to, ◌>>=◌, if◌then◌else◌,
}
use android_study_rtmp_avcod.Rtmp.{Packet, Rtmp, Call, closes, frees, frees_packet, PacketAlloc}
use android_study_rtmp_avcod.SafeQueue.{zeroed}
use android_study_rtmp_avcod.Session.{Shared, Clock}
use android_study_rtmp_avcod.VideoEncode.{
  VideoEncode, Planes, new_video_encode, Opening, init_and_open, set_callback,
}
use android_study_rtmp_avcod.VideoEncode.Queueing.{Nal, locals, encode_data}
use android_study_rtmp_avcod.AudioEncode.{
  AudioEncode, new_audio_encode, Opened, open_faac_encode, get_input_data_size, encode,
}

-- The globals. `tried` is `alreadyTryConnect`, `pushing` is `readPushing`, `packet` is `videoPacket`,
-- and `threads` the urls of the threads that `nativeRtmpstart` made; `calls` are those of librtmp.
pub record Camera : Type 0 where
  pub video : Option VideoEncode
  pub audio : Option AudioEncode
  pub rtmp : Option Rtmp
  pub shared : Shared
  pub packet : Option Packet
  pub tried : Bool
  pub pushing : Bool
  pub vm : Bool
  pub callback : Bool
  pub start_time : ℕ
  pub threads : List (List ℕ)
  pub calls : List Call

-- The globals when the library is loaded; the clock was read `reads` times.
abbrev pub loaded : ℕ → Camera
loaded reads = record {
  video = none;
  audio = none;
  rtmp = none;
  shared = record { queue = zeroed; reads = reads };
  packet = none;
  tried = false;
  pushing = false;
  vm = false;
  callback = false;
  start_time = 0;
  threads = [];
  calls = [];
}

-- `JNI_OnLoad`, which keeps the virtual machine; `vm` is whether it has.
unfoldable pub jni_on_load : Camera → Camera
jni_on_load c = record c { vm = true }

-- `nativeX264EncodeInit`
unfoldable pub native_x264_encode_init : Camera → Camera
native_x264_encode_init c = record c {
  video = some (set_callback new_video_encode);
  callback = true;
}

-- `nativeFaacEncodeInit`
unfoldable pub native_faac_encode_init : Camera → Camera
native_faac_encode_init c = record c { audio = some new_audio_encode }

-- `nativeFaacEncodeOpen`, whose value is -1 (`none`) where there is no encoder.
unfoldable pub native_faac_encode_open : Opened → ℕ → ℕ → Camera → Run (Option ℕ × Camera)
native_faac_encode_open o sample_rate channel_count c = elim c.audio [
  | none ↦ done (none, c)
  | some e ↦ do
    e' ← open_faac_encode o sample_rate channel_count e
    size ← get_input_data_size e'
    done (some size, record c { audio = some e' })
]

-- `nativeX264EncodeOpen`
unfoldable pub native_x264_encode_open : Opening → ℕ → ℕ → ℕ → ℕ → Camera → Run Camera
native_x264_encode_open o width height fps bit_rate c = elim c.video [
  | none ↦ done c
  | some e ↦ do
    (ret, e') ← init_and_open o width height fps bit_rate e
    done (record c { video = some e' })
]

-- `nativeRtmpstart`
unfoldable pub native_rtmp_start : List ℕ → Camera → Camera
native_rtmp_start url c =
    if c.tried then c else record c { tried = true; threads = c.threads ++ (url ∷ []) }

-- `native_send_preview_data` where `video` is the global encoder.
abbrev pub encode_video :
    PacketAlloc
    → Clock
    → (Planes → List Nal)
    → List ℕ
    → List ℕ
    → List ℕ
    → Option VideoEncode
    → Camera
    → Run Camera
encode_video alloc clock compress junk junk' frame none c = done c
encode_video alloc clock compress junk junk' frame (some e) c =
    if not c.pushing then done c else (do
      (e', s) ← encode_data alloc clock compress (locals junk junk') frame (e, c.shared)
      done (record c { video = some e'; shared = s }))

-- `nativeSendPreviewData`; the two lists stand on the stack.
unfoldable pub native_send_preview_data :
    PacketAlloc → Clock → (Planes → List Nal) → List ℕ → List ℕ → List ℕ → Camera → Run Camera
native_send_preview_data alloc clock compress junk junk' frame c =
    encode_video alloc clock compress junk junk' frame c.video c

-- `send_audio_pcm_data` where `audio` is the global encoder.
abbrev pub encode_audio :
    PacketAlloc
    → Clock
    → (List ℕ → ℕ → List ℕ)
    → List ℕ
    → ℕ
    → Option AudioEncode
    → Camera
    → Run Camera
encode_audio alloc clock compress pcm data_length none c = done c
encode_audio alloc clock compress pcm data_length (some e) c = if not c.pushing then done c else (do
  (e', s) ← encode alloc clock compress pcm data_length (e, c.shared)
  done (record c { audio = some e'; shared = s }))

-- `sendAudioPcmData`
unfoldable pub send_audio_pcm_data :
    PacketAlloc → Clock → (List ℕ → ℕ → List ℕ) → List ℕ → ℕ → Camera → Run Camera
send_audio_pcm_data alloc clock compress pcm data_length c =
    encode_audio alloc clock compress pcm data_length c.audio c

-- `nativeStop`
unfoldable pub native_stop : Camera → Camera
native_stop c = record c { tried = false; pushing = false; start_time = 0 }

-- `if (rtmp) { RTMP_Close(rtmp); RTMP_Free(rtmp); rtmp = nullptr; }`
unfoldable pub close_rtmp : Camera → Camera
close_rtmp c = elim c.rtmp [
  | none ↦ c
  | some r ↦ record c { rtmp = none; calls = c.calls ++ (closes ∷ frees ∷ []) }
]

-- `delete x264VideoEncode`, unless it is null.
unfoldable pub delete_video : Option VideoEncode → Shared → Run Shared
delete_video none s = done s
delete_video (some e) s =
    android_study_rtmp_avcod.VideoEncode.Queueing.destroy (e, s) >>= λ r. done r.1

-- `delete faacAudioEncode`, unless it is null.
unfoldable pub delete_audio : Option AudioEncode → Run {0} (Unit {0})
delete_audio none = done tt
delete_audio (some e) = android_study_rtmp_avcod.AudioEncode.destroy e >>= λ e'. done tt

-- The statements of `nativeRelease` behind the first: both encoders are freed, and the callback with
-- the flags.
unfoldable pub free_video : Camera → Run Camera
free_video c = do
  shared ← delete_video c.video c.shared
  done (record c { video = none; shared = shared })

unfoldable pub free_audio : Camera → Run Camera
free_audio c = do gone ← delete_audio c.audio; done (record c { audio = none })

abbrev pub reset : Camera → Camera
reset c = record c { callback = false; tried = false; pushing = false; start_time = 0 }

-- `nativeRelease`
unfoldable pub native_release : Camera → Run Camera
native_release c = do c ← free_video (close_rtmp c); c ← free_audio c; done (reset c)

-- `releasePacket(videoPacket)`
unfoldable pub release_packet : Camera → Camera
release_packet c = elim c.packet [
  | none ↦ c
  | some p ↦ record c { packet = none; calls = c.calls ++ (frees_packet ∷ []) }
]
