-- ===== src/Camera/World.antt =====
-- Java's calls of cpp/x264/Camera2ToolNative.cpp and the turns of any number of sending threads, in any
-- order: every `nativeRtmpstart` that passes the test of `alreadyTryConnect` makes one more thread, and
-- all threads share the globals.
pub mod Calls
pub mod Steps
pub mod Packed
pub mod Alone
pub mod Threads
pub mod Restarting
use android_study_rtmp_avcod.Common.{
  ℕ, zero, suc, ◌∷◌, ◌++◌, List, [], Option, none, some, Run, done, ◌>>=◌, if◌then◌else◌,
}
use android_study_rtmp_avcod.Rtmp.{Answers, PacketAlloc}
use android_study_rtmp_avcod.Session.{Clock}
use android_study_rtmp_avcod.VideoEncode.{Planes, Opening}
use android_study_rtmp_avcod.VideoEncode.Queueing.{Nal}
use android_study_rtmp_avcod.AudioEncode.{Opened}
use android_study_rtmp_avcod.Camera.{
  Camera, loaded, native_x264_encode_init, native_faac_encode_init, native_faac_encode_open,
  native_x264_encode_open, native_rtmp_start, native_send_preview_data, send_audio_pcm_data,
  native_stop, native_release,
}
use android_study_rtmp_avcod.Camera.Thread.{Position, starting, thread_step}

-- The globals, and where each thread stands.
pub record World : Type 0 where
  pub camera : Camera
  pub threads : List Position

-- A call of Java, with what x264 and faac answer and what stands on the stack, or the turn of the thread
-- with this number, with the answers of librtmp and the header of faac.
pub data Event : Type 0 where
  inits_video inits_audio stops releases : Event
  opens_audio : Opened → (sample_rate channel_count : ℕ) → Event
  opens_video : Opening → (width height fps bit_rate : ℕ) → Event
  starts : (url : List ℕ) → Event
  brings_picture : (Planes → List Nal) → (junk junk' frame : List ℕ) → Event
  brings_samples : (List ℕ → ℕ → List ℕ) → (pcm : List ℕ) (n : ℕ) → Event
  turn : Answers → Option (List ℕ) → (number : ℕ) → Event

-- The library is loaded: nothing was called and no thread was made.
abbrev pub fresh : World
fresh = record { camera = loaded 0; threads = [] }

-- `nativeRtmpstart` also makes a thread, if it passes its test.
abbrev pub start_thread : List ℕ → World → World
start_thread url w = record {
  camera = native_rtmp_start url w.camera;
  threads = if w.camera.tried then w.threads else w.threads ++ (starting url ∷ []);
}

abbrev pub on_camera : World → Run Camera → Run World
on_camera w run = run >>= λ c. done (record w { camera = c })

module _ (alloc : PacketAlloc) (clock : Clock) where
  -- Where the thread stands behind its step, and the globals; it stays where it waits or has ended.
  abbrev pub stepped : Position → Camera → Option (Position × Camera) → Position × Camera
  stepped p c none = (p, c)
  stepped p c (some r) = r

  -- The step of the thread with this number, if there is one.
  abbrev pub step_at :
      Answers → Option (List ℕ) → ℕ → List Position → Camera → Run (List Position × Camera)
  step_at a header number [] c = done ([], c)
  step_at a header zero (p ∷ ps) c =
      thread_step alloc clock a header p c >>= λ o. done ((stepped p c o).0 ∷ ps, (stepped p c o).1)
  step_at a header (suc number) (p ∷ ps) c =
      step_at a header number ps c >>= λ r. done (p ∷ r.0, r.1)

  abbrev pub act : Event → World → Run World
  act inits_video w = done (record w { camera = native_x264_encode_init w.camera })
  act inits_audio w = done (record w { camera = native_faac_encode_init w.camera })
  act stops w = done (record w { camera = native_stop w.camera })
  act releases w = on_camera w (native_release w.camera)
  act (opens_audio o sample_rate channel_count) w =
      native_faac_encode_open o sample_rate channel_count w.camera >>= λ r.
      done (record w { camera = r.1 })
  act (opens_video o width height fps bit_rate) w =
      on_camera w (native_x264_encode_open o width height fps bit_rate w.camera)
  act (starts url) w = done (start_thread url w)
  act (brings_picture compress junk junk' frame) w =
      on_camera w (native_send_preview_data alloc clock compress junk junk' frame w.camera)
  act (brings_samples compress pcm n) w =
      on_camera w (send_audio_pcm_data alloc clock compress pcm n w.camera)
  act (turn a header number) w = step_at a header number w.threads w.camera >>= λ r.
      done (record { camera = r.1; threads = r.0 })

  abbrev pub act_all : List Event → World → Run World
  act_all [] w = done w
  act_all (e ∷ es) w = act e w >>= act_all es
