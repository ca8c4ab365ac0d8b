-- ===== src/Camera/Parallel.antt =====
-- The three threads that run cpp/x264/Camera2ToolNative.cpp at once: Java's camera thread, which brings
-- frames, Java's audio thread, which brings samples, and the thread that sends. A call with a frame is
-- cut between the units that x264 made of it: each is queued by itself.
pub mod Runs
pub mod Frames
pub mod Halting
pub mod Silence
pub mod Turns
pub mod Merging
pub mod Session
use android_study_rtmp_avcod.Common.{
  ℕ, not, Option, none, some, List, [], ◌∷◌, Run, done, ◌>>=◌, if◌then◌else◌,
}
use android_study_rtmp_avcod.Rtmp.{Answers, PacketAlloc}
use android_study_rtmp_avcod.Session.{Clock}
use android_study_rtmp_avcod.VideoEncode.{VideoEncode, Planes, non_null}
use android_study_rtmp_avcod.VideoEncode.Queueing.{Nal, Locals, locals, begin_frame, queue_nal}
use android_study_rtmp_avcod.Camera.{Camera, send_audio_pcm_data}
use android_study_rtmp_avcod.Camera.Thread.{Position, run_thread}

-- A frame, with what x264 makes of its planes and what stands in the two arrays on the stack.
pub record Picture : Type 0 where
  pub compress : Planes → List Nal
  pub junk : List ℕ
  pub junk' : List ℕ
  pub frame : List ℕ

-- Samples, with what faac makes of them.
pub record Sound : Type 0 where
  pub compress : List ℕ → ℕ → List ℕ
  pub pcm : List ℕ
  pub count : ℕ

-- The thread that sends and the camera; the units that the call of the camera thread has still to
-- queue, and its arrays; the frames and samples that come yet.
pub record System : Type 0 where
  pub place : Position
  pub camera : Camera
  pub units : List Nal
  pub arrays : Locals
  pub pictures : List Picture
  pub sounds : List Sound

pub data Who : Type 0 where
  camera_thread audio_thread sender : Who

-- `nativeSendPreviewData` up to the loop over the units, where `video` is the global encoder.
abbrev pub start_picture : Picture → Option VideoEncode → System → Run System
start_picture f none s = done s
start_picture f (some e) s = if not s.camera.pushing then done s else (do
  (nals, e') ← begin_frame f.compress f.frame e
  done (record s {
    camera = record s.camera { video = some e' };
    units = nals;
    arrays = locals f.junk f.junk';
  }))

module _ (alloc : PacketAlloc) (clock : Clock) where
  -- One round of the loop over the units.
  abbrev pub queue_unit : Nal → System → Run System
  queue_unit nal s = do
    e ← non_null s.camera.video
    (b, (e', shared)) ← queue_nal alloc clock nal (s.arrays, (e, s.camera.shared))
    done (record s { camera = record s.camera { video = some e'; shared = shared }; arrays = b })

  abbrev pub camera_turn : List Nal → List Picture → System → Run System
  camera_turn [] [] s = done s
  camera_turn [] (f ∷ fs) s = start_picture f s.camera.video (record s { pictures = fs })
  camera_turn (nal ∷ nals) fs s = queue_unit nal (record s { units = nals })

  abbrev pub audio_turn : List Sound → System → Run System
  audio_turn [] s = done s
  audio_turn (x ∷ xs) s = do
    c ← send_audio_pcm_data alloc clock x.compress x.pcm x.count s.camera
    done (record s { camera = c; sounds = xs })

  -- One turn of a thread.
  abbrev pub step : Answers → Option (List ℕ) → Who → System → Run System
  step a header camera_thread s = camera_turn s.units s.pictures s
  step a header audio_thread s = audio_turn s.sounds s
  step a header sender s = do
    (p, c) ← run_thread alloc clock a header 1 s.place s.camera
    done (record s { place = p; camera = c })

  -- The turns of a schedule.
  abbrev pub run_all : Answers → Option (List ℕ) → List Who → System → Run System
  run_all a header [] s = done s
  run_all a header (w ∷ ws) s = step a header w s >>= run_all a header ws
