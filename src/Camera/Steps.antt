-- ===== src/Camera/Steps.antt =====
-- The first steps of the thread of cpp/x264/Camera2ToolNative.cpp on a connection that succeeds.
use android_study_rtmp_avcod.Common.{
  ℕ, suc, ◌≡◌, refl, ap, ◌∙◌, true, Bool_cases, inl, inr, Option, none, some, List, [], ◌∷◌, ◌++◌,
  done, to, if◌then◌else◌,
}
use android_study_rtmp_avcod.Rtmp.{Rtmp, allocates, Answers, PacketAlloc}
use android_study_rtmp_avcod.Delivery.{deliveries}
use android_study_rtmp_avcod.Session.{Shared, Clock}
use android_study_rtmp_avcod.VideoEncode.{VideoEncode}
use android_study_rtmp_avcod.AudioEncode.{AudioEncode, queue_acc_data_header}
use android_study_rtmp_avcod.Camera.{Camera}
use android_study_rtmp_avcod.Camera.Thread.{
  starting, introducing, allowing, waking, attaching_video, attaching_audio, heading, ending,
  try_connect, start, go_on, introduce, allow_pushing, wake, attach_video, attach_audio,
  queue_header, to_position, thread_step, run_thread, opened,
}
use android_study_rtmp_avcod.Camera.Sending.{run_thread_goes}
use android_study_rtmp_avcod.Camera.Schedule.{heard_by}

-- The camera `k` whose encoders `v` and `u` have the handle `r`.
abbrev pub met_camera : Rtmp → VideoEncode → AudioEncode → Camera → Camera
met_camera r v u k = record k {
  video = some (record v { rtmp = to r });
  audio = some (record u { rtmp = to r });
}

-- It when pushing is allowed, when the queue works, and when both encoders have the queue.
abbrev pub allowed_camera : Clock → Rtmp → VideoEncode → AudioEncode → Camera → Camera
allowed_camera clock r v u k = allow_pushing clock (met_camera r v u k)

abbrev pub pushing_camera : Clock → Rtmp → VideoEncode → AudioEncode → Camera → Camera
pushing_camera clock r v u k = wake (allowed_camera clock r v u k)

abbrev pub wired_camera : Clock → Rtmp → VideoEncode → AudioEncode → Camera → Camera
wired_camera clock r v u k = record (pushing_camera clock r v u k) {
  video = some (record v { rtmp = to r; queue = to tt });
  audio = some (record u { rtmp = to r; queue = to tt });
}

pub start_succeeds :
    (a : Answers) (url : List ℕ) (id : ℕ) (c : Camera)
    → a.allocated ≡ true
    → (try_connect a url).1 ≡ some id
    → start a url c ≡ (introducing, opened id (try_connect a url).0 c)
unfolding start
start_succeeds a url id c found reached =
    ap
      (λ b.
        if b
        then go_on (try_connect a url).0 (try_connect a url).1 c
        else (ending, record c { rtmp = none; calls = c.calls ++ (allocates ∷ []) }))
      found
    ∙ ap (λ o. go_on (try_connect a url).0 o c) reached

introduce_ends :
    (r : Rtmp) (k : Camera) (v : VideoEncode) (u : AudioEncode)
    → k.rtmp ≡ some r
    → k.video ≡ some v
    → k.audio ≡ some u
    → introduce k ≡ done (met_camera r v u k)
unfolding introduce
introduce_ends r k v u has_rtmp has_video has_audio = simp (has_rtmp, has_video, has_audio)

pub queue_header_ends :
    (alloc : PacketAlloc) (clock : Clock) (header : Option (List ℕ)) (k : Camera)
    (u u' : AudioEncode) (s : Shared)
    → k.audio ≡ some u
    → queue_acc_data_header alloc clock header (u, k.shared) ≡ done (u', s)
    → queue_header alloc clock header k ≡ done (record k { audio = some u'; shared = s })
unfolding queue_header
queue_header_ends alloc clock header k u u' s has_audio runs = simp (has_audio, runs)

module _ (alloc : PacketAlloc) (clock : Clock) (a : Answers) (header : Option (List ℕ)) where
  -- On a connection that succeeds, with both encoders there, the third step allows pushing.
  pub run_thread_allows :
      (n : ℕ) (url : List ℕ) (id : ℕ) (c : Camera) (v : VideoEncode) (u : AudioEncode)
      → a.allocated ≡ true
      → (try_connect a url).1 ≡ some id
      → c.video ≡ some v
      → c.audio ≡ some u
      → run_thread alloc clock a header (suc (suc (suc n))) (starting url) c
        ≡ run_thread alloc clock a header n waking (
            allowed_camera clock
              (record { stream_id = id })
              v
              u
              (opened id (try_connect a url).0 c))
  unfolding thread_step
  run_thread_allows n url id c v u found reached has_video has_audio =
      run_thread_goes alloc clock a header (suc (suc n)) (starting url) introducing c k
        (ap (λ pc. done (some pc)) (start_succeeds a url id c found reached))
      ∙ run_thread_goes alloc clock a header (suc n) introducing allowing k _ (
          ap (to_position allowing)
            (introduce_ends (record { stream_id = id }) k v u refl has_video has_audio))
      ∙ run_thread_goes alloc clock a header n allowing waking _ _ refl
    where
      k : Camera
      k = opened id (try_connect a url).0 c

  -- The fourth sets the queue to work.
  pub run_thread_wakes :
      (n : ℕ) (c : Camera)
      → run_thread alloc clock a header (suc n) waking c
        ≡ run_thread alloc clock a header n attaching_video (wake c)
  unfolding thread_step
  run_thread_wakes n c =
      run_thread_goes alloc clock a header n waking attaching_video c (wake c) refl

  -- After six steps the thread is before the header, and both encoders have the queue.
  pub run_thread_wires :
      (n : ℕ) (url : List ℕ) (id : ℕ) (c : Camera) (v : VideoEncode) (u : AudioEncode)
      → a.allocated ≡ true
      → (try_connect a url).1 ≡ some id
      → c.video ≡ some v
      → c.audio ≡ some u
      → run_thread alloc clock a header (suc (suc (suc (suc (suc (suc n)))))) (starting url) c
        ≡ run_thread alloc clock a header n heading
            (wired_camera clock (record { stream_id = id }) v u (opened id (try_connect a url).0 c))
  unfolding thread_step attach_video attach_audio
  run_thread_wires n url id c v u found reached has_video has_audio =
      run_thread_allows (suc (suc (suc n))) url id c v u found reached has_video has_audio
      ∙ run_thread_wakes (suc (suc n)) _
      ∙ run_thread_goes alloc clock a header (suc n) attaching_video attaching_audio _ _ refl
      ∙ run_thread_goes alloc clock a header n attaching_audio heading _ _ refl

pub try_connect-silent :
    (a : Answers) (url : List ℕ) → heard_by (allocates ∷ (try_connect a url).0) ≡ []
unfolding try_connect deliveries
try_connect-silent a url = elim (Bool_cases a.url_accepted) [
  | inr refused ↦ rw refused
  | inl accepted ↦ elim (Bool_cases a.connected) [
    | inl met ↦ rw (accepted, met)
    | inr missed ↦ rw (accepted, missed)
  ]
]
