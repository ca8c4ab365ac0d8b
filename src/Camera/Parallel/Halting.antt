-- ===== src/Camera/Parallel/Halting.antt =====
-- The three threads of cpp/x264/Camera2ToolNative.cpp behind a call of `nativeStop`.

use android_study_rtmp_avcod.Common.{
  ℕ, zero, suc, ◌≡◌, refl, ap, ◌∙◌, false, Option, none, some, List, [], ◌∷◌, ◌++◌, append_assoc,
  done, ◌>>=◌, if◌then◌else◌,
}
use android_study_rtmp_avcod.Rtmp.{Packet, Rtmp, Call, frees_packet, Answers, PacketAlloc}
use android_study_rtmp_avcod.Flv.{Message}
use android_study_rtmp_avcod.SafeQueue.{try_pop}
use android_study_rtmp_avcod.Session.{Clock}
use android_study_rtmp_avcod.VideoEncode.{VideoEncode}
use android_study_rtmp_avcod.VideoEncode.Units.{IsUsable}
use android_study_rtmp_avcod.VideoEncode.Contract.{Sps, Encoded, nals_of, AllFit, heard_of}
use android_study_rtmp_avcod.VideoEncode.Frames.{Holds}
use android_study_rtmp_avcod.Camera.{Camera, close_rtmp}
use android_study_rtmp_avcod.Camera.Thread.{
  Position, testing, taking, checking, leaving, ending, finished, take, check, thread_step,
  run_thread,
}
use android_study_rtmp_avcod.Camera.Sending.{
  try_pop_waits, try_pop_takes, run_thread_goes, run_thread_stays, run_thread_waits,
}
use android_study_rtmp_avcod.Camera.Stopping.{release_packet-none, release_packet-some}
use android_study_rtmp_avcod.Camera.Parallel.{System}

-- The places of the thread from its loop on.
pub data Late : Position → Type 0 where
  late_test : Late testing
  late_pop : Late taking
  late_check : Late checking
  late_leave : Late leaving
  late_end : Late ending
  late_finish : Late finished

-- Packets are freed, and nothing else is asked of librtmp.
abbrev pub frees_of : ℕ → List Call
frees_of zero = []
frees_of (suc n) = frees_packet ∷ frees_of n

frees_of-suc : (n : ℕ) → frees_of n ++ (frees_packet ∷ []) ≡ frees_of (suc n)
frees_of-suc zero = refl
frees_of-suc (suc n) = ap (λ l. frees_packet ∷ l) (frees_of-suc n)

-- Java has stopped the stream whose handle is `r`; behind the calls `before`, packets were freed alone.
-- The camera thread may be in the middle of a frame.
pub record Halts (r : Rtmp) (before : List Call) (s : System) : Type 0 where
  pub stopped : s.camera.tried ≡ false
  pub quiet : s.camera.pushing ≡ false
  pub has_rtmp : s.camera.rtmp ≡ some r
  pub video : VideoEncode
  pub has_video : s.camera.video ≡ some video
  pub usable : IsUsable r video s.camera.shared
  pub encoded : List Encoded
  pub set : Option Sps
  pub now : List Message
  pub has_units : s.units ≡ nals_of encoded
  pub holds : Holds s.arrays set
  pub fit : AllFit encoded
  pub says : heard_of set encoded ≡ some now
  pub late : Late s.place
  pub freed : ℕ
  pub accounted : s.camera.calls ≡ before ++ frees_of freed

abbrev moved : System → Position → Option Packet → List Packet → List Call → System
moved s p packet items calls = record s {
  place = p;
  camera = record s.camera {
    packet = packet;
    shared = record s.camera.shared { queue = record s.camera.shared.queue { items = items } };
    calls = calls;
  };
}

-- The thread that sends moves on.
moved-Halts :
    (r : Rtmp) (before : List Call) (s : System) (p : Position) (packet : Option Packet)
    (items : List Packet) (calls : List Call) (n : ℕ)
    → Halts r before s
    → Late p
    → calls ≡ before ++ frees_of n
    → Halts r before (moved s p packet items calls)
moved-Halts r before s p packet items calls n hs late e = record {
  stopped = hs.stopped;
  quiet = hs.quiet;
  has_rtmp = hs.has_rtmp;
  video = hs.video;
  has_video = hs.has_video;
  usable = record {
    has_queue = hs.usable.has_queue;
    has_rtmp = hs.usable.has_rtmp;
    works = hs.usable.works;
  };
  encoded = hs.encoded;
  set = hs.set;
  now = hs.now;
  has_units = hs.has_units;
  holds = hs.holds;
  fit = hs.fit;
  says = hs.says;
  late = late;
  freed = n;
  accounted = e;
}

check_leaves : (c : Camera) → c.tried ≡ false → check c ≡ done (leaving, c)
unfolding check
check_leaves c stopped = simp stopped

module _ (alloc : PacketAlloc) (clock : Clock) (a : Answers) (header : Option (List ℕ)) (r : Rtmp)
    (before : List Call) where
  -- A step that goes well.
  abbrev pub Moves : System → Position → Type 0
  Moves s p =
      (p' : Position) × (c' : Camera) × (run_thread alloc clock a header 1 p s.camera
        ≡ done (p', c'))
      × Halts r before (record s { place = p'; camera = c' })

  goes :
      (s : System) (p p' : Position) (c' : Camera)
      → thread_step alloc clock a header p s.camera ≡ done (some (p', c'))
      → Halts r before (record s { place = p'; camera = c' })
      → Moves s p
  goes s p p' c' e hs = (
    p',
    c',
    run_thread_goes alloc clock a header 0 p p' s.camera c' e
        ∙ run_thread_stays alloc clock a header p' c',
    hs,
  )

  -- The thread goes on with the camera as it is.
  still :
      (s : System) (p : Position)
      → Halts r before s
      → Late p
      → Halts r before (record s { place = p })
  still s p hs late =
      moved-Halts r before s p s.camera.packet s.camera.shared.queue.items s.camera.calls hs.freed
        hs late hs.accounted

  pops :
      (s : System) (items : List Packet)
      → s.camera.shared.queue.items ≡ items
      → Halts r before s
      → Moves s taking
  unfolding thread_step
  pops s [] e hs = (
    taking,
    s.camera,
    run_thread_waits alloc clock a header 0 taking s.camera (
        ap (λ o. done (take o s.camera))
          (ap (λ l. try_pop (record s.camera.shared.queue { items = l })) e
            ∙ try_pop_waits s.camera.shared.queue hs.usable.works)),
    still s taking hs late_pop,
  )
  pops s (x ∷ xs) e hs =
      goes s taking checking _
        (ap (λ o. done (take o s.camera))
          (ap (λ l. try_pop (record s.camera.shared.queue { items = l })) e
            ∙ try_pop_takes s.camera.shared.queue x xs hs.usable.works))
        (moved-Halts r before s checking (some x) xs s.camera.calls hs.freed hs late_check
          hs.accounted)

  leaves :
      (s : System) (packet : Option Packet)
      → s.camera.packet ≡ packet
      → Halts r before s
      → Moves s leaving
  unfolding thread_step
  leaves s none e hs =
      goes s leaving ending s.camera
        (ap (λ k. done (some (ending, k))) (release_packet-none s.camera e))
        (still s ending hs late_end)
  leaves s (some x) e hs =
      goes s leaving ending _ (ap (λ k. done (some (ending, k))) (release_packet-some s.camera x e))
        (moved-Halts r before s ending none s.camera.shared.queue.items
          (s.camera.calls ++ (frees_packet ∷ [])) (suc hs.freed) hs late_end
          (ap (λ l. l ++ (frees_packet ∷ [])) hs.accounted
            ∙ append_assoc before (frees_of hs.freed) (frees_packet ∷ [])
            ∙ ap (λ l. before ++ l) (frees_of-suc hs.freed)))

  -- A step of the thread that sends.
  pub sender-Moves : (s : System) (p : Position) → Late p → Halts r before s → Moves s p
  unfolding thread_step
  sender-Moves s p late_test hs =
      goes s testing leaving s.camera
        (ap (λ b. done (some (if b then taking else leaving, s.camera))) hs.stopped)
        (still s leaving hs late_leave)
  sender-Moves s p late_pop hs = pops s s.camera.shared.queue.items refl hs
  sender-Moves s p late_check hs =
      goes s checking leaving s.camera
        (ap (λ x. x >>= λ k. done (some k)) (check_leaves s.camera hs.stopped))
        (still s leaving hs late_leave)
  sender-Moves s p late_leave hs = leaves s s.camera.packet refl hs
  sender-Moves s p late_end hs =
      goes s ending finished s.camera
        (ap (λ b. done (some (finished, if b then close_rtmp s.camera else s.camera))) hs.stopped)
        (still s finished hs late_finish)
  sender-Moves s p late_finish hs = (
    finished,
    s.camera,
    run_thread_waits alloc clock a header 0 finished s.camera refl,
    still s finished hs late_finish,
  )
