-- ===== src/Camera/World/Alone.antt =====
-- One thread of cpp/x264/Camera2ToolNative.cpp among others.
use android_study_rtmp_avcod.Common.{
  ℕ, zero, suc, ◌≡◌, refl, ap, ◌∙◌, Option, none, some, List, [], ◌∷◌, ◌++◌, Run, done, fault,
  ◌>>=◌,
}
use android_study_rtmp_avcod.Rtmp.{Answers, PacketAlloc}
use android_study_rtmp_avcod.Session.{Clock}
use android_study_rtmp_avcod.Camera.{Camera}
use android_study_rtmp_avcod.Camera.Feed.{Feed, preview, samples, feed}
use android_study_rtmp_avcod.Camera.Sending.{run_thread_stays, run_thread_waits}
use android_study_rtmp_avcod.Camera.Thread.{Position, thread_step, run_thread}
use android_study_rtmp_avcod.Camera.World.{
  World, Event, brings_picture, brings_samples, turn, stepped, on_camera, act, act_all,
}

-- `n` turns of the thread with this number.
abbrev pub turns_of : Answers → Option (List ℕ) → ℕ → ℕ → List Event
turns_of a header number zero = []
turns_of a header number (suc n) = turn a header number ∷ turns_of a header number n

-- A call with data, as an event.
abbrev pub brings : Feed → Event
brings (preview compress junk junk' frame) = brings_picture compress junk junk' frame
brings (samples compress pcm n) = brings_samples compress pcm n

-- What is bound one after the other.
pub bind_assoc {ℓ κ ι} :
    {A : Type ℓ} {B : Type κ} {C : Type ι} (t : Run A) (f : A → Run B) (g : B → Run C)
    → ((t >>= f) >>= g) ≡ (t >>= λ x. f x >>= g)
bind_assoc (done x) f g = refl
bind_assoc (fault e) f g = refl

module _ (alloc : PacketAlloc) (clock : Clock) where
  -- A call with data in a world is the call on its camera.
  pub brings-feed :
      (f : Feed) (w : World)
      → act alloc clock (brings f) w ≡ on_camera w (feed alloc clock f w.camera)
  brings-feed (preview compress junk junk' frame) w = refl
  brings-feed (samples compress pcm n) w = refl

module _ (alloc : PacketAlloc) (clock : Clock) (a : Answers) (header : Option (List ℕ)) (number : ℕ)
    (at : Position → Camera → World)
    (acts : (p : Position) (c : Camera)
      → act alloc clock (turn a header number) (at p c) ≡ (
          thread_step alloc clock a header p c >>= λ o.
          done (at (stepped alloc clock p c o).0 (stepped alloc clock p c o).1))) where
  -- The turns of a thread are its run, whatever the other threads are.
  pub turns_of_run :
      (es : List Event) (n : ℕ) (p : Position) (c : Camera)
      → act_all alloc clock (turns_of a header number n ++ es) (at p c)
        ≡ (run_thread alloc clock a header n p c >>= λ r. act_all alloc clock es (at r.0 r.1))
  unfolding run_thread
  turns_of_run es zero p c = refl
  turns_of_run es (suc n) p c =
      ap (λ x. x >>= act_all alloc clock (turns_of a header number n ++ es)) (acts p c)
      ∙ by_step (thread_step alloc clock a header p c) refl (turns_of_run es n)
    where
      stays :
          (n : ℕ)
          → thread_step alloc clock a header p c ≡ done none
          → run_thread alloc clock a header n p c ≡ done (p, c)
      stays zero h = run_thread_stays alloc clock a header p c
      stays (suc n) h = run_thread_waits alloc clock a header n p c h

      by_step :
          (o : Run (Option (Position × Camera)))
          → thread_step alloc clock a header p c ≡ o
          → ((s : Position) (k : Camera)
              → act_all alloc clock (turns_of a header number n ++ es) (at s k) ≡ (
                  run_thread alloc clock a header n s k >>= λ r.
                  act_all alloc clock es (at r.0 r.1)))
          → ((o >>= λ o. done (at (stepped alloc clock p c o).0 (stepped alloc clock p c o).1))
              >>= act_all alloc clock (turns_of a header number n ++ es))
            ≡ (◌>>=◌ {A = Option (Position × Camera)} {B = Position × Camera} o
                  (elim [ none ↦ done (p, c) | some r ↦ run_thread alloc clock a header n r.0 r.1 ])
                >>= λ r. act_all alloc clock es (at r.0 r.1))
      by_step (fault e) h next = refl
      by_step (done none) h next =
          next p c ∙ ap (λ x. x >>= λ r. act_all alloc clock es (at r.0 r.1)) (stays n h)
      by_step (done (some (s, k))) h next = next s k
