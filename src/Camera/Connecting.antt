-- ===== src/Camera/Connecting.antt =====
-- What the thread of cpp/x264/Camera2ToolNative.cpp leaves of a connection that fails.
use android_study_rtmp_avcod.Common.{
  ℕ, suc, ◌≡◌, refl, ap, ◌∙◌, true, Option, none, some, List, [], ◌∷◌, ◌++◌, append_assoc, done,
  if◌then◌else◌,
}
use android_study_rtmp_avcod.Rtmp.{allocates, closes, frees, Answers, PacketAlloc}
use android_study_rtmp_avcod.Session.{Clock}
use android_study_rtmp_avcod.Camera.{Camera, close_rtmp}
use android_study_rtmp_avcod.Camera.Thread.{
  starting, ending, finished, try_connect, start, thread_step, run_thread, opened,
}
use android_study_rtmp_avcod.Camera.Sending.{run_thread_goes, run_thread_waits}

start_fails :
    (a : Answers) (url : List ℕ) (c : Camera)
    → a.allocated ≡ true
    → (try_connect a url).1 ≡ none
    → start a url c ≡ (ending, opened 0 (try_connect a url).0 c)
unfolding start try_connect
start_fails a url c found fails = rw (found, fails)

module _ (alloc : PacketAlloc) (clock : Clock) (a : Answers) (header : Option (List ℕ)) where
  -- Where a handle is found but the connection fails, the thread closes and frees the handle as its
  -- last calls, forgets it and ends, with nothing else changed, if Java has not stopped it.
  pub run_thread_fails :
      (url : List ℕ) (n : ℕ) (c : Camera)
      → a.allocated ≡ true
      → (try_connect a url).1 ≡ none
      → c.tried ≡ true
      → run_thread alloc clock a header (suc (suc (suc n))) (starting url) c
        ≡ done (
          finished,
          record c {
            rtmp = none;
            calls = c.calls ++ (allocates ∷ ((try_connect a url).0 ++ (closes ∷ frees ∷ [])));
          },
        )
  unfolding thread_step close_rtmp
  run_thread_fails url n c found fails goes_on =
      run_thread_goes alloc clock a header (suc (suc n)) (starting url) ending c failed
        (ap (λ p. done (some p)) (start_fails a url c found fails))
      ∙ run_thread_goes alloc clock a header (suc n) ending finished failed closed
          (ap (λ b. done (some (finished, if b then closed else failed))) goes_on)
      ∙ run_thread_waits alloc clock a header n finished closed refl
      ∙ ap (λ l. done (finished, record c { rtmp = none; calls = l }))
          (append_assoc c.calls (allocates ∷ (try_connect a url).0) (closes ∷ frees ∷ []))
    where
      failed : Camera
      failed = opened 0 (try_connect a url).0 c

      closed : Camera
      closed = close_rtmp failed
