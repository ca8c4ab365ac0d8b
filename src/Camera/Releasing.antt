-- ===== src/Camera/Releasing.antt =====
-- What `nativeRelease` of cpp/x264/Camera2ToolNative.cpp does to a stream, and what a new connection
-- does behind it.
use mathlib.Core.Path.{subst}
use android_study_rtmp_avcod.Common.{
  ℕ, suc, ◌≡◌, refl, sym, ap, ◌∙◌, true, false, Option, none, some, List, [], ◌∷◌, ◌++◌, Run, done,
  fault, null_pointer, to, length, ◌⊎◌, inl, inr, ◌≢◌, ◌>>=◌, if◌then◌else◌,
}
use android_study_rtmp_avcod.Rtmp.{Packet, Rtmp, closes, frees, Answers, PacketAlloc}
use android_study_rtmp_avcod.SafeQueue.{SafeQueue, set_work, clear, clear_loop, take_front, try_pop}
use android_study_rtmp_avcod.Session.{Shared, Clock}
use android_study_rtmp_avcod.VideoEncode.{VideoEncode}
use android_study_rtmp_avcod.VideoEncode.Queueing.{destroy}
use android_study_rtmp_avcod.VideoEncode.Encode.{destroy_faults}
use android_study_rtmp_avcod.AudioEncode.{AudioEncode}
use android_study_rtmp_avcod.Camera.{
  Camera, native_release, native_rtmp_start, delete_video, delete_audio, close_rtmp, free_video,
  free_audio, reset,
}
use android_study_rtmp_avcod.Camera.Thread.{
  starting, introducing, allowing, taking, checking, leaving, finished, take, try_connect,
  introduce, to_position, check, thread_step, run_thread, opened,
}
use android_study_rtmp_avcod.Camera.Sending.{run_thread_goes, run_thread_faults, try_pop_takes}
use android_study_rtmp_avcod.Camera.Steps.{start_succeeds}
use android_study_rtmp_avcod.Camera.Streaming.{IsStreaming}
use android_study_rtmp_avcod.Camera.Stopping.{leaves_ends}

-- The camera behind a release with nothing queued.
abbrev pub released : Camera → Camera
released c = record c {
  rtmp = none;
  calls = c.calls ++ (closes ∷ frees ∷ []);
  video = none;
  audio = none;
  shared = record c.shared { queue = set_work 0 c.shared.queue };
  callback = false;
  tried = false;
  pushing = false;
  start_time = 0;
}

clear_empty : (q : SafeQueue Packet) → q.items ≡ [] → clear q ≡ done q
unfolding clear clear_loop
clear_empty q no_items = ap (λ l. clear_loop (length l) q) no_items

delete_video_empty :
    (e : VideoEncode) (s : Shared) (r : Rtmp)
    → e.rtmp ≡ to r
    → e.queue ≡ to tt
    → e.callback ≡ to tt
    → s.queue.items ≡ []
    → delete_video (some e) s ≡ done (record s { queue = set_work 0 s.queue })
unfolding delete_video destroy set_work
delete_video_empty e s r hr hq hc no_items =
    rw (hr, hq, hc) (rw (clear_empty (set_work 0 s.queue) no_items))

delete_audio_ends :
    (e : AudioEncode) (r : Rtmp) → e.rtmp ≡ to r → e.queue ≡ to tt → delete_audio (some e) ≡ done tt
unfolding delete_audio android_study_rtmp_avcod.AudioEncode.destroy
delete_audio_ends e r hr hq = rw (hq, hr)

close_rtmp-some :
    (c : Camera) (r : Rtmp)
    → c.rtmp ≡ some r
    → close_rtmp c ≡ record c { rtmp = none; calls = c.calls ++ (closes ∷ frees ∷ []) }
unfolding close_rtmp
close_rtmp-some c r has_rtmp =
    subst (λ k. close_rtmp k ≡ record k { rtmp = none; calls = k.calls ++ (closes ∷ frees ∷ []) })
      whole refl
  where
    whole : record c { rtmp = some r } ≡ c
    whole = λ i. record c { rtmp = sym has_rtmp i }

-- The camera whose handle is closed and freed.
abbrev closed : Camera → Camera
closed c = record c { rtmp = none; calls = c.calls ++ (closes ∷ frees ∷ []) }

releases_empty :
    (size uv max : ℕ) (r : Rtmp) (c : Camera) (st : IsStreaming size uv max r c)
    → st.video.callback ≡ to tt
    → c.shared.queue.items ≡ []
    → native_release c ≡ done (released c)
unfolding native_release free_video free_audio
releases_empty size uv max r c st has_callback no_items =
    ap (λ k. free_video k >>= behind_video) (close_rtmp-some c r st.has_rtmp)
    ∙ ap
        (λ v.
          (delete_video v c.shared >>= λ s. done (record (closed c) { video = none; shared = s }))
          >>= behind_video)
        st.has_video
    ∙ ap (λ x. (x >>= λ s. done (record (closed c) { video = none; shared = s })) >>= behind_video)
        (delete_video_empty st.video c.shared r st.video_rtmp st.video_queue has_callback no_items)
    ∙ ap
        (λ v.
          (delete_audio v >>= λ gone. done (record freed { audio = none })) >>= λ k. done (reset k))
        st.has_audio
    ∙ ap (λ x. (x >>= λ gone. done (record freed { audio = none })) >>= λ k. done (reset k))
        (delete_audio_ends st.audio r st.audio_rtmp st.audio_queue)
  where
    behind_video : Camera → Run Camera
    behind_video k = free_audio k >>= λ k'. done (reset k')

    freed : Camera
    freed = record (closed c) {
      video = none;
      shared = record c.shared { queue = set_work 0 c.shared.queue };
    }

releases_full :
    (size uv max : ℕ) (r : Rtmp) (c : Camera) (p : Packet) (ps : List Packet)
    → IsStreaming size uv max r c
    → c.shared.queue.release_callback ≡ false
    → c.shared.queue.items ≡ p ∷ ps
    → native_release c ≡ fault null_pointer
unfolding native_release free_video delete_video
releases_full size uv max r c p ps st no_release full =
    ap (λ k. free_video k >>= behind_video) (close_rtmp-some c r st.has_rtmp)
    ∙ ap
        (λ v.
          (delete_video v c.shared >>= λ s. done (record (closed c) { video = none; shared = s }))
          >>= behind_video)
        st.has_video
    ∙ ap
        (λ x.
          ((x >>= λ q. done q.1) >>= λ s. done (record (closed c) { video = none; shared = s }))
          >>= behind_video)
        (destroy_faults st.video c.shared r p ps st.video_rtmp st.video_queue full no_release)
  where
    behind_video : Camera → Run Camera
    behind_video k = free_audio k >>= λ k'. done (reset k')

module _ (alloc : PacketAlloc) (clock : Clock) (a : Answers) (header : Option (List ℕ)) where
  waiting_ends :
      (n : ℕ) (c : Camera)
      → c.packet ≡ none
      → c.shared.queue.items ≡ []
      → run_thread alloc clock a header (suc (suc (suc (suc (suc n))))) taking (released c)
        ≡ done (finished, released c)
  unfolding thread_step try_pop check set_work
  waiting_ends n c no_packet no_items =
      run_thread_goes alloc clock a header (suc (suc (suc (suc n)))) taking checking (released c)
        (released c)
        (ap (λ l. done (take (some (take_front (set_work 0 c.shared.queue) l)) (released c)))
          no_items)
      ∙ run_thread_goes alloc clock a header (suc (suc (suc n))) checking leaving (released c)
          (released c) refl
      ∙ leaves_ends alloc clock a header n (released c) refl no_packet

  -- `nativeRelease` of a stream whose encoder has its callback, while the thread has nothing in hand:
  -- with nothing queued the handle is closed and freed, and a thread that waits at `pop` ends, as its
  -- next steps; with packets queued, and no release callback, a null function is called.
  pub native_release_answers :
      (size uv max n : ℕ) (r : Rtmp) (c : Camera) (st : IsStreaming size uv max r c)
      → st.video.callback ≡ to tt
      → c.shared.queue.release_callback ≡ false
      → c.packet ≡ none
      → ((c.shared.queue.items ≡ [])
          × (native_release c ≡ done (released c))
          × (run_thread alloc clock a header (suc (suc (suc (suc (suc n))))) taking (released c)
              ≡ done (finished, released c)))
        ⊎ ((c.shared.queue.items ≢ []) × (native_release c ≡ fault null_pointer))
  native_release_answers size uv max n r c st has_callback no_release no_packet =
      by_items c.shared.queue.items refl
    where
      by_items :
          (items : List Packet)
          → c.shared.queue.items ≡ items
          → ((c.shared.queue.items ≡ [])
              × (native_release c ≡ done (released c))
              × (run_thread alloc clock a header (suc (suc (suc (suc (suc n))))) taking (released c)
                  ≡ done (finished, released c)))
            ⊎ ((c.shared.queue.items ≢ []) × (native_release c ≡ fault null_pointer))
      by_items [] e =
          inl (e, releases_empty size uv max r c st has_callback e, waiting_ends n c no_packet e)
      by_items (p ∷ ps) e =
          inr (λ none_left. cc, releases_full size uv max r c p ps st no_release e)

  introduce_crashes : (c : Camera) → c.video ≡ none → introduce c ≡ fault null_pointer
  unfolding introduce
  introduce_crashes c no_video = simp no_video

  -- A stream with nothing queued, whose encoder has its callback, is released; Java's next
  -- `nativeRtmpstart`, without new encoders, then dereferences a null pointer as soon as the connection
  -- succeeds.
  pub restart_faults :
      (size uv max n id : ℕ) (url : List ℕ) (r : Rtmp) (c : Camera)
      (st : IsStreaming size uv max r c)
      → st.video.callback ≡ to tt
      → c.shared.queue.items ≡ []
      → a.allocated ≡ true
      → (try_connect a url).1 ≡ some id
      → (native_release c ≡ done (released c))
        × (run_thread alloc clock a header
              (suc (suc n))
              (starting url)
              (native_rtmp_start url (released c))
            ≡ fault null_pointer)
  unfolding thread_step native_rtmp_start
  restart_faults size uv max n id url r c st has_callback no_items found reached = (
    releases_empty size uv max r c st has_callback no_items,
    run_thread_goes alloc clock a header (suc n) (starting url) introducing begun k
          (ap (λ pc. done (some pc)) (start_succeeds a url id begun found reached))
        ∙ run_thread_faults alloc clock a header n introducing k null_pointer
            (ap (to_position allowing) (introduce_crashes k refl)),
  )
    where
      begun : Camera
      begun = native_rtmp_start url (released c)

      k : Camera
      k = opened id (try_connect a url).0 begun

  -- On a stream that runs with a packet queued, while the thread is at `pop`: if the thread goes on
  -- behind the first statement of `nativeRelease`, which closes the handle, while the flag that it tests
  -- is still set, its second step sends to a null handle.
  pub release_races :
      (size uv max n : ℕ) (r : Rtmp) (c : Camera) (p : Packet) (ps : List Packet)
      → IsStreaming size uv max r c
      → c.tried ≡ true
      → c.shared.queue.items ≡ p ∷ ps
      → run_thread alloc clock a header (suc (suc n)) taking (close_rtmp c) ≡ fault null_pointer
  unfolding thread_step check
  release_races size uv max n r c p ps st goes_on full =
      ap (run_thread alloc clock a header (suc (suc n)) taking) (close_rtmp-some c r st.has_rtmp)
      ∙ run_thread_goes alloc clock a header (suc n) taking checking (closed c) taken (
          ap (λ o. done (take o (closed c)))
            (ap (λ l. try_pop (record c.shared.queue { items = l })) full
              ∙ try_pop_takes c.shared.queue p ps st.works))
      ∙ run_thread_faults alloc clock a header n checking taken null_pointer (
          ap (λ b. (if b then fault null_pointer else done (leaving, taken)) >>= λ q. done (some q))
            goes_on)
    where
      taken : Camera
      taken = record (closed c) {
        packet = some p;
        shared = record c.shared { queue = record c.shared.queue { items = ps } };
      }
