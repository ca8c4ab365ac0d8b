-- ===== src/Camera/Pipeline.antt =====
-- The camera's stream from the start of the thread of cpp/x264/Camera2ToolNative.cpp to the server.
use mathlib.Core.Path.{subst}
use android_study_rtmp_avcod.Common.{
  ℕ, ◌+◌, ◌*◌, ◌/◌, ◌^◌, ◌<◌, ◌≡◌, refl, ap, ◌∙◌, true, some, List, [], ◌∷◌, ◌++◌, append_assoc,
  arith, length, done, ◌>>=◌,
}
use android_study_rtmp_avcod.Rtmp.{Rtmp, Answers, PacketAlloc, Allocates}
use android_study_rtmp_avcod.Flv.{aac_config}
use android_study_rtmp_avcod.Session.{Clock}
use android_study_rtmp_avcod.Delivery.{deliveries}
use android_study_rtmp_avcod.VideoEncode.{Opening, outcome, open_and_ready}
use android_study_rtmp_avcod.AudioEncode.{Opened}
use android_study_rtmp_avcod.Camera.{Camera, loaded}
use android_study_rtmp_avcod.Camera.Setup.{set_up, set_up-IsReady}
use android_study_rtmp_avcod.Camera.Thread.{Position, starting, try_connect, run_thread}
use android_study_rtmp_avcod.Camera.Streaming.{Said, heard_on}
use android_study_rtmp_avcod.Camera.Schedule.{Event, Tells, heard_by, act_all}
use android_study_rtmp_avcod.Camera.Schedule.Order.{act_all-Serves}
use android_study_rtmp_avcod.Camera.Schedule.Drain.{Drained, Serves-Drained}
use android_study_rtmp_avcod.Camera.Starting.{IsReady, run_thread-Serves}

module _ (alloc : PacketAlloc) (clock : Clock) (a : Answers) where
  -- Where both encoders are open and Java has asked for a connection that succeeds, faac's header has
  -- fewer than 2 ^ 30 bytes and memory is found: the thread connects and sets the queues in seven
  -- steps,
  -- and from there, whatever the order of Java's calls with data and the thread's turns, no step fails;
  -- a thread that is then given three steps for each queued packet and three more has sent, in order,
  -- faac's header and what the calls mean, and waits at an empty queue.
  pub stream_delivers :
      (memory : (n : ℕ) → Allocates alloc n) (input url : List ℕ) (id size uv max : ℕ) (c : Camera)
      (es : List Event) (said : List Said)
      → IsReady size uv max c
      → c.tried ≡ true
      → a.allocated ≡ true
      → (try_connect a url).1 ≡ some id
      → length input < 2 ^ 30
      → Tells size uv max es said
      → let r : Rtmp = record { stream_id = id } in
        (p : Position) × (c' : Camera) × ((run_thread alloc clock a (some input) 7 (starting url) c
            >>= act_all alloc clock a (some input) es)
          ≡ done (p, c'))
        × Drained alloc clock a
            (some input)
            size
            uv
            max
            r
            (heard_by c.calls ++ heard_on id ((11, aac_config input) ∷ said))
            (run_thread alloc clock a (some input) (3 * length c'.shared.queue.items + 3) p c')
  unfolding run_thread
  stream_delivers memory input url id size uv max c es said ready goes_on found reached small
        tells =
      let (started, starts, serves, heard, items) =
        run_thread-Serves alloc clock a memory input url id size uv max 0 c ready goes_on found
          reached small in
      let (p, c', runs, there) =
        act_all-Serves alloc clock a (some input) size uv max (record { stream_id = id }) memory es
          said _ _ started serves tells in
      (
        p,
        c',
        ap (λ x. x >>= act_all alloc clock a (some input) es) starts ∙ runs,
        subst
            (λ l.
              Drained alloc clock a (some input) size uv max (record { stream_id = id }) l
                (run_thread alloc clock a (some input) (3 * length c'.shared.queue.items + 3) p c'))
            (append_assoc (heard_by c.calls) (heard_on id ((11, aac_config input) ∷ []))
              (heard_on id said))
            (Serves-Drained alloc clock a (some input) size uv max (record { stream_id = id }) _ _ p
              c' there (omega arith)),
      )

  -- From the load of the library to the server: if x264 and faac open, the frame's size and the
  -- interval of key frames do not overflow, the connection succeeds, faac's header has fewer than
  -- 2 ^ 30 bytes and memory is found, then the calls that make and open the encoders and ask for a
  -- connection succeed, the thread connects and sets the queues in seven
  -- steps, and from there, whatever
  -- the order of Java's calls with data and the thread's turns, no step fails; a thread that is then
  -- given three steps for each queued packet and three more has sent, in order, faac's header and what
  -- the calls mean, and nothing else, and waits at an empty queue.
  pub session_delivers :
      (memory : (n : ℕ) → Allocates alloc n) (o : Opening) (f : Opened)
      (w h fps bit_rate sample_rate channel_count reads : ℕ) (input url : List ℕ) (id : ℕ)
      (es : List Event) (said : List Said)
      → w * h < 2 ^ 31
      → fps * 2 < 2 ^ 31
      → outcome o ≡ open_and_ready
      → f.configuration ≡ true
      → f.handle ≡ true
      → a.allocated ≡ true
      → (try_connect a url).1 ≡ some id
      → length input < 2 ^ 30
      → Tells (w * h) (w * h / 4) f.max_bytes es said
      → let r : Rtmp = record { stream_id = id } in
        (c : Camera) × (p : Position) × (c' : Camera) × (set_up o f w h fps bit_rate sample_rate
            channel_count url
            (loaded reads)
          ≡ done c)
        × ((run_thread alloc clock a (some input) 7 (starting url) c
              >>= act_all alloc clock a (some input) es)
            ≡ done (p, c'))
        × Drained alloc clock a
            (some input)
            (w * h)
            (w * h / 4)
            f.max_bytes
            r
            (heard_on id ((11, aac_config input) ∷ said))
            (run_thread alloc clock a (some input) (3 * length c'.shared.queue.items + 3) p c')
  unfolding deliveries
  session_delivers memory o f w h fps bit_rate sample_rate channel_count reads input url id es said
        fits often opens configured handle found reached small tells =
      let (c, set, ready, goes_on, no_calls, same) =
        set_up-IsReady o f w h fps bit_rate sample_rate channel_count url (loaded reads) fits often
          opens configured handle refl refl in
      let (p, c', runs, drained) =
        stream_delivers memory input url id (w * h) (w * h / 4) f.max_bytes c es said ready goes_on
          found reached small tells in
      (
        c,
        p,
        c',
        set,
        runs,
        subst
            (λ l.
              Drained alloc clock a (some input) (w * h) (w * h / 4) f.max_bytes
                (record { stream_id = id })
                (heard_by l ++ heard_on id ((11, aac_config input) ∷ said))
                (run_thread alloc clock a (some input) (3 * length c'.shared.queue.items + 3) p c'))
            no_calls drained,
      )
