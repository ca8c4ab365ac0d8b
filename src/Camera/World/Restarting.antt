-- ===== src/Camera/World/Restarting.antt =====
-- A stop and a new start of cpp/x264/Camera2ToolNative.cpp while the first thread waits at `pop`.
use android_study_rtmp_avcod.Common.{
  sym, ℕ, ◌^◌, ◌<◌, ◌≡◌, refl, ap, ◌∙◌, true, none, some, List, [], ◌∷◌, ◌++◌, map, length, done,
  fault, null_pointer, ◌>>=◌,
}
use android_study_rtmp_avcod.Rtmp.{Packet, Rtmp, Answers, PacketAlloc, Allocates}
use android_study_rtmp_avcod.Flv.{aac_config}
use android_study_rtmp_avcod.Session.{Clock}
use android_study_rtmp_avcod.VideoEncode.Contract.{Heard, hear_all}
use android_study_rtmp_avcod.Camera.{Camera, native_stop, native_rtmp_start}
use android_study_rtmp_avcod.Camera.Feed.{Feed, feed, feed_all}
use android_study_rtmp_avcod.Camera.Sending.{run_thread_stays}
use android_study_rtmp_avcod.Camera.Streaming.{Said, heard_on, AllMean, IsStreaming}
use android_study_rtmp_avcod.Camera.Racing.{feed_all-Adds}
use android_study_rtmp_avcod.Camera.Starting.{
  IsReady, behind_start, Connected, run_thread-Connected,
}
use android_study_rtmp_avcod.Camera.Thread.{
  Position, starting, testing, taking, try_connect, run_thread,
}
use android_study_rtmp_avcod.Camera.World.Alone.{turns_of, bind_assoc, brings, brings-feed}
use android_study_rtmp_avcod.Camera.World.{Event, stops, starts, turn, act_all}
use android_study_rtmp_avcod.Camera.World.Threads.{
  two, turns, second_goes, goes_round, second_turns_run, threads_crash,
}

-- A stopped and restarted camera.
abbrev restarted : List ℕ → Camera → Camera
restarted url c = native_rtmp_start url (native_stop c)

-- A stream with nothing in hand or queued is ready for a new connection, stopped or not.
restarted-IsReady :
    (url : List ℕ) (size uv max : ℕ) (r : Rtmp) (c : Camera)
    → IsStreaming size uv max r c
    → c.packet ≡ none
    → c.shared.queue.items ≡ []
    → IsReady size uv max (restarted url c)
unfolding native_stop native_rtmp_start
restarted-IsReady url size uv max r c st no_packet no_items = record {
  no_packet = no_packet;
  no_items = no_items;
  video = st.video;
  has_video = st.has_video;
  is_open = st.is_open;
  audio = st.audio;
  has_audio = st.has_audio;
  audio_encoder = st.audio_encoder;
  buffer = st.buffer;
  has_buffer = st.has_buffer;
  has_room = st.has_room;
  has_max = st.has_max;
}

-- Three are heard of three packets or more.
three_queued :
    (items : List Packet) (h h' h'' : Heard) (hs : List Heard)
    → hear_all items ≡ h ∷ h' ∷ h'' ∷ hs
    → (p : Packet) × (q : Packet) × (x : Packet) × (ps : List Packet) × (items ≡ p ∷ q ∷ x ∷ ps)
three_queued (p ∷ q ∷ x ∷ ps) h h' h'' hs e = (p, q, x, ps, refl)
three_queued (p ∷ q ∷ []) h h' h'' hs e = absurd cc
three_queued (p ∷ []) h h' h'' hs e = absurd cc
three_queued [] h h' h'' hs e = absurd cc

-- Java stops, starts again, and the second thread takes its first seven steps.
abbrev pub restart : Answers → List ℕ → List ℕ → List Event
restart a url input = stops ∷ starts url ∷ turns_of a (some input) 1 (behind_start 0)

module _ (alloc : PacketAlloc) (clock : Clock) where
  -- Calls with data in a world are the calls on its camera.
  brings_all-feed_all :
      (fs : List Feed) (es : List Event) (ps : List Position) (c c' : Camera)
      → feed_all alloc clock fs c ≡ done c'
      → act_all alloc clock (map brings fs ++ es) (record { camera = c; threads = ps })
        ≡ act_all alloc clock es (record { camera = c'; threads = ps })
  brings_all-feed_all fs es ps c c' h =
      all_of fs c
      ∙ ap (λ x. x >>= λ k. act_all alloc clock es (record { camera = k; threads = ps })) h
    where
      all_of :
          (fs : List Feed) (c : Camera)
          → act_all alloc clock (map brings fs ++ es) (record { camera = c; threads = ps }) ≡ (
              feed_all alloc clock fs c >>= λ k.
              act_all alloc clock es (record { camera = k; threads = ps }))
      all_of [] c = refl
      all_of (f ∷ fs) c =
          ap (λ x. x >>= act_all alloc clock (map brings fs ++ es))
            (brings-feed alloc clock f (record { camera = c; threads = ps }))
          ∙ bind_assoc (feed alloc clock f c) _ _
          ∙ (λ i. feed alloc clock f c >>= λ k. all_of fs k i)
          ∙ sym (bind_assoc (feed alloc clock f c) (feed_all alloc clock fs) _)

module _ (alloc : PacketAlloc) (clock : Clock) (a : Answers)
    (memory : (n : ℕ) → Allocates alloc n) where
  restart_run :
      (es : List Event) (input url : List ℕ) (c c' : Camera)
      → run_thread alloc clock a (some input) (behind_start 0) (starting url) (restarted url c)
        ≡ done (testing, c')
      → act_all alloc clock
          (restart a url input ++ es)
          (record { camera = c; threads = taking ∷ [] })
        ≡ act_all alloc clock es (two taking testing c')
  unfolding native_stop
  restart_run es input url c c' h =
      second_turns_run alloc clock a (some input) es (behind_start 0) taking (starting url)
        (restarted url c)
      ∙ ap (λ x. x >>= λ r. act_all alloc clock es (two taking r.0 r.1)) h

  -- Java stops a stream that runs, with nothing queued and the thread at `pop`, and starts again with a
  -- connection that succeeds, if memory is found and faac's header has fewer than 2 ^ 30 bytes: the first
  -- thread does not notice. Behind the second thread's first seven steps, calls with data that mean two
  -- messages or more, and one more step, both threads are at `pop` of the same queue, with three packets
  -- or more in it; and they can then take their turns so that a packet is sent to a null handle.
  pub restart_crashes :
      (input url : List ℕ) (id size uv max : ℕ) (r : Rtmp) (c : Camera) (fs : List Feed)
      (m m' : Said) (ms : List Said)
      → IsStreaming size uv max r c
      → c.packet ≡ none
      → c.shared.queue.items ≡ []
      → a.allocated ≡ true
      → (try_connect a url).1 ≡ some id
      → length input < 2 ^ 30
      → AllMean size uv max fs (m ∷ m' ∷ ms)
      → (k : Camera) × (act_all alloc clock
            (restart a url input ++ (map brings fs ++ turns a (some input) (1 ∷ [])))
            (record { camera = c; threads = taking ∷ [] })
          ≡ done (two taking taking k))
        × (k.tried ≡ true)
        × (hear_all k.shared.queue.items ≡ heard_on id ((11, aac_config input) ∷ m ∷ m' ∷ ms))
        × (act_all alloc clock
              (restart a url input
                ++ (map brings fs
                    ++ turns a (some input) (1 ∷ 0 ∷ 1 ∷ 0 ∷ 1 ∷ 1 ∷ 1 ∷ 0 ∷ 0 ∷ 0 ∷ [])))
              (record { camera = c; threads = taking ∷ [] })
            ≡ fault null_pointer)
  unfolding Connected native_rtmp_start native_stop
  restart_crashes input url id size uv max r c fs m m' ms st no_packet no_items found reached small
        means =
      let (c', runs, streams, same, nothing, heard, items) =
        run_thread-Connected alloc clock a memory input url id size uv max 0 (restarted url c)
          (restarted-IsReady url size uv max r c st no_packet no_items) found reached small in
      let more =
        feed_all-Adds alloc clock a memory size uv max (record { stream_id = id }) fs (m ∷ m' ∷ ms)
          c' streams means in
      let whole = more.queue_grows ∙ ap (λ l. l ++ heard_on id (m ∷ m' ∷ ms)) items in
      let (p, q, x, ps, three) = three_queued more.after.shared.queue.items _ _ _ _ whole in
      let tried = more.same_tried ∙ same in
      let crash =
        threads_crash alloc clock a (some input) (record { stream_id = id }) more.after p q x ps
          more.streams.has_rtmp (more.same_packet ∙ nothing) tried more.streams.works three in
      let to_loop : (es : List Event)
          → act_all alloc clock
              (restart a url input ++ (map brings fs ++ (turn a (some input) 1 ∷ es)))
              (record { camera = c; threads = taking ∷ [] })
            ≡ act_all alloc clock es (two taking taking more.after) =
        λ es.
          restart_run (map brings fs ++ (turn a (some input) 1 ∷ es)) input url c c'
            (runs ∙ run_thread_stays alloc clock a (some input) testing c')
          ∙ brings_all-feed_all alloc clock fs (turn a (some input) 1 ∷ es) (taking ∷ testing ∷ [])
              c' more.after more.ends
          ∙ second_goes alloc clock a (some input) es taking testing taking more.after more.after
              (goes_round alloc clock a (some input) more.after tried) in
      (more.after, to_loop [], tried, whole, to_loop _ ∙ crash.1)
