-- ===== src/Camera/Schedule/Turns.antt =====
-- One turn of the thread in its loop, while the stream runs.
use mathlib.Core.Path.{subst}
use android_study_rtmp_avcod.Common.{
  ℕ, suc, ◌≡◌, refl, sym, ap, ◌∙◌, true, Option, none, some, List, [], ◌∷◌, ◌++◌, append-nil,
  append_assoc, done, ◌>>=◌, if◌then◌else◌,
}
use android_study_rtmp_avcod.Rtmp.{Packet, Rtmp, Call, sends, frees_packet, Answers, PacketAlloc}
use android_study_rtmp_avcod.Delivery.{deliveries}
use android_study_rtmp_avcod.SafeQueue.{try_pop}
use android_study_rtmp_avcod.Session.{Clock}
use android_study_rtmp_avcod.VideoEncode.Contract.{Heard, hear, hear_all}
use android_study_rtmp_avcod.Camera.{Camera, release_packet}
use android_study_rtmp_avcod.Camera.Thread.{
  Position, testing, taking, checking, leaving, take, check, thread_step, run_thread,
}
use android_study_rtmp_avcod.Camera.Sending.{
  try_pop_waits, try_pop_takes, run_thread_goes, run_thread_waits,
}
use android_study_rtmp_avcod.Camera.Streaming.{IsStreaming}
use android_study_rtmp_avcod.Camera.Schedule.{
  heard_by, heard_by-append, in_hand, InLoop, at_test, at_pop, behind_pop, Serves,
}

-- The stream runs on whatever was sent and whatever is in hand or queued.
streams_on :
    (size uv max : ℕ) (r : Rtmp) (c : Camera) (packet : Option Packet) (items : List Packet)
    (calls : List Call)
    → IsStreaming size uv max r c
    → IsStreaming size uv max r (record c {
      packet = packet;
      calls = calls;
      shared = record c.shared { queue = record c.shared.queue { items = items } };
    })
streams_on size uv max r c packet items calls st = record {
  pushing = st.pushing;
  has_rtmp = st.has_rtmp;
  works = st.works;
  video = st.video;
  has_video = st.has_video;
  is_open = st.is_open;
  video_queue = st.video_queue;
  video_rtmp = st.video_rtmp;
  audio = st.audio;
  has_audio = st.has_audio;
  audio_encoder = st.audio_encoder;
  buffer = st.buffer;
  has_buffer = st.has_buffer;
  has_room = st.has_room;
  has_max = st.has_max;
  audio_queue = st.audio_queue;
  audio_rtmp = st.audio_rtmp;
}

check_sends :
    (c : Camera) (r : Rtmp) (packet : Packet)
    → c.tried ≡ true
    → c.packet ≡ some packet
    → c.rtmp ≡ some r
    → check c
      ≡ done (
        testing,
        record c { packet = none; calls = (c.calls ++ (sends packet ∷ [])) ++ (frees_packet ∷ []) },
      )
unfolding check release_packet
check_sends c r packet goes_on has_packet has_rtmp =
    subst
      (λ k.
        check k
        ≡ done (
          testing,
          record k {
            packet = none;
            calls = (k.calls ++ (sends packet ∷ [])) ++ (frees_packet ∷ []);
          },
        ))
      whole refl
  where
    whole : record c { tried = true; packet = some packet; rtmp = some r } ≡ c
    whole =
        λ i. record c { tried = sym goes_on i; packet = sym has_packet i; rtmp = sym has_rtmp i }

module _ (alloc : PacketAlloc) (clock : Clock) (a : Answers) (header : Option (List ℕ))
    (size uv max : ℕ) (r : Rtmp) where
  pub turn_at_test :
      (all : List Heard) (n : ℕ) (c : Camera)
      → c.packet ≡ none
      → Serves size uv max r all testing c
      → (run_thread alloc clock a header (suc n) testing c
          ≡ run_thread alloc clock a header n taking c)
        × Serves size uv max r all taking c
  unfolding thread_step
  turn_at_test all n c no_packet sv = (
    run_thread_goes alloc clock a header n testing taking c c
        (ap (λ b. done (some (if b then taking else leaving, c))) sv.tried),
    record {
      streams = sv.streams;
      tried = sv.tried;
      in_loop = at_pop refl no_packet;
      accounted = sv.accounted;
    },
  )

  pub turn_behind_pop :
      (all : List Heard) (n : ℕ) (c : Camera) (packet : Packet)
      → c.packet ≡ some packet
      → Serves size uv max r all checking c
      → (c' : Camera) × (run_thread alloc clock a header (suc n) checking c
          ≡ run_thread alloc clock a header n testing c')
        × (c'.packet ≡ none)
        × (c'.shared ≡ c.shared)
        × Serves size uv max r all testing c'
  unfolding thread_step deliveries
  turn_behind_pop all n c packet has_packet sv = (
    record c { packet = none; calls = (c.calls ++ (sends packet ∷ [])) ++ (frees_packet ∷ []) },
    run_thread_goes alloc clock a header n checking testing c _ (
        ap (λ x. x >>= λ pc. done (some pc))
          (check_sends c r packet sv.tried has_packet sv.streams.has_rtmp)),
    refl,
    refl,
    record {
      streams = streams_on size uv max r c none c.shared.queue.items _ sv.streams;
      tried = sv.tried;
      in_loop = at_test refl refl;
      accounted =
          ap (λ l. l ++ hear_all c.shared.queue.items)
            (heard_by-append (c.calls ++ (sends packet ∷ [])) (frees_packet ∷ [])
              ∙ append-nil _
              ∙ heard_by-append c.calls (sends packet ∷ []))
          ∙ append_assoc (heard_by c.calls) (hear packet ∷ []) (hear_all c.shared.queue.items)
          ∙ ap (λ o. heard_by c.calls ++ (in_hand o ++ hear_all c.shared.queue.items))
              (sym has_packet)
          ∙ sv.accounted;
    },
  )

  pub turn_at_pop_waits :
      (all : List Heard) (n : ℕ) (c : Camera)
      → c.shared.queue.items ≡ []
      → Serves size uv max r all taking c
      → run_thread alloc clock a header (suc n) taking c ≡ done (taking, c)
  unfolding thread_step
  turn_at_pop_waits all n c no_items sv = run_thread_waits alloc clock a header n taking c (
      ap (λ o. done (take o c))
        (ap (λ l. try_pop (record c.shared.queue { items = l })) no_items
          ∙ try_pop_waits c.shared.queue sv.streams.works))

  pub turn_at_pop_takes :
      (all : List Heard) (n : ℕ) (c : Camera) (x : Packet) (xs : List Packet)
      → c.packet ≡ none
      → c.shared.queue.items ≡ x ∷ xs
      → Serves size uv max r all taking c
      → (c' : Camera) × (run_thread alloc clock a header (suc n) taking c
          ≡ run_thread alloc clock a header n checking c')
        × (c'.packet ≡ some x)
        × (c'.shared.queue.items ≡ xs)
        × Serves size uv max r all checking c'
  unfolding thread_step
  turn_at_pop_takes all n c x xs no_packet has_items sv = (
    record c {
      packet = some x;
      shared = record c.shared { queue = record c.shared.queue { items = xs } };
    },
    run_thread_goes alloc clock a header n taking checking c _ (
        ap (λ o. done (take o c))
          (ap (λ l. try_pop (record c.shared.queue { items = l })) has_items
            ∙ try_pop_takes c.shared.queue x xs sv.streams.works)),
    refl,
    refl,
    record {
      streams = streams_on size uv max r c (some x) xs c.calls sv.streams;
      tried = sv.tried;
      in_loop = behind_pop x refl refl;
      accounted =
          ap (λ l. heard_by c.calls ++ hear_all l) (sym has_items)
          ∙ ap (λ o. heard_by c.calls ++ (in_hand o ++ hear_all c.shared.queue.items))
              (sym no_packet)
          ∙ sv.accounted;
    },
  )

  pub turned :
      (all : List Heard) (p : Position) (c : Camera)
      → Serves size uv max r all p c
      → (p' : Position) × (c' : Camera) × (run_thread alloc clock a header 1 p c ≡ done (p', c'))
        × Serves size uv max r all p' c'
  unfolding run_thread
  turned all p c sv = by_place sv.in_loop
    where
      by_items :
          (items : List Packet)
          → c.shared.queue.items ≡ items
          → c.packet ≡ none
          → Serves size uv max r all taking c
          → (p' : Position) × (c' : Camera) × (run_thread alloc clock a header 1 taking c
              ≡ done (p', c'))
            × Serves size uv max r all p' c'
      by_items [] e no_packet here = (taking, c, turn_at_pop_waits all 0 c e here, here)
      by_items (x ∷ xs) e no_packet here =
          let (c', runs, has_packet, items, there) =
            turn_at_pop_takes all 0 c x xs no_packet e here in
          (checking, c', runs, there)

      by_place :
          InLoop p c
          → (p' : Position) × (c' : Camera) × (run_thread alloc clock a header 1 p c
              ≡ done (p', c'))
            × Serves size uv max r all p' c'
      by_place (at_test e no_packet) =
          let (runs, there) = turn_at_test all 0 c no_packet (rw e at sv) in
          (taking, c, ap (λ k. run_thread alloc clock a header 1 k c) e ∙ runs, there)
      by_place (at_pop e no_packet) =
          let (p', c', runs, there) = by_items c.shared.queue.items refl no_packet (rw e at sv) in
          (p', c', ap (λ k. run_thread alloc clock a header 1 k c) e ∙ runs, there)
      by_place (behind_pop packet e has_packet) =
          let (c', runs, no_packet, same, there) =
            turn_behind_pop all 0 c packet has_packet (rw e at sv) in
          (testing, c', ap (λ k. run_thread alloc clock a header 1 k c) e ∙ runs, there)
