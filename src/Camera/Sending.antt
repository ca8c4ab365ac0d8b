-- ===== src/Camera/Sending.antt =====
-- What the thread of cpp/x264/Camera2ToolNative.cpp does with the packets that are queued, and what
-- is left of it when Java stops.

use android_study_rtmp_avcod.Common.{
  ℕ, zero, suc, ◌+◌, ◌*◌, ◌≤◌, ◌≡◌, refl, sym, ap, ◌∙◌, true, false, Option, none, some, List, [],
  ◌∷◌, ◌++◌, append_assoc, append-nil, arith, length, done, fault, Fault, ◌==◌,
}
use android_study_rtmp_avcod.Rtmp.{Packet, Rtmp, Call, sends, frees_packet, Answers, PacketAlloc}
use android_study_rtmp_avcod.SafeQueue.{SafeQueue, try_pop}
use android_study_rtmp_avcod.Session.{Clock}
use android_study_rtmp_avcod.Camera.{Camera, native_stop, release_packet}
use android_study_rtmp_avcod.Camera.Feed.{Feed, feed_all, feed_all_nothing}
use android_study_rtmp_avcod.Camera.Thread.{
  Position, testing, taking, checking, take, thread_step, run_thread, check,
}

-- The calls for packets that are sent and freed in turn.
abbrev pub sent : List Packet → List Call
sent [] = []
sent (p ∷ ps) = sends p ∷ frees_packet ∷ sent ps

-- `c` where the packets `ps` are queued, none is being sent, and `cs` were called.
abbrev pub holding : Rtmp → List Packet → List Call → Camera → Camera
holding r ps cs c = record c {
  rtmp = some r;
  packet = none;
  tried = true;
  shared = record c.shared { queue = record c.shared.queue { items = ps } };
  calls = cs;
}

pub try_pop_waits :
    (q : SafeQueue Packet) → (q.work == 0) ≡ false → try_pop (record q { items = [] }) ≡ none
unfolding try_pop
try_pop_waits q works = rw works

pub try_pop_takes :
    (q : SafeQueue Packet) (p : Packet) (ps : List Packet)
    → (q.work == 0) ≡ false
    → try_pop (record q { items = p ∷ ps }) ≡ some (some p, record q { items = ps })
unfolding try_pop
try_pop_takes q p ps works = rw works

module _ (alloc : PacketAlloc) (clock : Clock) (a : Answers) (header : Option (List ℕ)) where
  pub run_thread_goes :
      (n : ℕ) (p p' : Position) (c c' : Camera)
      → thread_step alloc clock a header p c ≡ done (some (p', c'))
      → run_thread alloc clock a header (suc n) p c ≡ run_thread alloc clock a header n p' c'
  unfolding run_thread
  run_thread_goes n p p' c c' h = rw h

  pub run_thread_stays :
      (p : Position) (c : Camera) → run_thread alloc clock a header 0 p c ≡ done (p, c)
  unfolding run_thread
  run_thread_stays p c = refl

  pub run_thread_faults :
      (n : ℕ) (p : Position) (c : Camera) (e : Fault)
      → thread_step alloc clock a header p c ≡ fault e
      → run_thread alloc clock a header (suc n) p c ≡ fault e
  unfolding run_thread
  run_thread_faults n p c e h = rw h

  pub run_thread_waits :
      (n : ℕ) (p : Position) (c : Camera)
      → thread_step alloc clock a header p c ≡ done none
      → run_thread alloc clock a header (suc n) p c ≡ done (p, c)
  unfolding run_thread
  run_thread_waits n p c h = rw h

  -- One round of the loop: the first packet is sent and freed.
  holding_sends :
      (n : ℕ) (p : Packet) (ps : List Packet) (cs : List Call) (r : Rtmp) (c : Camera)
      → (c.shared.queue.work == 0) ≡ false
      → run_thread alloc clock a header (suc (suc (suc n))) testing (holding r (p ∷ ps) cs c)
        ≡ run_thread alloc clock a header n testing
            (holding r ps ((cs ++ (sends p ∷ [])) ++ (frees_packet ∷ [])) c)
  unfolding thread_step check release_packet
  holding_sends n p ps cs r c works =
      run_thread_goes (suc (suc n)) testing taking (holding r (p ∷ ps) cs c) _ refl
      ∙ run_thread_goes (suc n) taking checking (holding r (p ∷ ps) cs c) _ (
          ap (λ o. done (take o (holding r (p ∷ ps) cs c)))
            (try_pop_takes c.shared.queue p ps works))
      ∙ run_thread_goes n checking testing _ _ refl

  holding_waits :
      (n : ℕ) (cs : List Call) (r : Rtmp) (c : Camera)
      → (c.shared.queue.work == 0) ≡ false
      → run_thread alloc clock a header (suc (suc n)) testing (holding r [] cs c)
        ≡ done (taking, holding r [] cs c)
  unfolding thread_step
  holding_waits n cs r c works =
      run_thread_goes (suc n) testing taking (holding r [] cs c) _ refl
      ∙ run_thread_waits n taking (holding r [] cs c)
          (ap (λ o. done (take o (holding r [] cs c))) (try_pop_waits c.shared.queue works))

  holding_drains :
      (ps : List Packet) (n : ℕ) (cs : List Call) (r : Rtmp) (c : Camera)
      → (c.shared.queue.work == 0) ≡ false
      → 3 * length ps + 2 ≤ n
      → run_thread alloc clock a header n testing (holding r ps cs c)
        ≡ done (taking, holding r [] (cs ++ sent ps) c)
  holding_drains [] (suc (suc n)) cs r c works h = rw (append-nil cs) (holding_waits n cs r c works)
  holding_drains (p ∷ ps) (suc (suc (suc n))) cs r c works h =
      holding_sends n p ps cs r c works
      ∙ holding_drains ps n ((cs ++ (sends p ∷ [])) ++ (frees_packet ∷ [])) r c works (omega arith)
      ∙ ap (λ l. done (taking, holding r [] l c))
          (append_assoc (cs ++ (sends p ∷ [])) (frees_packet ∷ []) (sent ps)
            ∙ append_assoc cs (sends p ∷ []) (frees_packet ∷ sent ps))
  holding_drains [] zero cs r c works h = absurd (omega arith)
  holding_drains [] (suc zero) cs r c works h = absurd (omega arith)
  holding_drains (p ∷ ps) zero cs r c works h = absurd (omega arith)
  holding_drains (p ∷ ps) (suc zero) cs r c works h = absurd (omega arith)
  holding_drains (p ∷ ps) (suc (suc zero)) cs r c works h = absurd (omega arith)

  -- A thread at the test of its loop that goes on, with a handle, no packet in hand and a queue that
  -- works, sends every queued packet and frees it, in the order of the queue, and then waits at `pop`:
  -- three steps for a packet and two more are enough.
  pub run_thread_drains :
      (n : ℕ) (r : Rtmp) (c : Camera)
      → c.rtmp ≡ some r
      → c.packet ≡ none
      → c.tried ≡ true
      → (c.shared.queue.work == 0) ≡ false
      → 3 * length c.shared.queue.items + 2 ≤ n
      → run_thread alloc clock a header n testing c
        ≡ done (taking, holding r [] (c.calls ++ sent c.shared.queue.items) c)
  run_thread_drains n r c has_rtmp no_packet goes_on works enough =
      ap (run_thread alloc clock a header n testing) (sym whole)
      ∙ holding_drains c.shared.queue.items n c.calls r c works enough
    where
      whole : holding r c.shared.queue.items c.calls c ≡ c
      whole =
          λ i. record c { rtmp = sym has_rtmp i; packet = sym no_packet i; tried = sym goes_on i }

  -- `nativeStop` strands a thread that waits for a packet at an empty queue: the queue still works, and
  -- whatever data Java brings afterwards, nothing is queued and the thread waits on.
  native_stop_strands :
      (fs : List Feed) (c : Camera)
      → (c.shared.queue.work == 0) ≡ false
      → c.shared.queue.items ≡ []
      → (feed_all alloc clock fs (native_stop c) ≡ done (native_stop c))
        × (thread_step alloc clock a header taking (native_stop c) ≡ done none)
  unfolding native_stop thread_step
  native_stop_strands fs c works no_items = (
    feed_all_nothing alloc clock fs (native_stop c) refl,
    ap (λ o. done (take o (native_stop c)))
        (ap (λ l. try_pop (record c.shared.queue { items = l })) no_items
          ∙ try_pop_waits c.shared.queue works),
  )
