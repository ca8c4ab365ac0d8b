-- ===== src/Camera/World/Threads.antt =====
-- Two threads that run `threadRun` of cpp/x264/Camera2ToolNative.cpp at once: they share the one pointer
-- `videoPacket`.
use android_study_rtmp_avcod.Common.{
  ℕ, ◌≡◌, refl, sym, ap, ◌∙◌, true, false, Option, none, some, List, [], ◌∷◌, ◌++◌, append_assoc,
  map, done, fault, null_pointer, ◌>>=◌, ◌==◌, if◌then◌else◌,
}
use android_study_rtmp_avcod.Rtmp.{
  Packet, Rtmp, Call, sends, frees_packet, closes, frees, Answers, PacketAlloc,
}
use android_study_rtmp_avcod.SafeQueue.{try_pop}
use android_study_rtmp_avcod.Session.{Clock}
use android_study_rtmp_avcod.Camera.{Camera, close_rtmp, release_packet}
use android_study_rtmp_avcod.Camera.Sending.{holding, try_pop_takes}
use android_study_rtmp_avcod.Camera.Thread.{
  Position, testing, taking, checking, leaving, finished, take, thread_step, check, run_thread,
}
use android_study_rtmp_avcod.Camera.World.Alone.{turns_of, bind_assoc, turns_of_run}
use android_study_rtmp_avcod.Camera.World.{World, Event, turn, act_all}

-- A world with two threads.
abbrev pub two : Position → Position → Camera → World
two p p' c = record { camera = c; threads = p ∷ p' ∷ [] }

-- The turns of the threads with these numbers.
abbrev pub turns : Answers → Option (List ℕ) → List ℕ → List Event
turns a header = map (turn a header)

module _ (alloc : PacketAlloc) (clock : Clock) (a : Answers) (header : Option (List ℕ)) where
  first_goes :
      (es : List Event) (p p' s : Position) (c c' : Camera)
      → thread_step alloc clock a header p c ≡ done (some (s, c'))
      → act_all alloc clock (turn a header 0 ∷ es) (two p p' c)
        ≡ act_all alloc clock es (two s p' c')
  first_goes es p p' s c c' h = rw h refl

  pub second_goes :
      (es : List Event) (p p' s : Position) (c c' : Camera)
      → thread_step alloc clock a header p' c ≡ done (some (s, c'))
      → act_all alloc clock (turn a header 1 ∷ es) (two p p' c)
        ≡ act_all alloc clock es (two p s c')
  second_goes es p p' s c c' h = rw h refl

  pub goes_round :
      (c : Camera)
      → c.tried ≡ true
      → thread_step alloc clock a header testing c ≡ done (some (taking, c))
  unfolding thread_step
  goes_round c goes_on = ap (λ b. done (some (if b then taking else leaving, c))) goes_on

  takes_next :
      (c : Camera) (p : Packet) (ps : List Packet)
      → (c.shared.queue.work == 0) ≡ false
      → c.shared.queue.items ≡ p ∷ ps
      → thread_step alloc clock a header taking c
        ≡ done (
            some (
              checking,
              record c {
                packet = some p;
                shared = record c.shared { queue = record c.shared.queue { items = ps } };
              },
            ))
  unfolding thread_step
  takes_next c p ps works items =
      ap (λ o. done (take o c))
        (ap (λ l. try_pop (record c.shared.queue { items = l })) items
          ∙ try_pop_takes c.shared.queue p ps works)

  -- The first thread takes a packet, the second takes the next before it is sent, and finds none when
  -- the first has sent what the second took.
  holding_closes :
      (es : List Event) (r : Rtmp) (c : Camera) (p q : Packet) (ps : List Packet) (cs : List Call)
      → (c.shared.queue.work == 0) ≡ false
      → act_all alloc clock
          (turns a header (0 ∷ 1 ∷ 0 ∷ 1 ∷ 1 ∷ 1 ∷ []) ++ es)
          (two taking taking (holding r (p ∷ q ∷ ps) cs c))
        ≡ act_all alloc clock es (
            two testing finished
              (record (holding r ps
                (((cs ++ (sends q ∷ [])) ++ (frees_packet ∷ [])) ++ (closes ∷ frees ∷ []))
                c) { rtmp = none }))
  unfolding thread_step check release_packet close_rtmp
  holding_closes es r c p q ps cs works =
      first_goes (turns a header (1 ∷ 0 ∷ 1 ∷ 1 ∷ 1 ∷ []) ++ es) taking taking checking
        (holding r (p ∷ q ∷ ps) cs c) _ (takes_next _ p (q ∷ ps) works refl)
      ∙ second_goes (turns a header (0 ∷ 1 ∷ 1 ∷ 1 ∷ []) ++ es) checking taking checking
          (record (holding r (q ∷ ps) cs c) { packet = some p }) _ (takes_next _ q ps works refl)

  crashes_then :
      (r : Rtmp) (c : Camera) (x : Packet) (ps : List Packet) (cs : List Call)
      → (c.shared.queue.work == 0) ≡ false
      → act_all alloc clock
          (turns a header (0 ∷ 0 ∷ 0 ∷ []))
          (two testing finished (record (holding r (x ∷ ps) cs c) { rtmp = none }))
        ≡ fault null_pointer
  unfolding thread_step check
  crashes_then r c x ps cs works =
      first_goes (turns a header (0 ∷ 0 ∷ [])) testing finished taking
        (record (holding r (x ∷ ps) cs c) { rtmp = none }) _ refl
      ∙ first_goes (turns a header (0 ∷ [])) taking finished checking
          (record (holding r (x ∷ ps) cs c) { rtmp = none }) _ (takes_next _ x ps works refl)

  -- Two threads at `pop` on a stream that runs, with three packets queued or more, can take their turns so
  -- that one thread takes the first packet, the other takes the second into the same variable, and the
  -- one sends and frees the second. Then the other finds no packet, leaves its loop and closes and frees
  -- the handle, although Java did not stop the stream: the first packet was neither sent nor freed. The
  -- thread that goes on then sends the third packet to a null handle.
  pub threads_crash :
      (r : Rtmp) (c : Camera) (p q x : Packet) (ps : List Packet)
      → c.rtmp ≡ some r
      → c.packet ≡ none
      → c.tried ≡ true
      → (c.shared.queue.work == 0) ≡ false
      → c.shared.queue.items ≡ p ∷ q ∷ x ∷ ps
      → (act_all alloc clock (turns a header (0 ∷ 1 ∷ 0 ∷ 1 ∷ 1 ∷ 1 ∷ [])) (two taking taking c)
          ≡ done (
              two testing finished
                (record (holding r
                  (x ∷ ps)
                  (c.calls ++ (sends q ∷ frees_packet ∷ closes ∷ frees ∷ []))
                  c) { rtmp = none })))
        × (act_all alloc clock
              (turns a header (0 ∷ 1 ∷ 0 ∷ 1 ∷ 1 ∷ 1 ∷ 0 ∷ 0 ∷ 0 ∷ []))
              (two taking taking c)
            ≡ fault null_pointer)
  threads_crash r c p q x ps has_rtmp no_packet goes_on works items = (
    ap
          (λ k.
            act_all alloc clock (turns a header (0 ∷ 1 ∷ 0 ∷ 1 ∷ 1 ∷ 1 ∷ [])) (two taking taking k))
          (sym whole)
        ∙ holding_closes [] r c p q (x ∷ ps) c.calls works
        ∙ ap (λ l. done (two testing finished (record (holding r (x ∷ ps) l c) { rtmp = none })))
            (append_assoc (c.calls ++ (sends q ∷ [])) (frees_packet ∷ []) (closes ∷ frees ∷ [])
              ∙ append_assoc c.calls (sends q ∷ []) (frees_packet ∷ closes ∷ frees ∷ [])),
    ap
          (λ k.
            act_all alloc clock (turns a header (0 ∷ 1 ∷ 0 ∷ 1 ∷ 1 ∷ 1 ∷ 0 ∷ 0 ∷ 0 ∷ []))
              (two taking taking k))
          (sym whole)
        ∙ holding_closes (turns a header (0 ∷ 0 ∷ 0 ∷ [])) r c p q (x ∷ ps) c.calls works
        ∙ crashes_then r c x ps _ works,
  )
    where
      whole : holding r (p ∷ q ∷ x ∷ ps) c.calls c ≡ c
      whole = λ i. record c {
        rtmp = sym has_rtmp i;
        packet = sym no_packet i;
        tried = sym goes_on i;
        shared = record c.shared { queue = record c.shared.queue { items = sym items i } };
      }

  -- The turns of the second thread are its run.
  pub second_turns_run :
      (es : List Event) (n : ℕ) (p p' : Position) (c : Camera)
      → act_all alloc clock (turns_of a header 1 n ++ es) (two p p' c)
        ≡ (run_thread alloc clock a header n p' c >>= λ r. act_all alloc clock es (two p r.0 r.1))
  second_turns_run es n p =
      turns_of_run alloc clock a header 1 (two p)
        (λ s c.
          ap (λ x. x >>= λ r. done (record { camera = r.1; threads = r.0 }))
            (bind_assoc (thread_step alloc clock a header s c) _ _)
          ∙ bind_assoc (thread_step alloc clock a header s c) _ _)
        es n
