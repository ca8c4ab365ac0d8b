-- ===== src/Camera/Schedule/Drain.antt =====
-- The thread comes to an end of its work.
use mathlib.Core.Path.{subst}
use android_study_rtmp_avcod.Common.{
  ℕ, zero, suc, ◌+◌, ◌*◌, ◌≤◌, ◌≡◌, refl, sym, ap, ◌∙◌, Option, none, some, List, [], ◌∷◌, ◌++◌,
  append-nil, arith, length, Run, done,
}
use android_study_rtmp_avcod.Rtmp.{Packet, Rtmp, Answers, PacketAlloc}
use android_study_rtmp_avcod.Session.{Clock}
use android_study_rtmp_avcod.VideoEncode.Contract.{Heard, hear_all}
use android_study_rtmp_avcod.Camera.{Camera}
use android_study_rtmp_avcod.Camera.Thread.{Position, testing, taking, checking, run_thread}
use android_study_rtmp_avcod.Camera.Sending.{sent, holding, run_thread_drains}
use android_study_rtmp_avcod.Camera.Schedule.{
  heard_by, heard_by-append, heard_by-sent, in_hand, InLoop, at_test, at_pop, behind_pop, Serves,
}
use android_study_rtmp_avcod.Camera.Schedule.Turns.{
  turn_behind_pop, turn_at_pop_waits, turn_at_pop_takes,
}

module _ (alloc : PacketAlloc) (clock : Clock) (a : Answers) (header : Option (List ℕ))
    (size uv max : ℕ) (r : Rtmp) where
  -- All of `all` was sent, and the thread waits at an empty queue.
  pub Drained : List Heard → Run (Position × Camera) → Type 0
  Drained all run =
      (c' : Camera) × (run ≡ done (taking, c'))
      × (heard_by c'.calls ≡ all)
      × (c'.shared.queue.items ≡ [])
      × (c'.packet ≡ none)

  drains_at_test :
      (n : ℕ) (all : List Heard) (c : Camera)
      → Serves size uv max r all testing c
      → c.packet ≡ none
      → 3 * length c.shared.queue.items + 2 ≤ n
      → Drained all (run_thread alloc clock a header n testing c)
  unfolding Drained
  drains_at_test n all c sv no_packet enough = (
    holding r [] (c.calls ++ sent c.shared.queue.items) c,
    run_thread_drains alloc clock a header n r c sv.streams.has_rtmp no_packet sv.tried
        sv.streams.works enough,
    heard_by-append c.calls (sent c.shared.queue.items)
        ∙ ap (λ l. heard_by c.calls ++ l) (heard_by-sent c.shared.queue.items)
        ∙ ap (λ o. heard_by c.calls ++ (in_hand o ++ hear_all c.shared.queue.items)) (sym no_packet)
        ∙ sv.accounted,
    refl,
    refl,
  )

  Drained-run :
      (all : List Heard) {run run' : Run (Position × Camera)}
      → run ≡ run'
      → Drained all run'
      → Drained all run
  Drained-run all e d = subst (Drained all) (sym e) d

  drains_behind_pop :
      (n : ℕ) (all : List Heard) (c : Camera) (packet : Packet)
      → Serves size uv max r all checking c
      → c.packet ≡ some packet
      → 3 * length c.shared.queue.items + 2 ≤ n
      → Drained all (run_thread alloc clock a header (suc n) checking c)
  drains_behind_pop n all c packet sv has_packet enough =
      let (c', runs, no_packet, same, there) =
        turn_behind_pop alloc clock a header size uv max r all n c packet has_packet sv in
      Drained-run all runs (
        drains_at_test n all c' there no_packet
          (omega (arith, ap (λ s. length s.queue.items) same)))

  -- A thread in its loop that is given three steps for each queued packet and three more sends all
  -- that there is, and then waits at `pop` of an empty queue.
  pub Serves-Drained :
      (n : ℕ) (all : List Heard) (p : Position) (c : Camera)
      → Serves size uv max r all p c
      → 3 * length c.shared.queue.items + 3 ≤ n
      → Drained all (run_thread alloc clock a header n p c)
  unfolding Drained
  Serves-Drained n all p c sv enough = by_place sv.in_loop
    where
      by_items :
          (items : List Packet) (m : ℕ)
          → c.shared.queue.items ≡ items
          → c.packet ≡ none
          → Serves size uv max r all taking c
          → 3 * length items + 3 ≤ m
          → Drained all (run_thread alloc clock a header m taking c)
      by_items [] zero e no_packet here big = absurd (omega arith)
      by_items [] (suc m) e no_packet here big = (
        c,
        turn_at_pop_waits alloc clock a header size uv max r all m c e here,
        sym (append-nil (heard_by c.calls))
            ∙ ap (λ l. heard_by c.calls ++ hear_all l) (sym e)
            ∙ ap (λ o. heard_by c.calls ++ (in_hand o ++ hear_all c.shared.queue.items))
                (sym no_packet)
            ∙ here.accounted,
        e,
        no_packet,
      )
      by_items (x ∷ xs) (suc (suc m)) e no_packet here big =
          let (c', runs, has_packet, items, there) =
            turn_at_pop_takes alloc clock a header size uv max r all (suc m) c x xs no_packet e
              here in
          Drained-run all runs
            (drains_behind_pop m all c' x there has_packet (omega (arith, ap length items)))
      by_items (x ∷ xs) zero e no_packet here big = absurd (omega arith)
      by_items (x ∷ xs) (suc zero) e no_packet here big = absurd (omega arith)

      behind :
          (m : ℕ) (packet : Packet)
          → c.packet ≡ some packet
          → Serves size uv max r all checking c
          → 3 * length c.shared.queue.items + 3 ≤ m
          → Drained all (run_thread alloc clock a header m checking c)
      behind zero packet has_packet here big = absurd (omega arith)
      behind (suc m) packet has_packet here big =
          drains_behind_pop m all c packet here has_packet (omega arith)

      at :
          {k : Position}
          → p ≡ k
          → Drained all (run_thread alloc clock a header n k c)
          → Drained all (run_thread alloc clock a header n p c)
      at e d = Drained-run all (ap (λ k. run_thread alloc clock a header n k c) e) d

      by_place : InLoop p c → Drained all (run_thread alloc clock a header n p c)
      by_place (at_test e no_packet) =
          at e (drains_at_test n all c (rw e at sv) no_packet (omega arith))
      by_place (at_pop e no_packet) =
          at e (by_items c.shared.queue.items n refl no_packet (rw e at sv) enough)
      by_place (behind_pop packet e has_packet) =
          at e (behind n packet has_packet (rw e at sv) enough)
