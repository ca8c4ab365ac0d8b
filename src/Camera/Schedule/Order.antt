-- ===== src/Camera/Schedule/Order.antt =====
-- Whatever the order of calls and turns, nothing is lost, added or moved.
use mathlib.Core.Path.{subst}
use android_study_rtmp_avcod.Common.{
  ℕ, ◌≡◌, refl, sym, ap, ◌∙◌, Option, some, List, [], ◌∷◌, ◌++◌, append-nil, append_assoc, Run,
  done, ◌>>=◌, map-append,
}
use android_study_rtmp_avcod.Rtmp.{Rtmp, Answers, PacketAlloc, Allocates}
use android_study_rtmp_avcod.Session.{Clock}
use android_study_rtmp_avcod.VideoEncode.Contract.{Heard, hear_all}
use android_study_rtmp_avcod.Camera.{Camera}
use android_study_rtmp_avcod.Camera.Thread.{Position}
use android_study_rtmp_avcod.Camera.Streaming.{Said, heard_on, Adds}
use android_study_rtmp_avcod.Camera.Streaming.Adding.{feed-Adds}
use android_study_rtmp_avcod.Camera.Schedule.{
  Event, feeds, turn, Tells, ends, hears, turns, heard_by, in_hand, InLoop, at_test, at_pop,
  behind_pop, Serves, act_all,
}
use android_study_rtmp_avcod.Camera.Schedule.Turns.{turned}

module _ (size uv max : ℕ) (r : Rtmp) where
  -- A call that adds to the queue leaves the thread where it stands.
  Serves-after :
      (all : List Heard) (said : List Said) (p : Position) (c : Camera) (run : Run Camera)
      → Serves size uv max r all p c
      → (more : Adds size uv max r said c run)
      → Serves size uv max r (all ++ heard_on r.stream_id said) p more.after
  Serves-after all said p c run sv more = record {
    streams = more.streams;
    tried = more.same_tried ∙ sv.tried;
    in_loop = by_place sv.in_loop;
    accounted =
        ap
          (λ l. heard_by l ++ (in_hand more.after.packet ++ hear_all more.after.shared.queue.items))
          more.same_calls
        ∙ ap (λ o. heard_by c.calls ++ (in_hand o ++ hear_all more.after.shared.queue.items))
            more.same_packet
        ∙ ap (λ l. heard_by c.calls ++ (in_hand c.packet ++ l)) more.queue_grows
        ∙ ap (λ l. heard_by c.calls ++ l)
            (sym (
              append_assoc (in_hand c.packet) (hear_all c.shared.queue.items)
                (heard_on r.stream_id said)))
        ∙ sym (
            append_assoc (heard_by c.calls) (in_hand c.packet ++ hear_all c.shared.queue.items)
              (heard_on r.stream_id said))
        ∙ ap (λ l. l ++ heard_on r.stream_id said) sv.accounted;
  }
    where
      by_place : InLoop p c → InLoop p more.after
      by_place (at_test e h) = at_test e (more.same_packet ∙ h)
      by_place (at_pop e h) = at_pop e (more.same_packet ∙ h)
      by_place (behind_pop packet e h) = behind_pop packet e (more.same_packet ∙ h)

  pub Serves-more :
      (all : List Heard) (said : List Said) (p : Position) (c : Camera) (run : Run Camera)
      → Serves size uv max r all p c
      → Adds size uv max r said c run
      → (c' : Camera) × (run ≡ done c')
        × Serves size uv max r (all ++ heard_on r.stream_id said) p c'
  Serves-more all said p c run sv more =
      (more.after, more.ends, Serves-after all said p c run sv more)

  pub Serves-done :
      (all : List Heard) (said : List Said) (p : Position) (c c' : Camera)
      → Serves size uv max r all p c
      → Adds size uv max r said c (done c')
      → Serves size uv max r (all ++ heard_on r.stream_id said) p c'
  Serves-done all said p c c' sv more =
      let (after, same_run, there) = Serves-more all said p c (done c') sv more in
      subst (λ k. Serves size uv max r (all ++ heard_on r.stream_id said) p k) (same after same_run)
        there
    where
      same : (k : Camera) → done c' ≡ done k → k ≡ c'
      same k e = cc

module _ (alloc : PacketAlloc) (clock : Clock) (a : Answers) (header : Option (List ℕ))
    (size uv max : ℕ) (r : Rtmp) where
  -- Whatever the order in which Java's calls and the thread's steps come: no step fails, and what was
  -- sent, what the thread has in hand and what is queued are together, in this order, what there was
  -- and what the calls mean. Every call has a meaning, the stream runs, and memory is found.
  pub act_all-Serves :
      (memory : (n : ℕ) → Allocates alloc n) (es : List Event) (said : List Said) (all : List Heard)
      (p : Position) (c : Camera)
      → Serves size uv max r all p c
      → Tells size uv max es said
      → (p' : Position) × (c' : Camera) × (act_all alloc clock a header es (p, c) ≡ done (p', c'))
        × Serves size uv max r (all ++ heard_on r.stream_id said) p' c'
  act_all-Serves memory [] said all p c sv ends =
      (p, c, refl, subst (λ l. Serves size uv max r l p c) (sym (append-nil all)) sv)
  act_all-Serves memory (feeds f ∷ es) said all p c sv
        (hears {said = now} {rest = rest} means tells e) =
      let (c', runs, there) =
        Serves-more size uv max r all now p c _ sv
          (feed-Adds alloc clock memory size uv max r c f now sv.streams means) in
      let (p'', c'', runs', last) = act_all-Serves memory es rest _ p c' there tells in
      (
        p'',
        c'',
        ap (λ x. (x >>= λ k. done (p, k)) >>= act_all alloc clock a header es) runs ∙ runs',
        subst (λ l. Serves size uv max r l p'' c'')
            (append_assoc all (heard_on r.stream_id now) (heard_on r.stream_id rest)
              ∙ ap (λ l. all ++ l)
                  (sym (map-append (λ m. (m.0, r.stream_id, some m.1)) now rest)
                    ∙ ap (heard_on r.stream_id) (sym e)))
            last,
      )
  act_all-Serves memory (turn ∷ es) said all p c sv (turns tells) =
      let (p', c', runs, there) = turned alloc clock a header size uv max r all p c sv in
      let (p'', c'', runs', last) = act_all-Serves memory es said all p' c' there tells in
      (p'', c'', ap (λ x. x >>= act_all alloc clock a header es) runs ∙ runs', last)
