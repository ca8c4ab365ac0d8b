-- ===== src/Camera/Schedule.antt =====
-- Java's calls with data and the steps of the thread, in any order.
pub mod Turns
pub mod Order
pub mod Drain
use mathlib.Core.Path.{subst}
use android_study_rtmp_avcod.Common.{
  ℕ, zero, suc, ◌+◌, ◌*◌, ◌≤◌, ◌≡◌, refl, sym, ap, ◌∙◌, Bool, true, false, Option, none, some, List,
  [], ◌∷◌, ◌++◌, append-nil, append_assoc, arith, length, Run, done, ◌==◌, ◌>>=◌, if◌then◌else◌,
  map, map-append,
}
use android_study_rtmp_avcod.Rtmp.{
  Packet, Rtmp, Call, sends, frees_packet, Answers, PacketAlloc, Allocates,
}
use android_study_rtmp_avcod.Delivery.{Delivery, deliver, deliveries, deliveries-append}
use android_study_rtmp_avcod.SafeQueue.{SafeQueue, try_pop}
use android_study_rtmp_avcod.Session.{Clock}
use android_study_rtmp_avcod.VideoEncode.Contract.{Heard, hear, hear_all}
use android_study_rtmp_avcod.Camera.{Camera, release_packet}
use android_study_rtmp_avcod.Camera.Feed.{Feed, feed}
use android_study_rtmp_avcod.Camera.Thread.{
  Position, testing, taking, checking, leaving, take, check, thread_step, run_thread,
}
use android_study_rtmp_avcod.Camera.Sending.{
  sent, holding, try_pop_waits, try_pop_takes, run_thread_goes, run_thread_waits, run_thread_drains,
}
use android_study_rtmp_avcod.Camera.Streaming.{Said, heard_on, Means, IsStreaming, Adds}
use android_study_rtmp_avcod.Camera.Streaming.Adding.{feed-Adds}

pub data Event : Type 0 where
  feeds : Feed → Event
  turn : Event

-- What the calls of a schedule mean, in order; the thread's turns mean nothing.
pub data Tells (size uv max : ℕ) : List Event → List Said → Type 0 where
  ends : Tells size uv max [] []
  hears :
      {f : Feed} {es : List Event} {said rest all : List Said}
      → Means size uv max f said
      → Tells size uv max es rest
      → all ≡ said ++ rest
      → Tells size uv max (feeds f ∷ es) all
  turns :
      {es : List Event} {all : List Said}
      → Tells size uv max es all
      → Tells size uv max (turn ∷ es) all

-- What is heard of the packets that were sent.
abbrev pub heard_by : List Call → List Heard
heard_by cs = map (λ d. (d.channel, d.stream, d.message)) (deliveries cs)

abbrev pub in_hand : Option Packet → List Heard
in_hand none = []
in_hand (some p) = hear p ∷ []

-- Where the thread stands in its loop, and what it has in hand there.
pub data InLoop (p : Position) (c : Camera) : Type 0 where
  at_test : p ≡ testing → c.packet ≡ none → InLoop p c
  at_pop : p ≡ taking → c.packet ≡ none → InLoop p c
  behind_pop : (packet : Packet) → p ≡ checking → c.packet ≡ some packet → InLoop p c

-- The stream runs, the thread is in its loop, and `all` is what was sent, what the thread has in hand
-- and what is queued, in this order.
pub record Serves (size uv max : ℕ) (r : Rtmp) (all : List Heard) (p : Position) (c : Camera)
    : Type 0 where
  pub streams : IsStreaming size uv max r c
  pub tried : c.tried ≡ true
  pub in_loop : InLoop p c
  pub accounted : heard_by c.calls ++ (in_hand c.packet ++ hear_all c.shared.queue.items) ≡ all

pub heard_by-append : (cs ds : List Call) → heard_by (cs ++ ds) ≡ heard_by cs ++ heard_by ds
heard_by-append cs ds =
    ap (map (λ d. (d.channel, d.stream, d.message))) (deliveries-append cs ds)
    ∙ map-append (λ d. (d.channel, d.stream, d.message)) (deliveries cs) (deliveries ds)

pub heard_by-sent : (ps : List Packet) → heard_by (sent ps) ≡ hear_all ps
unfolding deliveries
heard_by-sent [] = refl
heard_by-sent (p ∷ ps) = ap (λ l. hear p ∷ l) (heard_by-sent ps)

module _ (alloc : PacketAlloc) (clock : Clock) (a : Answers) (header : Option (List ℕ)) where
  abbrev pub act : Event → Position × Camera → Run (Position × Camera)
  act (feeds f) (p, c) = feed alloc clock f c >>= λ c'. done (p, c')
  act turn (p, c) = run_thread alloc clock a header 1 p c

  abbrev pub act_all : List Event → Position × Camera → Run (Position × Camera)
  act_all [] pc = done pc
  act_all (e ∷ es) pc = act e pc >>= act_all es
