-- ===== src/Camera/Stopping.antt =====
-- What `nativeStop` of cpp/x264/Camera2ToolNative.cpp does to a thread that connects or sends.
use mathlib.Core.Path.{subst}
use android_study_rtmp_avcod.Common.{
  ℕ, suc, ◌^◌, ◌<◌, ◌≡◌, refl, sym, ap, ◌∙◌, true, false, none, some, Option, List, [], ◌∷◌, ◌++◌,
  append_assoc, append-nil, map-append, length, done, ◌>>=◌, if◌then◌else◌,
}
use android_study_rtmp_avcod.Rtmp.{Packet, Rtmp, frees_packet, Answers, PacketAlloc, Allocates}
use android_study_rtmp_avcod.Flv.{aac_config}
use android_study_rtmp_avcod.Session.{Clock}
use android_study_rtmp_avcod.VideoEncode.Contract.{hear_all}
use android_study_rtmp_avcod.Camera.{Camera, close_rtmp, native_stop, release_packet}
use android_study_rtmp_avcod.Camera.Thread.{
  starting, testing, taking, checking, leaving, ending, finished, try_connect, check, thread_step,
  run_thread,
}
use android_study_rtmp_avcod.Camera.Sending.{run_thread_goes, run_thread_waits}
use android_study_rtmp_avcod.Camera.Streaming.{Said, heard_on, IsStreaming}
use android_study_rtmp_avcod.Camera.Streaming.Adding.{feed-Adds}
use android_study_rtmp_avcod.Camera.Schedule.{
  Event, feeds, turn, Tells, ends, hears, turns, heard_by, act_all,
}
use android_study_rtmp_avcod.Camera.Starting.{
  IsReady, Connected, run_thread-Connected, behind_start,
}

pub release_packet-none : (c : Camera) → c.packet ≡ none → release_packet c ≡ c
unfolding release_packet
release_packet-none c no_packet = subst (λ k. release_packet k ≡ k) whole refl
  where
    whole : record c { packet = none } ≡ c
    whole = λ i. record c { packet = sym no_packet i }

pub release_packet-some :
    (c : Camera) (packet : Packet)
    → c.packet ≡ some packet
    → release_packet c ≡ record c { packet = none; calls = c.calls ++ (frees_packet ∷ []) }
unfolding release_packet
release_packet-some c packet has_packet =
    subst
      (λ k. release_packet k ≡ record k { packet = none; calls = k.calls ++ (frees_packet ∷ []) })
      whole refl
  where
    whole : record c { packet = some packet } ≡ c
    whole = λ i. record c { packet = sym has_packet i }

module _ (alloc : PacketAlloc) (clock : Clock) (a : Answers) (header : Option (List ℕ)) where
  pub leaves_ends :
      (n : ℕ) (c : Camera)
      → c.tried ≡ false
      → c.packet ≡ none
      → run_thread alloc clock a header (suc (suc (suc n))) leaving c ≡ done (finished, c)
  unfolding thread_step
  leaves_ends n c stopped no_packet =
      run_thread_goes alloc clock a header (suc (suc n)) leaving ending c c
        (ap (λ k. done (some (ending, k))) (release_packet-none c no_packet))
      ∙ run_thread_goes alloc clock a header (suc n) ending finished c c
          (ap (λ b. done (some (finished, if b then close_rtmp c else c))) stopped)
      ∙ run_thread_waits alloc clock a header n finished c refl

  -- A thread with nothing in hand that finds that it was stopped ends, and closes nothing.
  pub stopped_ends :
      (n : ℕ) (c : Camera)
      → c.tried ≡ false
      → c.packet ≡ none
      → run_thread alloc clock a header (suc (suc (suc (suc n)))) testing c ≡ done (finished, c)
  unfolding thread_step
  stopped_ends n c stopped no_packet =
      run_thread_goes alloc clock a header (suc (suc (suc n))) testing leaving c c
        (ap (λ b. done (some (if b then taking else leaving, c))) stopped)
      ∙ leaves_ends n c stopped no_packet

  -- Behind its end the thread does nothing, and Java's calls with data only fill the queue.
  finished_queues :
      (memory : (n : ℕ) → Allocates alloc n) (size uv max : ℕ) (r : Rtmp) (es : List Event)
      (said : List Said) (c : Camera)
      → IsStreaming size uv max r c
      → Tells size uv max es said
      → (c' : Camera) × (act_all alloc clock a header es (finished, c) ≡ done (finished, c'))
        × (c'.calls ≡ c.calls)
        × (hear_all c'.shared.queue.items
            ≡ hear_all c.shared.queue.items ++ heard_on r.stream_id said)
  unfolding run_thread thread_step
  finished_queues memory size uv max r [] said c st ends = (c, refl, refl, sym (append-nil _))
  finished_queues memory size uv max r (feeds f ∷ es) said c st
        (hears {said = now} {rest = rest} means tells e) =
      let more = feed-Adds alloc clock memory size uv max r c f now st means in
      let (c', runs, calls, heard) =
        finished_queues memory size uv max r es rest more.after more.streams tells in
      (
        c',
        ap (λ x. (x >>= λ k. done (finished, k)) >>= act_all alloc clock a header es) more.ends
            ∙ runs,
        calls ∙ more.same_calls,
        heard
            ∙ ap (λ l. l ++ heard_on r.stream_id rest) more.queue_grows
            ∙ append_assoc (hear_all c.shared.queue.items) (heard_on r.stream_id now)
                (heard_on r.stream_id rest)
            ∙ ap (λ l. hear_all c.shared.queue.items ++ l)
                (sym (map-append (λ m. (m.0, r.stream_id, some m.1)) now rest)
                  ∙ ap (heard_on r.stream_id) (sym e)),
      )
  finished_queues memory size uv max r (turn ∷ es) said c st (turns tells) =
      finished_queues memory size uv max r es said c st tells

  -- A thread that has a packet in hand when Java stops it frees the packet unsent and ends, and the
  -- connection stays open.
  pub native_stop_leaks :
      (n : ℕ) (c : Camera) (packet : Packet)
      → c.packet ≡ some packet
      → run_thread alloc clock a header (suc (suc (suc (suc n)))) checking (native_stop c)
        ≡ done (
          finished,
          record (native_stop c) { packet = none; calls = c.calls ++ (frees_packet ∷ []) },
        )
  unfolding thread_step native_stop check
  native_stop_leaks n c packet has_packet =
      run_thread_goes alloc clock a header (suc (suc (suc n))) checking leaving (native_stop c)
        (native_stop c) refl
      ∙ run_thread_goes alloc clock a header (suc (suc n)) leaving ending (native_stop c) freed (
          ap (λ k. done (some (ending, k))) (release_packet-some (native_stop c) packet has_packet))
      ∙ run_thread_goes alloc clock a header (suc n) ending finished freed freed refl
      ∙ run_thread_waits alloc clock a header n finished freed refl
    where
      freed : Camera
      freed = record (native_stop c) { packet = none; calls = c.calls ++ (frees_packet ∷ []) }

-- If Java stops while the thread connects, and the connection succeeds: the thread ends with the
-- connection open and the encoders at work, having sent nothing; and the data that Java brings then, if
-- every call with data has a meaning, is queued behind faac's header and not sent, in whatever order
-- these calls and turns of the thread come. Both encoders are open, nothing is in hand or queued, the
-- header has fewer than 2 ^ 30 bytes and memory is found.
pub stop_while_connecting :
    (alloc : PacketAlloc) (clock : Clock) (a : Answers) (memory : (n : ℕ) → Allocates alloc n)
    (input url : List ℕ) (id size uv max n : ℕ) (c : Camera) (es : List Event) (said : List Said)
    → IsReady size uv max c
    → c.tried ≡ false
    → a.allocated ≡ true
    → (try_connect a url).1 ≡ some id
    → length input < 2 ^ 30
    → Tells size uv max es said
    → (k : Camera) × (c' : Camera) × (run_thread alloc clock a
          (some input)
          (behind_start (suc (suc (suc (suc n)))))
          (starting url)
          c
        ≡ done (finished, k))
      × IsStreaming size uv max (record { stream_id = id }) k
      × (act_all alloc clock a (some input) es (finished, k) ≡ done (finished, c'))
      × (heard_by c'.calls ≡ heard_by c.calls)
      × (hear_all c'.shared.queue.items ≡ heard_on id ((11, aac_config input) ∷ said))
unfolding Connected
stop_while_connecting alloc clock a memory input url id size uv max n c es said ready stopped found
      reached small tells =
    let (k, runs, streams, same, no_packet, heard, items) =
      run_thread-Connected alloc clock a memory input url id size uv max (suc (suc (suc (suc n)))) c
        ready found reached small in
    let (c', runs', calls, heard') =
      finished_queues alloc clock a (some input) memory size uv max (record { stream_id = id }) es
        said k streams tells in
    (
      k,
      c',
      runs ∙ stopped_ends alloc clock a (some input) n k (same ∙ stopped) no_packet,
      streams,
      runs',
      ap heard_by calls ∙ heard,
      heard' ∙ ap (λ l. l ++ heard_on id said) items,
    )
