-- ===== src/Tests/Queue.antt =====
-- The theorems on the packet queue at concrete inputs.
use android_study_rtmp_avcod.Common.{ℕ, ◌≡◌, refl, true, some, [], ◌∷◌, ◌++◌}
use android_study_rtmp_avcod.SafeQueue.{SafeQueue, zeroed, set_work, push, try_pop}
use android_study_rtmp_avcod.SafeQueue.Monitor.{
  Monitor, Step, Inv, Reach, here, after, pushes, takes, fresh, away, Reach-Inv, stop_frees_taker,
}

abbrev listening : SafeQueue ℕ
listening = record zeroed { work = 1; release_callback = true }

abbrev one_taken : Monitor ℕ
one_taken = record { queue = listening; taker = away; accepted = 7 ∷ []; removed = 7 ∷ [] }

abbrev one_queued : Monitor ℕ
one_queued = record {
  queue = record listening { items = 7 ∷ [] };
  taker = away;
  accepted = 7 ∷ [];
  removed = [];
}

push-Step : Step (fresh listening) one_queued
unfolding push
push-Step = pushes 7 (record listening { items = 7 ∷ [] }) refl refl

take-Step : Step one_queued one_taken
unfolding try_pop
take-Step = takes (some 7) listening (λ e. cc) refl refl

pushed_then_taken : Reach (fresh listening) one_taken
pushed_then_taken = after (after here push-Step) take-Step

Reach-Inv_example : Inv one_taken
Reach-Inv_example = Reach-Inv listening one_taken pushed_then_taken

stop_frees_taker_example :
    (n o : Monitor ℕ) × Step one_taken n
    × Step n o
    × (n.queue ≡ set_work 0 listening)
    × (o.taker ≡ away)
    × ([] ≡ [] ++ o.queue.items)
stop_frees_taker_example = stop_frees_taker one_taken
