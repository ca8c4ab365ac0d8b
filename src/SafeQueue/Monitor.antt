-- ===== src/SafeQueue/Monitor.antt =====
-- Threads on the queue: any number that push, clear or set the flag, and one that takes. A step is
-- what one method does while it holds the mutex; between steps the threads interleave at will.
use android_study_rtmp_avcod.Common.{
  ℕ, ◌≡◌, ◌≢◌, refl, sym, Bool, true, Option, none, some, List, [], ◌∷◌, ◌++◌, append_assoc,
  append-nil, done, arith, if◌then◌else◌,
}
use android_study_rtmp_avcod.SafeQueue.{
  SafeQueue, push, push_signals, try_pop, take_front, set_work, clear,
}
use android_study_rtmp_avcod.SafeQueue.Effects.{as_list, clear_leaves, push_leaves, pop_leaves}

-- The thread that takes: elsewhere, in `pthread_cond_wait` with no signal sent since, or woken, by a
-- signal or for no reason, and about to test again.
pub data Taker : Type 0 where
  away waiting woken : Taker

abbrev pub signal : Bool → Taker → Taker
signal true waiting = woken
signal _ t = t

-- `accepted` and `removed` are the elements that were queued and that left the queue, in order.
pub record Monitor {ℓ} (A : Type ℓ) : Type ℓ where
  pub queue : SafeQueue A
  pub taker : Taker
  pub accepted : List A
  pub removed : List A

pub data Step {ℓ} {A : Type ℓ} (m n : Monitor A) : Type ℓ where
  pushes :
      (value : A) (q : SafeQueue A)
      → push value m.queue ≡ done q
      → n ≡ record {
        queue = q;
        taker = signal (push_signals m.queue) m.taker;
        accepted = if push_signals m.queue then m.accepted ++ (value ∷ []) else m.accepted;
        removed = m.removed;
      }
      → Step m n
  sets_work :
      (work : ℕ)
      → n ≡ record m { queue = set_work work m.queue; taker = signal true m.taker }
      → Step m n
  clears :
      (q : SafeQueue A)
      → clear m.queue ≡ done q
      → n ≡ record m { queue = q; removed = m.removed ++ m.queue.items }
      → Step m n
  takes :
      (value : Option A) (q : SafeQueue A)
      → m.taker ≢ waiting
      → try_pop m.queue ≡ some (value, q)
      → n ≡ record m { queue = q; taker = away; removed = m.removed ++ as_list value }
      → Step m n
  waits : m.taker ≢ waiting → try_pop m.queue ≡ none → n ≡ record m { taker = waiting } → Step m n
  wakes_spuriously : m.taker ≡ waiting → n ≡ record m { taker = woken } → Step m n

pub data Reach {ℓ} {A : Type ℓ} (m : Monitor A) : Monitor A → Type ℓ where
  here : Reach m m
  after : {n o : Monitor A} → Reach m n → Step n o → Reach m o

-- Elements leave in the order in which they were queued, none twice and none lost. A thread that
-- waits unsignalled has nothing to take and has not been told to stop.
pub record Inv {ℓ} {A : Type ℓ} (m : Monitor A) : Type ℓ where
  pub fifo : m.accepted ≡ m.removed ++ m.queue.items
  pub no_lost_wakeup : m.taker ≡ waiting → (m.queue.work ≢ 0) × (m.queue.items ≡ [])

signal_wakes : (t : Taker) → signal true t ≢ waiting
signal_wakes away = λ e. cc
signal_wakes waiting = λ e. cc
signal_wakes woken = λ e. cc

module _ {ℓ} {A : Type ℓ} where
  pub Step-Inv : (m n : Monitor A) → Step m n → Inv m → Inv n
  unfolding set_work try_pop
  Step-Inv m n (pushes value q e f) v =
      ground
        (arith, push_leaves value m.queue q e, append_assoc m.removed m.queue.items (value ∷ []))
  Step-Inv m n (sets_work work f) v = ground arith
  Step-Inv m n (clears q e f) v =
      ground (arith, clear_leaves m.queue q e, append-nil (m.removed ++ m.queue.items))
  Step-Inv m n (takes value q w e f) v =
      ground (arith, pop_leaves value m.queue q e, append_assoc m.removed (as_list value) q.items)
  Step-Inv m n (waits w e f) v = ground arith
  Step-Inv m n (wakes_spuriously w f) v = ground arith

  Reach-keeps-Inv : (m n : Monitor A) → Reach m n → Inv m → Inv n
  Reach-keeps-Inv m n here v = v
  Reach-keeps-Inv m n (after {n = k} r st) v = Step-Inv k n st (Reach-keeps-Inv m k r v)

  -- A queue on which nothing has been done, with nobody waiting.
  abbrev pub fresh : SafeQueue A → Monitor A
  fresh q = record { queue = record q { items = [] }; taker = away; accepted = []; removed = [] }

  -- However the threads interleave: elements leave in the order in which they were queued, none
  -- lost, none twice; and a thread waits unsignalled only while the queue works and is empty.
  pub Reach-Inv : (q : SafeQueue A) (m : Monitor A) → Reach (fresh q) m → Inv m
  Reach-Inv q m r = Reach-keeps-Inv (fresh q) m r (record { fifo = refl; no_lost_wakeup = λ e. cc })

  take_front_splits :
      (xs : List A) (q r : SafeQueue A)
      → r.items ≡ xs
      → as_list (take_front q xs).0 ++ (take_front r xs).1.items ≡ xs
  take_front_splits [] q r h = h
  take_front_splits (x ∷ xs) q r h = refl

  -- Telling the queue to stop frees the thread that takes, wherever it was: it needs no more than
  -- one step of its own, and takes an element that is left.
  pub stop_frees_taker :
      (m : Monitor A)
      → (n o : Monitor A) × Step m n
        × Step n o
        × (n.queue ≡ set_work 0 m.queue)
        × (o.taker ≡ away)
        × (m.queue.items ≡ as_list (take_front m.queue m.queue.items).0 ++ o.queue.items)
  unfolding try_pop set_work
  stop_frees_taker m = (
    stopped,
    taken,
    sets_work 0 refl,
    takes _ (take_front stopped.queue stopped.queue.items).1 woken_up refl refl,
    refl,
    refl,
    sym (take_front_splits m.queue.items m.queue stopped.queue refl),
  )
    where
      stopped : Monitor A
      stopped = record m { queue = record m.queue { work = 0 }; taker = signal true m.taker }

      taken : Monitor A
      taken = record stopped {
        queue = (take_front stopped.queue stopped.queue.items).1;
        taker = away;
        removed = m.removed ++ as_list (take_front stopped.queue stopped.queue.items).0;
      }

      woken_up : signal true m.taker ≢ waiting
      woken_up = signal_wakes m.taker
