-- ===== src/SafeQueue.antt =====
-- head/x264/safe_queue.h, in the variant for POSIX threads: a queue under one mutex, with a condition
-- variable for the thread that takes. Each function here is what its method does while it holds the
-- mutex.
pub mod Monitor
pub mod Effects
use android_study_rtmp_avcod.Common.{
  ℕ, zero, suc, Bool, true, false, Option, none, some, List, [], ◌∷◌, ◌++◌, length, Run, done,
  fault, null_pointer, out_of_bounds, ◌>>=◌, ◌==◌, if◌then◌else◌,
}

-- `q`, `work`, `releaseCallback` (set or null) and `syncHandle`. `released` is what the callback has
-- been given, in order; the callback gets a copy of the element and cannot change the queue.
pub record SafeQueue {ℓ} (A : Type ℓ) : Type ℓ where
  pub items : List A
  pub work : ℕ
  pub release_callback : Bool
  pub sync_handle : Option (List A → List A)
  pub released : List A

module _ {ℓ} {A : Type ℓ} where
  -- A queue of static storage before anything is called: all members are zero.
  abbrev pub zeroed : SafeQueue A
  zeroed = record {
    items = [];
    work = 0;
    release_callback = false;
    sync_handle = none;
    released = [];
  }

  -- `releaseCallback(value)`
  unfoldable pub release : A → SafeQueue A → Run (SafeQueue A)
  release value q =
      if q.release_callback
      then done (record q { released = q.released ++ (value ∷ []) })
      else fault null_pointer

  -- `push`: without `work` the element is not queued but released.
  unfoldable pub push : A → SafeQueue A → Run (SafeQueue A)
  push value q =
      if q.work == 0 then release value q else done (record q { items = q.items ++ (value ∷ []) })

  -- Whether `push` signals the condition.
  abbrev pub push_signals : SafeQueue A → Bool
  push_signals q = if q.work == 0 then false else true

  -- What follows the loop of `pop`: the element, if there is one, with which 1 is returned.
  abbrev pub take_front : SafeQueue A → List A → Option A × SafeQueue A
  take_front q [] = (none, q)
  take_front q (value ∷ rest) = (some value, record q { items = rest })

  abbrev pub is_empty : List A → Bool
  is_empty [] = true
  is_empty (x ∷ xs) = false

  -- `pop` where it holds the mutex: `none` if the loop's test makes it wait.
  unfoldable pub try_pop : SafeQueue A → Option (Option A × SafeQueue A)
  try_pop q =
      if q.work == 0
      then some (take_front q q.items)
      else if is_empty q.items
      then none
      else some (take_front q q.items)

  -- `setWork`, which always signals.
  unfoldable pub set_work : ℕ → SafeQueue A → SafeQueue A
  set_work work q = record q { work = work }

  unfoldable pub empty : SafeQueue A → Bool
  empty q = is_empty q.items

  unfoldable pub size : SafeQueue A → ℕ
  size q = length q.items

  -- The loop of `clear`, with the rounds that are left.
  unfoldable pub clear_loop : ℕ → SafeQueue A → Run (SafeQueue A)
  clear_loop zero q = done q
  clear_loop (suc n) q = elim q.items [
    | [] ↦ fault out_of_bounds
    | value ∷ rest ↦ release value q >>= λ q'. clear_loop n (record q' { items = rest })
  ]

  -- `clear`
  unfoldable pub clear : SafeQueue A → Run (SafeQueue A)
  clear q = clear_loop (length q.items) q

  -- `sync`
  unfoldable pub sync : SafeQueue A → Run (SafeQueue A)
  sync q = elim q.sync_handle [
    | none ↦ fault null_pointer
    | some handle ↦ done (record q { items = handle q.items })
  ]

  unfoldable pub set_release_callback : SafeQueue A → SafeQueue A
  set_release_callback q = record q { release_callback = true }

  unfoldable pub set_sync_handle : (List A → List A) → SafeQueue A → SafeQueue A
  set_sync_handle handle q = record q { sync_handle = some handle }
