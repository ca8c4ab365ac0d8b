-- ===== src/SafeQueue/Effects.antt =====
-- What each method that ends leaves behind, and what `clear` does with the callback and without it.
use mathlib.Core.Path.{subst}
use android_study_rtmp_avcod.Common.{
  ℕ, ◌≡◌, refl, sym, ap, ◌∙◌, ◌⊎◌, ◌==◌, if◌then◌else◌, done-injective, Bool_cases, inl, inr,
  Option, none, some, true, false, List, [], ◌∷◌, ◌++◌, append_assoc, append-nil, length, done,
  fault, null_pointer,
}
use android_study_rtmp_avcod.SafeQueue.{
  SafeQueue, try_pop, take_front, push, push_signals, release, clear_loop, clear,
}

abbrev pub as_list {ℓ} : {A : Type ℓ} → Option A → List A
as_list none = []
as_list (some a) = a ∷ []

module _ {ℓ} {A : Type ℓ} where
  clear_loop_releases :
      (xs : List A) (work : ℕ) (handle : Option (List A → List A)) (released : List A)
      → clear_loop (length xs) (record {
        items = xs;
        work = work;
        release_callback = true;
        sync_handle = handle;
        released = released;
      })
        ≡ done (record {
          items = [];
          work = work;
          release_callback = true;
          sync_handle = handle;
          released = released ++ xs;
        })
  unfolding clear_loop release
  clear_loop_releases [] work handle released = rw (append-nil released)
  clear_loop_releases (x ∷ xs) work handle released =
      rw (
        clear_loop_releases xs work handle (released ++ (x ∷ [])),
        append_assoc released (x ∷ []) xs,
      )

  -- With a callback every element is released, in the order of the queue, and the queue is empty.
  pub clear_releases :
      (q : SafeQueue A)
      → q.release_callback ≡ true
      → clear q ≡ done (record q { items = []; released = q.released ++ q.items })
  unfolding clear
  clear_releases q e =
      subst (λ k. clear k ≡ done (record k { items = []; released = k.released ++ k.items })) whole
        (clear_loop_releases q.items q.work q.sync_handle q.released)
    where
      whole : record q { release_callback = true } ≡ q
      whole = λ i. record q { release_callback = sym e i }

  -- Without one, `clear` calls a null function unless the queue is empty.
  pub clear_faults :
      (q : SafeQueue A) (x : A) (xs : List A)
      → q.release_callback ≡ false
      → q.items ≡ x ∷ xs
      → clear q ≡ fault null_pointer
  unfolding clear clear_loop release
  clear_faults q x xs e h = simp (h, e)

  -- However it ends, a `clear` that ends leaves an empty queue and the flag as it was.
  pub clear_leaves : (q r : SafeQueue A) → clear q ≡ done r → (r.items ≡ []) × (r.work ≡ q.work)
  unfolding clear clear_loop release
  clear_leaves q r e = by_callback (Bool_cases q.release_callback)
    where
      by_items :
          (xs : List A)
          → q.release_callback ≡ false
          → q.items ≡ xs
          → (r.items ≡ []) × (r.work ≡ q.work)
      by_items [] off h =
          let same : q ≡ r = done-injective (simp h at e) in
          (ap (λ k. k.items) (sym same) ∙ h, ap (λ k. k.work) (sym same))
      by_items (x ∷ xs) off h = cc (clear_faults q x xs off h)

      by_callback :
          (q.release_callback ≡ true) ⊎ (q.release_callback ≡ false)
          → (r.items ≡ []) × (r.work ≡ q.work)
      by_callback (inl on) =
          let same = done-injective (sym (clear_releases q on) ∙ e) in
          (ap (λ k. k.items) (sym same), ap (λ k. k.work) (sym same))
      by_callback (inr off) = by_items q.items off refl

  -- What a `push` that ends leaves: the element at the back, if the queue works.
  pub push_leaves :
      (value : A) (q r : SafeQueue A)
      → push value q ≡ done r
      → (r.work ≡ q.work)
        × (r.items ≡ (if push_signals q then q.items ++ (value ∷ []) else q.items))
  unfolding push release
  push_leaves value q r e = by_work (Bool_cases (q.work == 0)) (Bool_cases q.release_callback)
    where
      by_work :
          ((q.work == 0) ≡ true) ⊎ ((q.work == 0) ≡ false)
          → (q.release_callback ≡ true) ⊎ (q.release_callback ≡ false)
          → (r.work ≡ q.work)
            × (r.items ≡ (if push_signals q then q.items ++ (value ∷ []) else q.items))
      by_work (inr on) _ =
          let same = done-injective (simp on at e) in
          (ap (λ k. k.work) (sym same), rw on (ap (λ k. k.items) (sym same)))
      by_work (inl off) (inl set) =
          let same = done-injective (simp (off, set) at e) in
          (ap (λ k. k.work) (sym same), rw off (ap (λ k. k.items) (sym same)))
      by_work (inl off) (inr unset) = cc (simp (off, unset) at e)

  -- What a `pop` that does not wait takes is the front of the queue.
  pub pop_leaves :
      (value : Option A) (q r : SafeQueue A)
      → try_pop q ≡ some (value, r)
      → q.items ≡ as_list value ++ r.items
  unfolding try_pop
  pop_leaves value q r e = by_work (Bool_cases (q.work == 0)) q.items refl
    where
      held : Option (Option A × SafeQueue A) → List A
      held = elim [ none ↦ [] | some p ↦ as_list p.0 ++ p.1.items ]

      front :
          (xs : List A)
          → q.items ≡ xs
          → some (take_front q xs) ≡ some (value, r)
          → q.items ≡ as_list value ++ r.items
      front [] h f = ap held f
      front (x ∷ xs) h f = h ∙ ap held f

      by_work :
          ((q.work == 0) ≡ true) ⊎ ((q.work == 0) ≡ false)
          → (xs : List A) → q.items ≡ xs
          → q.items ≡ as_list value ++ r.items
      by_work (inl off) xs h = front xs h (simp (off, h) at e)
      by_work (inr on) [] h = cc (simp (on, h) at e)
      by_work (inr on) (x ∷ xs) h = front (x ∷ xs) h (simp (on, h) at e)
