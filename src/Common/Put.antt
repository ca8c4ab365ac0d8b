-- ===== src/Common/Put.antt =====
-- Consecutive stores `p[i++] = v`, and the copy of a block to a position.
use Prim.Native.Nat.{ℕ, zero, suc, ◌+◌, ◌≤◌, ◌<◌}
use mathlib.Core.Path.{◌≡◌, refl, ap, ◌∙◌}
use mathlib.Core.List.{List, [], ◌∷◌, ◌++◌, append_assoc}
use native.Mathlib.Omega.{arith}
use native.Mathlib.Decide.{dec_lt}
use android_study_rtmp_avcod.Common.Lists.{
  length, length-append, take, take-append, take-length, drop,
}
use android_study_rtmp_avcod.Common.Memory.{
  Run, done, fault, out_of_bounds, ◌>>=◌, load, load_all, store, advance,
}

-- The bytes in turn, with `i` after them.
unfoldable pub put : List ℕ → ℕ → List ℕ → Run (List ℕ × ℕ)
put b i [] = done (b, i)
put b i (v ∷ vs) = do b' ← store b i v; put b' (i + 1) vs

-- `memcpy(&p[i], src, n); i += n`
unfoldable pub copy : List ℕ → ℕ → List ℕ → ℕ → Run (List ℕ × ℕ)
copy b i src n = do vs ← load_all src n; put b i vs

-- Stores of two blocks in a row are the stores of their concatenation.
pub put-append {ℓ} :
    {A : Type ℓ} (b : List ℕ) (i : ℕ) (vs ws : List ℕ) (k : List ℕ × ℕ → Run A)
    → (put b i vs >>= λ r. (put r.0 r.1 ws >>= k)) ≡ (put b i (vs ++ ws) >>= k)
unfolding put
put-append b i [] ws k = refl
put-append {A} b i (v ∷ vs) ws k = go (store b i v) (λ b'. put-append b' (i + 1) vs ws k)
  where
    go :
        (r : Run (List ℕ))
        → ((b' : List ℕ)
            → (put b' (i + 1) vs >>= λ q. (put q.0 q.1 ws >>= k))
              ≡ (put b' (i + 1) (vs ++ ws) >>= k))
        → ((r >>= (λ b'. put b' (i + 1) vs)) >>= λ q. (put q.0 q.1 ws >>= k))
          ≡ ((r >>= (λ b'. put b' (i + 1) (vs ++ ws))) >>= k)
    go (done b') h = h b'
    go (fault e) h = refl

pub store-append :
    (pre : List ℕ) (x v : ℕ) (post : List ℕ) (i : ℕ)
    → i ≡ length pre
    → store (pre ++ (x ∷ post)) i v ≡ done ((pre ++ (v ∷ [])) ++ post)
unfolding store
store-append [] x v post zero e = refl
store-append [] x v post (suc i) e = absurd (omega arith)
store-append (y ∷ pre) x v post zero e = absurd (omega arith)
store-append (y ∷ pre) x v post (suc i) e = rw (store-append pre x v post i (omega arith))

pub put-over :
    (pre old vs : List ℕ) (i : ℕ)
    → i ≡ length pre
    → length old ≡ length vs
    → put (pre ++ old) i vs ≡ done (pre ++ vs, i + length vs)
unfolding put
put-over pre [] [] i e h = ap done (ap (λ (j : ℕ). (pre ++ [], j)) (omega arith))
put-over pre (x ∷ old) [] i e h = absurd (omega arith)
put-over pre [] (v ∷ vs) i e h = absurd (omega arith)
put-over pre (x ∷ old) (v ∷ vs) i e h = rw (store-append pre x v old i e) (
    rw
      (put-over (pre ++ (v ∷ [])) old vs (i + 1) (omega (arith, length-append pre (v ∷ [])))
        (omega arith))
      (ground (arith, append_assoc pre (v ∷ []) vs)))

-- Stores from the start that reach the end of the buffer leave exactly what was stored.
pub put-full : (b vs : List ℕ) → length b ≡ length vs → put b 0 vs ≡ done (vs, length vs)
put-full b vs h = put-over [] b vs 0 refl h ∙ ap (λ (j : ℕ). done (vs, j)) (omega arith)

-- What a copy reads.
pub load_all-take : (xs : List ℕ) (n : ℕ) → n ≤ length xs → load_all xs n ≡ done (take n xs)
unfolding load_all
load_all-take xs zero h = refl
load_all-take [] (suc n) h = absurd (omega arith)
load_all-take (x ∷ xs) (suc n) h = rw (load_all-take xs n (omega arith))

-- A copy is a store of what it reads.
pub copy-take :
    (b : List ℕ) (i : ℕ) (src : List ℕ) (n : ℕ)
    → n ≤ length src
    → copy b i src n ≡ put b i (take n src)
unfolding copy
copy-take b i src n h = rw (load_all-take src n h)

pub load_all-append : (xs ys : List ℕ) (n : ℕ) → n ≡ length xs → load_all (xs ++ ys) n ≡ done xs
load_all-append xs ys n e =
    rw (load_all-take (xs ++ ys) n (omega (arith, length-append xs ys)), e, take-append xs ys)

pub advance-append : (xs ys : List ℕ) (k : ℕ) → k ≡ length xs → advance (xs ++ ys) k ≡ done ys
unfolding advance
advance-append [] ys zero e = refl
advance-append [] ys (suc k) e = absurd (omega arith)
advance-append (x ∷ xs) ys zero e = absurd (omega arith)
advance-append (x ∷ xs) ys (suc k) e = advance-append xs ys k (omega arith)

pub advance-drop : (xs : List ℕ) (k : ℕ) → k ≤ length xs → advance xs k ≡ done (drop k xs)
unfolding advance
advance-drop xs zero h = refl
advance-drop [] (suc k) h = absurd (omega arith)
advance-drop (x ∷ xs) (suc k) h = advance-drop xs k (omega arith)

pub load-append : (xs ys : List ℕ) (i j : ℕ) → i ≡ length xs + j → load (xs ++ ys) i ≡ load ys j
unfolding load
load-append [] ys i j e = ap (load ys) (omega arith)
load-append (x ∷ xs) ys zero j e = absurd (omega arith)
load-append (x ∷ xs) ys (suc i) j e = load-append xs ys i j (omega arith)

pub put-part :
    (pre b vs : List ℕ) (i : ℕ)
    → i ≡ length pre
    → length vs ≤ length b
    → put (pre ++ b) i vs ≡ done (pre ++ (vs ++ drop (length vs) b), i + length vs)
unfolding put
put-part pre b [] i e h = ap (λ (j : ℕ). done (pre ++ b, j)) (omega arith)
put-part pre [] (v ∷ vs) i e h = absurd (omega arith)
put-part pre (x ∷ b) (v ∷ vs) i e h = rw (store-append pre x v b i e) (
    rw
      (put-part (pre ++ (v ∷ [])) b vs (i + 1) (omega (arith, length-append pre (v ∷ [])))
        (omega arith))
      (ground (arith, append_assoc pre (v ∷ []) (vs ++ drop (length vs) b))))

-- A copy to the start of a buffer that is long enough leaves the rest of the buffer.
pub copy-part :
    (b src : List ℕ) (n : ℕ)
    → n ≡ length src
    → n ≤ length b
    → copy b 0 src n ≡ done (src ++ drop (length src) b, n)
copy-part b src n e h =
    copy-take b 0 src n (omega arith)
    ∙ (rw (e, take-length src)
        (put-part [] b src 0 refl (omega arith)
          ∙ ap (λ (j : ℕ). done (src ++ drop (length src) b, j)) (omega arith)))

store_within :
    (b : List ℕ) (i v : ℕ)
    → i < length b
    → (b' : List ℕ) × (store b i v ≡ done b') × (length b' ≡ length b)
unfolding store
store_within [] i v h = absurd (omega arith)
store_within (x ∷ b) zero v h = (v ∷ b, refl, refl)
store_within (x ∷ b) (suc i) v h =
    let (b', e, l) = store_within b i v (omega arith) in (x ∷ b', rw e, omega arith)

store_at_end : (b : List ℕ) (v : ℕ) → store b (length b) v ≡ fault out_of_bounds
unfolding store
store_at_end [] v = refl
store_at_end (x ∷ b) v = rw (store_at_end b v)

-- Stores that do not fit a buffer leave it.
put_overflows :
    (b : List ℕ) (i : ℕ) (vs : List ℕ)
    → i ≤ length b
    → length b < i + length vs
    → put b i vs ≡ fault out_of_bounds
unfolding put
put_overflows b i [] h big = absurd (omega arith)
put_overflows b i (v ∷ vs) h big = elim (dec_lt i (length b)) [
  | yes within ↦
      let (b', e, l) = store_within b i v within in
      rw e (put_overflows b' (i + 1) vs (omega arith) (omega arith))
  | no beyond ↦ let last : i ≡ length b = omega arith in rw (last, store_at_end b v)
]

pub copy_overflows :
    (b src : List ℕ) (n : ℕ) → n ≡ length src → length b < n → copy b 0 src n ≡ fault out_of_bounds
copy_overflows b src n e big =
    copy-take b 0 src n (omega arith)
    ∙ (rw (e, take-length src) (put_overflows b 0 src (omega arith) (omega arith)))
