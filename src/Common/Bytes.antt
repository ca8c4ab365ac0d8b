-- ===== src/Common/Bytes.antt =====
-- Buffers that hold bytes, and what the accesses of Common/Memory.antt leave of them.
use Prim.Native.Nat.{ℕ, zero, suc, ◌+◌, ◌%◌, ◌^◌, ◌<◌}
use mathlib.Core.Path.{◌≡◌, refl}
use mathlib.Core.List.{List, [], ◌∷◌, ◌++◌}
use native.Mathlib.Omega.{arith}
use native.Mathlib.Decide.{dec_lt}
use android_study_rtmp_avcod.Common.Tests.{lt→ltb, le→ltb}
use android_study_rtmp_avcod.Common.Lists.{length, take}
use android_study_rtmp_avcod.Common.Memory.{load, store, load_all, advance, add_int}
use android_study_rtmp_avcod.Common.Put.{put, copy}
use android_study_rtmp_avcod.Common.Logic.{Ensures, returns, faults, Ensures-bind}

-- Each number is below 256.
abbrev pub AreBytes : List ℕ → Type 0
AreBytes [] = Unit {0}
AreBytes (x ∷ xs) = (x < 256) × AreBytes xs

pub AreBytes-append : (xs ys : List ℕ) → AreBytes xs → AreBytes ys → AreBytes (xs ++ ys)
AreBytes-append [] ys h k = k
AreBytes-append (x ∷ xs) ys (b, h) k = (b, AreBytes-append xs ys h k)

pub AreBytes-take : (n : ℕ) (xs : List ℕ) → AreBytes xs → AreBytes (take n xs)
AreBytes-take zero xs h = tt
AreBytes-take (suc n) [] h = tt
AreBytes-take (suc n) (x ∷ xs) (b, h) = (b, AreBytes-take n xs h)

pub byte_below : (x : ℕ) → x % 256 < 256
byte_below x = omega arith

-- A buffer of `n` bytes.
abbrev pub IsBuffer : ℕ → List ℕ → Type 0
IsBuffer n b = AreBytes b × (length b ≡ n)

pub load-Ensures : (xs : List ℕ) (i : ℕ) → AreBytes xs → Ensures (λ x. x < 256) (load xs i)
unfolding load
load-Ensures [] i h = faults
load-Ensures (x ∷ xs) zero h = returns h.0
load-Ensures (x ∷ xs) (suc i) h = load-Ensures xs i h.1

pub load_all-Ensures : (xs : List ℕ) (n : ℕ) → AreBytes xs → Ensures AreBytes (load_all xs n)
unfolding load_all
load_all-Ensures xs zero h = returns tt
load_all-Ensures [] (suc n) h = faults
load_all-Ensures (x ∷ xs) (suc n) h =
    Ensures-bind (load_all-Ensures xs n h.1) λ ys k. returns (h.0, k)

pub advance-Ensures : (xs : List ℕ) (n : ℕ) → AreBytes xs → Ensures AreBytes (advance xs n)
unfolding advance
advance-Ensures xs zero h = returns h
advance-Ensures [] (suc n) h = faults
advance-Ensures (x ∷ xs) (suc n) h = advance-Ensures xs n h.1

pub store-Ensures :
    (b : List ℕ) (i v : ℕ) {n : ℕ} → IsBuffer n b → v < 256 → Ensures (IsBuffer n) (store b i v)
unfolding store
store-Ensures [] i v h small = faults
store-Ensures (x ∷ b) zero v h small = returns ((small, h.0.1), h.1)
store-Ensures (x ∷ b) (suc i) v h small =
    Ensures-bind (store-Ensures b i v (h.0.1, refl) small)
      λ ys k. returns ((h.0.0, k.0), omega (arith, k.1, h.1))

pub put-Ensures :
    (b : List ℕ) (i : ℕ) (vs : List ℕ) {n : ℕ}
    → IsBuffer n b
    → AreBytes vs
    → Ensures (λ r. IsBuffer n r.0) (put b i vs)
unfolding put
put-Ensures b i [] h small = returns h
put-Ensures b i (v ∷ vs) h small =
    Ensures-bind (store-Ensures b i v h small.0) λ b' h'. put-Ensures b' (i + 1) vs h' small.1

pub copy-Ensures :
    (b : List ℕ) (i : ℕ) (src : List ℕ) (n : ℕ) {k : ℕ}
    → IsBuffer k b
    → AreBytes src
    → Ensures (λ r. IsBuffer k r.0) (copy b i src n)
unfolding copy
copy-Ensures b i src n h bytes =
    Ensures-bind (load_all-Ensures src n bytes) λ vs small. put-Ensures b i vs h small

-- A sum that does not overflow.
pub add_int-Ensures : (a b : ℕ) → Ensures (λ n. n < 2 ^ 31) (add_int a b)
add_int-Ensures a b = elim (dec_lt (a + b) (2 ^ 31)) [
  | yes small ↦ rw (lt→ltb (a + b) (2 ^ 31) small) (returns small)
  | no big ↦ rw (le→ltb (a + b) (2 ^ 31) (omega arith)) faults
]
