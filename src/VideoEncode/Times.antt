-- ===== src/VideoEncode/Times.antt =====
-- The times of the packets that `encodeData` of cpp/x264/X264VideoEncode.cpp queues.
use mathlib.Core.Path.{subst}
use android_study_rtmp_avcod.Common.{
  sym, ◌≡◌, refl, zero, ℕ, suc, ◌+◌, ◌%◌, ◌^◌, ◌≤◌, ◌<◌, ◌≢◌, List, [], ◌∷◌, ◌==◌, arith, length,
  sub32, if◌then◌else◌, map, ne→==,
}
use android_study_rtmp_avcod.Rtmp.{Packet}
use android_study_rtmp_avcod.Session.{Clock}
use android_study_rtmp_avcod.VideoEncode.Contract.{Encoded, sps, pps, slice}

-- The start of the stream and the number of readings of the clock, when the start is noted.
abbrev pub began : Clock → ℕ → ℕ → ℕ × ℕ
began clock start reads = if start == 0 then (clock reads % 2 ^ 32, suc reads) else (start, reads)

-- Parameter sets go out at time 0, any other unit at the time since the start.
abbrev pub times : Clock → List Encoded → ℕ → ℕ → List ℕ
times clock [] start reads = []
times clock (sps q ∷ us) start reads = times clock us start reads
times clock (pps bs ∷ us) start reads = 0 ∷ times clock us start reads
times clock (slice long kind t nal ∷ us) start reads =
    let (noted, n) = began clock start reads in
    sub32 (clock n % 2 ^ 32) noted ∷ times clock us noted (suc n)

abbrev pub times_of : List Packet → List ℕ
times_of = map (λ p. p.time_stamp)

-- No picture parameter set stands among the units.
abbrev pub NoSets : List Encoded → Type 0
NoSets [] = Unit {0}
NoSets (pps bs ∷ us) = ⊥
NoSets (_ ∷ us) = NoSets us

-- From `low` on, the times do not go back.
abbrev pub InOrder : ℕ → List ℕ → Type 0
InOrder low [] = Unit {0}
InOrder low (t ∷ ts) = (low ≤ t) × InOrder t ts

sub32_lem : (a b : ℕ) → b ≤ a → a < 2 ^ 32 → b + sub32 (a % 2 ^ 32) b ≡ a
sub32_lem a b h h' = omega arith

began-noted :
    (clock : Clock) (start reads : ℕ) → start ≢ 0 → began clock start reads ≡ (start, reads)
began-noted clock start reads set = rw (ne→== start 0 set)

module _ (clock : Clock) (onward : (m n : ℕ) → m ≤ n → clock m ≤ clock n) where
  -- A unit at the reading `n`, and the units behind it.
  step-InOrder :
      (ts : List ℕ) (noted n low : ℕ)
      → noted + low ≤ clock n
      → clock n < 2 ^ 32
      → (noted + sub32 (clock n % 2 ^ 32) noted ≡ clock n
          → InOrder (sub32 (clock n % 2 ^ 32) noted) ts)
      → InOrder low (sub32 (clock n % 2 ^ 32) noted ∷ ts)
  step-InOrder ts noted n low late small rest =
      let e = sub32_lem (clock n) noted (omega arith) small in (omega (arith, e), rest e)

  -- A stream that has started.
  times-InOrder :
      (us : List Encoded) (start reads low : ℕ)
      → NoSets us
      → start ≢ 0
      → start + low ≤ clock reads
      → clock (reads + length us) < 2 ^ 32
      → InOrder low (times clock us start reads)
  times-InOrder [] start reads low none_there set late small = tt
  times-InOrder (sps q ∷ us) start reads low none_there set late small =
      times-InOrder us start reads low none_there set late
        (omega (arith, onward (reads + length us) (reads + suc (length us)) (omega arith)))
  times-InOrder (pps bs ∷ us) start reads low none_there set late small = absurd none_there
  times-InOrder (slice long kind t nal ∷ us) start reads low none_there set late small =
      rw (began-noted clock start reads set) (
        step-InOrder (times clock us start (suc reads)) start reads low late
          (omega (arith, onward reads (reads + suc (length us)) (omega arith)))
          (λ e.
            times-InOrder us start (suc reads) (sub32 (clock reads % 2 ^ 32) start) none_there set
              (omega (arith, e, onward reads (suc reads) (omega arith)))
              (subst (λ k. clock k < 2 ^ 32) (omega arith) small)))

  -- A stream that has not started.
  times-first :
      (us : List Encoded) (reads : ℕ)
      → NoSets us
      → 0 < clock reads
      → clock (reads + suc (length us)) < 2 ^ 32
      → InOrder 0 (times clock us 0 reads)
  times-first [] reads none_there later small = tt
  times-first (sps q ∷ us) reads none_there later small = times-first us reads none_there later (
      omega (arith, onward (reads + suc (length us)) (reads + suc (suc (length us))) (omega arith)))
  times-first (pps bs ∷ us) reads none_there later small = absurd none_there
  times-first (slice long kind t nal ∷ us) reads none_there later small =
      let below = onward reads (reads + suc (suc (length us))) (omega arith) in
      let noted = clock reads % 2 ^ 32 in
      step-InOrder (times clock us noted (suc (suc reads))) noted (suc reads) 0
        (omega (arith, below, onward reads (suc reads) (omega arith)))
        (omega (arith, onward (suc reads) (reads + suc (suc (length us))) (omega arith)))
        (λ e.
          times-InOrder us noted (suc (suc reads)) (sub32 (clock (suc reads) % 2 ^ 32) noted)
            none_there (λ z. omega (arith, z, below, later))
            (omega (arith, e, onward (suc reads) (suc (suc reads)) (omega arith)))
            (subst (λ k. clock k < 2 ^ 32) (omega arith) small))

  -- A stream whose last time was `low`, started or not.
  pub times-ordered :
      (us : List Encoded) (start reads low : ℕ)
      → NoSets us
      → start + low ≤ clock reads
      → (start ≡ 0 → low ≡ 0)
      → 0 < clock reads
      → clock (reads + suc (length us)) < 2 ^ 32
      → InOrder low (times clock us start reads)
  times-ordered us zero reads low none_there late fresh later small =
      subst (λ l. InOrder l (times clock us 0 reads)) (sym (fresh refl))
        (times-first us reads none_there later small)
  times-ordered us (suc start) reads low none_there late fresh later small =
      times-InOrder us (suc start) reads low none_there (λ z. omega (arith, z)) late
        (omega (arith, onward (reads + length us) (reads + suc (length us)) (omega arith)))
