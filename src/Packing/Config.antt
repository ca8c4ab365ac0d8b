-- ===== src/Packing/Config.antt =====
-- What `config_body` leaves in the body.
use android_study_rtmp_avcod.Common.{
  ℕ, ◌+◌, ◌%◌, ◌^◌, ◌≤◌, ◌<◌, ◌≡◌, some, List, [], ◌∷◌, ◌++◌, arith, length, take, Run, done, ◌>>=◌,
  load, put, copy, ◌∙◌, copy-take, put-append, put-full, lt→ltb, length-take, length-append,
}
use android_study_rtmp_avcod.Rtmp.{PacketAlloc}
use android_study_rtmp_avcod.Packing.{byte_at, config_body}

-- The body for the parameter sets `sps`, whose first bytes are `t`, `p`, `c` and `l`, and `pps`.
abbrev pub config_bytes : ℕ → ℕ → ℕ → List ℕ → List ℕ → ℕ → ℕ → List ℕ
config_bytes p c l sps pps m n =
    0x17
    ∷ 0
    ∷ 0
    ∷ 0
    ∷ 0
    ∷ 1
    ∷ p
    ∷ c
    ∷ l
    ∷ 0xff
    ∷ 0xe1
    ∷ byte_at m 8
    ∷ (m % 256)
    ∷ (sps ++ (1 ∷ byte_at n 8 ∷ (n % 256) ∷ pps))

six_puts {ℓ} :
    {A : Type ℓ} (b u v w x y z : List ℕ) (k : List ℕ × ℕ → Run A)
    → (do
      r1 ← put b 0 u
      r2 ← put r1.0 r1.1 v
      r3 ← put r2.0 r2.1 w
      r4 ← put r3.0 r3.1 x
      r5 ← put r4.0 r4.1 y
      r6 ← put r5.0 r5.1 z
      k r6)
      ≡ (put b 0 (u ++ (v ++ (w ++ (x ++ (y ++ z))))) >>= k)
six_puts b u v w x y z k = simp put-append

pub config_body_eq :
    (alloc : PacketAlloc) (b : List ℕ) (t p c l : ℕ) (sps pps : List ℕ) (m n : ℕ)
    → m ≤ 4 + length sps
    → n ≤ length pps
    → m + n + 16 < 2 ^ 31
    → alloc (m + n + 16) ≡ some b
    → length b ≡ m + n + 16
    → config_body alloc (t ∷ p ∷ c ∷ l ∷ sps) pps m n
      ≡ done (m + n + 16, config_bytes p c l (take m (t ∷ p ∷ c ∷ l ∷ sps)) (take n pps) m n)
unfolding config_body load
config_body_eq alloc b t p c l sps pps m n hm hn small e h =
    rw (lt→ltb (m + n) (2 ^ 31) (omega arith), lt→ltb (m + n + 16) (2 ^ 31) small, e)
      (simp (copy-take-sps, copy-take-pps)
        (six_puts b (0x17 ∷ 0 ∷ 0 ∷ 0 ∷ 0 ∷ 1 ∷ []) (p ∷ c ∷ l ∷ []) _ _ _ _ _
          ∙ rw (put-full b _ fits)))
  where
    copy-take-sps :
        (b : List ℕ) (i : ℕ)
        → copy b i (t ∷ p ∷ c ∷ l ∷ sps) m ≡ put b i (take m (t ∷ p ∷ c ∷ l ∷ sps))
    copy-take-sps b i = copy-take b i (t ∷ p ∷ c ∷ l ∷ sps) m (omega arith)

    copy-take-pps : (b : List ℕ) (i : ℕ) → copy b i pps n ≡ put b i (take n pps)
    copy-take-pps b i = copy-take b i pps n hn

    fits : length b ≡ length (config_bytes p c l (take m (t ∷ p ∷ c ∷ l ∷ sps)) (take n pps) m n)
    fits = omega (
      arith,
      length-append (take m (t ∷ p ∷ c ∷ l ∷ sps)) (1 ∷ byte_at n 8 ∷ (n % 256) ∷ take n pps),
      length-take m (t ∷ p ∷ c ∷ l ∷ sps) (omega arith),
      length-take n pps hn,
    )
