-- ===== src/Packing/Frame.antt =====
-- What `frame_body` leaves in the body.
use android_study_rtmp_avcod.Common.{
  ℕ, suc, ◌+◌, ◌%◌, ◌^◌, ◌≤◌, ◌<◌, ◌≡◌, refl, some, List, [], ◌∷◌, arith, length, take, done, load,
  store, copy, copy-take, put-over, ◌==◌, if◌then◌else◌, lt→ltb, Bool_cases, inl, inr, length-take,
}
use android_study_rtmp_avcod.Rtmp.{PacketAlloc}
use android_study_rtmp_avcod.Packing.{byte_at, frame_body}

-- The body of a unit whose first byte is `t`, of `len` bytes.
abbrev pub frame_bytes : ℕ → ℕ → List ℕ → List ℕ
frame_bytes t len nal =
    (if t == 0x65 then 0x17 else 0x27)
    ∷ 0x01
    ∷ 0x00
    ∷ 0x00
    ∷ 0x00
    ∷ byte_at len 24
    ∷ byte_at len 16
    ∷ byte_at len 8
    ∷ (len % 256)
    ∷ take len nal

frame_tail :
    (x0 x1 x2 x3 x4 x5 x6 x7 x8 : ℕ) (rest nal : List ℕ) (len : ℕ)
    → len ≤ length nal
    → length rest ≡ len
    → copy (x0 ∷ x1 ∷ x2 ∷ x3 ∷ x4 ∷ x5 ∷ x6 ∷ x7 ∷ x8 ∷ rest) 9 nal len
      ≡ done (x0 ∷ x1 ∷ x2 ∷ x3 ∷ x4 ∷ x5 ∷ x6 ∷ x7 ∷ x8 ∷ take len nal, 9 + length (take len nal))
frame_tail x0 x1 x2 x3 x4 x5 x6 x7 x8 rest nal len h e =
    rw (copy-take (x0 ∷ x1 ∷ x2 ∷ x3 ∷ x4 ∷ x5 ∷ x6 ∷ x7 ∷ x8 ∷ rest) 9 nal len h) (
      put-over (x0 ∷ x1 ∷ x2 ∷ x3 ∷ x4 ∷ x5 ∷ x6 ∷ x7 ∷ x8 ∷ []) rest (take len nal) 9 refl
        (omega (arith, length-take len nal h)))

pub frame_body_eq :
    (alloc : PacketAlloc) (b : List ℕ) (t : ℕ) (nal : List ℕ) (len : ℕ)
    → len ≤ suc (length nal)
    → len + 9 < 2 ^ 31
    → alloc (len + 9) ≡ some b
    → length b ≡ len + 9
    → frame_body alloc (t ∷ nal) len ≡ done (len + 9, frame_bytes t len (t ∷ nal))
unfolding frame_body load store
frame_body_eq alloc (x0 ∷ x1 ∷ x2 ∷ x3 ∷ x4 ∷ x5 ∷ x6 ∷ x7 ∷ x8 ∷ rest) t nal len h small e n =
    rw (lt→ltb (len + 9) (2 ^ 31) small, e)
      (elim (Bool_cases (t == 0x65)) [
        | inl key ↦ rw key (rw (frame_tail 0x17 1 0 0 0 _ _ _ _ rest (t ∷ nal) len h (omega arith)))
        | inr inter ↦
            rw inter (rw (frame_tail 0x27 1 0 0 0 _ _ _ _ rest (t ∷ nal) len h (omega arith)))
      ])
frame_body_eq alloc _ t nal len h small e n = absurd (omega arith)
