-- ===== src/Packing/Bounds.antt =====
-- What is stored into a body is bytes, and as many as the packet announces.
use android_study_rtmp_avcod.Common.{
  AreBytes, AreBytes-take, byte_below, ℕ, suc, ◌+◌, ◌^◌, ◌≤◌, ◌<◌, ◌≡◌, ap, ◌∙◌, Bool, true, false,
  List, ◌∷◌, arith, length, length-take, Run, done, ◌==◌, if◌then◌else◌,
}
use android_study_rtmp_avcod.Rtmp.{PacketAlloc, Allocates}
use android_study_rtmp_avcod.Packing.{frame_body}
use android_study_rtmp_avcod.Packing.Frame.{frame_bytes, frame_body_eq}

-- A run that gives the announced size and as many numbers below 256.
abbrev pub GivesBytes : Run (ℕ × List ℕ) → Type 0
GivesBytes run = (body : List ℕ) × (run ≡ done (length body, body)) × AreBytes body

-- For `len` bytes of a unit, below 2 ^ 31 - 9 and no more than it has, if memory is found: the body
-- has the announced size and holds numbers below 256 only, whatever stood in the memory.
pub frame_body-AreBytes :
    (alloc : PacketAlloc) (t : ℕ) (nal : List ℕ) (len : ℕ)
    → len ≤ suc (length nal)
    → len + 9 < 2 ^ 31
    → AreBytes (t ∷ nal)
    → Allocates alloc (len + 9)
    → GivesBytes (frame_body alloc (t ∷ nal) len)
frame_body-AreBytes alloc t nal len within small bytes (b, found, size) = (
  frame_bytes t len (t ∷ nal),
  frame_body_eq alloc b t nal len within small found size
      ∙ ap (λ k. done (k, frame_bytes t len (t ∷ nal)))
          (omega (arith, length-take len (t ∷ nal) within)),
  (
    first (t == 0x65),
    (
      omega arith,
      (
        omega arith,
        (
          omega arith,
          (
            omega arith,
            (
              byte_below _,
              (byte_below _, (byte_below _, (byte_below _, AreBytes-take len (t ∷ nal) bytes))),
            ),
          ),
        ),
      ),
    ),
  ),
)
  where
    first : (key : Bool) → (if key then 0x17 else 0x27) < 256
    first true = omega arith
    first false = omega arith
