-- ===== src/Packing/Read.antt =====
-- A reader of FLV messages gets back what the bodies were built from.
use android_study_rtmp_avcod.Common.{
  ℕ, ◌+◌, ◌*◌, ◌%◌, ◌^◌, ◌≤◌, ◌<◌, ◌≡◌, refl, some, List, [], ◌++◌, arith, length, take, append-nil,
  take-append, drop-append, length-append, length-take, ◌==◌, eq→==, le→ltb, Bool_cases, inl, inr,
}
use android_study_rtmp_avcod.Flv.{block, read_video, avc_unit, avc_config}
use android_study_rtmp_avcod.Packing.{byte_at}
use android_study_rtmp_avcod.Packing.Frame.{frame_bytes}
use android_study_rtmp_avcod.Packing.Config.{config_bytes}

-- A block in front is split off.
block-append : (xs ys : List ℕ) (n : ℕ) → length xs ≡ n → block n (xs ++ ys) ≡ some (xs, ys)
unfolding block
block-append xs ys n e = rw (
  ← e,
  le→ltb (length (xs ++ ys)) (length xs) (omega (arith, length-append xs ys)),
  take-append xs ys,
  drop-append xs ys,
)

block-whole : (xs : List ℕ) (n : ℕ) → length xs ≡ n → block n xs ≡ some (xs, [])
block-whole xs n e = (rw (append-nil xs) at (block-append xs [] n e))

-- Four bytes, the highest first, give back a number below 2 ^ 32.
four_bytes :
    (n : ℕ)
    → n < 2 ^ 32
    → byte_at n 24 * 16777216 + byte_at n 16 * 65536 + byte_at n 8 * 256 + n % 256 ≡ n
four_bytes n h = omega arith

two_bytes : (n : ℕ) → n < 2 ^ 16 → byte_at n 8 * 256 + n % 256 ≡ n
two_bytes n h = omega arith

pub read_video-frame_bytes :
    (t len : ℕ) (nal : List ℕ)
    → len ≤ length nal
    → len < 2 ^ 32
    → read_video (frame_bytes t len nal) ≡ some (avc_unit (t == 0x65) (take len nal))
unfolding read_video
read_video-frame_bytes t len nal h small = elim (Bool_cases (t == 0x65)) [
  | inl key ↦ rw (
    key,
    four_bytes len small,
    eq→== len (length (take len nal)) (omega (arith, length-take len nal h)),
  )
  | inr inter ↦ rw (
    inter,
    four_bytes len small,
    eq→== len (length (take len nal)) (omega (arith, length-take len nal h)),
  )
]

pub read_video-config_bytes :
    (p c l : ℕ) (sps pps : List ℕ)
    → length sps < 2 ^ 16
    → length pps < 2 ^ 16
    → read_video (config_bytes p c l sps pps (length sps) (length pps))
      ≡ some (avc_config p c l sps pps)
unfolding read_video
read_video-config_bytes p c l sps pps hs hp = rw (
  two_bytes (length sps) hs,
  block-append sps _ (length sps) refl,
  two_bytes (length pps) hp,
  block-whole pps (length pps) refl,
)
