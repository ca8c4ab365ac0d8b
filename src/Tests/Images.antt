-- ===== src/Tests/Images.antt =====
-- The theorem on bitmaps at a concrete input.
use android_study_rtmp_avcod.Common.{ℕ, ◌≡◌, refl, some, List, [], ◌∷◌, arith, done}
use android_study_rtmp_avcod.AudioEncode.{calloc}
use android_study_rtmp_avcod.Jpeg.{Taken, bitmap_compress}
use android_study_rtmp_avcod.Jpeg.Rows.{Pixel, memory_of, joined, bitmap_compress_eq}

abbrev pixel : ℕ → Pixel
pixel n = record { first = n; second = 2; third = 3; alpha = 255 }

abbrev picture : List (List Pixel)
picture = (pixel 1 ∷ pixel 4 ∷ []) ∷ (pixel 5 ∷ pixel 6 ∷ []) ∷ []

abbrev one_row : Taken
one_row k = 1

bitmap_compress_eq_example :
    bitmap_compress calloc one_row 3 (some (memory_of (joined picture))) 2 2
    ≡ done (some ((1 ∷ 2 ∷ 3 ∷ 4 ∷ 2 ∷ 3 ∷ []) ∷ (5 ∷ 2 ∷ 3 ∷ 6 ∷ 2 ∷ 3 ∷ []) ∷ []))
bitmap_compress_eq_example =
    bitmap_compress_eq calloc one_row (λ k. refl) 3 2 picture (refl, (refl, tt))
      (
        (omega arith, omega arith, omega arith),
        (
          (omega arith, omega arith, omega arith),
          ((omega arith, omega arith, omega arith), ((omega arith, omega arith, omega arith), tt)),
        ),
      )
      (omega arith) (omega arith) refl (omega arith)
