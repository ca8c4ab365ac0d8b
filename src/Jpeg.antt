-- ===== src/Jpeg.antt =====
-- cpp/jpeg/Play.cpp: a bitmap is packed into rows of B, G and R and given to libjpeg row by row. JNI
-- and libjpeg are parameters; the file is opened and `malloc` finds memory. What `malloc` gives is not
-- initialised.
pub mod Rows
use android_study_rtmp_avcod.Common.{
  ℕ, zero, suc, ◌+◌, ◌-◌, ◌*◌, ◌/◌, ◌%◌, ◌^◌, ◌<◌, Option, none, some, List, [], ◌∷◌, ◌++◌, Run,
  done, fault, out_of_bounds, ◌>>=◌, store, load_all, advance, add_int, mul_int, ltb, if◌then◌else◌,
}

-- `*(int *) p`: four bytes, the lowest first.
unfoldable pub load_pixel : List ℕ → Run (ℕ × List ℕ)
load_pixel (a ∷ b ∷ c ∷ d ∷ rest) = done (a + b * 256 + c * 65536 + d * 16777216, rest)
load_pixel _ = fault out_of_bounds

-- `(color >> k) & 0xff`
abbrev pub channel : ℕ → ℕ → ℕ
channel color k = color / 2 ^ k % 256

-- The three stores of one round, at `i`.
unfoldable pub store_pixel : List ℕ → ℕ → ℕ → Run (List ℕ)
store_pixel out i color = do
  out ← store out i (channel color 0)
  out ← store out (i + 1) (channel color 8)
  store out (i + 2) (channel color 16)

-- The loop over the pixels, with `n` rounds left.
unfoldable pub pack_pixels : ℕ → List ℕ → ℕ → List ℕ → Run (List ℕ)
pack_pixels zero out i bitmap = done out
pack_pixels (suc n) out i bitmap = do
  (color, rest) ← load_pixel bitmap
  out ← store_pixel out i color
  pack_pixels n out (i + 3) rest

-- What `jpeg_write_scanlines` returns: how many of the one row that it is given it takes, where
-- `next_scanline` is the argument. libjpeg moves `next_scanline` by it.
abbrev pub Taken : Type 0
Taken = ℕ → ℕ

abbrev pub behind_row : List ℕ → Option (List (List ℕ)) → Option (List (List ℕ))
behind_row row none = none
behind_row row (some rows) = some (row ∷ rows)

-- The loop of `jpeg_compress` from `next_scanline` on: the rows that libjpeg is given, and `none` if the
-- loop has not ended after `n` tests.
unfoldable pub write_rows : Taken → ℕ → List ℕ → ℕ → ℕ → ℕ → Run (Option (List (List ℕ)))
write_rows taken zero out stride h next = done none
write_rows taken (suc n) out stride h next =
    let rest = write_rows taken n out stride h (next + taken next) in
    if ltb next h
    then (do
      from ← advance out (next * stride)
      row ← load_all from stride
      rows ← rest
      done (behind_row row rows))
    else done (some [])

-- `jpeg_compress`: the rows that libjpeg is given.
unfoldable pub jpeg_compress : Taken → ℕ → List ℕ → ℕ → ℕ → Run (Option (List (List ℕ)))
jpeg_compress taken n out w h = do stride ← mul_int w 3; write_rows taken n out stride h 0

-- Behind `AndroidBitmap_lockPixels`, whose pointer is null for `none`: the loop moves `data` behind the
-- last pixel, and `data` is moved back by as much, also where there was no loop.
abbrev pub pack_bitmap : List ℕ → ℕ → ℕ → Option (List ℕ) → Run (List ℕ)
pack_bitmap out pixels size none = if ltb 0 size then fault out_of_bounds else done out
pack_bitmap out pixels size (some bitmap) = pack_pixels pixels out 0 bitmap

-- `bitmapCompress`
unfoldable pub bitmap_compress :
    (ℕ → List ℕ) → Taken → ℕ → Option (List ℕ) → ℕ → ℕ → Run (Option (List (List ℕ)))
bitmap_compress malloc taken n bitmap w h = do
  pixels ← mul_int w h
  size ← mul_int pixels 3
  out ← pack_bitmap (malloc size) pixels size bitmap
  jpeg_compress taken n out w h
