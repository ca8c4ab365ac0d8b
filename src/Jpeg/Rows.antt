-- ===== src/Jpeg/Rows.antt =====
-- What libjpeg is given of a bitmap.
use android_study_rtmp_avcod.Common.{
  ℕ, ◌+◌, ◌*◌, ◌^◌, ◌<◌, ◌≡◌, refl, ap, ◌∙◌, some, List, [], ◌∷◌, ◌++◌, append_assoc, arith, length,
  length-append, done, load_all-append, advance-append, map, lt→ltb, le→ltb, zero, suc,
  store-append,
}
use android_study_rtmp_avcod.Jpeg.{
  Taken, load_pixel, channel, store_pixel, pack_pixels, write_rows, jpeg_compress, bitmap_compress,
}

-- A pixel by its four bytes in memory.
pub record Pixel : Type 0 where
  pub first : ℕ
  pub second : ℕ
  pub third : ℕ
  pub alpha : ℕ

abbrev pub memory_of : List Pixel → List ℕ
memory_of [] = []
memory_of (p ∷ ps) = p.first ∷ p.second ∷ p.third ∷ p.alpha ∷ memory_of ps

abbrev pub colors_of : List Pixel → List ℕ
colors_of [] = []
colors_of (p ∷ ps) = p.first ∷ p.second ∷ p.third ∷ colors_of ps

abbrev pub AllBytes : List Pixel → Type 0
AllBytes [] = Unit {0}
AllBytes (p ∷ ps) = ((p.first < 256) × (p.second < 256) × (p.third < 256)) × AllBytes ps

-- The rows of a bitmap, one behind the other.
abbrev pub joined : List (List Pixel) → List Pixel
joined [] = []
joined (row ∷ rows) = row ++ joined rows

abbrev pub AllWide : ℕ → List (List Pixel) → Type 0
AllWide w [] = Unit {0}
AllWide w (row ∷ rows) = (length row ≡ w) × AllWide w rows

channels :
    (a b c d : ℕ)
    → a < 256
    → b < 256
    → c < 256
    → let color = a + b * 256 + c * 65536 + d * 16777216 in
      (channel color 0 ≡ a) × (channel color 8 ≡ b) × (channel color 16 ≡ c)
channels a b c d ha hb hc = (omega arith, omega arith, omega arith)

store_pixel_eq :
    (pre old : List ℕ) (x y z i color : ℕ)
    → i ≡ length pre
    → store_pixel (pre ++ (x ∷ y ∷ z ∷ old)) i color
      ≡ done ((pre ++ (channel color 0 ∷ channel color 8 ∷ channel color 16 ∷ [])) ++ old)
unfolding store_pixel
store_pixel_eq pre old x y z i color e =
    rw
      (
        store-append pre x (channel color 0) (y ∷ z ∷ old) i e,
        store-append (pre ++ (channel color 0 ∷ [])) y (channel color 8) (z ∷ old) (i + 1)
            (omega (arith, length-append pre (channel color 0 ∷ []))),
        store-append ((pre ++ (channel color 0 ∷ [])) ++ (channel color 8 ∷ [])) z
            (channel color 16) old (i + 2)
            (omega (
              arith,
              length-append (pre ++ (channel color 0 ∷ [])) (channel color 8 ∷ []),
              length-append pre (channel color 0 ∷ []),
            )),
      )
      (ap (λ l. done (l ++ old))
        (append_assoc (pre ++ (channel color 0 ∷ [])) (channel color 8 ∷ []) (channel color 16 ∷ [])
          ∙ append_assoc pre (channel color 0 ∷ []) (channel color 8 ∷ channel color 16 ∷ [])))

pack_pixels_eq :
    (ps : List Pixel) (pre old : List ℕ) (i : ℕ)
    → i ≡ length pre
    → length old ≡ 3 * length ps
    → AllBytes ps
    → pack_pixels (length ps) (pre ++ old) i (memory_of ps) ≡ done (pre ++ colors_of ps)
unfolding pack_pixels load_pixel
pack_pixels_eq [] pre [] i e l b = refl
pack_pixels_eq (p ∷ ps) pre (x ∷ y ∷ z ∷ old) i e l (here, b) =
    let (f, s, t) = channels p.first p.second p.third p.alpha here.0 here.1 here.2 in
    rw (store_pixel_eq pre old x y z i _ e, f, s, t)
      (pack_pixels_eq ps (pre ++ (p.first ∷ p.second ∷ p.third ∷ [])) old (i + 3)
          (omega (arith, length-append pre (p.first ∷ p.second ∷ p.third ∷ []))) (omega arith) b
        ∙ ap done (append_assoc pre (p.first ∷ p.second ∷ p.third ∷ []) (colors_of ps)))
pack_pixels_eq [] pre (x ∷ old) i e l b = absurd (omega arith)
pack_pixels_eq (p ∷ ps) pre [] i e l b = absurd (omega arith)
pack_pixels_eq (p ∷ ps) pre (x ∷ []) i e l b = absurd (omega arith)
pack_pixels_eq (p ∷ ps) pre (x ∷ y ∷ []) i e l b = absurd (omega arith)

length-colors_of : (ps : List Pixel) → length (colors_of ps) ≡ length ps * 3
length-colors_of [] = refl
length-colors_of (p ∷ ps) = omega (arith, length-colors_of ps)

colors_of-append : (ps qs : List Pixel) → colors_of (ps ++ qs) ≡ colors_of ps ++ colors_of qs
colors_of-append [] qs = refl
colors_of-append (p ∷ ps) qs = ap (λ l. p.first ∷ p.second ∷ p.third ∷ l) (colors_of-append ps qs)

write_rows_eq :
    (taken : Taken) (one : (k : ℕ) → taken k ≡ 1) (rows : List (List Pixel)) (w n h next : ℕ)
    (pre : List ℕ)
    → length pre ≡ next * (w * 3)
    → AllWide w rows
    → h ≡ next + length rows
    → length rows < n
    → write_rows taken n (pre ++ colors_of (joined rows)) (w * 3) h next
      ≡ done (some (map colors_of rows))
unfolding write_rows
write_rows_eq taken one rows w zero h next pre e wide total enough = absurd (omega arith)
write_rows_eq taken one [] w (suc n) h next pre e wide total enough =
    rw (le→ltb next h (omega arith))
write_rows_eq taken one (row ∷ rows) w (suc n) h next pre e (wide, more) total enough = rw (
  lt→ltb next h (omega arith),
  one next,
  colors_of-append row (joined rows),
  advance-append pre (colors_of row ++ colors_of (joined rows)) (next * (w * 3)) (omega (arith, e)),
  load_all-append (colors_of row) (colors_of (joined rows)) (w * 3) row_size,
  ← append_assoc pre (colors_of row) (colors_of (joined rows)),
  write_rows_eq taken one rows w n h (next + 1) (pre ++ colors_of row) further more (omega arith)
      (omega arith),
)
  where
    row_size : w * 3 ≡ length (colors_of row)
    row_size = rw (length-colors_of row, wide)

    further : length (pre ++ colors_of row) ≡ (next + 1) * (w * 3)
    further = omega (arith, length-append pre (colors_of row), e, row_size)

length-joined :
    (w : ℕ) (rows : List (List Pixel)) → AllWide w rows → length (joined rows) ≡ w * length rows
length-joined w [] h = omega arith
length-joined w (row ∷ rows) (wide, h) =
    omega (arith, length-append row (joined rows), length-joined w rows h)

-- Every row of a bitmap reaches libjpeg, in order, and the loop ends at the test behind the last: of each
-- pixel its first three bytes in memory, in the order in which they stand there. The bitmap has rows of
-- `w` pixels of bytes, a row and all of them take fewer than 2 ^ 31 bytes, `malloc` gives a buffer of the
-- size that it was asked for, and `jpeg_write_scanlines` takes the row that it is given.
pub bitmap_compress_eq :
    (malloc : ℕ → List ℕ) (taken : Taken) (one : (k : ℕ) → taken k ≡ 1) (n w : ℕ)
    (rows : List (List Pixel))
    → AllWide w rows
    → AllBytes (joined rows)
    → w * 3 < 2 ^ 31
    → w * length rows * 3 < 2 ^ 31
    → length (malloc (w * length rows * 3)) ≡ w * length rows * 3
    → length rows < n
    → bitmap_compress malloc taken n (some (memory_of (joined rows))) w (length rows)
      ≡ done (some (map colors_of rows))
unfolding bitmap_compress jpeg_compress
bitmap_compress_eq malloc taken one n w rows wide bytes row_small small memory enough =
    rw
      (
        lt→ltb (w * length rows) (2 ^ 31) (omega arith),
        lt→ltb (w * length rows * 3) (2 ^ 31) small,
        packed,
        lt→ltb (w * 3) (2 ^ 31) row_small,
      )
      (write_rows_eq taken one rows w n (length rows) 0 [] (omega arith) wide (omega arith) enough)
  where
    packed :
        pack_pixels (w * length rows) (malloc (w * length rows * 3)) 0 (memory_of (joined rows))
        ≡ done (colors_of (joined rows))
    packed = rw (← length-joined w rows wide) (
        pack_pixels_eq (joined rows) [] (malloc (length (joined rows) * 3)) 0 refl
          (rw (length-joined w rows wide) (omega (arith, memory))) bytes)
