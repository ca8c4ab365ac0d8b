-- ===== src/Live/Save.antt =====
-- `saveSPSAndPPS` cuts a buffer of two parameter sets at the start code of the second.
use android_study_rtmp_avcod.Common.{
  ℕ, zero, suc, ◌+◌, ◌^◌, ◌≤◌, ◌<◌, ◌≡◌, refl, Bool, true, false, ◌&&◌, some, List, [], ◌∷◌, ◌++◌,
  append_assoc, arith, length, length-append, done, load, load-append, load_all-append,
  advance-append, ◌==◌, lt→ltb, ap, ◌∙◌, sym, advance, append-nil, sub_length_eq, to_int16-eq,
}
use android_study_rtmp_avcod.Live.{Live, stands_at, split_sets, save_loop, save_sps_pps}

abbrev pub start_code : List ℕ
start_code = 0 ∷ 0 ∷ 0 ∷ 1 ∷ []

-- Whether a start code and the first byte of a picture parameter set come first.
abbrev pub begins_pps : List ℕ → Bool
begins_pps (a ∷ b ∷ c ∷ d ∷ e ∷ _) = a == 0 && (b == 0 && (c == 0 && (d == 1 && e == 0x68)))
begins_pps _ = false

-- No such place before the end of `xs`, if a start code follows.
abbrev pub Unmarked : List ℕ → Type 0
Unmarked [] = Unit {0}
Unmarked (x ∷ xs) = (begins_pps ((x ∷ xs) ++ start_code) ≡ false) × Unmarked xs

pub stands_at-append :
    (pre suf : List ℕ) (i j : ℕ) (vs : List ℕ)
    → i ≡ length pre + j
    → stands_at (pre ++ suf) i vs ≡ stands_at suf j vs
unfolding stands_at
stands_at-append pre suf i j [] e = refl
stands_at-append pre suf i j (v ∷ vs) e =
    rw (load-append pre suf i j e, stands_at-append pre suf (i + 1) (j + 1) vs (omega arith))

pub stands_at-begins :
    (a b c d e : ℕ) (rest : List ℕ)
    → stands_at (a ∷ b ∷ c ∷ d ∷ e ∷ rest) 0 (0 ∷ 0 ∷ 0 ∷ 1 ∷ 0x68 ∷ [])
      ≡ done (begins_pps (a ∷ b ∷ c ∷ d ∷ e ∷ rest))
unfolding stands_at load
stands_at-begins a b c d e rest = ground arith

-- What follows a start code does not matter to a test that begins before it.
found_or_not :
    (x : ℕ) (mid pps : List ℕ)
    → stands_at (x ∷ (mid ++ (start_code ++ (0x68 ∷ pps)))) 0 (0 ∷ 0 ∷ 0 ∷ 1 ∷ 0x68 ∷ [])
      ≡ done (begins_pps ((x ∷ mid) ++ start_code))
found_or_not x [] pps = stands_at-begins x 0 0 0 1 (0x68 ∷ pps)
found_or_not x (b ∷ []) pps = stands_at-begins x b 0 0 0 (1 ∷ 0x68 ∷ pps)
found_or_not x (b ∷ c ∷ []) pps = stands_at-begins x b c 0 0 (0 ∷ 1 ∷ 0x68 ∷ pps)
found_or_not x (b ∷ c ∷ d ∷ []) pps = stands_at-begins x b c d 0 (0 ∷ 0 ∷ 1 ∷ 0x68 ∷ pps)
found_or_not x (b ∷ c ∷ d ∷ e ∷ mid) pps =
    stands_at-begins x b c d e (mid ++ (start_code ++ (0x68 ∷ pps)))

-- The loop goes on to the start code.
save_loop_splits :
    (mid pre pps : List ℕ) (live : Live) (len n i j : ℕ) (p : List ℕ)
    → p ≡ pre ++ (mid ++ (start_code ++ (0x68 ∷ pps)))
    → i ≡ length pre
    → j ≡ length pre + length mid
    → j + 5 ≤ len
    → length mid < n
    → Unmarked mid
    → save_loop p len live n i ≡ split_sets p len j live
unfolding save_loop
save_loop_splits mid pre pps live len zero i j p e ei ej fits lt u = absurd (omega arith)
save_loop_splits [] pre pps live len (suc n) i j p e ei ej fits lt u =
    rw (lt→ltb (i + 4) len (omega arith), found) (ap (λ k. split_sets p len k live) (omega arith))
  where
    found : stands_at p i (0 ∷ 0 ∷ 0 ∷ 1 ∷ 0x68 ∷ []) ≡ done true
    found =
        rw
          (
            e,
            stands_at-append pre (start_code ++ (0x68 ∷ pps)) i 0 (0 ∷ 0 ∷ 0 ∷ 1 ∷ 0x68 ∷ [])
                (omega arith),
          )
          (stands_at-begins 0 0 0 1 0x68 pps)
save_loop_splits (x ∷ mid) pre pps live len (suc n) i j p e ei ej fits lt u =
    rw (lt→ltb (i + 4) len (omega arith), passed)
      (save_loop_splits mid (pre ++ (x ∷ [])) pps live len n (i + 1) j p
        (e ∙ sym (append_assoc pre (x ∷ []) _)) (omega (arith, length-append pre (x ∷ [])))
        (omega (arith, length-append pre (x ∷ []))) fits (omega arith) u.1)
  where
    passed : stands_at p i (0 ∷ 0 ∷ 0 ∷ 1 ∷ 0x68 ∷ []) ≡ done false
    passed =
        rw
          (
            e,
            stands_at-append pre ((x ∷ mid) ++ (start_code ++ (0x68 ∷ pps))) i 0
                (0 ∷ 0 ∷ 0 ∷ 1 ∷ 0x68 ∷ []) (omega arith),
          )
          (found_or_not x mid pps ∙ ap done u.0)

-- The cut, at the start code behind the first set.
split_sets_eq :
    (sps pps : List ℕ) (live : Live) (p : List ℕ)
    → length sps < 2 ^ 15
    → length pps + 1 < 2 ^ 15
    → p ≡ start_code ++ (sps ++ (start_code ++ (0x68 ∷ pps)))
    → split_sets p (length p) (length sps + 4) live
      ≡ done (record live {
        sps_length = length sps;
        sps = some sps;
        pps_length = suc (length pps);
        pps = some (0x68 ∷ pps);
      })
unfolding split_sets
split_sets_eq sps pps live p hs hp e =
    rw
      (
        sub_length_eq (length sps + 4) (4) (length sps) (omega arith),
        to_int16-eq hs,
        sub_length_eq (length p) (8) (length sps + suc (length pps)) (omega (arith, total)),
        sub_length_eq (length sps + suc (length pps)) (length sps) (suc (length pps)) refl,
        to_int16-eq {n = suc (length pps)} (omega arith),
        to_sps,
        to_pps,
      )
      (rw (
        load_all-append sps (start_code ++ (0x68 ∷ pps)) (length sps) refl,
        rw (append-nil (0x68 ∷ pps)) at (load_all-append (0x68 ∷ pps) [] (suc (length pps)) refl),
      ))
  where
    total : length p ≡ length sps + length pps + 9
    total = rw e (omega (arith, length-append sps (start_code ++ (0x68 ∷ pps))))

    to_sps : advance p 4 ≡ done (sps ++ (start_code ++ (0x68 ∷ pps)))
    to_sps = rw e (advance-append start_code _ 4 refl)

    to_pps : advance p (length sps + 8) ≡ done (0x68 ∷ pps)
    to_pps =
        rw (e, ← append_assoc sps start_code (0x68 ∷ pps))
          (advance-append (start_code ++ (sps ++ start_code)) (0x68 ∷ pps) (length sps + 8)
            (omega (arith, length-append sps start_code)))

-- The two parameter sets are kept whole, with their lengths, if both are below 2 ^ 15 bytes and the
-- start of the second does not occur earlier.
pub save_sps_pps_eq :
    (sps pps : List ℕ) (live : Live)
    → length sps < 2 ^ 15
    → length pps + 1 < 2 ^ 15
    → Unmarked (start_code ++ sps)
    → let p = start_code ++ (sps ++ (start_code ++ (0x68 ∷ pps))) in
      save_sps_pps p (length p) live
      ≡ done (record live {
        sps_length = length sps;
        sps = some sps;
        pps_length = suc (length pps);
        pps = some (0x68 ∷ pps);
      })
unfolding save_sps_pps
save_sps_pps_eq sps pps live hs hp u =
    save_loop_splits (start_code ++ sps) [] pps live (length p) (length p) 0 (length sps + 4) p refl
      refl (omega arith) (omega (arith, longer)) (omega (arith, longer)) u
    ∙ split_sets_eq sps pps live p hs hp refl
  where
    p : List ℕ
    p = start_code ++ (sps ++ (start_code ++ (0x68 ∷ pps)))

    longer : length (sps ++ (start_code ++ (0x68 ∷ pps))) ≡ length sps + (5 + length pps)
    longer = omega (arith, length-append sps (start_code ++ (0x68 ∷ pps)))
