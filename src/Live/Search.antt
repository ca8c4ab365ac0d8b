-- ===== src/Live/Search.antt =====
-- `saveSPSAndPPS` on any data: it cuts where the first start code of a picture parameter set stands.
use native.Mathlib.Decide.{dec_lt}
use android_study_rtmp_avcod.Common.{
  ℕ, suc, ◌+◌, ◌-◌, ◌^◌, ◌≤◌, ◌<◌, ◌≡◌, refl, sym, ap, ◌∙◌, Bool, true, false, Option, none, some,
  List, [], ◌∷◌, ◌++◌, append_assoc, arith, length, length-append, length-drop, take, drop,
  take-length, Run, done, fault, out_of_bounds, load_all-take, advance, advance-drop, ltb, lt→ltb,
  le→ltb, if◌then◌else◌, sub_length_eq, sub_length-under, to_int16-eq,
}
use android_study_rtmp_avcod.Live.{Live, stands_at, split_sets, save_loop, save_sps_pps}
use android_study_rtmp_avcod.Live.Save.{begins_pps, stands_at-append, stands_at-begins}

-- One place further.
abbrev pub further : Option ℕ → Option ℕ
further none = none
further (some i) = some (suc i)

-- The first place where a start code and the first byte of a picture parameter set stand.
unfoldable pub first_pps : List ℕ → Option ℕ
first_pps [] = none
first_pps (x ∷ xs) = let rest = first_pps xs in if begins_pps (x ∷ xs) then some 0 else further rest

-- What is kept of the data `p` where that place is `i`: the bytes between the two start codes, and the
-- bytes behind the second. A place among the first four bytes leaves less than no byte for the first set.
unfoldable pub kept : List ℕ → Option ℕ → Live → Run Live
kept p none live = done live
kept p (some i) live =
    if ltb i 4
    then fault out_of_bounds
    else done (record live {
      sps_length = i - 4;
      sps = some (take (i - 4) (drop 4 p));
      pps_length = length p - (i + 4);
      pps = some (drop (i + 4) p);
    })

begins_pps-short : (xs : List ℕ) → length xs < 5 → begins_pps xs ≡ false
begins_pps-short [] h = refl
begins_pps-short (a ∷ []) h = refl
begins_pps-short (a ∷ b ∷ []) h = refl
begins_pps-short (a ∷ b ∷ c ∷ []) h = refl
begins_pps-short (a ∷ b ∷ c ∷ d ∷ []) h = refl
begins_pps-short (a ∷ b ∷ c ∷ d ∷ e ∷ xs) h = absurd (omega arith)

stands_at-long :
    (xs : List ℕ)
    → 5 ≤ length xs
    → stands_at xs 0 (0 ∷ 0 ∷ 0 ∷ 1 ∷ 0x68 ∷ []) ≡ done (begins_pps xs)
stands_at-long [] h = absurd (omega arith)
stands_at-long (a ∷ []) h = absurd (omega arith)
stands_at-long (a ∷ b ∷ []) h = absurd (omega arith)
stands_at-long (a ∷ b ∷ c ∷ []) h = absurd (omega arith)
stands_at-long (a ∷ b ∷ c ∷ d ∷ []) h = absurd (omega arith)
stands_at-long (a ∷ b ∷ c ∷ d ∷ e ∷ xs) h = stands_at-begins a b c d e xs

-- The cut at the place that was found, counted from `i`.
abbrev cut : List ℕ → ℕ → Option ℕ → Live → Run Live
cut p i none live = done live
cut p i (some j) live = split_sets p (length p) (i + j) live

cut-further :
    (p : List ℕ) (i : ℕ) (o : Option ℕ) (live : Live)
    → cut p (i + 1) o live ≡ cut p i (further o) live
cut-further p i none live = refl
cut-further p i (some j) live = ap (λ k. split_sets p (length p) k live) (omega arith)

cut-if :
    (p : List ℕ) (i : ℕ) (o : Option ℕ) (live : Live) (b : Bool) (rest : Run Live)
    → rest ≡ cut p (i + 1) o live
    → (if b then split_sets p (length p) i live else rest)
      ≡ cut p i (if b then some 0 else further o) live
cut-if p i o live true rest e = ap (λ k. split_sets p (length p) k live) (omega arith)
cut-if p i o live false rest e = e ∙ cut-further p i o live

-- The loop from the place behind `pre` on.
save_loop_finds :
    (suf pre p : List ℕ) (i : ℕ) (live : Live)
    → p ≡ pre ++ suf
    → i ≡ length pre
    → save_loop p (length p) live (length suf) i ≡ cut p i (first_pps suf) live
unfolding save_loop first_pps
save_loop_finds [] pre p i live e ei = refl
save_loop_finds (x ∷ xs) pre p i live e ei =
    let rest =
      save_loop_finds xs (pre ++ (x ∷ [])) p (i + 1) live (e ∙ sym (append_assoc pre (x ∷ []) xs))
        (omega (arith, length-append pre (x ∷ []))) in
    elim (dec_lt (i + 4) (length p)) [
      | yes more ↦
          rw (lt→ltb (i + 4) (length p) more, test (omega (arith, total)))
            (cut-if p i (first_pps xs) live (begins_pps (x ∷ xs)) _ rest)
      | no few ↦
          rw
            (
              le→ltb (i + 4) (length p) (omega arith),
              begins_pps-short (x ∷ xs) (omega (arith, total)),
            )
            (rest ∙ cut-further p i (first_pps xs) live)
    ]
  where
    total : length p ≡ length pre + suc (length xs)
    total = rw e (length-append pre (x ∷ xs))

    test :
        5 ≤ length (x ∷ xs) → stands_at p i (0 ∷ 0 ∷ 0 ∷ 1 ∷ 0x68 ∷ []) ≡ done (begins_pps (x ∷ xs))
    test long =
        rw (e, stands_at-append pre (x ∷ xs) i 0 (0 ∷ 0 ∷ 0 ∷ 1 ∷ 0x68 ∷ []) (omega arith))
          (stands_at-long (x ∷ xs) long)

further-some : (o : Option ℕ) (i : ℕ) → further o ≡ some i → (j : ℕ) × (o ≡ some j) × (i ≡ suc j)
further-some none i e = absurd cc
further-some (some j) i e = (j, refl, cc)

within_if :
    (x : ℕ) (xs : List ℕ) (b : Bool) (i : ℕ)
    → begins_pps (x ∷ xs) ≡ b
    → ((j : ℕ) → first_pps xs ≡ some j → j + 5 ≤ length xs)
    → (if b then some 0 else further (first_pps xs)) ≡ some i
    → i + 5 ≤ suc (length xs)
within_if x xs true i begins before e = elim (dec_lt (suc (length xs)) 5) [
  | yes short ↦ let other = begins_pps-short (x ∷ xs) short in absurd cc
  | no long ↦ let first : 0 ≡ i = cc in omega arith
]
within_if x xs false i begins before e =
    let (j, found, same) = further-some (first_pps xs) i e in
    let within = before j found in omega arith

first_pps-within : (xs : List ℕ) (i : ℕ) → first_pps xs ≡ some i → i + 5 ≤ length xs
unfolding first_pps
first_pps-within [] i e = absurd cc
first_pps-within (x ∷ xs) i e = within_if x xs (begins_pps (x ∷ xs)) i refl (first_pps-within xs) e

-- The cut keeps what `kept` says.
split_sets-kept :
    (p : List ℕ) (i : ℕ) (live : Live)
    → length p < 2 ^ 15
    → i + 5 ≤ length p
    → split_sets p (length p) i live ≡ kept p (some i) live
unfolding split_sets kept
split_sets-kept p i live small within = elim (dec_lt i 4) [
  | yes early ↦ rw (sub_length-under i 4 early, lt→ltb i 4 early)
  | no late ↦ rw (
    le→ltb i 4 (omega arith),
    sub_length_eq i 4 (i - 4) (omega arith),
    to_int16-eq {n = i - 4} (omega arith),
    sub_length_eq (length p) 8 (length p - 8) (omega arith),
    sub_length_eq (length p - 8) (i - 4) (length p - (i + 4)) (omega arith),
    to_int16-eq {n = length p - (i + 4)} (omega arith),
    advance-drop p 4 (omega arith),
    load_all-take (drop 4 p) (i - 4) (omega (arith, length-drop 4 p)),
    to_pps (omega arith),
    load_all-take (drop (i + 4) p) (length p - (i + 4)) (omega (arith, length-drop (i + 4) p)),
    ← length-drop (i + 4) p,
    take-length (drop (i + 4) p),
  )
]
  where
    to_pps : 4 ≤ i → advance p (i - 4 + 8) ≡ done (drop (i + 4) p)
    to_pps late = ap (advance p) (omega arith) ∙ advance-drop p (i + 4) (omega arith)

-- On any data below 2 ^ 15 bytes `saveSPSAndPPS` keeps what a search for the first start code of a
-- picture parameter set says, and does nothing where there is none; a start code among the first four
-- bytes makes it copy a negative number of bytes.
pub save_sps_pps-kept :
    (p : List ℕ) (live : Live)
    → length p < 2 ^ 15
    → save_sps_pps p (length p) live ≡ kept p (first_pps p) live
unfolding save_sps_pps kept
save_sps_pps-kept p live small =
    save_loop_finds p [] p 0 live refl refl ∙ by_place (first_pps p) refl
  where
    by_place : (o : Option ℕ) → first_pps p ≡ o → cut p 0 o live ≡ kept p o live
    by_place none e = refl
    by_place (some i) e =
        ap (λ k. split_sets p (length p) k live) (omega arith)
        ∙ split_sets-kept p i live small (first_pps-within p i e)
