-- ===== src/Common/Merges.antt =====
-- Interleavings of two lists.
use mathlib.Core.List.{List, [], ◌∷◌, ◌++◌}

-- The third list holds the elements of the first and of the second, each in their order.
pub data Merge {ℓ} {A : Type ℓ} : List A → List A → List A → Type ℓ where
  merge_none : Merge [] [] []
  merge_left : {x : A} {xs ys zs : List A} → Merge xs ys zs → Merge (x ∷ xs) ys (x ∷ zs)
  merge_right : {y : A} {xs ys zs : List A} → Merge xs ys zs → Merge xs (y ∷ ys) (y ∷ zs)

pub Merge-append_left {ℓ} :
    {A : Type ℓ} (l : List A) {xs ys zs : List A} → Merge xs ys zs → Merge (l ++ xs) ys (l ++ zs)
Merge-append_left [] m = m
Merge-append_left (x ∷ l) m = merge_left (Merge-append_left l m)

pub Merge-append_right {ℓ} :
    {A : Type ℓ} (l : List A) {xs ys zs : List A} → Merge xs ys zs → Merge xs (l ++ ys) (l ++ zs)
Merge-append_right [] m = m
Merge-append_right (x ∷ l) m = merge_right (Merge-append_right l m)

-- An interleaving behind an interleaving.
pub Merge-append {ℓ} :
    {A : Type ℓ} {xs ys zs xs' ys' zs' : List A}
    → Merge xs ys zs
    → Merge xs' ys' zs'
    → Merge (xs ++ xs') (ys ++ ys') (zs ++ zs')
Merge-append merge_none n = n
Merge-append (merge_left m) n = merge_left (Merge-append m n)
Merge-append (merge_right m) n = merge_right (Merge-append m n)
