-- ===== src/Inventory/Batches.antt =====
-- The slices of six.
use scum_ne_djin_release.Prelude.{
  ℕ, zero, suc, ◌≤◌, ◌≡◌, refl, ap, ◌∙◌, List, [], ◌∷◌, ◌++◌, arith, All, length, take, drop,
  flatten, take-append-drop, length-take,
}
use scum_ne_djin_release.Text.{Text}
use scum_ne_djin_release.Inventory.{chunks}

length-drop_le : (n : ℕ) (ids : List Text) → length (drop n ids) ≤ length ids
length-drop_le zero ids = omega arith
length-drop_le (suc n) [] = omega arith
length-drop_le (suc n) (id ∷ ids) = omega (arith, length-drop_le n ids)

pub flatten-chunks :
    (fuel : ℕ) (ids : List Text) → length ids ≤ fuel → flatten (chunks fuel ids) ≡ ids
unfolding chunks
flatten-chunks zero [] h = refl
flatten-chunks zero (id ∷ ids) h = elim h [ ]
flatten-chunks (suc fuel) [] h = refl
flatten-chunks (suc fuel) (id ∷ ids) h =
    ap (take 6 (id ∷ ids) ++◌)
      (flatten-chunks fuel (drop 5 ids) (omega (arith, length-drop_le 5 ids)))
    ∙ take-append-drop 6 (id ∷ ids)

abbrev pub IsBatch : List Text → Type 0
IsBatch c = (1 ≤ length c) × (length c ≤ 6)

pub chunks-IsBatch : (fuel : ℕ) (ids : List Text) → All IsBatch (chunks fuel ids)
unfolding chunks
chunks-IsBatch zero ids = tt
chunks-IsBatch (suc fuel) [] = tt
chunks-IsBatch (suc fuel) (id ∷ ids) = (
  (omega (arith, length-take 5 ids), omega (arith, length-take 5 ids)),
  chunks-IsBatch fuel (drop 5 ids),
)
