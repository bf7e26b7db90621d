-- ===== src/Prelude/Filters.antt =====
-- What `filter` and `any` say about all items of a list.
use mathlib.Core.Path.{◌≡◌, refl}
use mathlib.Core.Bool.{Bool, true, false, ◌||◌}
use mathlib.Core.List.{List, [], ◌∷◌}
use mathlib.Core.Logic.{inl, inr}
use native.Mathlib.Omega.{arith}
use scum_ne_djin_release.Prelude.Tests.{Bool-cases}
use scum_ne_djin_release.Prelude.Lists.{All, any, filter}

neither : (a b : Bool) → (a || b) ≡ false → (a ≡ false) × (b ≡ false)
neither a b h = (grind arith, grind arith)

module _ {ℓ} {A : Type ℓ} (test : A → Bool) where
  pub filter-All : (xs : List A) → All (λ x. test x ≡ true) (filter test xs)
  filter-All [] = tt
  filter-All (x ∷ xs) = elim (Bool-cases (test x)) [
    | inl e ↦ rw e (e, filter-All xs)
    | inr e ↦ rw e (filter-All xs)
  ]

  pub All_of_any : (xs : List A) → any test xs ≡ false → All (λ x. test x ≡ false) xs
  All_of_any [] h = tt
  All_of_any (x ∷ xs) h = let (p, q) = neither (test x) (any test xs) h in (p, All_of_any xs q)

  pub any-of_All : (xs : List A) → All (λ x. test x ≡ false) xs → any test xs ≡ false
  any-of_All [] h = refl
  any-of_All (x ∷ xs) (p, h) = rw p (any-of_All xs h)

  pub All-filter : (P : A → Type 0) (xs : List A) → All P xs → All P (filter test xs)
  All-filter P [] h = tt
  All-filter P (x ∷ xs) (p, h) = elim (Bool-cases (test x)) [
    | inl e ↦ rw e (p, All-filter P xs h)
    | inr e ↦ rw e (All-filter P xs h)
  ]

module _ {ℓ} {A : Type ℓ} (P Q : A → Type 0) where
  pub All_imp : ((x : A) → P x → Q x) → (xs : List A) → All P xs → All Q xs
  All_imp f [] h = tt
  All_imp f (x ∷ xs) (p, h) = (f x p, All_imp f xs h)
