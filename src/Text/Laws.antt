-- ===== src/Text/Laws.antt =====
-- Laws of the string methods.
use scum_ne_djin_release.Prelude.{
  ℕ, true, false, not, ◌&&◌, ◌||◌, List, [], ◌∷◌, ◌≡◌, ◌≢◌, refl, ◌∙◌, ◌↔◌, arith, inl, inr,
  Bool-cases, if◌then◌else◌,
}
use scum_ne_djin_release.Text.{
  Text, ◌===◌, truthy, is_space, trim_start, trim_end, trim, lower_unit, lower, has,
}

pub ===_sound : (s r : Text) → s === r ≡ true → s ≡ r
unfolding ◌===◌
===_sound [] [] h = refl
===_sound (a ∷ s) (b ∷ r) h = ground (arith, ===_sound s r)
===_sound [] (b ∷ r) h = cc
===_sound (a ∷ s) [] h = cc

pub ===_refl : (s : Text) → s === s ≡ true
unfolding ◌===◌
===_refl [] = refl
===_refl (a ∷ s) = ground (arith, ===_refl s)

pub ===_iff : (s r : Text) → (s === r ≡ true) ↔ (s ≡ r)
===_iff s r = (===_sound s r, λ e. rw e (===_refl r))

pub ===_comm : (s r : Text) → (s === r) ≡ (r === s)
unfolding ◌===◌
===_comm [] [] = refl
===_comm (a ∷ s) (b ∷ r) = ground (arith, ===_comm s r)
===_comm [] (b ∷ r) = refl
===_comm (a ∷ s) [] = refl

pub truthy-ne-nil : (s : Text) → truthy s ≡ true → s ≢ []
unfolding truthy
truthy-ne-nil [] h = cc
truthy-ne-nil (c ∷ s) h = λ e. cc

pub falsy-eq-nil : (s : Text) → truthy s ≡ false → s ≡ []
unfolding truthy
falsy-eq-nil [] h = refl
falsy-eq-nil (c ∷ s) h = cc

-- No space at the front.
abbrev pub StartsTight : Text → Type 0
StartsTight [] = Unit
StartsTight (c ∷ s) = is_space c ≡ false

trim_start-StartsTight : (s : Text) → StartsTight (trim_start s)
unfolding trim_start
trim_start-StartsTight [] = tt
trim_start-StartsTight (c ∷ s) = elim (Bool-cases (is_space c)) [
  | inl h ↦ rw h (trim_start-StartsTight s)
  | inr h ↦ rw h h
]

trim_start_of_StartsTight : (s : Text) → StartsTight s → trim_start s ≡ s
unfolding trim_start
trim_start_of_StartsTight [] h = refl
trim_start_of_StartsTight (c ∷ s) h = rw h

trim_end-StartsTight : (s : Text) → StartsTight s → StartsTight (trim_end s)
unfolding trim_end
trim_end-StartsTight [] h = tt
trim_end-StartsTight (c ∷ s) h = rw h h

trim_end_cons :
    (c : ℕ) (r : Text)
    → trim_end (c ∷ r) ≡ (if is_space c && not (truthy (trim_end r)) then [] else c ∷ trim_end r)
unfolding trim_end
trim_end_cons c r = refl

trim_end_idem : (s : Text) → trim_end (trim_end s) ≡ trim_end s
unfolding trim_end
trim_end_idem [] = refl
trim_end_idem (c ∷ s) = elim (Bool-cases (is_space c && not (truthy (trim_end s)))) [
  | inl h ↦ rw h
  | inr h ↦ rw h (trim_end_cons c (trim_end s) ∙ rw (trim_end_idem s, h))
]

-- Trimming a second time changes nothing.
pub trim_idem : (s : Text) → trim (trim s) ≡ trim s
unfolding trim
trim_idem s =
    rw (trim_start_of_StartsTight _ (trim_end-StartsTight _ (trim_start-StartsTight s)))
      (trim_end_idem (trim_start s))

pub lower_unit_idem : (c : ℕ) → lower_unit (lower_unit c) ≡ lower_unit c
unfolding lower_unit
lower_unit_idem c = ground arith

pub lower_idem : (s : Text) → lower (lower s) ≡ lower s
unfolding lower
lower_idem [] = refl
lower_idem (c ∷ s) = cc (lower_unit_idem c, lower_idem s)

pub has_cons : (s x : Text) (seen : List Text) → has (x ∷ seen) s ≡ ((x === s) || has seen s)
unfolding has
has_cons s x seen = refl
