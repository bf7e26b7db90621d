-- ===== src/Text/Lines/Laws.antt =====
-- Laws of splitting, joining and trimming.
use scum_ne_djin_release.Prelude.{
  ℕ, ◌≡◌, ◌≢◌, refl, ap, ◌∙◌, Bool, true, false, not, ◌&&◌, List, [], ◌∷◌, ◌++◌, ◌==◌, arith, All,
  All-append, Bool-cases, inl, inr,
}
use scum_ne_djin_release.Text.{Text, trim_start, trim_end, trim, is_space, truthy}
use scum_ne_djin_release.Text.Lines.{split_by, add_unit, join, unify_newlines}

module _ {κ} (P : ℕ → Type κ) where
  All-trim_start : (s : Text) → All P s → All P (trim_start s)
  unfolding trim_start
  All-trim_start [] h = tt
  All-trim_start (c ∷ s) (k, h) = elim (Bool-cases (is_space c)) [
    | inl e ↦ rw e (All-trim_start s h)
    | inr e ↦ rw e (k, h)
  ]

  All-trim_end : (s : Text) → All P s → All P (trim_end s)
  unfolding trim_end
  All-trim_end [] h = tt
  All-trim_end (c ∷ s) (k, h) = elim (Bool-cases (is_space c && not (truthy (trim_end s)))) [
    | inl e ↦ rw e tt
    | inr e ↦ rw e (k, All-trim_end s h)
  ]

  pub All-trim : (s : Text) → All P s → All P (trim s)
  unfolding trim
  All-trim s h = All-trim_end (trim_start s) (All-trim_start s h)

  All-add_unit : (c : ℕ) (ps : List Text) → P c → All (All P) ps → All (All P) (add_unit c ps)
  unfolding add_unit
  All-add_unit c [] k h = ((k, tt), tt)
  All-add_unit c (p ∷ ps) k (h, hs) = ((k, h), hs)

  -- What holds of each unit of a text holds in each part.
  pub All-split_by : (sep : ℕ → Bool) (s : Text) → All P s → All (All P) (split_by sep s)
  unfolding split_by
  All-split_by sep [] h = (tt, tt)
  All-split_by sep (c ∷ s) (k, h) = elim (Bool-cases (sep c)) [
    | inl e ↦ rw e (tt, All-split_by sep s h)
    | inr e ↦ rw e (All-add_unit c (split_by sep s) k (All-split_by sep s h))
  ]

add_unit-lacks :
    (sep : ℕ → Bool) (c : ℕ) (ps : List Text)
    → sep c ≡ false
    → All (All (λ x. sep x ≡ false)) ps
    → All (All (λ x. sep x ≡ false)) (add_unit c ps)
unfolding add_unit
add_unit-lacks sep c [] k h = ((k, tt), tt)
add_unit-lacks sep c (p ∷ ps) k (h, hs) = ((k, h), hs)

-- No part holds a separator.
pub split_by-lacks : (sep : ℕ → Bool) (s : Text) → All (All (λ x. sep x ≡ false)) (split_by sep s)
unfolding split_by
split_by-lacks sep [] = (tt, tt)
split_by-lacks sep (c ∷ s) = elim (Bool-cases (sep c)) [
  | inl e ↦ rw e (tt, split_by-lacks sep s)
  | inr e ↦ rw e (add_unit-lacks sep c (split_by sep s) e (split_by-lacks sep s))
]

module _ (sep : ℕ → Bool) where
  pub split_by_of_lacks : (p : Text) → All (λ x. sep x ≡ false) p → split_by sep p ≡ p ∷ []
  unfolding split_by
  split_by_of_lacks [] h = refl
  split_by_of_lacks (c ∷ p) (k, h) = rw (k, split_by_of_lacks p h) (unfold add_unit in refl)

  pub split_by-append :
      (p : Text) (c : ℕ) (rest : Text)
      → All (λ x. sep x ≡ false) p
      → sep c ≡ true
      → split_by sep (p ++ c ∷ rest) ≡ p ∷ split_by sep rest
  unfolding split_by
  split_by-append [] c rest h e = rw e
  split_by-append (d ∷ p) c rest (k, h) e =
      rw (k, split_by-append p c rest h e) (unfold add_unit in refl)

  -- Splitting a join gives the parts back.
  pub split_by-join :
      (c : ℕ) (p : Text) (ps : List Text)
      → sep c ≡ true
      → All (All (λ x. sep x ≡ false)) (p ∷ ps)
      → split_by sep (join (c ∷ []) (p ∷ ps)) ≡ p ∷ ps
  unfolding join
  split_by-join c p [] e (h, hs) = split_by_of_lacks p h
  split_by-join c p (q ∷ ps) e (h, hs) =
      split_by-append p c (join (c ∷ []) (q ∷ ps)) h e ∙ ap (◌∷◌ p) (split_by-join c q ps e hs)

module _ {κ} (P : ℕ → Type κ) where
  pub All-join : (c : ℕ) (ps : List Text) → P c → All (All P) ps → All P (join (c ∷ []) ps)
  unfolding join
  All-join c [] k h = tt
  All-join c (p ∷ []) k h = h.0
  All-join c (p ∷ q ∷ ps) k (h, hs) =
      All-append P p (c ∷ join (c ∷ []) (q ∷ ps)) h (k, All-join c (q ∷ ps) k hs)

pub unify_newlines-lacks : (s : Text) → All (λ x. x ≢ 13) (unify_newlines s)
unfolding unify_newlines
unify_newlines-lacks [] = tt
unify_newlines-lacks (c ∷ []) = (ground arith, tt)
unify_newlines-lacks (c ∷ d ∷ s) = elim (Bool-cases (c == 13)) [
  | inl e ↦ elim (Bool-cases (d == 10)) [
    | inl f ↦ rw (e, f) (omega arith, unify_newlines-lacks s)
    | inr f ↦ rw (e, f) (omega arith, unify_newlines-lacks (d ∷ s))
  ]
  | inr e ↦ rw e (ground arith, unify_newlines-lacks (d ∷ s))
]

pub unify_newlines_of_lacks : (s : Text) → All (λ x. x ≢ 13) s → unify_newlines s ≡ s
unfolding unify_newlines
unify_newlines_of_lacks [] h = refl
unify_newlines_of_lacks (c ∷ []) (k, h) = ground arith
unify_newlines_of_lacks (c ∷ d ∷ s) (k, h) =
    let e : c == 13 ≡ false = ground arith in rw e (ap (◌∷◌ c) (unify_newlines_of_lacks (d ∷ s) h))
