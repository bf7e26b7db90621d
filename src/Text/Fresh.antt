-- ===== src/Text/Fresh.antt =====
-- The loops of src/ScumWarden.Server/wwwroot/app.js that keep the first entry of each key, with a
-- set of the keys seen so far.
use scum_ne_djin_release.Prelude.{
  ◌≡◌, refl, sym, subst, ap, Bool, true, false, ◌||◌, List, [], ◌∷◌, map, if◌then◌else◌, Bool-cases,
  inl, inr, arith, All,
}
use scum_ne_djin_release.Text.{Text, ◌===◌, has}
use scum_ne_djin_release.Text.Laws.{===_comm, ===_refl}

module _ {ℓ} {A : Type ℓ} where
  -- The entries whose key is neither skipped nor seen.
  unfoldable pub fresh_by : (A → Text) → (Text → Bool) → List Text → List A → List A
  fresh_by key skip seen [] = []
  fresh_by key skip seen (x ∷ xs) =
      let rest = fresh_by key skip seen xs in
      let later = fresh_by key skip (key x ∷ seen) xs in
      if skip (key x) || has seen (key x) then rest else x ∷ later

-- No text stands twice in a list.
abbrev pub Distinct : List Text → Type 0
Distinct [] = Unit {0}
Distinct (a ∷ rest) = (has rest a ≡ false) × Distinct rest

neither : (x y : Bool) → (x || y) ≡ false → (x ≡ false) × (y ≡ false)
neither x y h = grind arith

module _ {ℓ} {A : Type ℓ} (key : A → Text) (skip : Text → Bool) where
  Fresh : List Text → A → Type 0
  Fresh seen x = (skip (key x) ≡ false) × (has seen (key x) ≡ false)

  not_seen :
      (a : Text) (seen : List Text) (rest : List A)
      → All (Fresh (a ∷ seen)) rest
      → All (Fresh seen) rest × (has (map key rest) a ≡ false)
  unfolding Fresh has
  not_seen a seen [] h = (tt, refl)
  not_seen a seen (b ∷ rest) ((k, m), h) =
      let (i, j) = not_seen a seen rest h in
      let (e, f) = neither (a === key b) (has seen (key b)) m in
      (((k, f), i), rw (===_comm (key b) a, e) j)

  fresh_by-Fresh :
      (seen : List Text) (xs : List A)
      → All (Fresh seen) (fresh_by key skip seen xs)
        × Distinct (map key (fresh_by key skip seen xs))
  unfolding fresh_by
  fresh_by-Fresh seen [] = (tt, tt)
  fresh_by-Fresh seen (x ∷ xs) = elim (Bool-cases (skip (key x) || has seen (key x))) [
    | inl e ↦ rw e (fresh_by-Fresh seen xs)
    | inr e ↦
        let (h, d) = fresh_by-Fresh (key x ∷ seen) xs in
        let (k, l) = not_seen (key x) seen (fresh_by key skip (key x ∷ seen) xs) h in
        rw e ((unfold Fresh in neither (skip (key x)) (has seen (key x)) e, k), (l, d))
  ]

  kept_of_Fresh :
      (seen : List Text) (rest : List A)
      → All (Fresh seen) rest
      → All (λ x. skip (key x) ≡ false) rest
  unfolding Fresh
  kept_of_Fresh seen [] h = tt
  kept_of_Fresh seen (x ∷ rest) ((k, l), h) = (k, kept_of_Fresh seen rest h)

  -- No entry with a skipped key is kept, and no key is kept twice.
  pub fresh_by-Distinct :
      (xs : List A)
      → All (λ x. skip (key x) ≡ false) (fresh_by key skip [] xs)
        × Distinct (map key (fresh_by key skip [] xs))
  fresh_by-Distinct xs =
      let (h, d) = fresh_by-Fresh [] xs in (kept_of_Fresh [] (fresh_by key skip [] xs) h, d)

  -- The key is skipped, was seen, or is kept.
  IsCovered : List Text → List A → A → Type 0
  IsCovered seen kept x = (skip (key x) || has seen (key x) || has (map key kept) (key x)) ≡ true

  IsCovered-later :
      (a : A) (seen : List Text) (kept xs : List A)
      → All (IsCovered (key a ∷ seen) kept) xs
      → All (IsCovered seen (a ∷ kept)) xs
  unfolding IsCovered has
  IsCovered-later a seen kept [] h = tt
  IsCovered-later a seen kept (x ∷ xs) (k, h) = (grind arith, IsCovered-later a seen kept xs h)

  fresh_by_passed :
      (seen : List Text) (x : A) (xs : List A)
      → (skip (key x) || has seen (key x)) ≡ true
      → fresh_by key skip seen (x ∷ xs) ≡ fresh_by key skip seen xs
  unfolding fresh_by
  fresh_by_passed seen x xs e = rw e refl

  fresh_by_kept :
      (seen : List Text) (x : A) (xs : List A)
      → (skip (key x) || has seen (key x)) ≡ false
      → fresh_by key skip seen (x ∷ xs) ≡ x ∷ fresh_by key skip (key x ∷ seen) xs
  unfolding fresh_by
  fresh_by_kept seen x xs e = rw e refl

  fresh_by-IsCovered :
      (seen : List Text) (xs : List A) → All (IsCovered seen (fresh_by key skip seen xs)) xs
  unfolding IsCovered has
  fresh_by-IsCovered seen [] = tt
  fresh_by-IsCovered seen (x ∷ xs) = elim (Bool-cases (skip (key x) || has seen (key x))) [
    | inl e ↦
        subst (λ kept. All (IsCovered seen kept) (x ∷ xs)) (sym (fresh_by_passed seen x xs e))
          (grind arith, fresh_by-IsCovered seen xs)
    | inr e ↦
        let later = fresh_by key skip (key x ∷ seen) xs in
        subst (λ kept. All (IsCovered seen kept) (x ∷ xs)) (sym (fresh_by_kept seen x xs e))
          (
            rw (===_refl (key x)) (grind arith),
            IsCovered-later x seen later xs (fresh_by-IsCovered (key x ∷ seen) xs),
          )
  ]

  -- Every entry's key is skipped or is the key of an entry that is kept.
  pub fresh_by_complete :
      (xs : List A)
      → All (λ x. (skip (key x) || has (map key (fresh_by key skip [] xs)) (key x)) ≡ true) xs
  fresh_by_complete xs = go xs (fresh_by-IsCovered [] xs)
    where
      go :
          (ys : List A)
          → All (IsCovered [] (fresh_by key skip [] xs)) ys
          → All (λ x. (skip (key x) || has (map key (fresh_by key skip [] xs)) (key x)) ≡ true) ys
      go [] h = tt
      go (y ∷ ys) (k, h) = (unfold IsCovered has in grind arith, go ys h)

  unseen :
      (a : Text) (seen : List Text) (rest : List A)
      → has (map key rest) a ≡ false
      → All (Fresh seen) rest
      → All (Fresh (a ∷ seen)) rest
  unfolding has Fresh
  unseen a seen [] h k = tt
  unseen a seen (b ∷ rest) h ((i, k), l) =
      let (e, f) = neither (key b === a) (has (map key rest) a) h in
      ((i, rw (===_comm a (key b), e) k), unseen a seen rest f l)

  again :
      (seen : List Text) (rest : List A)
      → All (Fresh seen) rest
      → Distinct (map key rest)
      → fresh_by key skip seen rest ≡ rest
  unfolding fresh_by Fresh
  again seen [] h d = refl
  again seen (a ∷ rest) ((e, f), h) (m, d) =
      rw (e, f) (ap (a ∷◌) (again (key a ∷ seen) rest (unseen (key a) seen rest m h) d))

  -- Keeping the first entries once more changes nothing.
  pub fresh_by_idem :
      (xs : List A) → fresh_by key skip [] (fresh_by key skip [] xs) ≡ fresh_by key skip [] xs
  fresh_by_idem xs = let (h, d) = fresh_by-Fresh [] xs in again [] (fresh_by key skip [] xs) h d

module _ {ℓ κ} {A : Type ℓ} (key : A → Text) (skip : Text → Bool) (P : A → Type κ) where
  -- What holds of all entries holds of those that are kept.
  pub All-fresh_by : (seen : List Text) (xs : List A) → All P xs → All P (fresh_by key skip seen xs)
  unfolding fresh_by
  All-fresh_by seen [] h = tt
  All-fresh_by seen (x ∷ xs) (p, h) = elim (Bool-cases (skip (key x) || has seen (key x))) [
    | inl e ↦ rw e (All-fresh_by seen xs h)
    | inr e ↦ rw e (p, All-fresh_by (key x ∷ seen) xs h)
  ]
