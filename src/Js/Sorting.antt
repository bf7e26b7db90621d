-- ===== src/Js/Sorting.antt =====
-- The sorts `list.sort((a, b) => key(b) - key(a))` of src/ScumWarden.Server/wwwroot/app.js: the
-- largest key first, and entries of one key in their order. Where a key is NaN, the order that a
-- browser makes is not fixed.
use scum_ne_djin_release.Prelude.{
  ℕ, suc, ◌*◌, ◌^◌, ◌≡◌, refl, Bool, true, false, List, [], ◌∷◌, if◌then◌else◌, Bool-cases, inl,
  inr, arith, All, length, map, ap, ◌∙◌, ◌||◌,
}
use scum_ne_djin_release.Text.{Text, ◌===◌, has}
use scum_ne_djin_release.Text.Laws.{===_comm}
use scum_ne_djin_release.Text.Fresh.{Distinct}
use scum_ne_djin_release.Js.Numbers.{Number, nan, infinite, fin}
use scum_ne_djin_release.Js.Numbers.Arith.{less, less_signed}

module _ {ℓ} {A : Type ℓ} where
  unfoldable pub insert_desc : (A → Number) → A → List A → List A
  insert_desc key x [] = x ∷ []
  insert_desc key x (y ∷ ys) =
      let later = insert_desc key x ys in if less (key x) (key y) then y ∷ later else x ∷ y ∷ ys

  unfoldable pub sort_desc : (A → Number) → List A → List A
  unfolding insert_desc
  sort_desc key [] = []
  sort_desc key (x ∷ xs) = insert_desc key x (sort_desc key xs)

  -- No entry is followed by a larger one.
  abbrev pub IsFalling : (A → Number) → List A → Type 0
  IsFalling key [] = Unit
  IsFalling key (x ∷ []) = Unit
  IsFalling key (x ∷ y ∷ ys) = (less (key x) (key y) ≡ false) × IsFalling key (y ∷ ys)

less_signed_asym :
    (s : Bool) (a : ℕ) (t : Bool) (b : ℕ) → less_signed s a t b ≡ true → less_signed t b s a ≡ false
unfolding less_signed
less_signed_asym false a false b h = ground arith
less_signed_asym false a true b h = absurd cc
less_signed_asym true a false b h = refl
less_signed_asym true a true b h = ground arith

pub less_asym : (m n : Number) → less m n ≡ true → less n m ≡ false
unfolding less
less_asym nan n h = absurd cc
less_asym (infinite s) nan h = absurd cc
less_asym (infinite true) (infinite t) h = ground arith
less_asym (infinite false) (infinite t) h = absurd cc
less_asym (infinite s) (fin t v f) h = ground arith
less_asym (fin s u e) nan h = absurd cc
less_asym (fin s u e) (infinite t) h = ground arith
less_asym (fin s u e) (fin t v f) h = less_signed_asym s (u * 10 ^ f) t (v * 10 ^ e) h

module _ {ℓ} {A : Type ℓ} (key : A → Number) where
  insert-IsFalling : (x : A) (ys : List A) → IsFalling key ys → IsFalling key (insert_desc key x ys)
  unfolding insert_desc
  insert-IsFalling x [] h = tt
  insert-IsFalling x (y ∷ []) h = elim (Bool-cases (less (key x) (key y))) [
    | inl e ↦ rw e (less_asym (key x) (key y) e, tt)
    | inr e ↦ rw e (e, tt)
  ]
  insert-IsFalling x (y ∷ z ∷ ys) (k, h) = elim (Bool-cases (less (key x) (key y))) [
    | inr e ↦ rw e (e, (k, h))
    | inl e ↦
        let rest = insert-IsFalling x (z ∷ ys) h in
        elim (Bool-cases (less (key x) (key z))) [
          | inl f ↦
              let fall : IsFalling key (z ∷ insert_desc key x ys) = rw f at rest in
              rw (e, f) (k, fall)
          | inr f ↦
              let fall : IsFalling key (x ∷ z ∷ ys) = rw f at rest in
              rw (e, f) (less_asym (key x) (key y) e, fall)
        ]
  ]

  pub sort-IsFalling : (xs : List A) → IsFalling key (sort_desc key xs)
  unfolding sort_desc
  sort-IsFalling [] = tt
  sort-IsFalling (x ∷ xs) = insert-IsFalling x (sort_desc key xs) (sort-IsFalling xs)

  length-insert : (x : A) (ys : List A) → length (insert_desc key x ys) ≡ suc (length ys)
  unfolding insert_desc
  length-insert x [] = refl
  length-insert x (y ∷ ys) = ground (arith, length-insert x ys)

  pub length-sort : (xs : List A) → length (sort_desc key xs) ≡ length xs
  unfolding sort_desc
  length-sort [] = refl
  length-sort (x ∷ xs) = omega (arith, length-insert x (sort_desc key xs), length-sort xs)

module _ {ℓ κ} {A : Type ℓ} (key : A → Number) (P : A → Type κ) where
  All-insert_back : (x : A) (ys : List A) → All P (insert_desc key x ys) → P x × All P ys
  unfolding insert_desc
  All-insert_back x [] h = h
  All-insert_back x (y ∷ ys) h = elim (Bool-cases (less (key x) (key y))) [
    | inl e ↦
        let k : P y × All P (insert_desc key x ys) = rw e at h in
        let (p, q) = All-insert_back x ys k.1 in (p, (k.0, q))
    | inr e ↦ rw e at h
  ]

  -- What holds of all sorted entries holds of all entries.
  pub All-sort_back : (xs : List A) → All P (sort_desc key xs) → All P xs
  unfolding sort_desc
  All-sort_back [] h = tt
  All-sort_back (x ∷ xs) h =
      let (p, q) = All-insert_back x (sort_desc key xs) h in (p, All-sort_back xs q)

  All-insert : (x : A) (ys : List A) → P x → All P ys → All P (insert_desc key x ys)
  unfolding insert_desc
  All-insert x [] p h = (p, tt)
  All-insert x (y ∷ ys) p (q, h) = elim (Bool-cases (less (key x) (key y))) [
    | inl e ↦ rw e (q, All-insert x ys p h)
    | inr e ↦ rw e (p, (q, h))
  ]

  pub All-sort : (xs : List A) → All P xs → All P (sort_desc key xs)
  unfolding sort_desc
  All-sort [] h = tt
  All-sort (x ∷ xs) (p, h) = All-insert x (sort_desc key xs) p (All-sort xs h)

module _ {ℓ} {A : Type ℓ} (key : A → Number) (name : A → Text) where
  has-insert :
      (x : A) (ys : List A) (a : Text)
      → has (map name (insert_desc key x ys)) a ≡ ((name x === a) || has (map name ys) a)
  unfolding insert_desc has
  has-insert x [] a = refl
  has-insert x (y ∷ ys) a = elim (Bool-cases (less (key x) (key y))) [
    | inl e ↦ rw (e, has-insert x ys a) (ground arith)
    | inr e ↦ rw e refl
  ]

  -- The names of the entries are the names of the sorted entries.
  pub has-sort :
      (xs : List A) (a : Text) → has (map name (sort_desc key xs)) a ≡ has (map name xs) a
  unfolding sort_desc has
  has-sort [] a = refl
  has-sort (x ∷ xs) a = has-insert x (sort_desc key xs) a ∙ ap ((name x === a) ||◌) (has-sort xs a)

  Distinct-insert :
      (x : A) (ys : List A)
      → has (map name ys) (name x) ≡ false
      → Distinct (map name ys)
      → Distinct (map name (insert_desc key x ys))
  unfolding insert_desc has
  Distinct-insert x [] h d = (h, d)
  Distinct-insert x (y ∷ ys) h (k, d) = elim (Bool-cases (less (key x) (key y))) [
    | inr e ↦ rw e (h, (k, d))
    | inl e ↦ rw e (
      has-insert x ys (name y) ∙ neither_one _ _ _ _ (===_comm (name x) (name y)) k h,
      Distinct-insert x ys (any_later _ _ h) d,
    )
  ]
    where
      neither_one : (b c d e : Bool) → b ≡ c → d ≡ false → (c || e) ≡ false → (b || d) ≡ false
      neither_one b c d e p q r = grind arith

      any_later : (b c : Bool) → (b || c) ≡ false → c ≡ false
      any_later b c r = grind arith

  pub Distinct-sort :
      (xs : List A) → Distinct (map name xs) → Distinct (map name (sort_desc key xs))
  unfolding sort_desc
  Distinct-sort [] d = tt
  Distinct-sort (x ∷ xs) (h, d) =
      Distinct-insert x (sort_desc key xs) (has-sort xs (name x) ∙ h) (Distinct-sort xs d)
