-- ===== src/Players/Inserts.antt =====
-- What `valueFromKeys` finds after another property is set.
use scum_ne_djin_release.Prelude.{
  ◌≡◌, refl, sym, subst, Bool, true, false, not, ◌||◌, List, [], ◌∷◌, map, arith, Bool-cases,
  Option-cases, inl, inr,
}
use scum_ne_djin_release.Text.{Text, ◌===◌, has, lower}
use scum_ne_djin_release.Text.Laws.{===_sound, ===_refl, ===_comm}
use scum_ne_djin_release.Js.{Value, Props}
use scum_ne_djin_release.Js.Objects.{insert, keys}
use scum_ne_djin_release.Js.Laws.{get-insert}
use scum_ne_djin_release.Players.Lookup.{
  exact_value, last_key, value_at_key, loose_value, value_from_keys,
}
use scum_ne_djin_release.Players.Laws.{last_key-has}

last_key-insert :
    (j wanted : Text) (v : Value) (p : Props)
    → lower j === wanted ≡ false
    → last_key wanted (keys (insert j v p)) ≡ last_key wanted (keys p)
unfolding last_key keys insert
last_key-insert j wanted v [] h = rw h refl
last_key-insert j wanted v ((i, w) ∷ p) h = elim (Bool-cases (i === j)) [
  | inl e ↦ rw e refl
  | inr e ↦ rw (e, last_key-insert j wanted v p h) refl
]

-- Keys that differ in lower case differ.
lower_apart : (j k : Text) → lower j === lower k ≡ false → j === k ≡ false
lower_apart j k h = elim (Bool-cases (j === k)) [
  | inr e ↦ e
  | inl e ↦ absurd (clash (rw (===_sound j k e, ===_refl (lower k)) at h))
]
  where
    clash : true ≡ false → ⊥
    clash e = cc

value_at-insert :
    (j wanted : Text) (v : Value) (p : Props)
    → lower j === wanted ≡ false
    → value_at_key (last_key wanted (keys (insert j v p))) (insert j v p)
      ≡ value_at_key (last_key wanted (keys p)) p
unfolding value_at_key
value_at-insert j wanted v p h = elim (Option-cases (last_key wanted (keys p))) [
  | inl e ↦ rw (last_key-insert j wanted v p h, e) refl
  | inr (k, e) ↦
      let same = ===_sound (lower k) wanted (last_key-has wanted (keys p) k e) in
      let other = lower_apart j k (subst (λ w. lower j === w ≡ false) (sym same) h) in
      rw (last_key-insert j wanted v p h, e, get-insert j k v p other) refl
]

neither : (x y : Bool) → (x || y) ≡ false → (x ≡ false) × (y ≡ false)
neither x y h = grind arith

-- Whether no key of a list is a given one, in any case.
unfoldable pub is_foreign : List Text → Text → Bool
is_foreign ks j = not (has (map lower ks) (lower j))

foreign_cons :
    (j k : Text) (ks : List Text)
    → is_foreign (k ∷ ks) j ≡ true
    → (lower j === lower k ≡ false) × (is_foreign ks j ≡ true)
unfolding is_foreign has
foreign_cons j k ks h = rw (===_comm (lower j) (lower k)) (apart (lower k === lower j) _ h)
  where
    apart : (x y : Bool) → not (x || y) ≡ true → (x ≡ false) × (not y ≡ true)
    apart x y e = grind arith

loose-insert :
    (j : Text) (v : Value) (p : Props) (ks : List Text)
    → is_foreign ks j ≡ true
    → loose_value ks (insert j v p) ≡ loose_value ks p
unfolding loose_value
loose-insert j v p [] h = refl
loose-insert j v p (k ∷ ks) h =
    let (a, b) = foreign_cons j k ks h in
    rw (value_at-insert j (lower k) v p a, loose-insert j v p ks b) refl

exact-insert :
    (j : Text) (v : Value) (p : Props) (ks : List Text)
    → is_foreign ks j ≡ true
    → exact_value ks (insert j v p) ≡ exact_value ks p
unfolding exact_value
exact-insert j v p [] h = refl
exact-insert j v p (k ∷ ks) h =
    let (a, b) = foreign_cons j k ks h in
    rw (get-insert j k v p (lower_apart j k a), exact-insert j v p ks b) refl

pub value_from_keys-insert :
    (j : Text) (v : Value) (p : Props) (ks : List Text)
    → is_foreign ks j ≡ true
    → value_from_keys (insert j v p) ks ≡ value_from_keys p ks
unfolding value_from_keys
value_from_keys-insert j v p ks h = rw (exact-insert j v p ks h, loose-insert j v p ks h) refl
