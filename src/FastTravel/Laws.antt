-- ===== src/FastTravel/Laws.antt =====
-- A route that is saved has usable coordinates.
use scum_ne_djin_release.Prelude.{
  ℕ, ◌≡◌, refl, ap, ◌∙◌, true, false, [], ◌∷◌, Bool-cases, inl, inr, All,
}
use scum_ne_djin_release.Text.{Text, codes, ◌===◌}
use scum_ne_djin_release.Js.{Value, num, arr, Props, items, to_items}
use scum_ne_djin_release.Js.Numbers.{int, is_finite}
use scum_ne_djin_release.Js.Objects.{get, insert}
use scum_ne_djin_release.Js.Laws.{get-insert, get-insert_self}
use scum_ne_djin_release.Js.Convert.{to_number, ◌nullish_else◌}
use scum_ne_djin_release.FastTravel.{
  is_array, array_key, arrival_key, center_key, finite_or, nth, point_of, arrival_point,
  has_valid_center, normalize_route,
}

finite_or-is_finite : (d : ℕ) (v : Value) → is_finite (finite_or d v) ≡ true
unfolding finite_or
finite_or-is_finite d v = elim (Bool-cases (is_finite (to_number (v nullish_else num (int d))))) [
  | inl e ↦ rw (e, e) refl
  | inr e ↦ rw e (unfold is_finite in refl)
]

keys_differ : (p : Props) → center_key p === arrival_key p ≡ false
unfolding center_key arrival_key array_key ◌===◌
keys_differ p = elim (Bool-cases (is_array (get (codes "CenterZone") p))) [
  | inl e ↦ rw e (other (codes "CenterZone") refl refl)
  | inr e ↦ elim (Bool-cases (is_array (get (codes "centerZone") p))) [
    | inl f ↦ rw (e, f) (other (codes "centerZone") refl refl)
    | inr f ↦ rw (e, f) (other (codes "CenterZone") refl refl)
  ]
]
  where
    other :
        (k : Text)
        → k === codes "ArrivalPoint" ≡ false
        → k === codes "arrivalPoint" ≡ false
        → k === arrival_key p ≡ false
    other k h j = elim (Bool-cases (is_array (get (codes "ArrivalPoint") p))) [
      | inl e ↦ rw e h
      | inr e ↦ elim (Bool-cases (is_array (get (codes "arrivalPoint") p))) [
        | inl f ↦ rw (e, f) j
        | inr f ↦ rw (e, f) h
      ]
    ]

finite_point : (p : Props) → All (λ v. is_finite (to_number v) ≡ true) (arrival_point p)
unfolding arrival_point to_number
finite_point p =
    (finite_or-is_finite 0 _, (finite_or-is_finite 0 _, (finite_or-is_finite 50 _, tt)))

new_center :
    (p : Props)
    → has_valid_center (arr (to_items (nth (arrival_point p) 0 ∷ nth (arrival_point p) 1 ∷ [])))
      ≡ true
unfolding has_valid_center arrival_point nth to_number items to_items
new_center p =
    let point = point_of (get (arrival_key p) p) in
    rw (finite_or-is_finite 0 (nth point 0), finite_or-is_finite 0 (nth point 1)) refl

-- A saved route has three finite coordinates under its arrival key and a valid center under its
-- center key, whatever it held.
pub saved_route :
    (p : Props)
    → let q = normalize_route p in
      (get (arrival_key p) q ≡ arr (to_items (arrival_point p)))
      × All (λ v. is_finite (to_number v) ≡ true) (arrival_point p)
      × (has_valid_center (get (center_key p) q) ≡ true)
unfolding normalize_route
saved_route p =
    let placed = insert (arrival_key p) (arr (to_items (arrival_point p))) p in
    let center = arr (to_items (nth (arrival_point p) 0 ∷ nth (arrival_point p) 1 ∷ [])) in
    let here = get-insert_self (arrival_key p) (arr (to_items (arrival_point p))) p in
    elim (Bool-cases (has_valid_center (get (center_key p) placed))) [
      | inl e ↦ rw e (here, finite_point p, e)
      | inr e ↦ rw e (
        get-insert (center_key p) (arrival_key p) center placed (keys_differ p) ∙ here,
        finite_point p,
        ap has_valid_center (get-insert_self (center_key p) center placed) ∙ new_center p,
      )
    ]
