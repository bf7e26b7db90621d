-- ===== src/FastTravel/Tests.antt =====
-- Routes at concrete values.
use scum_ne_djin_release.Prelude.{◌≡◌, true, [], ◌∷◌, All}
use scum_ne_djin_release.Text.{codes}
use scum_ne_djin_release.Js.{str, arr, Props, to_items}
use scum_ne_djin_release.Js.Numbers.{is_finite}
use scum_ne_djin_release.Js.Objects.{get}
use scum_ne_djin_release.Js.Convert.{to_number}
use scum_ne_djin_release.FastTravel.{
  normalize_route, arrival_key, center_key, arrival_point, has_valid_center,
}
use scum_ne_djin_release.FastTravel.Laws.{saved_route}

abbrev route : Props
route = (codes "arrivalPoint", arr (to_items (str (codes "12.5") ∷ str (codes "far") ∷ []))) ∷ []

saved_route_example :
    let q = normalize_route route in
    (get (arrival_key route) q ≡ arr (to_items (arrival_point route)))
    × All (λ v. is_finite (to_number v) ≡ true) (arrival_point route)
    × (has_valid_center (get (center_key route) q) ≡ true)
saved_route_example = saved_route route
