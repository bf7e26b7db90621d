-- ===== src/FastTravel.antt =====
-- The routes of the fast travel module before a save: `normalizeFastTravelConfigForSave` of
-- src/ScumWarden.Server/wwwroot/app.js. The configuration comes from `JSON.parse`, so that the
-- copy it starts from is the configuration; keys set on a route that is an array are dropped by
-- JSON.
pub mod Laws
pub mod Tests
use scum_ne_djin_release.Prelude.{
  ℕ, Bool, true, false, not, ◌&&◌, List, [], ◌∷◌, map, Option, none, some, if◌then◌else◌, get_elem?,
  leb, length,
}
use scum_ne_djin_release.Text.{Text, codes}
use scum_ne_djin_release.Js.{
  Value, undefined, num, arr, obj, Props, props, to_fields, items, to_items,
}
use scum_ne_djin_release.Js.Numbers.{Number, int, is_finite}
use scum_ne_djin_release.Js.Objects.{get, insert}
use scum_ne_djin_release.Js.Convert.{to_number, ◌nullish_else◌}

unfoldable pub is_array : Value → Bool
is_array (arr vs) = true
is_array v = false

-- The key of the two that holds an array, or the first one.
unfoldable pub array_key : Text → Text → Props → Text
array_key up low p = if is_array (get up p) then up else if is_array (get low p) then low else up

unfoldable pub arrival_key : Props → Text
arrival_key p = array_key (codes "ArrivalPoint") (codes "arrivalPoint") p

unfoldable pub center_key : Props → Text
center_key p = array_key (codes "CenterZone") (codes "centerZone") p

unfoldable pub finite_or : ℕ → Value → Number
finite_or d v = let n = to_number (v nullish_else num (int d)) in if is_finite n then n else int d

at_or_undefined : Option Value → Value
at_or_undefined none = undefined
at_or_undefined (some v) = v

unfoldable pub nth : List Value → ℕ → Value
unfolding at_or_undefined
nth vs i = at_or_undefined (get_elem? vs i)

unfoldable pub point_of : Value → List Value
point_of (arr vs) = items vs
point_of v = num (int 0) ∷ num (int 0) ∷ num (int 50) ∷ []

unfoldable pub arrival_point : Props → List Value
arrival_point p =
    let point = point_of (get (arrival_key p) p) in
    num (finite_or 0 (nth point 0))
    ∷ num (finite_or 0 (nth point 1))
    ∷ num (finite_or 50 (nth point 2))
    ∷ []

unfoldable pub has_valid_center : Value → Bool
has_valid_center (arr vs) =
    leb 2 (length (items vs))
    && (is_finite (to_number (nth (items vs) 0)) && is_finite (to_number (nth (items vs) 1)))
has_valid_center v = false

unfoldable pub normalize_route : Props → Props
normalize_route p =
    let arrival = arrival_point p in
    let placed = insert (arrival_key p) (arr (to_items arrival)) p in
    let center = nth arrival 0 ∷ nth arrival 1 ∷ [] in
    if has_valid_center (get (center_key p) placed)
    then placed
    else insert (center_key p) (arr (to_items center)) placed

route_value : Value → Value
route_value (obj fs) = obj (to_fields (normalize_route (props fs)))
route_value v = v

routes_at : Text → Props → Props
unfolding route_value
routes_at k config = insert k (arr (to_items (map route_value (point_of (get k config))))) config

unfoldable pub normalize_fast_travel_config_for_save : Props → Props
unfolding routes_at
normalize_fast_travel_config_for_save config =
    if is_array (get (codes "Outposts") config)
    then routes_at (codes "Outposts") config
    else if is_array (get (codes "outposts") config)
    then routes_at (codes "outposts") config
    else config
