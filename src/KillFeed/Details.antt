-- ===== src/KillFeed/Details.antt =====
-- The weapon, the distance and the places of a kill: `normalizeKillDistanceMeters`,
-- `parseKillDistance`, `parseKillWeapon`, `parseLocationValue`, `parseKillLocation`,
-- `killEventQuality` and `isTransientServerKillEvent` of src/ScumWarden.Server/wwwroot/app.js.
use scum_ne_djin_release.Prelude.{
  ℕ, ◌+◌, Bool, not, ◌&&◌, ◌||◌, List, [], ◌∷◌, ◌++◌, map, Option, none, some, if◌then◌else◌, leb,
  ◌==◌, filter, get_elem?, is_some,
}
use scum_ne_djin_release.Text.{
  Text, codes, ◌===◌, truthy, ◌orelse◌, trim, lower, includes, is_digit,
}
use scum_ne_djin_release.Text.Lines.{join}
use scum_ne_djin_release.Js.{Value, undefined, str, arr, obj, Props, items}
use scum_ne_djin_release.Js.Numbers.{Number, fin, is_finite, above, read_number}
use scum_ne_djin_release.Js.Regex.{
  Regex, unit, group, Found, search, tests, group_of, replace_first, lit, word, any_of, all_of,
  plus, maybe, blanks, digits1, at_edge, none_of, one_of,
}
use scum_ne_djin_release.Js.Objects.{get, props_of}
use scum_ne_djin_release.Js.Convert.{
  to_text, to_number, is_true, is_nullish, ◌or_else◌, ◌nullish_else◌, first_true,
}
use scum_ne_djin_release.Players.{pick, is_set}
use scum_ne_djin_release.KillFeed.{
  clean_asset_id, clean_scum_weapon, kill_event_text_blob, kill_raw_text,
}
use scum_ne_djin_release.KillFeed.Participants.{Role, killer, victim, by_role}

-- `replace(',', '.')`: the first comma
unfoldable pub comma_to_dot : Text → Text
comma_to_dot s = replace_first (lit (codes ",")) (codes ".") s

hundredth : Number → Number
hundredth (fin neg units scale) = fin neg units (scale + 2)
hundredth n = n

-- `none` stands for the empty text.
unfoldable pub normalize_kill_distance_meters : Value → Option Number
unfolding hundredth
normalize_kill_distance_meters v =
    let text = comma_to_dot (if is_nullish v then [] else to_text v) in
    let n = read_number (filter (λ c. is_digit c || ((c == b'.') || (c == b'-'))) text) in
    if not (is_finite n) then none else some (if above n 5000 then hundredth n else n)

-- `[0-9]+(?:[.,][0-9]+)?`
abbrev decimal : Regex
decimal = all_of (digits1 ∷ maybe (all_of (one_of (codes ".,") ∷ digits1 ∷ [])) ∷ [])

abbrev distance_label : Regex
distance_label = all_of (
    word (codes "Distance")
    ∷ blanks
    ∷ lit (codes ":")
    ∷ blanks
    ∷ group 1 decimal
    ∷ blanks
    ∷ word (codes "m")
    ∷ [])

abbrev bare_distance : Regex
bare_distance = all_of (group 1 decimal ∷ blanks ∷ word (codes "m") ∷ at_edge ∷ [])

either : Option Found → Option Found → Option Found
either none b = b
either (some a) b = some a

found_distance : Option Found → Option Number
found_distance none = none
found_distance (some f) = normalize_kill_distance_meters (str (group_of 1 f))

unfoldable pub parse_kill_distance : Props → Option Number
unfolding either found_distance
parse_kill_distance event =
    let direct =
      pick event
        (codes "distanceMeters" ∷ codes "distanceM" ∷ codes "distance" ∷ codes "Distance" ∷ [])
        (str []) in
    let raw = kill_event_text_blob event in
    if is_set direct
    then normalize_kill_distance_meters direct
    else found_distance (either (search distance_label raw) (search bare_distance raw))

-- `/Weapon\s*:\s*([^,\]|]+)/i` and `/\b(Weapon_[A-Za-z0-9_]+)\b/`
abbrev weapon_label : Regex
weapon_label = all_of (
    word (codes "Weapon")
    ∷ blanks
    ∷ lit (codes ":")
    ∷ blanks
    ∷ group 1 (plus (none_of (codes ",]|")))
    ∷ [])

is_word_unit : ℕ → Bool
is_word_unit c =
    (leb b'A' c && leb c b'Z') || ((leb b'a' c && leb c b'z') || (is_digit c || c == b'_'))

weapon_name : Regex
weapon_name = all_of (
    at_edge
    ∷ group 1 (all_of (lit (codes "Weapon_") ∷ plus (unit is_word_unit) ∷ []))
    ∷ at_edge
    ∷ [])

found_weapon : Option Found → Text
found_weapon none = []
found_weapon (some f) = clean_scum_weapon (str (trim (group_of 1 f)))

unfoldable pub parse_kill_weapon : Props → Text
unfolding either found_weapon weapon_name is_word_unit
parse_kill_weapon event =
    let direct =
      pick event
        (codes "weapon"
          ∷ codes "weaponName"
          ∷ codes "weaponRaw"
          ∷ codes "item"
          ∷ codes "Weapon"
          ∷ [])
        (str []) in
    let raw = kill_event_text_blob event in
    if is_true direct
    then clean_scum_weapon direct orelse (clean_asset_id direct orelse to_text direct)
    else found_weapon (either (search weapon_label raw) (search weapon_name raw))

pub record Place : Type 0 where
  pub x : Number
  pub y : Number
  pub z : Number

unfoldable pub finite_place : Number → Number → Number → Option Place
finite_place a b c =
    if is_finite a && (is_finite b && is_finite c)
    then some (record { x = a; y = b; z = c })
    else none

-- `-?\d+(?:[.,]\d+)?`
abbrev signed_decimal : Regex
signed_decimal = all_of (maybe (lit (codes "-")) ∷ decimal ∷ [])

abbrev comma : Regex
comma = all_of (blanks ∷ lit (codes ",") ∷ blanks ∷ [])

abbrev pub coordinates : Regex
coordinates =
    all_of (
      group 1 signed_decimal ∷ comma ∷ group 2 signed_decimal ∷ comma ∷ group 3 signed_decimal ∷ [])

number_of_group : ℕ → Found → Number
number_of_group n f = read_number (comma_to_dot (group_of n f))

unfoldable pub place_of_found : Option Found → Option Place
unfolding number_of_group
place_of_found none = none
place_of_found (some f) =
    finite_place (number_of_group 1 f) (number_of_group 2 f) (number_of_group 3 f)

nth_or_undefined : Option Value → Value
nth_or_undefined none = undefined
nth_or_undefined (some v) = v

-- `Number(value.x ?? value.X ?? value[0])`
coordinate_of : Value → Text → Text → ℕ → Text → Number
coordinate_of (arr vs) small big i at = to_number (nth_or_undefined (get_elem? (items vs) i))
coordinate_of v small big i at =
    to_number
      (get small (props_of v) nullish_else (get big (props_of v) nullish_else get at (props_of v)))

place_of_object : Value → Option Place
unfolding coordinate_of
place_of_object v =
    finite_place (coordinate_of v (codes "x") (codes "X") 0 (codes "0"))
      (coordinate_of v (codes "y") (codes "Y") 1 (codes "1"))
      (coordinate_of v (codes "z") (codes "Z") 2 (codes "2"))

unfoldable pub parse_location_value : Value → Option Place
unfolding place_of_object coordinate_of nth_or_undefined
parse_location_value (obj fs) = place_of_object (obj fs)
parse_location_value (arr vs) = place_of_object (arr vs)
parse_location_value v = if is_true v then place_of_found (search coordinates (to_text v)) else none

abbrev prefix : Role → Text
prefix role = by_role (codes "killer") (codes "victim") role

unfoldable pub place_keys : Role → List Text
place_keys role =
    map (λ s. prefix role ++ s)
      (codes "Location"
        ∷ codes "Loc"
        ∷ codes "Position"
        ∷ codes "Coords"
        ∷ codes "Coordinates"
        ∷ [])

unfoldable pub axis_keys : Role → Text → Text → List Text
axis_keys role big small =
    (prefix role ++ big)
    ∷ (prefix role ++ codes "Loc" ++ big)
    ∷ (prefix role ++ codes "Location" ++ big)
    ∷ (prefix role ++ codes "_" ++ small)
    ∷ []

-- `Number(String(part).replace(',', '.'))`
unfoldable pub axis_number : Props → Role → Text → Text → Number
axis_number event role big small =
    read_number (comma_to_dot (to_text (pick event (axis_keys role big small) (str []))))

-- `Killer(?:Loc|Location)?\s*:?\s*…` or of the victim
place_label : Role → Regex
place_label role = all_of (
    by_role (word (codes "Killer")) (word (codes "Victim")) role
    ∷ maybe (any_of (word (codes "Loc") ∷ word (codes "Location") ∷ []))
    ∷ blanks
    ∷ maybe (lit (codes ":"))
    ∷ blanks
    ∷ coordinates
    ∷ [])

-- `parseLocationValue(match.slice(1, 4).join(', '))`
place_of_label : Option Found → Option Place
place_of_label none = none
place_of_label (some f) =
    parse_location_value (str (join (codes ", ") (group_of 1 f ∷ group_of 2 f ∷ group_of 3 f ∷ [])))

first_place : Option Place → Option Place → Option Place
first_place none b = b
first_place (some a) b = some a

unfoldable pub parse_kill_location : Props → Role → Option Place
unfolding first_place place_label place_of_label
parse_kill_location event role =
    first_place (parse_location_value (pick event (place_keys role) (str []))) (
      first_place
        (finite_place (axis_number event role (codes "X") (codes "x"))
          (axis_number event role (codes "Y") (codes "y"))
          (axis_number event role (codes "Z") (codes "z")))
        (place_of_label (search (place_label role) (kill_event_text_blob event))))

-- `String(event.source || event.logFile || '').toLowerCase()`
unfoldable pub kill_source : Props → Text
kill_source event =
    lower (to_text (first_true (codes "source" ∷ codes "logFile" ∷ []) event or_else str []))

points : ℕ → Bool → ℕ
points n b = if b then n else 0

unfoldable pub kill_event_quality : Props → ℕ
unfolding points
kill_event_quality event =
    let source = kill_source event in
    points 10 (truthy (parse_kill_weapon event))
    + points 8 (is_some (parse_kill_distance event))
    + points 4 (is_some (parse_kill_location event killer))
    + points 4 (is_some (parse_kill_location event victim))
    + points 8 (includes source (codes "savefile") || includes source (codes "kill_"))
    + points 8 (includes (to_text (get (codes "raw") event or_else str [])) (codes "Weapon:"))

unfoldable pub is_transient_server_kill_event : Props → Bool
is_transient_server_kill_event event =
    let source = lower (to_text (get (codes "source") event or_else str [])) in
    let log_file = lower (to_text (get (codes "logFile") event or_else str [])) in
    includes source (codes "server-log")
    && ((log_file === codes "scum.log")
        && (tests (word (codes "was killed by")) (kill_raw_text event)
            && (not (truthy (parse_kill_weapon event))
                && (not (is_some (parse_kill_distance event))
                    && (not (is_some (parse_kill_location event killer))
                        && not (is_some (parse_kill_location event victim)))))))
