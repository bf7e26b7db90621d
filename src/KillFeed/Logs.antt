-- ===== src/KillFeed/Logs.antt =====
-- Kills out of the game's log lines: `parseScumKillJsonText`, `parseScumKillLogText` and
-- `hydrateKillEvent` of src/ScumWarden.Server/wwwroot/app.js. `JSON.parse` and `Math.sqrt` are
-- arguments.
use scum_ne_djin_release.Prelude.{
  ℕ, ◌+◌, true, false, ◌&&◌, List, [], ◌∷◌, ◌++◌, Option, none, some, if◌then◌else◌, take,
}
use scum_ne_djin_release.Text.{Text, codes, truthy, trim, starts_with}
use scum_ne_djin_release.Js.{Value, str, Props}
use scum_ne_djin_release.Js.Numbers.{Number}
use scum_ne_djin_release.Js.Regex.{
  Regex, unit, at_start, group, Found, search, group_of, lit, word, all_of, plus, maybe, many,
  blanks, blanks1, dot, none_of, one_of, star, digits1,
}
use scum_ne_djin_release.Js.Objects.{get, assign, props_of}
use scum_ne_djin_release.Js.Convert.{to_text, to_number, is_true, ◌or_else◌}
use scum_ne_djin_release.Json.{find_json_object_end}
use scum_ne_djin_release.KillFeed.{clean_kill_participant_name, kill_raw_text, steam_digits}
use scum_ne_djin_release.KillFeed.Details.{Place, comma_to_dot, normalize_kill_distance_meters}
use scum_ne_djin_release.KillFeed.Fields.{
  parse_scum_timestamp_utc, scum_log_location, scum_log_distance_meters, steam_or_empty,
  cause_found, who_fields, how_fields,
}

time_field : Text → Props → Text × Value
time_field raw event = (
  codes "timestampUtc",
  str (parse_scum_timestamp_utc raw) or_else get (codes "timestampUtc") event,
)

-- The text from the first `{"Killer"` on.
from_killer : Text → Option Text
from_killer [] = none
from_killer (c ∷ s) =
    let later = from_killer s in
    if starts_with (c ∷ s) (codes "{\"Killer\"") then some (c ∷ s) else later

-- `-?\d+(?:[.,]\d+)?`
coordinate : ℕ → Regex
coordinate n = group n (
    all_of (
      maybe (lit (codes "-")) ∷ digits1 ∷ maybe (all_of (one_of (codes ".,") ∷ digits1 ∷ [])) ∷ []))

comma_blanks : Regex
comma_blanks = all_of (blanks ∷ lit (codes ",") ∷ blanks ∷ [])

three_from : ℕ → Regex
unfolding coordinate comma_blanks
three_from n =
    all_of
      (coordinate n ∷ comma_blanks ∷ coordinate (n + 1) ∷ comma_blanks ∷ coordinate (n + 2) ∷ [])

-- `label:\s*(.*?)\s*\(([^)]*)\)`
named_id : Text → ℕ → Regex
named_id label n = all_of (
    word label
    ∷ blanks
    ∷ group n (many false dot)
    ∷ blanks
    ∷ lit (codes "(")
    ∷ group (n + 1) (star (none_of (codes ")")))
    ∷ lit (codes ")")
    ∷ [])

place_label : Text → ℕ → Regex
unfolding three_from coordinate comma_blanks
place_label label n =
    all_of (word label ∷ blanks ∷ maybe (lit (codes ":")) ∷ blanks ∷ three_from n ∷ [])

unfoldable pub detailed_line : Regex
unfolding named_id place_label three_from coordinate comma_blanks
detailed_line = all_of (
    named_id (codes "Died:") 1
    ∷ lit (codes ",")
    ∷ blanks
    ∷ named_id (codes "Killer:") 3
    ∷ blanks
    ∷ word (codes "Weapon:")
    ∷ blanks
    ∷ group 5 (many false (unit (λ c. true)))
    ∷ blanks1
    ∷ word (codes "S")
    ∷ maybe (lit (codes ":"))
    ∷ maybe (lit (codes "["))
    ∷ blanks
    ∷ place_label (codes "KillerLoc") 6
    ∷ blanks1
    ∷ place_label (codes "VictimLoc") 9
    ∷ blanks
    ∷ maybe (lit (codes ","))
    ∷ blanks
    ∷ word (codes "Distance")
    ∷ blanks
    ∷ lit (codes ":")
    ∷ blanks
    ∷ group 12 (all_of (digits1 ∷ maybe (all_of (one_of (codes ".,") ∷ digits1 ∷ [])) ∷ []))
    ∷ blanks
    ∷ word (codes "m")
    ∷ [])

group_number : ℕ → Found → Number
group_number n f = to_number (str (comma_to_dot (group_of n f)))

group_place : ℕ → Found → Option Place
unfolding group_number
group_place n f =
    some (record { x = group_number n f; y = group_number (n + 1) f; z = group_number (n + 2) f })

quoted : ℕ → Regex
quoted n =
    all_of
      (one_of (codes "'\"") ∷ group n (plus (none_of (codes "'\""))) ∷ one_of (codes "'\"") ∷ [])

short_line : Regex
unfolding quoted
short_line = all_of (quoted 1 ∷ blanks1 ∷ word (codes "was killed by") ∷ blanks1 ∷ quoted 2 ∷ [])

-- `(text.match(/^(\d{16,20})\s*:/) || [])[1] || ''`
leading_steam : Text → Text
unfolding cause_found
leading_steam s =
    cause_found
      (search (all_of (at_start ∷ group 1 steam_digits ∷ blanks ∷ lit (codes ":") ∷ [])) s)

either_props : Option Props → Option Props → Option Props
either_props none b = b
either_props (some a) b = some a

module _ (decode : List ℕ → Option Text) where
  clean : Text → Text
  clean s = clean_kill_participant_name decode (str s)

  detailed_fields : Text → Props → Option Found → Option Props
  unfolding clean time_field steam_or_empty group_place group_number
  detailed_fields raw event none = none
  detailed_fields raw event (some f) = some (
      time_field raw event
        ∷ who_fields (codes "NPC") (clean (group_of 3 f)) (steam_or_empty (group_of 4 f))
            (clean (group_of 1 f)) (steam_or_empty (group_of 2 f))
      ++ how_fields (trim (group_of 5 f)) (normalize_kill_distance_meters (str (group_of 12 f)))
          (group_place 6 f) (group_place 9 f)
      ++ (codes "raw", str raw) ∷ [])

  short_fields : Text → Props → Option Found → Option Props
  unfolding clean time_field leading_steam cause_found
  short_fields raw event none = none
  short_fields raw event (some f) =
      let victim = trim (group_of 1 f) in
      let killer = trim (group_of 2 f) in
      some (
        time_field raw event
          ∷ who_fields [] (clean killer) (leading_steam killer) (clean victim)
              (leading_steam victim)
        ++ (codes "source", get (codes "source") event or_else str (codes "server-log"))
          ∷ (codes "raw", str raw)
          ∷ [])

  module _ (parse : Text → Option Value) (sqrt : Number → Number) where
    -- `killer.ProfileName || killer.UserId || ''`
    profile_name : Value → Value
    profile_name v =
        get (codes "ProfileName") (props_of v)
        or_else (get (codes "UserId") (props_of v) or_else str [])

    profile_steam : Value → Text
    unfolding steam_or_empty
    profile_steam v = steam_or_empty (to_text (get (codes "UserId") (props_of v) or_else str []))

    json_kill_fields : Text → Props → Props → Option Props
    unfolding profile_name profile_steam steam_or_empty time_field
    json_kill_fields raw event p =
        let killer = get (codes "Killer") p in
        let victim = get (codes "Victim") p in
        let killer_place = scum_log_location (get (codes "ServerLocation") (props_of killer)) in
        let victim_place = scum_log_location (get (codes "ServerLocation") (props_of victim)) in
        let victim_name = clean_kill_participant_name decode (profile_name victim) in
        if is_true killer && (is_true victim && truthy victim_name)
        then some (
            time_field raw event
              ∷ who_fields (codes "NPC") (clean_kill_participant_name decode (profile_name killer))
                  (profile_steam killer) victim_name (profile_steam victim)
            ++ how_fields (to_text (get (codes "Weapon") p or_else str []))
                (scum_log_distance_meters sqrt killer_place victim_place) killer_place victim_place
            ++ (codes "raw", str raw) ∷ [])
        else none

    parsed_kill : Text → Props → Option Value → Option Props
    unfolding json_kill_fields
    parsed_kill raw event none = none
    parsed_kill raw event (some v) = json_kill_fields raw event (props_of v)

    kill_chunk : Text → Props → Text → Option ℕ → Option Props
    unfolding parsed_kill
    kill_chunk raw event s none = none
    kill_chunk raw event s (some end) = parsed_kill raw event (parse (take (end + 1) s))

    kill_json_from : Text → Props → Option Text → Option Props
    unfolding kill_chunk
    kill_json_from raw event none = none
    kill_json_from raw event (some s) = kill_chunk raw event s (find_json_object_end s 0)

    unfoldable pub parse_scum_kill_json_text : Text → Props → Option Props
    unfolding kill_json_from from_killer kill_chunk parsed_kill json_kill_fields profile_name
        profile_steam steam_or_empty time_field
    parse_scum_kill_json_text raw event = kill_json_from raw event (from_killer raw)

    unfoldable pub parse_scum_kill_log_text : Props → Option Props
    unfolding either_props detailed_fields short_fields short_line clean time_field steam_or_empty
        group_place group_number leading_steam cause_found quoted
    parse_scum_kill_log_text event =
        let raw = kill_raw_text event in
        if truthy raw
        then either_props (parse_scum_kill_json_text raw event) (
            either_props (detailed_fields raw event (search detailed_line raw))
              (short_fields raw event (search short_line raw)))
        else none

    hydrated : Props → Option Props → Props
    hydrated event none = event
    hydrated event (some fields) = assign event fields

    unfoldable pub hydrate_kill_event : Props → Props
    unfolding hydrated
    hydrate_kill_event event = hydrated event (parse_scum_kill_log_text event)
