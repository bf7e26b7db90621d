-- ===== src/KillFeed/Fields.antt =====
-- The fields of a kill out of the game's log: `parseScumTimestampUtc`, `scumLogLocation`,
-- `scumLogDistanceMeters`, `killCauseLabel` and the objects that `parseScumKillJsonText` and
-- `parseScumKillLogText` return, of src/ScumWarden.Server/wwwroot/app.js. `Math.sqrt` is an
-- argument.
use scum_ne_djin_release.Prelude.{
  ℕ, ◌+◌, ◌*◌, false, not, ◌&&◌, ◌||◌, [], ◌∷◌, ◌++◌, Option, none, some, if◌then◌else◌,
}
use scum_ne_djin_release.Text.{Text, codes, ◌===◌, truthy, ◌orelse◌, trim, lower, is_digit}
use scum_ne_djin_release.Js.{Value, null, num, str, obj, Props, to_fields}
use scum_ne_djin_release.Js.Numbers.{Number, nan, infinite, fin, is_finite}
use scum_ne_djin_release.Js.Numbers.Arith.{add}
use scum_ne_djin_release.Js.Regex.{
  Regex, unit, group, Found, search, group_of, lit, all_of, plus, none_of, exactly,
}
use scum_ne_djin_release.Js.Objects.{get, props_of}
use scum_ne_djin_release.Js.Convert.{to_number, ◌nullish_else◌}
use scum_ne_djin_release.Chat.{first_text}
use scum_ne_djin_release.KillFeed.{clean_scum_weapon, is_steam}
use scum_ne_djin_release.KillFeed.Details.{Place, finite_place}

digit_run : ℕ → ℕ → Regex
digit_run n count = group n (exactly count (unit is_digit))

-- `(\d{4})\.(\d{2})\.(\d{2})-(\d{2})\.(\d{2})\.(\d{2})`
stamp : Regex
unfolding digit_run
stamp = all_of (
    digit_run 1 4
    ∷ lit (codes ".")
    ∷ digit_run 2 2
    ∷ lit (codes ".")
    ∷ digit_run 3 2
    ∷ lit (codes "-")
    ∷ digit_run 4 2
    ∷ lit (codes ".")
    ∷ digit_run 5 2
    ∷ lit (codes ".")
    ∷ digit_run 6 2
    ∷ [])

stamp_text : Option Found → Text
stamp_text none = []
stamp_text (some f) =
    group_of 1 f
    ++ codes "-"
    ++ group_of 2 f
    ++ codes "-"
    ++ group_of 3 f
    ++ codes "T"
    ++ group_of 4 f
    ++ codes ":"
    ++ group_of 5 f
    ++ codes ":"
    ++ group_of 6 f
    ++ codes "Z"

unfoldable pub parse_scum_timestamp_utc : Text → Text
unfolding stamp_text stamp digit_run
parse_scum_timestamp_utc s = stamp_text (search stamp s)

unfoldable pub scum_log_location : Value → Option Place
scum_log_location v =
    let at = λ (big : Text) (small : Text).
      to_number (get big (props_of v) nullish_else get small (props_of v)) in
    finite_place (at (codes "X") (codes "x")) (at (codes "Y") (codes "y"))
      (at (codes "Z") (codes "z"))

minus : Number → Number
minus nan = nan
minus (infinite neg) = infinite (not neg)
minus (fin neg units scale) = fin (not neg) units scale

square : Number → Number
square nan = nan
square (infinite neg) = infinite false
square (fin neg units scale) = fin false (units * units) (scale + scale)

hundredth_of : Number → Number
hundredth_of (fin neg units scale) = fin neg units (scale + 2)
hundredth_of n = n

unfoldable pub scum_log_distance_meters :
    (Number → Number) → Option Place → Option Place → Option Number
unfolding minus square hundredth_of
scum_log_distance_meters sqrt (some a) (some b) =
    let dx = add a.x (minus b.x) in
    let dy = add a.y (minus b.y) in
    if is_finite dx && is_finite dy
    then some (hundredth_of (sqrt (add (square dx) (square dy))))
    else none
scum_log_distance_meters sqrt a b = none

unfoldable pub kill_cause_label : Text → Text
kill_cause_label s =
    let text = trim s in
    let low = lower text in
    first_text
      ((low === codes "projectile", codes "пуля/снаряд")
        ∷ (low === codes "melee", codes "ближний бой")
        ∷ (low === codes "explosion", codes "взрыв")
        ∷ (low === codes "vehicle", codes "транспорт")
        ∷ (low === codes "fall", codes "падение")
        ∷ (low === codes "suicide", codes "самоубийство")
        ∷ ((low === codes "zombie") || (low === codes "puppet"), codes "зомби")
        ∷ (low === codes "sentry", codes "сентри")
        ∷ (low === codes "animal", codes "животное")
        ∷ (
          (low === codes "npc")
              || ((low === codes "pve")
                  || ((low === codes "monster") || (low === codes "drifter"))),
          codes "NPC/монстр",
        )
        ∷ [])
      text

-- `value.trim()` if it is a Steam id
unfoldable pub steam_or_empty : Text → Text
steam_or_empty s = if is_steam (trim s) then trim s else []

unfoldable pub cause_found : Option Found → Text
cause_found none = []
cause_found (some f) = group_of 1 f

-- `(text.match(/\[([^\]]+)\]/) || [])[1] || ''`
unfoldable pub cause_of : Text → Text
unfolding cause_found
cause_of s = cause_found (
    search (all_of (lit (codes "[") ∷ group 1 (plus (none_of (codes "]"))) ∷ lit (codes "]") ∷ []))
      s)

place_value : Option Place → Value
place_value none = null
place_value (some p) =
    obj (to_fields ((codes "x", num p.x) ∷ (codes "y", num p.y) ∷ (codes "z", num p.z) ∷ []))

distance_value : Option Number → Value
distance_value none = str []
distance_value (some n) = num n

-- The message, and the names and ids that each parsed line has; `unnamed` is what stands for a
-- killer without a name.
unfoldable pub who_fields : Text → Text → Text → Text → Text → Props
who_fields unnamed killer_name killer_steam victim_name victim_steam =
    (
      codes "message",
      str (
          if truthy killer_steam && (truthy victim_steam && (killer_steam === victim_steam))
          then victim_name ++ codes " погиб"
          else (killer_name orelse unnamed) ++ codes " убил " ++ victim_name),
    )
    ∷ (codes "killerName", str killer_name)
    ∷ (codes "killerSteamId", str killer_steam)
    ∷ (codes "victimName", str victim_name)
    ∷ (codes "victimSteamId", str victim_steam)
    ∷ []

unfoldable pub how_fields : Text → Option Number → Option Place → Option Place → Props
unfolding place_value distance_value
how_fields weapon_raw distance killer_place victim_place =
    (codes "weapon", str (clean_scum_weapon (str weapon_raw)))
    ∷ (codes "weaponRaw", str weapon_raw)
    ∷ (codes "cause", str (cause_of weapon_raw))
    ∷ (codes "deathType", str (kill_cause_label (cause_of weapon_raw)))
    ∷ (codes "distance", distance_value distance)
    ∷ (codes "distanceMeters", distance_value distance)
    ∷ (codes "killerLocation", place_value killer_place)
    ∷ (codes "victimLocation", place_value victim_place)
    ∷ (codes "source", str (codes "savefile-kill-log"))
    ∷ []
