-- ===== src/Players.antt =====
-- The players of a reply, and the player that an action is about: `playersFromPayload` up to
-- `setSelectedPlayerTarget`, `pick`, `playerTargetBody`, `selectedPlayerBody`,
-- `serviceTargetPlayer`, `modalTargetBody` and `valueFromKeys` of
-- src/ScumWarden.Server/wwwroot/app.js. A player is the properties of its object.
pub mod Target
pub mod Lookup
pub mod Laws
pub mod Inserts
pub mod Tests
use scum_ne_djin_release.Prelude.{
  ℕ, suc, ◌+◌, ◌-◌, Bool, true, false, not, ◌&&◌, ◌||◌, List, [], ◌∷◌, ◌++◌, Option, none, some,
  if◌then◌else◌, ◌==◌, length, drop, find, all,
}
use scum_ne_djin_release.Text.{
  Text, codes, ◌===◌, truthy, trim, trim_start, lower, includes, is_space, is_digit,
}
use scum_ne_djin_release.Js.{Value, undefined, null, bool, num, str, arr, obj, Props, items}
use scum_ne_djin_release.Js.Numbers.{print_nat}
use scum_ne_djin_release.Js.Objects.{get, insert, props_of, has_own, keys}
use scum_ne_djin_release.Js.Convert.{is_true, is_nullish, to_text, ◌or_else◌, text_of_keys}

unfoldable pub is_set : Value → Bool
is_set (str s) = truthy s
is_set v = not (is_nullish v)

unfoldable pub pick : Props → List Text → Value → Value
pick p [] fallback = fallback
pick p (k ∷ ks) fallback =
    let rest = pick p ks fallback in if is_set (get k p) then get k p else rest

unfoldable pub clean_player_string : Value → Text
clean_player_string v = trim (if is_nullish v then [] else to_text v)

abbrev pub steam_keys : List Text
steam_keys = codes "steamId" ∷ codes "SteamId" ∷ codes "steam" ∷ []

abbrev pub name_keys : List Text
name_keys = codes "name" ∷ codes "Name" ∷ codes "playerName" ∷ []

abbrev pub profile_keys : List Text
profile_keys =
    codes "userProfileId" ∷ codes "serverUserProfileId" ∷ codes "profileId" ∷ codes "ProfileId" ∷ []

abbrev pub runtime_keys : List Text
runtime_keys = codes "runtimeKey" ∷ codes "RuntimeKey" ∷ []

-- `clean(pick(player, keys, ''))`
unfoldable pub clean_of : Props → List Text → Text
clean_of p ks = clean_player_string (pick p ks (str []))

-- What follows the given start of a text.
unfoldable pub after : Text → Text → Option Text
after [] s = some s
after (a ∷ w) [] = none
after (a ∷ w) (c ∷ s) = let rest = after w s in if a == c then rest else none

-- What follows `\s+`.
unfoldable pub after_spaces : Text → Option Text
after_spaces [] = none
after_spaces (c ∷ s) = if is_space c then some (trim_start s) else none

then_digits : Option Text → Bool
then_digits none = false
then_digits (some s) = truthy s && all is_digit s

then_hash : Option Text → Bool
unfolding then_digits
then_hash none = false
then_hash (some s) = then_digits (after (codes "#") s)

-- `/^\s+#\d+$/`
is_number_mark : Text → Bool
unfolding then_hash
is_number_mark s = then_hash (after_spaces s)

live_number : Option Text → Bool
unfolding is_number_mark
live_number none = false
live_number (some s) = is_number_mark s

then_live : Option Text → Bool
unfolding is_number_mark
then_live none = false
then_live (some s) = not (truthy s) || is_number_mark s

then_space_live : Option Text → Bool
unfolding then_live
then_space_live none = false
then_space_live (some s) = then_live (after (codes "live") s)

unknown_live : Option Text → Bool
unfolding then_space_live
unknown_live none = false
unknown_live (some s) = then_space_live (after_spaces s)

unfoldable pub is_placeholder_player_name : Value → Bool
unfolding unknown_live live_number
is_placeholder_player_name name =
    let value = lower (clean_player_string name) in
    not (truthy value)
    || (value === codes "unknown"
        || (unknown_live (after (codes "unknown") value)
            || live_number (after (codes "live") value)))

-- `id && id !== '0'`
unfoldable pub is_id : Text → Bool
is_id s = truthy s && not (s === codes "0")

unfoldable pub is_runtime_only_player : Props → Bool
is_runtime_only_player p =
    let source = lower (clean_of p (codes "source" ∷ codes "identitySource" ∷ [])) in
    let live_source =
      includes source (codes "ue4ss")
      || (includes source (codes "runtime") || includes source (codes "live")) in
    let missing =
      not (is_id (clean_of p steam_keys))
      && (not (is_id (clean_of p profile_keys))
          && is_placeholder_player_name (str (clean_of p name_keys))) in
    is_true (get (codes "runtimeOnly") p)
    || (includes source (codes "runtime-only")
        || (missing && (truthy (clean_of p runtime_keys) || live_source)))

unfoldable pub is_renderable_player : Props → Bool
is_renderable_player p =
    let name = clean_of p name_keys in
    is_id (clean_of p steam_keys)
    || (is_id (clean_of p profile_keys)
        || ((truthy name && not (is_placeholder_player_name (str name)))
            || is_runtime_only_player p))

unfoldable pub live_suffix : Props → ℕ → Text
live_suffix p index =
    let key = clean_of p runtime_keys in
    if truthy key then drop (length key - 6) key else print_nat (index + 1)

unfoldable pub with_live_name : Props → ℕ → Props
with_live_name p index =
    let named = insert (codes "name") (str (codes "Unknown live #" ++ live_suffix p index)) p in
    let marked = insert (codes "runtimeOnly") (bool true) named in
    insert (codes "identitySource")
      (str (
        clean_player_string
          (get (codes "identitySource") marked or_else str (codes "runtime-only"))))
      marked

unfoldable pub normalize_player_for_display : Props → ℕ → Option Props
normalize_player_for_display p index =
    let shown =
      if is_placeholder_player_name (str (clean_of p name_keys)) && is_runtime_only_player p
      then with_live_name p index
      else p in
    if is_renderable_player p then some shown else none

-- `players` of a reply, whichever envelope it is in.
under : Text → Value → Value
under k v = if is_true v then get k (props_of v) else v

players_in : Value → Option (List Value)
players_in (arr vs) = some (items vs)
players_in v =
    list_or_result (get (codes "players") (props_of v))
      (get (codes "players") (props_of (get (codes "result") (props_of v))))
  where
    list_or_result : Value → Value → Option (List Value)
    list_or_result (arr vs) w = some (items vs)
    list_or_result v (arr ws) = some (items ws)
    list_or_result v w = none

first_players : List Value → List Value
unfolding players_in
first_players [] = []
first_players (v ∷ vs) = first_players_or (players_in v) (first_players vs)
  where
    first_players_or : Option (List Value) → List Value → List Value
    first_players_or none rest = rest
    first_players_or (some ps) rest = ps

unfoldable pub players_from_payload : Value → List Value
unfolding first_players under
players_from_payload reply =
    let payload = under (codes "payload") reply in
    let inner = under (codes "data") reply in
    first_players (
      reply
      ∷ payload
      ∷ inner
      ∷ under (codes "data") payload
      ∷ under (codes "data") inner
      ∷ under (codes "payload") payload
      ∷ [])
