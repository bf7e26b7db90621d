-- ===== src/Players/Target.antt =====
-- The player that an action is about.
use scum_ne_djin_release.Prelude.{
  ◌*◌, ◌+◌, ◌^◌, Bool, true, false, not, ◌&&◌, ◌||◌, List, [], ◌∷◌, ◌++◌, Option, none, some,
  if◌then◌else◌, length, find, all, leb, ltb,
}
use scum_ne_djin_release.Text.{Text, codes, ◌===◌, truthy, trim, lower, includes, is_digit, has}
use scum_ne_djin_release.Js.{Value, null, num, str, Props}
use scum_ne_djin_release.Js.Numbers.{Number, nan, fin, int, is_finite}
use scum_ne_djin_release.Js.Objects.{get}
use scum_ne_djin_release.Js.Convert.{
  to_text, to_number, ◌or_else◌, ◌nullish_else◌, first_true, text_of_keys,
}
use scum_ne_djin_release.Players.{pick, steam_keys, name_keys, profile_keys, runtime_keys}

first_given : List Text → Props → Value
first_given [] p = num (int 0)
first_given (k ∷ ks) p = get k p nullish_else first_given ks p

coordinate : List Text → Props → Number
unfolding first_given
coordinate ks p = let n = to_number (first_given ks p) in if is_finite n then n else int 0

abbrev axis : Text → Text → List Text
axis low up = low ∷ up ∷ (codes "location" ++ up) ∷ (codes "Location" ++ up) ∷ []

pub record Coords : Type 0 where
  pub x : Number
  pub y : Number
  pub z : Number

unfoldable pub player_coords : Props → Coords
unfolding coordinate
player_coords p = record {
  x = coordinate (axis (codes "x") (codes "X")) p;
  y = coordinate (axis (codes "y") (codes "Y")) p;
  z = coordinate (axis (codes "z") (codes "Z")) p;
}

-- `Math.abs(x) + Math.abs(y) > 1`, in exact arithmetic
far_from_origin : Number → Number → Bool
far_from_origin (fin n u s) (fin m v t) = ltb (10 ^ (s + t)) (u * 10 ^ t + v * 10 ^ s)
far_from_origin n m = false

unfoldable pub player_has_map_position : Props → Bool
unfolding far_from_origin
player_has_map_position p =
    let source =
      lower
        (to_text (pick p (codes "positionSource" ∷ codes "source" ∷ []) (str []) or_else str [])) in
    not (includes source (codes "no-location"))
    && far_from_origin (to_number (pick p (axis (codes "x") (codes "X")) (num nan)))
        (to_number (pick p (axis (codes "y") (codes "Y")) (num nan)))

unfoldable pub has_identity : Text → Text → Text → Props → Bool
has_identity steam name runtime p =
    (truthy steam && text_of_keys steam_keys p === steam)
    || ((truthy runtime && text_of_keys runtime_keys p === runtime)
        || (truthy name && lower (text_of_keys name_keys p) === lower name))

unfoldable pub find_player_by_identity : List Props → Text → Text → Text → Option Props
find_player_by_identity players steam name runtime =
    find (λ p. has_identity steam name runtime p) players

is_found : Option Props → Bool
is_found none = false
is_found (some p) = true

unfoldable pub is_player_online : List Props → Text → Text → Text → Bool
unfolding is_found
is_player_online players steam name runtime =
    is_found (find_player_by_identity players steam name runtime)

pub record Selected : Type 0 where
  pub steam_id : Value
  pub name : Value
  pub runtime_key : Value
  pub profile_id : Value
  pub target : Value
  pub online : Bool
  pub coords : Coords

unfoldable pub live_of : Option Props → Option Props → Props
live_of (some p) q = p
live_of none (some q) = q
live_of none none = []

unfoldable pub given_or : Text → Props → List Text → Value
given_or s p ks = str s or_else pick p ks (str []) or_else str []

unfoldable pub set_selected_player_target :
    List Props → Text → Text → Text → Text → Option Props → Selected
unfolding live_of given_or is_found
set_selected_player_target players steam name runtime profile player =
    let found = find_player_by_identity players steam name runtime in
    let live = live_of found player in
    record {
      steam_id = given_or steam live steam_keys;
      name = given_or name live name_keys;
      runtime_key = given_or runtime live runtime_keys;
      profile_id = given_or profile live profile_keys;
      target = str steam or_else given_or name live (steam_keys ++ name_keys);
      online = is_found found;
      coords = player_coords live;
    }

-- The text that the selection writes to the inputs.
unfoldable pub target_input : Selected → Text
target_input s = to_text (s.target or_else s.steam_id or_else s.name or_else str [])

unfoldable pub normalize_target_text : Text → Text
normalize_target_text target =
    let value = trim target in
    if has
      (codes "name"
        ∷ codes "steamid"
        ∷ codes "steam_id"
        ∷ codes "targetname"
        ∷ codes "targetsteamid"
        ∷ codes "player"
        ∷ [])
      (lower value)
    then []
    else value

-- The part of a request that names a player.
pub record TargetBody : Type 0 where
  pub steam_id : Value
  pub name : Value
  pub runtime_key : Value

unfoldable pub is_target : Text → Props → Bool
is_target target p =
    (text_of_keys steam_keys p === target)
    || ((lower (text_of_keys name_keys p) === lower target)
        || (text_of_keys runtime_keys p === target))

-- `/^\d{16,20}$/`
unfoldable pub is_steam_id : Text → Bool
is_steam_id s = leb 16 (length s) && (leb (length s) 20 && all is_digit s)

unfoldable pub body_of : Text → Option Props → TargetBody
body_of target (some p) = record {
  steam_id = first_true steam_keys p or_else null;
  name = first_true name_keys p or_else null;
  runtime_key = first_true runtime_keys p or_else null;
}
body_of target none = record {
  steam_id = if is_steam_id target then str target else null;
  name = if is_steam_id target then null else str target;
  runtime_key = null;
}

unfoldable pub player_target_body : List Props → Text → TargetBody
player_target_body players target =
    let wanted = normalize_target_text target in
    body_of wanted (find (λ p. truthy wanted && is_target wanted p) players)

unfoldable pub service_target_body : List Props → Text → TargetBody
service_target_body players input = player_target_body players (trim input)

unfoldable pub service_target_player : List Props → Text → Option Props
service_target_player players input =
    let target = normalize_target_text (trim input) in
    if truthy target then find (λ p. is_target target p) players else none

-- `profileId`, `userProfileId` and `serverUserProfileId` carry the same value; a body made from
-- typed text has none of them.
pub record ActionBody : Type 0 where
  pub who : TargetBody
  pub profile_id : Option Value

unfoldable pub selected_player_body : Selected → ActionBody
selected_player_body s = record {
  who = record {
    steam_id = s.steam_id or_else null;
    name = s.name or_else null;
    runtime_key = s.runtime_key or_else null;
  };
  profile_id = some (s.profile_id or_else null);
}

-- `text === v`
unfoldable pub is_text : Text → Value → Bool
is_text s (str r) = s === r
is_text s v = false

typed_body : List Props → Text → ActionBody
typed_body players target = record { who = player_target_body players target; profile_id = none }

unfoldable pub modal_target_body : List Props → Option Selected → Text → ActionBody
unfolding typed_body
modal_target_body players none input = typed_body players (trim input)
modal_target_body players (some s) input =
    let target = trim input in
    if is_text target s.target || (is_text target s.steam_id || is_text target s.name)
    then selected_player_body s
    else typed_body players target
