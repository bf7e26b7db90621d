-- ===== src/Welcome.antt =====
-- Who has received the welcome pack: `welcomeIdentityFrom` up to `welcomePackStatusFor`, and the
-- state that `refreshWelcomeTimers` leaves, of src/ScumWarden.Server/wwwroot/app.js. The panel
-- keeps its own rows until the server's list shows them.
pub mod Laws
pub mod Tests
use scum_ne_djin_release.Prelude.{
  Bool, true, false, not, ◌&&◌, ◌||◌, List, [], ◌∷◌, ◌++◌, Option, none, some, if◌then◌else◌,
  filter, any, ltb,
}
use scum_ne_djin_release.Text.{Text, codes, ◌===◌, truthy, trim, lower}
use scum_ne_djin_release.Js.{Value, undefined, null, bool, num, str, arr, obj, Props, items}
use scum_ne_djin_release.Js.Numbers.{Number}
use scum_ne_djin_release.Js.Objects.{get, props_of}
use scum_ne_djin_release.Js.Convert.{to_text, ◌or_else◌, first_true, text_of_keys}
use scum_ne_djin_release.Players.{steam_keys, name_keys, profile_keys}
use scum_ne_djin_release.Players.Target.{find_player_by_identity}

pub record Identity : Type 0 where
  pub steam : Text
  pub name : Text
  pub profile : Text

unfoldable pub welcome_identity_from : Props → Identity
welcome_identity_from row = record {
  steam = trim (text_of_keys (codes "steamId" ∷ codes "steam" ∷ codes "targetSteamId" ∷ []) row);
  name =
      lower (trim (text_of_keys (codes "name" ∷ codes "targetName" ∷ codes "playerName" ∷ []) row));
  profile = trim (text_of_keys profile_keys row);
}

live_value : List Text → Option Props → Value
live_value ks none = null
live_value ks (some p) = first_true ks p

-- `String(target && target[key] || live && (live.a || live.b …) || '')`
target_text : Text → List Text → Props → Option Props → Text
unfolding live_value
target_text k ks target live = to_text (get k target or_else (live_value ks live or_else str []))

unfoldable pub welcome_target_identity : List Props → Option Props → Identity
unfolding target_text
welcome_target_identity players none = record { steam = []; name = []; profile = [] }
welcome_target_identity players (some target) =
    let live =
      find_player_by_identity players (text_of_keys (codes "steamId" ∷ []) target)
        (text_of_keys (codes "name" ∷ []) target) (text_of_keys (codes "runtimeKey" ∷ []) target) in
    record {
      steam = trim (target_text (codes "steamId") steam_keys target live);
      name = lower (trim (target_text (codes "name") name_keys target live));
      profile = trim (target_text (codes "profileId") profile_keys target live);
    }

-- `a && b && a === b`
unfoldable pub both_same : Text → Text → Bool
both_same a b = truthy a && (truthy b && a === b)

unfoldable pub same_person : Identity → Identity → Bool
unfolding both_same
same_person wanted found =
    both_same wanted.steam found.steam
    || (both_same wanted.profile found.profile || both_same wanted.name found.name)

unfoldable pub welcome_row_matches_target : Identity → Props → Bool
welcome_row_matches_target wanted row = same_person wanted (welcome_identity_from row)

pub record Welcome : Type 0 where
  pub timers : List Props
  pub optimistic : List Props
  pub loaded : Bool
  pub loading : Bool

unfoldable pub merge_rows : List Props → List Props → List Props
merge_rows rows [] = rows
merge_rows rows (o ∷ os) =
    let known = any (welcome_row_matches_target (welcome_identity_from o)) rows in
    merge_rows (if known then rows else rows ++ (o ∷ [])) os

unfoldable pub merge_welcome_timers_with_optimistic : Welcome → List Props → List Props
merge_welcome_timers_with_optimistic w timers = merge_rows timers w.optimistic

-- The state once both replies of `refreshWelcomeTimers` are there; a failed request counts as an
-- empty list.
unfoldable pub refresh_welcome_timers : List Props → Welcome → Welcome
refresh_welcome_timers timers w = record {
  timers = merge_welcome_timers_with_optimistic w timers;
  optimistic = w.optimistic;
  loaded = true;
  loading = false;
}

-- The row that the panel adds itself, at the time `now`.
unfoldable pub received_row : Text → Number → Props → Props
received_row now at target =
    (codes "utc", str now)
    ∷ (codes "at", num at)
    ∷ (
      codes "steamId",
      get (codes "steamId") target or_else (get (codes "steam") target or_else str []),
    )
    ∷ (codes "name", get (codes "name") target or_else str [])
    ∷ (
      codes "userProfileId",
      get (codes "profileId") target or_else (get (codes "userProfileId") target or_else str []),
    )
    ∷ (codes "optimistic", bool true)
    ∷ []

unfoldable pub mark_welcome_pack_received_local : Text → Number → Props → Welcome → Welcome
mark_welcome_pack_received_local now at target w =
    let row = received_row now at target in
    let others =
      filter (λ r. not (welcome_row_matches_target (welcome_identity_from row) r)) w.optimistic in
    record {
      timers = merge_rows w.timers (others ++ (row ∷ []));
      optimistic = others ++ (row ∷ []);
      loaded = true;
      loading = false;
    }

unfoldable pub clear_welcome_pack_received_local : List Props → Option Props → Welcome → Welcome
clear_welcome_pack_received_local players target w =
    let wanted = welcome_target_identity players target in
    record {
      timers = filter (λ r. not (welcome_row_matches_target wanted r)) w.timers;
      optimistic = filter (λ r. not (welcome_row_matches_target wanted r)) w.optimistic;
      loaded = w.loaded;
      loading = w.loading;
    }

unfoldable pub is_blank : Identity → Bool
is_blank i = not (truthy i.steam) && (not (truthy i.name) && not (truthy i.profile))

pub record Status : Type 0 where
  pub received : Bool
  pub timer : Option Props

unfoldable pub head_of : List Props → Option Props
head_of [] = none
head_of (r ∷ rs) = some r

unfoldable pub is_filled_list : List Props → Bool
is_filled_list [] = false
is_filled_list (r ∷ rs) = true

-- `before a b` is `a.localeCompare(b) < 0`; the sort is stable and puts the newest first.
module _ (before : Text → Text → Bool) where
  unfoldable pub place : Props → List Props → List Props
  place r [] = r ∷ []
  place r (s ∷ rs) =
      let rest = place r rs in
      let older = before (text_of_keys (codes "utc" ∷ []) r) (text_of_keys (codes "utc" ∷ []) s) in
      if older then s ∷ rest else r ∷ s ∷ rs

  unfoldable pub newest_first : List Props → List Props
  newest_first [] = []
  newest_first (r ∷ rs) = place r (newest_first rs)

  unfoldable pub welcome_pack_status_for : List Props → Option Props → Welcome → Status
  unfolding head_of is_filled_list
  welcome_pack_status_for players target w =
      let wanted = welcome_target_identity players target in
      let rows = newest_first (filter (welcome_row_matches_target wanted) w.timers) in
      if is_blank wanted
      then record { received = false; timer = none }
      else record { received = is_filled_list rows; timer = head_of rows }
