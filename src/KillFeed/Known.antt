-- ===== src/KillFeed/Known.antt =====
-- The names that Steam ids are known under, and the list of kills that is shown: `addKillKnownName`,
-- `collectKillKnownNames`, `repairKillEventParticipants`, `normalizeKillEvents` and
-- `collectKillEvents` of src/ScumWarden.Server/wwwroot/app.js. A row that is an array counts as one
-- without properties, which is no event. `JSON.parse`, `Math.sqrt`, `Date` and the decoder are
-- arguments.
use scum_ne_djin_release.Prelude.{
  ℕ, ◌+◌, Bool, false, not, ◌&&◌, List, [], ◌∷◌, ◌++◌, Option, none, some, if◌then◌else◌, ltb,
  foldl, map, filter,
}
use scum_ne_djin_release.Text.{Text, codes, ◌===◌, truthy, trim}
use scum_ne_djin_release.Js.{Value, str, arr, Props, items}
use scum_ne_djin_release.Js.Numbers.{Number}
use scum_ne_djin_release.Js.Regex.{
  Regex, at_start, at_end, group, Found, search, tests, matches_of, group_of, lit, word, any_of,
  all_of, many, plus, blanks, digits1, dot, none_of,
}
use scum_ne_djin_release.Js.Objects.{get, insert, props_of}
use scum_ne_djin_release.Js.Convert.{to_text, is_true, ◌or_else◌}
use scum_ne_djin_release.Players.Lookup.{value_from_keys}
use scum_ne_djin_release.Envelope.{parse_maybe_json}
use scum_ne_djin_release.KillFeed.{
  clean_kill_participant_name, kill_raw_text, steam_digits, is_steam, text_quality,
}
use scum_ne_djin_release.KillFeed.Participants.{Role, killer, victim, by_role, text_from}
use scum_ne_djin_release.KillFeed.Merging.{is_displayable_kill_event, kill_list}
use scum_ne_djin_release.KillFeed.Logs.{hydrate_kill_event}

-- A `Map` from Steam ids to names
abbrev pub Names : Type 0
Names = List (Text × Text)

-- `map.get(id) || ''`
unfoldable pub name_of : Text → Names → Text
name_of id [] = []
name_of id ((i, n) ∷ names) = if i === id then n else name_of id names

unfoldable pub set_name : Text → Text → Names → Names
set_name id name [] = (id, name) ∷ []
set_name id name ((i, n) ∷ names) =
    if i === id then (i, name) ∷ names else (i, n) ∷ set_name id name names

-- `/^(unknown|неизвестно|npc|pve|user#\d+)$/i`
abbrev no_name : Regex
no_name = all_of (
    at_start
    ∷ any_of (
        word (codes "unknown")
        ∷ word (codes "неизвестно")
        ∷ word (codes "npc")
        ∷ word (codes "pve")
        ∷ all_of (word (codes "user#") ∷ digits1 ∷ [])
        ∷ [])
    ∷ at_end
    ∷ [])

unfoldable pub is_no_name : Text → Bool
is_no_name s = tests no_name s

unfoldable pub steam_id_keys : Role → List Text
steam_id_keys =
    by_role
      (codes "killerSteamId"
        ∷ codes "attackerSteamId"
        ∷ codes "killerUserId"
        ∷ codes "attackerUserId"
        ∷ [])
      (codes "victimSteamId"
        ∷ codes "targetSteamId"
        ∷ codes "victimUserId"
        ∷ codes "targetUserId"
        ∷ [])

unfoldable pub known_name_keys : Role → List Text
known_name_keys =
    by_role (codes "killerName" ∷ codes "killer" ∷ codes "attackerName" ∷ codes "attacker" ∷ [])
      (codes "victimName" ∷ codes "victim" ∷ codes "targetName" ∷ codes "target" ∷ [])

-- `label:\s*(.*?)\s*\((\d{16,20})\)`
named_steam : Text → ℕ → Regex
named_steam label n = all_of (
    word label
    ∷ blanks
    ∷ group n (many false dot)
    ∷ blanks
    ∷ lit (codes "(")
    ∷ group (n + 1) steam_digits
    ∷ lit (codes ")")
    ∷ [])

-- `/Died:…,\s*Killer:…/i`
unfoldable pub died_line : Regex
unfolding named_steam
died_line = all_of (
    named_steam (codes "Died:") 1 ∷ lit (codes ",") ∷ blanks ∷ named_steam (codes "Killer:") 3 ∷ [])

-- `/(\d{16,20})\s*:\s*([^'"\r\n()]+)\((\d+)\)/g`
unfoldable pub listed : Regex
listed = all_of (
    group 1 steam_digits
    ∷ blanks
    ∷ lit (codes ":")
    ∷ blanks
    ∷ group 2 (plus (none_of (codes "'\"\r\n()")))
    ∷ lit (codes "(")
    ∷ digits1
    ∷ lit (codes ")")
    ∷ [])

unfoldable pub array_or_nil : Value → List Value
array_or_nil (arr vs) = items vs
array_or_nil v = []

-- `repair` of one role, with the name that the id is known under
unfoldable pub repaired_name : Role → Text → Props → Props
repaired_name role known event =
    let whole = by_role (codes "killer") (codes "victim") role in
    let fixed = insert (by_role (codes "killerName") (codes "victimName") role) (str known) event in
    if is_true (get whole fixed) then insert whole (str known) fixed else fixed

unfoldable pub repair_role : Names → Role → Props → Props
repair_role names role event =
    let steam = text_from event (steam_id_keys role) in
    let known = name_of steam names in
    let current = value_from_keys event (known_name_keys role) or_else str [] in
    if is_steam steam && (truthy known && ltb (text_quality current) (text_quality (str known)))
    then repaired_name role known event
    else event

unfoldable pub repair_kill_event_participants : Names → Props → Props
repair_kill_event_participants names event =
    repair_role names victim (repair_role names killer event)

module _ (decode : List ℕ → Option Text) where
  unfoldable pub add_kill_known_name : Value → Value → Names → Names
  add_kill_known_name steam name names =
      let id = trim (to_text (steam or_else str [])) in
      let clean = clean_kill_participant_name decode name in
      if is_steam id
        && (truthy clean
            && (not (is_no_name clean)
                && ltb (text_quality (str (name_of id names))) (text_quality (str clean))))
      then set_name id clean names
      else names

  unfoldable pub add_role : Props → Role → Names → Names
  add_role event role names =
      add_kill_known_name (value_from_keys event (steam_id_keys role))
        (value_from_keys event (known_name_keys role)) names

  unfoldable pub add_died : Option Found → Names → Names
  add_died none names = names
  add_died (some f) names =
      add_kill_known_name (str (group_of 4 f)) (str (group_of 3 f))
        (add_kill_known_name (str (group_of 2 f)) (str (group_of 1 f)) names)

  unfoldable pub add_listed : Names → Found → Names
  add_listed names f = add_kill_known_name (str (group_of 1 f)) (str (group_of 2 f)) names

  unfoldable pub add_object : Names → Props → Names
  add_object names event =
      let raw = kill_raw_text event in
      let both = add_role event victim (add_role event killer names) in
      foldl add_listed (add_died (search died_line raw) both) (matches_of listed raw)

  unfoldable pub add_player : Names → Value → Names
  add_player names player =
      add_kill_known_name
        (value_from_keys (props_of player) (codes "steamId" ∷ codes "steam" ∷ codes "SteamId" ∷ []))
        (value_from_keys (props_of player)
          (codes "name" ∷ codes "playerName" ∷ codes "characterName" ∷ codes "Name" ∷ []))
        names

  module _ (parse : Text → Option Value) where
    unfoldable pub collect_kill_known_names : List Value → List Value → Names
    collect_kill_known_names players rows =
        foldl add_object (foldl add_player [] players)
          (map (λ row. props_of (parse_maybe_json parse row)) rows)

    module _ (sqrt : Number → Number) (date : Value → Option Number) where
      unfoldable pub normalize_kill_events : List Value → List Value → List Props
      normalize_kill_events players rows =
          let names = collect_kill_known_names players rows in
          kill_list decode date (
            map
              (λ row.
                repair_kill_event_participants names
                  (hydrate_kill_event decode parse sqrt (props_of (parse_maybe_json parse row))))
              rows)

      -- The kills that are kept, and if asked for, the chat and the log of actions.
      unfoldable pub collect_kill_events : List Value → Value → Value → Value → Bool → List Props
      collect_kill_events players kills chat actions include_fallback =
          let shown = filter (λ row. is_displayable_kill_event decode date (props_of row)) in
          normalize_kill_events players (
            array_or_nil kills
            ++ (if include_fallback
                then shown (array_or_nil chat) ++ shown (array_or_nil actions)
                else []))
