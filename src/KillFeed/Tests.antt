-- ===== src/KillFeed/Tests.antt =====
-- The kill feed at concrete events.
use scum_ne_djin_release.Prelude.{
  ℕ, ◌≤◌, ◌≡◌, refl, true, false, not, ◌||◌, leb, List, [], ◌∷◌, Option, none, some, All, length,
}
use scum_ne_djin_release.Text.{Text, codes, has, text_ops}
use scum_ne_djin_release.Js.{Value, num, str, obj, Props, to_fields}
use scum_ne_djin_release.Js.Regex.{regex_ops, tests}
use scum_ne_djin_release.Js.Numbers.{Number, int, number_ops}
use scum_ne_djin_release.Js.Objects.{get}
use scum_ne_djin_release.Js.Convert.{value_ops, is_true}
use scum_ne_djin_release.Js.Sorting.{IsFalling}
use scum_ne_djin_release.Players.{pick, is_set}
use scum_ne_djin_release.Scheduler.{squeeze}
use scum_ne_djin_release.Mojibake.{repair_mojibake_text, repair_text, is_suspect}
use scum_ne_djin_release.ChatFeed.{event_time}
use scum_ne_djin_release.KillFeed.{
  kill_raw_text, clean_asset_id, clean_scum_weapon, clean_kill_participant_name, clean_name_text,
  is_steam, text_quality,
}
use scum_ne_djin_release.KillFeed.Participants.{text_from, killer, kill_text_participant, by_role}
use scum_ne_djin_release.KillFeed.Details.{
  place_keys, axis_keys, parse_kill_location, is_transient_server_kill_event,
}
use scum_ne_djin_release.KillFeed.Merging.{name_keys, steam_keys, is_unset, merge_kill_events}
use scum_ne_djin_release.KillFeed.Known.{
  Names, repair_role, repaired_name, name_of, set_name, steam_id_keys, known_name_keys,
  collect_kill_known_names, repair_kill_event_participants, normalize_kill_events,
}
use scum_ne_djin_release.KillFeed.Register.{IsRegister, known_names-IsRegister}
use scum_ne_djin_release.KillFeed.Repair.{IsRepaired, repair_lem}
use scum_ne_djin_release.Players.Lookup.{value_from_keys, exact_value, is_filled}
use scum_ne_djin_release.KillFeed.Logs.{detailed_line}
use scum_ne_djin_release.KillFeed.Fields.{parse_scum_timestamp_utc}
use scum_ne_djin_release.KillFeed.Laws.{merge_keeps_ids}
use scum_ne_djin_release.KillFeed.Names.{merged_of, merge_betters_names}
use scum_ne_djin_release.KillFeed.Feed.{kill_feed_lem, is_outranked, origin, place_of_missing}

abbrev no_decoder : List ℕ → Option Text
no_decoder bytes = none

abbrev no_date : Value → Option Number
no_date v = none

rifle :
    clean_scum_weapon (str (codes "/Game/Weapon_AK47_C_2147 [Projectile]")) ≡ codes "Weapon_AK47"
unfolding value_ops text_ops regex_ops clean_scum_weapon clean_asset_id
rifle = refl

wrapped :
    clean_kill_participant_name no_decoder (str (codes "'76561198000000001:[X] Ivan(12)'"))
    ≡ codes "Ivan"
unfolding value_ops text_ops regex_ops clean_kill_participant_name clean_name_text
    repair_mojibake_text repair_text is_suspect
wrapped = refl

-- A line of the server's log.
abbrev logged : Props
logged =
    (codes "source", str (codes "server-log"))
    ∷ (codes "logFile", str (codes "scum.log"))
    ∷ (codes "time", num (int 1000))
    ∷ (codes "message", str (codes "'Petr' was killed by 'Ivan'"))
    ∷ []

read_killer : kill_text_participant no_decoder logged killer ≡ codes "Ivan"
unfolding value_ops text_ops regex_ops number_ops kill_text_participant clean_kill_participant_name
    clean_name_text repair_mojibake_text repair_text is_suspect pick is_set squeeze by_role
read_killer = refl

-- The same kill in the log of kills.
abbrev detailed : Props
detailed =
    (codes "source", str (codes "savefile-kill-log"))
    ∷ (codes "time", num (int 1001))
    ∷ (codes "killerSteamId", str (codes "76561198000000001"))
    ∷ (codes "killerName", str (codes "Ivan"))
    ∷ (codes "victimName", str (codes "Petr"))
    ∷ (codes "weapon", str (codes "Weapon_AK47"))
    ∷ []

steam_key : has steam_keys (codes "killerSteamId") ≡ true
unfolding text_ops
steam_key = refl

steam_set : is_unset (get (codes "killerSteamId") detailed) ≡ false
unfolding value_ops text_ops is_unset
steam_set = refl

merge_keeps_ids_example :
    get (codes "killerSteamId") (merge_kill_events detailed logged)
    ≡ get (codes "killerSteamId") detailed
merge_keeps_ids_example =
    merge_keeps_ids detailed logged (codes "killerSteamId") steam_key steam_set

name_key : has name_keys (codes "killerName") ≡ true
unfolding text_ops
name_key = refl

merge_betters_names_example :
    let kept = get (codes "killerName") (merge_kill_events logged detailed) in
    (kept ≡ merged_of (get (codes "killerName") logged) (get (codes "killerName") detailed))
    × (text_quality (get (codes "killerName") logged) ≤ text_quality kept)
    × ((not (is_true (get (codes "killerName") detailed))
          || leb (text_quality (get (codes "killerName") detailed)) (text_quality kept))
        ≡ true)
merge_betters_names_example = merge_betters_names logged detailed (codes "killerName") name_key

abbrev no_json : Text → Option Value
no_json s = none

abbrev no_root : Number → Number
no_root n = n

abbrev rows : List Value
rows = obj (to_fields logged) ∷ obj (to_fields detailed) ∷ []

abbrev players : List Value
players =
    obj (
      to_fields (
        (codes "steamId", str (codes "76561198000000001"))
        ∷ (codes "name", str (codes "Ivan the Great"))
        ∷ []))
    ∷ []

kill_feed_lem_example :
    let feed = normalize_kill_events no_decoder no_json no_root no_date players rows in
    IsFalling (event_time no_date) feed
    × All
        (λ e.
          (is_transient_server_kill_event e ≡ false)
          × (is_outranked no_decoder no_date feed e ≡ false))
        feed
    × (length feed ≤ 2)
kill_feed_lem_example = kill_feed_lem no_decoder no_json no_root no_date players rows

abbrev register : Names
register = (codes "76561198000000001", codes "Ivan the Great") ∷ []

better_name :
    get (codes "killerName") (repair_role register killer detailed) ≡ str (codes "Ivan the Great")
unfolding value_ops text_ops regex_ops repair_role repaired_name name_of set_name steam_id_keys
    known_name_keys text_from value_from_keys exact_value is_filled by_role is_steam text_quality
better_name = refl

-- The detailed line of the log of kills.
abbrev line : Props
line =
    (
      codes "raw",
      str (
          codes
            "2026.01.02-03.04.05: Died: Petr (76561198000000002), Killer: Ivan (76561198000000001) Weapon: Weapon_AK47_C [Projectile] S[KillerLoc : 1.00, 2.00, 3.00 VictimLoc: 4.00, 5.00, 6.00, Distance: 7.00 m]"),
    )
    ∷ []

stamped : parse_scum_timestamp_utc (kill_raw_text line) ≡ codes "2026-01-02T03:04:05Z"
unfolding value_ops text_ops regex_ops parse_scum_timestamp_utc kill_raw_text
stamped = refl

is_detailed : tests detailed_line (kill_raw_text line) ≡ true
unfolding value_ops text_ops regex_ops detailed_line kill_raw_text
is_detailed = refl

known_names-IsRegister_example :
    IsRegister (collect_kill_known_names no_decoder no_json players rows)
known_names-IsRegister_example = known_names-IsRegister no_decoder no_json players rows

repair_lem_example :
    IsRepaired
      (collect_kill_known_names no_decoder no_json players rows)
      detailed
      (repair_kill_event_participants
        (collect_kill_known_names no_decoder no_json players rows)
        detailed)
      killer
repair_lem_example = repair_lem no_decoder no_json players rows detailed killer

none_of :
    (pick logged (place_keys killer) (str []) ≡ str [])
    × (pick logged (axis_keys killer (codes "X") (codes "x")) (str []) ≡ str [])
    × (pick logged (axis_keys killer (codes "Y") (codes "y")) (str []) ≡ str [])
    × (pick logged (axis_keys killer (codes "Z") (codes "z")) (str []) ≡ str [])
unfolding value_ops text_ops pick is_set place_keys axis_keys by_role
none_of = (refl, refl, refl, refl)

place_of_missing_example :
    (parse_kill_location logged killer ≡ some origin)
    × (is_transient_server_kill_event logged ≡ false)
place_of_missing_example = place_of_missing logged none_of.0 none_of.1 none_of.2 none_of.3
