-- ===== src/KillFeed/Merging.antt =====
-- One event from several sources: `killEventGroupKey`, `killTimestampLooksDuplicate`,
-- `killEventsLikelyDuplicate`, `mergeKillEvents`, `killHasDisplayIdentity`,
-- `isDisplayableKillEvent` and the list of `normalizeKillEvents` behind the repair of its rows, of
-- src/ScumWarden.Server/wwwroot/app.js.
use scum_ne_djin_release.Prelude.{
  ℕ, Bool, true, false, not, ◌&&◌, ◌||◌, List, [], ◌∷◌, ◌++◌, map, foldl, Option, if◌then◌else◌,
  leb, ltb, ◌==◌, filter, any, take,
}
use scum_ne_djin_release.Text.{Text, codes, ◌===◌, truthy, ◌orelse◌, trim, lower, includes}
use scum_ne_djin_release.Text.Lines.{join}
use scum_ne_djin_release.Js.{Value, str, Props}
use scum_ne_djin_release.Js.Numbers.{
  Number, nan, infinite, fin, int, is_nonzero, floor, above, print_number,
}
use scum_ne_djin_release.Js.Numbers.Arith.{add}
use scum_ne_djin_release.Js.Regex.{Regex, tests, lit, word, any_of, all_of, blanks}
use scum_ne_djin_release.Js.Objects.{get, insert}
use scum_ne_djin_release.Js.Convert.{to_text, is_true, ◌or_else◌}
use scum_ne_djin_release.Js.Sorting.{sort_desc}
use scum_ne_djin_release.Players.{is_set}
use scum_ne_djin_release.ChatFeed.{event_time, thousandth, true_texts}
use scum_ne_djin_release.KillFeed.{
  better_text, kill_like_text, is_kill_like_event, clean_kill_participant_name,
  normalized_kill_identity,
}
use scum_ne_djin_release.KillFeed.Participants.{
  Role, killer, victim, text_from, participant_value, has_kill_identity, kill_participant_identity,
  kill_participants_look_same,
}
use scum_ne_djin_release.KillFeed.Details.{kill_event_quality, is_transient_server_kill_event}

-- `Math.abs(a - b)`
opposite : Number → Number
opposite nan = nan
opposite (infinite neg) = infinite (not neg)
opposite (fin neg units scale) = fin (not neg) units scale

absolute : Number → Number
absolute nan = nan
absolute (infinite neg) = infinite false
absolute (fin neg units scale) = fin false units scale

unfoldable pub distance : Number → Number → Number
unfolding absolute opposite
distance a b = absolute (add a (opposite b))

is_nan : Number → Bool
is_nan nan = true
is_nan _ = false

-- `n <= k`
unfoldable pub at_most_nat : Number → ℕ → Bool
unfolding is_nan
at_most_nat n k = not (is_nan n) && not (above n k)

-- Within 30 seconds, or within five minutes of the three hours of Moscow.
unfoldable pub times_look_same : Number → Number → Bool
times_look_same a b =
    is_nonzero a
    && (is_nonzero b
        && (at_most_nat (distance a b) 30000
            || at_most_nat (distance (distance a b) (int 10800000)) 300000))

-- A property of `right` where `merged` has none or the other is preferred.
unfoldable pub take_detail : Props → Bool → Props → Text → Props
take_detail right prefer merged key =
    if is_set (get key right) && (not (is_true (get key merged)) || prefer)
    then insert key (get key right) merged
    else merged

unfoldable pub take_name : Props → Props → Text → Props
take_name right merged key =
    let chosen = better_text (get key merged) (get key right) in
    if is_true chosen then insert key chosen merged else merged

-- `!merged[key] || String(merged[key]).trim() === ''`
unfoldable pub is_unset : Value → Bool
is_unset v = not (is_true v) || not (truthy (trim (to_text v)))

unfoldable pub take_id : Props → Props → Text → Props
take_id right merged key =
    if is_unset (get key merged) && is_true (get key right)
    then insert key (get key right) merged
    else merged

unfoldable pub take_message : Props → Bool → Props → Text → Props
take_message right prefer merged key =
    if is_true (get key right) && (not (is_true (get key merged)) || prefer)
    then insert key (get key right) merged
    else merged

unfoldable pub take_source : Props → Props → Props
take_source right merged =
    let key = codes "source" in
    let source = get key right in
    if is_true source && not (includes (to_text (get key merged or_else str [])) (to_text source))
    then insert key (str (join (codes " + ") (true_texts (get key merged ∷ source ∷ [])))) merged
    else merged

abbrev pub detail_keys : List Text
detail_keys =
    codes "weapon"
    ∷ codes "weaponRaw"
    ∷ codes "cause"
    ∷ codes "deathType"
    ∷ codes "distance"
    ∷ codes "distanceMeters"
    ∷ codes "killerLocation"
    ∷ codes "victimLocation"
    ∷ codes "raw"
    ∷ codes "logFile"
    ∷ []

abbrev pub name_keys : List Text
name_keys =
    codes "killerName"
    ∷ codes "killer"
    ∷ codes "attackerName"
    ∷ codes "attacker"
    ∷ codes "victimName"
    ∷ codes "victim"
    ∷ codes "targetName"
    ∷ codes "target"
    ∷ []

abbrev pub steam_keys : List Text
steam_keys =
    codes "killerSteamId"
    ∷ codes "attackerSteamId"
    ∷ codes "victimSteamId"
    ∷ codes "targetSteamId"
    ∷ codes "killerUserProfileId"
    ∷ codes "victimUserProfileId"
    ∷ []

-- `mergeKillEvents` of two events.
unfoldable pub merge_kill_events : Props → Props → Props
merge_kill_events left right =
    let prefer = ltb (kill_event_quality left) (kill_event_quality right) in
    let detailed = foldl (take_detail right prefer) left detail_keys in
    let named = foldl (take_name right) detailed name_keys in
    let known = foldl (take_id right) named steam_keys in
    let told = take_message right prefer known (codes "message") in
    take_source right (take_message right prefer told (codes "broadcastMessage"))

-- `Math.round(time / 1000)`
rounded : Number → Number
rounded n = floor (add (thousandth n) (fin false 5 1))

-- `grouped.set(key, mergeKillEvents(grouped.get(key), event))`
unfoldable pub add_to_group : Text → Props → List (Text × Props) → List (Text × Props)
add_to_group key event [] = (key, event) ∷ []
add_to_group key event ((k, e) ∷ groups) =
    if k === key
    then (k, merge_kill_events e event) ∷ groups
    else (k, e) ∷ add_to_group key event groups

-- `/погиб|died|was killed by|victimloc|killerloc|weapon\s*:/i`
abbrev death_words : Regex
death_words = any_of (
    word (codes "погиб")
    ∷ word (codes "died")
    ∷ word (codes "was killed by")
    ∷ word (codes "victimloc")
    ∷ word (codes "killerloc")
    ∷ all_of (word (codes "weapon") ∷ blanks ∷ lit (codes ":") ∷ [])
    ∷ [])

module _ (decode : List ℕ → Option Text) (date : Value → Option Number) where
  unfoldable pub kill_events_likely_duplicate : Props → Props → Bool
  kill_events_likely_duplicate left right =
      let sources = lower (
        join (codes " ") (
          to_text (get (codes "source") left or_else str [])
          ∷ to_text (get (codes "source") right or_else str [])
          ∷ to_text (get (codes "logFile") left or_else str [])
          ∷ to_text (get (codes "logFile") right or_else str [])
          ∷ [])) in
      times_look_same (event_time date left) (event_time date right)
      && (kill_participants_look_same decode left right
          && (not (kill_event_quality left == kill_event_quality right)
              || (includes sources (codes "server-log")
                  || (includes sources (codes "savefile") || includes sources (codes "kill_")))))

  unfoldable pub kill_event_group_key : Props → Text
  unfolding rounded
  kill_event_group_key event =
      let time = event_time date event in
      let victim_id = text_from event (
        codes "victimSteamId"
        ∷ codes "targetSteamId"
        ∷ codes "victimUserProfileId"
        ∷ codes "victimProfileId"
        ∷ []) in
      let victim_name =
        lower (trim (to_text (participant_value decode event victim or_else str []))) in
      let raw =
        take 120 (
          to_text (get (codes "raw") event or_else (get (codes "message") event or_else str []))) in
      (if is_nonzero time then print_number (rounded time) else [])
      ++ b'|' ∷ (victim_id orelse (victim_name orelse raw))

  unfoldable pub shows_identity : Props → Role → Bool
  shows_identity event role =
      has_kill_identity (kill_participant_identity decode event role)
      || truthy (
          normalized_kill_identity decode
            (str (clean_kill_participant_name decode (participant_value decode event role))))

  unfoldable pub kill_has_display_identity : Props → Bool
  kill_has_display_identity event =
      shows_identity event victim
      && (shows_identity event killer || tests death_words (lower (kill_like_text event)))

  unfoldable pub is_displayable_kill_event : Props → Bool
  is_displayable_kill_event event =
      is_kill_like_event event
      && (kill_has_display_identity event
          && (truthy (normalized_kill_identity decode (participant_value decode event killer))
              || (truthy (normalized_kill_identity decode (participant_value decode event victim))
                  || leb 20 (kill_event_quality event))))

  unfoldable pub group_events : List Props → List (Text × Props)
  group_events events =
      foldl (λ groups event. add_to_group (kill_event_group_key event) event groups) []
        (filter is_displayable_kill_event events)

  -- The first event that looks the same takes up the new one.
  unfoldable pub merge_into : List Props → Props → List Props
  merge_into [] event = event ∷ []
  merge_into (e ∷ es) event =
      let later = e ∷ merge_into es event in
      if kill_events_likely_duplicate e event then merge_kill_events e event ∷ es else later

  -- The test `other === event` of the code changes nothing: an event of low quality is not of
  -- high quality.
  unfoldable pub is_useful : List Props → Props → Bool
  is_useful events event =
      not (is_transient_server_kill_event event)
      && (leb 20 (kill_event_quality event)
          || not (
              any
                (λ other.
                  leb 20 (kill_event_quality other) && kill_events_likely_duplicate event other)
                events))

  -- The list that is shown, from the rows after the repair of their participants.
  unfoldable pub kill_list : List Props → List Props
  kill_list rows =
      let events =
        foldl merge_into [] (sort_desc (event_time date) (map (λ g. g.1) (group_events rows))) in
      sort_desc (event_time date) (filter (is_useful events) events)
