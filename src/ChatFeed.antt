-- ===== src/ChatFeed.antt =====
-- The chat window: `eventTime`, `eventMatches`, `chatActor`, `chatSteamId`, `chatText`,
-- `chatDedupeKey`, `dedupeChatMessages`, `actionTextBlob`, `nedjinEventToChatRow` and the list of
-- `renderChat` of src/ScumWarden.Server/wwwroot/app.js. Arguments are the decoder of UTF-8 and
-- what `new Date(value).getTime()` gives, `none` for NaN. The rows of a channel are an argument of
-- the list.
pub mod Laws
pub mod Tests
pub mod Loading
use scum_ne_djin_release.Prelude.{
  ℕ, ◌+◌, ◌*◌, Bool, true, false, not, ◌&&◌, ◌||◌, List, [], ◌∷◌, ◌++◌, map, Option, none, some,
  if◌then◌else◌, filter,
}
use scum_ne_djin_release.Text.{Text, codes, ◌===◌, truthy, trim, lower, includes}
use scum_ne_djin_release.Text.Fresh.{fresh_by}
use scum_ne_djin_release.Text.Lines.{join}
use scum_ne_djin_release.Js.{Value, undefined, null, bool, num, str, arr, obj, Props, to_fields}
use scum_ne_djin_release.Js.Numbers.{
  Number, nan, infinite, fin, int, is_nonzero, floor, print_number,
}
use scum_ne_djin_release.Js.Objects.{get, insert}
use scum_ne_djin_release.Js.Convert.{to_text, is_true, ◌or_else◌, first_true}
use scum_ne_djin_release.Js.Sorting.{sort_desc}
use scum_ne_djin_release.Json.Print.{stringify}
use scum_ne_djin_release.Players.{pick}
use scum_ne_djin_release.Scheduler.{squeeze}
use scum_ne_djin_release.Mojibake.{repair_mojibake_text}
use scum_ne_djin_release.Chat.{normalize_chat_channel}

-- `value === text`
unfoldable pub is_str : Text → Value → Bool
is_str t (str s) = s === t
is_str t v = false

-- `n * 1000` and `n / 1000`
unfoldable pub thousands : Number → Number
thousands nan = nan
thousands (infinite neg) = infinite neg
thousands (fin neg units scale) = fin neg (units * 1000) scale

unfoldable pub thousandth : Number → Number
thousandth nan = nan
thousandth (infinite neg) = infinite neg
thousandth (fin neg units scale) = fin neg units (scale + 3)

abbrev pub time_keys : List Text
time_keys =
    codes "timestampUtc"
    ∷ codes "utc"
    ∷ codes "time"
    ∷ codes "at"
    ∷ codes "startedAt"
    ∷ codes "expiresAt"
    ∷ codes "createdAt"
    ∷ []

date_or_0 : Option Number → Number
date_or_0 none = int 0
date_or_0 (some n) = n

-- The time of the value that an event holds.
unfoldable pub time_of : (Value → Option Number) → Value → Number
unfolding date_or_0
time_of date (num n) = thousands n
time_of date v = date_or_0 (if is_true v then date v else none)

unfoldable pub event_time : (Value → Option Number) → Props → Number
event_time date event = time_of date (first_true time_keys event)

-- `event.source === 'panel' && (event.targetName || event.targetSteamId)`
unfoldable pub panel_target : Props → Value
panel_target event =
    if is_str (codes "panel") (get (codes "source") event)
    then first_true (codes "targetName" ∷ codes "targetSteamId" ∷ []) event
    else bool false

unfoldable pub failed_text : Props → Value
failed_text event = elim (get (codes "ok") event) [
  | bool b ↦ str (if b then [] else codes "не выполнено")
  | _ ↦ str []
]

-- `'' + event.action + …`, the true ones joined by a space
unfoldable pub true_texts : List Value → List Text
true_texts [] = []
true_texts (v ∷ vs) = let rest = true_texts vs in if is_true v then to_text v ∷ rest else rest

unfoldable pub action_text_blob : Props → Text
unfolding true_texts
action_text_blob event =
    let details = get (codes "details") event in
    join (codes " ") (
      true_texts (
        map (λ k. get k event)
          (codes "action"
            ∷ codes "message"
            ∷ codes "text"
            ∷ codes "body"
            ∷ codes "type"
            ∷ codes "command"
            ∷ codes "player"
            ∷ codes "target"
            ∷ codes "source"
            ∷ [])
        ++ (if is_true details then str (stringify details) else details) ∷ []))

-- `Object.assign({}, event, {…})`
unfoldable pub nedjin_event_to_chat_row : Props → Props
nedjin_event_to_chat_row event =
    let action =
      pick event (codes "action" ∷ codes "type" ∷ codes "command" ∷ []) (str (codes "nedjin")) in
    let steam_id =
      pick event
        (codes "steamId"
          ∷ codes "SteamId"
          ∷ codes "targetSteamId"
          ∷ codes "targetSteam"
          ∷ codes "playerSteamId"
          ∷ [])
        (str []) in
    let actor =
      if is_true (panel_target event)
      then str (codes "Панель -> " ++ to_text (panel_target event))
      else pick event
          (codes "name"
            ∷ codes "player"
            ∷ codes "playerName"
            ∷ codes "targetName"
            ∷ codes "target"
            ∷ codes "source"
            ∷ [])
          (str (codes "NeDjin")) in
    let message =
      pick event (codes "message" ∷ codes "result" ∷ codes "text" ∷ codes "body" ∷ []) (str [])
      or_else (str (action_text_blob event) or_else action) in
    insert (codes "message") message (
      insert (codes "targetName") actor (
        insert (codes "steamId") steam_id (
          insert (codes "name") (str (to_text action)) (
            insert (codes "source") (str (codes "nedjin"))
              (insert (codes "channel") (str (codes "nedjin")) event)))))

unfoldable pub event_matches : Props → Text → Bool
event_matches event query =
    not (truthy query) || includes (lower (stringify (obj (to_fields event)))) (lower query)

unfoldable pub chat_steam_id : Props → Text
chat_steam_id event = trim (
    to_text (
      pick event
        (codes "steamId"
          ∷ codes "SteamId"
          ∷ codes "steam"
          ∷ codes "playerSteamId"
          ∷ codes "sourceSteamId"
          ∷ codes "targetSteamId"
          ∷ [])
        (str [])
      or_else str []))

module _ (decode : List ℕ → Option Text) (date : Value → Option Number) where
  unfoldable pub chat_actor : Props → Text
  chat_actor event =
      if is_true (panel_target event)
      then repair_mojibake_text decode (str (codes "Панель -> " ++ to_text (panel_target event)))
      else repair_mojibake_text decode (
          first_true
            (codes "name"
              ∷ codes "player"
              ∷ codes "playerName"
              ∷ codes "nickname"
              ∷ codes "steamId"
              ∷ codes "source"
              ∷ [])
            event
          or_else str (codes "Сервер"))

  unfoldable pub chat_text : Props → Text
  chat_text event = repair_mojibake_text decode (
      first_true (codes "message" ∷ codes "text" ∷ codes "body" ∷ codes "result" ∷ []) event
      or_else failed_text event)

  unfoldable pub chat_dedupe_key : Props → Text
  chat_dedupe_key event =
      let time = event_time date event in
      join (codes "|") (
        (if is_nonzero time then print_number (floor (thousandth time)) else [])
        ∷ normalize_chat_channel (chat_text event) event
        ∷ trim (chat_steam_id event)
        ∷ lower (trim (chat_actor event))
        ∷ lower (trim (squeeze false (chat_text event)))
        ∷ [])

  unfoldable pub dedupe_chat_messages : List Props → List Props
  dedupe_chat_messages events = fresh_by chat_dedupe_key (λ k. not (truthy k)) [] events

  -- The messages of a channel, out of its rows, that the search leaves.
  unfoldable pub chat_matches : Text → Text → Props → Bool
  chat_matches channel query item =
      (normalize_chat_channel (chat_text item) item === channel) && event_matches item query

  unfoldable pub chat_list : List Props → Text → Text → List Props
  chat_list rows channel query =
      sort_desc (event_time date) (dedupe_chat_messages (filter (chat_matches channel query) rows))
