-- ===== src/KillFeed.antt =====
-- The kill feed: what its functions of src/ScumWarden.Server/wwwroot/app.js read out of an event.
-- This file has the names and texts: `cleanAssetId`, `cleanScumWeapon`,
-- `cleanKillParticipantName`, `textQuality`, `killEventTextBlob`, `killTextParticipant` and the
-- tests of what is a kill. The decoder of UTF-8 is an argument.
pub mod Participants
pub mod Details
pub mod Merging
pub mod Fields
pub mod Logs
pub mod Known
pub mod Register
pub mod Repair
pub mod Laws
pub mod Names
pub mod Feed
pub mod Tests
use scum_ne_djin_release.Prelude.{
  ℕ, ◌+◌, ◌-◌, min, Bool, true, false, not, ◌&&◌, ◌||◌, List, [], ◌∷◌, ◌++◌, map, Option, none,
  some, if◌then◌else◌, leb, ◌==◌, length, any, filter, ltb,
}
use scum_ne_djin_release.Text.{
  Text, codes, ◌===◌, truthy, ◌orelse◌, trim, lower, includes, is_space, is_digit,
}
use scum_ne_djin_release.Text.Lines.{join}
use scum_ne_djin_release.Js.{Value, undefined, null, bool, num, str, arr, obj, Props}
use scum_ne_djin_release.Js.Regex.{
  Regex, unit, empty, at_start, at_end, at_edge, chain, choice, many, group, Found, search, tests,
  group_of, replace_first, replace_all, lit, word, any_of, all_of, star, plus, maybe, lazy_plus,
  blanks, blanks1, digits1, dot, none_of, one_of, exactly, up_to,
}
use scum_ne_djin_release.Js.Objects.{get}
use scum_ne_djin_release.Js.Convert.{to_text, is_true, ◌or_else◌, ◌nullish_else◌, first_true}
use scum_ne_djin_release.Json.Print.{stringify}
use scum_ne_djin_release.Players.{pick}
use scum_ne_djin_release.Scheduler.{squeeze}
use scum_ne_djin_release.Mojibake.{repair_mojibake_text}
use scum_ne_djin_release.ChatFeed.{action_text_blob}

abbrev any_char : Regex
any_char = unit (λ c. true)

-- `/^.*[:/\\]/` and `/^.*\./`
abbrev path_start : Regex
path_start = all_of (at_start ∷ star dot ∷ one_of (codes ":/\\") ∷ [])

abbrev name_start : Regex
name_start = all_of (at_start ∷ star dot ∷ lit (codes ".") ∷ [])

-- `/\s+S\[.*$/i`, for a letter; `.` stops at a line's end
mark_end : Text → Regex
mark_end letter = all_of (blanks1 ∷ word letter ∷ lit (codes "[") ∷ star dot ∷ at_end ∷ [])

-- `/\s*\[[^\]]+\].*$/i`
abbrev bracket_end : Regex
bracket_end = all_of (
    blanks
    ∷ lit (codes "[")
    ∷ plus (none_of (codes "]"))
    ∷ lit (codes "]")
    ∷ star dot
    ∷ at_end
    ∷ [])

unfoldable pub clean_asset_id : Value → Text
unfolding mark_end
clean_asset_id v =
    let raw = trim (to_text (v or_else str [])) in
    let name = replace_first name_start [] (replace_first path_start [] raw) in
    let plain =
      replace_first bracket_end []
        (replace_first (mark_end (codes "C")) [] (replace_first (mark_end (codes "S")) [] name)) in
    let numbered = replace_first (all_of (word (codes "_C_") ∷ digits1 ∷ at_end ∷ [])) [] plain in
    replace_first (all_of (word (codes "_ES") ∷ at_end ∷ [])) []
      (replace_first (all_of (word (codes "_C") ∷ at_end ∷ [])) [] numbered)

unfoldable pub clean_scum_weapon : Value → Text
clean_scum_weapon v =
    let raw = trim (to_text (v or_else str [])) in
    let without_cause = trim (
      replace_all (all_of (lit (codes "[") ∷ plus (none_of (codes "]")) ∷ lit (codes "]") ∷ [])) []
        raw) in
    clean_asset_id (str (replace_first (all_of (word (codes "_C") ∷ at_end ∷ [])) [] without_cause))
    orelse (clean_asset_id (str without_cause) orelse without_cause)

-- `[\u0000-\u001f\u007f-\u009f]`
is_control : ℕ → Bool
is_control c = leb c 0x1f || (leb 0x7f c && leb c 0x9f)

-- `\d{16,20}`
abbrev pub steam_digits : Regex
steam_digits = chain (exactly 16 (unit is_digit)) (up_to 4 (unit is_digit))

-- `/^\d{16,20}$/.test(text)`
unfoldable pub is_steam : Text → Bool
is_steam s = tests (all_of (at_start ∷ steam_digits ∷ at_end ∷ [])) s

-- `/^\d{16,20}\s*:\s*(.+?)(?:\(\d+\))?$/`
abbrev steam_wrapped : Regex
steam_wrapped = all_of (
    at_start
    ∷ steam_digits
    ∷ blanks
    ∷ lit (codes ":")
    ∷ blanks
    ∷ group 1 (lazy_plus dot)
    ∷ maybe (all_of (lit (codes "(") ∷ digits1 ∷ lit (codes ")") ∷ []))
    ∷ at_end
    ∷ [])

unwrapped : Text → Option Found → Text
unwrapped s none = s
unwrapped s (some f) = trim (group_of 1 f)

-- `/^(?:BP|BPC|NPC)_/i`
abbrev blueprint : Regex
blueprint = all_of (
    at_start
    ∷ any_of (word (codes "BP") ∷ word (codes "BPC") ∷ word (codes "NPC") ∷ [])
    ∷ lit (codes "_")
    ∷ [])

without_blueprint : Text → Text
without_blueprint s =
    if tests blueprint s
    then trim (
        replace_all (lit (codes "_")) (codes " ")
          (replace_first blueprint [] (clean_asset_id (str s))))
    else s

-- A text that is repaired and trimmed; an empty one stays empty throughout.
unfoldable pub clean_name_text : Text → Text
unfolding is_control unwrapped without_blueprint
clean_name_text s =
    let plain = trim (filter (λ c. not (is_control c)) s) in
    let quotes = plus (one_of (codes "'\"")) in
    let unquoted =
      trim (replace_all (any_of (chain at_start quotes ∷ chain quotes at_end ∷ [])) [] plain) in
    let name = unwrapped unquoted (search steam_wrapped unquoted) in
    let numberless = trim (
      replace_first
        (all_of (blanks ∷ lit (codes "(") ∷ digits1 ∷ lit (codes ")") ∷ blanks ∷ at_end ∷ [])) []
        name) in
    let tagless = trim (
      replace_first
        (all_of
          (at_start ∷ lit (codes "[") ∷ plus (none_of (codes "]")) ∷ lit (codes "]") ∷ blanks ∷ []))
        [] numberless) in
    without_blueprint tagless

-- `killEventTextBlob`: the texts and numbers of an event, and the JSON of its raw objects.
blob_text : Text × Value → List Text
blob_text (key, str s) = s ∷ []
blob_text (key, num n) = to_text (num n) ∷ []
blob_text (key, arr vs) = if includes (lower key) (codes "raw") then stringify (arr vs) ∷ [] else []
blob_text (key, obj fs) = if includes (lower key) (codes "raw") then stringify (obj fs) ∷ [] else []
blob_text (key, v) = []

blob_texts : Props → List Text
blob_texts [] = []
blob_texts (kv ∷ ps) = blob_text kv ++ blob_texts ps

unfoldable pub kill_event_text_blob : Props → Text
unfolding blob_texts blob_text
kill_event_text_blob event = join (codes " ") (blob_texts event)

unfoldable pub kill_raw_text : Props → Text
kill_raw_text event =
    let raw =
      get (codes "raw") event
      nullish_else (get (codes "Raw") event
          nullish_else (get (codes "rawText") event
              nullish_else (get (codes "logLine") event
                  nullish_else (get (codes "messageRaw") event nullish_else str [])))) in
    trim (to_text (raw or_else str [])) orelse kill_event_text_blob event

unfoldable pub kill_like_text : Props → Text
kill_like_text event =
    trim (squeeze false (kill_event_text_blob event ++ codes " " ++ action_text_blob event))

unfoldable pub is_kill_noise_event : Props → Bool
is_kill_noise_event event =
    let text = lower (kill_like_text event) in
    any (includes text) (
      codes "updating profile deletion"
      ∷ codes "profile deletion because prisoner died"
      ∷ codes "game version:"
      ∷ codes "log file open"
      ∷ [])

-- `String(event.type || event.action || '').toLowerCase()`
unfoldable pub kill_type : Props → Text
kill_type event =
    lower (to_text (first_true (codes "type" ∷ codes "action" ∷ []) event or_else str []))

-- `/was killed by|died\s*:|killer\s*:|…/i`
abbrev kill_words : Regex
kill_words = any_of (
    word (codes "was killed by")
    ∷ all_of (word (codes "died") ∷ blanks ∷ lit (codes ":") ∷ [])
    ∷ all_of (word (codes "killer") ∷ blanks ∷ lit (codes ":") ∷ [])
    ∷ word (codes "victimloc")
    ∷ word (codes "killerloc")
    ∷ word (codes "убил")
    ∷ word (codes "погиб")
    ∷ word (codes "смерт")
    ∷ word (codes "kill feed")
    ∷ [])

unfoldable pub is_kill_like_event : Props → Bool
is_kill_like_event event =
    let type = kill_type event in
    not (is_kill_noise_event event)
    && (includes type (codes "kill")
        || (includes type (codes "death") || tests kill_words (kill_like_text event)))

-- `[A-Za-zА-Яа-яЁё0-9]`
is_letter : ℕ → Bool
is_letter c =
    (leb b'A' c && leb c b'Z')
    || ((leb b'a' c && leb c b'z')
        || ((leb 0x410 c && leb c 0x44f) || ((c == 0x401) || ((c == 0x451) || is_digit c))))

-- `[\\u0-9;:@<>{}\s]`
is_debris : ℕ → Bool
is_debris c = is_digit c || (is_space c || any (λ d. d == c) (codes "\\u;:@<>{}"))

-- `textQuality`, with 120 added, so that it is not negative.
unfoldable pub text_quality : Value → ℕ
unfolding is_letter is_control is_debris
text_quality v =
    let text = trim (to_text (v or_else str [])) in
    if not (truthy text)
    then 20
    else (min (length text) 32
        + (if any is_letter text then 20 else 0)
        + (if any (λ c. is_control c || (c == 0xfffd)) text then 0 else 80)
        + (if all is_debris text then 0 else 40))
  where
    all : (ℕ → Bool) → Text → Bool
    all test s = not (any (λ c. not (test c)) s)

unfoldable pub better_text : Value → Value → Value
better_text current next = if ltb (text_quality current) (text_quality next) then next else current

module _ (decode : List ℕ → Option Text) where
  unfoldable pub clean_kill_participant_name : Value → Text
  clean_kill_participant_name v =
      let text = trim (repair_mojibake_text decode (str (to_text (v or_else str [])))) in
      if truthy text then clean_name_text text else []

  -- `/^(unknown|неизвестно|npc|pve|-)$/`
  unfoldable pub normalized_kill_identity : Value → Text
  normalized_kill_identity v =
      let text = trim (squeeze false (lower (clean_kill_participant_name v))) in
      if any (λ t. t === text)
        (codes "unknown" ∷ codes "неизвестно" ∷ codes "npc" ∷ codes "pve" ∷ codes "-" ∷ [])
      then []
      else text
