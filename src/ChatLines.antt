-- ===== src/ChatLines.antt =====
-- The editor of the texts that the game's /help and /info commands print:
-- `normalizeChatLines`, the limits, the checks before a save and the actions of the line editor
-- of src/ScumWarden.Server/wwwroot/app.js.
pub mod Bounds
pub mod Lines
pub mod Editing
pub mod Tests
use scum_ne_djin_release.Prelude.{
  ℕ, zero, suc, ◌+◌, ◌-◌, ◌/◌, ◌^◌, min, max, Bool, true, false, not, ◌&&◌, ◌||◌, List, [], ◌∷◌,
  ◌++◌, map, Option, none, some, if◌then◌else◌, ltb, ◌==◌, length, filter, find, take, remove_at,
  get_elem?, set,
}
use scum_ne_djin_release.Text.{Text, codes, ◌===◌, truthy, trim, lower}
use scum_ne_djin_release.Text.Lines.{split_by, join, unify_newlines}
use scum_ne_djin_release.Text.Utf8.{byte_length}
use scum_ne_djin_release.Js.{Value, num, str, arr, obj, Fields, end, items, Items, nil, cons}
use scum_ne_djin_release.Js.Numbers.{
  Number, nan, infinite, fin, int, is_finite, is_integer, below, above,
}
use scum_ne_djin_release.Js.Objects.{props_of, get}
use scum_ne_djin_release.Js.Convert.{
  is_nullish, is_true, to_text, to_number, text_of_keys, ◌or_else◌,
}
use scum_ne_djin_release.Nested.{get_nested_value, set_nested_value}

-- The lines of a text that are not blank, trimmed.
unfoldable pub text_lines : Text → List Text
text_lines s = filter truthy (map trim (split_by (λ c. c == 10) (unify_newlines s)))

entry_text : Value → Text
entry_text v = if is_nullish v then [] else to_text v

unfoldable pub lines_of : List Value → List Text
unfolding text_lines entry_text
lines_of [] = []
lines_of (v ∷ vs) = text_lines (entry_text v) ++ lines_of vs

unfoldable pub normalize_chat_lines : Value → List Text
unfolding lines_of
normalize_chat_lines (arr vs) = lines_of (items vs)
normalize_chat_lines v = lines_of (v ∷ [])

-- `Math.max(lo, Math.min(hi, Math.floor(n)))` of a finite number
clamp_floor : ℕ → ℕ → Number → ℕ
clamp_floor lo hi (fin false units scale) = max lo (min hi (units / 10 ^ scale))
clamp_floor lo hi n = lo

limit_of : ℕ → ℕ → ℕ → Number → ℕ
limit_of lo hi fallback n = if is_finite n then clamp_floor lo hi n else fallback

pub is_bridge : Value → Bool
is_bridge m = lower (text_of_keys (codes "key" ∷ []) (props_of m)) === codes "bridge-safety"

object_or_empty : Value → Value
object_or_empty (obj fs) = obj fs
object_or_empty (arr vs) = arr vs
object_or_empty v = obj end

bridge_config : Option Value → Value
bridge_config none = obj end
bridge_config (some m) = object_or_empty (get (codes "config") (props_of m))

-- `getNestedValue` gives '' for what is missing, so its `??` never takes the right side.
unfoldable pub bridge_chat_message_byte_limit : List Value → ℕ
unfolding limit_of clamp_floor is_bridge object_or_empty bridge_config
bridge_chat_message_byte_limit modules = limit_of 16 220 220 (
    to_number
      (get_nested_value (bridge_config (find is_bridge modules)) (codes "MaxChatMessageBytes")))

pub record Limits : Type 0 where
  pub max_lines : ℕ
  pub max_line_bytes : ℕ

unfoldable pub chat_line_editor_limits : List Value → Value → Limits
unfolding limit_of clamp_floor
chat_line_editor_limits modules config = record {
  max_lines = limit_of 1 40 24 (to_number (get_nested_value config (codes "MaxLines")));
  max_line_bytes =
      min (limit_of 16 220 220 (to_number (get_nested_value config (codes "MaxLineBytes"))))
        (bridge_chat_message_byte_limit modules);
}

pub data Issue : Type 0 where
  too_many_lines : ℕ → Issue
  line_too_long : ℕ → ℕ → ℕ → Issue
  not_in_range : Text → ℕ → ℕ → Issue
  above_bridge : ℕ → Issue

unfoldable pub line_issues : ℕ → ℕ → List Text → List Issue
line_issues limit index [] = []
line_issues limit index (line ∷ lines) =
    let rest = line_issues limit (index + 1) lines in
    let bytes = byte_length line in
    if ltb limit bytes then line_too_long (index + 1) bytes limit ∷ rest else rest

unfoldable pub chat_line_editor_issues : List Text → Limits → List Issue
unfolding line_issues
chat_line_editor_issues lines limits =
    (if ltb limits.max_lines (length lines) then too_many_lines limits.max_lines ∷ [] else [])
    ++ line_issues limits.max_line_bytes 0 lines

-- A whole number from `lo` to `hi`, or the fallback with an issue.
whole : Number → ℕ
whole (fin neg units scale) = units / 10 ^ scale
whole n = 0

in_range : ℕ → ℕ → Number → Bool
in_range lo hi n = is_finite n && is_integer n && not (below n lo) && not (above n hi)

unfoldable pub chat_response_integer : Value → Text → ℕ → ℕ → ℕ → ℕ × List Issue
unfolding whole in_range
chat_response_integer config path fallback lo hi =
    let n = to_number (get_nested_value config path) in
    if in_range lo hi n then (whole n, []) else (fallback, not_in_range path lo hi ∷ [])

ensure_default : Text → ℕ → Value → Value
ensure_default path fallback config =
    let value = get_nested_value config path in
    if is_nullish value || not (truthy (trim (to_text value)))
    then set_nested_value config path (num (int fallback))
    else config

unfoldable pub ensure_chat_response_defaults : List Value → Value → Value
unfolding ensure_default
ensure_chat_response_defaults modules config = ensure_default (codes "LineDelayMs") 140 (
    ensure_default (codes "MaxLineBytes") (bridge_chat_message_byte_limit modules)
      (ensure_default (codes "MaxLines") 24 config))

-- The issues found, and the limits that the texts were held to.
unfoldable pub validate_chat_response_draft : List Value → Value → List Issue × Limits
validate_chat_response_draft modules draft =
    let config = ensure_chat_response_defaults modules draft in
    let (max_lines, i) = chat_response_integer config (codes "MaxLines") 24 1 40 in
    let (bytes, j) = chat_response_integer config (codes "MaxLineBytes") 220 16 220 in
    let (delay, k) = chat_response_integer config (codes "LineDelayMs") 140 40 1000 in
    let bridge = bridge_chat_message_byte_limit modules in
    let limits : Limits = record { max_lines = max_lines; max_line_bytes = min bytes bridge } in
    let over : List Issue = if ltb bridge bytes then above_bridge bridge ∷ [] else [] in
    let lines = λ (path : Text). normalize_chat_lines (get_nested_value config path) in
    (
      i
          ++ (j
              ++ (k
                  ++ (over
                      ++ (chat_line_editor_issues (lines (codes "Text")) limits
                          ++ chat_line_editor_issues (lines (codes "EnglishText")) limits)))),
      limits,
    )

unfoldable pub chat_lines_for_path : Value → Text → List Text
chat_lines_for_path draft path = normalize_chat_lines (get_nested_value draft path)

unfoldable pub line_values : List Text → List Value
line_values lines = map str lines

-- The draft behind the write; without a draft or a path nothing is written.
unfoldable pub set_chat_lines_for_path : Value → Text → List Text → Value
unfolding lines_of line_values
set_chat_lines_for_path draft path lines =
    if is_true draft && truthy path
    then set_nested_value draft path (str (join (10 ∷ []) (lines_of (line_values lines))))
    else draft

-- The lines after an append, and how many were accepted and rejected.
unfoldable pub append_chat_lines : ℕ → List Text → Value → List Text × ℕ × ℕ
append_chat_lines max_lines lines incoming =
    let candidates = normalize_chat_lines incoming in
    let accepted = take (max_lines - length lines) candidates in
    (lines ++ accepted, length accepted, length candidates - length accepted)

swap_next : ℕ → List Text → List Text
swap_next zero (a ∷ b ∷ lines) = b ∷ a ∷ lines
swap_next (suc i) (a ∷ lines) = a ∷ swap_next i lines
swap_next i lines = lines

pub data LineAction : Type 0 where
  remove move_up move_down : LineAction

-- `handleChatLinesEditorClick` on the list, for an index in range.
unfoldable pub act : LineAction → ℕ → List Text → List Text
unfolding swap_next
act remove i lines = remove_at lines i
act move_up zero lines = lines
act move_up (suc i) lines = swap_next i lines
act move_down i lines = swap_next i lines

unfoldable pub line_click : LineAction → ℕ → Value → Text → Value
unfolding act
line_click a i draft path =
    let lines = chat_lines_for_path draft path in
    if ltb i (length lines) then set_chat_lines_for_path draft path (act a i lines) else draft
