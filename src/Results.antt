-- ===== src/Results.antt =====
-- The text that an action's reply is shown as: `resultTextValue`, `firstResultText`,
-- `humanTransportName`, `summarizeQueuedResult` and `formatPanelResult` of
-- src/ScumWarden.Server/wwwroot/app.js. `JSON.parse` is an argument, as in Envelope.antt.
pub mod Laws
pub mod Tests
use scum_ne_djin_release.Prelude.{
  ℕ, Bool, true, false, not, ◌&&◌, ◌||◌, List, [], ◌∷◌, ◌++◌, map, Option, none, some,
  if◌then◌else◌, ltb, length, take,
}
use scum_ne_djin_release.Text.{Text, codes, ◌===◌, truthy, lower, includes, has}
use scum_ne_djin_release.Text.Lines.{join}
use scum_ne_djin_release.Js.{
  Value, undefined, null, bool, num, str, arr, obj, Items, Fields, end, Props, props, items,
}
use scum_ne_djin_release.Js.Numbers.{Number, int, is_finite, above, print_number, print_nat}
use scum_ne_djin_release.Js.Objects.{get, props_of}
use scum_ne_djin_release.Js.Convert.{to_text, to_number, is_true, ◌or_else◌, ◌nullish_else◌}
use scum_ne_djin_release.Envelope.{parse_maybe_json}

unfoldable pub result_text_value : Value → Text
result_text_value (bool b) = to_text (bool b)
result_text_value (num n) = to_text (num n)
result_text_value (str s) = s
result_text_value v = []

unfoldable pub first_result_text : List Text → Props → Text
first_result_text [] p = []
first_result_text (k ∷ ks) p =
    let text = result_text_value (get k p) in
    let rest = first_result_text ks p in if truthy text then text else rest

unfoldable pub human_transport_name : Value → Text
human_transport_name v =
    let text = lower (to_text (v or_else str [])) in
    if includes text (codes "announce")
    then codes "объявление сервера"
    else if includes text (codes "queue")
        || (includes text (codes "admin") || includes text (codes "exec"))
    then codes "игровая очередь"
    else if includes text (codes "rcon") || includes text (codes "nedjin")
    then codes "командный канал"
    else []

unfoldable pub array_items : Value → List Value
array_items (arr vs) = items vs
array_items v = []

unfoldable pub is_bool : Bool → Value → Bool
is_bool true (bool b) = b
is_bool false (bool b) = not b
is_bool b v = false

-- `Number.isFinite(n) && n > k`
unfoldable pub is_above : Number → ℕ → Bool
is_above n k = is_finite n && above n k

is_long : List Value → Bool
is_long vs = ltb 3 (length vs)

-- The line for the parts that failed, if there are any.
unfoldable pub failed_lines : List Value → List Text
unfolding is_long
failed_lines [] = []
failed_lines (v ∷ vs) =
    (codes "Не получилось: "
      ++ join (codes "; ") (map to_text (take 3 (v ∷ vs)))
      ++ (if is_long (v ∷ vs) then codes "..." else []))
    ∷ []

unfoldable pub count_lines : Number → Number → Value → List Text
count_lines queued requested ok =
    if is_above queued 0
    then (codes "В очереди: "
        ++ print_number queued
        ++ (if is_above requested 0 then codes " из " ++ print_number requested else [])
        ++ codes ".")
      ∷ []
    else if is_above requested 0 && not (is_bool false ok)
    then (codes "Отправлено: " ++ print_number requested ++ codes ".") ∷ []
    else []

unfoldable pub chunk_lines : Number → List Text
chunk_lines chunks =
    if is_above chunks 1 then (codes "Пакетов: " ++ print_number chunks ++ codes ".") ∷ [] else []

-- The properties of an object; an array has none of these names.
unfoldable pub summarize_queued_result : Value → List Text
summarize_queued_result queued =
    let p = props_of queued in
    let requested =
      to_number
        (get (codes "requested") p nullish_else (get (codes "total") p nullish_else num (int 0))) in
    let count =
      to_number
        (get (codes "queued") p nullish_else (get (codes "count") p nullish_else num (int 0))) in
    let chunks = to_number (get (codes "chunks") p nullish_else num (int 0)) in
    count_lines count requested (get (codes "ok") p)
    ++ chunk_lines chunks
    ++ failed_lines (array_items (get (codes "failed") p))

-- `if (line && !lines.includes(line)) lines.push(line)`
unfoldable pub push_new : Text → List Text → List Text
push_new line lines = if truthy line && not (has lines line) then lines ++ line ∷ [] else lines

unfoldable pub push_all : List Text → List Text → List Text
push_all [] lines = lines
push_all (l ∷ ls) lines = push_all ls (if has lines l then lines else lines ++ l ∷ [])

abbrev pub message_keys : List Text
message_keys =
    codes "message" ∷ codes "error" ∷ codes "result" ∷ codes "statusText" ∷ codes "status" ∷ []

abbrev pub command_keys : List Text
command_keys = codes "command" ∷ codes "adminCommand" ∷ codes "commandText" ∷ []

unfoldable pub ok_lines : Value → List Text
ok_lines ok =
    if is_bool true ok
    then codes "Готово." ∷ []
    else if is_bool false ok
    then codes "Не выполнено." ∷ []
    else []

unfoldable pub command_lines : Text → Text → List Text
command_lines command transport =
    if truthy command
    then (if truthy transport
        then codes "Команда отправлена через " ++ transport ++ codes "."
        else codes "Команда отправлена.")
      ∷ []
    else []

unfoldable pub is_array : Value → Bool
is_array (arr vs) = true
is_array v = false

-- The lines of an object's result; those of an empty list of properties too.
unfoldable pub result_lines : Props → List Text
result_lines p =
    let nested = props_of (get (codes "data") p) in
    let ok = get (codes "ok") p nullish_else get (codes "success") p in
    let told =
      push_new (first_result_text message_keys nested)
        (push_new (first_result_text message_keys p) (ok_lines ok)) in
    let transport = human_transport_name (
      get (codes "transport") p
      or_else (get (codes "transport") nested
          or_else (get (codes "source") p or_else get (codes "source") nested))) in
    let own = first_result_text command_keys p in
    let command = if truthy own then own else first_result_text command_keys nested in
    let queued =
      push_all
        (summarize_queued_result (get (codes "queued") p or_else get (codes "queued") nested))
        (told ++ command_lines command transport) in
    queued
    ++ failed_lines (
        array_items (
          if is_array (get (codes "failed") p)
          then get (codes "failed") p
          else get (codes "failed") nested))

unfoldable pub shown_lines : Props → List Text → Text
shown_lines [] [] = []
shown_lines (_ ∷ _) [] = codes "Операция завершена."
shown_lines p (l ∷ ls) = join (codes "\n") (l ∷ ls)

unfoldable pub format_parsed : Value → Text
format_parsed (str s) = s
format_parsed (arr Items.nil) = codes "Записей нет."
format_parsed (arr vs) = codes "Получено записей: " ++ print_nat (length (items vs)) ++ codes "."
format_parsed (obj fs) = shown_lines (props fs) (result_lines (props fs))
format_parsed v = result_text_value v

unfoldable pub format_panel_result : (Text → Option Value) → Value → Text
format_panel_result parse v = format_parsed (parse_maybe_json parse v)
