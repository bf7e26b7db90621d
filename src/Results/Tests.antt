-- ===== src/Results/Tests.antt =====
-- Results at concrete replies.
use scum_ne_djin_release.Prelude.{◌≡◌, ◌≢◌, refl, true, false, [], ◌∷◌, Option, none}
use scum_ne_djin_release.Text.{Text, codes, starts_with, text_ops}
use scum_ne_djin_release.Text.Lines.{join}
use scum_ne_djin_release.Js.{Value, bool, str, obj, Fields, props, to_fields}
use scum_ne_djin_release.Js.Objects.{get}
use scum_ne_djin_release.Js.Convert.{◌nullish_else◌, value_ops}
use scum_ne_djin_release.Envelope.{parse_maybe_json}
use scum_ne_djin_release.Results.{
  is_bool, format_parsed, format_panel_result, result_lines, shown_lines, push_new, push_all,
  first_result_text, result_text_value, human_transport_name, summarize_queued_result, failed_lines,
  count_lines, chunk_lines, ok_lines, command_lines, is_above, array_items, is_array,
}
use scum_ne_djin_release.Results.Laws.{format_failure}

abbrev rejected : Fields
rejected = to_fields (
    (codes "success", bool false)
    ∷ (codes "error", str (codes "timeout"))
    ∷ (codes "command", str (codes "kick"))
    ∷ [])

no_parse : Text → Option Value
no_parse t = none

rejected_text :
    format_panel_result no_parse (obj rejected)
    ≡ codes "Не выполнено.\ntimeout\nКоманда отправлена."
unfolding value_ops text_ops join format_panel_result format_parsed parse_maybe_json result_lines
    shown_lines push_new push_all first_result_text result_text_value human_transport_name
    summarize_queued_result failed_lines count_lines chunk_lines ok_lines command_lines is_above
    is_bool array_items is_array
rejected_text = refl

failed_reply :
    is_bool false
      (get (codes "ok") (props rejected) nullish_else get (codes "success") (props rejected))
    ≡ true
unfolding value_ops text_ops is_bool
failed_reply = refl

format_failure_example : starts_with (format_parsed (obj rejected)) (codes "Не выполнено.") ≡ true
format_failure_example = format_failure rejected failed_reply

rejected_any : props rejected ≢ []
unfolding value_ops
rejected_any e = cc
