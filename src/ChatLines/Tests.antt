-- ===== src/ChatLines/Tests.antt =====
-- The line editor at concrete configurations.
use scum_ne_djin_release.Prelude.{◌≤◌, ◌≡◌, refl, [], ◌∷◌, ◌↔◌, All}
use scum_ne_djin_release.Text.{codes, text_ops}
use scum_ne_djin_release.Text.Lines.{unify_newlines}
use scum_ne_djin_release.Js.{str, num, obj, Fields, end, field, props}
use scum_ne_djin_release.Js.Numbers.{int}
use scum_ne_djin_release.Nested.{nested_ops}
use scum_ne_djin_release.Nested.Laws.{IsClear}
use scum_ne_djin_release.ChatLines.{
  Limits, chat_line_editor_limits, bridge_chat_message_byte_limit, chat_line_editor_issues,
  chat_lines_for_path, set_chat_lines_for_path, line_click, act, normalize_chat_lines, text_lines,
  line_values,
}
use scum_ne_djin_release.ChatLines.Bounds.{limits_bounds, issues_iff, Fits}
use scum_ne_djin_release.ChatLines.Lines.{IsLine, chat_lines-set_chat_lines}

abbrev help : Fields
help =
    field (codes "Text") (str (codes "  hi \n\nyou")) (field (codes "MaxLines") (num (int 3)) end)

chat_ops : Unit {0}
unfolding nested_ops text_ops chat_lines_for_path set_chat_lines_for_path line_click act
    normalize_chat_lines text_lines line_values chat_line_editor_limits
    bridge_chat_message_byte_limit
chat_ops = tt

help_lines : chat_lines_for_path (obj help) (codes "text") ≡ codes "hi" ∷ codes "you" ∷ []
unfolding chat_ops unify_newlines
help_lines = refl

limits_bounds_example :
    let limits = chat_line_editor_limits [] (obj help) in
    ((1 ≤ limits.max_lines) × (limits.max_lines ≤ 40))
    × ((16 ≤ limits.max_line_bytes) × (limits.max_line_bytes ≤ 220))
    × (limits.max_line_bytes ≤ bridge_chat_message_byte_limit [])
limits_bounds_example = limits_bounds [] (obj help)

abbrev two_and_eight : Limits
two_and_eight = record { max_lines = 2; max_line_bytes = 8 }

issues_iff_example :
    (chat_line_editor_issues (codes "hello" ∷ codes "you" ∷ []) two_and_eight ≡ [])
    ↔ Fits two_and_eight (codes "hello" ∷ codes "you" ∷ [])
issues_iff_example = issues_iff (codes "hello" ∷ codes "you" ∷ []) two_and_eight

help-IsClear : IsClear (codes "Text") (props help)
unfolding nested_ops
help-IsClear h = cc

two_lines-IsLine : All IsLine (codes "one" ∷ codes "two" ∷ [])
unfolding chat_ops unify_newlines
two_lines-IsLine = (
  record {
    tight = refl;
    filled = refl;
    one_line = (refl, (refl, (refl, tt)));
    no_return = (cc, (cc, (cc, tt)));
  },
  (
    record {
      tight = refl;
      filled = refl;
      one_line = (refl, (refl, (refl, tt)));
      no_return = (cc, (cc, (cc, tt)));
    },
    tt,
  ),
)

chat_lines-set_chat_lines_example :
    chat_lines_for_path
      (set_chat_lines_for_path (obj help) (codes "Text") (codes "one" ∷ codes "two" ∷ []))
      (codes "Text")
    ≡ codes "one" ∷ codes "two" ∷ []
unfolding nested_ops
chat_lines-set_chat_lines_example =
    chat_lines-set_chat_lines (codes "Text") help (codes "one" ∷ codes "two" ∷ []) refl refl
      help-IsClear two_lines-IsLine
