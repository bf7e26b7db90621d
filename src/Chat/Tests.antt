-- ===== src/Chat/Tests.antt =====
-- Messages at concrete texts.
use scum_ne_djin_release.Prelude.{◌≤◌, [], ◌∷◌}
use scum_ne_djin_release.Text.{codes}
use scum_ne_djin_release.Js.{str, Props}
use scum_ne_djin_release.Chat.{fitting_chars}
use scum_ne_djin_release.Chat.Laws.{kept_bytes, fitting_chars_bound}

fitting_chars_bound_example : kept_bytes (fitting_chars (str (codes "привет всем")) 7) ≤ 7
fitting_chars_bound_example = fitting_chars_bound (str (codes "привет всем")) 7

abbrev team : Props
team = (codes "channel", str (codes " Team ")) ∷ []
