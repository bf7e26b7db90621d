-- ===== src/Aliases/Tests.antt =====
-- Aliases at concrete texts.
use scum_ne_djin_release.Prelude.{◌≡◌, refl, true, [], ◌∷◌, All, map}
use scum_ne_djin_release.Text.{codes, truthy, text_ops}
use scum_ne_djin_release.Text.Lines.{split_by}
use scum_ne_djin_release.Js.{Value, str, arr, to_items}
use scum_ne_djin_release.Js.Convert.{value_ops}
use scum_ne_djin_release.Aliases.{
  alias_token, alias_of, strip_marks, alias_parts, new_aliases, normalize_command_alias_token,
  normalize_command_alias_list,
}
use scum_ne_djin_release.Aliases.Laws.{normalize_list_lem, Distinct}

abbrev typed : Value
typed = str (codes "/Help, !! Info;help\n//")

typed_aliases : normalize_command_alias_list typed ≡ codes "help" ∷ codes "!info" ∷ []
unfolding value_ops text_ops split_by alias_token alias_of strip_marks alias_parts new_aliases
    normalize_command_alias_token normalize_command_alias_list
typed_aliases = refl

normalize_list_lem_example :
    All (λ a. (alias_token a ≡ a) × (truthy a ≡ true)) (normalize_command_alias_list typed)
    × Distinct (normalize_command_alias_list typed)
    × (normalize_command_alias_list (arr (to_items (map str (normalize_command_alias_list typed))))
        ≡ normalize_command_alias_list typed)
normalize_list_lem_example = normalize_list_lem typed
