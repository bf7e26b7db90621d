-- ===== src/Players/Tests.antt =====
-- Players at concrete values.
use scum_ne_djin_release.Prelude.{◌≡◌, refl, true, false, [], ◌∷◌, none, some, All, ◌⊎◌, map}
use scum_ne_djin_release.Text.{Text, codes, lower, has, text_ops}
use scum_ne_djin_release.Js.{str, Props}
use scum_ne_djin_release.Js.Objects.{get}
use scum_ne_djin_release.Js.Convert.{value_ops}
use scum_ne_djin_release.Players.{
  pick, is_set, clean_player_string, clean_of, is_id, after, after_spaces,
  is_placeholder_player_name, is_runtime_only_player, is_renderable_player, live_suffix,
  with_live_name, normalize_player_for_display, steam_keys, name_keys, runtime_keys, profile_keys,
}
use scum_ne_djin_release.Players.Target.{
  set_selected_player_target, target_input, modal_target_body, live_of, find_player_by_identity,
}
use scum_ne_djin_release.Players.Lookup.{value_from_keys, is_filled}
use scum_ne_djin_release.Players.Laws.{field_of, selected_action, value_from_keys_lem}

abbrev live : Props
live = (codes "runtimeKey", str (codes "abc1234567")) ∷ (codes "Name", str (codes "Live #3")) ∷ []

display_ops : Unit {0}
unfolding value_ops text_ops pick is_set clean_player_string clean_of is_id after after_spaces
    is_placeholder_player_name is_runtime_only_player is_renderable_player live_suffix
    with_live_name normalize_player_for_display
display_ops = tt

live_name : clean_of (with_live_name live 0) (codes "name" ∷ []) ≡ codes "Unknown live #234567"
unfolding display_ops
live_name = refl

live_shown : normalize_player_for_display live 0 ≡ some (with_live_name live 0)
unfolding display_ops
live_shown = refl

abbrev bob : Props
bob = (codes "SteamId", str (codes "76561190000000001")) ∷ (codes "name", str (codes "Bob")) ∷ []

selected_action_example :
    let found = live_of (find_player_by_identity (bob ∷ []) [] (codes "Bob") []) none in
    let s = set_selected_player_target (bob ∷ []) [] (codes "Bob") [] [] none in
    let body = modal_target_body [] (some s) (target_input s) in
    (body.who.steam_id ≡ field_of [] found steam_keys)
    × (body.who.name ≡ field_of (codes "Bob") found name_keys)
    × (body.who.runtime_key ≡ field_of [] found runtime_keys)
    × (body.profile_id ≡ some (field_of [] found profile_keys))
unfolding text_ops
selected_action_example = selected_action (bob ∷ []) [] [] (codes "Bob") [] [] none refl refl

value_from_keys_lem_example :
    ((value_from_keys bob (codes "steamid" ∷ []) ≡ str [])
      × All (λ k. is_filled (get k bob) ≡ false) (codes "steamid" ∷ []))
    ⊎ ((is_filled (value_from_keys bob (codes "steamid" ∷ [])) ≡ true)
        × (k : Text) × (value_from_keys bob (codes "steamid" ∷ []) ≡ get k bob)
        × (has (map lower (codes "steamid" ∷ [])) (lower k) ≡ true))
value_from_keys_lem_example = value_from_keys_lem bob (codes "steamid" ∷ [])
