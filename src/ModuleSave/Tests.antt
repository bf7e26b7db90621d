-- ===== src/ModuleSave/Tests.antt =====
-- A save at concrete states.
use scum_ne_djin_release.Prelude.{◌≡◌, refl, true, false, List, [], ◌∷◌, none, some}
use scum_ne_djin_release.Text.{codes, lower, trim, text_ops}
use scum_ne_djin_release.Js.{Value, bool, str, obj, field, end, Props}
use scum_ne_djin_release.Js.Convert.{value_ops}
use scum_ne_djin_release.Json.Print.{stringify, quote, escape, escape_unit}
use scum_ne_djin_release.ModuleEditor.{Editor, no_index, draft_or_empty}
use scum_ne_djin_release.ModuleSave.{
  State, Check, Post, baseline_of, start_module_save, finish_module_check, current_config,
  module_config_fingerprint, remember_module_config_baselines, config_to_send, normalized_for,
  is_external_shop_module, is_chat_response_module_key, flush_open_module_editors_for_save,
  may_save, has_key, post_for,
}
use scum_ne_djin_release.ModuleSave.Laws.{save_across_switch}

abbrev on : Value
on = obj (field (codes "Enabled") (bool true) end)

abbrev off : Value
off = obj (field (codes "Enabled") (bool false) end)

abbrev served : List Props
served =
    ((codes "key", str (codes "daily-pack")) ∷ (codes "config", on) ∷ [])
    ∷ ((codes "key", str (codes "battlepass")) ∷ (codes "config", off) ∷ [])
    ∷ []

abbrev idle : Props → Editor
idle draft = record {
  draft = some draft;
  tab = [];
  array_key = none;
  index = no_index;
  row = none;
  is_new = false;
  setting_path = none;
}

abbrev clicked : State
clicked = record {
  modules = served;
  baselines = remember_module_config_baselines served;
  selected = codes "daily-pack";
  editor = idle ((codes "Enabled", bool true) ∷ []);
}

abbrev switched : State
switched = record clicked {
  selected = codes "battlepass";
  editor = idle ((codes "Enabled", bool false) ∷ []);
}

abbrev check : Check
check = record { key = codes "daily-pack"; baseline = stringify on }

abbrev sent : Post
sent = record { name = codes "battlepass"; config = off }

save_across_switch_example :
    (sent.name ≡ switched.selected)
    × (check.key ≡ lower (trim clicked.selected))
    × (module_config_fingerprint (current_config on)
        ≡ baseline_of (lower (trim clicked.selected)) clicked.baselines)
unfolding value_ops text_ops stringify quote baseline_of start_module_save finish_module_check
    current_config module_config_fingerprint remember_module_config_baselines config_to_send
    normalized_for is_external_shop_module is_chat_response_module_key
    flush_open_module_editors_for_save may_save has_key post_for draft_or_empty escape escape_unit
save_across_switch_example = save_across_switch clicked switched check on sent refl refl
