-- ===== src/ModuleEditor/Tests.antt =====
-- The module editor at concrete configurations.
use scum_ne_djin_release.Prelude.{◌≡◌, refl, true, false, [], ◌∷◌, ◌++◌, some, none}
use scum_ne_djin_release.Text.{codes}
use scum_ne_djin_release.Js.{Value, str, obj, field, end}
use scum_ne_djin_release.ModuleEditor.{
  Editor, new_index, commit_simple_module_item_draft, simple_module_rows, draft_or_empty, Profile,
  begin_simple_module_create, simple_module_array_match, simple_module_array_key, key_for,
}
use scum_ne_djin_release.ModuleEditor.Creating.{created_row}
use scum_ne_djin_release.Modules.Items.{default_array_item}
use scum_ne_djin_release.Text.{text_ops, ◌orelse◌}
use scum_ne_djin_release.Nested.{nested_ops}

abbrev apple : Value
apple = obj (field (codes "ItemId") (str (codes "Apple_2")) end)

abbrev adding : Editor
adding = record {
  draft = some [];
  tab = codes "items";
  array_key = some (codes "Items");
  index = new_index;
  row = some apple;
  is_new = true;
  setting_path = none;
}

abbrev daily : Profile
daily = record {
  key = codes "daily-pack";
  array_key = codes "Items";
  vip_array_key = codes "VipItems";
  vip_settings_key = [];
  extras = [];
  no_items = false;
}

created_row_example :
    let item = default_array_item [] (codes "Items") (codes "daily-pack") in
    let (opened, ok) =
      begin_simple_module_create (some daily) [] (codes "daily-pack") (codes "Items") adding in
    let (out, done) = commit_simple_module_item_draft opened in
    (ok ≡ true)
    × (done ≡ true)
    × (simple_module_rows (draft_or_empty out.draft) (codes "Items")
        ≡ simple_module_rows [] (codes "Items") ++ (item ∷ []))
unfolding nested_ops text_ops simple_module_array_match simple_module_array_key key_for ◌orelse◌
created_row_example =
    created_row (some daily) adding [] (codes "Items") (codes "items") [] (codes "daily-pack") refl
      refl
