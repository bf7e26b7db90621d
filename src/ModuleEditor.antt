-- ===== src/ModuleEditor.antt =====
-- The editor of the lists of a module's configuration: `simpleModuleArrayKey` up to
-- `simpleModuleTabArrayKey`, and `simpleModuleArrayMatch`, `beginSimpleModuleCreate`,
-- `beginSimpleModuleEdit`, `commitSimpleModuleItemDraft` and `resetSimpleModuleItemEditor` of
-- src/ScumWarden.Server/wwwroot/app.js. A configuration is the properties of its object, and
-- comes from `JSON.parse`, so that `clonePlain` copies it as it is.
pub mod Profiles
pub mod Laws
pub mod Creating
pub mod Tests
use scum_ne_djin_release.Prelude.{
  ℕ, ◌+◌, ◌-◌, Bool, true, false, not, ◌&&◌, ◌||◌, List, [], ◌∷◌, ◌++◌, map, Option, none, some,
  if◌then◌else◌, filter, find, get_elem?, set, length,
}
use scum_ne_djin_release.Text.{Text, codes, ◌===◌, truthy, trim, lower, ◌orelse◌}
use scum_ne_djin_release.Js.{
  Value, undefined, null, bool, num, str, arr, obj, Props, items, to_items, end,
}
use scum_ne_djin_release.Js.Objects.{get, insert, lookup}
use scum_ne_djin_release.Js.Convert.{is_true, is_nullish}
use scum_ne_djin_release.Nested.{write_key}
use scum_ne_djin_release.Modules.Items.{default_array_item}

pub record Extra : Type 0 where
  pub tab : Text
  pub array_key : Text

-- A profile; an empty key is one that the profile does not give.
pub record Profile : Type 0 where
  pub key : Text
  pub array_key : Text
  pub vip_array_key : Text
  pub vip_settings_key : Text
  pub extras : List Extra
  pub no_items : Bool

-- The name that the configuration has for a key, in any case.
unfoldable pub key_for : Text → Props → Text
key_for preferred config = write_key preferred config

unfoldable pub simple_module_array_key : Props → Option Profile → Text
simple_module_array_key config none = key_for (codes "Items") config
simple_module_array_key config (some p) = key_for (p.array_key orelse codes "Items") config

unfoldable pub simple_module_has_vip_items : Option Profile → Bool
simple_module_has_vip_items none = false
simple_module_has_vip_items (some p) = truthy p.vip_array_key

unfoldable pub simple_module_vip_array_key : Props → Option Profile → Text
simple_module_vip_array_key config none = key_for (codes "VipItems") config
simple_module_vip_array_key config (some p) =
    key_for (p.vip_array_key orelse codes "VipItems") config

unfoldable pub simple_module_vip_settings_key : Props → Option Profile → Text
simple_module_vip_settings_key config none = key_for (codes "VipSettings") config
simple_module_vip_settings_key config (some p) =
    key_for (p.vip_settings_key orelse codes "VipSettings") config

unfoldable pub simple_module_extra_arrays : Option Profile → List Extra
simple_module_extra_arrays none = []
simple_module_extra_arrays (some p) = p.extras

unfoldable pub simple_module_extra_profile : Option Profile → Text → Option Extra
simple_module_extra_profile p tab =
    find (λ e. lower e.tab === lower tab) (simple_module_extra_arrays p)

unfoldable pub simple_module_extra_array_key : Props → Extra → Text
simple_module_extra_array_key config e = key_for (e.array_key orelse codes "Items") config

unfoldable pub has_items : Option Profile → Bool
has_items none = true
has_items (some p) = not p.no_items

unfoldable pub simple_module_allowed_tabs : Option Profile → List Text
simple_module_allowed_tabs p =
    let items_tab = if has_items p then codes "items" ∷ [] else [] in
    let vip_tab = if simple_module_has_vip_items p then codes "vip-items" ∷ [] else [] in
    codes "settings"
    ∷ (items_tab
        ++ (vip_tab ++ filter truthy (map (λ e. trim e.tab) (simple_module_extra_arrays p))))

unfoldable pub is_tab_open : Option Extra → Bool
is_tab_open none = false
is_tab_open (some e) = true

-- The tab shown, for the tab that is stored under the profile's key.
unfoldable pub simple_module_tab : Option Profile → Text → Text
unfolding is_tab_open
simple_module_tab p stored =
    let current = stored orelse codes "settings" in
    if (current === codes "items") && has_items p
    then codes "items"
    else if (current === codes "vip-items") && simple_module_has_vip_items p
    then codes "vip-items"
    else if is_tab_open (simple_module_extra_profile p current)
    then current
    else codes "settings"

unfoldable pub list_of : Value → List Value
list_of (arr vs) = items vs
list_of v = []

unfoldable pub simple_module_rows : Props → Text → List Value
unfolding list_of
simple_module_rows config k = list_of (get k config)

extra_array_key : Props → Option Profile → Option Extra → Text
extra_array_key config p none = simple_module_array_key config p
extra_array_key config p (some e) = simple_module_extra_array_key config e

unfoldable pub simple_module_tab_array_key : Props → Option Profile → Text → Text
unfolding extra_array_key
simple_module_tab_array_key config p tab =
    if (tab === codes "vip-items") && simple_module_has_vip_items p
    then simple_module_vip_array_key config p
    else extra_array_key config p (simple_module_extra_profile p tab)

extra_tab : Option Extra → Option Text
extra_tab none = none
extra_tab (some e) = some e.tab

-- The tab whose list has the given key.
unfoldable pub simple_module_array_match : Option Profile → Text → Props → Option Text
unfolding extra_tab
simple_module_array_match none key config = none
simple_module_array_match (some p) key config =
    let low = lower key in
    let extra =
      find (λ e. low === lower (simple_module_extra_array_key config e))
        (simple_module_extra_arrays (some p)) in
    if not (truthy key)
    then none
    else if low === lower (simple_module_array_key config (some p))
    then some (codes "items")
    else if simple_module_has_vip_items (some p)
        && (low === lower (simple_module_vip_array_key config (some p)))
    then some (codes "vip-items")
    else extra_tab extra

-- `simpleModuleEditIndex`: null, -1 for a new row, or the place of a row.
pub data Index : Type 0 where
  no_index new_index : Index
  at_index : ℕ → Index

pub record Editor : Type 0 where
  pub draft : Option Props
  pub tab : Text
  pub array_key : Option Text
  pub index : Index
  pub row : Option Value
  pub is_new : Bool
  pub setting_path : Option Text

unfoldable pub clone_plain : Value → Value
clone_plain v = if is_nullish v then obj end else v

unfoldable pub reset_simple_module_item_editor : Editor → Editor
reset_simple_module_item_editor s = record {
  draft = s.draft;
  tab = s.tab;
  array_key = none;
  index = no_index;
  row = none;
  is_new = false;
  setting_path = s.setting_path;
}

unfoldable pub draft_or_empty : Option Props → Props
draft_or_empty none = []
draft_or_empty (some config) = config

open_create : Value → Text → Option Text → Editor → Editor × Bool
open_create item key none s = (s, false)
open_create item key (some tab) s = (
  record {
    draft = some (draft_or_empty s.draft);
    tab = tab;
    array_key = some key;
    index = new_index;
    row = some (clone_plain item);
    is_new = true;
    setting_path = none;
  },
  true,
)

-- The profile is that of the selected module, whose name and whose expiry of a new row the default
-- row depends on.
unfoldable pub begin_simple_module_create :
    Option Profile → Text → Text → Text → Editor → Editor × Bool
unfolding open_create
begin_simple_module_create p expires module_name key s =
    open_create (default_array_item expires key module_name) key
      (simple_module_array_match p key (draft_or_empty s.draft)) s

true_row : Option Value → Option Value
true_row none = none
true_row (some v) = if is_true v then some v else none

unfoldable pub row_at : List Value → ℕ → Option Value
unfolding true_row
row_at rows i = true_row (get_elem? rows i)

open_edit : Text → ℕ → Option Text → Option Value → Editor → Editor × Bool
open_edit key i (some tab) (some v) s = (
  record {
    draft = s.draft;
    tab = tab;
    array_key = some key;
    index = at_index i;
    row = some (clone_plain v);
    is_new = false;
    setting_path = none;
  },
  true,
)
open_edit key i t v s = (s, false)

unfoldable pub begin_simple_module_edit : Option Profile → Text → ℕ → Editor → Editor × Bool
unfolding open_edit row_at
begin_simple_module_edit p key i s =
    open_edit key i (simple_module_array_match p key (draft_or_empty s.draft))
      (row_at (simple_module_rows (draft_or_empty s.draft) key) i) s

store : Editor → Text → List Value → Props → Index → Editor
store s key rows config i = record {
  draft = some (insert key (arr (to_items rows)) config);
  tab = s.tab;
  array_key = s.array_key;
  index = i;
  row = s.row;
  is_new = false;
  setting_path = s.setting_path;
}

-- A list that is missing is made, also when the row then has no place.
replace_row : Editor → Text → Value → List Value → Props → Index → Editor × Bool
replace_row s key v rows config (at_index i) = replace_at (row_at rows i)
  where
    replace_at : Option Value → Editor × Bool
    replace_at none = (store s key rows config (at_index i), false)
    replace_at (some w) = (store s key (set rows i v) config (at_index i), true)
replace_row s key v rows config i = (store s key rows config i, false)

commit_row : Editor → Option Text → Option Value → Option Props → Editor × Bool
unfolding replace_row store
commit_row s (some key) (some v) (some config) =
    let rows = simple_module_rows config key in
    if not (truthy key && is_true v)
    then (s, false)
    else if s.is_new
    then (store s key (rows ++ (clone_plain v ∷ [])) config (at_index (length rows)), true)
    else replace_row s key (clone_plain v) rows config s.index
commit_row s k v c = (s, false)

-- Without the option `reset`, which runs `reset_simple_module_item_editor` behind it.
unfoldable pub commit_simple_module_item_draft : Editor → Editor × Bool
unfolding commit_row row_at
commit_simple_module_item_draft s = commit_row s s.array_key s.row s.draft

unfoldable pub save_simple_module_item_editor : Editor → Editor × Bool
save_simple_module_item_editor s =
    let (out, done) = commit_simple_module_item_draft s in
    (if done then reset_simple_module_item_editor out else out, done)
