-- ===== src/ModuleEditor/Creating.antt =====
-- A row that is added is the default row of its list.
use scum_ne_djin_release.Prelude.{
  ◌≡◌, refl, Bool, true, List, [], ◌∷◌, ◌++◌, Option, none, some, Bool-cases, inl, inr, All,
}
use scum_ne_djin_release.Text.{Text, truthy}
use scum_ne_djin_release.Js.{Value, Props}
use scum_ne_djin_release.Js.Convert.{is_true}
use scum_ne_djin_release.Modules.Items.{default_array_item, first_case, array_item_cases}
use scum_ne_djin_release.ModuleEditor.{
  Editor, Profile, new_index, commit_simple_module_item_draft, begin_simple_module_create,
  simple_module_rows, draft_or_empty, simple_module_array_match,
}
use scum_ne_djin_release.ModuleEditor.Laws.{commit_new_twice, clone_true}

case_true :
    (cases : List (Bool × Value))
    → All (λ c. is_true c.1 ≡ true) cases
    → is_true (first_case cases) ≡ true
unfolding is_true first_case
case_true [] h = refl
case_true ((c, v) ∷ cases) (k, h) = elim (Bool-cases c) [
  | inl e ↦ rw e k
  | inr e ↦ rw e (case_true cases h)
]

default_item_true :
    (expires key module_name : Text) → is_true (default_array_item expires key module_name) ≡ true
unfolding is_true default_array_item array_item_cases
default_item_true expires key module_name = case_true (array_item_cases expires key module_name) (
  refl,
  (
    refl,
    (
      refl,
      (
        refl,
        (
          refl,
          (
            refl,
            (
              refl,
              (refl, (refl, (refl, (refl, (refl, (refl, (refl, (refl, (refl, (refl, tt)))))))))),
            ),
          ),
        ),
      ),
    ),
  ),
)

match-truthy :
    (p : Option Profile) (key : Text) (config : Props) (tab : Text)
    → simple_module_array_match p key config ≡ some tab
    → truthy key ≡ true
unfolding simple_module_array_match
match-truthy none key config tab h = absurd cc
match-truthy (some p) key config tab h = elim (Bool-cases (truthy key)) [ inl e ↦ e | inr e ↦ cc ]

-- Adding a row to a list of the profile and committing it puts the default row of that list behind
-- the rows that the list has, and nothing else into it.
pub created_row :
    (p : Option Profile) (s : Editor) (config : Props) (key tab expires module_name : Text)
    → s.draft ≡ some config
    → simple_module_array_match p key config ≡ some tab
    → let item = default_array_item expires key module_name in
      let (opened, ok) = begin_simple_module_create p expires module_name key s in
      let (out, done) = commit_simple_module_item_draft opened in
      (ok ≡ true)
      × (done ≡ true)
      × (simple_module_rows (draft_or_empty out.draft) key
          ≡ simple_module_rows config key ++ (item ∷ []))
unfolding begin_simple_module_create draft_or_empty
created_row p s config key tab expires module_name h m =
    let item = default_array_item expires key module_name in
    let t = default_item_true expires key module_name in
    let opened : Editor = record {
      draft = some config;
      tab = tab;
      array_key = some key;
      index = new_index;
      row = some item;
      is_new = true;
      setting_path = none;
    } in
    let (done, rows, again) =
      commit_new_twice opened config key item refl refl refl refl (match-truthy p key config tab m)
        t in
    rw (h, m, clone_true item t) (refl, done, rows)
