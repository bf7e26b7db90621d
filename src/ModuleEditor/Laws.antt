-- ===== src/ModuleEditor/Laws.antt =====
-- What a committed row changes.
use scum_ne_djin_release.Prelude.{
  ℕ, zero, suc, ◌≡◌, refl, sym, ap, true, List, [], ◌∷◌, ◌++◌, some, get_elem?, set, length,
}
use scum_ne_djin_release.Text.{Text, truthy}
use scum_ne_djin_release.Js.{Value, undefined, null, bool, num, str, arr, obj, Props, to_items}
use scum_ne_djin_release.Js.Objects.{get, insert}
use scum_ne_djin_release.Js.Laws.{lookup-insert_self, insert_twice, items-to_items}
use scum_ne_djin_release.Js.Convert.{is_true, is_nullish}
use scum_ne_djin_release.ModuleEditor.{
  Editor, clone_plain, commit_simple_module_item_draft, simple_module_rows, draft_or_empty, row_at,
}

get_last : (rows : List Value) (v : Value) → get_elem? (rows ++ (v ∷ [])) (length rows) ≡ some v
get_last [] v = refl
get_last (r ∷ rows) v = get_last rows v

set_last :
    (rows : List Value) (v : Value) → set (rows ++ (v ∷ [])) (length rows) v ≡ rows ++ (v ∷ [])
set_last [] v = refl
set_last (r ∷ rows) v = ap (◌∷◌ r) (set_last rows v)

some_inj : {x y : Value} → some x ≡ some y → x ≡ y
some_inj h = cc

set_same : (rows : List Value) (i : ℕ) (v : Value) → get_elem? rows i ≡ some v → set rows i v ≡ rows
set_same [] i v h = refl
set_same (r ∷ rows) zero v h = ap (λ x. x ∷ rows) (sym (some_inj h))
set_same (r ∷ rows) (suc i) v h = ap (◌∷◌ r) (set_same rows i v h)

pub clone_true : (v : Value) → is_true v ≡ true → clone_plain v ≡ v
unfolding clone_plain is_true is_nullish
clone_true undefined h = cc
clone_true null h = cc
clone_true (bool b) h = refl
clone_true (num n) h = refl
clone_true (str s) h = refl
clone_true (arr vs) h = refl
clone_true (obj fs) h = refl

row_at_last :
    (rows : List Value) (v : Value)
    → is_true v ≡ true
    → row_at (rows ++ (v ∷ [])) (length rows) ≡ some v
unfolding row_at
row_at_last rows v h = rw (get_last rows v, h) refl

rows-insert :
    (config : Props) (k : Text) (rows : List Value)
    → simple_module_rows (insert k (arr (to_items rows)) config) k ≡ rows
unfolding simple_module_rows get
rows-insert config k rows =
    rw (lookup-insert_self k (arr (to_items rows)) config) (items-to_items rows)

-- The row that is committed for a new entry is stored once: a second commit changes nothing.
pub commit_new_twice :
    (s : Editor) (config : Props) (key : Text) (v : Value)
    → s.draft ≡ some config
    → s.array_key ≡ some key
    → s.row ≡ some v
    → s.is_new ≡ true
    → truthy key ≡ true
    → is_true v ≡ true
    → let (out, done) = commit_simple_module_item_draft s in
      (done ≡ true)
      × (simple_module_rows (draft_or_empty out.draft) key
          ≡ simple_module_rows config key ++ (v ∷ []))
      × (commit_simple_module_item_draft out ≡ (out, true))
unfolding commit_simple_module_item_draft draft_or_empty
commit_new_twice s config key v h j k l m n =
    let rows = simple_module_rows config key in
    rw
      (
        h,
        j,
        k,
        l,
        clone_true v n,
        m,
        n,
        rows-insert config key (rows ++ (v ∷ [])),
        row_at_last rows v n,
      )
      (
        refl,
        refl,
        rw
            (
              m,
              n,
              clone_true v n,
              set_last rows v,
              insert_twice key (arr (to_items (rows ++ (v ∷ []))))
                  (arr (to_items (rows ++ (v ∷ [])))) config,
            )
            refl,
      )
