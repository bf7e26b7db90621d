-- ===== src/KillFeed/Names.antt =====
-- The names of a merged event are at least as good as those of both events.
use scum_ne_djin_release.Prelude.{
  ◌≤◌, ◌≡◌, refl, ap, ◌∙◌, Bool, true, false, not, ◌&&◌, ◌||◌, List, [], ◌∷◌, foldl, ltb, leb,
  if◌then◌else◌, arith, Bool-cases, inl, inr,
}
use scum_ne_djin_release.Text.{Text, ◌===◌, has}
use scum_ne_djin_release.Text.Laws.{===_sound}
use scum_ne_djin_release.Js.{Value, Props}
use scum_ne_djin_release.Js.Laws.{get-insert_self}
use scum_ne_djin_release.Js.Objects.{get}
use scum_ne_djin_release.Js.Convert.{is_true}
use scum_ne_djin_release.KillFeed.{text_quality, better_text}
use scum_ne_djin_release.KillFeed.Merging.{
  take_detail, take_name, detail_keys, name_keys, steam_keys, merge_kill_events,
}
use scum_ne_djin_release.KillFeed.Laws.{
  Apart-has, fold-Apart, take_detail_other, take_id_other, merge_last, names_apart, take_name_other,
  last_keys,
}
use scum_ne_djin_release.KillFeed.Details.{kill_event_quality}

-- What a merge keeps of two names: the second, if it is there and better.
abbrev pub merged_of : Value → Value → Value
merged_of left right =
    if is_true right && ltb (text_quality left) (text_quality right) then right else left

not_worse :
    (left right : Value)
    → (text_quality left ≤ text_quality (merged_of left right))
      × ((not (is_true right) || leb (text_quality right) (text_quality (merged_of left right)))
          ≡ true)
not_worse left right =
    elim (Bool-cases (is_true right && ltb (text_quality left) (text_quality right))) [
      | inl e ↦ rw e (grind arith, grind arith)
      | inr e ↦ rw e (omega arith, grind arith)
    ]

if_same : (b : Bool) (v : Value) → (if b then v else v) ≡ v
if_same true v = refl
if_same false v = refl

merged_of_idem :
    (left right : Value) → merged_of (merged_of left right) right ≡ merged_of left right
merged_of_idem left right =
    elim (Bool-cases (is_true right && ltb (text_quality left) (text_quality right))) [
      | inl e ↦ rw e (if_same _ right)
      | inr e ↦ rw (e, e) refl
    ]

and_false : (b : Bool) → b && false ≡ false
and_false b = grind arith

module _ (right : Props) (key : Text) where
  step_own : (m : Props) → get key (take_name right m key) ≡ merged_of (get key m) (get key right)
  unfolding take_name better_text
  step_own m =
      let l = get key m in
      let r = get key right in
      elim (Bool-cases (ltb (text_quality l) (text_quality r))) [
        | inl e ↦ elim (Bool-cases (is_true r)) [
          | inl t ↦ rw (e, t) (get-insert_self key r m)
          | inr t ↦ rw (e, t) refl
        ]
        | inr e ↦ elim (Bool-cases (is_true l)) [
          | inl t ↦ rw (e, t, get-insert_self key l m, and_false (is_true r)) refl
          | inr t ↦ rw (e, t, and_false (is_true r)) refl
        ]
      ]

  fold_names :
      (js : List Text) (m : Props)
      → get key (foldl (take_name right) m js)
        ≡ (if has js key then merged_of (get key m) (get key right) else get key m)
  unfolding has
  fold_names [] m = refl
  fold_names (j ∷ js) m = elim (Bool-cases (j === key)) [
    | inl e ↦
        let same : take_name right m j ≡ take_name right m key =
          ap (take_name right m) (===_sound j key e) in
        rw
          (
            e,
            fold_names js (take_name right m j),
            same,
            step_own m,
            merged_of_idem (get key m) (get key right),
          )
          (if_same (has js key) (merged_of (get key m) (get key right)))
    | inr e ↦ rw (e, fold_names js (take_name right m j), take_name_other right key m j e) refl
  ]

-- Under the key of a name, a merge holds what the step of the names makes of the first event.
merged_name :
    (left right : Props) (key : Text)
    → has name_keys key ≡ true
    → (d : Props) × (get key (merge_kill_events left right)
        ≡ get key (foldl (take_name right) d name_keys))
      × (get key d ≡ get key left)
unfolding merge_kill_events
merged_name left right key h =
    let (a, b, c) = names_apart in
    (
      foldl (take_detail right (ltb (kill_event_quality left) (kill_event_quality right))) left
          detail_keys,
      merge_last right _ key _ (Apart-has name_keys last_keys key c h)
          ∙ fold-Apart _ key (take_id_other right key) steam_keys _
              (Apart-has name_keys steam_keys key b h),
      fold-Apart _ key (take_detail_other right _ key) detail_keys left
          (Apart-has name_keys detail_keys key a h),
    )

-- Under each key of a name, a merge keeps the first event's name, or the second's if it is there and
-- of a better quality, and so what is kept is at least as good as the first's, and as the second's
-- where there is one.
pub merge_betters_names :
    (left right : Props) (key : Text)
    → has name_keys key ≡ true
    → let kept = get key (merge_kill_events left right) in
      (kept ≡ merged_of (get key left) (get key right))
      × (text_quality (get key left) ≤ text_quality kept)
      × ((not (is_true (get key right)) || leb (text_quality (get key right)) (text_quality kept))
          ≡ true)
merge_betters_names left right key h =
    let (d, e, f) = merged_name left right key h in
    let kept : get key (merge_kill_events left right) ≡ merged_of (get key left) (get key right) =
      rw (e, fold_names right key name_keys d, h, f) refl in
    let (a, b) = not_worse (get key left) (get key right) in rw kept (refl, a, b)
