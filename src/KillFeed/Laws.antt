-- ===== src/KillFeed/Laws.antt =====
-- What a merge of two events keeps, and what the kill feed shows.
use scum_ne_djin_release.Prelude.{
  ◌≡◌, refl, ap, ◌∙◌, subst, Bool, true, false, not, List, [], ◌∷◌, foldl, if◌then◌else◌, arith,
  All, all, Bool-cases, inl, inr,
}
use scum_ne_djin_release.Text.{Text, codes, ◌===◌, has}
use scum_ne_djin_release.Text.Laws.{===_sound}
use scum_ne_djin_release.Js.{Value, Props}
use scum_ne_djin_release.Js.Laws.{get-insert}
use scum_ne_djin_release.Js.Objects.{get, insert}
use scum_ne_djin_release.KillFeed.Merging.{
  take_detail, take_name, is_unset, take_id, take_message, take_source, detail_keys, name_keys,
  steam_keys, merge_kill_events,
}

-- No key of a list is the given one.
abbrev pub Apart : Text → List Text → Type 0
Apart key js = All (λ j. j === key ≡ false) js

unfoldable pub has_no : List Text → List Text → Bool
has_no ks js = all (λ k. all (λ j. not (j === k)) js) ks

Apart-one : (k : Text) (js : List Text) → all (λ j. not (j === k)) js ≡ true → Apart k js
Apart-one k [] h = tt
Apart-one k (j ∷ js) h = (grind arith, Apart-one k js (grind arith))

-- A key of one list is none of a list that shares no key with it.
pub Apart-has :
    (ks js : List Text) (key : Text) → has_no ks js ≡ true → has ks key ≡ true → Apart key js
unfolding has_no has
Apart-has [] js key h k = absurd cc
Apart-has (i ∷ ks) js key h k = elim (Bool-cases (i === key)) [
  | inl e ↦ subst (λ x. Apart x js) (===_sound i key e) (Apart-one i js (grind arith))
  | inr e ↦ Apart-has ks js key (unfold has_no in grind arith) (unfold has in grind arith)
]

-- A step that writes no other key than its own, along keys that are not the given one.
pub fold-Apart :
    (step : Props → Text → Props) (key : Text)
    → ((m : Props) (j : Text) → j === key ≡ false → get key (step m j) ≡ get key m)
    → (js : List Text) (m : Props) → Apart key js
    → get key (foldl step m js) ≡ get key m
fold-Apart step key other [] m h = refl
fold-Apart step key other (j ∷ js) m (e, h) =
    fold-Apart step key other js (step m j) h ∙ other m j e

-- An insertion under a condition.
insert_if_other :
    (key j : Text) (v : Value) (m : Props) (b : Bool)
    → j === key ≡ false
    → get key (if b then insert j v m else m) ≡ get key m
insert_if_other key j v m true h = get-insert j key v m h
insert_if_other key j v m false h = refl

pub take_detail_other :
    (right : Props) (prefer : Bool) (key : Text) (m : Props) (j : Text)
    → j === key ≡ false
    → get key (take_detail right prefer m j) ≡ get key m
unfolding take_detail
take_detail_other right prefer key m j h = insert_if_other key j _ m _ h

pub take_name_other :
    (right : Props) (key : Text) (m : Props) (j : Text)
    → j === key ≡ false
    → get key (take_name right m j) ≡ get key m
unfolding take_name
take_name_other right key m j h = insert_if_other key j _ m _ h

pub take_id_other :
    (right : Props) (key : Text) (m : Props) (j : Text)
    → j === key ≡ false
    → get key (take_id right m j) ≡ get key m
unfolding take_id
take_id_other right key m j h = insert_if_other key j _ m _ h

take_message_other :
    (right : Props) (prefer : Bool) (key : Text) (m : Props) (j : Text)
    → j === key ≡ false
    → get key (take_message right prefer m j) ≡ get key m
unfolding take_message
take_message_other right prefer key m j h = insert_if_other key j _ m _ h

take_source_other :
    (right : Props) (key : Text) (m : Props)
    → codes "source" === key ≡ false
    → get key (take_source right m) ≡ get key m
unfolding take_source
take_source_other right key m h = insert_if_other key (codes "source") _ m _ h

take_id_kept :
    (right : Props) (key : Text) (m : Props) (j : Text)
    → is_unset (get key m) ≡ false
    → get key (take_id right m j) ≡ get key m
unfolding take_id
take_id_kept right key m j h = elim (Bool-cases (j === key)) [
  | inr e ↦ insert_if_other key j _ m _ e
  | inl e ↦ let same : j ≡ key = ===_sound j key e in rw (same, h) refl
]

fold_ids :
    (right : Props) (key : Text) (js : List Text) (m : Props)
    → is_unset (get key m) ≡ false
    → get key (foldl (take_id right) m js) ≡ get key m
fold_ids right key [] m h = refl
fold_ids right key (j ∷ js) m h =
    let e = take_id_kept right key m j h in
    fold_ids right key js (take_id right m j) (ap is_unset e ∙ h) ∙ e

abbrev pub last_keys : List Text
last_keys = codes "message" ∷ codes "broadcastMessage" ∷ codes "source" ∷ []

-- What is merged behind the names leaves the keys that are none of its own.
pub merge_last :
    (right : Props) (prefer : Bool) (key : Text) (m : Props)
    → Apart key last_keys
    → get key (
        take_source right (
          take_message right prefer
            (take_message right prefer m (codes "message"))
            (codes "broadcastMessage")))
      ≡ get key m
merge_last right prefer key m (a, (b, (c, u))) =
    take_source_other right key _ c
    ∙ take_message_other right prefer key _ (codes "broadcastMessage") b
    ∙ take_message_other right prefer key m (codes "message") a

ids_apart :
    (has_no steam_keys detail_keys ≡ true)
    × (has_no steam_keys name_keys ≡ true)
    × (has_no steam_keys last_keys ≡ true)
unfolding has_no ◌===◌
ids_apart = (refl, refl, refl)

pub names_apart :
    (has_no name_keys detail_keys ≡ true)
    × (has_no name_keys steam_keys ≡ true)
    × (has_no name_keys last_keys ≡ true)
unfolding has_no ◌===◌
names_apart = (refl, refl, refl)

-- A merge never replaces an id that the first event has and that is not blank.
pub merge_keeps_ids :
    (left right : Props) (key : Text)
    → has steam_keys key ≡ true
    → is_unset (get key left) ≡ false
    → get key (merge_kill_events left right) ≡ get key left
unfolding merge_kill_events
merge_keeps_ids left right key h k =
    let (a, b, c) = ids_apart in
    let details =
      fold-Apart _ key (take_detail_other right _ key) detail_keys left
        (Apart-has steam_keys detail_keys key a h) in
    let names =
      fold-Apart _ key (take_name_other right key) name_keys _
        (Apart-has steam_keys name_keys key b h) in
    merge_last right _ key _ (Apart-has steam_keys last_keys key c h)
    ∙ fold_ids right key steam_keys _ (ap is_unset (names ∙ details) ∙ k)
    ∙ names
    ∙ details
