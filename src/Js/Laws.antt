-- ===== src/Js/Laws.antt =====
-- Laws of properties and of the values that `is_true` keeps.
use scum_ne_djin_release.Prelude.{
  false, List, [], ◌∷◌, some, if◌then◌else◌, ◌≡◌, refl, arith, is_some, ap, Bool-cases, inl, inr,
}
use scum_ne_djin_release.Text.{Text, ◌===◌}
use scum_ne_djin_release.Text.Laws.{===_iff, ===_refl}
use scum_ne_djin_release.Js.{
  Value, Props, Fields, end, field, props, to_fields, Items, nil, cons, items, to_items,
}
use scum_ne_djin_release.Js.Objects.{get, lookup, insert, has_own}

pub lookup-insert :
    (k j : Text) (v : Value) (ps : Props)
    → lookup j (insert k v ps) ≡ (if k === j then some v else lookup j ps)
unfolding lookup insert
lookup-insert k j v [] = refl
lookup-insert k j v ((i, w) ∷ ps) =
    ground (arith, ===_iff k j, ===_iff i k, ===_iff i j, lookup-insert k j v ps)

pub lookup-insert_self : (k : Text) (v : Value) (ps : Props) → lookup k (insert k v ps) ≡ some v
lookup-insert_self k v ps = simp (lookup-insert, ===_refl)

pub get-insert :
    (k j : Text) (v : Value) (p : Props) → k === j ≡ false → get j (insert k v p) ≡ get j p
unfolding get
get-insert k j v p h = rw (lookup-insert k j v p, h) refl

pub get-insert_self : (k : Text) (v : Value) (p : Props) → get k (insert k v p) ≡ v
unfolding get
get-insert_self k v p = rw (lookup-insert_self k v p) refl

pub has_own_iff : (k : Text) (ps : Props) → has_own k ps ≡ is_some (lookup k ps)
unfolding has_own lookup
has_own_iff k [] = refl
has_own_iff k ((j, w) ∷ ps) = ground (arith, has_own_iff k ps)

pub insert_twice :
    (k : Text) (v w : Value) (ps : Props) → insert k w (insert k v ps) ≡ insert k w ps
unfolding insert
insert_twice k v w [] = rw (===_refl k)
insert_twice k v w ((j, u) ∷ ps) = elim (Bool-cases (j === k)) [
  | inl h ↦ rw (h, h)
  | inr h ↦ rw (h, h) (ap (◌∷◌ (j, u)) (insert_twice k v w ps))
]

pub props-to_fields : (ps : Props) → props (to_fields ps) ≡ ps
unfolding props to_fields
props-to_fields [] = refl
props-to_fields ((k, v) ∷ ps) = ap (◌∷◌ (k, v)) (props-to_fields ps)

pub to_fields-props : (fs : Fields) → to_fields (props fs) ≡ fs
unfolding props to_fields
to_fields-props end = refl
to_fields-props (field k v fs) = ap (field k v) (to_fields-props fs)

pub items-to_items : (vs : List Value) → items (to_items vs) ≡ vs
unfolding items to_items
items-to_items [] = refl
items-to_items (v ∷ vs) = ap (◌∷◌ v) (items-to_items vs)

pub to_items-items : (vs : Items) → to_items (items vs) ≡ vs
unfolding items to_items
to_items-items nil = refl
to_items-items (cons v vs) = ap (cons v) (to_items-items vs)
