-- ===== src/Nested/Laws.antt =====
-- What `getNestedValue` reads behind a `setNestedValue` of the same key.
use scum_ne_djin_release.Prelude.{
  true, false, [], ◌∷◌, some, ◌≡◌, refl, subst, sym, ◌∙◌, ap, arith, Bool-cases, Option-cases, inl,
  inr, ◌||◌,
}
use scum_ne_djin_release.Text.{Text, ◌===◌, lower}
use scum_ne_djin_release.Text.Laws.{===_iff, ===_refl, ===_sound}
use scum_ne_djin_release.Js.{Value, str, obj, Fields, Props, props}
use scum_ne_djin_release.Js.Objects.{lookup, insert, has_own, find_key, get}
use scum_ne_djin_release.Js.Laws.{
  get-insert_self, lookup-insert, lookup-insert_self, has_own_iff, props-to_fields,
}
use scum_ne_djin_release.Js.Convert.{is_nullish, ◌nullish_else◌}
use scum_ne_djin_release.Nested.{own, set_property, write_key, read_step, get_parts, set_parts}

-- The key itself, where it is there, is the first that matches in any case.
abbrev pub IsClear : Text → Props → Type 0
IsClear p ps = has_own p ps ≡ true → find_key (lower p) ps ≡ some p

has_own-insert :
    (k p : Text) (v : Value) (ps : Props) → has_own p (insert k v ps) ≡ (k === p || has_own p ps)
unfolding has_own insert
has_own-insert k p v [] = refl
has_own-insert k p v ((j, w) ∷ ps) =
    ground (arith, ===_iff j k, ===_iff j p, ===_iff k p, has_own-insert k p v ps)

find_key-insert :
    (w k : Text) (v : Value) (ps : Props)
    → find_key w ps ≡ some k
    → find_key w (insert k v ps) ≡ some k
unfolding find_key insert
find_key-insert w k v [] h = cc
find_key-insert w k v ((j, u) ∷ ps) h = elim (Bool-cases (lower j === w)) [
  | inl e ↦
      let same : j ≡ k = ground (arith, h, e) in
      let f : j === k ≡ true = (===_iff j k).1 same in rw (f, e) (ap some same)
  | inr e ↦ elim (Bool-cases (j === k)) [
    | inl f ↦ rw (f, e) (rw e at h)
    | inr f ↦ rw (f, e) (find_key-insert w k v ps (rw e at h))
  ]
]

read_step-insert :
    (p : Text) (v : Value) (ps : Props)
    → IsClear p ps
    → read_step p (insert (write_key p ps) v ps) ≡ v
unfolding read_step write_key
read_step-insert p v ps clear = elim (Option-cases (find_key (lower p) ps)) [
  | inl e ↦ rw (e, has_own-insert p p v ps, ===_refl p) (get-insert_self p v ps)
  | inr (k, e) ↦ elim (Bool-cases (k === p)) [
    | inl f ↦
        rw (e, has_own-insert k p v ps, f)
          (subst (λ x. get p (insert x v ps) ≡ v) (sym (===_sound k p f)) (get-insert_self p v ps))
    | inr f ↦ elim (Bool-cases (has_own p ps)) [
      | inl g ↦ cc (clear g, e, f, ===_refl p)
      | inr g ↦
          rw (e, has_own-insert k p v ps, f, g, find_key-insert (lower p) k v ps e)
            (get-insert_self k v ps)
    ]
  ]
]

-- A value written to a key of an object is read back through the same key, in whatever case the
-- object spells it, and null and undefined are read back as '', unless the object holds the key
-- itself behind one that differs from it in case alone.
pub get_parts-set_parts :
    (p : Text) (v : Value) (fs : Fields)
    → IsClear p (props fs)
    → get_parts (p ∷ []) (set_parts (p ∷ []) v (obj fs)) ≡ (v nullish_else str [])
unfolding get_parts set_parts own set_property is_nullish
get_parts-set_parts p v fs clear =
    rw
      (
        props-to_fields (insert (write_key p (props fs)) v (props fs)),
        read_step-insert p v (props fs) clear,
      )
      refl

insert_other :
    (k p : Text) (v : Value) (ps : Props) → k === p ≡ false → lookup p (insert k v ps) ≡ lookup p ps
insert_other k p v ps h = lookup-insert k p v ps ∙ rw h

-- Where an object holds a key behind another spelling of it, a write at the key sets the property
-- of the first spelling, and no other, and a read at the key still gives the value that the key
-- itself has, as long as that is not null or undefined.
pub shadowed_write :
    (p k : Text) (v w : Value) (fs : Fields)
    → find_key (lower p) (props fs) ≡ some k
    → k === p ≡ false
    → lookup p (props fs) ≡ some w
    → is_nullish w ≡ false
    → (own (set_parts (p ∷ []) v (obj fs)) ≡ insert k v (props fs))
      × (get k (own (set_parts (p ∷ []) v (obj fs))) ≡ v)
      × (get_parts (p ∷ []) (set_parts (p ∷ []) v (obj fs)) ≡ w)
unfolding get_parts set_parts own set_property is_nullish ◌nullish_else◌ write_key read_step get
shadowed_write p k v w fs e f l h =
    let stored = props-to_fields (insert k v (props fs)) in
    (
      rw (e, stored) refl,
      rw (e, stored, lookup-insert_self k v (props fs)) refl,
      rw (e, stored, has_own_iff p (insert k v (props fs)), insert_other k p v (props fs) f, l, h)
          refl,
    )
