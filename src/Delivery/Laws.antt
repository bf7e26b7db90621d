-- ===== src/Delivery/Laws.antt =====
-- What the form refuses, and what it lets through.
use scum_ne_djin_release.Prelude.{
  ℕ, ◌≡◌, ◌≢◌, ◌⊎◌, ◌↔◌, refl, Bool, true, false, not, ◌||◌, List, [], ◌∷◌, foldl, Bool-cases, inl,
  inr, arith, All, All-append, All-remove_at, all,
}
use scum_ne_djin_release.Text.{Text, codes, ◌===◌, truthy, trim}
use scum_ne_djin_release.Text.Laws.{trim_idem, truthy-ne-nil, falsy-eq-nil}
use scum_ne_djin_release.Js.{Props}
use scum_ne_djin_release.Js.Numbers.{below, is_nonzero}
use scum_ne_djin_release.Js.Numbers.Bounds.{at_least_1}
use scum_ne_djin_release.Chat.{first_text}
use scum_ne_djin_release.Delivery.{
  DeliveryItem, Form, number_in, is_any, is_empty_amount, is_zero, attribute_values, complaints,
  validate_wargm_request, add_wargm_item_from_inputs, remove_wargm_item, delivery_items,
  delivery_body, refused, requested, deliver,
}

-- A first text is empty exactly if none of the cases holds.
first_text_nil :
    (cases : List (Bool × Text))
    → All (λ c. truthy c.1 ≡ true) cases
    → (first_text cases [] ≡ []) ↔ All (λ c. c.0 ≡ false) cases
unfolding first_text
first_text_nil [] h = ((λ e. tt), λ e. refl)
first_text_nil ((c, t) ∷ cases) (k, h) = elim (Bool-cases c) [
  | inl e ↦ rw e ((λ q. absurd (filled t k q)), λ q. absurd (go q.0))
  | inr e ↦
      let (forth, back) = first_text_nil cases h in rw e ((λ q. (refl, forth q)), λ q. back q.1)
]
  where
    go : true ≡ false → ⊥
    go q = cc

    filled : (t : Text) → truthy t ≡ true → t ≡ [] → ⊥
    filled t k q = unfold truthy in cc

complaints_filled : (f : Form) → All (λ c. truthy c.1 ≡ true) (complaints f)
unfolding complaints truthy
complaints_filled f = (refl, (refl, (refl, (refl, (refl, (refl, (refl, (refl, tt))))))))

-- What each kind of delivery needs.
pub record IsReady (f : Form) : Type 0 where
  pub has_target : truthy (trim f.service_target) ≡ true
  pub has_items : (not (f.mode === codes "item") || is_any (delivery_items f)) ≡ true
  pub has_vehicle : (not (f.mode === codes "vehicle") || truthy (trim f.vehicle_id)) ≡ true
  pub has_amount :
      (not ((f.mode === codes "money") || ((f.mode === codes "gold") || (f.mode === codes "fame")))
        || is_nonzero (number_in f.amount 0))
      ≡ true
  pub has_days : (not (f.mode === codes "vip") || not (below (number_in f.amount 0) 1)) ≡ true
  pub has_skill : (not (f.mode === codes "skill") || truthy (trim f.skill)) ≡ true
  pub has_attributes :
      (not (f.mode === codes "attributes") || not (all is_zero (attribute_values f))) ≡ true
  pub has_command : (not (f.mode === codes "command") || truthy (trim f.command)) ≡ true

items_or_id :
    (f : Form) → is_any (delivery_items f) ≡ (is_any f.wargm_items || truthy (trim f.single_id))
unfolding delivery_items is_any
items_or_id f = elim (Bool-cases (is_any f.wargm_items)) [
  | inl e ↦ rw (e, e) refl
  | inr e ↦ elim (Bool-cases (truthy (trim f.single_id))) [
    | inl d ↦ rw (e, d) refl
    | inr d ↦ rw (e, d) refl
  ]
]

IsReady-of_none : (f : Form) → All (λ c. c.0 ≡ false) (complaints f) → IsReady f
unfolding complaints is_empty_amount
IsReady-of_none f (a, (b, (c, (d, (e, (g, (h, (i, u)))))))) = record {
  has_target = ground arith;
  has_items = ground (arith, items_or_id f);
  has_vehicle = ground arith;
  has_amount = ground arith;
  has_days = ground arith;
  has_skill = ground arith;
  has_attributes = ground arith;
  has_command = ground arith;
}

none_of_ready : (f : Form) → IsReady f → All (λ c. c.0 ≡ false) (complaints f)
unfolding complaints is_empty_amount
none_of_ready f r = (
  ground (arith, r.has_target),
  (
    ground (arith, r.has_items, items_or_id f),
    (
      ground (arith, r.has_vehicle),
      (
        ground (arith, r.has_amount),
        (
          ground (arith, r.has_days),
          (
            ground (arith, r.has_skill),
            (ground (arith, r.has_attributes), (ground (arith, r.has_command), tt)),
          ),
        ),
      ),
    ),
  ),
)

-- The form has no complaint exactly if the kind of delivery has all that it needs: a target, and
-- an item, a vehicle, an amount other than 0, at least one day, a skill, an attribute other than
-- 0 or a command.
pub validate-IsReady : (f : Form) → (validate_wargm_request f ≡ []) ↔ IsReady f
unfolding validate_wargm_request
validate-IsReady f =
    let (forth, back) = first_text_nil (complaints f) (complaints_filled f) in
    ((λ h. IsReady-of_none f (forth h)), λ r. back (none_of_ready f r))

-- An item has a trimmed id that is not empty, and a quantity that is not below 1.
abbrev pub IsStocked : DeliveryItem → Type 0
IsStocked i =
    (truthy i.item_id ≡ true) × (trim i.item_id ≡ i.item_id) × (below i.quantity 1 ≡ false)

-- A click on "add", a click on the removal of an item, or new texts in the inputs.
pub data FormAction : Type 0 where
  add : FormAction
  remove : ℕ → FormAction
  type_in : Form → FormAction

unfoldable pub act : Form → FormAction → Form
act f add = add_wargm_item_from_inputs f
act f (remove i) = remove_wargm_item i f
act f (type_in g) = record g { wargm_items = f.wargm_items }

add-IsStocked :
    (f : Form)
    → All IsStocked f.wargm_items
    → All IsStocked (add_wargm_item_from_inputs f).wargm_items
unfolding add_wargm_item_from_inputs
add-IsStocked f h = elim (Bool-cases (truthy (trim f.single_id))) [
  | inr e ↦ rw e h
  | inl e ↦ rw e (
      All-append IsStocked f.wargm_items (_ ∷ []) h
        ((e, trim_idem f.single_id, at_least_1 (number_in f.qty 1)), tt))
]

act-IsStocked :
    (f : Form) (a : FormAction) → All IsStocked f.wargm_items → All IsStocked (act f a).wargm_items
unfolding act remove_wargm_item
act-IsStocked f add h = add-IsStocked f h
act-IsStocked f (remove i) h = All-remove_at IsStocked f.wargm_items i h
act-IsStocked f (type_in g) h = h

-- Whatever is typed, added and removed, from a set whose items are so, each item of the set
-- has a trimmed id that is not empty and a quantity that is not below 1.
pub session-IsStocked :
    (actions : List FormAction) (f : Form)
    → All IsStocked f.wargm_items
    → All IsStocked (foldl act f actions).wargm_items
session-IsStocked [] f h = h
session-IsStocked (a ∷ actions) f h = session-IsStocked actions (act f a) (act-IsStocked f a h)

-- A click on "deliver" either shows a complaint and sends nothing, or sends the body of a form
-- that has all that its kind of delivery needs.
pub deliver-IsReady :
    (players : List Props) (f : Form)
    → ((m : Text) × (deliver players f ≡ refused m) × (m ≢ []))
      ⊎ ((deliver players f ≡ requested (delivery_body players f)) × IsReady f)
unfolding deliver
deliver-IsReady players f = elim (Bool-cases (truthy (validate_wargm_request f))) [
  | inl e ↦ rw e (inl (validate_wargm_request f, refl, truthy-ne-nil _ e))
  | inr e ↦ rw e (inr (refl, (validate-IsReady f).0 (falsy-eq-nil _ e)))
]
