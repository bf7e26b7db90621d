-- ===== src/Rewards/Laws.antt =====
-- The items that are read from a text.
use scum_ne_djin_release.Prelude.{
  ◌≡◌, true, false, List, [], ◌∷◌, Bool-cases, inl, inr, All, All-append, ◌==◌, get_elem?,
}
use scum_ne_djin_release.Text.{Text, truthy, trim}
use scum_ne_djin_release.Text.Laws.{trim_idem}
use scum_ne_djin_release.Text.Lines.{split_by}
use scum_ne_djin_release.Js.Numbers.{below}
use scum_ne_djin_release.Js.Numbers.Bounds.{at_least_1}
use scum_ne_djin_release.Rewards.{
  Item, whole_quantity, item_of, items_of, text_at, parse_battlepass_items_text,
}

pub IsGood : Item → Type 0
IsGood i = (truthy i.item_id ≡ true) × (trim i.item_id ≡ i.item_id) × (below i.quantity 1 ≡ false)

item_of-IsGood : (bits : List Text) → All IsGood (item_of bits)
unfolding item_of IsGood whole_quantity
item_of-IsGood bits =
    let id = trim (text_at (get_elem? bits 0)) in
    elim (Bool-cases (truthy id)) [
      | inl e ↦ rw e ((e, trim_idem (text_at (get_elem? bits 0)), at_least_1 _), tt)
      | inr e ↦ rw e tt
    ]

items_of-IsGood : (parts : List Text) → All IsGood (items_of parts)
unfolding items_of
items_of-IsGood [] = tt
items_of-IsGood (p ∷ ps) =
    All-append IsGood (item_of (split_by (λ c. c == b'|') p)) (items_of ps) (item_of-IsGood _)
      (items_of-IsGood ps)

-- Whatever the text of a reward holds, each item that is read from it has a trimmed id that is not
-- empty, and a quantity that is not below 1.
pub parse_items-IsGood : (text : Text) → All IsGood (parse_battlepass_items_text text)
unfolding parse_battlepass_items_text
parse_items-IsGood text = items_of-IsGood _
