-- ===== src/Rewards.antt =====
-- The items of a battle pass reward as text: `battlepassItemsTextKey`,
-- `parseBattlepassItemsText`, `formatBattlepassItemsText`, `battlepassItemCountLabel`,
-- `battlepassRewardItems` and `setBattlepassRewardItems` of
-- src/ScumWarden.Server/wwwroot/app.js.
pub mod Laws
pub mod Tests
use scum_ne_djin_release.Prelude.{
  ℕ, Bool, true, false, not, ◌&&◌, ◌||◌, List, [], ◌∷◌, ◌++◌, map, Option, none, some,
  if◌then◌else◌, ◌==◌, filter, get_elem?, length,
}
use scum_ne_djin_release.Text.{Text, codes, truthy, trim, ◌orelse◌}
use scum_ne_djin_release.Text.Lines.{split_by, join}
use scum_ne_djin_release.Js.{Value, str, obj, Props, to_fields}
use scum_ne_djin_release.Js.Numbers.{
  Number, int, is_nonzero, at_least, floor, read_number, print_number,
}
use scum_ne_djin_release.Js.Objects.{get, insert, find_key}
use scum_ne_djin_release.Js.Convert.{to_text, ◌or_else◌}
use scum_ne_djin_release.Nested.{get_nested_value}

pub record Item : Type 0 where
  pub item_id : Text
  pub quantity : Number

filled_key : Option Text → Text → Text
filled_key none other = other
filled_key (some k) other = k orelse other

unfoldable pub battlepass_items_text_key : Props → Text
unfolding filled_key
battlepass_items_text_key row =
    filled_key (find_key (codes "itemstext") row)
      (filled_key (find_key (codes "itemsspec") row) (codes "ItemsText"))

text_at : Option Text → Text
text_at none = []
text_at (some s) = s

-- `Math.max(1, Math.floor(n || 1))`
unfoldable pub whole_quantity : Number → Number
whole_quantity n = at_least 1 (floor (if is_nonzero n then n else int 1))

unfoldable pub item_of : List Text → List Item
unfolding text_at
item_of bits =
    let id = trim (text_at (get_elem? bits 0)) in
    let quantity = whole_quantity (read_number (text_at (get_elem? bits 1) orelse codes "1")) in
    if truthy id then record { item_id = id; quantity = quantity } ∷ [] else []

items_of : List Text → List Item
items_of [] = []
items_of (part ∷ parts) = item_of (split_by (λ c. c == b'|') part) ++ items_of parts

-- Parts between separators that follow each other are blank, and left out.
unfoldable pub parse_battlepass_items_text : Text → List Item
unfolding items_of
parse_battlepass_items_text text =
    items_of
      (filter truthy (map trim (split_by (λ c. (c == b';') || ((c == 13) || (c == 10))) text)))

item_text : Item → Text
item_text i =
    let id = trim i.item_id in
    if truthy id then id ++ codes "|" ++ print_number (whole_quantity i.quantity) else []

unfoldable pub format_battlepass_items_text : List Item → Text
unfolding item_text
format_battlepass_items_text items = join (codes ";") (filter truthy (map item_text items))

pub data CountLabel : Type 0 where
  no_items one_item : CountLabel
  few_items many_items : ℕ → CountLabel

unfoldable pub battlepass_item_count_label : ℕ → CountLabel
battlepass_item_count_label n =
    if n == 0
    then no_items
    else if n == 1
    then one_item
    else if (n == 2) || ((n == 3) || (n == 4))
    then few_items n
    else many_items n

unfoldable pub battlepass_items_summary : Text → CountLabel
battlepass_items_summary text =
    battlepass_item_count_label (length (parse_battlepass_items_text text))

unfoldable pub battlepass_reward_items : Props → List Item
battlepass_reward_items row = parse_battlepass_items_text (
    to_text (get_nested_value (obj (to_fields row)) (battlepass_items_text_key row) or_else str []))

unfoldable pub set_battlepass_reward_items : Props → List Item → Props
set_battlepass_reward_items row items =
    insert (battlepass_items_text_key row) (str (format_battlepass_items_text items)) row
