-- ===== src/Nested.antt =====
-- Reading and writing a value by a dotted path, with keys that match in any case:
-- `getNestedValue` and `setNestedValue` of src/ScumWarden.Server/wwwroot/app.js. The value is
-- rebuilt where the source writes in place. A path that goes on through text or a number writes
-- nothing, and a key of an array that is no index is dropped, as JSON drops it.
pub mod Laws
pub mod Tests
use scum_ne_djin_release.Prelude.{
  ℕ, zero, suc, ◌+◌, Bool, true, false, ◌&&◌, List, [], ◌∷◌, ◌++◌, map, Option, none, some,
  if◌then◌else◌, ◌==◌, all, get_elem?,
}
use scum_ne_djin_release.Text.{Text, codes, lower, is_digit, truthy}
use scum_ne_djin_release.Text.Lines.{split_by}
use scum_ne_djin_release.Js.{
  Value, undefined, null, bool, num, str, arr, obj, Items, nil, cons, Fields, end, Props, props,
  to_fields, items, to_items,
}
use scum_ne_djin_release.Js.Numbers.{print_nat, read_digits}
use scum_ne_djin_release.Js.Objects.{lookup, insert, has_own, find_key, get}
use scum_ne_djin_release.Js.Convert.{is_nullish, ◌nullish_else◌, value_ops}

indexed : ℕ → List Value → Props
indexed i [] = []
indexed i (v ∷ vs) = (print_nat i, v) ∷ indexed (i + 1) vs

-- The own properties of a value.
unfoldable pub own : Value → Props
unfolding indexed
own (obj fs) = props fs
own (arr vs) = indexed 0 (items vs)
own _ = []

-- `/^\d+$/`
unfoldable pub all_digits : Text → Bool
all_digits s = truthy s && all is_digit s

-- `list[i] = v`; a write behind the end leaves holes, which JSON writes as null.
set_item : List Value → ℕ → Value → List Value
set_item [] zero v = v ∷ []
set_item [] (suc i) v = undefined ∷ set_item [] i v
set_item (w ∷ ws) zero v = v ∷ ws
set_item (w ∷ ws) (suc i) v = w ∷ set_item ws i v

set_index : List Value → Option ℕ → Value → List Value
set_index ws none v = ws
set_index ws (some i) v = set_item ws i v

-- `target[key] = v`
unfoldable pub set_property : Text → Value → Value → Value
unfolding set_index set_item all_digits
set_property k v (obj fs) = obj (to_fields (insert k v (props fs)))
set_property k v (arr vs) =
    if all_digits k then arr (to_items (set_index (items vs) (read_digits 0 k) v)) else arr vs
set_property k v w = w

key_or : Text → Option Text → Text
key_or p none = p
key_or p (some k) = k

-- `Object.keys(cur).find(…) || part`; an empty key counts as none.
unfoldable pub write_key : Text → Props → Text
unfolding key_or
write_key p ps = key_or p (find_key (lower p) ps)

value_at : Option Text → Props → Value
value_at none ps = undefined
value_at (some k) ps = get k ps

unfoldable pub read_step : Text → Props → Value
unfolding value_at
read_step p ps = if has_own p ps then get p ps else value_at (find_key (lower p) ps) ps

unfoldable pub get_parts : List Text → Value → Value
get_parts [] cur = cur nullish_else str []
get_parts (p ∷ ps) cur =
    let rest = get_parts ps (read_step p (own cur)) in if is_nullish cur then str [] else rest

child_for : Text → Value → Value
child_for next v = if is_nullish v then if all_digits next then arr nil else obj end else v

unfoldable pub set_parts : List Text → Value → Value → Value
unfolding child_for
set_parts [] v cur = cur
set_parts (p ∷ []) v cur = set_property (write_key p (own cur)) v cur
set_parts (p ∷ q ∷ ps) v cur =
    let k = write_key p (own cur) in
    set_property k (set_parts (q ∷ ps) v (child_for q (get k (own cur)))) cur

unfoldable pub get_nested_value : Value → Text → Value
unfolding get_parts
get_nested_value cur path = get_parts (split_by (λ c. c == b'.') path) cur

unfoldable pub set_nested_value : Value → Text → Value → Value
unfolding set_parts
set_nested_value cur path v = set_parts (split_by (λ c. c == b'.') path) v cur

-- For runs at concrete values.
unfoldable pub nested_ops : Unit {0}
unfolding value_ops get_nested_value set_nested_value own read_step write_key set_property
nested_ops = tt
