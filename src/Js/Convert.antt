-- ===== src/Js/Convert.antt =====
-- `Boolean(v)`, `String(v)`, `Number(v)` and the chains of `||` and `??`.
use scum_ne_djin_release.Prelude.{Bool, true, false, List, [], ◌∷◌, ◌++◌, if◌then◌else◌}
use scum_ne_djin_release.Text.{Text, codes, truthy}
use scum_ne_djin_release.Js.{
  Value, undefined, null, bool, num, str, arr, obj, Items, nil, cons, Props, props, to_fields,
  items, to_items,
}
use scum_ne_djin_release.Js.Numbers.{
  Number, nan, int, is_nonzero, read_number, print_number, number_ops,
}
use scum_ne_djin_release.Js.Objects.{get, lookup, insert, remove, has_own, keys, find_key, props_of}

unfoldable pub is_true : Value → Bool
is_true undefined = false
is_true null = false
is_true (bool b) = b
is_true (num n) = is_nonzero n
is_true (str s) = truthy s
is_true (arr vs) = true
is_true (obj fs) = true

-- `v == null`
unfoldable pub is_nullish : Value → Bool
is_nullish undefined = true
is_nullish null = true
is_nullish _ = false

-- `a || b` and `a ?? b`
infixr 30 ◌or_else◌ ◌nullish_else◌
unfoldable pub ◌or_else◌ : Value → Value → Value
a or_else b = if is_true a then a else b

unfoldable pub ◌nullish_else◌ : Value → Value → Value
a nullish_else b = if is_nullish a then b else a

-- `String(v)`
unfoldable mutual
  pub to_text : Value → Text
  to_text undefined = codes "undefined"
  to_text null = codes "null"
  to_text (bool b) = if b then codes "true" else codes "false"
  to_text (num n) = print_number n
  to_text (str s) = s
  to_text (arr vs) = join_items vs
  to_text (obj fs) = codes "[object Object]"

  -- The elements of an array, joined by commas.
  pub join_items : Items → Text
  join_items nil = []
  join_items (cons v vs) = join_next (element_text v) vs

  pub join_next : Text → Items → Text
  join_next out nil = out
  join_next out (cons v vs) = join_next (out ++ codes "," ++ element_text v) vs

  pub element_text : Value → Text
  element_text undefined = []
  element_text null = []
  element_text (bool b) = if b then codes "true" else codes "false"
  element_text (num n) = print_number n
  element_text (str s) = s
  element_text (arr vs) = join_items vs
  element_text (obj fs) = codes "[object Object]"

-- `Number(v)`
unfoldable pub to_number : Value → Number
to_number undefined = nan
to_number null = int 0
to_number (bool b) = if b then int 1 else int 0
to_number (num n) = n
to_number (str s) = read_number s
to_number (arr vs) = read_number (join_items vs)
to_number (obj fs) = nan

-- `obj.a || obj.b || …`: the first true property, or the last one.
unfoldable pub first_true : List Text → Props → Value
unfolding ◌or_else◌
first_true [] ps = undefined
first_true (k ∷ []) ps = get k ps
first_true (k ∷ j ∷ ks) ps = get k ps or_else first_true (j ∷ ks) ps

-- `String(obj.a || obj.b || … || '')`
unfoldable pub text_of_keys : List Text → Props → Text
unfolding first_true ◌or_else◌
text_of_keys ks ps = to_text (first_true ks ps or_else str [])

-- For runs at concrete values.
unfoldable pub value_ops : Unit {0}
unfolding number_ops is_true is_nullish ◌or_else◌ ◌nullish_else◌ to_text to_number get lookup insert
    remove has_own keys find_key props_of first_true text_of_keys props to_fields items to_items
value_ops = tt
