-- ===== src/Players/Lookup.antt =====
-- `valueFromKeys` of src/ScumWarden.Server/wwwroot/app.js: the first key with a value that is
-- not blank, then the same keys in any case.
use scum_ne_djin_release.Prelude.{Bool, not, ◌&&◌, List, [], ◌∷◌, Option, none, some, if◌then◌else◌}
use scum_ne_djin_release.Text.{Text, ◌===◌, truthy, trim, lower}
use scum_ne_djin_release.Js.{Value, str, Props}
use scum_ne_djin_release.Js.Objects.{get, keys}
use scum_ne_djin_release.Js.Convert.{is_nullish, to_text}

unfoldable pub is_filled : Value → Bool
is_filled v = not (is_nullish v) && truthy (trim (to_text v))

unfoldable pub exact_value : List Text → Props → Option Value
exact_value [] p = none
exact_value (k ∷ ks) p =
    let rest = exact_value ks p in if is_filled (get k p) then some (get k p) else rest

-- `lowerMap.get(key)`: the last key that is written so in lower case.
unfoldable pub last_key : Text → List Text → Option Text
last_key wanted [] = none
last_key wanted (k ∷ ks) = later (last_key wanted ks) (if lower k === wanted then some k else none)
  where
    later : Option Text → Option Text → Option Text
    later none found = found
    later (some j) found = some j

-- An empty key counts as none.
unfoldable pub value_at_key : Option Text → Props → Option Value
value_at_key none p = none
value_at_key (some k) p = if truthy k && is_filled (get k p) then some (get k p) else none

unfoldable pub loose_value : List Text → Props → Option Value
unfolding value_at_key
loose_value [] p = none
loose_value (k ∷ ks) p = first_of (value_at_key (last_key (lower k) (keys p)) p) (loose_value ks p)
  where
    first_of : Option Value → Option Value → Option Value
    first_of none rest = rest
    first_of (some v) rest = some v

unfoldable pub or_empty : Option Value → Value
or_empty none = str []
or_empty (some v) = v

unfoldable pub exact_or : Option Value → Option Value → Value
unfolding or_empty
exact_or none loose = or_empty loose
exact_or (some v) loose = v

unfoldable pub value_from_keys : Props → List Text → Value
unfolding exact_or
value_from_keys p ks = exact_or (exact_value ks p) (loose_value ks p)
