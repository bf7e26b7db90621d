-- ===== src/Js/Objects.antt =====
-- Properties of objects.
use scum_ne_djin_release.Prelude.{
  Bool, false, ◌||◌, List, [], ◌∷◌, map, Option, none, some, if◌then◌else◌, find,
}
use scum_ne_djin_release.Text.{Text, ◌===◌, lower}
use scum_ne_djin_release.Js.{Value, undefined, obj, Props, props}

unfoldable pub lookup : Text → Props → Option Value
lookup k [] = none
lookup k ((j, v) ∷ ps) = if j === k then some v else lookup k ps

-- `obj[key] = value`
unfoldable pub insert : Text → Value → Props → Props
insert k v [] = (k, v) ∷ []
insert k v ((j, w) ∷ ps) = if j === k then (j, v) ∷ ps else (j, w) ∷ insert k v ps

-- `Object.assign(p, more)`
unfoldable pub assign : Props → Props → Props
assign p [] = p
assign p ((k, v) ∷ more) = assign (insert k v p) more

-- `delete obj[key]`
unfoldable pub remove : Text → Props → Props
remove k [] = []
remove k ((j, w) ∷ ps) = if j === k then ps else (j, w) ∷ remove k ps

-- `hasOwnProperty`
unfoldable pub has_own : Text → Props → Bool
has_own k [] = false
has_own k ((j, w) ∷ ps) = j === k || has_own k ps

-- `Object.keys`
unfoldable pub keys : Props → List Text
keys ps = map (λ p. p.0) ps

-- `Object.keys(obj).find(key => key.toLowerCase() === wanted)`
unfoldable pub find_key : Text → Props → Option Text
unfolding keys
find_key wanted ps = find (λ k. lower k === wanted) (keys ps)

or_undefined : Option Value → Value
or_undefined none = undefined
or_undefined (some v) = v

-- `obj[key]`; `undefined` if there is none
unfoldable pub get : Text → Props → Value
unfolding or_undefined lookup
get k ps = or_undefined (lookup k ps)

-- The properties of an object, and none of another value.
unfoldable pub props_of : Value → Props
props_of (obj fs) = props fs
props_of _ = []
