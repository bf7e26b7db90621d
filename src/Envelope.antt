-- ===== src/Envelope.antt =====
-- Replies of the server in their envelopes: `parseMaybeJson`, `unwrapApiEnvelope`,
-- `arrayFromPayload` and `unwrapCatalogData` of src/ScumWarden.Server/wwwroot/app.js.
-- `JSON.parse` is an argument: `none` where it throws. `arrayFromPayload` runs on fuel.
pub mod Laws
pub mod Tests
pub mod Arrays
use scum_ne_djin_release.Prelude.{
  ℕ, zero, suc, ◌+◌, Bool, true, false, not, ◌&&◌, ◌||◌, List, [], ◌∷◌, ◌++◌, Option, none, some,
  if◌then◌else◌, ◌==◌, length,
}
use scum_ne_djin_release.Text.{Text, codes, truthy, trim, trim_start}
use scum_ne_djin_release.Js.{
  Value, undefined, null, bool, num, str, arr, obj, Fields, end, field, Items, nil, cons, Props,
  props, items,
}
use scum_ne_djin_release.Js.Objects.{get, has_own, props_of}
use scum_ne_djin_release.Js.Convert.{is_true}

-- `/^[{\[]/`
unfoldable pub opens : Text → Bool
opens [] = false
opens (c ∷ s) = c == b'{' || c == b'['

-- `/^"\s*[{\[]/`
unfoldable pub opens_quoted : Text → Bool
unfolding opens
opens_quoted [] = false
opens_quoted (c ∷ s) = c == b'"' && opens (trim_start s)

-- A text that is tried as JSON: it is not blank and looks like an object, an array, or a string
-- of one.
unfoldable pub looks_like_json : Text → Bool
unfolding opens opens_quoted
looks_like_json text = truthy text && (opens text || opens_quoted text)

-- What comes after the parse of a text: the text itself if it throws, and once more for a string.
unfoldable pub parse_next : Option Value → (Text → Option Value) → Text → Option Value
parse_next none again s = some (str s)
parse_next (some (str r)) again s = again r
parse_next (some v) again s = some v

unfoldable pub or_undefined : Option Value → Value
or_undefined none = undefined
or_undefined (some v) = v

unfoldable pub is_own : Text → Value → Bool
is_own key v = has_own key (props_of v)

-- The keys that are tried behind the caller's.
abbrev pub payload_keys : List Text
payload_keys =
    codes "rows"
    ∷ codes "items"
    ∷ codes "events"
    ∷ codes "recent"
    ∷ codes "entries"
    ∷ codes "data"
    ∷ codes "payload"
    ∷ []

-- What one candidate gives: an array, the rows found below an object unless there are none, or
-- what the other candidates give.
unfoldable pub pick_rows : Value → Option (List Value) → Option (List Value) → Option (List Value)
pick_rows (arr vs) nested rest = some (items vs)
pick_rows (obj fs) none rest = none
pick_rows (obj fs) (some []) rest = rest
pick_rows (obj fs) (some (v ∷ vs)) rest = some (v ∷ vs)
pick_rows v nested rest = rest

unfoldable pub rows_or_nil : Option (List Value) → List Value
rows_or_nil none = []
rows_or_nil (some vs) = vs

module _ (parse : Text → Option Value) where
  -- `parseMaybeJson` of a text; `none` if the fuel is spent.
  unfoldable pub parse_on : ℕ → Text → Option Value
  parse_on zero s = none
  parse_on (suc fuel) s =
      if not (looks_like_json (trim s))
      then some (str s)
      else parse_next (parse (trim s)) (parse_on fuel) s

  unfoldable pub parse_maybe_json : Value → Value
  parse_maybe_json (str s) = or_undefined (parse_on (suc (length s)) s)
  parse_maybe_json v = v

  unfoldable pub unwrap_api_envelope : Value → Value
  unwrap_api_envelope reply =
      let parsed = parse_maybe_json reply in
      if is_own (codes "data") parsed
      then parse_maybe_json (get (codes "data") (props_of parsed))
      else if is_own (codes "payload") parsed
      then parse_maybe_json (get (codes "payload") (props_of parsed))
      else parsed

  -- The loop over the candidates, with the recursive call as an argument.
  unfoldable pub first_rows :
      (Value → Option (List Value)) → Props → List Text → Option (List Value)
  first_rows nested p [] = some []
  first_rows nested p (key ∷ keys) =
      let value = parse_maybe_json (get key p) in
      pick_rows value (nested value) (first_rows nested p keys)

  unfoldable pub rows_of : (Value → Option (List Value)) → List Text → Value → Option (List Value)
  rows_of nested keys (arr vs) = some (items vs)
  rows_of nested keys (obj fs) = first_rows nested (props fs) (keys ++ payload_keys)
  rows_of nested keys v = some []

  unfoldable pub array_on : ℕ → List Text → Value → Option (List Value)
  array_on zero keys reply = none
  array_on (suc fuel) keys reply = rows_of (array_on fuel keys) keys (unwrap_api_envelope reply)

-- The size of a value: what its texts and brackets need at least in JSON.
unfoldable mutual
  pub size : Value → ℕ
  size undefined = 0
  size null = 0
  size (bool b) = 0
  size (num n) = 0
  size (str s) = length s
  size (arr vs) = suc (size_items vs)
  size (obj fs) = suc (size_fields fs)

  pub size_items : Items → ℕ
  size_items nil = 0
  size_items (cons v vs) = size v + size_items vs

  pub size_fields : Fields → ℕ
  size_fields end = 0
  size_fields (field k v fs) = size v + size_fields fs

unfoldable pub array_from_payload : (Text → Option Value) → Value → List Text → List Value
array_from_payload parse reply keys = rows_or_nil (array_on parse (suc (size reply)) keys reply)

array_of : Value → Option (List Value)
array_of (arr vs) = some (items vs)
array_of v = none

first_found : List (Option (List Value)) → List Value
first_found [] = []
first_found (none ∷ more) = first_found more
first_found (some vs ∷ more) = vs

array_at : Text → Value → Option (List Value)
unfolding array_of
array_at key v = array_of (get key (props_of v))

unfoldable pub unwrap_catalog_data : Value → Text → List Value
unfolding array_of array_at first_found
unwrap_catalog_data reply key = first_found (
    array_of reply
    ∷ array_at key reply
    ∷ array_at key (get (codes "data") (props_of reply))
    ∷ array_at key (get (codes "payload") (props_of reply))
    ∷ [])
