-- ===== src/Json/Print.antt =====
-- `JSON.stringify(value)`.
use scum_ne_djin_release.Prelude.{ℕ, ◌+◌, ◌-◌, ◌/◌, ◌%◌, [], ◌∷◌, ◌++◌, if◌then◌else◌, ltb, ◌==◌}
use scum_ne_djin_release.Text.{Text, codes}
use scum_ne_djin_release.Js.{
  Value, undefined, null, bool, num, str, arr, obj, Items, nil, cons, Fields, end, field,
}
use scum_ne_djin_release.Js.Numbers.{is_finite, print_number}

unfoldable pub hex : ℕ → ℕ
hex n = if ltb n 10 then b'0' + n else b'a' + (n - 10)

unfoldable pub escape_unit : ℕ → Text
unfolding hex
escape_unit c =
    if c == b'"'
    then codes "\\\""
    else if c == b'\\'
    then codes "\\\\"
    else if c == 8
    then codes "\\b"
    else if c == 9
    then codes "\\t"
    else if c == 10
    then codes "\\n"
    else if c == 12
    then codes "\\f"
    else if c == 13
    then codes "\\r"
    else if ltb c 32
    then codes "\\u00" ++ hex (c / 16) ∷ hex (c % 16) ∷ []
    else c ∷ []

unfoldable pub escape : Text → Text
escape [] = []
escape (c ∷ s) = escape_unit c ++ escape s

unfoldable pub quote : Text → Text
quote s = b'"' ∷ escape s ++ b'"' ∷ []

-- Properties that are `undefined` are left out; in an array they count as null.
unfoldable mutual
  pub stringify : Value → Text
  stringify undefined = codes "null"
  stringify null = codes "null"
  stringify (bool b) = if b then codes "true" else codes "false"
  stringify (num n) = if is_finite n then print_number n else codes "null"
  stringify (str s) = quote s
  stringify (arr vs) = b'[' ∷ stringify_items vs ++ b']' ∷ []
  stringify (obj fs) = b'{' ∷ stringify_fields fs ++ b'}' ∷ []

  pub stringify_items : Items → Text
  stringify_items nil = []
  stringify_items (cons v vs) = stringify v ++ stringify_more vs

  pub stringify_more : Items → Text
  stringify_more nil = []
  stringify_more (cons v vs) = b',' ∷ (stringify v ++ stringify_more vs)

  pub stringify_fields : Fields → Text
  stringify_fields end = []
  stringify_fields (field k undefined fs) = stringify_fields fs
  stringify_fields (field k v fs) = quote k ++ (b':' ∷ (stringify v ++ stringify_fields_more fs))

  pub stringify_fields_more : Fields → Text
  stringify_fields_more end = []
  stringify_fields_more (field k undefined fs) = stringify_fields_more fs
  stringify_fields_more (field k v fs) =
      b',' ∷ (quote k ++ (b':' ∷ (stringify v ++ stringify_fields_more fs)))
