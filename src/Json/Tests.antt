-- ===== src/Json/Tests.antt =====
-- The recovery of rows at a concrete reply.
use scum_ne_djin_release.Prelude.{
  ◌+◌, ◌≡◌, refl, [], ◌∷◌, ◌++◌, map, Option, none, some, if◌then◌else◌, length,
}
use scum_ne_djin_release.Text.{Text, codes, text_ops, ◌===◌}
use scum_ne_djin_release.Js.{Value, str, num, obj, Fields, end, field}
use scum_ne_djin_release.Js.Numbers.{int, number_ops}
use scum_ne_djin_release.Json.{find_json_object_end, scan_char, from_brace, salvage_json_objects}
use scum_ne_djin_release.Json.Print.{stringify, stringify_fields, escape_unit, escape, quote, hex}
use scum_ne_djin_release.Json.Recovery.{find-stringify, damaged, salvage-broken_off}

abbrev row : Fields
row = field (codes "name") (str (codes "a}\"b")) (field (codes "n") (num (int 12)) end)

-- A parser that knows one text.
parse_row : Text → Option Value
parse_row s = if s === codes "{\"name\":\"a}\\\"b\",\"n\":12}" then some (obj row) else none

print_ops : Unit {0}
unfolding number_ops stringify escape_unit escape quote hex
print_ops = tt

row_text : stringify (obj row) ≡ codes "{\"name\":\"a}\\\"b\",\"n\":12}"
unfolding print_ops
row_text = refl

row_parses : parse_row (stringify (obj row)) ≡ some (obj row)
unfolding print_ops parse_row
row_parses = refl

abbrev cut_row : Text
cut_row = codes "{\"name\":\"c\",\"n"

cut_row_broken : find_json_object_end (from_brace cut_row) 0 ≡ none
unfolding find_json_object_end scan_char from_brace text_ops
cut_row_broken = refl

find-stringify_example :
    find_json_object_end (codes "[1," ++ (stringify (obj row) ++ codes "}")) (length (codes "[1,"))
    ≡ some (length (codes "[1,") + length (stringify_fields row) + 1)
find-stringify_example = find-stringify (codes "[1,") (codes "}") row

salvage-broken_off_example :
    salvage_json_objects parse_row (codes "{\"data\":[" ++ damaged (row ∷ row ∷ []) cut_row)
    ≡ map obj (row ∷ row ∷ [])
salvage-broken_off_example =
    salvage-broken_off parse_row (row ∷ row ∷ []) cut_row cut_row_broken
      (row_parses, (row_parses, tt))
