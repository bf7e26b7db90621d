-- ===== src/Envelope/Tests.antt =====
-- Envelopes at concrete replies, with a parser of one text.
use scum_ne_djin_release.Prelude.{
  ◌≡◌, true, sym, [], ◌∷◌, Option, none, some, if◌then◌else◌, Bool-cases, inl, inr, arith, length,
  subst, ◌<◌, ◌≤◌,
}
use scum_ne_djin_release.Text.{Text, codes, ◌===◌}
use scum_ne_djin_release.Text.Laws.{===_sound}
use scum_ne_djin_release.Js.{Value, num, str, arr, obj, to_fields, to_items}
use scum_ne_djin_release.Js.Numbers.{int}
use scum_ne_djin_release.Js.Convert.{value_ops}
use scum_ne_djin_release.Envelope.{parse_maybe_json, parse_on, array_on, array_from_payload, size}
use scum_ne_djin_release.Envelope.Laws.{IsJsonParse, json_body, parse_maybe_json_lem}
use scum_ne_djin_release.Envelope.Arrays.{array_from_payload_enough}

abbrev rows_text : Text
rows_text = codes "{\"rows\":[1]}"

abbrev rows_value : Value
rows_value = obj (to_fields ((codes "rows", arr (to_items (num (int 1) ∷ []))) ∷ []))

-- The same text as a JSON string.
abbrev quoted : Text
quoted = codes "\"{\\\"rows\\\":[1]}\""

abbrev parse_rows : Text → Option Value
parse_rows t =
    if t === rows_text then some rows_value else if t === quoted then some (str rows_text) else none

rows_fit : size rows_value < length rows_text
unfolding size value_ops
rows_fit = omega arith

quoted_fits : size (str rows_text) < length quoted
unfolding size
quoted_fits = omega arith

fits_as :
    (t u : Text) (w v : Value)
    → t === u ≡ true
    → some w ≡ some v
    → size w < length u
    → size v < length t
fits_as t u w v h e k =
    subst (λ s. size v < length s) (sym (===_sound t u h))
      (subst (λ x. size x < length u) (some_inj e) k)
  where
    some_inj : some w ≡ some v → w ≡ v
    some_inj q = cc

parse_rows-IsJsonParse : IsJsonParse parse_rows
parse_rows-IsJsonParse t v e = elim (Bool-cases (t === rows_text)) [
  | inl h ↦ fits_as t rows_text rows_value v h (rw h at e) rows_fit
  | inr h ↦ elim (Bool-cases (t === quoted)) [
    | inl k ↦ fits_as t quoted (str rows_text) v k (rw (h, k) at e) quoted_fits
    | inr k ↦ let value : none ≡ some v = rw (h, k) at e in absurd (not_some value)
  ]
]
  where
    not_some : none ≡ some v → ⊥
    not_some q = cc

-- A reply whose data are JSON in a text.
abbrev reply : Value
reply = obj (to_fields ((codes "data", str rows_text) ∷ []))

short_quoted : length quoted < 40
short_quoted = omega arith

-- The text is parsed twice.
parse_maybe_json_lem_example :
    let v = parse_maybe_json parse_rows (str quoted) in
    (parse_on parse_rows 40 quoted ≡ some v)
    × (v ≡ json_body parse_rows (parse_maybe_json parse_rows) quoted)
    × (size v ≤ length quoted)
    × (parse_maybe_json parse_rows v ≡ v)
parse_maybe_json_lem_example =
    parse_maybe_json_lem parse_rows parse_rows-IsJsonParse 40 quoted short_quoted

reply_fits : size reply < 100
unfolding size value_ops
reply_fits = omega arith

array_from_payload_enough_example :
    array_on parse_rows 100 [] reply ≡ some (array_from_payload parse_rows reply [])
array_from_payload_enough_example =
    array_from_payload_enough parse_rows parse_rows-IsJsonParse 100 [] reply reply_fits
