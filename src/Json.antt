-- ===== src/Json.antt =====
-- JSON texts: `JSON.stringify` without indentation, and the recovery of objects from a damaged
-- reply, `findJsonObjectEnd` and `salvageJsonObjects` of
-- src/ScumWarden.Server/wwwroot/app.js. `JSON.parse` is an argument. A lone surrogate is printed
-- as it is.
pub mod Print
pub mod Scanning
pub mod Quoting
pub mod Values
pub mod Recovery
pub mod Tests
use scum_ne_djin_release.Prelude.{
  ℕ, zero, suc, ◌+◌, Bool, true, false, List, [], ◌∷◌, Option, none, some, if◌then◌else◌, ◌==◌,
  length, take, drop,
}
use scum_ne_djin_release.Text.{Text, codes, starts_with}
use scum_ne_djin_release.Js.{Value, obj}

-- The variables of the loop in `findJsonObjectEnd`, and what a round does. The depth goes below
-- 0 only where the loop returns.
pub record Scan : Type 0 where
  pub depth : ℕ
  pub in_string : Bool
  pub escaped : Bool

pub data Next : Type 0 where
  more : Scan → Next
  ended broken : Next

scan_in_string : ℕ → Scan → Next
scan_in_string ch st =
    if st.escaped
    then more (record st { escaped = false })
    else if ch == b'\\'
    then more (record st { escaped = true })
    else if ch == b'"'
    then more (record st { in_string = false })
    else more st

leave_brace : ℕ → Scan → Next
leave_brace zero st = broken
leave_brace (suc zero) st = ended
leave_brace (suc (suc d)) st = more (record st { depth = suc d })

unfoldable pub scan_char : ℕ → Scan → Next
unfolding scan_in_string leave_brace
scan_char ch st =
    if st.in_string
    then scan_in_string ch st
    else if ch == b'"'
    then more (record st { in_string = true })
    else if ch == b'{'
    then more (record st { depth = st.depth + 1 })
    else if ch == b'}'
    then leave_brace st.depth st
    else more st

unfoldable pub scan : Text → ℕ → Scan → Option ℕ
scan [] i st = none
scan (ch ∷ s) i st = elim (scan_char ch st) [
  | more st' ↦ scan s (i + 1) st'
  | ended ↦ some i
  | broken ↦ none
]

abbrev pub scan_start : Scan
scan_start = record { depth = 0; in_string = false; escaped = false }

unfoldable pub find_json_object_end : Text → ℕ → Option ℕ
unfolding scan
find_json_object_end text start = scan (drop start text) start scan_start

-- The rest of a text from the first `{` on.
unfoldable pub from_brace : Text → Text
from_brace [] = []
from_brace (ch ∷ s) = let rest = from_brace s in if ch == b'{' then ch ∷ s else rest

-- Behind the first `"data":[`, or the whole text.
behind_marker : Text → Option Text
behind_marker [] = none
behind_marker (ch ∷ s) =
    let rest = behind_marker s in
    if starts_with (ch ∷ s) (codes "\"data\":[") then some (drop 8 (ch ∷ s)) else rest

keep_object : Value → List Value → List Value
keep_object (obj fs) out = obj fs ∷ out
keep_object v out = out

-- One round: a chunk that does not parse is left behind its first brace.
salvage_parsed : (Text → List Value) → Text → Text → Option Value → List Value
unfolding keep_object
salvage_parsed again behind inner (some v) = keep_object v (again behind)
salvage_parsed again behind inner none = again inner

module _ (parse : Text → Option Value) where
  salvage_chunk : (Text → List Value) → Text → Text → Option ℕ → List Value
  unfolding salvage_parsed
  salvage_chunk again chunk inner none = []
  salvage_chunk again chunk inner (some end) =
      salvage_parsed again (drop (end + 1) chunk) inner (parse (take (end + 1) chunk))

  salvage_at : (Text → List Value) → Text → List Value
  unfolding salvage_chunk
  salvage_at again [] = []
  salvage_at again (ch ∷ s) = salvage_chunk again (ch ∷ s) s (find_json_object_end (ch ∷ s) 0)

  -- The loop of `salvageJsonObjects`; the cursor is the text from it on. Each round moves the
  -- cursor, so the length of the text is fuel enough.
  unfoldable pub salvage_from : ℕ → Text → List Value
  unfolding salvage_at
  salvage_from zero s = []
  salvage_from (suc fuel) s = salvage_at (salvage_from fuel) (from_brace s)

  unfoldable pub salvage_json_objects : Text → List Value
  unfolding salvage_from behind_marker
  salvage_json_objects text =
      let source : Text = elim (behind_marker text) [ none ↦ text | some s ↦ s ] in
      salvage_from (length source) source
