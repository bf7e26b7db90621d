-- ===== src/Json/Recovery.antt =====
-- What `findJsonObjectEnd` and `salvageJsonObjects` find.
use scum_ne_djin_release.Prelude.{
  ℕ, zero, suc, ◌+◌, ◌≡◌, ◌≤◌, refl, sym, ap, ◌∙◌, List, [], ◌∷◌, ◌++◌, map, Option, none, some,
  arith, All, length, length-append, append_assoc, take-length-append, drop-length-append, ◌≡⟨◌⟩◌,
  ◌∎,
}
use scum_ne_djin_release.Text.{Text, codes, text_ops}
use scum_ne_djin_release.Js.{Value, obj, Fields}
use scum_ne_djin_release.Json.{
  scan, scan_char, scan_start, find_json_object_end, from_brace, salvage_from, salvage_at,
  salvage_chunk, salvage_parsed, salvage_json_objects, keep_object,
}
use scum_ne_djin_release.Json.Print.{stringify, stringify_fields}
use scum_ne_djin_release.Json.Scanning.{outside}
use scum_ne_djin_release.Json.Values.{open_brace, Leads-fields}

last_brace : (i : ℕ) (rest : Text) → scan (b'}' ∷ rest) i (outside 1) ≡ some i
unfolding scan scan_char
last_brace i rest = refl

scan_object :
    (fs : Fields) (i : ℕ) (rest : Text)
    → scan (stringify (obj fs) ++ rest) i scan_start ≡ some (i + length (stringify_fields fs) + 1)
unfolding stringify
scan_object fs i rest =
    scan (b'{' ∷ (stringify_fields fs ++ b'}' ∷ []) ++ rest) i (outside 0)
    ≡⟨ open_brace 0 i ((stringify_fields fs ++ b'}' ∷ []) ++ rest) ⟩
      scan ((stringify_fields fs ++ b'}' ∷ []) ++ rest) (i + 1) (outside 1)
    ≡⟨ ap (λ s. scan s (i + 1) (outside 1)) (append_assoc (stringify_fields fs) (b'}' ∷ []) rest) ⟩
      scan (stringify_fields fs ++ (b'}' ∷ rest)) (i + 1) (outside 1)
    ≡⟨ Leads-fields fs 0 (i + 1) (b'}' ∷ rest) ⟩
      scan (b'}' ∷ rest) (i + 1 + length (stringify_fields fs)) (outside 1)
    ≡⟨ last_brace (i + 1 + length (stringify_fields fs)) rest ⟩
      some (i + 1 + length (stringify_fields fs))
    ≡⟨ ap some (omega arith) ⟩ some (i + length (stringify_fields fs) + 1) ∎

-- Wherever the JSON text of an object stands, whatever strings, braces and quotes it holds and
-- whatever stands before and behind it, the search that starts at its opening brace returns the
-- position of its closing brace.
pub find-stringify :
    (before rest : Text) (fs : Fields)
    → find_json_object_end (before ++ (stringify (obj fs) ++ rest)) (length before)
      ≡ some (length before + length (stringify_fields fs) + 1)
unfolding find_json_object_end
find-stringify before rest fs =
    rw (drop-length-append before (stringify (obj fs) ++ rest))
      (scan_object fs (length before) rest)

-- A reply that breaks off: objects with a comma behind each, and a tail.
abbrev pub damaged : List Fields → Text → Text
damaged [] tail = tail
damaged (fs ∷ rows) tail = stringify (obj fs) ++ (b',' ∷ damaged rows tail)

length-object : (fs : Fields) → length (stringify (obj fs)) ≡ length (stringify_fields fs) + 1 + 1
unfolding stringify
length-object fs = omega (arith, length-append {0} (stringify_fields fs) (b'}' ∷ []))

module _ (parse : Text → Option Value) where
  skip_comma :
      (fuel : ℕ) (s : Text) → salvage_from parse fuel (b',' ∷ s) ≡ salvage_from parse fuel s
  unfolding salvage_from from_brace
  skip_comma zero s = refl
  skip_comma (suc fuel) s = refl

  at_brace :
      (fuel : ℕ) (fs : Fields) (rest : Text)
      → salvage_from parse (suc fuel) (stringify (obj fs) ++ rest)
        ≡ salvage_chunk parse
            (salvage_from parse fuel)
            (stringify (obj fs) ++ rest)
            ((stringify_fields fs ++ b'}' ∷ []) ++ rest)
            (find_json_object_end (stringify (obj fs) ++ rest) 0)
  unfolding salvage_from salvage_at from_brace stringify
  at_brace fuel fs rest = refl

  broken_tail :
      (fuel : ℕ) (s : Text)
      → find_json_object_end s 0 ≡ none
      → salvage_at parse (salvage_from parse fuel) s ≡ []
  unfolding salvage_at salvage_chunk
  broken_tail fuel [] b = refl
  broken_tail fuel (ch ∷ s) b = rw b

  -- The object at the front, once its text is opened at the brace.
  salvage_chunk_object :
      (again : Text → List Value) (fs : Fields) (inner rest : Text)
      → parse (stringify (obj fs)) ≡ some (obj fs)
      → salvage_chunk parse again
          (stringify (obj fs) ++ rest)
          inner
          (some (length (stringify_fields fs) + 1))
        ≡ obj fs ∷ again rest
  unfolding salvage_chunk salvage_parsed keep_object
  salvage_chunk_object again fs inner rest h = rw (
    sym (length-object fs),
    take-length-append (stringify (obj fs)) rest,
    drop-length-append (stringify (obj fs)) rest,
    h,
  )

  salvage_object :
      (fuel : ℕ) (fs : Fields) (rest : Text)
      → parse (stringify (obj fs)) ≡ some (obj fs)
      → salvage_from parse (suc fuel) (stringify (obj fs) ++ rest)
        ≡ obj fs ∷ salvage_from parse fuel rest
  salvage_object fuel fs rest h =
      at_brace fuel fs rest
      ∙ ap
          (salvage_chunk parse (salvage_from parse fuel) (stringify (obj fs) ++ rest)
            ((stringify_fields fs ++ b'}' ∷ []) ++ rest))
          (found fs rest)
      ∙ salvage_chunk_object (salvage_from parse fuel) fs
          ((stringify_fields fs ++ b'}' ∷ []) ++ rest) rest h
    where
      found :
          (fs : Fields) (rest : Text)
          → find_json_object_end (stringify (obj fs) ++ rest) 0
            ≡ some (length (stringify_fields fs) + 1)
      found fs rest = find-stringify [] rest fs ∙ ap some (omega arith)

  salvage-damaged :
      (fuel : ℕ) (rows : List Fields) (tail : Text)
      → length rows ≤ fuel
      → find_json_object_end (from_brace tail) 0 ≡ none
      → All (λ fs. parse (stringify (obj fs)) ≡ some (obj fs)) rows
      → salvage_from parse fuel (damaged rows tail) ≡ map obj rows
  salvage-damaged zero [] tail l b h = unfold salvage_from in refl
  salvage-damaged zero (fs ∷ rows) tail l b h = absurd (omega arith)
  salvage-damaged (suc fuel) [] tail l b h =
      unfold salvage_from in broken_tail fuel (from_brace tail) b
  salvage-damaged (suc fuel) (fs ∷ rows) tail l b (p, h) =
      salvage_object fuel fs (b',' ∷ damaged rows tail) p
      ∙ ap (◌∷◌ (obj fs))
          (skip_comma fuel (damaged rows tail) ∙ salvage-damaged fuel rows tail (omega arith) b h)

  rows-le-damaged : (rows : List Fields) (tail : Text) → length rows ≤ length (damaged rows tail)
  rows-le-damaged [] tail = omega arith
  rows-le-damaged (fs ∷ rows) tail = omega (
    arith,
    rows-le-damaged rows tail,
    length-append {0} (stringify (obj fs)) (b',' ∷ damaged rows tail),
  )

  -- From a reply `{"data":[…` that breaks off in the middle of a row, every row before the break
  -- is recovered, in order and nothing else, if the parser reads those rows back and the tail
  -- holds no whole object.
  pub salvage-broken_off :
      (rows : List Fields) (tail : Text)
      → find_json_object_end (from_brace tail) 0 ≡ none
      → All (λ fs. parse (stringify (obj fs)) ≡ some (obj fs)) rows
      → salvage_json_objects parse (codes "{\"data\":[" ++ damaged rows tail) ≡ map obj rows
  unfolding salvage_json_objects text_ops
  salvage-broken_off rows tail b h =
      salvage-damaged (length (damaged rows tail)) rows tail (rows-le-damaged rows tail) b h
