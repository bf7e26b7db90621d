-- ===== src/ChatLines/Lines.antt =====
-- What a draft holds once lines are written to it.
use scum_ne_djin_release.Prelude.{
  ◌≡◌, ◌≢◌, refl, ap, ◌∙◌, true, false, List, [], ◌∷◌, ◌++◌, map, filter, ◌==◌, arith, All,
  All-append, Bool-cases, inl, inr, append-nil,
}
use scum_ne_djin_release.Text.{Text, trim, trim_end, trim_start, truthy}
use scum_ne_djin_release.Text.Laws.{trim_idem}
use scum_ne_djin_release.Text.Lines.{split_by, join, unify_newlines}
use scum_ne_djin_release.Text.Lines.Laws.{
  All-trim, All-split_by, split_by-lacks, split_by-join, All-join, unify_newlines-lacks,
  unify_newlines_of_lacks,
}
use scum_ne_djin_release.Js.{Value, undefined, null, bool, num, str, arr, obj, items, props, Fields}
use scum_ne_djin_release.Js.Convert.{is_nullish, is_true, to_text, ◌nullish_else◌}
use scum_ne_djin_release.Nested.{get_nested_value, set_nested_value}
use scum_ne_djin_release.Nested.Laws.{IsClear, get_parts-set_parts}
use scum_ne_djin_release.ChatLines.{
  text_lines, entry_text, lines_of, line_values, normalize_chat_lines, chat_lines_for_path,
  set_chat_lines_for_path,
}

-- A line as the editor keeps it: trimmed, not blank, and with no line break.
pub record IsLine (s : Text) : Type 0 where
  pub tight : trim s ≡ s
  pub filled : truthy s ≡ true
  pub one_line : All (λ c. (c == 10) ≡ false) s
  pub no_return : All (λ c. c ≢ 13) s

kept_lines :
    (ps : List Text)
    → All (All (λ c. (c == 10) ≡ false)) ps
    → All (All (λ c. c ≢ 13)) ps
    → All IsLine (filter truthy (map trim ps))
kept_lines [] h k = tt
kept_lines (p ∷ ps) (h, hs) (k, ks) = elim (Bool-cases (truthy (trim p))) [
  | inl e ↦ rw e (
    record {
      tight = trim_idem p;
      filled = e;
      one_line = All-trim (λ c. (c == 10) ≡ false) p h;
      no_return = All-trim (λ c. c ≢ 13) p k;
    },
    kept_lines ps hs ks,
  )
  | inr e ↦ rw e (kept_lines ps hs ks)
]

pub text_lines-IsLine : (s : Text) → All IsLine (text_lines s)
unfolding text_lines
text_lines-IsLine s =
    kept_lines (split_by (λ c. c == 10) (unify_newlines s))
      (split_by-lacks (λ c. c == 10) (unify_newlines s))
      (All-split_by (λ c. c ≢ 13) (λ c. c == 10) (unify_newlines s) (unify_newlines-lacks s))

lines_of-IsLine : (vs : List Value) → All IsLine (lines_of vs)
unfolding lines_of
lines_of-IsLine [] = tt
lines_of-IsLine (v ∷ vs) =
    All-append IsLine (text_lines (entry_text v)) (lines_of vs) (text_lines-IsLine (entry_text v))
      (lines_of-IsLine vs)

-- Whatever the value holds, the lines are trimmed, not blank, and without line breaks.
pub normalize_chat_lines-IsLine : (v : Value) → All IsLine (normalize_chat_lines v)
unfolding normalize_chat_lines
normalize_chat_lines-IsLine (arr vs) = lines_of-IsLine (items vs)
normalize_chat_lines-IsLine undefined = lines_of-IsLine (undefined ∷ [])
normalize_chat_lines-IsLine null = lines_of-IsLine (null ∷ [])
normalize_chat_lines-IsLine (bool b) = lines_of-IsLine (bool b ∷ [])
normalize_chat_lines-IsLine (num n) = lines_of-IsLine (num n ∷ [])
normalize_chat_lines-IsLine (str s) = lines_of-IsLine (str s ∷ [])
normalize_chat_lines-IsLine (obj fs) = lines_of-IsLine (obj fs ∷ [])

kept_same : (ls : List Text) → All IsLine ls → filter truthy (map trim ls) ≡ ls
kept_same [] h = refl
kept_same (l ∷ ls) (k, h) = rw (k.tight, k.filled) (ap (◌∷◌ l) (kept_same ls h))

one_lines : (ls : List Text) → All IsLine ls → All (All (λ c. (c == 10) ≡ false)) ls
one_lines [] h = tt
one_lines (l ∷ ls) (k, h) = (k.one_line, one_lines ls h)

no_returns : (ls : List Text) → All IsLine ls → All (All (λ c. c ≢ 13)) ls
no_returns [] h = tt
no_returns (l ∷ ls) (k, h) = (k.no_return, no_returns ls h)

text_lines-join : (ls : List Text) → All IsLine ls → text_lines (join (10 ∷ []) ls) ≡ ls
unfolding text_lines
text_lines-join [] h = unfold join unify_newlines split_by trim trim_end trim_start truthy in refl
text_lines-join (l ∷ ls) h =
    rw
      (
        unify_newlines_of_lacks (join (10 ∷ []) (l ∷ ls))
            (All-join (λ c. c ≢ 13) 10 (l ∷ ls) (omega arith) (no_returns (l ∷ ls) h)),
        split_by-join (λ c. c == 10) 10 l ls refl (one_lines (l ∷ ls) h),
      )
      (kept_same (l ∷ ls) h)

-- Each line by itself.
lines_of-line_values : (ls : List Text) → All IsLine ls → lines_of (line_values ls) ≡ ls
unfolding lines_of line_values entry_text is_nullish to_text join
lines_of-line_values [] h = refl
lines_of-line_values (l ∷ ls) (k, h) =
    ap (λ x. x ++ lines_of (line_values ls)) (text_lines-join (l ∷ []) (k, tt))
    ∙ ap (◌∷◌ l) (lines_of-line_values ls h)

lines_of_one : (s : Text) → lines_of (str s ∷ []) ≡ text_lines s
unfolding lines_of entry_text is_nullish to_text
lines_of_one s = append-nil (text_lines s)

-- Lines that are written to a draft are the lines that are read from it: for every list of
-- trimmed lines that are not blank and hold no line break, at a key that is not empty, has no dot,
-- and that the draft does not hold behind one that differs from it in case alone.
pub chat_lines-set_chat_lines :
    (path : Text) (fs : Fields) (ls : List Text)
    → truthy path ≡ true
    → split_by (λ c. c == b'.') path ≡ path ∷ []
    → IsClear path (props fs)
    → All IsLine ls
    → chat_lines_for_path (set_chat_lines_for_path (obj fs) path ls) path ≡ ls
unfolding chat_lines_for_path set_chat_lines_for_path get_nested_value set_nested_value
    normalize_chat_lines is_true ◌nullish_else◌ is_nullish
chat_lines-set_chat_lines path fs ls filled plain clear h =
    rw
      (
        filled,
        plain,
        get_parts-set_parts path (str (join (10 ∷ []) (lines_of (line_values ls)))) fs clear,
      )
      (lines_of_one (join (10 ∷ []) (lines_of (line_values ls)))
        ∙ ap (λ x. text_lines (join (10 ∷ []) x)) (lines_of-line_values ls h)
        ∙ text_lines-join ls h)
