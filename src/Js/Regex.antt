-- ===== src/Js/Regex.antt =====
-- Regular expressions with backtracking, in the order of alternatives that ECMAScript fixes: what
-- src/ScumWarden.Server/wwwroot/app.js uses of them. Under the flag `i` two units are equal if
-- they are equal in lower case.
use scum_ne_djin_release.Prelude.{
  ℕ, zero, suc, ◌-◌, Bool, true, false, not, ◌&&◌, ◌||◌, List, [], ◌∷◌, ◌++◌, Option, none, some,
  if◌then◌else◌, leb, ltb, ◌==◌, length, take, any, is_some,
}
use scum_ne_djin_release.Text.{Text, is_space, is_digit, lower_unit}

-- `greedy` tells `*` from `*?`; a group stores what it matched under its number.
pub data Regex : Type 0 where
  unit : (ℕ → Bool) → Regex
  empty at_start at_end at_edge : Regex
  chain choice : Regex → Regex → Regex
  many : Bool → Regex → Regex
  group : ℕ → Regex → Regex

-- What is left to match, the unit before it, and the groups, the newest first.
pub record At : Type 0 where
  pub rest : Text
  pub before : Option ℕ
  pub groups : List (ℕ × Text)

abbrev Next : Type 0
Next = At → Option At

or_else : Option At → Option At → Option At
or_else none b = b
or_else (some a) b = some a

is_word : ℕ → Bool
is_word c = (leb b'A' c && leb c b'Z') || ((leb b'a' c && leb c b'z') || (is_digit c || c == b'_'))

word_before : Option ℕ → Bool
word_before none = false
word_before (some c) = is_word c

word_after : Text → Bool
word_after [] = false
word_after (c ∷ s) = is_word c

is_none : Option ℕ → Bool
is_none none = true
is_none (some c) = false

is_nil : Text → Bool
is_nil [] = true
is_nil (c ∷ s) = false

step_unit : (ℕ → Bool) → At → Text → Option At
step_unit test a [] = none
step_unit test a (c ∷ s) = if test c then some (record a { rest = s; before = some c }) else none

and_then : Option At → Next → Option At
and_then none k = none
and_then (some a) k = k a

-- The rounds of `*`; a round that matches nothing ends them.
rounds : (At → Next → Option At) → Bool → ℕ → At → Next → Option At
rounds body greedy zero a k = k a
rounds body greedy (suc fuel) a k =
    let more =
      body a
        (λ b. if ltb (length b.rest) (length a.rest) then rounds body greedy fuel b k else none) in
    if greedy then or_else more (k a) else or_else (k a) more

unfoldable pub run_regex : Regex → At → Next → Option At
unfolding step_unit and_then rounds or_else word_before word_after is_none is_nil is_word
run_regex (unit test) a k = and_then (step_unit test a a.rest) k
run_regex empty a k = k a
run_regex at_start a k = if is_none a.before then k a else none
run_regex at_end a k = if is_nil a.rest then k a else none
run_regex at_edge a k =
    if word_before a.before
    then if word_after a.rest then none else k a
    else if word_after a.rest
    then k a
    else none
run_regex (chain r s) a k = run_regex r a (λ b. run_regex s b k)
run_regex (choice r s) a k = or_else (run_regex r a k) (run_regex s a k)
run_regex (many greedy r) a k = rounds (λ b j. run_regex r b j) greedy (length a.rest) a k
run_regex (group n r) a k =
    run_regex r a
      (λ b. k (record b { groups = (n, take (length a.rest - length b.rest) a.rest) ∷ b.groups }))

-- A match: the text before it, the text of it, and where it ends.
pub record Found : Type 0 where
  pub prefix : Text
  pub matched : Text
  pub end_at : At

found_at : Text → Text → Option At → Option Found
found_at pre s none = none
found_at pre s (some b) =
    some (record { prefix = pre; matched = take (length s - length b.rest) s; end_at = b })

first_found : Option Found → Option Found → Option Found
first_found none later = later
first_found (some f) later = some f

search_from : Regex → Text → Option ℕ → Text → Option Found
unfolding found_at first_found
search_from r pre before [] =
    found_at pre [] (run_regex r (record { rest = []; before = before; groups = [] }) some)
search_from r pre before (c ∷ s) =
    first_found
      (found_at pre (c ∷ s)
        (run_regex r (record { rest = c ∷ s; before = before; groups = [] }) some))
      (search_from r (pre ++ c ∷ []) (some c) s)

-- `text.match(re)`
unfoldable pub search : Regex → Text → Option Found
unfolding search_from
search r s = search_from r [] none s

-- `re.test(text)`
unfoldable pub tests : Regex → Text → Bool
tests r s = is_some (search r s)

group_in : ℕ → List (ℕ × Text) → Text
group_in n [] = []
group_in n ((m, t) ∷ gs) = if m == n then t else group_in n gs

-- `match[n]`; empty if the group is not part of the match
unfoldable pub group_of : ℕ → Found → Text
unfolding group_in
group_of n f = group_in n f.end_at.groups

replaced : Text → Text → Option Found → Text
replaced by s none = s
replaced by s (some f) = f.prefix ++ by ++ f.end_at.rest

-- `text.replace(re, by)` without the flag `g`
unfoldable pub replace_first : Regex → Text → Text → Text
unfolding replaced
replace_first r by s = replaced by s (search r s)

-- Each match of at least one unit is replaced; the expressions of the panel match no less.
replace_from : ℕ → Regex → Text → Option ℕ → Text → Text
replace_from zero r by before s = s
replace_from (suc fuel) r by before [] = []
replace_from (suc fuel) r by before (c ∷ s) =
    let copied = c ∷ replace_from fuel r by (some c) s in
    let jump = λ (b : At). by ++ replace_from fuel r by b.before b.rest in
    elim (run_regex r (record { rest = c ∷ s; before = before; groups = [] }) some) [
      | none ↦ copied
      | some b ↦ if ltb (length b.rest) (length (c ∷ s)) then jump b else copied
    ]

-- `text.replace(re, by)` with the flag `g`
unfoldable pub replace_all : Regex → Text → Text → Text
unfolding replace_from
replace_all r by s = replace_from (length s) r by none s

-- What the callback of `text.replace(re, callback)` with the flag `g` is called with; each match has
-- at least one unit.
matches_from : ℕ → Regex → Option ℕ → Text → List Found
matches_from zero r before s = []
matches_from (suc fuel) r before [] = []
matches_from (suc fuel) r before (c ∷ s) =
    let later = matches_from fuel r (some c) s in
    let found = λ (b : At).
      record { prefix = []; matched = take (length (c ∷ s) - length b.rest) (c ∷ s); end_at = b }
      ∷ matches_from fuel r b.before b.rest in
    elim (run_regex r (record { rest = c ∷ s; before = before; groups = [] }) some) [
      | none ↦ later
      | some b ↦ if ltb (length b.rest) (length (c ∷ s)) then found b else later
    ]

unfoldable pub matches_of : Regex → Text → List Found
unfolding matches_from
matches_of r s = matches_from (length s) r none s

-- The parts that expressions are made of.
unfoldable pub lit : Text → Regex
lit [] = empty
lit (c ∷ s) = chain (unit (λ d. c == d)) (lit s)

-- A literal under the flag `i`
unfoldable pub word : Text → Regex
word [] = empty
word (c ∷ s) = chain (unit (λ d. lower_unit c == lower_unit d)) (word s)

-- `a|b|…`
unfoldable pub any_of : List Regex → Regex
any_of [] = unit (λ c. false)
any_of (r ∷ []) = r
any_of (r ∷ s ∷ rs) = choice r (any_of (s ∷ rs))

unfoldable pub all_of : List Regex → Regex
all_of [] = empty
all_of (r ∷ rs) = chain r (all_of rs)

-- `r*`, `r+` and `r?`
abbrev pub star : Regex → Regex
star r = many true r

abbrev pub plus : Regex → Regex
plus r = chain r (many true r)

abbrev pub maybe : Regex → Regex
maybe r = choice r empty

-- `r+?`
abbrev pub lazy_plus : Regex → Regex
lazy_plus r = chain r (many false r)

-- `\s*`, `\s+`, `\d+`
abbrev pub blanks : Regex
blanks = many true (unit is_space)

abbrev pub blanks1 : Regex
blanks1 = chain (unit is_space) blanks

abbrev pub digits1 : Regex
digits1 = plus (unit is_digit)

-- `.`, and a unit that is none of a list
abbrev pub dot : Regex
dot = unit (λ c. not ((c == 10) || ((c == 13) || ((c == 0x2028) || (c == 0x2029)))))

unfoldable pub none_of : Text → Regex
none_of s = unit (λ c. not (any (λ d. d == c) s))

unfoldable pub one_of : Text → Regex
one_of s = unit (λ c. any (λ d. d == c) s)

-- `r{n}` and `r{n,n+m}`
unfoldable pub exactly : ℕ → Regex → Regex
exactly zero r = empty
exactly (suc n) r = chain r (exactly n r)

unfoldable pub up_to : ℕ → Regex → Regex
up_to zero r = empty
up_to (suc n) r = choice (chain r (up_to n r)) empty

unfoldable pub regex_ops : Unit {0}
unfolding run_regex search tests group_of replace_first replace_all matches_of lit word any_of
    all_of none_of one_of exactly up_to
regex_ops = tt
