-- ===== src/Aliases/Laws.antt =====
-- Normal aliases, and that normalising twice is normalising once.
use scum_ne_djin_release.Prelude.{
  ℕ, ◌≡◌, refl, ap, ◌∙◌, Bool, true, false, not, ◌||◌, List, [], ◌∷◌, map, ◌==◌, filter, Bool-cases,
  inl, inr, arith, All,
}
use scum_ne_djin_release.Text.{
  Text, ◌===◌, truthy, trim, trim_start, trim_end, lower, lower_unit, has, is_space,
}
use scum_ne_djin_release.Text.Laws.{lower_unit_idem, ===_comm}
use scum_ne_djin_release.Js.{Value, str, arr, to_items}
use scum_ne_djin_release.Js.Laws.{items-to_items}
use scum_ne_djin_release.Js.Convert.{to_text, ◌or_else◌, is_true}
use scum_ne_djin_release.Aliases.{
  is_mark, strip_marks, with_mark, alias_of, alias_token, normalize_command_alias_token,
  alias_parts, new_aliases, normalize_command_alias_list,
}

-- A unit that `toLowerCase` and the removal of white space keep.
abbrev Kept : ℕ → Type 0
Kept c = (is_space c ≡ false) × (lower_unit c ≡ c)

trim_start-Kept : (s : Text) → All Kept s → trim_start s ≡ s
unfolding trim_start
trim_start-Kept [] h = refl
trim_start-Kept (c ∷ s) ((k, l), h) = rw k refl

trim_end-Kept : (s : Text) → All Kept s → trim_end s ≡ s
unfolding trim_end
trim_end-Kept [] h = refl
trim_end-Kept (c ∷ s) ((k, l), h) = rw (trim_end-Kept s h, k) refl

clean-Kept : (s : Text) → All Kept s → filter (λ c. not (is_space c)) (lower (trim s)) ≡ s
unfolding trim lower
clean-Kept s h = rw (trim_start-Kept s h, trim_end-Kept s h) (go s h)
  where
    go : (s : Text) → All Kept s → filter (λ c. not (is_space c)) (map lower_unit s) ≡ s
    go [] h = refl
    go (c ∷ s) ((k, l), h) = rw (l, k) (ap (◌∷◌ c) (go s h))

Kept-clean : (s : Text) → All Kept (filter (λ c. not (is_space c)) (map lower_unit s))
Kept-clean [] = tt
Kept-clean (c ∷ s) = elim (Bool-cases (is_space (lower_unit c))) [
  | inl e ↦ rw e (Kept-clean s)
  | inr e ↦ rw e ((e, lower_unit_idem c), Kept-clean s)
]

strip-Kept : (s : Text) → All Kept s → All Kept (strip_marks s)
unfolding strip_marks
strip-Kept [] h = tt
strip-Kept (c ∷ s) (k, h) = elim (Bool-cases (is_mark c)) [
  | inl e ↦ rw e (strip-Kept s h)
  | inr e ↦ rw e (k, h)
]

strip_marks_idem : (s : Text) → strip_marks (strip_marks s) ≡ strip_marks s
unfolding strip_marks
strip_marks_idem [] = refl
strip_marks_idem (c ∷ s) = elim (Bool-cases (is_mark c)) [
  | inl e ↦ rw e (strip_marks_idem s)
  | inr e ↦ rw e (rw e refl)
]

strip_first : (s : Text) (c : ℕ) (r : Text) → strip_marks s ≡ c ∷ r → is_mark c ≡ false
unfolding strip_marks
strip_first [] c r h = absurd cc
strip_first (d ∷ s) c r h = elim (Bool-cases (is_mark d)) [
  | inl e ↦ strip_first s c r (rw e at h)
  | inr e ↦ grind arith
]

Normal : Text → Type 0
Normal s = All Kept s × (alias_of s ≡ s)

plain-Normal : (c : ℕ) (s : Text) → All Kept (c ∷ s) → strip_marks (c ∷ s) ≡ c ∷ s → Normal (c ∷ s)
unfolding Normal alias_of strip_marks
plain-Normal c s h k = rw (strip_first (c ∷ s) c s k) (h, refl)

mark-Normal :
    (c : ℕ) (s : Text) → All Kept (c ∷ s) → strip_marks (c ∷ s) ≡ c ∷ s → Normal (33 ∷ c ∷ s)
unfolding Normal alias_of with_mark is_mark is_space lower_unit
mark-Normal c s h k = (((refl, refl), h), ap (with_mark 33) k)

with_mark-Normal : (c : ℕ) (s : Text) → All Kept s → strip_marks s ≡ s → Normal (with_mark c s)
unfolding with_mark Normal alias_of
with_mark-Normal c [] h k = (tt, refl)
with_mark-Normal c (d ∷ s) h k = elim (Bool-cases (c == 33)) [
  | inl e ↦ rw e (mark-Normal d s h k)
  | inr e ↦ rw e (plain-Normal d s h k)
]

stripped-Normal : (s : Text) → All Kept s → strip_marks s ≡ s → Normal s
unfolding Normal alias_of
stripped-Normal [] h k = (tt, refl)
stripped-Normal (c ∷ s) h k = plain-Normal c s h k

alias-Normal : (s : Text) → All Kept s → Normal (alias_of s)
unfolding alias_of Normal
alias-Normal [] h = (tt, refl)
alias-Normal (c ∷ s) h = elim (Bool-cases (is_mark c)) [
  | inl e ↦ rw e (with_mark-Normal c (strip_marks s) (strip-Kept s h.1) (strip_marks_idem s))
  | inr e ↦
      rw e (stripped-Normal (strip_marks (c ∷ s)) (strip-Kept (c ∷ s) h) (strip_marks_idem (c ∷ s)))
]

-- An alias that was normalised stays as it is.
pub alias_token_idem : (s : Text) → alias_token (alias_token s) ≡ alias_token s
unfolding alias_token Normal lower
alias_token_idem s =
    let n = alias-Normal _ (Kept-clean (trim s)) in ap alias_of (clean-Kept _ n.0) ∙ n.1

abbrev pub Distinct : List Text → Type 0
Distinct [] = Unit {0}
Distinct (a ∷ rest) = (has rest a ≡ false) × Distinct rest

Fresh : List Text → Text → Type 0
Fresh seen a = (alias_token a ≡ a) × (truthy a ≡ true) × (has seen a ≡ false)

neither : (x y : Bool) → (x || y) ≡ false → (x ≡ false) × (y ≡ false)
neither x y h = grind arith

not_seen :
    (a : Text) (seen rest : List Text)
    → All (Fresh (a ∷ seen)) rest
    → All (Fresh seen) rest × (has rest a ≡ false)
unfolding Fresh has
not_seen a seen [] h = (tt, refl)
not_seen a seen (b ∷ rest) ((k, l, m), h) =
    let (i, j) = not_seen a seen rest h in
    let (e, f) = neither (a === b) (has seen b) m in (((k, l, f), i), rw (===_comm b a, e) j)

first-Fresh :
    (a : Text) (seen : List Text)
    → alias_token a ≡ a
    → (not (truthy a) || has seen a) ≡ false
    → Fresh seen a
unfolding Fresh
first-Fresh a seen h e = (h, grind arith, grind arith)

Fresh-aliases :
    (seen : List Text) (vs : List Value)
    → All (Fresh seen) (new_aliases seen vs) × Distinct (new_aliases seen vs)
unfolding new_aliases normalize_command_alias_token
Fresh-aliases seen [] = (tt, tt)
Fresh-aliases seen (v ∷ vs) =
    elim (Bool-cases (
      not (truthy (normalize_command_alias_token v))
      || has seen (normalize_command_alias_token v))) [
        | inl e ↦ rw e (Fresh-aliases seen vs)
        | inr e ↦
            let a = normalize_command_alias_token v in
            let (h, d) = Fresh-aliases (a ∷ seen) vs in
            let (k, l) = not_seen a seen (new_aliases (a ∷ seen) vs) h in
            rw e ((first-Fresh a seen (alias_token_idem _) e, k), (l, d))
      ]

drop_seen :
    (rest : List Text)
    → All (Fresh []) rest
    → All (λ a. (alias_token a ≡ a) × (truthy a ≡ true)) rest
unfolding Fresh
drop_seen [] h = tt
drop_seen (a ∷ rest) ((k, l, m), h) = ((k, l), drop_seen rest h)

-- Whatever a configuration holds, each alias of the list is normal and not empty, and none is
-- twice in it.
pub normalize_list-IsNormal :
    (v : Value)
    → All (λ a. (alias_token a ≡ a) × (truthy a ≡ true)) (normalize_command_alias_list v)
      × Distinct (normalize_command_alias_list v)
unfolding normalize_command_alias_list
normalize_list-IsNormal v =
    let (h, d) = Fresh-aliases [] (alias_parts v) in
    (drop_seen (new_aliases [] (alias_parts v)) h, d)

seen_neither : (x y : Bool) → x ≡ false → y ≡ false → (x || y) ≡ false
seen_neither x y h k = grind arith

unseen :
    (a : Text) (seen rest : List Text)
    → has rest a ≡ false
    → All (λ b. has seen b ≡ false) rest
    → All (λ b. has (a ∷ seen) b ≡ false) rest
unfolding has
unseen a seen [] h k = tt
unseen a seen (b ∷ rest) h (k, l) =
    let (e, f) = neither (b === a) (has rest a) h in
    (seen_neither (a === b) (has seen b) (===_comm a b ∙ e) k, unseen a seen rest f l)

normal_again :
    (seen rest : List Text)
    → All (λ a. (alias_token a ≡ a) × (truthy a ≡ true)) rest
    → All (λ a. has seen a ≡ false) rest
    → Distinct rest
    → new_aliases seen (map str rest) ≡ rest
unfolding new_aliases normalize_command_alias_token ◌or_else◌ is_true to_text
normal_again seen [] h k d = refl
normal_again seen (a ∷ rest) ((e, f), h) (k, l) (m, d) =
    rw (f, e, f, k) (ap (◌∷◌ a) (normal_again (a ∷ seen) rest h (unseen a seen rest m l) d))

none_seen : (rest : List Text) → All (λ a. has [] a ≡ false) rest
unfolding has
none_seen [] = tt
none_seen (a ∷ rest) = (refl, none_seen rest)

-- A list that was saved and is normalised again stays as it is.
pub normalize_list_idem :
    (v : Value)
    → normalize_command_alias_list (arr (to_items (map str (normalize_command_alias_list v))))
      ≡ normalize_command_alias_list v
unfolding normalize_command_alias_list alias_parts
normalize_list_idem v =
    let (h, d) = normalize_list-IsNormal v in
    rw (items-to_items (map str (new_aliases [] (alias_parts v))))
      (normal_again [] _ h (none_seen (new_aliases [] (alias_parts v))) d)

-- Whatever a configuration holds, each alias of the list is normal and not empty, none is twice in
-- it, and the list stays as it is when it is saved and normalised again.
pub normalize_list_lem :
    (v : Value)
    → All (λ a. (alias_token a ≡ a) × (truthy a ≡ true)) (normalize_command_alias_list v)
      × Distinct (normalize_command_alias_list v)
      × (normalize_command_alias_list (arr (to_items (map str (normalize_command_alias_list v))))
          ≡ normalize_command_alias_list v)
normalize_list_lem v = let (h, d) = normalize_list-IsNormal v in (h, d, normalize_list_idem v)
