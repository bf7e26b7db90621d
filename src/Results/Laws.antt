-- ===== src/Results/Laws.antt =====
-- A result is never shown as nothing, and a failure is shown first.
use scum_ne_djin_release.Prelude.{
  ◌≡◌, ◌≢◌, refl, true, false, not, ◌&&◌, List, [], ◌∷◌, ◌++◌, Bool-cases, inl, inr, arith, All,
  All-append,
}
use scum_ne_djin_release.Text.{Text, codes, truthy, has, starts_with}
use scum_ne_djin_release.Text.Lines.{join}
use scum_ne_djin_release.Js.{Value, bool, obj, Fields, Props, props}
use scum_ne_djin_release.Js.Numbers.{Number}
use scum_ne_djin_release.Js.Objects.{get}
use scum_ne_djin_release.Js.Convert.{◌nullish_else◌}
use scum_ne_djin_release.Results.{
  is_bool, is_above, failed_lines, count_lines, chunk_lines, ok_lines, command_lines,
  summarize_queued_result, push_new, push_all, result_lines, shown_lines, format_parsed,
}

abbrev Filled : List Text → Type 0
Filled lines = All (λ l. truthy l ≡ true) lines

append-Filled : (xs ys : List Text) → Filled xs → Filled ys → Filled (xs ++ ys)
append-Filled xs ys h k = All-append (λ l. truthy l ≡ true) xs ys h k

push_new-Filled : (l : Text) (lines : List Text) → Filled lines → Filled (push_new l lines)
unfolding push_new
push_new-Filled l lines h = elim (Bool-cases (truthy l)) [
  | inr e ↦ rw e h
  | inl e ↦ elim (Bool-cases (has lines l)) [
    | inl f ↦ rw (e, f) h
    | inr f ↦ rw (e, f) (append-Filled lines (l ∷ []) h (e, tt))
  ]
]

push_all-Filled : (ls lines : List Text) → Filled ls → Filled lines → Filled (push_all ls lines)
unfolding push_all
push_all-Filled [] lines h k = k
push_all-Filled (l ∷ ls) lines (e, h) k = elim (Bool-cases (has lines l)) [
  | inl f ↦ rw f (push_all-Filled ls lines h k)
  | inr f ↦ rw f (push_all-Filled ls (lines ++ l ∷ []) h (append-Filled lines (l ∷ []) k (e, tt)))
]

failed-Filled : (vs : List Value) → Filled (failed_lines vs)
unfolding failed_lines truthy
failed-Filled [] = tt
failed-Filled (v ∷ vs) = (refl, tt)

count-Filled : (n r : Number) (ok : Value) → Filled (count_lines n r ok)
unfolding count_lines truthy
count-Filled n r ok = elim (Bool-cases (is_above n 0)) [
  | inl e ↦ rw e (refl, tt)
  | inr e ↦ elim (Bool-cases (is_above r 0 && not (is_bool false ok))) [
    | inl f ↦ rw (e, f) (refl, tt)
    | inr f ↦ rw (e, f) tt
  ]
]

chunk-Filled : (n : Number) → Filled (chunk_lines n)
unfolding chunk_lines truthy
chunk-Filled n = elim (Bool-cases (is_above n 1)) [ inl e ↦ rw e (refl, tt) | inr e ↦ rw e tt ]

queued-Filled : (v : Value) → Filled (summarize_queued_result v)
unfolding summarize_queued_result
queued-Filled v =
    append-Filled _ _ (append-Filled _ _ (count-Filled _ _ _) (chunk-Filled _)) (failed-Filled _)

ok-Filled : (ok : Value) → Filled (ok_lines ok)
unfolding ok_lines truthy
ok-Filled ok = elim (Bool-cases (is_bool true ok)) [
  | inl e ↦ rw e (refl, tt)
  | inr e ↦ elim (Bool-cases (is_bool false ok)) [
    | inl f ↦ rw (e, f) (refl, tt)
    | inr f ↦ rw (e, f) tt
  ]
]

command-Filled : (command transport : Text) → Filled (command_lines command transport)
unfolding command_lines truthy
command-Filled [] transport = tt
command-Filled (c ∷ command) [] = (refl, tt)
command-Filled (c ∷ command) (t ∷ transport) = (refl, tt)

result-Filled : (p : Props) → Filled (result_lines p)
unfolding result_lines
result-Filled p =
    append-Filled _ _
      (push_all-Filled _ _ (queued-Filled _) (
        append-Filled _ _ (push_new-Filled _ _ (push_new-Filled _ _ (ok-Filled _)))
          (command-Filled _ _)))
      (failed-Filled _)

joined_filled :
    (l : Text) (ls : List Text) → truthy l ≡ true → truthy (join (codes "\n") (l ∷ ls)) ≡ true
unfolding join truthy
joined_filled [] ls h = absurd cc
joined_filled (c ∷ l) [] h = refl
joined_filled (c ∷ l) (m ∷ ls) h = refl

shown-Filled :
    (p : Props) (lines : List Text) → p ≢ [] → Filled lines → truthy (shown_lines p lines) ≡ true
unfolding shown_lines
shown-Filled [] [] h k = absurd (h refl)
shown-Filled (f ∷ p) [] h k = unfold truthy in refl
shown-Filled [] (l ∷ ls) h (e, k) = joined_filled l ls e
shown-Filled (f ∷ p) (l ∷ ls) h (e, k) = joined_filled l ls e

-- A reply with at least one property is shown as a text that is not empty, whatever it holds.
pub format_parsed-filled : (fs : Fields) → props fs ≢ [] → truthy (format_parsed (obj fs)) ≡ true
unfolding format_parsed
format_parsed-filled fs h =
    shown-Filled (props fs) (result_lines (props fs)) h (result-Filled (props fs))

-- A line comes first.
Leads : Text → List Text → Type 0
Leads l lines = (rest : List Text) × (lines ≡ l ∷ rest)

Leads-append : (l : Text) (xs ys : List Text) → Leads l xs → Leads l (xs ++ ys)
unfolding Leads
Leads-append l xs ys (rest, e) = (rest ++ ys, rw e refl)

Leads-push_new : (l m : Text) (lines : List Text) → Leads l lines → Leads l (push_new m lines)
unfolding push_new
Leads-push_new l m lines h = elim (Bool-cases (truthy m && not (has lines m))) [
  | inl e ↦ rw e (Leads-append l lines (m ∷ []) h)
  | inr e ↦ rw e h
]

Leads-push_all : (l : Text) (ms lines : List Text) → Leads l lines → Leads l (push_all ms lines)
unfolding push_all
Leads-push_all l [] lines h = h
Leads-push_all l (m ∷ ms) lines h = elim (Bool-cases (has lines m)) [
  | inl e ↦ rw e (Leads-push_all l ms lines h)
  | inr e ↦ rw e (Leads-push_all l ms (lines ++ m ∷ []) (Leads-append l lines (m ∷ []) h))
]

ok-Leads : (v : Value) → is_bool false v ≡ true → Leads (codes "Не выполнено.") (ok_lines v)
unfolding ok_lines Leads
ok-Leads v h = elim (Bool-cases (is_bool true v)) [
  | inl e ↦ absurd (not_both v e h)
  | inr e ↦ rw (e, h) ([], refl)
]
  where
    not_both : (v : Value) → is_bool true v ≡ true → is_bool false v ≡ true → ⊥
    not_both (bool b) e h = unfold is_bool in grind arith
    not_both v e h = unfold is_bool in cc

-- If a reply says that it is not ok, or without that, that it has no success, the first line of
-- what is shown says so.
pub result_lines-failure :
    (p : Props)
    → is_bool false (get (codes "ok") p nullish_else get (codes "success") p) ≡ true
    → (rest : List Text) × (result_lines p ≡ codes "Не выполнено." ∷ rest)
unfolding result_lines
result_lines-failure p h =
    unfold Leads in
    Leads-append _ _ _ (
      Leads-push_all _ _ _
        (Leads-append _ _ _ (Leads-push_new _ _ _ (Leads-push_new _ _ _ (ok-Leads _ h)))))

lead_text :
    (p : Props) (rest : List Text)
    → starts_with (shown_lines p (codes "Не выполнено." ∷ rest)) (codes "Не выполнено.") ≡ true
unfolding shown_lines join starts_with
lead_text [] [] = refl
lead_text [] (l ∷ ls) = refl
lead_text (f ∷ p) [] = refl
lead_text (f ∷ p) (l ∷ ls) = refl

-- If a reply says that it is not ok, or without that, that it has no success, then the text that
-- it is shown as begins with the failure, whatever else it holds.
pub format_failure :
    (fs : Fields)
    → is_bool false (get (codes "ok") (props fs) nullish_else get (codes "success") (props fs))
      ≡ true
    → starts_with (format_parsed (obj fs)) (codes "Не выполнено.") ≡ true
unfolding format_parsed
format_failure fs h =
    let (rest, e) = result_lines-failure (props fs) h in rw e (lead_text (props fs) rest)
