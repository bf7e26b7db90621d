-- ===== src/Envelope/Laws.antt =====
-- JSON in texts: the recursion ends, and what it gives is not parsed further.
use scum_ne_djin_release.Prelude.{
  ℕ, zero, suc, ◌≤◌, ◌<◌, ◌≡◌, ◌⊎◌, refl, sym, ap, ◌∙◌, false, not, [], ◌∷◌, Option, none, some,
  if◌then◌else◌, Bool-cases, inl, inr, arith, length, subst,
}
use scum_ne_djin_release.Text.{Text, trim, trim_start, trim_end}
use scum_ne_djin_release.Js.{Value, undefined, null, bool, num, str, arr, obj}
use scum_ne_djin_release.Envelope.{
  looks_like_json, parse_next, or_undefined, parse_on, parse_maybe_json, size,
}

-- The size of a value that `JSON.parse` gives is strictly below the length of its text: a string
-- has its quotes beside what it holds, an array and an object their brackets.
abbrev pub IsJsonParse : (Text → Option Value) → Type 0
IsJsonParse parse = (t : Text) (v : Value) → parse t ≡ some v → size v < length t

length-trim_start_le : (s : Text) → length (trim_start s) ≤ length s
unfolding trim_start
length-trim_start_le [] = omega arith
length-trim_start_le (c ∷ s) = ground (arith, length-trim_start_le s)

length-trim_end_le : (s : Text) → length (trim_end s) ≤ length s
unfolding trim_end
length-trim_end_le [] = omega arith
length-trim_end_le (c ∷ s) = ground (arith, length-trim_end_le s)

length-trim_le : (s : Text) → length (trim s) ≤ length s
unfolding trim
length-trim_le s = omega (arith, length-trim_start_le s, length-trim_end_le (trim_start s))

-- A value that was parsed is a string, or it is given as it is.
pub text_or_value :
    (v : Value)
    → ((r : Text) × (v ≡ str r))
      ⊎ (((again : Text → Option Value) (s : Text) → parse_next (some v) again s ≡ some v)
          × ((parse : Text → Option Value) → parse_maybe_json parse v ≡ v))
unfolding parse_next parse_maybe_json
text_or_value undefined = inr ((λ again s. refl), λ parse. refl)
text_or_value null = inr ((λ again s. refl), λ parse. refl)
text_or_value (bool b) = inr ((λ again s. refl), λ parse. refl)
text_or_value (num n) = inr ((λ again s. refl), λ parse. refl)
text_or_value (str r) = inl (r, refl)
text_or_value (arr vs) = inr ((λ again s. refl), λ parse. refl)
text_or_value (obj fs) = inr ((λ again s. refl), λ parse. refl)

-- What is parsed within a bound ends within it.
abbrev pub Ends : (Text → Option Value) → ℕ → Type 0
Ends again n = (r : Text) → length r < n → (v : Value) × (again r ≡ some v) × (size v ≤ length r)

abbrev pub Bounded : Option Value → ℕ → Type 0
Bounded o n = (v : Value) → o ≡ some v → size v < n

next-Ends :
    (again : Text → Option Value) (s : Text) (o : Option Value)
    → Ends again (length s)
    → Bounded o (length s)
    → (v : Value) × (parse_next o again s ≡ some v) × (size v ≤ length s)
next-Ends again s none h k = (str s, unfold parse_next in refl, unfold size in omega arith)
next-Ends again s (some v) h k = elim (text_or_value v) [
  | inr (e, _) ↦ (v, e again s, omega (arith, k v refl))
  | inl (r, e) ↦
      let short : length r < length s = unfold size in k (str r) (ap some e) in
      let (w, f, l) = h r short in rw e (w, unfold parse_next in f, omega (arith, short, l))
]

next_agree :
    (f g : Text → Option Value) (s : Text) (o : Option Value)
    → ((r : Text) → length r < length s → f r ≡ g r)
    → Bounded o (length s)
    → parse_next o f s ≡ parse_next o g s
next_agree f g s none h k = unfold parse_next in refl
next_agree f g s (some v) h k = elim (text_or_value v) [
  | inr (e, _) ↦ e f s ∙ sym (e g s)
  | inl (r, e) ↦
      let short : length r < length s = unfold size in k (str r) (ap some e) in
      rw e (unfold parse_next in h r short)
]

caught : (Value → Value) → Text → Option Value → Value
caught again s none = str s
caught again s (some v) = again v

-- What the body of `parseMaybeJson` gives for a text, with its recursive call.
pub json_body : (Text → Option Value) → (Value → Value) → Text → Value
unfolding caught
json_body parse again s =
    if not (looks_like_json (trim s)) then str s else caught again s (parse (trim s))

module _ (parse : Text → Option Value) (json : IsJsonParse parse) where
  parse-Bounded : (s : Text) → Bounded (parse (trim s)) (length s)
  parse-Bounded s v e = omega (arith, json (trim s) v e, length-trim_le s)

  -- Fuel above the length of a text is enough, and what comes out is not larger than the text.
  pub parse_on_enough :
      (fuel : ℕ) (s : Text)
      → length s < fuel
      → (v : Value) × (parse_on parse fuel s ≡ some v) × (size v ≤ length s)
  unfolding parse_on
  parse_on_enough zero s h = absurd (omega arith)
  parse_on_enough (suc fuel) s h = elim (Bool-cases (looks_like_json (trim s))) [
    | inr e ↦ rw e (str s, refl, unfold size in omega arith)
    | inl e ↦ rw e (
        next-Ends (parse_on parse fuel) s (parse (trim s))
          (λ r k. parse_on_enough fuel r (omega arith)) (parse-Bounded s))
  ]

  pub parse_on_agree :
      (f g : ℕ) (s : Text) → length s < f → length s < g → parse_on parse f s ≡ parse_on parse g s
  unfolding parse_on
  parse_on_agree zero g s h k = absurd (omega arith)
  parse_on_agree (suc f) zero s h k = absurd (omega arith)
  parse_on_agree (suc f) (suc g) s h k = elim (Bool-cases (looks_like_json (trim s))) [
    | inr e ↦ rw e refl
    | inl e ↦ rw e (
        next_agree (parse_on parse f) (parse_on parse g) s (parse (trim s))
          (λ r l. parse_on_agree f g r (omega arith) (omega arith)) (parse-Bounded s))
  ]

  pub parse_maybe-size : (v : Value) → size (parse_maybe_json parse v) ≤ size v
  unfolding parse_maybe_json or_undefined size
  parse_maybe-size (str s) =
      let (v, e, l) = parse_on_enough (suc (length s)) s (omega arith) in rw e l
  parse_maybe-size undefined = omega arith
  parse_maybe-size null = omega arith
  parse_maybe-size (bool b) = omega arith
  parse_maybe-size (num n) = omega arith
  parse_maybe-size (arr vs) = omega arith
  parse_maybe-size (obj fs) = omega arith

  same_parsed :
      (s : Text) (o : Option Value)
      → Bounded o (length s)
      → or_undefined (parse_next o (parse_on parse (length s)) s)
        ≡ caught (parse_maybe_json parse) s o
  unfolding caught
  same_parsed s none k = unfold parse_next or_undefined in refl
  same_parsed s (some v) k = elim (text_or_value v) [
    | inr (e, f) ↦
        ap or_undefined (e (parse_on parse (length s)) s) ∙ (unfold or_undefined in sym (f parse))
    | inl (r, e) ↦
        let short : length r < length s = unfold size in k (str r) (ap some e) in
        rw e (
          unfold parse_next parse_maybe_json in
          ap or_undefined (parse_on_agree (length s) (suc (length r)) r short (omega arith)))
  ]

  json_body_lem :
      (s : Text) → parse_maybe_json parse (str s) ≡ json_body parse (parse_maybe_json parse) s
  unfolding parse_maybe_json json_body parse_on
  json_body_lem s = elim (Bool-cases (looks_like_json (trim s))) [
    | inr e ↦ rw e (unfold or_undefined in refl)
    | inl e ↦ rw e (same_parsed s (parse (trim s)) (parse-Bounded s))
  ]

module _ (parse : Text → Option Value) where
  IsPlain : Value → Type 0
  IsPlain v = parse_maybe_json parse v ≡ v

  IsPlain-text : (s : Text) (o : Option Value) → parse (trim s) ≡ o → o ≡ none → IsPlain (str s)
  unfolding IsPlain parse_maybe_json parse_on or_undefined parse_next
  IsPlain-text s o d e = elim (Bool-cases (looks_like_json (trim s))) [
    | inr f ↦ rw f refl
    | inl f ↦ rw (f, d ∙ e) refl
  ]

  next-IsPlain :
      (again : Text → Option Value) (s : Text) (o : Option Value) (v : Value)
      → parse (trim s) ≡ o
      → ((r : Text) (w : Value) → again r ≡ some w → IsPlain w)
      → parse_next o again s ≡ some v
      → IsPlain v
  next-IsPlain again s none v d h e =
      subst IsPlain (some_inj (unfold parse_next in e)) (IsPlain-text s none d refl)
    where
      some_inj : some (str s) ≡ some v → str s ≡ v
      some_inj q = cc
  next-IsPlain again s (some u) v d h e = elim (text_or_value u) [
    | inr (k, f) ↦ subst IsPlain (some_inj (sym (k again s) ∙ e)) (unfold IsPlain in f parse)
    | inl (r, q) ↦ h r v (unfold parse_next in (rw q at e))
  ]
    where
      some_inj : some u ≡ some v → u ≡ v
      some_inj q = cc

  parse_on-IsPlain : (fuel : ℕ) (s : Text) (v : Value) → parse_on parse fuel s ≡ some v → IsPlain v
  unfolding parse_on
  parse_on-IsPlain zero s v e = absurd (go e)
    where
      go : none ≡ some v → ⊥
      go q = cc
  parse_on-IsPlain (suc fuel) s v e = elim (Bool-cases (looks_like_json (trim s))) [
    | inr f ↦ subst IsPlain (some_inj (rw f at e)) (plain_lean s f)
    | inl f ↦
        next-IsPlain (parse_on parse fuel) s (parse (trim s)) v refl
          (λ r w. parse_on-IsPlain fuel r w) (rw f at e)
  ]
    where
      some_inj : some (str s) ≡ some v → str s ≡ v
      some_inj q = cc

      plain_lean : (s : Text) → looks_like_json (trim s) ≡ false → IsPlain (str s)
      plain_lean s f = unfold IsPlain parse_maybe_json parse_on or_undefined in rw f refl

  -- What was parsed is not parsed further.
  pub parse_maybe_idem :
      (v : Value) → parse_maybe_json parse (parse_maybe_json parse v) ≡ parse_maybe_json parse v
  unfolding parse_maybe_json IsPlain
  parse_maybe_idem (str s) = read_back (parse_on parse (suc (length s)) s) refl
    where
      read_back :
          (o : Option Value) → parse_on parse (suc (length s)) s ≡ o → IsPlain (or_undefined o)
      read_back none e = unfold IsPlain or_undefined parse_maybe_json in refl
      read_back (some v) e = unfold or_undefined in parse_on-IsPlain (suc (length s)) s v e
  parse_maybe_idem undefined = refl
  parse_maybe_idem null = refl
  parse_maybe_idem (bool b) = refl
  parse_maybe_idem (num n) = refl
  parse_maybe_idem (arr vs) = refl
  parse_maybe_idem (obj fs) = refl

-- If `JSON.parse` gives only values strictly smaller than their texts, the recursion of
-- `parseMaybeJson` ends for every text, as any fuel above its length gives a result; that result is
-- what the body gives with the recursive call in place, is no larger than the text, and is not
-- parsed further.
pub parse_maybe_json_lem :
    (parse : Text → Option Value)
    → IsJsonParse parse
    → (fuel : ℕ) (s : Text) → length s < fuel
    → let v = parse_maybe_json parse (str s) in
      (parse_on parse fuel s ≡ some v)
      × (v ≡ json_body parse (parse_maybe_json parse) s)
      × (size v ≤ length s)
      × (parse_maybe_json parse v ≡ v)
parse_maybe_json_lem parse json fuel s h = (
  enough_fuel,
  json_body_lem parse json s,
  unfold size in parse_maybe-size parse json (str s),
  parse_maybe_idem parse (str s),
)
  where
    enough_fuel : parse_on parse fuel s ≡ some (parse_maybe_json parse (str s))
    enough_fuel =
        let (v, e, l) = parse_on_enough parse json (suc (length s)) s (omega arith) in
        parse_on_agree parse json fuel (suc (length s)) s h (omega arith)
        ∙ e
        ∙ ap some (sym (unfold parse_maybe_json or_undefined in ap or_undefined e))
