-- ===== src/Envelope/Arrays.antt =====
-- The search for rows in a reply ends: each step goes into a smaller value.
use scum_ne_djin_release.Prelude.{
  ℕ, zero, suc, ◌≤◌, ◌<◌, ◌≡◌, refl, true, false, List, [], ◌∷◌, ◌++◌, Option, none, some,
  Bool-cases, inl, inr, arith, is_some,
}
use scum_ne_djin_release.Text.{Text, codes, ◌===◌}
use scum_ne_djin_release.Js.{
  Value, undefined, null, bool, num, str, arr, obj, Fields, end, field, props,
}
use scum_ne_djin_release.Js.Objects.{get, lookup, props_of}
use scum_ne_djin_release.Envelope.{
  is_own, payload_keys, pick_rows, rows_or_nil, parse_maybe_json, unwrap_api_envelope, first_rows,
  rows_of, array_on, size, size_fields, array_from_payload,
}
use scum_ne_djin_release.Envelope.Laws.{IsJsonParse, parse_maybe-size}

size-get : (key : Text) (fs : Fields) → size (get key (props fs)) ≤ size_fields fs
unfolding get lookup props size
size-get key end = omega arith
size-get key (field k v fs) = elim (Bool-cases (k === key)) [
  | inl e ↦ rw e (omega arith)
  | inr e ↦ rw e (omega (arith, size-get key fs))
]

size-get_of : (key : Text) (v : Value) → size (get key (props_of v)) ≤ size v
unfolding props_of
size-get_of key (obj fs) = unfold size in omega (arith, size-get key fs)
size-get_of key undefined = unfold get lookup size in omega arith
size-get_of key null = unfold get lookup size in omega arith
size-get_of key (bool b) = unfold get lookup size in omega arith
size-get_of key (num n) = unfold get lookup size in omega arith
size-get_of key (str s) = unfold get lookup size in omega arith
size-get_of key (arr vs) = unfold get lookup size in omega arith

-- Two calls agree on every value below a size, and give rows there.
abbrev pub Agree : (Value → Option (List Value)) → (Value → Option (List Value)) → ℕ → Type 0
Agree f g n = (v : Value) → size v < n → (f v ≡ g v) × (is_some (f v) ≡ true)

pick_rows-some :
    (v : Value) (a c : Option (List Value))
    → is_some a ≡ true
    → is_some c ≡ true
    → is_some (pick_rows v a c) ≡ true
unfolding pick_rows
pick_rows-some (arr vs) a c k m = refl
pick_rows-some (obj fs) none c k m = k
pick_rows-some (obj fs) (some []) c k m = m
pick_rows-some (obj fs) (some (v ∷ vs)) c k m = refl
pick_rows-some undefined a c k m = m
pick_rows-some null a c k m = m
pick_rows-some (bool b) a c k m = m
pick_rows-some (num n) a c k m = m
pick_rows-some (str s) a c k m = m

pick_rows-agree :
    (v : Value) (a b c d : Option (List Value))
    → (a ≡ b) × (is_some a ≡ true)
    → (c ≡ d) × (is_some c ≡ true)
    → (pick_rows v a c ≡ pick_rows v b d) × (is_some (pick_rows v a c) ≡ true)
pick_rows-agree v a b c d (h, k) (l, m) = rw (← h, ← l) (refl, pick_rows-some v a c k m)

rows_of_some : (o p : Option (List Value)) → o ≡ p → is_some o ≡ true → o ≡ some (rows_or_nil p)
unfolding rows_or_nil
rows_of_some none p e h = absurd (go h)
  where
    go : false ≡ true → ⊥
    go q = cc
rows_of_some (some vs) p e h = rw (← e) refl

module _ (parse : Text → Option Value) (json : IsJsonParse parse) where
  size-unwrap : (v : Value) → size (unwrap_api_envelope parse v) ≤ size v
  unfolding unwrap_api_envelope
  size-unwrap v =
      let p = parse_maybe_json parse v in
      let small = parse_maybe-size parse json v in
      elim (Bool-cases (is_own (codes "data") p)) [
        | inl e ↦ rw e (
            omega (
              arith,
              small,
              parse_maybe-size parse json (get (codes "data") (props_of p)),
              size-get_of (codes "data") p,
            ))
        | inr e ↦ elim (Bool-cases (is_own (codes "payload") p)) [
          | inl f ↦
              rw (e, f)
                (omega (
                  arith,
                  small,
                  parse_maybe-size parse json (get (codes "payload") (props_of p)),
                  size-get_of (codes "payload") p,
                ))
          | inr f ↦ rw (e, f) small
        ]
      ]

  first_rows-Agree :
      (f g : Value → Option (List Value)) (fs : Fields) (keys : List Text)
      → Agree f g (suc (size_fields fs))
      → (first_rows parse f (props fs) keys ≡ first_rows parse g (props fs) keys)
        × (is_some (first_rows parse f (props fs) keys) ≡ true)
  unfolding first_rows
  first_rows-Agree f g fs [] h = (refl, refl)
  first_rows-Agree f g fs (key ∷ keys) h =
      let v = parse_maybe_json parse (get key (props fs)) in
      pick_rows-agree v (f v) (g v) _ _
        (h v (omega (arith, size-get key fs, parse_maybe-size parse json (get key (props fs)))))
        (first_rows-Agree f g fs keys h)

  rows_of-Agree :
      (f g : Value → Option (List Value)) (keys : List Text) (v : Value)
      → Agree f g (size v)
      → (rows_of parse f keys v ≡ rows_of parse g keys v)
        × (is_some (rows_of parse f keys v) ≡ true)
  unfolding rows_of
  rows_of-Agree f g keys (obj fs) h =
      first_rows-Agree f g fs (keys ++ payload_keys) (unfold size in h)
  rows_of-Agree f g keys (arr vs) h = (refl, refl)
  rows_of-Agree f g keys undefined h = (refl, refl)
  rows_of-Agree f g keys null h = (refl, refl)
  rows_of-Agree f g keys (bool b) h = (refl, refl)
  rows_of-Agree f g keys (num n) h = (refl, refl)
  rows_of-Agree f g keys (str s) h = (refl, refl)

  array_on-agree :
      (f g : ℕ) (keys : List Text) (v : Value)
      → size v < f
      → size v < g
      → (array_on parse f keys v ≡ array_on parse g keys v)
        × (is_some (array_on parse f keys v) ≡ true)
  unfolding array_on
  array_on-agree zero g keys v h k = absurd (omega arith)
  array_on-agree (suc f) zero keys v h k = absurd (omega arith)
  array_on-agree (suc f) (suc g) keys v h k =
      rows_of-Agree (array_on parse f keys) (array_on parse g keys) keys
        (unwrap_api_envelope parse v)
        (λ w l.
          array_on-agree f g keys w (omega (arith, size-unwrap v)) (omega (arith, size-unwrap v)))

  -- If `JSON.parse` gives only values strictly smaller than their texts, the search for rows in a
  -- reply ends: any fuel above the size of the reply gives the rows.
  pub array_from_payload_enough :
      (fuel : ℕ) (keys : List Text) (reply : Value)
      → size reply < fuel
      → array_on parse fuel keys reply ≡ some (array_from_payload parse reply keys)
  unfolding array_from_payload
  array_from_payload_enough fuel keys reply h =
      let (e, k) = array_on-agree fuel (suc (size reply)) keys reply h (omega arith) in
      rows_of_some (array_on parse fuel keys reply) _ e k
