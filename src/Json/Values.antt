-- ===== src/Json/Values.antt =====
-- The scanner on printed values: what `stringify` prints is stepped over whole.
use scum_ne_djin_release.Prelude.{
  ℕ, suc, ◌+◌, ◌≡◌, refl, ap, Bool, true, false, [], ◌∷◌, ◌++◌, if◌then◌else◌, arith, All,
  Bool-cases, inl, inr,
}
use scum_ne_djin_release.Text.{Text, codes}
use scum_ne_djin_release.Js.{
  Value, undefined, null, bool, num, str, arr, obj, Items, nil, cons, Fields, end, field,
}
use scum_ne_djin_release.Js.Numbers.{Number, is_finite, print_number}
use scum_ne_djin_release.Js.Numbers.Laws.{IsPlain, print_number-IsPlain}
use scum_ne_djin_release.Json.{scan, scan_char}
use scum_ne_djin_release.Json.Print.{
  quote, stringify, stringify_items, stringify_more, stringify_fields, stringify_fields_more,
}
use scum_ne_djin_release.Json.Scanning.{
  outside, Leads, Leads-nil, Leads-append, Leads-cons, Leads-plain, plain_char,
}
use scum_ne_djin_release.Json.Quoting.{Leads-quote}

pub open_brace :
    (d i : ℕ) (rest : Text) → scan (b'{' ∷ rest) i (outside d) ≡ scan rest (i + 1) (outside (suc d))
unfolding scan scan_char
open_brace d i rest = ap (λ n. scan rest (i + 1) (outside n)) (omega arith)

close_brace :
    (d i : ℕ) (rest : Text)
    → scan (b'}' ∷ rest) i (outside (suc (suc d))) ≡ scan rest (i + 1) (outside (suc d))
unfolding scan scan_char
close_brace d i rest = refl

bool-IsPlain : (b : Bool) → All IsPlain (if b then codes "true" else codes "false")
bool-IsPlain true = omega arith
bool-IsPlain false = omega arith

Leads-number :
    (d : ℕ) (n : Number)
    → Leads (outside d) (if is_finite n then print_number n else codes "null") (outside d)
Leads-number d n = elim (Bool-cases (is_finite n)) [
  | inl e ↦ rw e (Leads-plain d (print_number n) (print_number-IsPlain n))
  | inr e ↦ rw e (Leads-plain d (codes "null") (omega arith))
]

-- A plain character, a text, and a plain character.
Leads-between :
    (d : ℕ) (a b : ℕ) (p : Text)
    → IsPlain a
    → IsPlain b
    → Leads (outside d) p (outside d)
    → Leads (outside d) (a ∷ p ++ b ∷ []) (outside d)
Leads-between d a b p ha hb f =
    Leads-cons (outside d) (outside d) (outside d) a (p ++ b ∷ []) (plain_char d a ha) (
      Leads-append (outside d) (outside d) (outside d) p (b ∷ []) f
        (Leads-plain d (b ∷ []) (hb, tt)))

-- A key, a colon, a value, and what follows.
Leads-property :
    (d : ℕ) (k v rest : Text)
    → Leads (outside d) v (outside d)
    → Leads (outside d) rest (outside d)
    → Leads (outside d) (quote k ++ (b':' ∷ (v ++ rest))) (outside d)
Leads-property d k v rest f g =
    Leads-append (outside d) (outside d) (outside d) (quote k) (b':' ∷ (v ++ rest))
      (Leads-quote d k)
      (Leads-cons (outside d) (outside d) (outside d) b':' (v ++ rest)
        (plain_char d b':' (omega arith))
        (Leads-append (outside d) (outside d) (outside d) v rest f g))

Leads-comma :
    (d : ℕ) (p : Text) → Leads (outside d) p (outside d) → Leads (outside d) (b',' ∷ p) (outside d)
Leads-comma d p f =
    Leads-cons (outside d) (outside d) (outside d) b',' p (plain_char d b',' (omega arith)) f

Leads-braces :
    (d : ℕ) (p : Text)
    → Leads (outside (suc (suc d))) p (outside (suc (suc d)))
    → Leads (outside (suc d)) (b'{' ∷ p ++ b'}' ∷ []) (outside (suc d))
Leads-braces d p f =
    Leads-cons (outside (suc d)) (outside (suc (suc d))) (outside (suc d)) b'{' (p ++ b'}' ∷ [])
      (open_brace (suc d))
      (Leads-append (outside (suc (suc d))) (outside (suc (suc d))) (outside (suc d)) p (b'}' ∷ [])
        f
        (Leads-cons (outside (suc (suc d))) (outside (suc d)) (outside (suc d)) b'}' []
          (close_brace d) (Leads-nil (outside (suc d)))))

mutual
  unfolding stringify

  Leads-stringify : (v : Value) (d : ℕ) → Leads (outside (suc d)) (stringify v) (outside (suc d))
  Leads-stringify undefined d = Leads-plain (suc d) (codes "null") (omega arith)
  Leads-stringify null d = Leads-plain (suc d) (codes "null") (omega arith)
  Leads-stringify (bool b) d =
      Leads-plain (suc d) (if b then codes "true" else codes "false") (bool-IsPlain b)
  Leads-stringify (num n) d = Leads-number (suc d) n
  Leads-stringify (str s) d = Leads-quote (suc d) s
  Leads-stringify (arr vs) d =
      Leads-between (suc d) b'[' b']' (stringify_items vs) (omega arith) (omega arith)
        (Leads-items vs d)
  Leads-stringify (obj fs) d = Leads-braces d (stringify_fields fs) (Leads-fields fs (suc d))

  Leads-items :
      (vs : Items) (d : ℕ) → Leads (outside (suc d)) (stringify_items vs) (outside (suc d))
  Leads-items nil d = Leads-nil (outside (suc d))
  Leads-items (cons v vs) d =
      Leads-append (outside (suc d)) (outside (suc d)) (outside (suc d)) (stringify v)
        (stringify_more vs) (Leads-stringify v d) (Leads-more vs d)

  Leads-more : (vs : Items) (d : ℕ) → Leads (outside (suc d)) (stringify_more vs) (outside (suc d))
  Leads-more nil d = Leads-nil (outside (suc d))
  Leads-more (cons v vs) d = Leads-comma (suc d) (stringify v ++ stringify_more vs) (
      Leads-append (outside (suc d)) (outside (suc d)) (outside (suc d)) (stringify v)
        (stringify_more vs) (Leads-stringify v d) (Leads-more vs d))

  pub Leads-fields :
      (fs : Fields) (d : ℕ) → Leads (outside (suc d)) (stringify_fields fs) (outside (suc d))
  Leads-fields end d = Leads-nil (outside (suc d))
  Leads-fields (field k undefined fs) d = Leads-fields fs d
  Leads-fields (field k v fs) d =
      Leads-property (suc d) k (stringify v) (stringify_fields_more fs) (Leads-stringify v d)
        (Leads-fields_more fs d)

  Leads-fields_more :
      (fs : Fields) (d : ℕ) → Leads (outside (suc d)) (stringify_fields_more fs) (outside (suc d))
  Leads-fields_more end d = Leads-nil (outside (suc d))
  Leads-fields_more (field k undefined fs) d = Leads-fields_more fs d
  Leads-fields_more (field k v fs) d =
      Leads-comma (suc d) (quote k ++ (b':' ∷ (stringify v ++ stringify_fields_more fs))) (
        Leads-property (suc d) k (stringify v) (stringify_fields_more fs) (Leads-stringify v d)
          (Leads-fields_more fs d))
