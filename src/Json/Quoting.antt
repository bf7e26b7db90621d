-- ===== src/Json/Quoting.antt =====
-- The scanner on quoted strings.
use scum_ne_djin_release.Prelude.{
  ℕ, ◌/◌, ◌%◌, ◌≡◌, ◌≢◌, ◌<◌, false, [], ◌∷◌, ◌++◌, if◌then◌else◌, ltb, ◌==◌, arith, Bool-cases,
  inl, inr,
}
use scum_ne_djin_release.Text.{Text, codes}
use scum_ne_djin_release.Json.Print.{escape_unit, hex, escape, quote}
use scum_ne_djin_release.Json.Scanning.{
  outside, inside, Leads, Leads-nil, Leads-append, Leads-cons, open_quote, close_quote,
  plain_inside, Leads-escaped,
}

hex-plain : (n : ℕ) → n < 16 → (hex n ≢ b'"') × (hex n ≢ b'\\')
unfolding hex
hex-plain n h = ground arith

unit_control :
    (d c : ℕ)
    → c < 32
    → Leads (inside d) (codes "\\u00" ++ hex (c / 16) ∷ hex (c % 16) ∷ []) (inside d)
unit_control d c h = Leads-escaped d b'u' (b'0' ∷ b'0' ∷ hex (c / 16) ∷ hex (c % 16) ∷ []) (
  (omega arith, omega arith),
  (
    (omega arith, omega arith),
    (hex-plain (c / 16) (omega arith), (hex-plain (c % 16) (omega arith), tt)),
  ),
)

Leads-escape_unit : (d c : ℕ) → Leads (inside d) (escape_unit c) (inside d)
unfolding escape_unit
Leads-escape_unit d c = elim (Bool-cases (c == b'"')) [
  | inl e ↦ rw e (Leads-escaped d b'"' [] tt)
  | inr quote ↦ rw quote (elim (Bool-cases (c == b'\\')) [
    | inl e ↦ rw e (Leads-escaped d b'\\' [] tt)
    | inr slash ↦ rw slash (control quote slash)
  ])
]
  where
    plain : c == b'"' ≡ false → c == b'\\' ≡ false → Leads (inside d) (c ∷ []) (inside d)
    plain quote slash =
        Leads-cons (inside d) (inside d) (inside d) c []
          (plain_inside d c (ground arith) (ground arith)) (Leads-nil (inside d))

    control :
        c == b'"' ≡ false
        → c == b'\\' ≡ false
        → Leads
            (inside d)
            (if c == 8
              then codes "\\b"
              else if c == 9
              then codes "\\t"
              else if c == 10
              then codes "\\n"
              else if c == 12
              then codes "\\f"
              else if c == 13
              then codes "\\r"
              else if ltb c 32
              then codes "\\u00" ++ hex (c / 16) ∷ hex (c % 16) ∷ []
              else c ∷ [])
            (inside d)
    control quote slash = elim (Bool-cases (c == 8)) [
      | inl e ↦ rw e (Leads-escaped d b'b' [] tt)
      | inr e8 ↦ rw e8 (elim (Bool-cases (c == 9)) [
        | inl e ↦ rw e (Leads-escaped d b't' [] tt)
        | inr e9 ↦ rw e9 (elim (Bool-cases (c == 10)) [
          | inl e ↦ rw e (Leads-escaped d b'n' [] tt)
          | inr e10 ↦ rw e10 (elim (Bool-cases (c == 12)) [
            | inl e ↦ rw e (Leads-escaped d b'f' [] tt)
            | inr e12 ↦ rw e12 (elim (Bool-cases (c == 13)) [
              | inl e ↦ rw e (Leads-escaped d b'r' [] tt)
              | inr e13 ↦ rw e13 (elim (Bool-cases (ltb c 32)) [
                | inl e ↦ rw e (unit_control d c (ground arith))
                | inr e ↦ rw e (plain quote slash)
              ])
            ])
          ])
        ])
      ])
    ]

Leads-escape : (d : ℕ) (s : Text) → Leads (inside d) (escape s) (inside d)
unfolding escape
Leads-escape d [] = Leads-nil (inside d)
Leads-escape d (c ∷ s) =
    Leads-append (inside d) (inside d) (inside d) (escape_unit c) (escape s) (Leads-escape_unit d c)
      (Leads-escape d s)

pub Leads-quote : (d : ℕ) (s : Text) → Leads (outside d) (quote s) (outside d)
unfolding quote
Leads-quote d s =
    Leads-cons (outside d) (inside d) (outside d) b'"' (escape s ++ b'"' ∷ []) (open_quote d) (
      Leads-append (inside d) (inside d) (outside d) (escape s) (b'"' ∷ []) (Leads-escape d s) (
        Leads-cons (inside d) (outside d) (outside d) b'"' [] (close_quote d)
          (Leads-nil (outside d))))
