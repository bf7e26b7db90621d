-- ===== src/Json/Scanning.antt =====
-- Texts that bring the scanner of `findJsonObjectEnd` from one state to another.
use scum_ne_djin_release.Prelude.{
  ℕ, ◌+◌, ◌≡◌, ◌≢◌, refl, ap, ◌∙◌, true, false, [], ◌∷◌, ◌++◌, arith, All, length, length-append,
  append_assoc, ◌≡⟨◌⟩◌, ◌∎,
}
use scum_ne_djin_release.Text.{Text}
use scum_ne_djin_release.Js.Numbers.Laws.{IsPlain}
use scum_ne_djin_release.Json.{Scan, scan, scan_char}

-- Outside of strings, inside of one, and behind a backslash there.
abbrev pub outside : ℕ → Scan
outside d = record { depth = d; in_string = false; escaped = false }

abbrev pub inside : ℕ → Scan
inside d = record { depth = d; in_string = true; escaped = false }

abbrev pub behind : ℕ → Scan
behind d = record { depth = d; in_string = true; escaped = true }

-- A text that brings the scanner from one state to another.
abbrev pub Leads : Scan → Text → Scan → Type 0
Leads a p b = (i : ℕ) (rest : Text) → scan (p ++ rest) i a ≡ scan rest (i + length p) b

pub Leads-nil : (a : Scan) → Leads a [] a
Leads-nil a i rest = ap (λ n. scan rest n a) (omega arith)

pub Leads-append : (a b c : Scan) (p q : Text) → Leads a p b → Leads b q c → Leads a (p ++ q) c
Leads-append a b c p q f g i rest =
    scan ((p ++ q) ++ rest) i a
    ≡⟨ ap (λ s. scan s i a) (append_assoc p q rest) ⟩ scan (p ++ (q ++ rest)) i a
    ≡⟨ f i (q ++ rest) ⟩ scan (q ++ rest) (i + length p) b
    ≡⟨ g (i + length p) rest ⟩ scan rest (i + length p + length q) c
    ≡⟨ ap (λ n. scan rest n c) (omega (arith, length-append p q)) ⟩
      scan rest (i + length (p ++ q)) c ∎

-- One character.
pub Leads-cons :
    (a b c : Scan) (ch : ℕ) (q : Text)
    → ((i : ℕ) (rest : Text) → scan (ch ∷ rest) i a ≡ scan rest (i + 1) b)
    → Leads b q c
    → Leads a (ch ∷ q) c
Leads-cons a b c ch q f g i rest =
    f i (q ++ rest) ∙ g (i + 1) rest ∙ ap (λ n. scan rest n c) (omega arith)

pub plain_char :
    (d c : ℕ)
    → IsPlain c
    → (i : ℕ) (rest : Text) → scan (c ∷ rest) i (outside d) ≡ scan rest (i + 1) (outside d)
unfolding scan scan_char
plain_char d c h i rest = ground arith

pub Leads-plain : (d : ℕ) (p : Text) → All IsPlain p → Leads (outside d) p (outside d)
Leads-plain d [] h = Leads-nil (outside d)
Leads-plain d (c ∷ p) (k, h) =
    Leads-cons (outside d) (outside d) (outside d) c p (plain_char d c k) (Leads-plain d p h)

pub open_quote :
    (d i : ℕ) (rest : Text) → scan (b'"' ∷ rest) i (outside d) ≡ scan rest (i + 1) (inside d)
unfolding scan scan_char
open_quote d i rest = refl

pub close_quote :
    (d i : ℕ) (rest : Text) → scan (b'"' ∷ rest) i (inside d) ≡ scan rest (i + 1) (outside d)
unfolding scan scan_char
close_quote d i rest = refl

pub backslash :
    (d i : ℕ) (rest : Text) → scan (b'\\' ∷ rest) i (inside d) ≡ scan rest (i + 1) (behind d)
unfolding scan scan_char
backslash d i rest = refl

pub escaped_char :
    (d c i : ℕ) (rest : Text) → scan (c ∷ rest) i (behind d) ≡ scan rest (i + 1) (inside d)
unfolding scan scan_char
escaped_char d c i rest = refl

pub plain_inside :
    (d c : ℕ)
    → c ≢ b'"'
    → c ≢ b'\\'
    → (i : ℕ) (rest : Text) → scan (c ∷ rest) i (inside d) ≡ scan rest (i + 1) (inside d)
unfolding scan scan_char
plain_inside d c h k i rest = ground arith

-- A backslash, the character that it guards, and characters that need no guard.
pub Leads-escaped :
    (d c : ℕ) (p : Text)
    → All (λ x. (x ≢ b'"') × (x ≢ b'\\')) p
    → Leads (inside d) (b'\\' ∷ c ∷ p) (inside d)
Leads-escaped d c p h =
    Leads-cons (inside d) (behind d) (inside d) b'\\' (c ∷ p) (backslash d)
      (Leads-cons (behind d) (inside d) (inside d) c p (escaped_char d c) (rest_of p h))
  where
    rest_of : (p : Text) → All (λ x. (x ≢ b'"') × (x ≢ b'\\')) p → Leads (inside d) p (inside d)
    rest_of [] h = Leads-nil (inside d)
    rest_of (c ∷ p) (k, h) =
        Leads-cons (inside d) (inside d) (inside d) c p (plain_inside d c k.0 k.1) (rest_of p h)
