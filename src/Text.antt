-- ===== src/Text.antt =====
-- JavaScript strings as lists of UTF-16 code units, with the methods of `String` that
-- src/ScumWarden.Server/wwwroot/app.js calls. `toLowerCase` is given on ASCII, Latin-1 and
-- Cyrillic, the alphabets of the panel; the other letters stay as they are.
pub mod Laws
pub mod Lines
pub mod Fresh
pub mod Utf8
use Prim.Native.Char.{code}
use scum_ne_djin_release.Prelude.{
  ℕ, zero, suc, ◌+◌, ◌-◌, String, Bool, true, false, not, ◌&&◌, ◌||◌, List, [], ◌∷◌, ◌++◌, map,
  Option, none, some, if◌then◌else◌, leb, ◌==◌, length, any,
}

abbrev pub Text : Type 0
Text = List ℕ

-- The text of a literal without characters beyond the basic plane.
abbrev pub codes : String → Text
codes String.[] = []
codes (String.◌∷◌ c s) = code c ∷ codes s

-- `===` on strings
infix 50 ◌===◌
unfoldable pub ◌===◌ : Text → Text → Bool
[] === [] = true
(a ∷ s) === (b ∷ r) = a == b && s === r
[] === (b ∷ r) = false
(a ∷ s) === [] = false

-- A string is truthy if it is not empty.
unfoldable pub truthy : Text → Bool
truthy [] = false
truthy (_ ∷ _) = true

-- `a || b` on strings
infixr 30 ◌orelse◌
unfoldable pub ◌orelse◌ : Text → Text → Text
[] orelse b = b
(c ∷ s) orelse b = c ∷ s

-- WhiteSpace and LineTerminator of ECMAScript: what `trim` strips and `\s` matches.
unfoldable pub is_space : ℕ → Bool
is_space c =
    (leb 9 c && leb c 13)
    || c == 32
    || c == 0xa0
    || c == 0x1680
    || (leb 0x2000 c && leb c 0x200a)
    || c == 0x2028
    || c == 0x2029
    || c == 0x202f
    || c == 0x205f
    || c == 0x3000
    || c == 0xfeff

unfoldable pub trim_start : Text → Text
trim_start [] = []
trim_start (c ∷ s) = let rest = trim_start s in if is_space c then rest else c ∷ s

unfoldable pub trim_end : Text → Text
trim_end [] = []
trim_end (c ∷ s) = let rest = trim_end s in if is_space c && not (truthy rest) then [] else c ∷ rest

unfoldable pub trim : Text → Text
trim s = trim_end (trim_start s)

unfoldable pub lower_unit : ℕ → ℕ
lower_unit c =
    if leb b'A' c && leb c b'Z'
    then c + 32
    else if leb 0xc0 c && leb c 0xde && not (c == 0xd7)
    then c + 32
    else if leb 0x410 c && leb c 0x42f
    then c + 32
    else if leb 0x400 c && leb c 0x40f
    then c + 80
    else c

-- `toLowerCase`
unfoldable pub lower : Text → Text
lower s = map lower_unit s

unfoldable pub starts_with : Text → Text → Bool
starts_with s [] = true
starts_with [] (p ∷ ps) = false
starts_with (c ∷ s) (p ∷ ps) = c == p && starts_with s ps

-- `s.includes(p)`
unfoldable pub includes : Text → Text → Bool
includes [] p = starts_with [] p
includes (c ∷ s) p = starts_with (c ∷ s) p || includes s p

-- `list.includes(s)` and `set.has(s)` on strings
unfoldable pub has : List Text → Text → Bool
has seen s = any (λ x. x === s) seen

unfoldable pub is_digit : ℕ → Bool
is_digit c = leb b'0' c && leb c b'9'

-- For runs at concrete texts: `unfolding text_ops` opens the methods of this file.
unfoldable pub text_ops : Unit {0}
unfolding ◌===◌ truthy ◌orelse◌ is_space trim_start trim_end trim lower_unit lower starts_with
    includes has is_digit
text_ops = tt
