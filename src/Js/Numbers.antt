-- ===== src/Js/Numbers.antt =====
-- Numbers as exact decimals. The rounding of 64-bit floats, exponents in texts and numbers of
-- more than 21 digits are not modelled.
pub mod Laws
pub mod Arith
pub mod Bounds
use scum_ne_djin_release.Prelude.{
  ℕ, zero, suc, ◌+◌, ◌-◌, ◌*◌, ◌/◌, ◌%◌, ◌^◌, Bool, true, false, not, ◌&&◌, ◌||◌, List, [], ◌∷◌,
  ◌++◌, Option, none, some, if◌then◌else◌, leb, ltb, ◌==◌, length,
}
use scum_ne_djin_release.Text.{Text, codes, is_digit, trim, truthy, ◌===◌, text_ops}
use scum_ne_djin_release.Text.Lines.{split_by}
use mathlib.Core.Option

-- `fin neg units scale` is ± units / 10^scale.
pub data Number : Type 0 where
  nan : Number
  infinite : Bool → Number
  fin : Bool → ℕ → ℕ → Number

abbrev pub int : ℕ → Number
int n = fin false n 0

-- Not 0 and not NaN.
unfoldable pub is_nonzero : Number → Bool
is_nonzero nan = false
is_nonzero (infinite neg) = true
is_nonzero (fin neg units scale) = not (units == 0)

unfoldable pub is_finite : Number → Bool
is_finite nan = false
is_finite (infinite neg) = false
is_finite (fin neg units scale) = true

-- `a < b` and `a > b`, where one side is a natural number
unfoldable pub below : Number → ℕ → Bool
below nan n = false
below (infinite neg) n = neg
below (fin true units scale) n = not (units == 0) || not (n == 0)
below (fin false units scale) n = ltb units (n * 10 ^ scale)

unfoldable pub above : Number → ℕ → Bool
above nan n = false
above (infinite neg) n = not neg
above (fin true units scale) n = false
above (fin false units scale) n = ltb (n * 10 ^ scale) units

-- `Math.max(n, x)`, `Math.min(n, x)` and `Math.floor(x)`
unfoldable pub at_least : ℕ → Number → Number
at_least n nan = nan
at_least n (infinite neg) = if neg then int n else infinite neg
at_least n (fin neg units scale) =
    if below (fin neg units scale) n then int n else fin neg units scale

unfoldable pub at_most : ℕ → Number → Number
at_most n nan = nan
at_most n (infinite neg) = if neg then infinite neg else int n
at_most n (fin neg units scale) =
    if above (fin neg units scale) n then int n else fin neg units scale

unfoldable pub floor : Number → Number
floor nan = nan
floor (infinite neg) = infinite neg
floor (fin false units scale) = fin false (units / 10 ^ scale) 0
floor (fin true units scale) = fin true ((units + (10 ^ scale - 1)) / 10 ^ scale) 0

unfoldable pub is_integer : Number → Bool
is_integer nan = false
is_integer (infinite neg) = false
is_integer (fin neg units scale) = units % 10 ^ scale == 0

-- The decimal digits of a natural number; the fuel is above the number.
digits_on : ℕ → ℕ → Text → Text
digits_on zero n out = out
digits_on (suc f) n out =
    let more = digits_on f (n / 10) ((b'0' + n % 10) ∷ out) in if n == 0 then out else more

unfoldable pub print_nat : ℕ → Text
unfolding digits_on
print_nat n = if n == 0 then b'0' ∷ [] else digits_on n n []

-- The value of a run of digits behind the digits read so far, or `none` at another character.
unfoldable pub read_digits : ℕ → Text → Option ℕ
unfolding is_digit
read_digits n [] = some n
read_digits n (c ∷ s) =
    let rest = read_digits (10 * n + (c - b'0')) s in if is_digit c then rest else none

read_parts : List Text → Option (ℕ × ℕ)
read_parts (w ∷ []) = if truthy w then Option.map (λ n. (n, 0)) (read_digits 0 w) else none
read_parts (w ∷ f ∷ []) =
    if truthy w || truthy f then Option.map (λ n. (n, length f)) (read_digits 0 (w ++ f)) else none
read_parts _ = none

-- `12`, `1.5`, `.5` or `Infinity`
read_unsigned : Bool → Text → Number
read_unsigned neg s =
    if s === codes "Infinity"
    then infinite neg
    else elim (read_parts (split_by (λ c. c == b'.') s)) [
      | none ↦ nan
      | some (units, scale) ↦ fin neg units scale
    ]

read_signed : Text → Number
read_signed [] = int 0
read_signed (c ∷ s) =
    if c == b'-'
    then read_unsigned true s
    else if c == b'+'
    then read_unsigned false s
    else read_unsigned false (c ∷ s)

-- `Number(text)`
unfoldable pub read_number : Text → Number
unfolding read_signed read_unsigned read_parts
read_number s = read_signed (trim s)

-- The fraction's digits, with the zeros at the end left out.
drop_zeros : ℕ → ℕ → ℕ × ℕ
drop_zeros units zero = (units, 0)
drop_zeros units (suc scale) =
    let fewer = drop_zeros (units / 10) scale in
    if units % 10 == 0 then fewer else (units, suc scale)

pad : ℕ → Text → Text
pad zero s = s
pad (suc n) s = if ltb (length s) (suc n) then b'0' ∷ pad n s else s

print_scaled : ℕ × ℕ → Text
print_scaled (units, zero) = print_nat units
print_scaled (units, suc scale) =
    print_nat (units / 10 ^ suc scale)
    ++ b'.' ∷ pad (suc scale) (print_nat (units % 10 ^ suc scale))

-- `String(number)`
unfoldable pub print_number : Number → Text
unfolding drop_zeros pad print_scaled
print_number nan = codes "NaN"
print_number (infinite neg) = if neg then codes "-Infinity" else codes "Infinity"
print_number (fin neg units scale) =
    (if neg && not (units == 0) then b'-' ∷ [] else []) ++ print_scaled (drop_zeros units scale)

-- For runs at concrete numbers.
unfoldable pub number_ops : Unit {0}
unfolding is_nonzero is_finite below above at_least at_most floor is_integer print_nat read_digits
    read_number print_number text_ops split_by
number_ops = tt
