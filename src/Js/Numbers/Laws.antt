-- ===== src/Js/Numbers/Laws.antt =====
-- The characters of a printed number.
use scum_ne_djin_release.Prelude.{
  ℕ, zero, suc, ◌+◌, ◌/◌, ◌%◌, ◌^◌, ◌≢◌, Bool, true, false, [], ◌∷◌, arith, All, All-append,
  if◌then◌else◌, ltb, length, Bool-cases, inl, inr, ◌==◌, not, ◌&&◌,
}
use scum_ne_djin_release.Text.{Text}
use scum_ne_djin_release.Js.Numbers.{
  Number, nan, infinite, fin, digits_on, print_nat, pad, print_scaled, print_number, drop_zeros,
}

-- No quote and no brace.
abbrev pub IsPlain : ℕ → Type 0
IsPlain c = (c ≢ b'"') × (c ≢ b'{') × (c ≢ b'}')

digits_on-IsPlain : (f n : ℕ) (out : Text) → All IsPlain out → All IsPlain (digits_on f n out)
unfolding digits_on
digits_on-IsPlain zero n out h = h
digits_on-IsPlain (suc f) n out h = elim (Bool-cases (n == 0)) [
  | inl e ↦ rw e h
  | inr e ↦ rw e (
      digits_on-IsPlain f (n / 10) ((b'0' + n % 10) ∷ out)
        ((omega arith, omega arith, omega arith), h))
]

print_nat-IsPlain : (n : ℕ) → All IsPlain (print_nat n)
unfolding print_nat
print_nat-IsPlain n = elim (Bool-cases (n == 0)) [
  | inl e ↦ rw e (omega arith)
  | inr e ↦ rw e (digits_on-IsPlain n n [] tt)
]

pad-IsPlain : (n : ℕ) (s : Text) → All IsPlain s → All IsPlain (pad n s)
unfolding pad
pad-IsPlain zero s h = h
pad-IsPlain (suc n) s h = elim (Bool-cases (ltb (length s) (suc n))) [
  | inl e ↦ rw e ((omega arith), pad-IsPlain n s h)
  | inr e ↦ rw e h
]

print_scaled-IsPlain : (p : ℕ × ℕ) → All IsPlain (print_scaled p)
unfolding print_scaled
print_scaled-IsPlain (units, zero) = print_nat-IsPlain units
print_scaled-IsPlain (units, suc scale) =
    All-append IsPlain (print_nat (units / 10 ^ suc scale))
      (b'.' ∷ pad (suc scale) (print_nat (units % 10 ^ suc scale)))
      (print_nat-IsPlain (units / 10 ^ suc scale))
      (
        (omega arith),
        pad-IsPlain (suc scale) (print_nat (units % 10 ^ suc scale))
            (print_nat-IsPlain (units % 10 ^ suc scale)),
      )

sign-IsPlain : (b : Bool) → All IsPlain (if b then b'-' ∷ [] else [])
sign-IsPlain true = omega arith
sign-IsPlain false = tt

pub print_number-IsPlain : (n : Number) → All IsPlain (print_number n)
unfolding print_number
print_number-IsPlain nan = omega arith
print_number-IsPlain (infinite true) = omega arith
print_number-IsPlain (infinite false) = omega arith
print_number-IsPlain (fin neg units scale) =
    All-append IsPlain (if neg && not (units == 0) then b'-' ∷ [] else [])
      (print_scaled (drop_zeros units scale)) (sign-IsPlain (neg && not (units == 0)))
      (print_scaled-IsPlain (drop_zeros units scale))
