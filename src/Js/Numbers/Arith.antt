-- ===== src/Js/Numbers/Arith.antt =====
-- Comparison and addition of exact decimals, for the sorts and sums of
-- src/ScumWarden.Server/wwwroot/app.js.
use scum_ne_djin_release.Prelude.{
  ℕ, ◌+◌, ◌-◌, ◌*◌, ◌^◌, Bool, true, false, not, ◌&&◌, ◌||◌, if◌then◌else◌, ltb, ◌==◌,
}
use scum_ne_djin_release.Js.Numbers.{Number, nan, infinite, fin}

same_sign : Bool → Bool → Bool
same_sign true neg = neg
same_sign false neg = not neg

-- ± a < ± b
unfoldable pub less_signed : Bool → ℕ → Bool → ℕ → Bool
less_signed false a false b = ltb a b
less_signed false a true b = false
less_signed true a false b = not (a == 0) || not (b == 0)
less_signed true a true b = ltb b a

-- `a < b`, false if one side is NaN
unfoldable pub less : Number → Number → Bool
unfolding less_signed
less nan b = false
less (infinite neg) nan = false
less (infinite neg) (infinite other) = neg && not other
less (infinite neg) (fin s u e) = neg
less (fin s u e) nan = false
less (fin s u e) (infinite neg) = not neg
less (fin s u e) (fin t v f) = less_signed s (u * 10 ^ f) t (v * 10 ^ e)

-- ± a + ± b, over 10 ^ scale
add_signed : Bool → ℕ → Bool → ℕ → ℕ → Number
unfolding same_sign
add_signed s a t b scale =
    if same_sign s t
    then fin s (a + b) scale
    else if ltb a b
    then fin t (b - a) scale
    else fin s (a - b) scale

-- `a + b`
unfoldable pub add : Number → Number → Number
unfolding add_signed same_sign
add nan b = nan
add (infinite neg) nan = nan
add (infinite neg) (infinite other) = if same_sign neg other then infinite neg else nan
add (infinite neg) (fin s u e) = infinite neg
add (fin s u e) nan = nan
add (fin s u e) (infinite neg) = infinite neg
add (fin s u e) (fin t v f) = add_signed s (u * 10 ^ f) t (v * 10 ^ e) (e + f)
