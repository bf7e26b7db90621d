-- ===== src/Js/Numbers/Bounds.antt =====
-- `Math.max` and `Math.min` keep their limits.
use scum_ne_djin_release.Prelude.{ℕ, ◌≤◌, ◌≡◌, ◌⊎◌, refl, true, false, Bool-cases, inl, inr, arith}
use scum_ne_djin_release.Js.Numbers.{
  Number, nan, infinite, fin, int, at_least, at_most, below, above,
}

-- Not a number, or from `lo` to `hi`.
abbrev pub InRange : ℕ → ℕ → Number → Type 0
InRange lo hi n = (n ≡ nan) ⊎ ((below n lo ≡ false) × (above n hi ≡ false))

int_in_range : (lo hi : ℕ) → lo ≤ hi → (below (int hi) lo ≡ false) × (above (int hi) hi ≡ false)
unfolding below above
int_in_range lo hi h = (ground arith, ground arith)

pub at_least-below :
    (lo : ℕ) (n : Number) → (at_least lo n ≡ nan) ⊎ (below (at_least lo n) lo ≡ false)
unfolding at_least
at_least-below lo nan = inl refl
at_least-below lo (infinite true) = inr ((int_in_range lo lo (omega arith)).0)
at_least-below lo (infinite false) = inr (unfold below in refl)
at_least-below lo (fin neg units scale) = elim (Bool-cases (below (fin neg units scale) lo)) [
  | inl e ↦ rw e (inr ((int_in_range lo lo (omega arith)).0))
  | inr e ↦ rw e (inr e)
]

pub at_most-InRange :
    (lo hi : ℕ) (n : Number) → lo ≤ hi → below n lo ≡ false → InRange lo hi (at_most hi n)
unfolding at_most
at_most-InRange lo hi nan h k = inl refl
at_most-InRange lo hi (infinite true) h k = absurd (unfold below in cc)
at_most-InRange lo hi (infinite false) h k = inr (int_in_range lo hi h)
at_most-InRange lo hi (fin neg units scale) h k =
    elim (Bool-cases (above (fin neg units scale) hi)) [
      | inl e ↦ rw e (inr (int_in_range lo hi h))
      | inr e ↦ rw e (inr (k, e))
    ]

at_most-above : (hi : ℕ) (n : Number) → (at_most hi n ≡ nan) ⊎ (above (at_most hi n) hi ≡ false)
unfolding at_most
at_most-above hi nan = inl refl
at_most-above hi (infinite true) = inr (unfold above in refl)
at_most-above hi (infinite false) = inr ((int_in_range hi hi (omega arith)).1)
at_most-above hi (fin neg units scale) = elim (Bool-cases (above (fin neg units scale) hi)) [
  | inl e ↦ rw e (inr ((int_in_range hi hi (omega arith)).1))
  | inr e ↦ rw e (inr e)
]

in_range_lo : (lo hi : ℕ) → lo ≤ hi → (below (int lo) lo ≡ false) × (above (int lo) hi ≡ false)
unfolding below above
in_range_lo lo hi h = (ground arith, ground arith)

at_least-InRange :
    (lo hi : ℕ) (n : Number) → lo ≤ hi → above n hi ≡ false → InRange lo hi (at_least lo n)
unfolding at_least
at_least-InRange lo hi nan h k = inl refl
at_least-InRange lo hi (infinite true) h k = inr (in_range_lo lo hi h)
at_least-InRange lo hi (infinite false) h k = absurd (unfold above in cc)
at_least-InRange lo hi (fin neg units scale) h k =
    elim (Bool-cases (below (fin neg units scale) lo)) [
      | inl e ↦ rw e (inr (in_range_lo lo hi h))
      | inr e ↦ rw e (inr (e, k))
    ]

-- `Math.max(lo, Math.min(n, hi))`
pub max-min-InRange :
    (lo hi : ℕ) (n : Number) → lo ≤ hi → InRange lo hi (at_least lo (at_most hi n))
max-min-InRange lo hi n h = elim (at_most-above hi n) [
  | inl e ↦ rw e (unfold at_least in inl refl)
  | inr e ↦ at_least-InRange lo hi (at_most hi n) h e
]

pub at_least_1 : (n : Number) → below (at_least 1 n) 1 ≡ false
unfolding at_least
at_least_1 nan = unfold below in refl
at_least_1 (infinite true) = unfold below in refl
at_least_1 (infinite false) = unfold below in refl
at_least_1 (fin neg units scale) = elim (Bool-cases (below (fin neg units scale) 1)) [
  | inl e ↦ rw e (unfold below in refl)
  | inr e ↦ rw e e
]
