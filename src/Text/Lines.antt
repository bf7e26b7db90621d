-- ===== src/Text/Lines.antt =====
-- `split`, `join` and the lines of a text.
pub mod Laws
use scum_ne_djin_release.Prelude.{ℕ, Bool, List, [], ◌∷◌, ◌++◌, if◌then◌else◌, ◌==◌}
use scum_ne_djin_release.Text.{Text}

-- The text before the first separator, and the parts behind it.
add_unit : ℕ → List Text → List Text
add_unit c [] = (c ∷ []) ∷ []
add_unit c (p ∷ ps) = (c ∷ p) ∷ ps

-- `split` by a class of single separators: each separator ends a part.
unfoldable pub split_by : (ℕ → Bool) → Text → List Text
unfolding add_unit
split_by sep [] = [] ∷ []
split_by sep (c ∷ s) = let rest = split_by sep s in if sep c then [] ∷ rest else add_unit c rest

-- `join`
unfoldable pub join : Text → List Text → Text
join sep [] = []
join sep (p ∷ []) = p
join sep (p ∷ q ∷ ps) = p ++ (sep ++ join sep (q ∷ ps))

-- `replace(/\r\n?/g, '\n')`
unfoldable pub unify_newlines : Text → Text
unify_newlines [] = []
unify_newlines (c ∷ []) = (if c == 13 then 10 else c) ∷ []
unify_newlines (c ∷ d ∷ s) =
    let pair = 10 ∷ unify_newlines s in
    let single = (if c == 13 then 10 else c) ∷ unify_newlines (d ∷ s) in
    if c == 13 then if d == 10 then pair else single else single
