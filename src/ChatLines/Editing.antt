-- ===== src/ChatLines/Editing.antt =====
-- The actions of the line editor.
use scum_ne_djin_release.Prelude.{
  ℕ, zero, suc, ◌+◌, ◌-◌, ◌≤◌, ◌≡◌, refl, ap, ◌∙◌, max, List, [], ◌∷◌, ◌++◌, arith, length,
  length-append, length-take, take, drop, take-append-drop, append_assoc,
}
use scum_ne_djin_release.Text.{Text}
use scum_ne_djin_release.Js.{Value}
use scum_ne_djin_release.ChatLines.{
  normalize_chat_lines, append_chat_lines, swap_next, move_up, move_down, act,
}

-- An append never brings the lines above the limit unless they were above it; it keeps the lines
-- that were there, adds the first candidates in order, and counts each candidate once, as
-- accepted or as rejected.
pub append_bounds :
    (limit : ℕ) (lines : List Text) (incoming : Value)
    → let (out, accepted, rejected) = append_chat_lines limit lines incoming in
      (length out ≤ max limit (length lines))
      × (accepted + rejected ≡ length (normalize_chat_lines incoming))
      × (out ++ drop (limit - length lines) (normalize_chat_lines incoming)
          ≡ lines ++ normalize_chat_lines incoming)
unfolding append_chat_lines
append_bounds limit lines incoming =
    let c = normalize_chat_lines incoming in
    let t = take (limit - length lines) c in
    let m = length-take (limit - length lines) c in
    let a = length-append lines t in
    (
      omega arith,
      omega arith,
      append_assoc lines t (drop (limit - length lines) c)
          ∙ ap (λ x. lines ++ x) (take-append-drop (limit - length lines) c),
    )

swap_twice : (i : ℕ) (lines : List Text) → swap_next i (swap_next i lines) ≡ lines
unfolding swap_next
swap_twice zero [] = refl
swap_twice zero (a ∷ []) = refl
swap_twice zero (a ∷ b ∷ lines) = refl
swap_twice (suc i) [] = refl
swap_twice (suc i) (a ∷ lines) = ap (◌∷◌ a) (swap_twice i lines)

-- Moving a line down and then up again, where it now stands, restores the list.
pub move_down_up : (i : ℕ) (lines : List Text) → act move_up (suc i) (act move_down i lines) ≡ lines
unfolding act
move_down_up i lines = swap_twice i lines
