-- ===== src/ChatLines/Bounds.antt =====
-- The limits of the line editor, and the drafts that pass the check before a save.
use scum_ne_djin_release.Prelude.{
  ℕ, ◌+◌, ◌≤◌, ◌≡◌, refl, true, false, List, [], ◌∷◌, none, ltb, length, find, arith, All,
  Bool-cases, inl, inr, ◌↔◌,
}
use scum_ne_djin_release.Text.{Text, codes}
use scum_ne_djin_release.Text.Utf8.{byte_length}
use scum_ne_djin_release.Js.{Value, str}
use scum_ne_djin_release.Js.Numbers.{Number, nan, infinite, fin, is_finite}
use scum_ne_djin_release.Js.Convert.{to_number, value_ops}
use scum_ne_djin_release.Nested.{get_nested_value, own, read_step}
use scum_ne_djin_release.ChatLines.{
  Limits, clamp_floor, limit_of, is_bridge, bridge_chat_message_byte_limit, chat_line_editor_limits,
  chat_line_editor_issues, line_issues,
}

clamp_floor_bounds :
    (lo hi : ℕ) (n : Number) → lo ≤ hi → (lo ≤ clamp_floor lo hi n) × (clamp_floor lo hi n ≤ hi)
unfolding clamp_floor
clamp_floor_bounds lo hi nan h = omega arith
clamp_floor_bounds lo hi (infinite neg) h = omega arith
clamp_floor_bounds lo hi (fin true units scale) h = omega arith
clamp_floor_bounds lo hi (fin false units scale) h = omega arith

limit_of_bounds :
    (lo hi fallback : ℕ) (n : Number)
    → lo ≤ fallback
    → fallback ≤ hi
    → (lo ≤ limit_of lo hi fallback n) × (limit_of lo hi fallback n ≤ hi)
unfolding limit_of
limit_of_bounds lo hi fallback n h k = elim (Bool-cases (is_finite n)) [
  | inl e ↦ rw e (clamp_floor_bounds lo hi n (omega arith))
  | inr e ↦ rw e (h, k)
]

pub bridge_bounds :
    (modules : List Value)
    → (16 ≤ bridge_chat_message_byte_limit modules) × (bridge_chat_message_byte_limit modules ≤ 220)
unfolding bridge_chat_message_byte_limit
bridge_bounds modules = limit_of_bounds 16 220 220 _ (omega arith) (omega arith)

-- Whatever the configurations hold, the editor allows 1 to 40 lines of 16 to 220 bytes, and no
-- line that is longer than the bridge takes.
pub limits_bounds :
    (modules : List Value) (config : Value)
    → let limits = chat_line_editor_limits modules config in
      ((1 ≤ limits.max_lines) × (limits.max_lines ≤ 40))
      × ((16 ≤ limits.max_line_bytes) × (limits.max_line_bytes ≤ 220))
      × (limits.max_line_bytes ≤ bridge_chat_message_byte_limit modules)
unfolding chat_line_editor_limits
limits_bounds modules config =
    let a =
      limit_of_bounds 16 220 220 (to_number (get_nested_value config (codes "MaxLineBytes")))
        (omega arith) (omega arith) in
    let b = bridge_bounds modules in
    (
      limit_of_bounds 1 40 24 (to_number (get_nested_value config (codes "MaxLines"))) (omega arith)
          (omega arith),
      (omega arith, omega arith),
      omega arith,
    )

-- Without a module "bridge-safety", and with nothing configured, the limits are the least ones, 1
-- line of 16 bytes, and not the fallbacks 24 and 220 of the code: a missing value reads as '',
-- which is the number 0.
pub limits_of_missing :
    (modules : List Value) (config : Value)
    → find is_bridge modules ≡ none
    → get_nested_value config (codes "MaxLines") ≡ str []
    → (bridge_chat_message_byte_limit modules ≡ 16)
      × ((chat_line_editor_limits modules config).max_lines ≡ 1)
      × ((chat_line_editor_limits modules config).max_line_bytes ≡ 16)
unfolding chat_line_editor_limits bridge_chat_message_byte_limit value_ops get_nested_value own
    read_step
limits_of_missing modules config h k =
    rw (h, k)
      (
        refl,
        refl,
        omega (
          arith,
          (limit_of_bounds 16 220 220 (to_number (get_nested_value config (codes "MaxLineBytes")))
              (omega arith) (omega arith)).0,
        ),
      )

line_issues_sound :
    (limit i : ℕ) (lines : List Text)
    → line_issues limit i lines ≡ []
    → All (λ line. byte_length line ≤ limit) lines
unfolding line_issues
line_issues_sound limit i [] h = tt
line_issues_sound limit i (line ∷ lines) h = elim (Bool-cases (ltb limit (byte_length line))) [
  | inl e ↦ cc (e, h)
  | inr e ↦ (ground arith, line_issues_sound limit (i + 1) lines (rw e at h))
]

line_issues_complete :
    (limit i : ℕ) (lines : List Text)
    → All (λ line. byte_length line ≤ limit) lines
    → line_issues limit i lines ≡ []
unfolding line_issues
line_issues_complete limit i [] h = refl
line_issues_complete limit i (line ∷ lines) (k, h) =
    ground (arith, line_issues_complete limit (i + 1) lines h)

abbrev pub Fits : Limits → List Text → Type 0
Fits limits lines =
    (length lines ≤ limits.max_lines) × All (λ line. byte_length line ≤ limits.max_line_bytes) lines

-- The editor reports no issue exactly if the lines are few enough and each is short enough, in
-- bytes of UTF-8.
pub issues_iff :
    (lines : List Text) (limits : Limits)
    → (chat_line_editor_issues lines limits ≡ []) ↔ Fits limits lines
unfolding chat_line_editor_issues
issues_iff lines limits = elim (Bool-cases (ltb limits.max_lines (length lines))) [
  | inl e ↦ rw e ((λ h. cc), λ h. absurd (ground arith))
  | inr e ↦ rw e (
    (λ h. (ground arith, line_issues_sound limits.max_line_bytes 0 lines h)),
    λ h. line_issues_complete limits.max_line_bytes 0 lines h.1,
  )
]
