-- ===== src/Chat/Laws.antt =====
-- What is sent to the game's chat fits, and every event has a channel.
use scum_ne_djin_release.Prelude.{
  ℕ, ◌+◌, ◌≤◌, ◌≡◌, refl, Bool, true, List, [], ◌∷◌, ltb, Bool-cases, inl, inr, arith, All,
}
use scum_ne_djin_release.Text.{Text, codes, ◌===◌, truthy, trim, lower}
use scum_ne_djin_release.Text.Utf8.{char_bytes}
use scum_ne_djin_release.Js.{Value, Props}
use scum_ne_djin_release.Js.Convert.{text_of_keys}
use scum_ne_djin_release.Chat.{
  take_bytes, fitting_chars, first_text, channel_cases, normalize_chat_channel,
}

sum_of : List Text → ℕ
sum_of [] = 0
sum_of (ch ∷ cs) = char_bytes ch + sum_of cs

-- The bytes of the characters that are kept.
pub kept_bytes : List Text → ℕ
unfolding sum_of
kept_bytes cs = sum_of cs

take_bytes_bound :
    (max used : ℕ) (cs : List Text) → used ≤ max → used + kept_bytes (take_bytes max used cs) ≤ max
unfolding take_bytes kept_bytes
take_bytes_bound max used [] h = omega arith
take_bytes_bound max used (ch ∷ cs) h = elim (Bool-cases (ch === (0xfffd ∷ []))) [
  | inl e ↦ rw e (take_bytes_bound max used cs h)
  | inr e ↦ elim (Bool-cases (ltb max (used + char_bytes ch))) [
    | inl f ↦ rw (e, f) (omega arith)
    | inr f ↦
        let fits : used + char_bytes ch ≤ max = ground arith in
        let rest = take_bytes_bound max (used + char_bytes ch) cs fits in rw (e, f) (omega arith)
  ]
]

take_bytes_from_0 : (max : ℕ) (cs : List Text) → kept_bytes (take_bytes max 0 cs) ≤ max
take_bytes_from_0 max cs = omega (arith, take_bytes_bound max 0 cs (omega arith))

-- The characters of a chat message that are kept, before the last trim, need at most the given
-- bytes of UTF-8, whatever was typed.
pub fitting_chars_bound : (value : Value) (max : ℕ) → kept_bytes (fitting_chars value max) ≤ max
unfolding fitting_chars
fitting_chars_bound value max = take_bytes_from_0 max _

first_text_filled :
    (cases : List (Bool × Text)) (other : Text)
    → All (λ c. truthy c.1 ≡ true) cases
    → truthy other ≡ true
    → truthy (first_text cases other) ≡ true
unfolding first_text
first_text_filled [] other h k = k
first_text_filled ((c, t) ∷ cases) other (e, h) k = elim (Bool-cases c) [
  | inl f ↦ rw f e
  | inr f ↦ rw f (first_text_filled cases other h k)
]

cases_filled :
    (raw source type text : Text)
    → All (λ c. truthy c.1 ≡ true) (channel_cases raw source type text)
unfolding truthy channel_cases
cases_filled raw source type text = (
  refl,
  (
    refl,
    (
      refl,
      (
        refl,
        (refl, (refl, (refl, (refl, (refl, (refl, (refl, (refl, (refl, (refl, (refl, tt))))))))))),
      ),
    ),
  ),
)

blank_channel :
    (source type text : Text) → truthy (first_text (channel_cases [] source type text) []) ≡ true
unfolding first_text channel_cases truthy
blank_channel source type text = ground arith

-- Every event has a channel that is not empty.
pub channel_filled :
    (chat_text : Text) (event : Props) → truthy (normalize_chat_channel chat_text event) ≡ true
unfolding normalize_chat_channel
channel_filled chat_text event =
    go (
      lower (trim (text_of_keys (codes "channel" ∷ codes "chatChannel" ∷ codes "kind" ∷ []) event)))
  where
    go :
        (raw : Text)
        → truthy (
            first_text
              (channel_cases raw
                (lower (text_of_keys (codes "source" ∷ codes "path" ∷ codes "type" ∷ []) event))
                (lower (text_of_keys (codes "type" ∷ []) event))
                (trim chat_text))
              raw)
          ≡ true
    go [] = blank_channel _ _ _
    go (c ∷ raw) =
        first_text_filled (channel_cases (c ∷ raw) _ _ _) (c ∷ raw) (cases_filled (c ∷ raw) _ _ _)
          (unfold truthy in refl)
