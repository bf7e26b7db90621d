-- ===== src/Chat.antt =====
-- Chat messages: `scumChatSafeMessage` and `normalizeChatChannel` of
-- src/ScumWarden.Server/wwwroot/app.js. The text of a message (`chatText`) is an argument here;
-- `TextEncoder` is there in every browser that runs the panel.
pub mod Laws
pub mod Tests
use scum_ne_djin_release.Prelude.{
  ℕ, ◌+◌, Bool, true, false, not, ◌&&◌, ◌||◌, List, [], ◌∷◌, ◌++◌, Option, none, some,
  if◌then◌else◌, ◌==◌, ltb, all,
}
use scum_ne_djin_release.Text.{
  Text, codes, ◌===◌, truthy, trim, lower, includes, starts_with, is_space,
}
use scum_ne_djin_release.Text.Utf8.{chars, char_bytes}
use scum_ne_djin_release.Js.{Value, str, num, Props}
use scum_ne_djin_release.Js.Numbers.{Number, int, is_nonzero, below, at_least}
use scum_ne_djin_release.Js.Objects.{get}
use scum_ne_djin_release.Js.Convert.{to_number, to_text, text_of_keys, ◌or_else◌}
use scum_ne_djin_release.Scheduler.{squeeze}

-- The characters that fit; U+FFFD is left out. `used` counts the bytes taken so far.
unfoldable pub take_bytes : ℕ → ℕ → List Text → List Text
take_bytes max used [] = []
take_bytes max used (ch ∷ cs) =
    let skipped = take_bytes max used cs in
    let taken = take_bytes max (used + char_bytes ch) cs in
    if ch === (0xfffd ∷ [])
    then skipped
    else if ltb max (used + char_bytes ch)
    then []
    else ch ∷ taken

unfoldable pub concat : List Text → Text
concat [] = []
concat (ch ∷ cs) = ch ++ concat cs

-- Both replacements are one, as `\r`, `\n` and `\t` are white space.
unfoldable pub fitting_chars : Value → ℕ → List Text
fitting_chars value max =
    take_bytes max 0 (chars (trim (squeeze false (to_text (value or_else str [])))))

unfoldable pub scum_chat_safe_message : Value → ℕ → Text
unfolding concat
scum_chat_safe_message value max = trim (concat (fitting_chars value max))

unfoldable pub first_text : List (Bool × Text) → Text → Text
first_text [] other = other
first_text ((c, t) ∷ cases) other = let rest = first_text cases other in if c then t else rest

-- The returns of `normalizeChatChannel` in order, each with its condition, for the channel, the
-- source and the type of an event in lower case and its text.
unfoldable pub channel_cases : Text → Text → Text → Text → List (Bool × Text)
channel_cases raw source type text =
    (raw === codes "0", codes "local")
    ∷ (raw === codes "1", codes "squad")
    ∷ (raw === codes "2", codes "global")
    ∷ (raw === codes "3", codes "admin")
    ∷ (raw === codes "4", codes "command")
    ∷ (
      includes raw (codes "kill")
          || (includes raw (codes "combat")
              || (includes source (codes "kill-feed")
                  || (includes source (codes "killfeed")
                      || (includes source (codes "savefile-kill-log")
                          || (type === codes "kill"))))),
      codes "killfeed",
    )
    ∷ (
      includes raw (codes "nedjin")
          || (includes source (codes "nedjin")
              || (includes source (codes "panel")
                  || (includes source (codes "action-log") || includes source (codes "bridge")))),
      codes "nedjin",
    )
    ∷ (
      includes raw (codes "command")
          || (includes source (codes "processadmincommand")
              || (includes source (codes "command-reply")
                  || (starts_with text (codes "/") || starts_with text (codes "#")))),
      codes "command",
    )
    ∷ (
      includes raw (codes "local")
          || (includes raw (codes "proximity")
              || (includes raw (codes "vicinity") || includes raw (codes "лок"))),
      codes "local",
    )
    ∷ (
      includes raw (codes "squad")
          || (includes raw (codes "team")
              || (includes raw (codes "clan")
                  || (includes raw (codes "party") || includes raw (codes "отряд")))),
      codes "squad",
    )
    ∷ (
      includes raw (codes "admin")
          || (includes raw (codes "moderator") || includes raw (codes "админ")),
      codes "admin",
    )
    ∷ (
      includes raw (codes "global")
          || (includes raw (codes "world") || includes raw (codes "глоб")),
      codes "global",
    )
    ∷ (
      (raw === codes "server")
          && (starts_with (lower text) (codes "/")
              || (includes source (codes "nedjin") || includes source (codes "command"))),
      codes "command",
    )
    ∷ (raw === codes "server", codes "server")
    ∷ ((raw === codes "chat") || not (truthy raw), codes "global")
    ∷ []

unfoldable pub normalize_chat_channel : Text → Props → Text
normalize_chat_channel chat_text event =
    let raw =
      lower
        (trim (text_of_keys (codes "channel" ∷ codes "chatChannel" ∷ codes "kind" ∷ []) event)) in
    let source = lower (text_of_keys (codes "source" ∷ codes "path" ∷ codes "type" ∷ []) event) in
    let type = lower (text_of_keys (codes "type" ∷ []) event) in
    first_text (channel_cases raw source type (trim chat_text)) raw
