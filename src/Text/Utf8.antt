-- ===== src/Text/Utf8.antt =====
-- Code points of a string, and their lengths in UTF-8 (`TextEncoder.encode`).
use scum_ne_djin_release.Prelude.{ℕ, ◌+◌, Bool, ◌&&◌, List, [], ◌∷◌, if◌then◌else◌, leb, ltb}
use scum_ne_djin_release.Text.{Text}

unfoldable pub is_high : ℕ → Bool
is_high u = leb 0xd800 u && leb u 0xdbff

unfoldable pub is_low : ℕ → Bool
is_low u = leb 0xdc00 u && leb u 0xdfff

-- What `for (const ch of text)` gives: each element is a text of one or two code units.
unfoldable pub chars : Text → List Text
unfolding is_high is_low
chars [] = []
chars (u ∷ []) = (u ∷ []) ∷ []
chars (u ∷ v ∷ s) =
    let pair = (u ∷ v ∷ []) ∷ chars s in
    let single = (u ∷ []) ∷ chars (v ∷ s) in if is_high u && is_low v then pair else single

-- `encode(ch).length` for one character; a lone surrogate is sent as U+FFFD, three bytes.
unfoldable pub char_bytes : Text → ℕ
char_bytes [] = 0
char_bytes (u ∷ []) = if ltb u 0x80 then 1 else if ltb u 0x800 then 2 else 3
char_bytes (u ∷ v ∷ s) = 4

sum_bytes : List Text → ℕ
sum_bytes [] = 0
sum_bytes (ch ∷ cs) = char_bytes ch + sum_bytes cs

-- `encode(text).length`
unfoldable pub byte_length : Text → ℕ
unfolding sum_bytes
byte_length s = sum_bytes (chars s)
