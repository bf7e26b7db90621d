-- ===== src/Mojibake.antt =====
-- Texts that were read in the wrong code page: `CP1251_DECODE_TABLE`, `CP1251_ENCODE`,
-- `mojibakeScore` and `repairMojibakeText` of src/ScumWarden.Server/wwwroot/app.js. The decoder of
-- UTF-8 (`TextDecoder` with `fatal`) is an argument: `none` where it throws.
pub mod Table
pub mod Laws
pub mod Tests
use scum_ne_djin_release.Prelude.{
  ℕ, zero, suc, ◌+◌, ◌-◌, ◌*◌, Bool, true, false, not, ◌&&◌, ◌||◌, List, [], ◌∷◌, Option, none,
  some, if◌then◌else◌, leb, ltb, ◌==◌, any,
}
use scum_ne_djin_release.Text.{Text, codes, truthy, starts_with}
use scum_ne_djin_release.Text.Utf8.{chars}
use scum_ne_djin_release.Js.{Value, str}
use scum_ne_djin_release.Js.Convert.{to_text, ◌or_else◌}
use scum_ne_djin_release.Mojibake.Table.{cp1251_decode_table}

-- `CP1251_ENCODE.get`: the place of a unit in the table, whose bytes begin at 128.
place_from : ℕ → ℕ → List ℕ → Option ℕ
place_from i c [] = none
place_from i c (u ∷ us) =
    let rest = place_from (i + 1) c us in if (u == c) && not (u == 0xfffd) then some i else rest

unfoldable pub cp1251_encode : ℕ → Option ℕ
unfolding place_from
cp1251_encode c = if ltb c 128 then some c else place_from 128 c cp1251_decode_table

-- A character of two units is in no code page.
encode_char : Text → Option ℕ
encode_char (c ∷ []) = cp1251_encode c
encode_char _ = none

put_byte : Option ℕ → Option (List ℕ) → Option (List ℕ)
put_byte none rest = none
put_byte (some b) none = none
put_byte (some b) (some bs) = some (b ∷ bs)

-- The bytes of a text, or `none` if a character has none.
unfoldable pub encode_all : List Text → Option (List ℕ)
unfolding encode_char put_byte
encode_all [] = some []
encode_all (ch ∷ cs) = put_byte (encode_char ch) (encode_all cs)

-- `/[РСр][\u0400-\u04ff]/` at the start of a text
is_split : Text → Bool
is_split (a ∷ b ∷ s) =
    ((a == 0x420) || ((a == 0x421) || (a == 0x440))) && (leb 0x400 b && leb b 0x4ff)
is_split _ = false

-- `/[РСр][\u0400-\u04ff]|пїЅ|\?{2}/`
unfoldable pub is_suspect : Text → Bool
unfolding is_split
is_suspect [] = false
is_suspect (c ∷ s) =
    (is_split (c ∷ s) || (starts_with (c ∷ s) (codes "пїЅ") || starts_with (c ∷ s) (codes "??")))
    || is_suspect s

-- `/[РСÐÑ][\u0080-\u04ff]/` at the start of a text
is_pair : Text → Bool
is_pair (a ∷ b ∷ s) =
    ((a == 0x420) || ((a == 0x421) || ((a == 0xd0) || (a == 0xd1)))) && (leb 0x80 b && leb b 0x4ff)
is_pair _ = false

-- The matches of `/[РСÐÑ][\u0080-\u04ff]|пїЅ|\?{2}/g`. The number counts the units of a match
-- that are still to be stepped over; the flag says that the match was of question marks, and goes
-- on while they do.
unfoldable pub hits : Bool → ℕ → Text → ℕ
unfolding is_pair
hits run skip [] = 0
hits run (suc skip) (c ∷ s) = hits run skip s
hits run zero (c ∷ s) =
    let longer = hits true 0 s in
    let pair = hits false 1 s in
    let mark = hits false 2 s in
    let marks = hits true 1 s in
    let other = hits false 0 s in
    if run && (c == b'?')
    then longer
    else if is_pair (c ∷ s)
    then suc pair
    else if starts_with (c ∷ s) (codes "пїЅ")
    then suc mark
    else if starts_with (c ∷ s) (codes "??")
    then suc marks
    else other

-- `[А-Яа-яЁё]`
is_cyrillic : ℕ → Bool
is_cyrillic c = (leb 0x410 c && leb c 0x44f) || ((c == 0x401) || (c == 0x451))

-- `/[РС][А-Яа-яЁёІЇЄЎЃЌЉЊЋЏЂЈЌЋ]/`
has_cyrillic_pair : Text → Bool
unfolding is_cyrillic
has_cyrillic_pair (a ∷ b ∷ s) =
    (((a == 0x420) || (a == 0x421)) && (is_cyrillic b || any (λ c. c == b) (codes "ІЇЄЎЃЌЉЊЋЏЂЈ")))
    || has_cyrillic_pair (b ∷ s)
has_cyrillic_pair _ = false

-- `mojibakeScore`, with 2 added, so that it is not negative.
unfoldable pub mojibake_score : Text → ℕ
unfolding has_cyrillic_pair is_cyrillic
mojibake_score s =
    hits false 0 s * 8
    + (if has_cyrillic_pair s then 8 else 0)
    + (if any is_cyrillic s then 0 else 2)

-- The better one of a text and what the decoder made of it.
unfoldable pub better_of : Text → Option Text → Text
better_of s none = s
better_of s (some r) = if ltb (mojibake_score r) (mojibake_score s) then r else s

unfoldable pub decoded : (List ℕ → Option Text) → Text → Option (List ℕ) → Text
unfolding better_of
decoded decode s none = s
decoded decode s (some bytes) = better_of s (decode bytes)

unfoldable pub repair_text : (List ℕ → Option Text) → Text → Text
unfolding decoded
repair_text decode s = if not (is_suspect s) then s else decoded decode s (encode_all (chars s))

unfoldable pub repair_mojibake_text : (List ℕ → Option Text) → Value → Text
repair_mojibake_text decode v = repair_text decode (to_text (v or_else str []))
