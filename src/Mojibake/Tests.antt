-- ===== src/Mojibake/Tests.antt =====
-- Texts in the wrong code page.
use scum_ne_djin_release.Prelude.{◌≡◌, ◌≢◌, refl, ℕ, List, [], ◌∷◌, Option, some, arith}
use scum_ne_djin_release.Text.{Text, codes, text_ops}
use scum_ne_djin_release.Text.Utf8.{chars, is_high, is_low}
use scum_ne_djin_release.Mojibake.{
  cp1251_encode, encode_all, is_suspect, hits, mojibake_score, better_of, decoded, repair_text,
}

-- The bytes of "пр" in UTF-8, read as code page 1251.
yes_encoded : encode_all (chars (codes "РїСЂ")) ≡ some (0xd0 ∷ 0xbf ∷ 0xd1 ∷ 0x80 ∷ [])
unfolding encode_all chars is_high is_low cp1251_encode
yes_encoded = refl

abbrev euro : ℕ
euro = 0x20ac

euro_known : euro ≢ 0xfffd
euro_known e = omega arith

abbrev yes_decoder : List ℕ → Option Text
yes_decoder bytes = some (codes "пр")

yes_repaired : repair_text yes_decoder (codes "РїСЂ") ≡ codes "пр"
unfolding repair_text decoded better_of mojibake_score hits is_suspect encode_all chars is_high
    is_low cp1251_encode text_ops
yes_repaired = refl
