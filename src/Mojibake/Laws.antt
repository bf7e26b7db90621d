-- ===== src/Mojibake/Laws.antt =====
-- The code page there and back, and what a repair may do to a text.
use scum_ne_djin_release.Prelude.{
  ℕ, suc, ◌+◌, ◌<◌, ◌≡◌, ◌≢◌, ◌⊎◌, refl, Bool, true, false, List, [], ◌∷◌, Option, none, some,
  Bool-cases, inl, inr, arith, ltb, ◌==◌, ltb→lt, zero, ap, ◌∙◌, ◌&&◌, ◌||◌, &&-right, get_elem?,
}
use scum_ne_djin_release.Text.{Text}
use scum_ne_djin_release.Text.Utf8.{chars}
use scum_ne_djin_release.Mojibake.{
  cp1251_encode, encode_all, is_suspect, mojibake_score, better_of, decoded, repair_text,
}
use scum_ne_djin_release.Mojibake.Table.{cp1251_decode_table}

is_byte : Option ℕ → ℕ → Bool
is_byte none b = false
is_byte (some n) b = n == b

-- The entries of a table from a byte on are sent back to their bytes.
sends_back : ℕ → List ℕ → Bool
sends_back b [] = true
sends_back b (u ∷ us) = ((u == 0xfffd) || is_byte (cp1251_encode u) b) && sends_back (b + 1) us

table_sends_back : sends_back 128 cp1251_decode_table ≡ true
unfolding sends_back is_byte cp1251_encode
table_sends_back = refl

is_byte_sound : (o : Option ℕ) (b : ℕ) → is_byte o b ≡ true → o ≡ some b
unfolding is_byte
is_byte_sound none b h = absurd cc
is_byte_sound (some n) b h = ap some (ground arith)

entry_back :
    (b : ℕ) (us : List ℕ) (i u : ℕ)
    → sends_back b us ≡ true
    → get_elem? us i ≡ some u
    → u ≢ 0xfffd
    → cp1251_encode u ≡ some (b + i)
unfolding sends_back
entry_back b [] i u h e k = absurd cc
entry_back b (v ∷ us) zero u h e k =
    let same : v ≡ u = some_inj e in
    is_byte_sound (cp1251_encode u) (b + 0) (rw (← same) (ground arith))
  where
    some_inj : some v ≡ some u → v ≡ u
    some_inj q = cc
entry_back b (v ∷ us) (suc i) u h e k =
    entry_back (b + 1) us i u (&&-right _ _ h) e k ∙ ap some (omega arith)

-- Each character of the table but U+FFFD is encoded as the byte of its place.
pub encode-table :
    (i u : ℕ)
    → get_elem? cp1251_decode_table i ≡ some u
    → u ≢ 0xfffd
    → cp1251_encode u ≡ some (128 + i)
encode-table i u e k = entry_back 128 cp1251_decode_table i u table_sends_back e k

better_of-score :
    (s : Text) (o : Option Text)
    → (better_of s o ≡ s) ⊎ (mojibake_score (better_of s o) < mojibake_score s)
unfolding better_of
better_of-score s none = inl refl
better_of-score s (some r) = elim (Bool-cases (ltb (mojibake_score r) (mojibake_score s))) [
  | inl e ↦ rw e (inr (ltb→lt _ _ e))
  | inr e ↦ rw e (inl refl)
]

-- A repair leaves a text as it is or makes one with a lower score, whatever the decoder does.
pub repair_text-score :
    (decode : List ℕ → Option Text) (s : Text)
    → (repair_text decode s ≡ s) ⊎ (mojibake_score (repair_text decode s) < mojibake_score s)
unfolding repair_text
repair_text-score decode s = elim (Bool-cases (is_suspect s)) [
  | inr e ↦ rw e (inl refl)
  | inl e ↦ rw e (go (encode_all (chars s)))
]
  where
    go :
        (o : Option (List ℕ))
        → (decoded decode s o ≡ s) ⊎ (mojibake_score (decoded decode s o) < mojibake_score s)
    go none = unfold decoded in inl refl
    go (some bytes) = unfold decoded in better_of-score s (decode bytes)
