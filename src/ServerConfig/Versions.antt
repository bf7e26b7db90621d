-- ===== src/ServerConfig/Versions.antt =====
-- The versions of the loads under way: they fall along the list, so one is current at most.
use scum_ne_djin_release.Prelude.{
  ℕ, zero, suc, ◌≤◌, ◌<◌, ◌≡◌, refl, Bool, false, List, [], ◌∷◌, some, arith, any, get_elem?,
  remove_at, ◌==◌,
}
use scum_ne_djin_release.ServerConfig.{Load}

-- The versions fall along the list, below a bound.
abbrev pub Descending : ℕ → List Load → Type 0
Descending bound [] = Unit
Descending bound (l ∷ ls) = (l.version < bound) × Descending l.version ls

-- The newest load is under way.
abbrev pub is_current : ℕ → List Load → Bool
is_current v ls = any (λ l. l.version == v) ls

pub Descending-mono : (a b : ℕ) (ls : List Load) → a ≤ b → Descending a ls → Descending b ls
Descending-mono a b [] h d = tt
Descending-mono a b (l ∷ ls) h (p, d) = (omega arith, d)

pub not_current_of_Descending :
    (v b : ℕ) (ls : List Load) → b ≤ v → Descending b ls → is_current v ls ≡ false
not_current_of_Descending v b [] h d = refl
not_current_of_Descending v b (l ∷ ls) h (p, d) =
    ground (arith, not_current_of_Descending v l.version ls (omega arith) d)

pub Descending-remove_at :
    (b : ℕ) (ls : List Load) (i : ℕ) → Descending b ls → Descending b (remove_at ls i)
Descending-remove_at b [] i d = tt
Descending-remove_at b (l ∷ ls) zero (p, d) = Descending-mono l.version b ls (omega arith) d
Descending-remove_at b (l ∷ ls) (suc i) (p, d) = (p, Descending-remove_at l.version ls i d)

-- Taking the current load away leaves none; taking another leaves the current one.
pub current_removed :
    (v b : ℕ) (ls : List Load) (i : ℕ) (l : Load)
    → Descending b ls
    → get_elem? ls i ≡ some l
    → l.version ≡ v
    → is_current v (remove_at ls i) ≡ false
current_removed v b [] i l d g e = cc
current_removed v b (k ∷ ls) zero l (p, d) g e =
    not_current_of_Descending v k.version ls (ground arith) d
current_removed v b (k ∷ ls) (suc i) l (p, d) g e =
    ground (arith, version_below k.version ls i l d g, current_removed v k.version ls i l d g e)
  where
    version_below :
        (b : ℕ) (ls : List Load) (i : ℕ) (l : Load)
        → Descending b ls
        → get_elem? ls i ≡ some l
        → l.version < b
    version_below b [] i l d g = cc
    version_below b (k ∷ ls) zero l (p, d) g = ground arith
    version_below b (k ∷ ls) (suc i) l (p, d) g = omega (arith, version_below k.version ls i l d g)

pub current_kept :
    (v : ℕ) (ls : List Load) (i : ℕ) (l : Load)
    → get_elem? ls i ≡ some l
    → (l.version == v) ≡ false
    → is_current v (remove_at ls i) ≡ is_current v ls
current_kept v [] i l g e = refl
current_kept v (k ∷ ls) zero l g e = ground arith
current_kept v (k ∷ ls) (suc i) l g e = ground (arith, current_kept v ls i l g e)
