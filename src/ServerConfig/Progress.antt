-- ===== src/ServerConfig/Progress.antt =====
-- Loads end: once every reply is there, the panel waits no more.
use scum_ne_djin_release.Prelude.{
  ℕ, zero, suc, ◌<◌, ◌≡◌, refl, ◌∙◌, ap, false, List, [], ◌∷◌, some, arith, length, get_elem?,
  remove_at, length-remove_at,
}
use scum_ne_djin_release.ServerConfig.{Load, Reply}
use scum_ne_djin_release.ServerConfig.World.{World, Event, load_reply, on_load, step, run}
use scum_ne_djin_release.ServerConfig.Versions.{is_current}
use scum_ne_djin_release.ServerConfig.Invariant.{IsConsistent, step-IsConsistent}

-- The replies to that many loads, in any order: each is to one of those that still wait.
pub data Delivers : ℕ → List Event → Type 0 where
  all_done : Delivers 0 []
  reply :
      {n : ℕ} {es : List Event} (i : ℕ) (r : Reply)
      → i < suc n
      → Delivers n es
      → Delivers (suc n) (load_reply i r ∷ es)

there : (ls : List Load) (i : ℕ) → i < length ls → (l : Load) × (get_elem? ls i ≡ some l)
there [] i h = absurd (omega arith)
there (l ∷ ls) zero h = (l, refl)
there (l ∷ ls) (suc i) h = there ls i (omega arith)

on_load-loads :
    (w : World) (i : ℕ) (r : Reply)
    → i < length w.loads
    → (step w (load_reply i r)).loads ≡ remove_at w.loads i
unfolding step on_load
on_load-loads w i r h = let (l, e) = there w.loads i h in rw e refl

delivered_loads :
    {n : ℕ} {es : List Event} (w : World)
    → Delivers n es
    → length w.loads ≡ n
    → IsConsistent w
    → (length (run w es).loads ≡ 0) × IsConsistent (run w es)
delivered_loads w all_done h v = (h, v)
delivered_loads w (reply {n} {es} i r k d) h v =
    delivered_loads (step w (load_reply i r)) d
      (ap length (on_load-loads w i r (omega arith))
        ∙ omega (arith, length-remove_at w.loads i (omega arith)))
      (step-IsConsistent w (load_reply i r) v)

no_loads : (ls : List Load) → length ls ≡ 0 → ls ≡ []
no_loads [] h = refl
no_loads (l ∷ ls) h = absurd (omega arith)

-- From every consistent state, once each load under way has its reply, good or bad, in any order,
-- no load waits and the panel is not marked as loading.
pub delivered_settles :
    (w : World) (es : List Event)
    → IsConsistent w
    → Delivers (length w.loads) es
    → ((run w es).loads ≡ []) × ((run w es).panel.loading ≡ false)
delivered_settles w es v d =
    let (h, c) = delivered_loads w d refl v in
    let e = no_loads (run w es).loads h in
    (e, c.current ∙ ap (is_current (run w es).panel.load_version) e)
