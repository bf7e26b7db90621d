-- ===== src/ServerConfig/Saving.antt =====
-- When a save goes out, and what late replies do.
use scum_ne_djin_release.Prelude.{
  ◌≡◌, ◌≢◌, ◌↔◌, refl, sym, true, false, [], ◌∷◌, arith, ◌==◌, Bool-cases, inl, inr, is_some, ◌∙◌,
  ap,
}
use scum_ne_djin_release.Text.{Text, truthy, trim, lower, ◌===◌, trim_start, trim_end}
use scum_ne_djin_release.Text.Laws.{trim_idem, falsy-eq-nil}
use scum_ne_djin_release.ServerConfig.{
  Panel, Load, Reply, file, error, finish_load, start_save, update_save_state, is_loaded, same_name,
}
use scum_ne_djin_release.ServerConfig.World.{World}
use scum_ne_djin_release.ServerConfig.Settled.{IsSettled}
use scum_ne_djin_release.ServerConfig.Invariant.{IsConsistent}

-- The reply to a load that is not the newest changes nothing on the panel.
pub stale_load :
    (l : Load) (r : Reply) (p : Panel) → l.version ≢ p.load_version → finish_load l r p ≡ p
unfolding finish_load
stale_load l (file name text) p h =
    let e : l.version == p.load_version ≡ false = ground arith in rw (e, e)
stale_load l (error m) p h = let e : l.version == p.load_version ≡ false = ground arith in rw (e, e)

truthy-lower : (s : Text) → truthy (lower s) ≡ truthy s
unfolding truthy lower
truthy-lower [] = refl
truthy-lower (c ∷ s) = refl

-- Nothing loaded has the name of no selection.
same_name_of_nil : (s : Text) → truthy (trim s) ≡ true → same_name [] (trim s) ≡ false
unfolding same_name
same_name_of_nil s h = rw (trim_idem s) (go (lower (trim s)) (truthy-lower (trim s) ∙ h))
  where
    go : (r : Text) → truthy r ≡ true → lower (trim []) === r ≡ false
    go [] h = unfold truthy in cc
    go (c ∷ r) h = unfold lower trim trim_start trim_end ◌===◌ in refl

loaded_of_same_name :
    (p : Panel)
    → IsSettled p
    → truthy (trim p.selected) ≡ true
    → same_name p.loaded_name (trim p.selected) ≡ true
    → is_loaded p.loaded_content ≡ true
loaded_of_same_name p v h e = elim (Bool-cases (truthy p.loaded_name)) [
  | inl k ↦ sym v.both ∙ k
  | inr k ↦
      let n : p.loaded_name ≡ [] = falsy-eq-nil p.loaded_name k in
      absurd
        (go (sym e ∙ ap (λ x. same_name x (trim p.selected)) n ∙ same_name_of_nil p.selected h))
]
  where
    go : true ≡ false → ⊥
    go q = cc

-- In a consistent state the button is enabled exactly if a click on it sends the request that
-- opens a save.
pub save_enabled_iff :
    (w : World)
    → IsConsistent w
    → (w.panel.save_disabled ≡ false) ↔ (is_some (start_save w.panel).0 ≡ true)
unfolding start_save update_save_state
save_enabled_iff w v = (forth, back)
  where
    forth : w.panel.save_disabled ≡ false → is_some (start_save w.panel).0 ≡ true
    forth h = ground (arith, v.settled.button, loaded_of_same_name w.panel v.settled)

    back : is_some (start_save w.panel).0 ≡ true → w.panel.save_disabled ≡ false
    back h = ground (arith, v.settled.button)
