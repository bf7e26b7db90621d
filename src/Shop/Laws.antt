-- ===== src/Shop/Laws.antt =====
-- The delivery mode of a rule, and the rules that are saved.
use scum_ne_djin_release.Prelude.{◌≡◌, refl, true, ◌||◌, List, [], ◌∷◌, Bool-cases, inl, inr, All}
use scum_ne_djin_release.Text.{Text, codes, ◌===◌, lower, has, includes}
use scum_ne_djin_release.Js.{str, Props}
use scum_ne_djin_release.Js.Convert.{to_text, ◌or_else◌}
use scum_ne_djin_release.Shop.{
  rule_modes, alias_modes, alias_mode, wargm_rule_mode, wargm_rule_value,
}

alias_mode_known :
    (k : Text) (aliases : List (Text × Text))
    → All (λ a. has rule_modes a.1 ≡ true) aliases
    → has rule_modes (alias_mode k aliases) ≡ true
unfolding alias_mode has ◌===◌
alias_mode_known k [] h = refl
alias_mode_known k ((j, m) ∷ aliases) (e, h) = elim (Bool-cases (j === k)) [
  | inl f ↦ rw f e
  | inr f ↦ rw f (alias_mode_known k aliases h)
]

aliases_known : All (λ a. has rule_modes a.1 ≡ true) alias_modes
unfolding has ◌===◌
aliases_known = (
  refl,
  (
    refl,
    (
      refl,
      (
        refl,
        (
          refl,
          (
            refl,
            (
              refl,
              (
                refl,
                (
                  refl,
                  (
                    refl,
                    (
                      refl,
                      (
                        refl,
                        (
                          refl,
                          (
                            refl,
                            (
                              refl,
                              (
                                refl,
                                (
                                  refl,
                                  (
                                    refl,
                                    (
                                      refl,
                                      (
                                        refl,
                                        (
                                          refl,
                                          (
                                            refl,
                                            (
                                              refl,
                                              (
                                                refl,
                                                (
                                                  refl,
                                                  (
                                                    refl,
                                                    (
                                                      refl,
                                                      (
                                                        refl,
                                                        (
                                                          refl,
                                                          (
                                                            refl,
                                                            (
                                                            refl,
                                                            (
                                                            refl,
                                                            (refl, (refl, (refl, (refl, tt)))),
                                                            ),
                                                            ),
                                                          ),
                                                        ),
                                                      ),
                                                    ),
                                                  ),
                                                ),
                                              ),
                                            ),
                                          ),
                                        ),
                                      ),
                                    ),
                                  ),
                                ),
                              ),
                            ),
                          ),
                        ),
                      ),
                    ),
                  ),
                ),
              ),
            ),
          ),
        ),
      ),
    ),
  ),
)

-- A rule is delivered in one of the modes that the panel knows, whatever the rule holds.
pub wargm_rule_mode_known : (row : Props) → has rule_modes (wargm_rule_mode row) ≡ true
unfolding wargm_rule_mode
wargm_rule_mode_known row =
    let ui_mode = to_text (wargm_rule_value row (codes "UiDeliveryMode") (str []) or_else str []) in
    let mode = to_text (
      wargm_rule_value row (codes "DeliveryMode") (str (codes "SpawnItem"))
      or_else str (codes "SpawnItem")) in
    let command =
      lower (to_text (wargm_rule_value row (codes "CommandTemplate") (str []) or_else str [])) in
    elim (Bool-cases (has rule_modes ui_mode)) [
      | inl e ↦ rw e e
      | inr e ↦ elim (Bool-cases (has rule_modes mode)) [
        | inl f ↦ rw (e, f) f
        | inr f ↦
            elim (Bool-cases (
              includes command (codes "changefamepoints")
              || includes command (codes "setfamepoints"))) [
                | inl g ↦ rw (e, f, g) (unfold has ◌===◌ in refl)
                | inr g ↦ rw (e, f, g) (alias_mode_known _ alias_modes aliases_known)
              ]
      ]
    ]
