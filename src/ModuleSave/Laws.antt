-- ===== src/ModuleSave/Laws.antt =====
-- What a save of a module sends, and what it was checked against.
use scum_ne_djin_release.Prelude.{
  ◌≡◌, sym, ap, ◌∙◌, find, Bool, true, ◌&&◌, Option, none, some, Bool-cases, inl, inr, arith,
}
use scum_ne_djin_release.Text.{Text, codes, ◌===◌, lower, trim}
use scum_ne_djin_release.Js.Objects.{get}
use scum_ne_djin_release.Text.Laws.{===_sound}
use scum_ne_djin_release.Js.{Value}
use scum_ne_djin_release.Js.Convert.{is_true}
use scum_ne_djin_release.ModuleSave.{
  State, Check, Post, may_save, has_key, baseline_of, start_module_save, finish_module_check,
  current_config, module_config_fingerprint, config_to_send, flush_open_module_editors_for_save,
  post_for,
}

some_inj : {p q : Post} → some p ≡ some q → p ≡ q
some_inj h = cc

check_inj : {p q : Check} → some p ≡ some q → p ≡ q
check_inj h = cc

named :
    (name : Text) (config : Option Value) (post : Post)
    → post_for name config ≡ some post
    → post.name ≡ name
unfolding post_for
named name none post h = absurd (ground arith)
named name (some v) post h = ap (λ p. p.name) (sym (some_inj h))

both : (a b : Bool) → (a && b) ≡ true → b ≡ true
both a b h = grind arith

sent_module_save :
    (c : Check) (current : Value) (s : State) (post : Post)
    → (finish_module_check c current s).0 ≡ some post
    → (post.name ≡ s.selected) × (module_config_fingerprint (current_config current) ≡ c.baseline)
unfolding finish_module_check
sent_module_save c current s post h =
    elim (Bool-cases (
      is_true (current_config current)
      && module_config_fingerprint (current_config current) === c.baseline)) [
        | inl e ↦ (
          named s.selected (config_to_send s c (flush_open_module_editors_for_save s.editor)) post
              (rw e at h),
          ===_sound (module_config_fingerprint (current_config current)) c.baseline
              (both (is_true (current_config current)) _ e),
        )
        | inr e ↦ absurd (ground arith)
      ]

checked_module :
    (s : State) (c : Check)
    → start_module_save s ≡ some c
    → (c.key ≡ lower (trim s.selected))
      × (c.baseline ≡ baseline_of (lower (trim s.selected)) s.baselines)
unfolding start_module_save
checked_module s c h =
    elim (Bool-cases (
      may_save (find (λ m. has_key s.selected (get (codes "key") m)) s.modules)
        (baseline_of (lower (trim s.selected)) s.baselines))) [
          | inl e ↦
              let same = check_inj (rw e at h) in
              (ap (λ d. d.key) (sym same), ap (λ d. d.baseline) (sym same))
          | inr e ↦ absurd (ground arith)
        ]

-- A save is checked against the module that is selected at the click, and is sent to the module
-- that is selected when the reply of the check comes, also if that is another one.
pub save_across_switch :
    (s later : State) (c : Check) (current : Value) (post : Post)
    → start_module_save s ≡ some c
    → (finish_module_check c current later).0 ≡ some post
    → (post.name ≡ later.selected)
      × (c.key ≡ lower (trim s.selected))
      × (module_config_fingerprint (current_config current)
          ≡ baseline_of (lower (trim s.selected)) s.baselines)
save_across_switch s later c current post h k =
    let (name, same) = sent_module_save c current later post k in
    let (key, base) = checked_module s c h in (name, key, same ∙ base)
