-- ===== src/ServerConfig/Sessions.antt =====
-- Short sessions of the configuration editor, from any consistent state.
use scum_ne_djin_release.Prelude.{
  ◌+◌, ◌≡◌, refl, true, false, not, ◌&&◌, ◌||◌, [], ◌∷◌, Option, none, some, arith, ◌==◌,
}
use scum_ne_djin_release.Text.{Text, truthy, trim, ◌orelse◌, lower}
use scum_ne_djin_release.Text.Laws.{===_refl, trim_idem}
use scum_ne_djin_release.ServerConfig.{
  Panel, Load, Save, Reply, file, start_load, finish_load, start_save, finish_check, finish_post,
  saving, checking, loaded, update_save_state, is_loaded, same_name, same_content,
}
use scum_ne_djin_release.ServerConfig.World.{
  World, select, save, load_reply, check_reply, post_reply, checked, step, run,
}
use scum_ne_djin_release.ServerConfig.Saving.{stale_load}
use scum_ne_djin_release.ServerConfig.Settled.{finish_load-versions}

-- A click that opens a save, and what it takes along.
pub record Opens (p : Panel) : Type 0 where
  pub worth : truthy (trim p.selected) ≡ true
  pub idle : p.loading ≡ false
  pub same : same_name p.loaded_name (trim p.selected) ≡ true
  pub is_ready : is_loaded p.loaded_content ≡ true
  pub filled : truthy (trim p.content) ≡ true

abbrev pub opened : Panel → Save
opened p = record { name = trim p.selected; edited = p.content }

orelse_of_truthy : (a b : Text) → truthy a ≡ true → (a orelse b) ≡ a
unfolding ◌orelse◌ truthy
orelse_of_truthy [] b h = cc
orelse_of_truthy (c ∷ a) b h = refl

same_content_refl : (t : Text) → same_content t (some t) ≡ true
unfolding same_content
same_content_refl t = ===_refl t

start_save-Opens :
    (p : Panel) → Opens p → start_save p ≡ (some (opened p), record p { result = checking })
unfolding start_save
start_save-Opens p o = rw (o.worth, o.idle, o.same, o.is_ready, o.filled) refl

finish_check_same :
    (s : Save) (t : Text) (p : Panel)
    → truthy s.name ≡ true
    → trim s.name ≡ s.name
    → p.loaded_content ≡ some t
    → finish_check s (file s.name t) p ≡ (true, record p { result = saving })
unfolding finish_check
finish_check_same s t p h k l =
    rw
      (
        orelse_of_truthy s.name s.name h,
        k,
        orelse_of_truthy s.name s.name h,
        k,
        ===_refl (lower s.name),
      )
      (rw (accepted p.loaded_content l))
  where
    accepted : (o : Option Text) → o ≡ some t → same_content t o ≡ true
    accepted o e = rw e (same_content_refl t)

-- The click, the reply that holds the loaded text, and the good reply to the POST: the text of
-- the editor goes out under the name of the selection, it counts as the loaded text from then
-- on, and the button stays enabled.
pub uninterrupted_save :
    (w : World) (t : Text)
    → Opens w.panel
    → w.panel.loaded_content ≡ some t
    → let v =
        run w (save ∷ check_reply 0 (file (trim w.panel.selected) t) ∷ post_reply 0 none ∷ []) in
      (v.sent ≡ opened w.panel ∷ w.sent)
      × (v.panel.loaded_content ≡ some w.panel.content)
      × (v.panel.save_disabled ≡ false)
unfolding step checked finish_post
uninterrupted_save w t o l =
    rw
      (
        start_save-Opens w.panel o,
        finish_check_same (opened w.panel) t (record w.panel { result = checking }) o.worth
            (trim_idem w.panel.selected) l,
      )
      (refl, refl, enabled)
  where
    enabled :
        (w.panel.loading
          || not (
              truthy (trim w.panel.selected)
              && same_name (trim w.panel.selected) (trim w.panel.selected))
          || not (truthy (trim w.panel.content)))
        ≡ false
    enabled = rw (o.idle, o.worth, o.filled, ===_refl (lower (trim (trim w.panel.selected))))

-- The panel while a file is loaded, and once it is there.
abbrev loading_file : Text → Panel → Panel
loading_file name p = update_save_state (record p {
  load_version = p.load_version + 1;
  selected = name;
  loading = true;
  loaded_name = [];
  loaded_content = none;
})

abbrev showing_file : Text → Text → Panel → Panel
showing_file name t p = update_save_state (record p {
  selected = name;
  loading = false;
  loaded_name = name;
  loaded_content = some t;
  content = t;
  result = loaded name;
})

start_load_lem :
    (name : Text) (p : Panel)
    → truthy name ≡ true
    → trim name ≡ name
    → start_load name p
      ≡ some (record { version = p.load_version + 1; clean = name }, loading_file name p)
unfolding start_load
start_load_lem name p h k = rw (orelse_of_truthy name p.selected h, k, h) refl

finish_load_lem :
    (l : Load) (t : Text) (p : Panel)
    → truthy l.clean ≡ true
    → trim l.clean ≡ l.clean
    → l.version ≡ p.load_version
    → p.selected ≡ l.clean
    → finish_load l (file l.clean t) p ≡ showing_file l.clean t p
unfolding finish_load
finish_load_lem l t p h k v e =
    let same : l.version == p.load_version ≡ true = ground arith in
    rw
      (
        orelse_of_truthy l.clean l.clean h,
        k,
        orelse_of_truthy l.clean l.clean h,
        same,
        e,
        k,
        ===_refl (lower l.clean),
        same,
      )
      (rw (k, k, ===_refl (lower l.clean)))

loading_file_fields :
    (name : Text) (p : Panel)
    → (p.load_version + 1 ≡ (loading_file name p).load_version)
      × ((loading_file name p).selected ≡ name)
unfolding update_save_state
loading_file_fields name p = (refl, refl)

showing_file_content : (name t : Text) (p : Panel) → (showing_file name t p).loaded_content ≡ some t
unfolding update_save_state
showing_file_content name t p = refl

-- The check of a save compares with the file loaded last, not with the file that was edited. If
-- the same file is loaded again between the click and the reply to the check, then whatever its
-- new text is, that reply lets the save go out, with the edit of the old text.
pub save_across_reload :
    (w : World) (t : Text)
    → Opens w.panel
    → (run w (
        save
        ∷ select (trim w.panel.selected)
        ∷ load_reply 0 (file (trim w.panel.selected) t)
        ∷ check_reply 0 (file (trim w.panel.selected) t)
        ∷ [])).sent
      ≡ opened w.panel ∷ w.sent
unfolding step checked
save_across_reload w t o =
    let name = trim w.panel.selected in
    let tight : trim name ≡ name = trim_idem w.panel.selected in
    let p = record w.panel { result = checking } in
    rw (
      start_save-Opens w.panel o,
      start_load_lem name p o.worth tight,
      finish_load_lem (record { version = w.panel.load_version + 1; clean = name }) t
          (loading_file name p) o.worth tight (loading_file_fields name p).0
          (loading_file_fields name p).1,
      finish_check_same (opened w.panel) t (showing_file name t (loading_file name p)) o.worth tight
          (showing_file_content name t (loading_file name p)),
    )

-- Two files chosen one after the other: the replies may come in either order, and the session
-- ends in the same state, the one that the second choice alone decides.
pub load_order :
    (w : World) (a b : Text) (ra rb : Reply)
    → truthy a ≡ true
    → trim a ≡ a
    → truthy b ≡ true
    → trim b ≡ b
    → run w (select a ∷ select b ∷ load_reply 1 ra ∷ load_reply 0 rb ∷ [])
      ≡ run w (select a ∷ select b ∷ load_reply 0 rb ∷ load_reply 0 ra ∷ [])
unfolding step
load_order w a b ra rb ha ka hb kb =
    let p = loading_file a w.panel in
    let q = loading_file b p in
    let la : Load = record { version = w.panel.load_version + 1; clean = a } in
    let lb : Load = record { version = p.load_version + 1; clean = b } in
    let vp = (loading_file_fields a w.panel).0 in
    let vq = (loading_file_fields b p).0 in
    rw (
      start_load_lem a w.panel ha ka,
      start_load_lem b p hb kb,
      stale_load la ra q (λ e. omega arith),
      stale_load la ra (finish_load lb rb q) (λ e. omega (arith, (finish_load-versions lb rb q).0)),
    )
