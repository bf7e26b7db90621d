-- ===== src/ServerConfig/Tests.antt =====
-- The theorems of the configuration editor at concrete sessions.
use scum_ne_djin_release.Prelude.{
  ◌≡◌, ◌↔◌, ◌⊎◌, refl, true, false, List, [], ◌∷◌, none, some, is_some, ◌≢◌, arith, map, length,
  ◌+◌, ◌≤◌,
}
use scum_ne_djin_release.Text.{Text, codes, text_ops, truthy, trim}
use scum_ne_djin_release.ServerConfig.{
  Load, Save, file, error, start_load, start_save, finish_load, is_loaded,
}
use scum_ne_djin_release.ServerConfig.World.{
  World, initial, Event, select, edit, save, load_reply, check_reply, post_reply, step, run,
}
use scum_ne_djin_release.ServerConfig.Invariant.{IsConsistent, run-IsConsistent}
use scum_ne_djin_release.ServerConfig.Saving.{save_enabled_iff}
use scum_ne_djin_release.ServerConfig.Races.{IsGuarded, step-IsGuarded}
use scum_ne_djin_release.ServerConfig.Refine.{
  ClientRun, view, label, clicks, run-refines, posts_bound,
}
use scum_ne_djin_release.ServerConfig.Progress.{Delivers, all_done, reply, delivered_settles}
use scum_ne_djin_release.ServerConfig.Sessions.{
  Opens, opened, uninterrupted_save, save_across_reload, load_order,
}

abbrev ini : Text
ini = codes "Server.ini"

abbrev opening : List Event
opening =
    select (codes " Server.ini ") ∷ load_reply 0 (file ini (codes "a=1")) ∷ edit (codes "a=2") ∷ []

abbrev edited : World
edited = run initial opening

-- The methods that a session runs.
session_ops : Unit {0}
unfolding step start_load start_save finish_load text_ops
session_ops = tt

edited_panel :
    (edited.panel.selected ≡ ini)
    × (edited.panel.loaded_content ≡ some (codes "a=1"))
    × (edited.panel.save_disabled ≡ false)
unfolding session_ops
edited_panel = (refl, refl, refl)

edited-Opens : Opens edited.panel
unfolding session_ops is_loaded
edited-Opens = record { worth = refl; idle = refl; same = refl; is_ready = refl; filled = refl }

run-IsConsistent_example : IsConsistent (run initial opening)
run-IsConsistent_example = run-IsConsistent opening

save_enabled_iff_example :
    (edited.panel.save_disabled ≡ false) ↔ (is_some (start_save edited.panel).0 ≡ true)
save_enabled_iff_example = save_enabled_iff edited (run-IsConsistent opening)

abbrev late : Load
late = record { version = 0; clean = codes "Game.ini" }

late_is_stale : late.version ≢ edited.panel.load_version
unfolding session_ops
late_is_stale = omega arith

step-IsGuarded_example :
    ((step (step edited save) (check_reply 0 (file ini (codes "a=1")))).sent
      ≡ (step edited save).sent)
    ⊎ ((s : Save) × ((step (step edited save) (check_reply 0 (file ini (codes "a=1")))).sent
          ≡ s ∷ (step edited save).sent)
        × IsGuarded (step edited save) (check_reply 0 (file ini (codes "a=1"))) s)
step-IsGuarded_example = step-IsGuarded (step edited save) (check_reply 0 (file ini (codes "a=1")))

uninterrupted_save_example :
    let v = run edited (
      save
      ∷ check_reply 0 (file (trim edited.panel.selected) (codes "a=1"))
      ∷ post_reply 0 none
      ∷ []) in
    (v.sent ≡ opened edited.panel ∷ edited.sent)
    × (v.panel.loaded_content ≡ some edited.panel.content)
    × (v.panel.save_disabled ≡ false)
uninterrupted_save_example = uninterrupted_save edited (codes "a=1") edited-Opens edited_panel.1

-- Another administrator writes "a=9"; the edit of "a=1" goes over it.
save_across_reload_example :
    (run edited (
      save
      ∷ select (trim edited.panel.selected)
      ∷ load_reply 0 (file (trim edited.panel.selected) (codes "a=9"))
      ∷ check_reply 0 (file (trim edited.panel.selected) (codes "a=9"))
      ∷ [])).sent
    ≡ opened edited.panel ∷ edited.sent
save_across_reload_example = save_across_reload edited (codes "a=9") edited-Opens

abbrev game : Text
game = codes "Game.ini"

names_hold : (truthy ini ≡ true) × (trim ini ≡ ini) × (truthy game ≡ true) × (trim game ≡ game)
unfolding text_ops
names_hold = (refl, refl, refl, refl)

load_order_example :
    run initial (
      select ini
      ∷ select game
      ∷ load_reply 1 (file ini (codes "a=1"))
      ∷ load_reply 0 (error (codes "timeout"))
      ∷ [])
    ≡ run initial (
        select ini
        ∷ select game
        ∷ load_reply 0 (error (codes "timeout"))
        ∷ load_reply 0 (file ini (codes "a=1"))
        ∷ [])
load_order_example =
    load_order initial ini game (file ini (codes "a=1")) (error (codes "timeout")) names_hold.0
      names_hold.1 names_hold.2 names_hold.3

-- The check of the first click still waits when the second one comes.
abbrev two_clicks : List Event
two_clicks =
    select ini
    ∷ load_reply 0 (file ini (codes "a=1"))
    ∷ edit (codes "a=2")
    ∷ save
    ∷ save
    ∷ check_reply 1 (file ini (codes "a=1"))
    ∷ []

run-refines_example :
    ClientRun (map label two_clicks) (view initial) (view (run initial two_clicks))
run-refines_example = run-refines two_clicks

posts_bound_example :
    length (run initial two_clicks).sent + length (run initial two_clicks).checks
    ≤ clicks (map label two_clicks)
posts_bound_example = posts_bound two_clicks

abbrev two_loads : List Event
two_loads = select ini ∷ select game ∷ []

abbrev both_replies : List Event
both_replies = load_reply 1 (file ini (codes "a=1")) ∷ load_reply 0 (error (codes "timeout")) ∷ []

two_wait : length (run initial two_loads).loads ≡ 2
unfolding session_ops
two_wait = refl

both_Delivers : Delivers (length (run initial two_loads).loads) both_replies
both_Delivers = rw two_wait (
    reply 1 (file ini (codes "a=1")) (omega arith)
      (reply 0 (error (codes "timeout")) (omega arith) all_done))

delivered_settles_example :
    ((run (run initial two_loads) both_replies).loads ≡ [])
    × ((run (run initial two_loads) both_replies).panel.loading ≡ false)
delivered_settles_example =
    delivered_settles (run initial two_loads) both_replies (run-IsConsistent two_loads)
      both_Delivers
