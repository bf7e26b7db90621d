-- ===== src/Welcome/Tests.antt =====
-- The welcome pack at concrete rows.
use scum_ne_djin_release.Prelude.{◌≡◌, refl, Bool, true, false, [], ◌∷◌, some, ltb, length}
use scum_ne_djin_release.Text.{Text, codes, text_ops}
use scum_ne_djin_release.Js.{str, Props}
use scum_ne_djin_release.Js.Numbers.{int}
use scum_ne_djin_release.Js.Convert.{value_ops}
use scum_ne_djin_release.Players.Target.{find_player_by_identity, has_identity}
use scum_ne_djin_release.Welcome.{
  Welcome, welcome_pack_status_for, mark_welcome_pack_received_local,
  clear_welcome_pack_received_local, refresh_welcome_timers, welcome_target_identity,
  welcome_identity_from, received_row, is_blank, welcome_row_matches_target, same_person, both_same,
}
use scum_ne_djin_release.Welcome.Laws.{marked_received, cleared_not_received}

abbrev bob_target : Props
bob_target =
    (codes "steamId", str (codes "76561190000000001")) ∷ (codes "name", str (codes "Bob")) ∷ []

abbrev nobody_yet : Welcome
nobody_yet = record { timers = []; optimistic = []; loaded = false; loading = true }

-- A stand-in for `localeCompare`, by length.
abbrev shorter : Text → Text → Bool
shorter a b = ltb (length a) (length b)

welcome_ops : Unit {0}
unfolding value_ops text_ops find_player_by_identity has_identity welcome_target_identity
    welcome_identity_from received_row is_blank welcome_row_matches_target same_person both_same
welcome_ops = tt

marked_received_example :
    (welcome_pack_status_for shorter [] (some bob_target) (
      mark_welcome_pack_received_local (codes "2024-01-01") (int 7) bob_target nobody_yet)).received
    ≡ true
unfolding welcome_ops
marked_received_example =
    marked_received shorter [] bob_target (codes "2024-01-01") (int 7) nobody_yet refl refl

abbrev ann_row : Props
ann_row = (codes "name", str (codes "Ann")) ∷ []

cleared_not_received_example :
    (welcome_pack_status_for shorter [] (some bob_target) (
      refresh_welcome_timers (ann_row ∷ []) (
        clear_welcome_pack_received_local [] (some bob_target) (
          mark_welcome_pack_received_local
            (codes "2024-01-01")
            (int 7)
            bob_target
            nobody_yet)))).received
    ≡ false
unfolding welcome_ops
cleared_not_received_example =
    cleared_not_received shorter [] (some bob_target) (ann_row ∷ [])
      (mark_welcome_pack_received_local (codes "2024-01-01") (int 7) bob_target nobody_yet) refl
