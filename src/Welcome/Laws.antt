-- ===== src/Welcome/Laws.antt =====
-- A pack that was marked shows as received, one that was cleared does not.
use scum_ne_djin_release.Prelude.{
  ◌≡◌, refl, ◌∙◌, Bool, true, false, not, ◌&&◌, List, [], ◌∷◌, ◌++◌, Option, some, filter, any,
  any-append, any-filter-not, Bool-cases, inl, inr, arith,
}
use scum_ne_djin_release.Text.{Text}
use scum_ne_djin_release.Text.Laws.{===_refl}
use scum_ne_djin_release.Js.{Props}
use scum_ne_djin_release.Js.Numbers.{Number}
use scum_ne_djin_release.Welcome.{
  Identity, Welcome, welcome_identity_from, welcome_target_identity, both_same, same_person,
  welcome_row_matches_target, merge_rows, merge_welcome_timers_with_optimistic,
  refresh_welcome_timers, received_row, mark_welcome_pack_received_local,
  clear_welcome_pack_received_local, is_blank, place, newest_first, is_filled_list,
  welcome_pack_status_for,
}

same_self : (i : Identity) → is_blank i ≡ false → same_person i i ≡ true
unfolding same_person is_blank both_same
same_self i h = rw (===_refl i.steam, ===_refl i.name, ===_refl i.profile) (ground arith)

any_kept :
    (f : Props → Bool) (os rows : List Props)
    → any f rows ≡ true
    → any f (merge_rows rows os) ≡ true
unfolding merge_rows
any_kept f [] rows h = h
any_kept f (o ∷ os) rows h =
    elim (Bool-cases (any (welcome_row_matches_target (welcome_identity_from o)) rows)) [
      | inl e ↦ rw e (any_kept f os rows h)
      | inr e ↦ rw e (any_kept f os (rows ++ (o ∷ [])) (any-append f rows (o ∷ []) ∙ rw h refl))
    ]

any_merged :
    (os : List Props) (o : Props) (rows : List Props)
    → is_blank (welcome_identity_from o) ≡ false
    → any (welcome_row_matches_target (welcome_identity_from o)) (merge_rows rows (os ++ (o ∷ [])))
      ≡ true
unfolding merge_rows welcome_row_matches_target
any_merged [] o rows h =
    elim (Bool-cases (any (welcome_row_matches_target (welcome_identity_from o)) rows)) [
      | inl e ↦ rw e e
      | inr e ↦ rw e (
          any-append _ rows (o ∷ [])
          ∙ rw (e, welcome_row_matches_target, same_self (welcome_identity_from o) h) refl)
    ]
any_merged (p ∷ os) o rows h = any_merged os o _ h

none_merged :
    (f : Props → Bool) (os rows : List Props)
    → any f rows ≡ false
    → any f os ≡ false
    → any f (merge_rows rows os) ≡ false
unfolding merge_rows
none_merged f [] rows h k = h
none_merged f (o ∷ os) rows h k = elim (Bool-cases (f o)) [
  | inl e ↦ cc
  | inr e ↦ elim (Bool-cases (any (welcome_row_matches_target (welcome_identity_from o)) rows)) [
    | inl g ↦ rw g (none_merged f os rows h (rw e at k))
    | inr g ↦ rw g (
        none_merged f os (rows ++ (o ∷ [])) (any-append f rows (o ∷ []) ∙ rw (h, e) refl)
          (rw e at k))
  ]
]

filled-filter : (f : Props → Bool) (rows : List Props) → is_filled_list (filter f rows) ≡ any f rows
unfolding is_filled_list
filled-filter f [] = refl
filled-filter f (r ∷ rs) = ground (arith, filled-filter f rs)

module _ (before : Text → Text → Bool) where
  filled-place : (r : Props) (rs : List Props) → is_filled_list (place before r rs) ≡ true
  unfolding is_filled_list place
  filled-place r [] = refl
  filled-place r (s ∷ rs) = ground (arith)

  filled-newest : (rs : List Props) → is_filled_list (newest_first before rs) ≡ is_filled_list rs
  unfolding is_filled_list newest_first
  filled-newest [] = refl
  filled-newest (r ∷ rs) = filled-place r (newest_first before rs)

  received_eq :
      (players : List Props) (target : Option Props) (w : Welcome)
      → (welcome_pack_status_for before players target w).received ≡ (
          not (is_blank (welcome_target_identity players target))
          && any (welcome_row_matches_target (welcome_target_identity players target)) w.timers)
  unfolding welcome_pack_status_for
  received_eq players target w =
      elim (Bool-cases (is_blank (welcome_target_identity players target))) [
        | inl e ↦ rw e refl
        | inr e ↦ rw e (filled-newest _ ∙ filled-filter _ w.timers)
      ]

  -- Once the panel has marked the pack of a player as received, the player's status is received,
  -- if the row that is added has the player's identity and that is not blank.
  pub marked_received :
      (players : List Props) (target : Props) (now : Text) (at : Number) (w : Welcome)
      → welcome_identity_from (received_row now at target)
        ≡ welcome_target_identity players (some target)
      → is_blank (welcome_target_identity players (some target)) ≡ false
      → (welcome_pack_status_for before players
          (some target)
          (mark_welcome_pack_received_local now at target w)).received
        ≡ true
  unfolding mark_welcome_pack_received_local
  marked_received players target now at w h k =
      received_eq players (some target) (mark_welcome_pack_received_local now at target w)
      ∙ rw (k, ← h) (any_merged _ (received_row now at target) w.timers (rw (← h) at k))

  -- Once the pack of a player was reset, no refresh shows it as received, unless the server's list
  -- has a row of the player.
  pub cleared_not_received :
      (players : List Props) (target : Option Props) (timers : List Props) (w : Welcome)
      → any (welcome_row_matches_target (welcome_target_identity players target)) timers ≡ false
      → (welcome_pack_status_for before players target (
          refresh_welcome_timers timers
            (clear_welcome_pack_received_local players target w))).received
        ≡ false
  unfolding refresh_welcome_timers clear_welcome_pack_received_local
      merge_welcome_timers_with_optimistic
  cleared_not_received players target timers w h =
      received_eq players target
        (refresh_welcome_timers timers (clear_welcome_pack_received_local players target w))
      ∙ rw
          (none_merged _ _ timers h (
            any-filter-not (welcome_row_matches_target (welcome_target_identity players target))
              w.optimistic))
          (ground arith)
