-- ===== src/KillFeed/Feed.antt =====
-- What the kill feed shows, and where it finds places that no event names.
use scum_ne_djin_release.Prelude.{
  ℕ, suc, ◌+◌, ◌≤◌, ◌≡◌, refl, ap, Bool, true, false, not, List, [], ◌∷◌, map, foldl, Option, none,
  some, arith, All, filter, length, length-filter_le, Bool-cases, inl, inr, any, leb, ◌&&◌, ◌||◌,
}
use scum_ne_djin_release.Prelude.Filters.{filter-All, All_imp, All-filter, All_of_any, any-of_All}
use scum_ne_djin_release.Text.{Text, codes, ◌===◌, text_ops}
use scum_ne_djin_release.Js.{Value, str, Props}
use scum_ne_djin_release.Js.Regex.{regex_ops}
use scum_ne_djin_release.Js.Numbers.{Number, int, number_ops}
use scum_ne_djin_release.Js.Convert.{value_ops}
use scum_ne_djin_release.Js.Sorting.{IsFalling, sort_desc, sort-IsFalling, length-sort, All-sort}
use scum_ne_djin_release.Players.{pick}
use scum_ne_djin_release.ChatFeed.{event_time}
use scum_ne_djin_release.KillFeed.Participants.{Role, killer}
use scum_ne_djin_release.KillFeed.Details.{
  Place, place_keys, axis_keys, axis_number, comma_to_dot, finite_place, parse_location_value,
  parse_kill_location, kill_event_quality, is_transient_server_kill_event,
}
use scum_ne_djin_release.Js.Objects.{props_of}
use scum_ne_djin_release.Envelope.{parse_maybe_json}
use scum_ne_djin_release.KillFeed.Logs.{hydrate_kill_event}
use scum_ne_djin_release.KillFeed.Known.{
  collect_kill_known_names, repair_kill_event_participants, normalize_kill_events,
}
use scum_ne_djin_release.KillFeed.Merging.{
  add_to_group, group_events, merge_into, is_useful, kill_list, is_displayable_kill_event,
  kill_event_group_key, kill_events_likely_duplicate,
}

length-map : {A B : Type 0} (f : A → B) (xs : List A) → length (map f xs) ≡ length xs
length-map f [] = refl
length-map f (x ∷ xs) = ap suc (length-map f xs)

length-add_to_group :
    (key : Text) (event : Props) (groups : List (Text × Props))
    → length (add_to_group key event groups) ≤ suc (length groups)
unfolding add_to_group
length-add_to_group key event [] = omega arith
length-add_to_group key event ((k, e) ∷ groups) = elim (Bool-cases (k === key)) [
  | inl h ↦ rw h (omega arith)
  | inr h ↦ rw h (omega (arith, length-add_to_group key event groups))
]

-- A fold whose steps add at most one entry.
fold_length :
    {A B : Type 0} (step : List B → A → List B)
    → ((ys : List B) (x : A) → length (step ys x) ≤ suc (length ys))
    → (xs : List A) (ys : List B) → length (foldl step ys xs) ≤ length ys + length xs
fold_length step one [] ys = omega arith
fold_length step one (x ∷ xs) ys = omega (arith, one ys x, fold_length step one xs (step ys x))

module _ (decode : List ℕ → Option Text) (date : Value → Option Number) where
  length-merge_into :
      (es : List Props) (event : Props) → length (merge_into decode date es event) ≤ suc (length es)
  unfolding merge_into
  length-merge_into [] event = omega arith
  length-merge_into (e ∷ es) event =
      elim (Bool-cases (kill_events_likely_duplicate decode date e event)) [
        | inl h ↦ rw h (omega arith)
        | inr h ↦ rw h (omega (arith, length-merge_into es event))
      ]

  length-group_events : (rows : List Props) → length (group_events decode date rows) ≤ length rows
  unfolding group_events
  length-group_events rows = omega (
    arith,
    fold_length (λ groups event. add_to_group (kill_event_group_key decode date event) event groups)
        (λ groups event. length-add_to_group (kill_event_group_key decode date event) event groups)
        (filter (is_displayable_kill_event decode date) rows) [],
    length-filter_le (is_displayable_kill_event decode date) rows,
  )

  -- The events before the last filter.
  merged_events : List Props → List Props
  merged_events rows =
      foldl (merge_into decode date) []
        (sort_desc (event_time date) (map (λ g. g.1) (group_events decode date rows)))

  length-merged_events : (rows : List Props) → length (merged_events rows) ≤ length rows
  unfolding merged_events
  length-merged_events rows =
      let groups = map (λ g. g.1) (group_events decode date rows) in
      omega (
        arith,
        fold_length (merge_into decode date) length-merge_into (sort_desc (event_time date) groups)
            [],
        length-sort (event_time date) groups,
        length-map (λ (g : Text × Props). g.1) (group_events decode date rows),
        length-group_events rows,
      )

  -- Whether an event of low quality has a likely duplicate of high quality in a list.
  abbrev pub is_outranked : List Props → Props → Bool
  is_outranked events event =
      not (leb 20 (kill_event_quality event))
      && any
          (λ other.
            leb 20 (kill_event_quality other)
            && kill_events_likely_duplicate decode date event other)
          events

  useful_lem :
      (events : List Props) (event : Props)
      → is_useful decode date events event ≡ true
      → (is_transient_server_kill_event event ≡ false) × (is_outranked events event ≡ false)
  unfolding is_useful
  useful_lem events event h = both _ (leb 20 (kill_event_quality event)) _ h
    where
      both : (a b c : Bool) → not a && (b || not c) ≡ true → (a ≡ false) × (not b && c ≡ false)
      both a b c k = (grind arith, grind arith)

  -- What a list does not outrank, a list of some of its events does not outrank either.
  outranked-filter :
      (events : List Props) (event : Props)
      → is_outranked events event ≡ false
      → is_outranked
          (sort_desc (event_time date) (filter (is_useful decode date events) events))
          event
        ≡ false
  outranked-filter events event h = elim (Bool-cases (leb 20 (kill_event_quality event))) [
    | inl e ↦ rw e refl
    | inr e ↦ rw e (
        any-of_All _ _ (
          All-sort (event_time date) _ _
            (All-filter (is_useful decode date events) _ events (All_of_any _ events (rw e at h)))))
  ]

  -- The kill feed from the rows behind the repair.
  kill_list_lem :
      (rows : List Props)
      → IsFalling (event_time date) (kill_list decode date rows)
        × All
            (λ e.
              (is_transient_server_kill_event e ≡ false)
              × (is_outranked (kill_list decode date rows) e ≡ false))
            (kill_list decode date rows)
        × (length (kill_list decode date rows) ≤ length rows)
  unfolding kill_list merged_events
  kill_list_lem rows =
      let events = merged_events rows in
      (
        sort-IsFalling (event_time date) _,
        All-sort (event_time date) _ _ (
            All_imp _ _
              (λ e h. let (p, q) = useful_lem events e h in (p, outranked-filter events e q)) _
              (filter-All (is_useful decode date events) events)),
        omega (
          arith,
          length-sort (event_time date) (filter (is_useful decode date events) events),
          length-filter_le (is_useful decode date events) events,
          length-merged_events rows,
        ),
      )

-- The kill feed, whatever the rows and the players are: the newest events first, none that
-- isTransientServerKillEvent marks, no event of quality below 20 beside a likely duplicate of it
-- of quality 20 or more, and no more events than rows.
pub kill_feed_lem :
    (decode : List ℕ → Option Text) (parse : Text → Option Value) (sqrt : Number → Number)
    (date : Value → Option Number) (players rows : List Value)
    → let feed = normalize_kill_events decode parse sqrt date players rows in
      IsFalling (event_time date) feed
      × All
          (λ e.
            (is_transient_server_kill_event e ≡ false) × (is_outranked decode date feed e ≡ false))
          feed
      × (length feed ≤ length rows)
unfolding normalize_kill_events
kill_feed_lem decode parse sqrt date players rows =
    let names = collect_kill_known_names decode parse players rows in
    let prepare : Value → Props = λ row.
      repair_kill_event_participants names
        (hydrate_kill_event decode parse sqrt (props_of (parse_maybe_json parse row))) in
    let (a, b, c) = kill_list_lem decode date (map prepare rows) in
    (a, b, omega (arith, c, length-map prepare rows))

abbrev pub origin : Place
origin = record { x = int 0; y = int 0; z = int 0 }

zero_axis :
    (event : Props) (role : Role) (big small : Text)
    → pick event (axis_keys role big small) (str []) ≡ str []
    → axis_number event role big small ≡ int 0
unfolding axis_number comma_to_dot
zero_axis event role big small h = rw h (unfold value_ops number_ops text_ops regex_ops in refl)

origin_found : finite_place (int 0) (int 0) (int 0) ≡ some origin
unfolding finite_place number_ops
origin_found = refl

no_place : parse_location_value (str []) ≡ none
unfolding parse_location_value value_ops text_ops
no_place = refl

place_at_origin :
    (event : Props)
    → pick event (place_keys killer) (str []) ≡ str []
    → pick event (axis_keys killer (codes "X") (codes "x")) (str []) ≡ str []
    → pick event (axis_keys killer (codes "Y") (codes "y")) (str []) ≡ str []
    → pick event (axis_keys killer (codes "Z") (codes "z")) (str []) ≡ str []
    → parse_kill_location event killer ≡ some origin
unfolding parse_kill_location
place_at_origin event h a b c =
    rw
      (
        h,
        no_place,
        zero_axis event killer (codes "X") (codes "x") a,
        zero_axis event killer (codes "Y") (codes "y") b,
        zero_axis event killer (codes "Z") (codes "z") c,
        origin_found,
      )
      refl

lasting_if_placed :
    (event : Props)
    → parse_kill_location event killer ≡ some origin
    → is_transient_server_kill_event event ≡ false
unfolding is_transient_server_kill_event
lasting_if_placed event e = rw e (ground arith)

-- An event that names no place of the killer, neither as one value nor by its coordinates, has
-- that place at the origin, whatever its text says, and so it never counts as one that only the
-- server's log told of.
pub place_of_missing :
    (event : Props)
    → pick event (place_keys killer) (str []) ≡ str []
    → pick event (axis_keys killer (codes "X") (codes "x")) (str []) ≡ str []
    → pick event (axis_keys killer (codes "Y") (codes "y")) (str []) ≡ str []
    → pick event (axis_keys killer (codes "Z") (codes "z")) (str []) ≡ str []
    → (parse_kill_location event killer ≡ some origin)
      × (is_transient_server_kill_event event ≡ false)
place_of_missing event h a b c =
    let found = place_at_origin event h a b c in (found, lasting_if_placed event found)
