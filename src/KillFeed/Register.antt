-- ===== src/KillFeed/Register.antt =====
-- Which names the panel keeps for Steam ids.
use scum_ne_djin_release.Prelude.{
  ℕ, ◌≡◌, refl, sym, subst, Bool, true, false, not, ◌&&◌, ◌||◌, List, [], ◌∷◌, map, foldl, Option,
  none, some, ltb, arith, All, Bool-cases, inl, inr,
}
use scum_ne_djin_release.Text.{Text, ◌===◌, has, truthy, trim, text_ops}
use scum_ne_djin_release.Text.Laws.{===_comm, ===_sound}
use scum_ne_djin_release.Text.Fresh.{Distinct}
use scum_ne_djin_release.Js.{Value, str, Props}
use scum_ne_djin_release.Js.Regex.{Found, search, matches_of}
use scum_ne_djin_release.Js.Convert.{to_text, ◌or_else◌, value_ops}
use scum_ne_djin_release.Envelope.{parse_maybe_json}
use scum_ne_djin_release.Js.Objects.{props_of}
use scum_ne_djin_release.KillFeed.{
  kill_raw_text, is_steam, text_quality, clean_kill_participant_name,
}
use scum_ne_djin_release.KillFeed.Participants.{Role, killer, victim}
use scum_ne_djin_release.KillFeed.Known.{
  Names, name_of, set_name, is_no_name, add_kill_known_name, add_role, add_died, add_listed,
  add_object, add_player, died_line, listed, collect_kill_known_names,
}

-- A Steam id with a name that says who it is, and is better than none.
unfoldable pub is_known : Text × Text → Bool
is_known (id, name) =
    is_steam id && (truthy name && (not (is_no_name name) && ltb 20 (text_quality (str name))))

abbrev pub ids : Names → List Text
ids names = map (λ e. e.0) names

abbrev pub IsRegister : Names → Type 0
IsRegister names = All (λ e. is_known e ≡ true) names × Distinct (ids names)

other_id :
    (id name a : Text) (names : Names)
    → id === a ≡ false
    → has (ids names) a ≡ false
    → has (ids (set_name id name names)) a ≡ false
unfolding set_name has
other_id id name a [] h k = rw h refl
other_id id name a ((i, n) ∷ names) h k = elim (Bool-cases (i === id)) [
  | inl e ↦ rw e k
  | inr e ↦ rw e (
      let (x, y) = neither (i === a) (has (ids names) a) k in
      rw (x, other_id id name a names h (y)) refl)
]
  where
    neither : (x y : Bool) → (x || y) ≡ false → (x ≡ false) × (y ≡ false)
    neither x y h = grind arith

set_name-IsRegister :
    (id name : Text) (names : Names)
    → is_known (id, name) ≡ true
    → IsRegister names
    → IsRegister (set_name id name names)
unfolding set_name has
set_name-IsRegister id name [] h k = ((h, tt), (refl, tt))
set_name-IsRegister id name ((i, n) ∷ names) h ((a, all), (d, apart)) =
    elim (Bool-cases (i === id)) [
      | inl e ↦
          rw e
            ((subst (λ x. is_known (x, name) ≡ true) (sym (===_sound i id e)) h, all), (d, apart))
      | inr e ↦
          let (all_rest, apart_rest) = set_name-IsRegister id name names h (all, apart) in
          rw e ((a, all_rest), (other_id id name i names (rw (===_comm id i) e) (d), apart_rest))
    ]

empty_quality : text_quality (str []) ≡ 20
unfolding text_quality value_ops text_ops
empty_quality = refl

-- Under an id that is not there, the name is empty.
name_of_least :
    (id : Text) (names : Names)
    → All (λ e. is_known e ≡ true) names
    → ltb (text_quality (str (name_of id names))) 20 ≡ false
unfolding name_of
name_of_least id [] h = rw empty_quality refl
name_of_least id ((i, n) ∷ names) (a, all) = elim (Bool-cases (i === id)) [
  | inl e ↦ rw e (unfold is_known in grind arith)
  | inr e ↦ rw e (name_of_least id names all)
]

admitted :
    (steam clean_ fresh better : Bool) (old new : ℕ)
    → ltb old 20 ≡ false
    → steam && (clean_ && (fresh && ltb old new)) ≡ true
    → steam && (clean_ && (fresh && ltb 20 new)) ≡ true
admitted a b c d old new h k = grind arith

-- A fold whose steps keep the entries so.
fold-IsRegister :
    {A : Type 0} (step : Names → A → Names)
    → ((names : Names) (x : A) → IsRegister names → IsRegister (step names x))
    → (xs : List A) (names : Names) → IsRegister names
    → IsRegister (foldl step names xs)
fold-IsRegister step keep [] names h = h
fold-IsRegister step keep (x ∷ xs) names h =
    fold-IsRegister step keep xs (step names x) (keep names x h)

module _ (decode : List ℕ → Option Text) where
  add-IsRegister :
      (steam name : Value) (names : Names)
      → IsRegister names
      → IsRegister (add_kill_known_name decode steam name names)
  unfolding add_kill_known_name
  add-IsRegister steam name names h =
      let id = trim (to_text (steam or_else str [])) in
      let clean = clean_kill_participant_name decode name in
      elim (Bool-cases (
        is_steam id
        && (truthy clean
            && (not (is_no_name clean)
                && ltb (text_quality (str (name_of id names))) (text_quality (str clean)))))) [
                  | inr e ↦ rw e h
                  | inl e ↦ rw e (
                      set_name-IsRegister id clean names
                        (unfold is_known in
                          admitted (is_steam id) (truthy clean) (not (is_no_name clean)) true
                            (text_quality (str (name_of id names))) (text_quality (str clean))
                            (name_of_least id names h.0) e)
                        h)
                ]

  add_role-IsRegister :
      (event : Props) (role : Role) (names : Names)
      → IsRegister names
      → IsRegister (add_role decode event role names)
  unfolding add_role
  add_role-IsRegister event role names h = add-IsRegister _ _ names h

  add_died-IsRegister :
      (found : Option Found) (names : Names)
      → IsRegister names
      → IsRegister (add_died decode found names)
  unfolding add_died
  add_died-IsRegister none names h = h
  add_died-IsRegister (some f) names h = add-IsRegister _ _ _ (add-IsRegister _ _ names h)

  add_listed-IsRegister :
      (names : Names) (f : Found) → IsRegister names → IsRegister (add_listed decode names f)
  unfolding add_listed
  add_listed-IsRegister names f h = add-IsRegister _ _ names h

  add_object-IsRegister :
      (names : Names) (event : Props)
      → IsRegister names
      → IsRegister (add_object decode names event)
  unfolding add_object
  add_object-IsRegister names event h =
      fold-IsRegister (add_listed decode) add_listed-IsRegister
        (matches_of listed (kill_raw_text event)) _
        (add_died-IsRegister (search died_line (kill_raw_text event)) _
          (add_role-IsRegister event victim _ (add_role-IsRegister event killer names h)))

  add_player-IsRegister :
      (names : Names) (player : Value)
      → IsRegister names
      → IsRegister (add_player decode names player)
  unfolding add_player
  add_player-IsRegister names player h = add-IsRegister _ _ names h

  -- Whatever the players and the rows are, the names that are kept have one entry for each id,
  -- each id is a Steam id, and each name says who it is and is better than none.
  pub known_names-IsRegister :
      (parse : Text → Option Value) (players rows : List Value)
      → IsRegister (collect_kill_known_names decode parse players rows)
  unfolding collect_kill_known_names
  known_names-IsRegister parse players rows =
      fold-IsRegister (add_object decode) add_object-IsRegister
        (map (λ row. props_of (parse_maybe_json parse row)) rows) _
        (fold-IsRegister (add_player decode) add_player-IsRegister players [] (tt, tt))
