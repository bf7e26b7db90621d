-- ===== src/KillFeed/Repair.antt =====
-- What the repair of a kill's participants changes.
use scum_ne_djin_release.Prelude.{
  ℕ, ◌≤◌, ◌≡◌, refl, ◌∙◌, Bool, true, false, not, ◌&&◌, ◌||◌, List, [], ◌∷◌, Option, ltb, leb,
  arith, All, Bool-cases, inl, inr,
}
use scum_ne_djin_release.Text.{Text, codes, ◌===◌, truthy, trim, text_ops}
use scum_ne_djin_release.Js.{Value, str, Props}
use scum_ne_djin_release.Js.Objects.{get, insert}
use scum_ne_djin_release.Js.Laws.{get-insert, get-insert_self}
use scum_ne_djin_release.Js.Convert.{is_true, ◌or_else◌, value_ops}
use scum_ne_djin_release.Players.Lookup.{exact_value, is_filled, value_from_keys}
use scum_ne_djin_release.Players.Inserts.{is_foreign, value_from_keys-insert}
use scum_ne_djin_release.KillFeed.{is_steam, text_quality}
use scum_ne_djin_release.KillFeed.Participants.{Role, killer, victim, by_role, text_from}
use scum_ne_djin_release.KillFeed.Known.{
  Names, name_of, collect_kill_known_names, steam_id_keys, known_name_keys, repaired_name,
  repair_role, repair_kill_event_participants,
}
use scum_ne_djin_release.KillFeed.Register.{is_known, known_names-IsRegister}

-- The name that a participant of an event has.
abbrev name_in : Props → Role → Value
name_in event role = value_from_keys event (known_name_keys role)

abbrev id_in : Props → Role → Text
id_in event role = text_from event (steam_id_keys role)

other_of : Role → Role
other_of killer = victim
other_of victim = killer

-- Keys that neither property which the repair of a role sets is among, in any case
Passes : Role → List Text → Type 0
Passes role ks =
    (is_foreign ks (by_role (codes "killer") (codes "victim") role) ≡ true)
    × (is_foreign ks (by_role (codes "killerName") (codes "victimName") role) ≡ true)

ids_pass : (role of : Role) → Passes role (steam_id_keys of)
unfolding Passes is_foreign steam_id_keys by_role text_ops
ids_pass killer killer = (refl, refl)
ids_pass killer victim = (refl, refl)
ids_pass victim killer = (refl, refl)
ids_pass victim victim = (refl, refl)

names_pass : (role : Role) → Passes role (known_name_keys (other_of role))
unfolding Passes is_foreign known_name_keys by_role text_ops other_of
names_pass killer = (refl, refl)
names_pass victim = (refl, refl)

value-repaired_name :
    (role : Role) (known : Text) (event : Props) (ks : List Text)
    → Passes role ks
    → value_from_keys (repaired_name role known event) ks ≡ value_from_keys event ks
unfolding repaired_name Passes
value-repaired_name role known event ks (h, k) =
    let whole = by_role (codes "killer") (codes "victim") role in
    let name = by_role (codes "killerName") (codes "victimName") role in
    elim (Bool-cases (is_true (get whole (insert name (str known) event)))) [
      | inl e ↦ rw e (
          value_from_keys-insert whole (str known) _ ks h
          ∙ value_from_keys-insert name (str known) event ks k)
      | inr e ↦ rw e (value_from_keys-insert name (str known) event ks k)
    ]

value-repair_role :
    (names : Names) (role : Role) (event : Props) (ks : List Text)
    → Passes role ks
    → value_from_keys (repair_role names role event) ks ≡ value_from_keys event ks
unfolding repair_role
value-repair_role names role event ks h =
    let known = name_of (text_from event (steam_id_keys role)) names in
    elim (Bool-cases (
      is_steam (id_in event role)
      && (truthy known
          && ltb (text_quality (name_in event role or_else str [])) (text_quality (str known))))) [
            | inl e ↦ rw e (value-repaired_name role known event ks h)
            | inr e ↦ rw e refl
          ]

-- The first key, if its value is not blank
first_value :
    (p : Props) (k : Text) (ks : List Text) (v : Value)
    → get k p ≡ v
    → is_filled v ≡ true
    → value_from_keys p (k ∷ ks) ≡ v
unfolding value_from_keys exact_value
first_value p k ks v e h = rw (e, h) refl

keys_apart :
    (role : Role)
    → by_role (codes "killer") (codes "victim") role
        === by_role (codes "killerName") (codes "victimName") role
      ≡ false
unfolding by_role text_ops
keys_apart killer = refl
keys_apart victim = refl

get-repaired_name :
    (role : Role) (known : Text) (event : Props)
    → get (by_role (codes "killerName") (codes "victimName") role) (repaired_name role known event)
      ≡ str known
unfolding repaired_name
get-repaired_name role known event =
    let whole = by_role (codes "killer") (codes "victim") role in
    let name = by_role (codes "killerName") (codes "victimName") role in
    elim (Bool-cases (is_true (get whole (insert name (str known) event)))) [
      | inl e ↦ rw e (
          get-insert whole name (str known) _ (keys_apart role)
          ∙ get-insert_self name (str known) event)
      | inr e ↦ rw e (get-insert_self name (str known) event)
    ]

own_name :
    (role : Role) (known : Text) (event : Props)
    → is_filled (str known) ≡ true
    → name_in (repaired_name role known event) role ≡ str known
unfolding known_name_keys by_role
own_name killer known event h = first_value _ _ _ _ (get-repaired_name killer known event) h
own_name victim known event h = first_value _ _ _ _ (get-repaired_name victim known event) h

or_empty_twice : (v : Value) → (v or_else str []) or_else str [] ≡ v or_else str []
unfolding value_ops
or_empty_twice v = elim (Bool-cases (is_true v)) [ inl e ↦ rw (e, e) refl | inr e ↦ rw e refl ]

quality-or_empty : (v : Value) → text_quality (v or_else str []) ≡ text_quality v
unfolding text_quality
quality-or_empty v = rw (or_empty_twice v) refl

-- A name of some quality is not blank.
good-is_filled : (s : Text) → ltb 20 (text_quality (str s)) ≡ true → is_filled (str s) ≡ true
unfolding text_quality is_filled value_ops
good-is_filled [] h = h
good-is_filled (c ∷ s) h = elim (Bool-cases (truthy (trim (c ∷ s)))) [
  | inl e ↦ e
  | inr e ↦ absurd (no_more (rw e at h))
]
  where
    no_more : ltb 20 20 ≡ true → ⊥
    no_more k = cc

false-ne-true : false ≡ true → ⊥
false-ne-true h = cc

-- A name that is found in the register is not blank.
found-is_filled :
    (id : Text) (names : Names)
    → All (λ e. is_known e ≡ true) names
    → truthy (name_of id names) ≡ true
    → is_filled (str (name_of id names)) ≡ true
unfolding name_of truthy
found-is_filled id [] all h = absurd (false-ne-true h)
found-is_filled id ((i, n) ∷ names) (a, all) h = elim (Bool-cases (i === id)) [
  | inl e ↦ rw e (good-is_filled n (unfold is_known in grind arith))
  | inr e ↦ rw e (found-is_filled id names all (rw e at h))
]

gains :
    (s t : Bool) (o k : ℕ)
    → s && (t && ltb o k) ≡ true
    → (o ≤ k) × ((not s || (not t || leb k k)) ≡ true)
gains s t o k h = (grind arith, grind arith)

stays :
    (s t : Bool) (o k : ℕ)
    → s && (t && ltb o k) ≡ false
    → (o ≤ o) × ((not s || (not t || leb k o)) ≡ true)
stays s t o k h = (omega arith, grind arith)

name-repair_role :
    (names : Names) (role : Role) (event : Props)
    → All (λ e. is_known e ≡ true) names
    → let known = name_of (id_in event role) names in
      let fixed = name_in (repair_role names role event) role in
      (text_quality (name_in event role) ≤ text_quality fixed)
      × ((not (is_steam (id_in event role))
            || (not (truthy known) || leb (text_quality (str known)) (text_quality fixed)))
          ≡ true)
unfolding repair_role
name-repair_role names role event all =
    let known = name_of (id_in event role) names in
    let old = name_in event role in
    elim (Bool-cases (
      is_steam (id_in event role)
      && (truthy known && ltb (text_quality (old or_else str [])) (text_quality (str known))))) [
        | inl e ↦
            let f = rw (quality-or_empty old) at e in
            let (g, t) = both (is_steam (id_in event role)) (truthy known) _ e in
            rw (e, own_name role known event (found-is_filled (id_in event role) names all t))
              (gains (is_steam (id_in event role)) (truthy known) (text_quality old)
                (text_quality (str known)) f)
        | inr e ↦
            let f = rw (quality-or_empty old) at e in
            rw e (
              stays (is_steam (id_in event role)) (truthy known) (text_quality old)
                (text_quality (str known)) f)
      ]
  where
    both : (a b c : Bool) → a && (b && c) ≡ true → (a ≡ true) × (b ≡ true)
    both a b c h = (grind arith, grind arith)

id-repair_role :
    (names : Names) (role of : Role) (event : Props)
    → id_in (repair_role names role event) of ≡ id_in event of
unfolding text_from
id-repair_role names role of event =
    rw (value-repair_role names role event (steam_id_keys of) (ids_pass role of)) refl

other-repair_role :
    (names : Names) (role : Role) (event : Props)
    → name_in (repair_role names role event) (other_of role) ≡ name_in event (other_of role)
other-repair_role names role event =
    value-repair_role names role event (known_name_keys (other_of role)) (names_pass role)

-- What the repair does for a participant: the id stays, the name is no worse than before, and no
-- worse than the one that a Steam id is known under.
abbrev pub IsRepaired : Names → Props → Props → Role → Type 0
IsRepaired names event fixed role =
    (id_in fixed role ≡ id_in event role)
    × (text_quality (name_in event role) ≤ text_quality (name_in fixed role))
    × ((not (is_steam (id_in event role))
          || (not (truthy (name_of (id_in event role) names))
              || leb (text_quality (str (name_of (id_in event role) names)))
                  (text_quality (name_in fixed role))))
        ≡ true)

repair-IsRepaired :
    (names : Names) (event : Props) (role : Role)
    → All (λ e. is_known e ≡ true) names
    → IsRepaired names event (repair_kill_event_participants names event) role
unfolding repair_kill_event_participants other_of
repair-IsRepaired names event killer all =
    let once = repair_role names killer event in
    rw
      (
        id-repair_role names victim killer once,
        id-repair_role names killer killer event,
        other-repair_role names victim once,
      )
      (let (p, q) = name-repair_role names killer event all in (refl, p, q))
repair-IsRepaired names event victim all =
    let once = repair_role names killer event in
    rw
      (
        id-repair_role names victim victim once,
        ← id-repair_role names killer victim event,
        ← other-repair_role names killer event,
      )
      (let (p, q) = name-repair_role names victim once all in (refl, p, q))

-- Whatever the players, the rows and the event are, the repair keeps the ids of both participants,
-- and gives each a name that is no worse than the one before, nor than the name that its Steam id
-- is known under.
pub repair_lem :
    (decode : List ℕ → Option Text) (parse : Text → Option Value) (players rows : List Value)
    (event : Props) (role : Role)
    → IsRepaired
        (collect_kill_known_names decode parse players rows)
        event
        (repair_kill_event_participants (collect_kill_known_names decode parse players rows) event)
        role
repair_lem decode parse players rows event role =
    repair-IsRepaired _ event role (known_names-IsRegister decode parse players rows).0
