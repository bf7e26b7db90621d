-- ===== src/Players/Laws.antt =====
-- What is shown as a player, and that an action reaches the player it is about.
use scum_ne_djin_release.Prelude.{
  ℕ, ◌≡◌, refl, sym, ap, ◌∙◌, Bool, true, false, ◌&&◌, ◌||◌, List, [], ◌∷◌, ◌++◌, Option, none,
  some, find, Bool-cases, Option-cases, inl, inr, arith, subst, All, ◌⊎◌, map,
}
use scum_ne_djin_release.Text.{Text, codes, ◌===◌, truthy, has, trim, lower, ◌orelse◌}
use scum_ne_djin_release.Text.Laws.{===_refl, ===_sound}
use scum_ne_djin_release.Js.{Value, null, bool, str, Props}
use scum_ne_djin_release.Js.Objects.{get, keys}
use scum_ne_djin_release.Js.Laws.{lookup-insert}
use scum_ne_djin_release.Js.Convert.{is_true, to_text, ◌or_else◌}
use scum_ne_djin_release.Players.{
  is_placeholder_player_name, clean_of, is_runtime_only_player, is_renderable_player,
  with_live_name, normalize_player_for_display, name_keys, pick, steam_keys, profile_keys,
  runtime_keys,
}
use scum_ne_djin_release.Players.Target.{
  set_selected_player_target, target_input, modal_target_body, selected_player_body, is_text,
  given_or, player_target_body, service_target_player, normalize_target_text, body_of, is_target,
  service_target_body, find_player_by_identity, live_of,
}
use scum_ne_djin_release.Players.Lookup.{
  is_filled, exact_value, value_at_key, loose_value, value_from_keys, exact_or, or_empty, last_key,
}

runtime_mark : (p : Props) (i : ℕ) → get (codes "runtimeOnly") (with_live_name p i) ≡ bool true
unfolding with_live_name get ◌===◌
runtime_mark p i = simp (lookup-insert)

other_key :
    (k : Text) (p : Props) (i : ℕ)
    → codes "identitySource" === k ≡ false
    → codes "runtimeOnly" === k ≡ false
    → codes "name" === k ≡ false
    → get k (with_live_name p i) ≡ get k p
unfolding with_live_name get
other_key k p i h j l = simp (lookup-insert, h, j, l)

live-steam : (p : Props) (i : ℕ) → clean_of (with_live_name p i) steam_keys ≡ clean_of p steam_keys
unfolding clean_of pick ◌===◌
live-steam p i =
    rw
      (
        other_key (codes "steamId") p i refl refl refl,
        other_key (codes "SteamId") p i refl refl refl,
        other_key (codes "steam") p i refl refl refl,
      )
      refl

live-profile :
    (p : Props) (i : ℕ) → clean_of (with_live_name p i) profile_keys ≡ clean_of p profile_keys
unfolding clean_of pick ◌===◌
live-profile p i =
    rw
      (
        other_key (codes "userProfileId") p i refl refl refl,
        other_key (codes "serverUserProfileId") p i refl refl refl,
        other_key (codes "profileId") p i refl refl refl,
        other_key (codes "ProfileId") p i refl refl refl,
      )
      refl

live-is_renderable : (p : Props) (i : ℕ) → is_renderable_player (with_live_name p i) ≡ true
unfolding is_renderable_player is_runtime_only_player is_true
live-is_renderable p i = rw (runtime_mark p i) (ground arith)

some_inj : {x y : Props} → some x ≡ some y → x ≡ y
some_inj h = cc

Shown : Props → Props → Type 0
Shown p q =
    (is_renderable_player q ≡ true)
    × (clean_of q steam_keys ≡ clean_of p steam_keys)
    × (clean_of q profile_keys ≡ clean_of p profile_keys)

-- A player that gets a name for display keeps its Steam and profile ids, and is still one that is
-- shown; the others are shown as they are.
pub normalize-is_renderable :
    (p : Props) (i : ℕ) (q : Props)
    → normalize_player_for_display p i ≡ some q
    → (is_renderable_player q ≡ true)
      × (clean_of q steam_keys ≡ clean_of p steam_keys)
      × (clean_of q profile_keys ≡ clean_of p profile_keys)
unfolding normalize_player_for_display Shown
normalize-is_renderable p i q h = elim (Bool-cases (is_renderable_player p)) [
  | inl e ↦
      elim (Bool-cases
        (is_placeholder_player_name (str (clean_of p name_keys)) && is_runtime_only_player p)) [
          | inl f ↦
              subst (Shown p) (some_inj (rw (e, f) at h))
                (live-is_renderable p i, live-steam p i, live-profile p i)
          | inr f ↦ subst (Shown p) (some_inj (rw (e, f) at h)) (e, refl, refl)
        ]
  | inr e ↦ cc
]

falsy_find : (f : Props → Bool) (players : List Props) → find (λ p. false && f p) players ≡ none
falsy_find f [] = refl
falsy_find f (p ∷ ps) = falsy_find f ps

-- The body of a service request names the player that the service form shows for the same text.
pub service_body-service_player :
    (players : List Props) (input : Text)
    → service_target_body players input
      ≡ body_of (normalize_target_text (trim input)) (service_target_player players input)
unfolding service_target_body service_target_player player_target_body
service_body-service_player players input =
    elim (Bool-cases (truthy (normalize_target_text (trim input)))) [
      | inl e ↦ rw e refl
      | inr e ↦ rw e (
          ap (body_of (normalize_target_text (trim input)))
            (falsy_find (is_target (normalize_target_text (trim input))) players))
    ]

first_true_text :
    (s r : Text) (v : Value)
    → truthy (s orelse r) ≡ true
    → (str s or_else (str r or_else v)) ≡ str (s orelse r)
unfolding ◌or_else◌ is_true ◌orelse◌ truthy
first_true_text [] r v h = rw h refl
first_true_text (c ∷ s) r v h = refl

text_first : (t : Text) (v : Value) → truthy t ≡ true → to_text (str t or_else v) ≡ t
unfolding ◌or_else◌ is_true to_text
text_first t v h = rw h refl

-- What a request carries for a field: the given text, or what the player has, or null.
abbrev pub field_of : Text → Props → List Text → Value
field_of s live ks = str s or_else (pick live ks (str []) or_else null)

given-field :
    (s : Text) (live : Props) (ks : List Text)
    → given_or s live ks or_else null ≡ field_of s live ks
unfolding given_or ◌or_else◌ is_true truthy
given-field [] live ks = elim (Bool-cases (is_true (pick live ks (str [])))) [
  | inl e ↦ rw (e, e) refl
  | inr e ↦ rw e refl
]
given-field (c ∷ s) live ks = refl

modal-selected :
    (before after : List Props) (steam name runtime profile : Text) (player : Option Props)
    → truthy (steam orelse name) ≡ true
    → trim (steam orelse name) ≡ steam orelse name
    → let s = set_selected_player_target before steam name runtime profile player in
      modal_target_body after (some s) (target_input s) ≡ selected_player_body s
unfolding modal_target_body target_input set_selected_player_target given_or is_text
modal-selected before after steam name runtime profile player h k =
    let live = live_of (find_player_by_identity before steam name runtime) player in
    rw
      (
        first_true_text steam name (pick live (steam_keys ++ name_keys) (str []) or_else str []) h,
        text_first (steam orelse name) _ h,
        k,
        ===_refl (steam orelse name),
      )
      refl

-- After a player is selected by a Steam id or else a name, which is not empty and has no blanks
-- around it, an action whose target field still holds what the selection wrote there carries the
-- Steam id, the name, the runtime key and the profile id that the selection was given; for each
-- that is empty it carries that of the player who was found online then or was given, or null.
-- Who is online at the time of the action does not matter.
pub selected_action :
    (before after : List Props) (steam name runtime profile : Text) (player : Option Props)
    → truthy (steam orelse name) ≡ true
    → trim (steam orelse name) ≡ steam orelse name
    → let live = live_of (find_player_by_identity before steam name runtime) player in
      let s = set_selected_player_target before steam name runtime profile player in
      let body = modal_target_body after (some s) (target_input s) in
      (body.who.steam_id ≡ field_of steam live steam_keys)
      × (body.who.name ≡ field_of name live name_keys)
      × (body.who.runtime_key ≡ field_of runtime live runtime_keys)
      × (body.profile_id ≡ some (field_of profile live profile_keys))
unfolding selected_player_body set_selected_player_target
selected_action before after steam name runtime profile player h k =
    let live = live_of (find_player_by_identity before steam name runtime) player in
    rw (modal-selected before after steam name runtime profile player h k) (
      given-field steam live steam_keys,
      given-field name live name_keys,
      given-field runtime live runtime_keys,
      ap some (given-field profile live profile_keys),
    )

Found : Props → List Text → Value → Type 0
Found p ks v =
    (is_filled v ≡ true) × (k : Text) × (v ≡ get k p) × (has (map lower ks) (lower k) ≡ true)

some_value : {x y : Value} → some x ≡ some y → x ≡ y
some_value h = cc

Found-here :
    (p : Props) (k : Text) (ks : List Text)
    → is_filled (get k p) ≡ true
    → Found p (k ∷ ks) (get k p)
unfolding has Found
Found-here p k ks h = (h, k, refl, rw (===_refl (lower k)) refl)

or_right : (a b : Bool) → b ≡ true → (a || b) ≡ true
or_right a b h = grind arith

Found-later :
    (p : Props) (k : Text) (ks : List Text) (v : Value) → Found p ks v → Found p (k ∷ ks) v
unfolding has Found
Found-later p k ks v (h, j, e, m) = (h, j, e, or_right _ _ m)

exact-Found : (p : Props) (ks : List Text) (v : Value) → exact_value ks p ≡ some v → Found p ks v
unfolding exact_value
exact-Found p [] v h = absurd cc
exact-Found p (k ∷ ks) v h = elim (Bool-cases (is_filled (get k p))) [
  | inl e ↦ subst (Found p (k ∷ ks)) (some_value (rw e at h)) (Found-here p k ks e)
  | inr e ↦ Found-later p k ks v (exact-Found p ks v (rw e at h))
]

pub last_key-has :
    (wanted : Text) (ks : List Text) (k : Text)
    → last_key wanted ks ≡ some k
    → lower k === wanted ≡ true
unfolding last_key
last_key-has wanted [] k h = absurd cc
last_key-has wanted (j ∷ ks) k h = ground (arith, last_key-has wanted ks k)

value_at_key-Found :
    (p : Props) (k j : Text) (v : Value)
    → lower j === lower k ≡ true
    → (ks : List Text) → value_at_key (some j) p ≡ some v
    → Found p (k ∷ ks) v
unfolding value_at_key has Found
value_at_key-Found p k j v e ks h = elim (Bool-cases (is_filled (get j p))) [
  | inl f ↦ elim (Bool-cases (truthy j)) [
    | inl t ↦
        let same = some_value (rw (f, t) at h) in
        (
          subst (λ x. is_filled x ≡ true) same f,
          j,
          sym same,
          rw (===_sound (lower j) (lower k) e, ===_refl (lower k)) refl,
        )
    | inr t ↦ cc
  ]
  | inr f ↦ ground arith
]

loose-Found : (p : Props) (ks : List Text) (v : Value) → loose_value ks p ≡ some v → Found p ks v
unfolding loose_value
loose-Found p [] v h = absurd cc
loose-Found p (k ∷ ks) v h = elim (Option-cases (last_key (lower k) (keys p))) [
  | inl e ↦ Found-later p k ks v (loose-Found p ks v (rw (e, value_at_key) at h))
  | inr (j, e) ↦ elim (Option-cases (value_at_key (some j) p)) [
    | inl f ↦ Found-later p k ks v (loose-Found p ks v (rw (e, f) at h))
    | inr (w, f) ↦
        value_at_key-Found p k j v (last_key-has (lower k) (keys p) j e) ks (f ∙ (rw (e, f) at h))
  ]
]

exact_none :
    (p : Props) (ks : List Text)
    → exact_value ks p ≡ none
    → All (λ k. is_filled (get k p) ≡ false) ks
unfolding exact_value
exact_none p [] h = tt
exact_none p (k ∷ ks) h = elim (Bool-cases (is_filled (get k p))) [
  | inl e ↦ cc
  | inr e ↦ (e, exact_none p ks (rw e at h))
]

-- The value that is found under a list of keys is one that is not blank, under a key that is in
-- the list up to case; it is '' only if no key of the list, as written, has such a value.
pub value_from_keys_lem :
    (p : Props) (ks : List Text)
    → ((value_from_keys p ks ≡ str []) × All (λ k. is_filled (get k p) ≡ false) ks)
      ⊎ ((is_filled (value_from_keys p ks) ≡ true)
          × (k : Text) × (value_from_keys p ks ≡ get k p)
          × (has (map lower ks) (lower k) ≡ true))
unfolding value_from_keys exact_or or_empty Found
value_from_keys_lem p ks = elim (Option-cases (exact_value ks p)) [
  | inl e ↦ elim (Option-cases (loose_value ks p)) [
    | inl f ↦ rw (e, f) (inl (refl, exact_none p ks e))
    | inr (v, f) ↦ rw (e, f) (inr (loose-Found p ks v f))
  ]
  | inr (v, e) ↦ rw e (inr (exact-Found p ks v e))
]
