-- ===== src/KillFeed/Participants.antt =====
-- Who killed whom: `killTextParticipant`, `killParticipantIdentity`, `killIdentitiesMatch`,
-- `killHasParticipant`, `killIsSelfOrDeath` and `killParticipantsLookSame` of
-- src/ScumWarden.Server/wwwroot/app.js.
use scum_ne_djin_release.Prelude.{
  ℕ, Bool, true, false, not, ◌&&◌, ◌||◌, List, [], ◌∷◌, map, Option, none, some, if◌then◌else◌, any,
  filter,
}
use scum_ne_djin_release.Text.{Text, codes, ◌===◌, truthy, trim, lower, includes, has}
use scum_ne_djin_release.Text.Fresh.{fresh_by}
use scum_ne_djin_release.Js.{Value, str, Props}
use scum_ne_djin_release.Js.Regex.{
  Regex, at_start, at_end, group, search, group_of, lit, word, any_of, all_of, plus, maybe,
  lazy_plus, many, blanks, blanks1, dot, none_of, one_of,
}
use scum_ne_djin_release.Js.Convert.{to_text, ◌or_else◌}
use scum_ne_djin_release.Players.{pick}
use scum_ne_djin_release.Players.Lookup.{value_from_keys}
use scum_ne_djin_release.Scheduler.{squeeze}
use scum_ne_djin_release.KillFeed.{
  kill_event_text_blob, kill_type, clean_kill_participant_name, normalized_kill_identity,
}

pub data Role : Type 0 where
  killer victim : Role

unfoldable pub by_role {ℓ} : {A : Type ℓ} → A → A → Role → A
by_role k v killer = k
by_role k v victim = v

-- `(?:^|\])\s*(.+?)`
abbrev first_name : Regex
first_name =
    all_of (any_of (at_start ∷ lit (codes "]") ∷ []) ∷ blanks ∷ group 1 (lazy_plus dot) ∷ [])

-- `\s+\[|,\s*Weapon|,\s*Distance|$`
abbrev other_ends : List Regex
other_ends =
    all_of (blanks1 ∷ lit (codes "[") ∷ [])
    ∷ all_of (lit (codes ",") ∷ blanks ∷ word (codes "Weapon") ∷ [])
    ∷ all_of (lit (codes ",") ∷ blanks ∷ word (codes "Distance") ∷ [])
    ∷ at_end
    ∷ []

abbrev spaced : Text → Regex
spaced s = all_of (blanks1 ∷ word s ∷ blanks1 ∷ [])

abbrev killed_russian : Regex
killed_russian = all_of (
    first_name
    ∷ blanks1
    ∷ word (codes "убил")
    ∷ maybe (word (codes "а"))
    ∷ blanks1
    ∷ group 2 (lazy_plus dot)
    ∷ any_of (spaced (codes "с") ∷ spaced (codes "из") ∷ other_ends)
    ∷ [])

abbrev quote_mark : Regex
quote_mark = maybe (one_of (codes "'\""))

abbrev unquoted : Regex
unquoted = lazy_plus (none_of (codes "'\""))

abbrev killed_by : Regex
killed_by = all_of (
    quote_mark
    ∷ group 1 unquoted
    ∷ quote_mark
    ∷ blanks1
    ∷ word (codes "was killed by")
    ∷ blanks1
    ∷ quote_mark
    ∷ group 2 unquoted
    ∷ quote_mark
    ∷ any_of (at_end ∷ all_of (blanks1 ∷ []) ∷ one_of (codes ",.") ∷ [])
    ∷ [])

abbrev killed_english : Regex
killed_english = all_of (
    first_name
    ∷ spaced (codes "killed")
    ∷ group 2 (lazy_plus dot)
    ∷ any_of (spaced (codes "with") ∷ other_ends)
    ∷ [])

-- `killer\s*[:=]\s*([^,\]|]+)`
abbrev labelled : Text → ℕ → Regex
labelled label n = all_of (
    word label
    ∷ blanks
    ∷ one_of (codes ":=")
    ∷ blanks
    ∷ group n (plus (none_of (codes ",]|")))
    ∷ [])

abbrev labels : Regex
labels = all_of (labelled (codes "killer") 1 ∷ many false dot ∷ labelled (codes "victim") 2 ∷ [])

-- The patterns in order, each with the groups of the killer and of the victim.
abbrev kill_patterns : List (Regex × ℕ × ℕ)
kill_patterns =
    (killed_russian, 1, 2) ∷ (killed_by, 2, 1) ∷ (killed_english, 1, 2) ∷ (labels, 1, 2) ∷ []

first_participant : Role → Text → List (Regex × ℕ × ℕ) → Option Text
first_participant role s [] = none
first_participant role s ((r, k, v) ∷ patterns) = elim (search r s) [
  | none ↦ first_participant role s patterns
  | some f ↦ some (trim (group_of (by_role k v role) f))
]

abbrev id_keys : Role → List Text
id_keys role =
    by_role
      (codes "killerSteamId"
        ∷ codes "attackerSteamId"
        ∷ codes "killerUserId"
        ∷ codes "attackerUserId"
        ∷ codes "killerUserProfileId"
        ∷ codes "killerProfileId"
        ∷ codes "killerDbId"
        ∷ [])
      (codes "victimSteamId"
        ∷ codes "targetSteamId"
        ∷ codes "victimUserId"
        ∷ codes "targetUserId"
        ∷ codes "victimUserProfileId"
        ∷ codes "victimProfileId"
        ∷ codes "victimDbId"
        ∷ [])
      role

abbrev role_name_keys : Role → List Text
role_name_keys role =
    by_role
      (codes "killerName"
        ∷ codes "killer"
        ∷ codes "attackerName"
        ∷ codes "attacker"
        ∷ codes "sourceName"
        ∷ [])
      (codes "victimName" ∷ codes "victim" ∷ codes "targetName" ∷ codes "target" ∷ []) role

-- `/^(npc|unknown|none|null|0)$/i`
unfoldable pub is_no_id : Text → Bool
is_no_id s =
    has (codes "npc" ∷ codes "unknown" ∷ codes "none" ∷ codes "null" ∷ codes "0" ∷ []) (lower s)

-- `String(valueFromKeys(event, keys) || '').trim()`
unfoldable pub text_from : Props → List Text → Text
text_from event ks = trim (to_text (value_from_keys event ks or_else str []))

unfoldable pub kill_ids : Props → Role → List Text
kill_ids event role =
    fresh_by (λ id. id) (λ id. false) []
      (filter (λ id. truthy id && not (is_no_id id))
        (map (λ k. text_from event (k ∷ [])) (id_keys role)))

pub record KillIdentity : Type 0 where
  pub ids : List Text
  pub name : Text

unfoldable pub has_kill_identity : KillIdentity → Bool
has_kill_identity i = any (λ id. true) i.ids || truthy i.name

unfoldable pub same_identity : KillIdentity → KillIdentity → Bool
same_identity a b =
    any (λ id. has b.ids id) a.ids || (truthy a.name && (truthy b.name && (a.name === b.name)))

module _ (decode : List ℕ → Option Text) where
  named_participant : Option Text → Text
  named_participant none = []
  named_participant (some s) = clean_kill_participant_name decode (str s)

  unfoldable pub kill_text_participant : Props → Role → Text
  unfolding named_participant first_participant
  kill_text_participant event role =
      let text = trim (
        squeeze false (
          to_text (
            pick event
              (codes "message"
                ∷ codes "broadcastMessage"
                ∷ codes "raw"
                ∷ codes "text"
                ∷ codes "line"
                ∷ [])
              (str [])
            or_else str (kill_event_text_blob event)))) in
      if truthy text then named_participant (first_participant role text kill_patterns) else []

  -- `valueFromKeys(event, nameKeys) || killTextParticipant(event, role)`
  unfoldable pub participant_value : Props → Role → Value
  participant_value event role =
      value_from_keys event (role_name_keys role) or_else str (kill_text_participant event role)

  unfoldable pub kill_participant_identity : Props → Role → KillIdentity
  kill_participant_identity event role = record {
    ids = kill_ids event role;
    name = normalized_kill_identity decode (participant_value event role);
  }

  unfoldable pub kill_identities_match : Props → Props → Role → Bool
  kill_identities_match a b role =
      same_identity (kill_participant_identity a role) (kill_participant_identity b role)

  unfoldable pub kill_has_participant : Props → Role → Bool
  kill_has_participant event role = has_kill_identity (kill_participant_identity event role)

  unfoldable pub kill_is_self_or_death : Props → Bool
  kill_is_self_or_death event =
      includes (kill_type event) (codes "death")
      || (kill_identities_match event event killer
          && (kill_identities_match event event victim
              && any (λ id. has (kill_ids event victim) id) (kill_ids event killer)))

  unfoldable pub kill_participants_look_same : Props → Props → Bool
  kill_participants_look_same left right =
      kill_identities_match left right victim
      && (kill_identities_match left right killer
          || (not (kill_has_participant left killer)
              || (not (kill_has_participant right killer)
                  || (kill_is_self_or_death left || kill_is_self_or_death right))))
