-- ===== src/Scheduler/Laws.antt =====
-- The limits of a scheduler that is saved.
use scum_ne_djin_release.Prelude.{
  ℕ, ◌≤◌, ◌≡◌, refl, Bool, true, false, List, [], ◌∷◌, some, Bool-cases, Option-cases, find,
  find-eq-some, ◌||◌, inl, inr, arith,
}
use scum_ne_djin_release.Text.{Text, codes, ◌===◌, lower, lower_unit, has}
use scum_ne_djin_release.Text.Laws.{===_sound, ===_refl}
use scum_ne_djin_release.Js.{Value, undefined, null, bool, num, str, arr, obj, Props}
use scum_ne_djin_release.Js.Numbers.{Number, int, at_least, at_most}
use scum_ne_djin_release.Js.Objects.{get, find_key, keys}
use scum_ne_djin_release.Js.Numbers.Bounds.{InRange, at_least-below, at_most-InRange}
use scum_ne_djin_release.Nested.{write_key}
use scum_ne_djin_release.Js.Laws.{get-insert, get-insert_self}
use scum_ne_djin_release.Js.Convert.{to_number, to_text, ◌or_else◌}
use scum_ne_djin_release.Scheduler.{
  clamp, clamp_at, scheduler_mode, scheduler_value, scheduler_array_key, scheduler_modes,
  mode_or_command, set_jobs, poll_key, runs_key, normalize_scheduler_config_for_save,
}

clamp-InRange : (lo hi : ℕ) (n : Number) → lo ≤ hi → InRange lo hi (clamp lo hi n)
unfolding clamp
clamp-InRange lo hi n h = elim (at_least-below lo n) [
  | inl e ↦ rw e (unfold at_most in inl refl)
  | inr e ↦ at_most-InRange lo hi (at_least lo n) h e
]

some_inj : {j k : Text} → some j ≡ some k → j ≡ k
some_inj h = cc

same_text : (ks : List Text) {j k : Text} → j ≡ k → has (j ∷ ks) k ≡ true
unfolding has
same_text ks {k = k} h = rw (h, ===_refl k) refl

find-has : (f : Text → Bool) (ks : List Text) (k : Text) → find f ks ≡ some k → has ks k ≡ true
unfolding has
find-has f [] k h = absurd cc
find-has f (j ∷ ks) k h = elim (Bool-cases (f j)) [
  | inl e ↦ same_text ks (some_inj (rw e at h))
  | inr e ↦ later (j === k) (has ks k) (find-has f ks k (rw e at h))
]
  where
    later : (a b : Bool) → b ≡ true → (a || b) ≡ true
    later a b h = grind arith

-- A job runs in one of the four modes, whatever its row holds.
pub scheduler_mode_known : (row : Props) → has scheduler_modes (scheduler_mode row) ≡ true
unfolding scheduler_mode mode_or_command
scheduler_mode_known row =
    let wanted = lower (
      to_text (
        scheduler_value row (codes "Mode") (str (codes "Command"))
        or_else str (codes "Command"))) in
    elim (Option-cases (find (λ k. lower k === wanted) scheduler_modes)) [
      | inl e ↦ rw e (unfold has ◌===◌ in refl)
      | inr (k, e) ↦ rw e (find-has (λ k. lower k === wanted) scheduler_modes k e)
    ]

write_key-lower : (w : Text) (p : Props) → lower (write_key w p) ≡ lower w
unfolding write_key find_key
write_key-lower w p = elim (Option-cases (find_key (lower w) p)) [
  | inl e ↦ rw e refl
  | inr (k, e) ↦
      rw e (===_sound (lower k) (lower w) (find-eq-some (λ j. lower j === lower w) (keys p) k e))
]

apart :
    (a b w x : Text)
    → lower a ≡ lower w
    → lower b ≡ lower x
    → lower w === lower x ≡ false
    → a === b ≡ false
apart a b w x h k d = elim (Bool-cases (a === b)) [
  | inl e ↦ absurd (cc (===_sound a b e, h, k, d, ===_refl (lower w)))
  | inr e ↦ e
]

get-set_jobs :
    (k j : Text) (v : Value) (p : Props) → k === j ≡ false → get j (set_jobs k v p) ≡ get j p
unfolding set_jobs
get-set_jobs k j undefined p h = refl
get-set_jobs k j null p h = refl
get-set_jobs k j (bool b) p h = refl
get-set_jobs k j (num n) p h = refl
get-set_jobs k j (str s) p h = refl
get-set_jobs k j (arr vs) p h = get-insert k j _ p h
get-set_jobs k j (obj fs) p h = refl

clamped :
    (k : Text) (d lo hi : ℕ) (p : Props)
    → lo ≤ hi
    → InRange lo hi (to_number (get k (clamp_at k d lo hi p)))
unfolding clamp_at to_number
clamped k d lo hi p h =
    rw (get-insert_self k (num (clamp lo hi (to_number (get k p or_else num (int d))))) p)
      (clamp-InRange lo hi _ h)

-- The interval between two looks at the schedule and the runs per look are in their limits in a
-- saved configuration, unless they are not numbers.
pub scheduler_limits :
    (config : Props)
    → let q = normalize_scheduler_config_for_save config in
      InRange 5000 600000 (to_number (get (poll_key config) q))
      × InRange 1 10 (to_number (get (runs_key config) q))
unfolding normalize_scheduler_config_for_save poll_key runs_key scheduler_array_key
scheduler_limits config =
    let poll = write_key (codes "PollIntervalMs") config in
    let runs = write_key (codes "MaxRunsPerTick") config in
    let timed = clamp_at poll 15000 5000 600000 config in
    let p = clamp_at runs 1 1 10 timed in
    let jobs = write_key (codes "Jobs") p in
    let a = write_key-lower (codes "PollIntervalMs") config in
    let b = write_key-lower (codes "MaxRunsPerTick") config in
    let c = write_key-lower (codes "Jobs") p in
    (
      rw
          (
            get-set_jobs jobs poll (get jobs p) p
                (apart jobs poll _ _ c a (unfold lower lower_unit ◌===◌ in refl)),
            clamp_at_other runs poll 1 1 10 timed
                (apart runs poll _ _ b a (unfold lower lower_unit ◌===◌ in refl)),
          )
          (clamped poll 15000 5000 600000 config (omega arith)),
      rw
          (get-set_jobs jobs runs (get jobs p) p
            (apart jobs runs _ _ c b (unfold lower lower_unit ◌===◌ in refl)))
          (clamped runs 1 1 10 timed (omega arith)),
    )
  where
    clamp_at_other :
        (k j : Text) (d lo hi : ℕ) (p : Props)
        → k === j ≡ false
        → get j (clamp_at k d lo hi p) ≡ get j p
    clamp_at_other k j d lo hi p h = unfold clamp_at in get-insert k j _ p h
