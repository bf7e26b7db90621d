-- ===== src/Modules/Laws.antt =====
-- What is ensured of the list of modules.
use scum_ne_djin_release.Prelude.{
  ◌≡◌, refl, subst, true, List, [], ◌∷◌, ◌++◌, map, if◌then◌else◌, Bool-cases, inl, inr, arith, All,
}
use scum_ne_djin_release.Text.{Text, codes, has, ◌===◌, text_ops}
use scum_ne_djin_release.Text.Laws.{===_refl, ===_sound}
use scum_ne_djin_release.Js.{Props}
use scum_ne_djin_release.Js.Convert.{value_ops}
use scum_ne_djin_release.Modules.{
  key_of, fallback_module, push_unless, add_fallbacks, ensure_panel_modules,
}
use scum_ne_djin_release.Modules.Defaults.{
  daily_pack_module, battlepass_module, scheduled_events_module,
}
use scum_ne_djin_release.Modules.Fallbacks.{Fallback, lightweight_fallbacks}

-- A module of the list has the key, in lower case.
unfoldable pub Lists : Text → List Props → Type 0
Lists k ms = has (map key_of ms) k ≡ true

Lists-append : (k : Text) (ms : List Props) (m : Props) → Lists k ms → Lists k (ms ++ (m ∷ []))
unfolding Lists has
Lists-append k [] m h = absurd cc
Lists-append k (n ∷ ms) m h = elim (Bool-cases (key_of n === k)) [
  | inl e ↦ rw e refl
  | inr e ↦ rw e (Lists-append k ms m (rw e at h))
]

Lists-last : (ms : List Props) (m : Props) → Lists (key_of m) (ms ++ (m ∷ []))
unfolding Lists has
Lists-last [] m = rw (===_refl (key_of m)) refl
Lists-last (n ∷ ms) m = rw (Lists-last ms m) (grind arith)

Lists-push :
    (k j : Text) (known : List Text) (m : Props) (ms : List Props)
    → Lists k ms
    → Lists k (push_unless known j m ms)
unfolding push_unless
Lists-push k j known m ms h = elim (Bool-cases (has known j)) [
  | inl e ↦ rw e h
  | inr e ↦ rw e (Lists-append k ms m h)
]

-- Every known key is one of a module of the list.
Covers : List Props → List Text → Type 0
Covers ms known = (k : Text) → has known k ≡ true → Lists k ms

Lists-pushed :
    (known : List Text) (m : Props) (ms : List Props)
    → Covers ms known
    → Lists (key_of m) (push_unless known (key_of m) m ms)
unfolding push_unless Covers
Lists-pushed known m ms h = elim (Bool-cases (has known (key_of m))) [
  | inl e ↦ rw e (h (key_of m) e)
  | inr e ↦ rw e (Lists-last ms m)
]

Lists-fallbacks :
    (k : Text) (fs : List Fallback) (known : List Text) (ms : List Props)
    → Lists k ms
    → Lists k (add_fallbacks fs known ms)
unfolding add_fallbacks
Lists-fallbacks k [] known ms h = h
Lists-fallbacks k (f ∷ fs) known ms h =
    Lists-fallbacks k fs _ _ (Lists-push k f.key known (fallback_module f) ms h)

Covers-more :
    (f : Fallback) (known : List Text) (ms : List Props)
    → key_of (fallback_module f) ≡ f.key
    → Covers ms known
    → Covers
        (push_unless known f.key (fallback_module f) ms)
        (if has known f.key then known else f.key ∷ known)
unfolding Covers has
Covers-more f known ms h c k e = elim (Bool-cases (has known f.key)) [
  | inl t ↦ Lists-push k f.key known (fallback_module f) ms (c k (rw (has, t) at e))
  | inr t ↦ elim (Bool-cases (f.key === k)) [
    | inl same ↦
        subst (λ j. Lists j (push_unless known f.key (fallback_module f) ms))
          (===_sound f.key k same)
          (subst (λ j. Lists j (push_unless known j (fallback_module f) ms)) h
            (Lists-pushed known (fallback_module f) ms c))
    | inr other ↦ Lists-push k f.key known (fallback_module f) ms (c k (rw (has, t, other) at e))
  ]
]

fallbacks_listed :
    (fs : List Fallback) (known : List Text) (ms : List Props)
    → All (λ f. key_of (fallback_module f) ≡ f.key) fs
    → Covers ms known
    → All (λ k. Lists k (add_fallbacks fs known ms)) (map (λ f. f.key) fs)
unfolding add_fallbacks
fallbacks_listed [] known ms h c = tt
fallbacks_listed (f ∷ fs) known ms (e, h) c = (
  Lists-fallbacks f.key fs _ _ (
      subst (λ j. Lists j (push_unless known j (fallback_module f) ms)) e
        (Lists-pushed known (fallback_module f) ms c)),
  fallbacks_listed fs _ _ h (Covers-more f known ms e c),
)

fallbacks_idle :
    (fs : List Fallback) (known : List Text) (ms : List Props)
    → All (λ k. has known k ≡ true) (map (λ f. f.key) fs)
    → add_fallbacks fs known ms ≡ ms
unfolding add_fallbacks push_unless
fallbacks_idle [] known ms h = refl
fallbacks_idle (f ∷ fs) known ms (e, h) = rw e (fallbacks_idle fs known ms h)

abbrev pub panel_keys : List Text
panel_keys =
    codes "daily-pack"
    ∷ codes "battlepass"
    ∷ codes "scheduled-events"
    ∷ map (λ f. f.key) lightweight_fallbacks

fallback_keys : All (λ f. key_of (fallback_module f) ≡ f.key) lightweight_fallbacks
unfolding text_ops value_ops key_of fallback_module
fallback_keys = (refl, (refl, (refl, (refl, (refl, (refl, (refl, (refl, tt))))))))

daily_key : key_of daily_pack_module ≡ codes "daily-pack"
unfolding text_ops value_ops key_of
daily_key = refl

battlepass_key : key_of battlepass_module ≡ codes "battlepass"
unfolding text_ops value_ops key_of
battlepass_key = refl

scheduler_key : key_of scheduled_events_module ≡ codes "scheduled-events"
unfolding text_ops value_ops key_of
scheduler_key = refl

pushed :
    (k : Text) (known : List Text) (m : Props) (ms : List Props)
    → key_of m ≡ k
    → Covers ms known
    → Lists k (push_unless known k m ms)
pushed k known m ms h c =
    subst (λ j. Lists j (push_unless known j m ms)) h (Lists-pushed known m ms c)

Covers-push :
    (k : Text) (known : List Text) (m : Props) (ms : List Props)
    → Covers ms known
    → Covers (push_unless known k m ms) known
unfolding Covers
Covers-push k known m ms c j h = Lists-push j k known m ms (c j h)

-- Every module that the panel needs is in the list it shows, whatever the server sends.
pub ensure-Lists : (ms : List Props) → All (λ k. Lists k (ensure_panel_modules ms)) panel_keys
unfolding ensure_panel_modules
ensure-Lists ms =
    let known = map key_of ms in
    let c0 : Covers ms known = unfold Covers Lists in (λ k h. h) in
    let ms1 = push_unless known (codes "daily-pack") daily_pack_module ms in
    let ms2 = push_unless known (codes "battlepass") battlepass_module ms1 in
    let ms3 = push_unless known (codes "scheduled-events") scheduled_events_module ms2 in
    let c1 = Covers-push (codes "daily-pack") known daily_pack_module ms c0 in
    let c2 = Covers-push (codes "battlepass") known battlepass_module ms1 c1 in
    let c3 = Covers-push (codes "scheduled-events") known scheduled_events_module ms2 c2 in
    let keep = λ (k : Text). Lists-fallbacks k lightweight_fallbacks known ms3 in
    let over =
      λ (k : Text). Lists-push k (codes "scheduled-events") known scheduled_events_module ms2 in
    (
      keep (codes "daily-pack") (
          over (codes "daily-pack") (
            Lists-push (codes "daily-pack") (codes "battlepass") known battlepass_module ms1
              (pushed (codes "daily-pack") known daily_pack_module ms daily_key c0))),
      (
        keep (codes "battlepass") (
            over (codes "battlepass")
              (pushed (codes "battlepass") known battlepass_module ms1 battlepass_key c1)),
        (
          keep (codes "scheduled-events") (
              pushed (codes "scheduled-events") known scheduled_events_module ms2 scheduler_key c2),
          fallbacks_listed lightweight_fallbacks known ms3 fallback_keys c3,
        ),
      ),
    )

complete_list_same :
    (ms : List Props) → All (λ k. Lists k ms) panel_keys → ensure_panel_modules ms ≡ ms
unfolding ensure_panel_modules push_unless Lists
complete_list_same ms (d, (b, (s, h))) =
    rw (d, b, s) (fallbacks_idle lightweight_fallbacks (map key_of ms) ms h)

-- A list that has them all is left as it is, so that nothing is added twice.
pub ensure_idem :
    (ms : List Props) → ensure_panel_modules (ensure_panel_modules ms) ≡ ensure_panel_modules ms
ensure_idem ms = complete_list_same (ensure_panel_modules ms) (ensure-Lists ms)

-- Every module that the panel needs is in the list it shows, whatever the server sends, and a list
-- that was completed is left as it is, so that no module is added twice.
pub ensure_panel_modules_lem :
    (ms : List Props)
    → All (λ k. Lists k (ensure_panel_modules ms)) panel_keys
      × (ensure_panel_modules (ensure_panel_modules ms) ≡ ensure_panel_modules ms)
ensure_panel_modules_lem ms = (ensure-Lists ms, ensure_idem ms)
