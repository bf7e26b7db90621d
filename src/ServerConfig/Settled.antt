-- ===== src/ServerConfig/Settled.antt =====
-- What each function of the configuration editor keeps of the panel, and what it changes.
use scum_ne_djin_release.Prelude.{
  ◌≡◌, refl, true, false, not, ◌||◌, List, [], ◌∷◌, Option, none, some, arith, ◌==◌, Bool-cases,
  inl, inr, if◌then◌else◌,
}
use scum_ne_djin_release.Text.{Text, truthy, trim, ◌orelse◌}
use scum_ne_djin_release.ServerConfig.{
  Panel, Load, Save, Reply, file, error, finish_load, start_save, finish_check, finish_post,
  choose_default, update_save_state, is_loaded, same_name, same_content,
}

-- A name is loaded exactly if a text is, and the button shows the state of the panel.
pub record IsSettled (p : Panel) : Type 0 where
  pub both : truthy p.loaded_name ≡ is_loaded p.loaded_content
  pub button : p.save_disabled ≡ (update_save_state p).save_disabled

-- A save under way has a name and a text that is not blank.
abbrev pub IsWorth : Save → Type 0
IsWorth s = (truthy s.name ≡ true) × (truthy (trim s.edited) ≡ true)

abbrev pub IsNamed : Load → Type 0
IsNamed l = truthy l.clean ≡ true

pub truthy-orelse : (a b : Text) → truthy b ≡ true → truthy (a orelse b) ≡ true
unfolding truthy ◌orelse◌
truthy-orelse [] b h = h
truthy-orelse (c ∷ a) b h = refl

pub start_save-IsSettled : (p : Panel) → IsSettled p → IsSettled (start_save p).1
unfolding start_save
start_save-IsSettled p v = ground arith

pub finish_post-IsSettled :
    (s : Save) (r : Option Text) (p : Panel)
    → IsWorth s
    → IsSettled p
    → IsSettled (finish_post s r p)
unfolding finish_post is_loaded
finish_post-IsSettled s none p k v = record { both = k.0; button = refl }
finish_post-IsSettled s (some e) p k v = record { both = v.both; button = refl }

pub finish_check-IsSettled :
    (s : Save) (r : Reply) (p : Panel) → IsSettled p → IsSettled (finish_check s r p).1
unfolding finish_check truthy is_loaded
finish_check-IsSettled s (file name text) p v =
    elim (Bool-cases (
      not (same_name (trim (name orelse s.name) orelse s.name) s.name)
      || not (same_content text p.loaded_content))) [
        | inl h ↦ rw h (record { both = refl; button = refl })
        | inr h ↦ rw h (record { both = v.both; button = v.button })
      ]
finish_check-IsSettled s (error e) p v = record { both = v.both; button = refl }

pub choose_default-IsSettled :
    (files : List Text) (p : Panel) → IsSettled p → IsSettled (choose_default files p)
unfolding choose_default
choose_default-IsSettled files p v = record { both = v.both; button = refl }

pub finish_load-IsSettled :
    (l : Load) (r : Reply) (p : Panel) → IsNamed l → IsSettled p → IsSettled (finish_load l r p)
unfolding finish_load truthy is_loaded
finish_load-IsSettled l (file name text) p k v = elim (Bool-cases (l.version == p.load_version)) [
  | inl e ↦ elim (Bool-cases (same_name p.selected l.clean)) [
    | inl f ↦
        rw (e, f, e)
          (record { both = truthy-orelse (trim (name orelse l.clean)) l.clean k; button = refl })
    | inr f ↦ rw (e, f, e) (record { both = v.both; button = refl })
  ]
  | inr e ↦ rw (e, e) v
]
finish_load-IsSettled l (error e) p k v = elim (Bool-cases (l.version == p.load_version)) [
  | inl h ↦ rw (h, h) (record { both = refl; button = refl })
  | inr h ↦ rw (h, h) v
]

-- Only loads change the version and the mark.
abbrev pub SameLoads : Panel → Panel → Type 0
SameLoads p q = (p.load_version ≡ q.load_version) × (p.loading ≡ q.loading)

pub start_save-SameLoads : (p : Panel) → SameLoads (start_save p).1 p
unfolding start_save
start_save-SameLoads p = ground arith

pub finish_post-SameLoads :
    (s : Save) (r : Option Text) (p : Panel) → SameLoads (finish_post s r p) p
unfolding finish_post
finish_post-SameLoads s none p = (refl, refl)
finish_post-SameLoads s (some e) p = (refl, refl)

pub finish_check-SameLoads : (s : Save) (r : Reply) (p : Panel) → SameLoads (finish_check s r p).1 p
unfolding finish_check
finish_check-SameLoads s (file name text) p =
    elim (Bool-cases (
      not (same_name (trim (name orelse s.name) orelse s.name) s.name)
      || not (same_content text p.loaded_content))) [
        | inl h ↦ rw h (refl, refl)
        | inr h ↦ rw h (refl, refl)
      ]
finish_check-SameLoads s (error e) p = (refl, refl)

pub finish_load-versions :
    (l : Load) (r : Reply) (p : Panel)
    → ((finish_load l r p).load_version ≡ p.load_version)
      × ((finish_load l r p).loading ≡ (if l.version == p.load_version then false else p.loading))
unfolding finish_load
finish_load-versions l (file name text) p = elim (Bool-cases (l.version == p.load_version)) [
  | inl e ↦ elim (Bool-cases (same_name p.selected l.clean)) [
    | inl f ↦ rw (e, f, e) (refl, refl)
    | inr f ↦ rw (e, f, e) (refl, refl)
  ]
  | inr e ↦ rw (e, e) (refl, refl)
]
finish_load-versions l (error e) p = elim (Bool-cases (l.version == p.load_version)) [
  | inl h ↦ rw (h, h) (refl, refl)
  | inr h ↦ rw (h, h) (refl, refl)
]

pub start_save-IsWorth : (p : Panel) (s : Save) → (start_save p).0 ≡ some s → IsWorth s
unfolding start_save
start_save-IsWorth p s h = ground arith
