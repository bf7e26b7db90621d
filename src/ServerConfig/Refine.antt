-- ===== src/ServerConfig/Refine.antt =====
-- What the configuration editor promises the server's files: a client that compares before it
-- writes. The panel, with all that it shows, is an implementation of that client.
use scum_ne_djin_release.Prelude.{
  ℕ, suc, ◌+◌, ◌≤◌, ◌≡◌, refl, sym, ap, ◌∙◌, Bool, true, false, not, ◌&&◌, List, [], ◌∷◌, map,
  Option, none, some, arith, if◌then◌else◌, length, get_elem?, remove_at, length-remove_at_le, ◌==◌,
  Bool-cases, inl, inr, zero,
}
use scum_ne_djin_release.Text.{Text, truthy, trim, ◌orelse◌}
use scum_ne_djin_release.ServerConfig.{
  Panel, Load, Save, Reply, file, error, start_load, finish_load, start_save, finish_check,
  finish_post, choose_default, auto_load, update_save_state, is_loaded, same_name, same_content,
}
use scum_ne_djin_release.ServerConfig.World.{
  World, initial, Event, select, edit, save, refreshed, load_reply, check_reply, post_reply,
  with_load, with_check, on_load, checked, on_check, on_post, on_refresh, step, run,
}
use scum_ne_djin_release.ServerConfig.Settled.{IsWorth, start_save-IsWorth}
use scum_ne_djin_release.ServerConfig.Races.{same_content_sound}

-- The text that the client believes the file to hold, the writes it has asked about, and the
-- writes it has sent.
pub record Client : Type 0 where
  pub known : Option Text
  pub asked : List Save
  pub sent : List Save

-- A click on "save", the server's answer to the question at a position, with the text that the
-- file holds, or anything else.
pub data Label : Type 0 where
  click : Label
  answer : ℕ → Text → Label
  other : Label

-- What the client may do.
pub data ClientStep (l : Label) (c : Client) (d : Client) : Type 0 where
  stay : d ≡ c → ClientStep l c d
  learn : (t : Text) → d ≡ record c { known = some t } → ClientStep l c d
  forget : d ≡ record c { known = none } → ClientStep l c d
  -- Only a click asks, for a write with a name and a text, and only about a known file.
  ask :
      (s : Save)
      → l ≡ click
      → IsWorth s
      → is_loaded c.known ≡ true
      → d ≡ record c { asked = s ∷ c.asked }
      → ClientStep l c d
  -- Only the answer that the file holds what is known lets a write go out.
  send :
      (i : ℕ) (s : Save) (t : Text)
      → l ≡ answer i t
      → get_elem? c.asked i ≡ some s
      → c.known ≡ some t
      → d ≡ record c { asked = remove_at c.asked i; sent = s ∷ c.sent }
      → ClientStep l c d
  -- Another answer, or an error, drops the question.
  cancel : (i : ℕ) → d ≡ record c { known = none; asked = remove_at c.asked i } → ClientStep l c d
  fail : (i : ℕ) → d ≡ record c { asked = remove_at c.asked i } → ClientStep l c d

pub data ClientRun : List Label → Client → Client → Type 0 where
  done : (c : Client) → ClientRun [] c c
  next :
      {l : Label} {ls : List Label} {c d e : Client}
      → ClientStep l c d
      → ClientRun ls d e
      → ClientRun (l ∷ ls) c e

pub view : World → Client
view w = record { known = w.panel.loaded_content; asked = w.checks; sent = w.sent }

pub label : Event → Label
label save = click
label (check_reply i (file name text)) = answer i text
label _ = other

with_load-step :
    (l : Label) (name : Text) (p : Panel) (w : World)
    → p.loaded_content ≡ w.panel.loaded_content
    → ClientStep l (view w) (view (with_load (start_load name p) (record w { panel = p })))
unfolding with_load start_load view update_save_state
with_load-step l name p w h = elim (Bool-cases (truthy (trim (name orelse p.selected)))) [
  | inl e ↦ rw e (forget refl)
  | inr e ↦ rw e (stay (rw h refl))
]

on_load-step :
    (l : Label) (o : Option Load) (i : ℕ) (r : Reply) (w : World)
    → ClientStep l (view w) (view (on_load o i r w))
unfolding on_load view finish_load
on_load-step l none i r w = stay refl
on_load-step l (some k) i (file name text) w =
    elim (Bool-cases (k.version == w.panel.load_version)) [
      | inr e ↦ rw (e, e) (stay refl)
      | inl e ↦ elim (Bool-cases (same_name w.panel.selected k.clean)) [
        | inl f ↦ rw (e, f, e) (learn text refl)
        | inr f ↦ rw (e, f, e) (stay refl)
      ]
    ]
on_load-step l (some k) i (error m) w = elim (Bool-cases (k.version == w.panel.load_version)) [
  | inr e ↦ rw (e, e) (stay refl)
  | inl e ↦ rw (e, e) (forget refl)
]

on_post-step :
    (l : Label) (o : Option Save) (i : ℕ) (r : Option Text) (w : World)
    → ClientStep l (view w) (view (on_post o i r w))
unfolding on_post view finish_post
on_post-step l none i r w = stay refl
on_post-step l (some s) i none w = learn s.edited refl
on_post-step l (some s) i (some e) w = stay refl

on_check-step :
    (o : Option Save) (i : ℕ) (r : Reply) (w : World)
    → get_elem? w.checks i ≡ o
    → ClientStep (label (check_reply i r)) (view w) (view (on_check o i r w))
unfolding on_check view checked finish_check label
on_check-step none i r w e = stay refl
on_check-step (some s) i (error m) w e = fail i refl
on_check-step (some s) i (file name text) w e =
    elim (Bool-cases (same_name (trim (name orelse s.name) orelse s.name) s.name)) [
      | inr h ↦ rw h (cancel i refl)
      | inl h ↦ elim (Bool-cases (same_content text w.panel.loaded_content)) [
        | inr k ↦ rw (h, k) (cancel i refl)
        | inl k ↦
            rw (h, k) (send i s text refl e (same_content_sound text w.panel.loaded_content k) refl)
      ]
    ]

-- A click that opens a save asks about a known file, and leaves what is known.
start_save-known : (p : Panel) → (start_save p).1.loaded_content ≡ p.loaded_content
unfolding start_save
start_save-known p = ground arith

start_save-is_loaded :
    (p : Panel) (s : Save) → (start_save p).0 ≡ some s → is_loaded p.loaded_content ≡ true
unfolding start_save
start_save-is_loaded p s h = ground arith

with_check-step :
    (w : World) (r : Option Save × Panel)
    → start_save w.panel ≡ r
    → ClientStep click (view w) (view (with_check r w))
unfolding with_check view
with_check-step w (none, p) e =
    stay (rw (sym (ap (λ x. x.1.loaded_content) e) ∙ start_save-known w.panel) refl)
with_check-step w (some s, p) e =
    ask s refl (start_save-IsWorth w.panel s (ap (λ x. x.0) e))
      (start_save-is_loaded w.panel s (ap (λ x. x.0) e))
      (rw (sym (ap (λ x. x.1.loaded_content) e) ∙ start_save-known w.panel) refl)

on_refresh-step :
    (l : Label) (files : List Text) (w : World) → ClientStep l (view w) (view (on_refresh files w))
unfolding on_refresh auto_load
on_refresh-step l files w =
    let p = choose_default files w.panel in
    elim (Bool-cases (truthy p.selected && not (truthy p.content) && not (truthy p.loaded_name))) [
      | inl e ↦
          rw e (with_load-step l p.selected p w (unfold choose_default update_save_state in refl))
      | inr e ↦ rw e (stay (unfold with_load view choose_default update_save_state in refl))
    ]

-- Each step of the panel is a step of the client.
pub step-refines : (w : World) (e : Event) → ClientStep (label e) (view w) (view (step w e))
unfolding step
step-refines w (select name) = with_load-step _ name w.panel w refl
step-refines w (edit text) = stay (unfold view update_save_state in refl)
step-refines w save = unfold label in with_check-step w (start_save w.panel) refl
step-refines w (refreshed files) = on_refresh-step _ files w
step-refines w (load_reply i r) = on_load-step _ (get_elem? w.loads i) i r w
step-refines w (check_reply i r) = on_check-step (get_elem? w.checks i) i r w refl
step-refines w (post_reply i r) = on_post-step _ (get_elem? w.posts i) i r w

run_from-refines :
    (w : World) (es : List Event) → ClientRun (map label es) (view w) (view (run w es))
run_from-refines w [] = done (view w)
run_from-refines w (e ∷ es) = next (step-refines w e) (run_from-refines (step w e) es)

-- Every session of the panel, with the user's actions and the replies in any order, is a run of
-- the client that compares before it writes.
pub run-refines :
    (es : List Event) → ClientRun (map label es) (view initial) (view (run initial es))
run-refines es = run_from-refines initial es

pub is_click : Label → Bool
is_click click = true
is_click (answer i t) = false
is_click other = false

-- How many labels are clicks on "save".
pub clicks : List Label → ℕ
clicks [] = 0
clicks (l ∷ ls) = let rest = clicks ls in if is_click l then suc rest else rest

asked_or_sent : Client → ℕ
asked_or_sent c = length c.asked + length c.sent

one_taken :
    (ss : List Save) (i : ℕ) (s : Save)
    → get_elem? ss i ≡ some s
    → length (remove_at ss i) + 1 ≡ length ss
one_taken [] i s h = absurd cc
one_taken (r ∷ ss) zero s h = omega arith
one_taken (r ∷ ss) (suc i) s h = omega (arith, one_taken ss i s h)

step_bound :
    {l : Label} {c d : Client} (n : ℕ)
    → ClientStep l c d
    → asked_or_sent d + n ≤ asked_or_sent c + (if is_click l then suc n else n)
unfolding asked_or_sent is_click
step_bound n (stay e) = rw e (ground arith)
step_bound n (learn t e) = rw e (ground arith)
step_bound n (forget e) = rw e (ground arith)
step_bound n (ask s k h f e) = rw (e, k) (omega arith)
step_bound {c = c} n (send i s t k g f e) = rw (e, k) (omega (arith, one_taken c.asked i s g))
step_bound {c = c} n (cancel i e) = rw e (ground (arith, length-remove_at_le c.asked i))
step_bound {c = c} n (fail i e) = rw e (ground (arith, length-remove_at_le c.asked i))

run_bound :
    {ls : List Label} {c d : Client}
    → ClientRun ls c d
    → asked_or_sent d ≤ asked_or_sent c + clicks ls
unfolding clicks
run_bound (done c) = omega arith
run_bound (next {l} {ls} {c} {d} {e} s r) = omega (arith, step_bound (clicks ls) s, run_bound r)

-- In every session, the POSTs sent and the questions that still wait are together at most as
-- many as the clicks on "save": no click writes twice.
pub posts_bound :
    (es : List Event)
    → length (run initial es).sent + length (run initial es).checks ≤ clicks (map label es)
unfolding asked_or_sent view
posts_bound es = omega (arith, run_bound (run-refines es))
