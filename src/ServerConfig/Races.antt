-- ===== src/ServerConfig/Races.antt =====
-- Requests that overlap: what a POST rests on, and which orders of replies matter.
use scum_ne_djin_release.Prelude.{
  ℕ, ◌≡◌, ◌⊎◌, refl, sym, true, ◌∷◌, Option, none, some, get_elem?, Bool-cases, inl, inr, ap,
}
use scum_ne_djin_release.Text.{Text, trim, ◌orelse◌}
use scum_ne_djin_release.Text.Laws.{===_sound}
use scum_ne_djin_release.ServerConfig.{
  Panel, Load, Save, Reply, file, error, start_load, start_save, finish_check, choose_default,
  same_name, same_content,
}
use scum_ne_djin_release.ServerConfig.World.{
  World, Event, select, edit, save, refreshed, load_reply, check_reply, post_reply, with_load,
  with_check, on_load, checked, on_check, on_post, on_refresh, step,
}

-- What a POST at an event rests on: the reply to the check of that save held the loaded text,
-- under the save's name.
pub record IsGuarded (w : World) (e : Event) (s : Save) : Type 0 where
  pub position : ℕ
  pub name : Text
  pub text : Text
  pub reply : e ≡ check_reply position (file name text)
  pub request : get_elem? w.checks position ≡ some s
  pub unchanged : w.panel.loaded_content ≡ some text
  pub named : same_name (trim (name orelse s.name) orelse s.name) s.name ≡ true

pub same_content_sound : (t : Text) (o : Option Text) → same_content t o ≡ true → o ≡ some t
unfolding same_content
same_content_sound t none h = cc
same_content_sound t (some u) h = ap some (sym (===_sound t u h))

with_load-sent : (o : Option (Load × Panel)) (w : World) → (with_load o w).sent ≡ w.sent
unfolding with_load
with_load-sent none w = refl
with_load-sent (some (l, p)) w = refl

with_check-sent : (r : Option Save × Panel) (w : World) → (with_check r w).sent ≡ w.sent
unfolding with_check
with_check-sent (none, p) w = refl
with_check-sent (some s, p) w = refl

on_load-sent : (o : Option Load) (i : ℕ) (r : Reply) (w : World) → (on_load o i r w).sent ≡ w.sent
unfolding on_load
on_load-sent none i r w = refl
on_load-sent (some l) i r w = refl

on_post-sent :
    (o : Option Save) (i : ℕ) (r : Option Text) (w : World) → (on_post o i r w).sent ≡ w.sent
unfolding on_post
on_post-sent none i r w = refl
on_post-sent (some l) i r w = refl

on_check-IsGuarded :
    (o : Option Save) (i : ℕ) (r : Reply) (w : World)
    → get_elem? w.checks i ≡ o
    → ((on_check o i r w).sent ≡ w.sent)
      ⊎ ((s : Save) × ((on_check o i r w).sent ≡ s ∷ w.sent) × IsGuarded w (check_reply i r) s)
unfolding on_check checked finish_check
on_check-IsGuarded none i r w e = inl refl
on_check-IsGuarded (some s) i (error m) w e = inl refl
on_check-IsGuarded (some s) i (file name text) w e =
    elim (Bool-cases (same_name (trim (name orelse s.name) orelse s.name) s.name)) [
      | inr h ↦ rw h (inl refl)
      | inl h ↦ elim (Bool-cases (same_content text w.panel.loaded_content)) [
        | inr k ↦ rw (h, k) (inl refl)
        | inl k ↦
            rw (h, k)
              (inr (
                s,
                refl,
                record {
                  position = i;
                  name = name;
                  text = text;
                  reply = refl;
                  request = e;
                  unchanged = same_content_sound text w.panel.loaded_content k;
                  named = h;
                },
              ))
      ]
    ]

-- No event sends a POST but the reply to a check, and only if that reply holds exactly the text
-- that is loaded at that moment, under the name of the save; then the save of that check is
-- sent, with the text that was in the editor when it began.
pub step-IsGuarded :
    (w : World) (e : Event)
    → ((step w e).sent ≡ w.sent) ⊎ ((s : Save) × ((step w e).sent ≡ s ∷ w.sent) × IsGuarded w e s)
unfolding step on_refresh
step-IsGuarded w (select name) = inl (with_load-sent (start_load name w.panel) w)
step-IsGuarded w (edit text) = inl refl
step-IsGuarded w save = inl (with_check-sent (start_save w.panel) w)
step-IsGuarded w (refreshed files) =
    inl (with_load-sent _ (record w { panel = choose_default files w.panel }))
step-IsGuarded w (load_reply i r) = inl (on_load-sent (get_elem? w.loads i) i r w)
step-IsGuarded w (check_reply i r) = on_check-IsGuarded (get_elem? w.checks i) i r w refl
step-IsGuarded w (post_reply i r) = inl (on_post-sent (get_elem? w.posts i) i r w)
