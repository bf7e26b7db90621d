-- ===== src/ServerConfig/Invariant.antt =====
-- What every session keeps: the requests under way, and what the panel knows of them.
use scum_ne_djin_release.Prelude.{
  ap, ℕ, suc, ◌+◌, ◌≡◌, refl, Bool, true, false, not, ◌&&◌, List, [], ◌∷◌, Option, none, some,
  arith, All, get_elem?, remove_at, ◌==◌, Bool-cases, inl, inr, All-remove_at, All-get_elem?, subst,
}
use scum_ne_djin_release.Text.{trim_end, trim_start, Text, truthy, trim, ◌orelse◌}
use scum_ne_djin_release.ServerConfig.{
  Panel, Load, Save, Reply, start_load, start_save, finish_check, finish_post, choose_default,
  auto_load, update_save_state, is_loaded,
}
use scum_ne_djin_release.ServerConfig.World.{
  World, initial, Event, select, edit, save, refreshed, load_reply, check_reply, post_reply,
  with_load, with_check, on_load, checked, on_check, on_post, step, run,
}
use scum_ne_djin_release.ServerConfig.Versions.{
  Descending, is_current, Descending-remove_at, current_removed, current_kept, Descending-mono,
}
use scum_ne_djin_release.ServerConfig.Settled.{
  IsSettled, IsWorth, IsNamed, SameLoads, start_save-IsSettled, finish_post-IsSettled,
  finish_check-IsSettled, choose_default-IsSettled, finish_load-IsSettled, start_save-SameLoads,
  finish_post-SameLoads, finish_check-SameLoads, finish_load-versions, start_save-IsWorth,
}

pub record IsConsistent (w : World) : Type 0 where
  pub settled : IsSettled w.panel
  pub ordered : Descending (suc w.panel.load_version) w.loads
  pub current : w.panel.loading ≡ is_current w.panel.load_version w.loads
  pub named : All IsNamed w.loads
  pub checks_worth : All IsWorth w.checks
  pub posts_worth : All IsWorth w.posts
  pub sent_worth : All IsWorth w.sent

module _ (w : World) (v : IsConsistent w) where
  -- A panel that is settled and agrees on the loads can take the place of the panel.
  with_panel-IsConsistent :
      (p : Panel) → IsSettled p → SameLoads p w.panel → IsConsistent (record w { panel = p })
  with_panel-IsConsistent p s (version, loading) = record {
    settled = s;
    ordered = rw version v.ordered;
    current = rw (version, loading) v.current;
    named = v.named;
    checks_worth = v.checks_worth;
    posts_worth = v.posts_worth;
    sent_worth = v.sent_worth;
  }

  start_load-IsConsistent : (name : Text) → IsConsistent (with_load (start_load name w.panel) w)
  unfolding with_load start_load is_loaded truthy
  start_load-IsConsistent name = elim (Bool-cases (truthy (trim (name orelse w.panel.selected)))) [
    | inl h ↦ rw h (record {
      settled = record { both = refl; button = refl };
      ordered = (
        omega arith,
        Descending-mono (suc w.panel.load_version) (w.panel.load_version + 1) w.loads (omega arith)
            v.ordered,
      );
      current = ground arith;
      named = (h, v.named);
      checks_worth = v.checks_worth;
      posts_worth = v.posts_worth;
      sent_worth = v.sent_worth;
    })
    | inr h ↦ rw h v
  ]

  on_load-IsConsistent :
      (o : Option Load) (i : ℕ) (r : Reply)
      → get_elem? w.loads i ≡ o
      → IsConsistent (on_load o i r w)
  unfolding on_load
  on_load-IsConsistent none i r e = v
  on_load-IsConsistent (some l) i r e =
      let (version, loading) = finish_load-versions l r w.panel in
      record {
        settled =
            finish_load-IsSettled l r w.panel (All-get_elem? IsNamed w.loads i l v.named e)
              v.settled;
        ordered = rw version (Descending-remove_at (suc w.panel.load_version) w.loads i v.ordered);
        current =
            rw (version, loading)
              (elim (Bool-cases (l.version == w.panel.load_version)) [
                | inl h ↦
                    rw
                      (
                        h,
                        current_removed w.panel.load_version (suc w.panel.load_version) w.loads i l
                            v.ordered e (ground arith),
                      )
                      refl
                | inr h ↦ rw (h, current_kept w.panel.load_version w.loads i l e h) v.current
              ]);
        named = All-remove_at IsNamed w.loads i v.named;
        checks_worth = v.checks_worth;
        posts_worth = v.posts_worth;
        sent_worth = v.sent_worth;
      }

  with_check-IsConsistent : IsConsistent (with_check (start_save w.panel) w)
  unfolding with_check
  with_check-IsConsistent = go (start_save w.panel) refl
    where
      go : (r : Option Save × Panel) → start_save w.panel ≡ r → IsConsistent (with_check r w)
      go (none, p) e =
          with_panel-IsConsistent p
            (subst IsSettled (ap (λ x. x.1) e) (start_save-IsSettled w.panel v.settled))
            (subst (λ q. SameLoads q w.panel) (ap (λ x. x.1) e) (start_save-SameLoads w.panel))
      go (some s, p) e =
          let c =
            with_panel-IsConsistent p
              (subst IsSettled (ap (λ x. x.1) e) (start_save-IsSettled w.panel v.settled))
              (subst (λ q. SameLoads q w.panel) (ap (λ x. x.1) e) (start_save-SameLoads w.panel)) in
          record {
            settled = c.settled;
            ordered = c.ordered;
            current = c.current;
            named = c.named;
            checks_worth = (start_save-IsWorth w.panel s (ap (λ x. x.0) e), v.checks_worth);
            posts_worth = v.posts_worth;
            sent_worth = v.sent_worth;
          }

  checked-IsConsistent :
      (s : Save) (r : Bool × Panel)
      → IsWorth s
      → IsSettled r.1
      → SameLoads r.1 w.panel
      → IsConsistent (checked s r w)
  unfolding checked
  checked-IsConsistent s (false, p) k h l = with_panel-IsConsistent p h l
  checked-IsConsistent s (true, p) k h l =
      let c = with_panel-IsConsistent p h l in
      record {
        settled = c.settled;
        ordered = c.ordered;
        current = c.current;
        named = c.named;
        checks_worth = c.checks_worth;
        posts_worth = (k, v.posts_worth);
        sent_worth = (k, v.sent_worth);
      }

  on_post-IsConsistent :
      (o : Option Save) (i : ℕ) (r : Option Text)
      → get_elem? w.posts i ≡ o
      → IsConsistent (on_post o i r w)
  unfolding on_post
  on_post-IsConsistent none i r e = v
  on_post-IsConsistent (some s) i r e =
      let c =
        with_panel-IsConsistent (finish_post s r w.panel)
          (finish_post-IsSettled s r w.panel (All-get_elem? IsWorth w.posts i s v.posts_worth e)
            v.settled)
          (finish_post-SameLoads s r w.panel) in
      record {
        settled = c.settled;
        ordered = c.ordered;
        current = c.current;
        named = c.named;
        checks_worth = v.checks_worth;
        posts_worth = All-remove_at IsWorth w.posts i v.posts_worth;
        sent_worth = v.sent_worth;
      }

without_check-IsConsistent :
    (w : World) (i : ℕ) → IsConsistent w → IsConsistent (record w { checks = remove_at w.checks i })
without_check-IsConsistent w i v = record {
  settled = v.settled;
  ordered = v.ordered;
  current = v.current;
  named = v.named;
  checks_worth = All-remove_at IsWorth w.checks i v.checks_worth;
  posts_worth = v.posts_worth;
  sent_worth = v.sent_worth;
}

on_check-IsConsistent :
    (w : World) (v : IsConsistent w) (o : Option Save) (i : ℕ) (r : Reply)
    → get_elem? w.checks i ≡ o
    → IsConsistent (on_check o i r w)
unfolding on_check
on_check-IsConsistent w v none i r e = v
on_check-IsConsistent w v (some s) i r e =
    checked-IsConsistent (record w { checks = remove_at w.checks i })
      (without_check-IsConsistent w i v) s (finish_check s r w.panel)
      (All-get_elem? IsWorth w.checks i s v.checks_worth e)
      (finish_check-IsSettled s r w.panel v.settled) (finish_check-SameLoads s r w.panel)

auto_load-IsConsistent :
    (w : World) → IsConsistent w → IsConsistent (with_load (auto_load w.panel) w)
unfolding auto_load
auto_load-IsConsistent w v =
    elim (Bool-cases (
      truthy w.panel.selected
      && not (truthy w.panel.content)
      && not (truthy w.panel.loaded_name))) [
        | inl h ↦ rw h (start_load-IsConsistent w v w.panel.selected)
        | inr h ↦ rw h (unfold with_load in v)
      ]

choose_default-SameLoads : (files : List Text) (p : Panel) → SameLoads (choose_default files p) p
unfolding choose_default
choose_default-SameLoads files p = (refl, refl)

edit-IsConsistent : (w : World) (text : Text) → IsConsistent w → IsConsistent (step w (edit text))
unfolding step update_save_state
edit-IsConsistent w text v =
    with_panel-IsConsistent w v (update_save_state (record w.panel { content = text }))
      (record { both = v.settled.both; button = refl }) (refl, refl)

pub step-IsConsistent : (w : World) (e : Event) → IsConsistent w → IsConsistent (step w e)
unfolding step
step-IsConsistent w (select name) v = start_load-IsConsistent w v name
step-IsConsistent w (edit text) v = edit-IsConsistent w text v
step-IsConsistent w save v = with_check-IsConsistent w v
step-IsConsistent w (refreshed files) v =
    auto_load-IsConsistent (record w { panel = choose_default files w.panel })
      (with_panel-IsConsistent w v (choose_default files w.panel)
        (choose_default-IsSettled files w.panel v.settled) (choose_default-SameLoads files w.panel))
step-IsConsistent w (load_reply i r) v = on_load-IsConsistent w v (get_elem? w.loads i) i r refl
step-IsConsistent w (check_reply i r) v = on_check-IsConsistent w v (get_elem? w.checks i) i r refl
step-IsConsistent w (post_reply i r) v = on_post-IsConsistent w v (get_elem? w.posts i) i r refl

run_from-IsConsistent : (w : World) (es : List Event) → IsConsistent w → IsConsistent (run w es)
run_from-IsConsistent w [] v = v
run_from-IsConsistent w (e ∷ es) v = run_from-IsConsistent (step w e) es (step-IsConsistent w e v)

initial-IsConsistent : IsConsistent initial
unfolding update_save_state is_loaded truthy trim trim_end trim_start
initial-IsConsistent = record {
  settled = record { both = refl; button = refl };
  ordered = tt;
  current = refl;
  named = tt;
  checks_worth = tt;
  posts_worth = tt;
  sent_worth = tt;
}

-- In every session, whatever the user does and in whatever order the replies come: the mark for
-- a load under way stands exactly while the newest load waits; a loaded name and a loaded text
-- come together; the button shows what the panel's fields say; and every save under way, and
-- every POST sent, has a name and a text that is not blank.
pub run-IsConsistent : (es : List Event) → IsConsistent (run initial es)
run-IsConsistent es = run_from-IsConsistent initial es initial-IsConsistent
