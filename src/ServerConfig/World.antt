-- ===== src/ServerConfig/World.antt =====
-- The panel with its requests under way. The replies come in any order, and the user acts
-- between them: a session is a list of events.
use scum_ne_djin_release.Prelude.{
  ℕ, Bool, true, false, List, [], ◌∷◌, Option, none, some, foldl, get_elem?, remove_at,
}
use scum_ne_djin_release.Text.{Text}
use scum_ne_djin_release.ServerConfig.{
  Panel, Load, Save, Reply, load_first, no_message, start_load, finish_load, start_save,
  finish_check, finish_post, choose_default, auto_load, update_save_state,
}

pub record World : Type 0 where
  pub panel : Panel
  -- newest first
  pub loads : List Load
  pub checks : List Save
  pub posts : List Save
  -- every POST sent so far, newest first
  pub sent : List Save

abbrev pub initial : World
initial = record {
  panel = record {
    configs = [];
    selected = [];
    load_version = 0;
    loading = false;
    loaded_name = [];
    loaded_content = none;
    content = [];
    save_disabled = true;
    save_title = load_first;
    result = no_message;
  };
  loads = [];
  checks = [];
  posts = [];
  sent = [];
}

-- A click on a file, a keystroke, a click on "save", a refreshed list, or the reply to the
-- pending request at a position.
pub data Event : Type 0 where
  select : Text → Event
  edit : Text → Event
  save : Event
  refreshed : List Text → Event
  load_reply : ℕ → Reply → Event
  check_reply : ℕ → Reply → Event
  post_reply : ℕ → Option Text → Event

unfoldable pub with_load : Option (Load × Panel) → World → World
with_load none w = w
with_load (some (l, p)) w = record w { panel = p; loads = l ∷ w.loads }

unfoldable pub with_check : Option Save × Panel → World → World
with_check (none, p) w = record w { panel = p }
with_check (some s, p) w = record w { panel = p; checks = s ∷ w.checks }

unfoldable pub on_load : Option Load → ℕ → Reply → World → World
on_load none i r w = w
on_load (some l) i r w = record w { panel = finish_load l r w.panel; loads = remove_at w.loads i }

unfoldable pub checked : Save → Bool × Panel → World → World
checked s (false, p) w = record w { panel = p }
checked s (true, p) w = record w { panel = p; posts = s ∷ w.posts; sent = s ∷ w.sent }

unfoldable pub on_check : Option Save → ℕ → Reply → World → World
on_check none i r w = w
on_check (some s) i r w =
    checked s (finish_check s r w.panel) (record w { checks = remove_at w.checks i })

unfoldable pub on_post : Option Save → ℕ → Option Text → World → World
on_post none i r w = w
on_post (some s) i r w = record w { panel = finish_post s r w.panel; posts = remove_at w.posts i }

-- The list drawn anew, and the file of an empty editor loaded.
unfoldable pub on_refresh : List Text → World → World
unfolding with_load
on_refresh files w =
    let p = choose_default files w.panel in with_load (auto_load p) (record w { panel = p })

unfoldable pub step : World → Event → World
unfolding with_load with_check on_load on_check on_post on_refresh
step w (select name) = with_load (start_load name w.panel) w
step w (edit text) = record w { panel = update_save_state (record w.panel { content = text }) }
step w save = with_check (start_save w.panel) w
step w (refreshed files) = on_refresh files w
step w (load_reply i r) = on_load (get_elem? w.loads i) i r w
step w (check_reply i r) = on_check (get_elem? w.checks i) i r w
step w (post_reply i r) = on_post (get_elem? w.posts i) i r w

abbrev pub run : World → List Event → World
run = foldl step
