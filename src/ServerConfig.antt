-- ===== src/ServerConfig.antt =====
-- The editor of the game server's configuration files: `refreshServerConfigs`,
-- `loadServerConfig`, `saveServerConfig` and `updateServerConfigSaveState` of
-- src/ScumWarden.Server/wwwroot/app.js. An `await` splits a function: what stands before it
-- leaves a pending request, and the reply is given to a function for what stands behind it.
-- The elements of the page are taken to be there; the drawing of the file list is left out.
pub mod World
pub mod Settled
pub mod Versions
pub mod Invariant
pub mod Saving
pub mod Races
pub mod Refine
pub mod Progress
pub mod Sessions
pub mod Tests
use scum_ne_djin_release.Prelude.{
  ℕ, ◌+◌, Bool, true, false, not, ◌&&◌, ◌||◌, List, [], ◌∷◌, Option, none, some, if◌then◌else◌,
  ◌==◌, find,
}
use scum_ne_djin_release.Text.{Text, codes, ◌===◌, truthy, ◌orelse◌, trim, lower}

-- What `updateServerConfigSaveState` writes as the title of the button, and the results shown.
pub data Title : Type 0 where
  wait_for_load load_first empty_content no_title : Title

pub data Message : Type 0 where
  no_message choose_config save_blocked empty_not_saved checking save_cancelled saving : Message
  loaded : Text → Message
  saved : Message
  failed : Text → Message

pub record Panel : Type 0 where
  pub configs : List Text
  pub selected : Text
  pub load_version : ℕ
  pub loading : Bool
  pub loaded_name : Text
  pub loaded_content : Option Text
  -- `els.serverConfigContent.value`, and the button
  pub content : Text
  pub save_disabled : Bool
  pub save_title : Title
  pub result : Message

-- The variables of a call that waits for its reply.
pub record Load : Type 0 where
  pub version : ℕ
  pub clean : Text

pub record Save : Type 0 where
  pub name : Text
  pub edited : Text

-- `api` resolves with the fields `name` and `content`, empty if missing, or rejects.
pub data Reply : Type 0 where
  file : Text → Text → Reply
  error : Text → Reply

unfoldable pub same_name : Text → Text → Bool
same_name left right = lower (trim left) === lower (trim right)

unfoldable pub update_save_state : Panel → Panel
unfolding same_name
update_save_state p =
    let name = trim p.selected in
    let loaded_for_selection = truthy name && same_name p.loaded_name name in
    let non_empty = truthy (trim p.content) in
    record p {
      save_disabled = p.loading || not loaded_for_selection || not non_empty;
      save_title =
          if p.loading
          then wait_for_load
          else if not loaded_for_selection
          then load_first
          else if not non_empty
          then empty_content
          else no_title;
    }

unfoldable pub start_load : Text → Panel → Option (Load × Panel)
unfolding update_save_state
start_load name p =
    let clean = trim (name orelse p.selected) in
    let version = p.load_version + 1 in
    if not (truthy clean)
    then none
    else some (
      record { version = version; clean = clean },
      update_save_state (record p {
        load_version = version;
        selected = clean;
        loading = true;
        loaded_name = [];
        loaded_content = none;
      }),
    )

-- The `finally` block.
unfoldable pub settle_load : Load → Panel → Panel
unfolding update_save_state
settle_load l p =
    if l.version == p.load_version then update_save_state (record p { loading = false }) else p

unfoldable pub finish_load : Load → Reply → Panel → Panel
unfolding settle_load same_name
finish_load l (file name text) p =
    let loaded_name = trim (name orelse l.clean) orelse l.clean in
    settle_load l (
      if not (l.version == p.load_version) || not (same_name p.selected l.clean)
      then p
      else record p {
        selected = loaded_name;
        loaded_name = loaded_name;
        loaded_content = some text;
        content = text;
        result = loaded loaded_name;
      })
finish_load l (error e) p = settle_load l (
    if l.version == p.load_version then record p { loaded_name = []; loaded_content = none } else p)

unfoldable pub is_loaded : Option Text → Bool
is_loaded none = false
is_loaded (some text) = true

-- `saveServerConfig` up to its first `await`: the request that it makes, if any.
unfoldable pub start_save : Panel → Option Save × Panel
unfolding same_name is_loaded update_save_state
start_save p =
    let name = trim p.selected in
    if not (truthy name)
    then (none, record p { result = choose_config })
    else if p.loading || not (same_name p.loaded_name name) || not (is_loaded p.loaded_content)
    then (none, update_save_state (record p { result = save_blocked }))
    else if not (truthy (trim p.content))
    then (none, update_save_state (record p { result = empty_not_saved }))
    else (some (record { name = name; edited = p.content }), record p { result = checking })

-- `currentContent === state.serverConfigLoadedContent`
unfoldable pub same_content : Text → Option Text → Bool
same_content text none = false
same_content text (some t) = text === t

-- Between the two requests: whether the POST is sent.
unfoldable pub finish_check : Save → Reply → Panel → Bool × Panel
unfolding same_name same_content update_save_state
finish_check s (file name text) p =
    let current_name = trim (name orelse s.name) orelse s.name in
    if not (same_name current_name s.name) || not (same_content text p.loaded_content)
    then (
      false,
      update_save_state
          (record p { loaded_name = []; loaded_content = none; result = save_cancelled }),
    )
    else (true, record p { result = saving })
finish_check s (error e) p = (false, update_save_state (record p { result = failed e }))

-- The reply to the POST: its message or its error.
unfoldable pub finish_post : Save → Option Text → Panel → Panel
unfolding update_save_state
finish_post s none p =
    update_save_state
      (record p { loaded_name = s.name; loaded_content = some s.edited; result = saved })
finish_post s (some e) p = update_save_state (record p { result = failed e })

default_file : List Text → Text
default_file [] = []
default_file (f ∷ fs) = elim (find (λ name. lower name === codes "serversettings.ini") (f ∷ fs)) [
  | none ↦ f
  | some name ↦ name
]

-- `refreshServerConfigs` behind its `await`; it may start a load.
unfoldable pub choose_default : List Text → Panel → Panel
unfolding default_file update_save_state
choose_default files p = update_save_state (record p {
  configs = files;
  selected = if truthy p.selected then p.selected else default_file files;
})

unfoldable pub auto_load : Panel → Option (Load × Panel)
unfolding start_load
auto_load p =
    if truthy p.selected && not (truthy p.content) && not (truthy p.loaded_name)
    then start_load p.selected p
    else none
