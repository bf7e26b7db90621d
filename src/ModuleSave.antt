-- ===== src/ModuleSave.antt =====
-- Saving the configuration of a module: `moduleConfigFingerprint`,
-- `rememberModuleConfigBaselines`, `flushOpenModuleEditorsForSave` and `saveSelectedModule` of
-- src/ScumWarden.Server/wwwroot/app.js. The `await` on the server's configuration splits the
-- save. The text field holds the draft as JSON, so that what is read back from it is the draft;
-- the fields of an open form are taken to be in the draft already, as each input puts them there.
pub mod Laws
pub mod Tests
use scum_ne_djin_release.Prelude.{
  Bool, true, false, not, ◌&&◌, ◌||◌, List, [], ◌∷◌, Option, none, some, if◌then◌else◌, find, map,
}
use scum_ne_djin_release.Text.{Text, codes, ◌===◌, ◌orelse◌, truthy, trim, lower}
use scum_ne_djin_release.Js.{
  Value, undefined, null, bool, num, str, arr, obj, Props, props, to_fields,
}
use scum_ne_djin_release.Js.Objects.{get, props_of}
use scum_ne_djin_release.Js.Convert.{is_true, text_of_keys, ◌or_else◌}
use scum_ne_djin_release.Json.Print.{stringify}
use scum_ne_djin_release.Aliases.{normalize_command_aliases_config_for_save}
use scum_ne_djin_release.FastTravel.{normalize_fast_travel_config_for_save}
use scum_ne_djin_release.Scheduler.{normalize_scheduler_config_for_save}
use scum_ne_djin_release.Shop.{normalize_wargm_config_for_save}
use scum_ne_djin_release.ChatLines.{
  ensure_chat_response_defaults, validate_chat_response_draft, Issue,
}
use scum_ne_djin_release.ModuleEditor.{Editor, commit_simple_module_item_draft, draft_or_empty}

-- `JSON.stringify`, which gives no text for undefined.
unfoldable pub module_config_fingerprint : Value → Text
module_config_fingerprint undefined = []
module_config_fingerprint v = stringify v

-- A map from texts to texts, the last entry first.
unfoldable pub baseline_of : Text → List (Text × Text) → Text
baseline_of k [] = []
baseline_of k ((j, b) ∷ rest) = let other = baseline_of k rest in if j === k then b else other

remember_from : List (Text × Text) → List Props → List (Text × Text)
remember_from known [] = known
remember_from known (m ∷ ms) =
    let key = lower (trim (text_of_keys (codes "key" ∷ []) m)) in
    let fingerprint =
      if is_true (get (codes "synthetic") m)
      then []
      else module_config_fingerprint (get (codes "config") m) in
    remember_from (if truthy key && truthy fingerprint then (key, fingerprint) ∷ known else known)
      ms

unfoldable pub remember_module_config_baselines : List Props → List (Text × Text)
unfolding remember_from
remember_module_config_baselines ms = remember_from [] ms

pub record State : Type 0 where
  pub modules : List Props
  pub baselines : List (Text × Text)
  pub selected : Text
  pub editor : Editor

-- The variables of a save that waits for the server's configuration.
pub record Check : Type 0 where
  pub key : Text
  pub baseline : Text

pub record Post : Type 0 where
  pub name : Text
  pub config : Value

unfoldable pub has_key : Text → Value → Bool
has_key k (str s) = s === k
has_key k v = false

unfoldable pub may_save : Option Props → Text → Bool
may_save none baseline = false
may_save (some m) baseline = not (is_true (get (codes "synthetic") m)) && truthy baseline

-- `saveSelectedModule` up to its first `await`; none if the save is blocked.
unfoldable pub start_module_save : State → Option Check
unfolding has_key may_save
start_module_save s =
    let key = lower (trim s.selected) in
    let baseline = baseline_of key s.baselines in
    if may_save (find (λ m. has_key s.selected (get (codes "key") m)) s.modules) baseline
    then some (record { key = key; baseline = baseline })
    else none

unfoldable pub is_external_shop_module : Text → Bool
is_external_shop_module key =
    (lower key === codes "wargm-shop") || (lower key === codes "gamestores-shop")

unfoldable pub is_chat_response_module_key : Text → Bool
is_chat_response_module_key key =
    (lower (trim key) === codes "help-response") || (lower (trim key) === codes "info-response")

-- An open row is committed.
unfoldable pub flush_open_module_editors_for_save : Editor → Editor
flush_open_module_editors_for_save e = flush e.row
  where
    flush : Option Value → Editor
    flush none = e
    flush (some v) = (commit_simple_module_item_draft e).0

-- The normalisers are told apart by the module that is selected now.
unfoldable pub normalized_for : Text → Props → Props
normalized_for selected config =
    if lower selected === codes "command-aliases"
    then normalize_command_aliases_config_for_save config
    else if selected === codes "fast-travel"
    then normalize_fast_travel_config_for_save config
    else if selected === codes "scheduled-events"
    then normalize_scheduler_config_for_save config
    else if is_external_shop_module selected
    then normalize_wargm_config_for_save selected config
    else config

no_issue : List Issue → Bool
no_issue [] = true
no_issue (i ∷ issues) = false

-- The configuration that is sent; none if it is a chat response with issues.
unfoldable pub config_to_send : State → Check → Editor → Option Value
unfolding no_issue
config_to_send s c e =
    let config = obj (to_fields (normalized_for s.selected (draft_or_empty e.draft))) in
    let module_values = map (λ m. obj (to_fields m)) s.modules in
    if is_chat_response_module_key c.key
    then if no_issue (validate_chat_response_draft module_values config).0
      then some (ensure_chat_response_defaults module_values config)
      else none
    else some config

unfoldable pub post_for : Text → Option Value → Option Post
post_for name none = none
post_for name (some config) = some (record { name = name; config = config })

-- `current && current.config ? current.config : current`
unfoldable pub current_config : Value → Value
current_config current =
    if is_true (get (codes "config") (props_of current))
    then get (codes "config") (props_of current)
    else current

-- The configuration that is sent becomes the draft.
sent_draft : Option Value → Editor → Editor
sent_draft none e = e
sent_draft (some config) e = record e { draft = some (props_of config) }

-- From the reply to the request that it sends, if any.
unfoldable pub finish_module_check : Check → Value → State → Option Post × State
unfolding post_for sent_draft
finish_module_check c current s =
    let config = current_config current in
    let flushed = flush_open_module_editors_for_save s.editor in
    let sent = config_to_send s c flushed in
    if is_true config && module_config_fingerprint config === c.baseline
    then (post_for s.selected sent, record s { editor = sent_draft sent flushed })
    else (none, s)

-- Once the request went through, before the modules are loaded again.
unfoldable pub finish_module_post : Check → Post → State → State
finish_module_post c p s = record s {
  baselines = (c.key, module_config_fingerprint p.config) ∷ s.baselines;
}
