-- ===== src/Modules.antt =====
-- The list of server modules: `ensurePanelModules`, `moduleIsEnabled`, `moduleConfigWarning`,
-- `moduleConfigFingerprint` and `rememberModuleConfigBaselines` of
-- src/ScumWarden.Server/wwwroot/app.js.
pub mod Rewards
pub mod Defaults
pub mod Fallbacks
pub mod Items
pub mod Laws
pub mod Tests
use scum_ne_djin_release.Prelude.{
  Bool, true, false, not, ◌&&◌, ◌||◌, List, [], ◌∷◌, ◌++◌, map, Option, none, some, if◌then◌else◌,
}
use scum_ne_djin_release.Text.{Text, codes, truthy, trim, lower, has, ◌===◌}
use scum_ne_djin_release.Js.{Value, undefined, null, bool, num, str, arr, obj, Props, to_fields}
use scum_ne_djin_release.Js.Objects.{get, insert, has_own, props_of}
use scum_ne_djin_release.Js.Convert.{is_true, text_of_keys}
use scum_ne_djin_release.Modules.Defaults.{
  daily_pack_module, battlepass_module, scheduled_events_module,
}
use scum_ne_djin_release.Modules.Fallbacks.{Fallback, lightweight_fallbacks}

unfoldable pub key_of : Props → Text
key_of m = lower (text_of_keys (codes "key" ∷ []) m)

-- `value !== false`
unfoldable pub is_not_false : Value → Bool
is_not_false (bool b) = b
is_not_false v = true

unfoldable pub fallback_module : Fallback → Props
fallback_module f =
    (codes "key", str f.key)
    ∷ (codes "name", str f.name)
    ∷ (codes "description", str f.description)
    ∷ (codes "category", str f.category)
    ∷ (codes "enabled", bool (is_not_false (get (codes "Enabled") f.config)))
    ∷ (codes "config", obj (to_fields f.config))
    ∷ (codes "synthetic", bool true)
    ∷ []

unfoldable pub push_unless : List Text → Text → Props → List Props → List Props
push_unless known key m list = if has known key then list else list ++ (m ∷ [])

unfoldable pub add_fallbacks : List Fallback → List Text → List Props → List Props
add_fallbacks [] known list = list
add_fallbacks (f ∷ fs) known list =
    add_fallbacks fs (if has known f.key then known else f.key ∷ known)
      (push_unless known f.key (fallback_module f) list)

unfoldable pub ensure_panel_modules : List Props → List Props
ensure_panel_modules modules =
    let known = map key_of modules in
    add_fallbacks lightweight_fallbacks known (
      push_unless known (codes "scheduled-events") scheduled_events_module (
        push_unless known (codes "battlepass") battlepass_module
          (push_unless known (codes "daily-pack") daily_pack_module modules)))

unfoldable pub module_is_enabled : Props → Bool
module_is_enabled m =
    let config = props_of (get (codes "config") m) in
    if has_own (codes "Enabled") config
    then is_not_false (get (codes "Enabled") config)
    else if has_own (codes "enabled") config
    then is_not_false (get (codes "enabled") config)
    else is_not_false (get (codes "enabled") m)

pub data Warning : Type 0 where
  migration_needed alias_conflict : Warning

unfoldable pub module_config_warning : Props → Option Warning
module_config_warning m =
    let diagnostics = get (codes "configDiagnostics") m in
    let ds = props_of diagnostics in
    if not (is_true diagnostics)
    then none
    else if is_true (get (codes "migrationRequired") ds)
        || not (is_not_false (get (codes "runtimeConfigActive") ds))
    then some migration_needed
    else if is_true (get (codes "legacyAliasConflict") ds)
    then some alias_conflict
    else none
