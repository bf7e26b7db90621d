-- ===== src/ModuleEditor/Profiles.antt =====
-- The profiles of the modules that the simple editor knows: the keys of `simpleModuleProfiles`
-- of src/ScumWarden.Server/wwwroot/app.js, without the labels and the forms.
use scum_ne_djin_release.Prelude.{true, false, List, [], ◌∷◌, Option, find}
use scum_ne_djin_release.Text.{Text, codes, ◌===◌, lower}
use scum_ne_djin_release.ModuleEditor.{Profile, Extra}

abbrev extra : Text → Text → Extra
extra tab array_key = record { tab = tab; array_key = array_key }

abbrev profile : Text → Text → Text → Text → List Extra → Profile
profile key array_key vip_array_key vip_settings_key extras = record {
  key = key;
  array_key = array_key;
  vip_array_key = vip_array_key;
  vip_settings_key = vip_settings_key;
  extras = extras;
  no_items = false;
}

abbrev without_items : Profile → Profile
without_items p = record p { no_items = true }

abbrev simple_module_profiles : List Profile
simple_module_profiles =
    profile (codes "welcome-pack") (codes "Items") (codes "VipItems") (codes "VipSettings")
      (extra (codes "vehicles") (codes "RentalVehicles") ∷ [])
    ∷ profile (codes "daily-pack") (codes "Items") (codes "VipItems") (codes "VipSettings") ([])
    ∷ profile (codes "battlepass") (codes "Rewards") (codes "VipRewards") (codes "VipSettings") ([])
    ∷ profile (codes "vip-system") (codes "Members") ([]) ([]) ([])
    ∷ profile (codes "fast-travel") (codes "Outposts") ([]) ([]) ([])
    ∷ profile (codes "vehicle-rental") (codes "Vehicles") (codes "VipVehicles") ([]) ([])
    ∷ without_items (profile (codes "money-transfer") ([]) ([]) ([]) ([]))
    ∷ profile (codes "item-upgrade") (codes "Rules") ([]) ([]) ([])
    ∷ profile (codes "base-loot-collector") (codes "Rules") ([]) (codes "VipSettings") ([])
    ∷ without_items (profile (codes "help-response") ([]) ([]) ([]) ([]))
    ∷ without_items (profile (codes "info-response") ([]) ([]) ([]) ([]))
    ∷ without_items (profile (codes "command-aliases") ([]) ([]) ([]) ([]))
    ∷ profile (codes "zone-robot-schedule") (codes "Rules") ([]) ([]) ([])
    ∷ profile (codes "panel-quests") (codes "Quests") ([]) ([]) ([])
    ∷ []

-- The profile of a module, if it has one.
unfoldable pub simple_module_profile : Text → Option Profile
simple_module_profile key = find (λ p. p.key === lower key) simple_module_profiles
