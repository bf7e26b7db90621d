-- ===== src/Shop.antt =====
-- The rules of the shop modules: `wargmRuleValue`, `wargmRuleMode` and
-- `normalizeWargmConfigForSave` of src/ScumWarden.Server/wwwroot/app.js. The configuration comes
-- from `JSON.parse`, so that the copy it starts from is the configuration.
pub mod Laws
pub mod Tests
use scum_ne_djin_release.Prelude.{
  ℕ, Bool, true, false, not, ◌&&◌, ◌||◌, List, [], ◌∷◌, map, Option, none, some, if◌then◌else◌,
  ◌==◌, filter,
}
use scum_ne_djin_release.Text.{
  Text, codes, ◌===◌, ◌orelse◌, truthy, trim, lower, includes, has, is_space,
}
use scum_ne_djin_release.Js.{Value, str, arr, obj, Props, props, to_fields, items, to_items}
use scum_ne_djin_release.Js.Objects.{get, insert, remove, has_own, find_key}
use scum_ne_djin_release.Js.Convert.{is_true, is_nullish, to_text, ◌or_else◌, ◌nullish_else◌}
use scum_ne_djin_release.Nested.{write_key}

-- The keys of `wargmRuleModeMeta`.
abbrev pub rule_modes : List Text
rule_modes =
    codes "SpawnItem"
    ∷ codes "Vehicle"
    ∷ codes "CargoDropPlayer"
    ∷ codes "Vip"
    ∷ codes "Money"
    ∷ codes "Gold"
    ∷ codes "Fame"
    ∷ codes "Attributes"
    ∷ codes "Skill"
    ∷ codes "AllSkills"
    ∷ codes "PlayerCommand"
    ∷ codes "ServerCommand"
    ∷ []

-- `wargmRuleModeAliases`, with 'SpawnItem' for the rest.
abbrev pub alias_modes : List (Text × Text)
alias_modes =
    (codes "item", codes "SpawnItem")
    ∷ (codes "items", codes "SpawnItem")
    ∷ (codes "spawnitem", codes "SpawnItem")
    ∷ (codes "vehicle", codes "Vehicle")
    ∷ (codes "spawnvehicle", codes "Vehicle")
    ∷ (codes "cargodrop", codes "CargoDropPlayer")
    ∷ (codes "cargodropplayer", codes "CargoDropPlayer")
    ∷ (codes "airdrop", codes "CargoDropPlayer")
    ∷ (codes "scheduledcargodrop", codes "CargoDropPlayer")
    ∷ (codes "vip", codes "Vip")
    ∷ (codes "vipprivilege", codes "Vip")
    ∷ (codes "vipprivileges", codes "Vip")
    ∷ (codes "subscription", codes "Vip")
    ∷ (codes "money", codes "Money")
    ∷ (codes "currency", codes "Money")
    ∷ (codes "balance", codes "Money")
    ∷ (codes "gold", codes "Gold")
    ∷ (codes "fame", codes "Fame")
    ∷ (codes "famepoint", codes "Fame")
    ∷ (codes "famepoints", codes "Fame")
    ∷ (codes "changefame", codes "Fame")
    ∷ (codes "changefamepoints", codes "Fame")
    ∷ (codes "setfame", codes "Fame")
    ∷ (codes "setfamepoints", codes "Fame")
    ∷ (codes "attributes", codes "Attributes")
    ∷ (codes "attribute", codes "Attributes")
    ∷ (codes "stats", codes "Attributes")
    ∷ (codes "skill", codes "Skill")
    ∷ (codes "setskill", codes "Skill")
    ∷ (codes "allskills", codes "AllSkills")
    ∷ (codes "allskill", codes "AllSkills")
    ∷ (codes "skillpack", codes "AllSkills")
    ∷ (codes "skillspack", codes "AllSkills")
    ∷ (codes "playercommand", codes "PlayerCommand")
    ∷ (codes "servercommand", codes "ServerCommand")
    ∷ (codes "command", codes "PlayerCommand")
    ∷ []

unfoldable pub alias_mode : Text → List (Text × Text) → Text
alias_mode k [] = codes "SpawnItem"
alias_mode k ((j, m) ∷ aliases) = let rest = alias_mode k aliases in if j === k then m else rest

value_of : Option Text → Props → Value → Value
value_of none row fallback = fallback
value_of (some k) row fallback = if truthy k then get k row nullish_else fallback else fallback

unfoldable pub wargm_rule_value : Props → Text → Value → Value
unfolding value_of
wargm_rule_value row key fallback = value_of (find_key (lower key) row) row fallback

-- `replace(/[\s_.-]+/g, '')`
strip_joints : Text → Text
strip_joints s = filter (λ c. not (is_space c || ((c == b'_') || ((c == b'.') || (c == b'-'))))) s

unfoldable pub wargm_rule_mode : Props → Text
unfolding strip_joints
wargm_rule_mode row =
    let ui_mode = to_text (wargm_rule_value row (codes "UiDeliveryMode") (str []) or_else str []) in
    let mode = to_text (
      wargm_rule_value row (codes "DeliveryMode") (str (codes "SpawnItem"))
      or_else str (codes "SpawnItem")) in
    let command =
      lower (to_text (wargm_rule_value row (codes "CommandTemplate") (str []) or_else str [])) in
    if has rule_modes ui_mode
    then ui_mode
    else if has rule_modes mode
    then mode
    else if includes command (codes "changefamepoints") || includes command (codes "setfamepoints")
    then codes "Fame"
    else alias_mode (strip_joints (lower mode)) alias_modes

unfoldable pub object_id : Props → Text
object_id rule = trim (
    to_text (
      wargm_rule_value rule (codes "MatchItemId") (str [])
      or_else (wargm_rule_value rule (codes "MatchObjectId") (str [])
          or_else (wargm_rule_value rule (codes "MatchProductId") (str []) or_else str []))))

-- An optional key that is there without a value gets ''.
fill : Option Text → Props → Props
fill none rule = rule
fill (some k) rule = if truthy k && is_nullish (get k rule) then insert k (str []) rule else rule

unfoldable pub fill_keys : List Text → Props → Props
unfolding fill
fill_keys [] rule = rule
fill_keys (k ∷ ks) rule = fill_keys ks (fill (find_key (lower k) rule) rule)

abbrev optional_keys : List Text
optional_keys =
    codes "MatchItemId"
    ∷ codes "matchItemId"
    ∷ codes "MatchObjectId"
    ∷ codes "matchObjectId"
    ∷ codes "MatchGoodsId"
    ∷ codes "matchGoodsId"
    ∷ codes "MatchProductId"
    ∷ codes "matchProductId"
    ∷ []

unfoldable pub with_object_id : Bool → Props → Props
with_object_id is_game_stores rule =
    let id = object_id rule in
    let preferred =
      if is_game_stores && is_true (wargm_rule_value rule (codes "MatchProductId") (str []))
      then codes "MatchProductId"
      else codes "MatchItemId" in
    if truthy id
    then insert (write_key preferred rule) (str id) rule
    else fill_keys optional_keys rule

unfoldable pub with_mode : Props → Props
with_mode rule =
    if wargm_rule_mode rule === codes "Fame"
    then if has_own (codes "deliveryMode") rule && not (has_own (codes "DeliveryMode") rule)
      then remove (codes "commandTemplate") (
          remove (codes "uiDeliveryMode") (insert (codes "deliveryMode") (str (codes "Fame")) rule))
      else remove (codes "CommandTemplate") (
          remove (codes "UiDeliveryMode") (insert (codes "DeliveryMode") (str (codes "Fame")) rule))
    else remove (codes "uiDeliveryMode") (remove (codes "UiDeliveryMode") rule)

unfoldable pub normalize_rule : Bool → Props → Props
normalize_rule is_game_stores rule = with_mode (with_object_id is_game_stores rule)

rule_value : Bool → Value → Value
rule_value shop (obj fs) = obj (to_fields (normalize_rule shop (props fs)))
rule_value shop v = v

is_list : Value → Bool
is_list (arr vs) = true
is_list v = false

list_of : Value → List Value
list_of (arr vs) = items vs
list_of v = []

rules_at : Bool → Text → Props → Props
unfolding rule_value list_of
rules_at shop k config =
    insert k (arr (to_items (map (rule_value shop) (list_of (get k config))))) config

unfoldable pub normalize_wargm_config_for_save : Text → Props → Props
unfolding rules_at is_list
normalize_wargm_config_for_save selected_module config =
    let shop = lower selected_module === codes "gamestores-shop" in
    if is_list (get (codes "Rules") config)
    then rules_at shop (codes "Rules") config
    else if is_list (get (codes "rules") config)
    then rules_at shop (codes "rules") config
    else config
