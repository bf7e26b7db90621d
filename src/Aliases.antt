-- ===== src/Aliases.antt =====
-- The aliases of chat commands: `normalizeCommandAliasToken`, `normalizeCommandAliasList` and
-- `normalizeCommandAliasesConfigForSave` of src/ScumWarden.Server/wwwroot/app.js.
pub mod Laws
pub mod Tests
use scum_ne_djin_release.Prelude.{
  ℕ, Bool, true, false, not, ◌||◌, List, [], ◌∷◌, ◌++◌, map, if◌then◌else◌, ◌==◌, filter,
}
use scum_ne_djin_release.Text.{Text, codes, truthy, trim, lower, has, is_space}
use scum_ne_djin_release.Text.Lines.{split_by}
use scum_ne_djin_release.Js.{
  Value, undefined, null, bool, num, str, arr, obj, Props, items, to_items,
}
use scum_ne_djin_release.Js.Objects.{get, insert, has_own}
use scum_ne_djin_release.Js.Convert.{to_text, ◌or_else◌}

unfoldable pub is_mark : ℕ → Bool
is_mark c = (c == b'/') || (c == b'!')

-- `replace(/^[!/]+/, '')`
unfoldable pub strip_marks : Text → Text
unfolding is_mark
strip_marks [] = []
strip_marks (c ∷ s) = let rest = strip_marks s in if is_mark c then rest else c ∷ s

unfoldable pub with_mark : ℕ → Text → Text
with_mark c [] = []
with_mark c (d ∷ body) = if c == b'!' then b'!' ∷ d ∷ body else d ∷ body

unfoldable pub alias_of : Text → Text
unfolding is_mark with_mark
alias_of [] = []
alias_of (c ∷ s) = if is_mark c then with_mark c (strip_marks s) else strip_marks (c ∷ s)

unfoldable pub alias_token : Text → Text
alias_token s = alias_of (filter (λ c. not (is_space c)) (lower (trim s)))

unfoldable pub normalize_command_alias_token : Value → Text
normalize_command_alias_token v = alias_token (to_text (v or_else str []))

is_separator : ℕ → Bool
is_separator c = (c == 10) || ((c == b',') || (c == b';'))

-- The parts of `split(/\r?\n|,|;/)`; a `\r` that stays at the end of a part is trimmed off later.
unfoldable pub alias_parts : Value → List Value
unfolding is_separator
alias_parts (arr vs) = items vs
alias_parts v = map str (split_by is_separator (to_text (v or_else str [])))

unfoldable pub new_aliases : List Text → List Value → List Text
new_aliases seen [] = []
new_aliases seen (v ∷ vs) =
    let alias = normalize_command_alias_token v in
    let rest = new_aliases seen vs in
    let later = new_aliases (alias ∷ seen) vs in
    if not (truthy alias) || has seen alias then rest else alias ∷ later

unfoldable pub normalize_command_alias_list : Value → List Text
normalize_command_alias_list v = new_aliases [] (alias_parts v)

abbrev pub command_alias_config_keys : List Text
command_alias_config_keys =
    codes "Help"
    ∷ codes "Info"
    ∷ codes "Hello"
    ∷ codes "Language"
    ∷ codes "SetHome"
    ∷ codes "Home"
    ∷ codes "Homes"
    ∷ codes "DeleteHome"
    ∷ codes "PrivateMessage"
    ∷ codes "Reply"
    ∷ codes "PrivateMessageHistory"
    ∷ codes "SectorScan"
    ∷ codes "FastTravel"
    ∷ codes "BaseLoot"
    ∷ codes "Rent"
    ∷ codes "WelcomePack"
    ∷ codes "DailyPack"
    ∷ codes "Battlepass"
    ∷ codes "Dlc"
    ∷ codes "GameStores"
    ∷ codes "MoneyTransfer"
    ∷ codes "ItemUpgrade"
    ∷ codes "Quest"
    ∷ codes "Streak"
    ∷ codes "Bounty"
    ∷ codes "HunterTop"
    ∷ codes "Wargm"
    ∷ codes "InventoryDelete"
    ∷ codes "Vip"
    ∷ codes "DiscordTest"
    ∷ codes "Armory"
    ∷ codes "ArmoryBack"
    ∷ codes "Editor"
    ∷ []

unfoldable pub normalize_keys : List Text → Props → Props
normalize_keys [] config = config
normalize_keys (k ∷ ks) config =
    let list = arr (to_items (map str (normalize_command_alias_list (get k config)))) in
    normalize_keys ks (if has_own k config then insert k list config else config)

unfoldable pub normalize_command_aliases_config_for_save : Props → Props
normalize_command_aliases_config_for_save config = normalize_keys command_alias_config_keys config
