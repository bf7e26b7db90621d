-- ===== src/Scheduler.antt =====
-- The scheduled events module before a save: `schedulerValue`, `schedulerMode`,
-- `schedulerArrayKey` and `normalizeSchedulerConfigForSave` of
-- src/ScumWarden.Server/wwwroot/app.js. The configuration comes from `JSON.parse`, so that the
-- copy it starts from is the configuration.
pub mod Laws
pub mod Tests
use scum_ne_djin_release.Prelude.{
  ℕ, Bool, true, false, not, ◌&&◌, ◌||◌, List, [], ◌∷◌, ◌++◌, map, Option, none, some,
  if◌then◌else◌, ◌==◌, find, all, leb,
}
use scum_ne_djin_release.Text.{
  Text, codes, ◌===◌, truthy, trim, trim_start, lower, is_space, is_digit,
}
use scum_ne_djin_release.Js.{
  Value, undefined, num, str, arr, obj, Props, props, to_fields, items, to_items,
}
use scum_ne_djin_release.Js.Numbers.{Number, int, at_least, at_most}
use scum_ne_djin_release.Js.Objects.{get, insert, find_key, keys}
use scum_ne_djin_release.Js.Convert.{is_true, to_text, to_number, ◌or_else◌}
use scum_ne_djin_release.Nested.{write_key}

value_of : Option Text → Props → Value → Value
value_of none row fallback = fallback
value_of (some k) row fallback = if truthy k then get k row else fallback

unfoldable pub scheduler_value : Props → Text → Value → Value
unfolding value_of
scheduler_value row key fallback = value_of (find_key (lower key) row) row fallback

-- The keys of `schedulerModeMeta`.
abbrev pub scheduler_modes : List Text
scheduler_modes = codes "Airdrop" ∷ codes "WorldEvent" ∷ codes "SpawnItems" ∷ codes "Command" ∷ []

unfoldable pub mode_or_command : Option Text → Text
mode_or_command none = codes "Command"
mode_or_command (some k) = k

unfoldable pub scheduler_mode : Props → Text
unfolding mode_or_command
scheduler_mode row =
    let mode =
      to_text (
        scheduler_value row (codes "Mode") (str (codes "Command")) or_else str (codes "Command")) in
    mode_or_command (find (λ k. lower k === lower mode) scheduler_modes)

unfoldable pub scheduler_array_key : Props → Text → Text
scheduler_array_key config wanted = write_key wanted config

unfoldable pub clamp : ℕ → ℕ → Number → Number
clamp lo hi n = at_most hi (at_least lo n)

-- `config[key] = Math.min(Math.max(Number(config[key] || d), lo), hi)`
unfoldable pub clamp_at : Text → ℕ → ℕ → ℕ → Props → Props
clamp_at k d lo hi p = insert k (num (clamp lo hi (to_number (get k p or_else num (int d))))) p

-- `replace(/^#\s*/, '')`
drop_hash : Text → Text
drop_hash [] = []
drop_hash (c ∷ s) = if c == b'#' then trim_start s else c ∷ s

-- `replace(/\s+/g, ' ')`; the flag says that the unit before was white space.
unfoldable pub squeeze : Bool → Text → Text
squeeze space [] = []
squeeze space (c ∷ s) =
    let more = squeeze true s in
    let rest = squeeze false s in if is_space c then if space then more else 32 ∷ more else c ∷ rest

unfoldable pub normalize_cargo_drop_template : Value → Value
unfolding drop_hash
normalize_cargo_drop_template v =
    let key = lower (squeeze false (drop_hash (trim (to_text (v or_else str []))))) in
    if (key === codes "scheduleworldevent cargodrop {x} {y} {z}")
      || (key === codes "scheduleworldevent bp_cargodropevent {x} {y} {z}")
    then str (codes "ScheduleWorldEvent BP_CargoDropEvent X={X} Y={Y} Z={Z}")
    else v

is_class_unit : ℕ → Bool
is_class_unit c =
    (leb b'A' c && leb c b'Z')
    || ((leb b'a' c && leb c b'z') || (is_digit c || ((c == b'_') || ((c == b'.') || (c == b'-')))))

-- `/^[A-Za-z0-9_.-]+$/`
unfoldable pub is_class_name : Text → Bool
unfolding is_class_unit
is_class_name s = truthy s && all is_class_unit s

key_or : Option Text → Text → Text
key_or none k = k
key_or (some j) k = if truthy j then j else k

event_class_key : Props → Text
unfolding key_or
event_class_key job =
    key_or
      (find (λ k. (lower k === codes "worldeventclass") || (lower k === codes "eventclass"))
        (keys job))
      (codes "WorldEventClass")

named : Props → Props
named job =
    if is_true (scheduler_value job (codes "Name") (str []))
    then job
    else insert (codes "Name") (str (codes "Задание")) job

with_event_class : Text → Props → Props
unfolding event_class_key
with_event_class mode job =
    let k = event_class_key job in
    let event_class = trim (to_text (get k job or_else str [])) in
    let chosen = if is_class_name event_class then event_class else codes "BP_CargoDropEvent" in
    if mode === codes "WorldEvent" then insert k (str chosen) job else job

-- A default for a command that is missing or blank.
default_command : Text → Text → Text → Text → Props → Props
default_command wanted command k mode job =
    if (mode === wanted) && not (truthy (trim (to_text (get k job or_else str []))))
    then insert k (str command) job
    else job

with_command : Text → Props → Props
unfolding default_command
with_command mode job =
    let k = write_key (codes "CommandTemplate") job in
    let set = insert k (normalize_cargo_drop_template (get k job)) job in
    default_command (codes "Airdrop")
      (codes "ScheduleWorldEvent BP_CargoDropEvent X={X} Y={Y} Z={Z}") k mode
      (default_command (codes "WorldEvent")
        (codes "ScheduleWorldEvent {WorldEventClass} X={X} Y={Y} Z={Z}") k mode set)

-- `Math.max(Number(job[key] || d), lo)`
raise_at : Text → ℕ → ℕ → Props → Props
raise_at k d lo p = insert k (num (at_least lo (to_number (get k p or_else num (int d))))) p

unfoldable pub normalize_job : Props → Props
unfolding named with_event_class with_command raise_at
normalize_job row =
    let job = named row in
    let mode = scheduler_mode job in
    let moded = insert (codes "Mode") (str mode) job in
    let timed = raise_at (write_key (codes "IntervalMinutes") moded) 60 1 moded in
    let pointed = clamp_at (write_key (codes "PointCount") timed) 1 1 10 timed in
    let counted = clamp_at (write_key (codes "MaxItemsPerRun") pointed) 30 1 300 pointed in
    with_command mode (with_event_class mode counted)

job_value : Value → Value
job_value (obj fs) = obj (to_fields (normalize_job (props fs)))
job_value v = v

set_jobs : Text → Value → Props → Props
unfolding job_value
set_jobs k (arr vs) p = insert k (arr (to_items (map job_value (items vs)))) p
set_jobs k v p = p

unfoldable pub poll_key : Props → Text
poll_key config = write_key (codes "PollIntervalMs") config

unfoldable pub runs_key : Props → Text
runs_key config = write_key (codes "MaxRunsPerTick") config

unfoldable pub normalize_scheduler_config_for_save : Props → Props
unfolding set_jobs
normalize_scheduler_config_for_save config =
    let timed = clamp_at (poll_key config) 15000 5000 600000 config in
    let p = clamp_at (runs_key config) 1 1 10 timed in
    let k = scheduler_array_key p (codes "Jobs") in set_jobs k (get k p) p
