-- ===== src/Scheduler/Tests.antt =====
-- The scheduler at concrete values.
use scum_ne_djin_release.Prelude.{[], ◌∷◌}
use scum_ne_djin_release.Text.{codes}
use scum_ne_djin_release.Js.{str, num, Props}
use scum_ne_djin_release.Js.Numbers.{int}

abbrev hasty : Props
hasty = (codes "pollIntervalMs", num (int 20)) ∷ (codes "mode", str (codes "airdrop")) ∷ []
