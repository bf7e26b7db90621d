-- ===== src/Shop/Tests.antt =====
-- Rules at concrete values.
use scum_ne_djin_release.Prelude.{[], ◌∷◌}
use scum_ne_djin_release.Text.{codes}
use scum_ne_djin_release.Js.{str, Props}

abbrev airdrop : Props
airdrop = (codes "deliveryMode", str (codes "Air-Drop")) ∷ []
