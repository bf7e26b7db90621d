-- ===== src/Modules/Tests.antt =====
-- Modules at concrete lists.
use scum_ne_djin_release.Prelude.{◌≡◌, List, [], ◌∷◌, All}
use scum_ne_djin_release.Text.{codes}
use scum_ne_djin_release.Js.{str, Props}
use scum_ne_djin_release.Modules.{ensure_panel_modules}
use scum_ne_djin_release.Modules.Laws.{Lists, panel_keys, ensure_panel_modules_lem}

abbrev served : List Props
served = ((codes "key", str (codes "Battlepass")) ∷ []) ∷ []

ensure_panel_modules_lem_example :
    All (λ k. Lists k (ensure_panel_modules served)) panel_keys
    × (ensure_panel_modules (ensure_panel_modules served) ≡ ensure_panel_modules served)
ensure_panel_modules_lem_example = ensure_panel_modules_lem served
