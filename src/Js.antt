-- ===== src/Js.antt =====
-- The values of JavaScript that the panel of src/ScumWarden.Server/wwwroot/app.js passes around:
-- what JSON holds, and `undefined`. An object is its properties in the order of `Object.keys`
-- (no key of the panel is an array index). Functions and other host objects are left out, and so
-- are the members that every object inherits (`constructor` and the like): a key or a table entry
-- of such a name counts as missing.
pub mod Numbers
pub mod Objects
pub mod Laws
pub mod Convert
pub mod Sorting
pub mod Regex
use scum_ne_djin_release.Prelude.{ℕ, Bool, List, [], ◌∷◌}
use scum_ne_djin_release.Text.{Text}
use scum_ne_djin_release.Js.Numbers.{Number}

mutual
  pub data Value : Type 0 where
    undefined null : Value
    bool : Bool → Value
    num : Number → Value
    str : Text → Value
    arr : Items → Value
    obj : Fields → Value

  pub data Items : Type 0 where
    nil : Items
    cons : Value → Items → Items

  pub data Fields : Type 0 where
    end : Fields
    field : Text → Value → Fields → Fields

unfoldable pub items : Items → List Value
items nil = []
items (cons v vs) = v ∷ items vs

unfoldable pub to_items : List Value → Items
to_items [] = nil
to_items (v ∷ vs) = cons v (to_items vs)

abbrev pub Props : Type 0
Props = List (Text × Value)

unfoldable pub props : Fields → Props
props end = []
props (field k v fs) = (k, v) ∷ props fs

unfoldable pub to_fields : Props → Fields
to_fields [] = end
to_fields ((k, v) ∷ ps) = field k v (to_fields ps)
