-- ===== src/Nested/Tests.antt =====
-- Reads behind writes at concrete configurations.
use scum_ne_djin_release.Prelude.{◌≡◌, refl, [], ◌∷◌}
use scum_ne_djin_release.Text.{codes}
use scum_ne_djin_release.Js.{str, num, obj, Fields, end, field, props}
use scum_ne_djin_release.Js.Numbers.{int}
use scum_ne_djin_release.Js.Objects.{get, insert}
use scum_ne_djin_release.Nested.{
  nested_ops, own, get_parts, set_parts, get_nested_value, set_nested_value,
}
use scum_ne_djin_release.Nested.Laws.{IsClear, get_parts-set_parts, shadowed_write}

abbrev limits : Fields
limits = field (codes "maxLines") (num (int 5)) end

limits-IsClear : IsClear (codes "MaxLines") (props limits)
unfolding nested_ops
limits-IsClear h = cc

nested_write :
    get_nested_value (set_nested_value (obj end) (codes "Point.1") (num (int 7))) (codes "point.1")
    ≡ num (int 7)
unfolding nested_ops
nested_write = refl

get_parts-set_parts_example :
    get_parts (codes "MaxLines" ∷ []) (set_parts (codes "MaxLines" ∷ []) (num (int 9)) (obj limits))
    ≡ num (int 9)
unfolding nested_ops
get_parts-set_parts_example =
    get_parts-set_parts (codes "MaxLines") (num (int 9)) limits limits-IsClear

abbrev both : Fields
both = field (codes "text") (str (codes "a")) (field (codes "Text") (str (codes "b")) end)

shadowed_write_example :
    let written = set_parts (codes "Text" ∷ []) (str (codes "c")) (obj both) in
    (own written ≡ insert (codes "text") (str (codes "c")) (props both))
    × (get (codes "text") (own written) ≡ str (codes "c"))
    × (get_parts (codes "Text" ∷ []) written ≡ str (codes "b"))
unfolding nested_ops
shadowed_write_example =
    shadowed_write (codes "Text") (codes "text") (str (codes "c")) (str (codes "b")) both refl refl
      refl refl
