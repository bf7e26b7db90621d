-- ===== src/Inventory/Tests.antt =====
-- The deletion of items at concrete lists.
use scum_ne_djin_release.Prelude.{
  ℕ, zero, suc, ◌≡◌, ◌⊎◌, refl, List, [], ◌∷◌, map, none, some, All, length,
}
use scum_ne_djin_release.Text.{codes, text_ops}
use scum_ne_djin_release.Text.Fresh.{Distinct, fresh_by}
use scum_ne_djin_release.Js.{Value, num, str, obj, Props, to_fields}
use scum_ne_djin_release.Js.Convert.{value_ops}
use scum_ne_djin_release.Js.Numbers.{int}
use scum_ne_djin_release.Js.Numbers.Arith.{less}
use scum_ne_djin_release.Js.Sorting.{sort_desc, insert_desc}
use scum_ne_djin_release.Inventory.{
  depth, by_depth, has_entity, is_no_entity, entity_id, unique_inventory_entity_ids, Answer,
  answered, rejected, DestroyResult, clean_ids, destroy_requests, destroy_inventory_entities_fast,
}
use scum_ne_djin_release.Inventory.Laws.{
  sent_ids, IsSmall, rejections, IsReported, destroy_requests-IsExact, destroy-IsReported,
}

abbrev row : Value → ℕ → Value
row id d = obj (to_fields ((codes "entityId", id) ∷ (codes "depth", num (int d)) ∷ []))

-- A backpack with a knife in it, which is listed twice.
abbrev rows : List Value
rows =
    row (str (codes "10")) 0
    ∷ row (num (int 7)) 2
    ∷ row (str (codes "0")) 1
    ∷ row (str (codes " 7 ")) 2
    ∷ []

-- What lies deepest goes first.
ids_of_rows : unique_inventory_entity_ids rows ≡ codes "7" ∷ codes "10" ∷ []
unfolding value_ops text_ops unique_inventory_entity_ids by_depth sort_desc insert_desc depth
    has_entity entity_id is_no_entity fresh_by less
ids_of_rows = refl

abbrev ids : List Value
ids = map (λ n. num (int n)) (1 ∷ 2 ∷ 3 ∷ 4 ∷ 5 ∷ 6 ∷ 7 ∷ 3 ∷ [])

abbrev player : Props
player = (codes "steamId", str (codes "76561198000000001")) ∷ []

destroy_requests-IsExact_example :
    (sent_ids (destroy_requests ids player) ≡ map str (clean_ids ids))
    × All IsSmall (destroy_requests ids player)
    × Distinct (clean_ids ids)
destroy_requests-IsExact_example = destroy_requests-IsExact ids player

-- The second batch is rejected.
abbrev server : ℕ → Props → Answer
server zero body = answered (obj (to_fields []))
server (suc i) body = rejected (codes "timeout")

destroy-IsReported_example :
    ((clean_ids ids ≡ []) × (destroy_inventory_entities_fast server ids player ≡ none))
    ⊎ ((r : DestroyResult) × (destroy_inventory_entities_fast server ids player ≡ some r)
        × IsReported
            (clean_ids ids)
            (length (destroy_requests ids player))
            (rejections server 0 (destroy_requests ids player))
            r)
destroy-IsReported_example = destroy-IsReported server ids player
