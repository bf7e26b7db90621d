-- ===== src/Inventory.antt =====
-- The inventory of the selected player: `uniqueInventoryEntityIds`,
-- `destroyInventoryEntitiesFast`, `addItemToInventory`, and the buttons that delete one item or
-- all of them, of src/ScumWarden.Server/wwwroot/app.js. The server is an argument: what it
-- answers to the request of a number with a body. The delays between two requests are left out.
pub mod Batches
pub mod Laws
pub mod Tests
use scum_ne_djin_release.Prelude.{
  ℕ, zero, suc, ◌+◌, Bool, true, false, not, ◌&&◌, ◌||◌, List, [], ◌∷◌, ◌++◌, map, foldl, Option,
  none, some, if◌then◌else◌, filter, length, take, drop, leb,
}
use scum_ne_djin_release.Text.{Text, codes, ◌===◌, truthy, trim}
use scum_ne_djin_release.Text.Fresh.{fresh_by}
use scum_ne_djin_release.Text.Lines.{join}
use scum_ne_djin_release.Js.{
  Value, undefined, num, str, arr, obj, Fields, Props, to_fields, to_items,
}
use scum_ne_djin_release.Js.Numbers.{Number, int, at_least, at_most, print_nat}
use scum_ne_djin_release.Js.Numbers.Arith.{add}
use scum_ne_djin_release.Js.Sorting.{sort_desc}
use scum_ne_djin_release.Js.Objects.{get, assign, props_of}
use scum_ne_djin_release.Js.Convert.{to_number, to_text, ◌or_else◌, is_true, first_true}

-- `Number(row.depth || 0)`
unfoldable pub depth : Value → Number
depth row = to_number (get (codes "depth") (props_of row) or_else num (int 0))

unfoldable pub has_entity : Value → Bool
has_entity row = is_true (get (codes "entityId") (props_of row))

-- The sort by depth, deepest first
unfoldable pub by_depth : List Value → List Value
by_depth rows = sort_desc depth rows

unfoldable pub entity_id : Value → Text
entity_id row = trim (to_text (get (codes "entityId") (props_of row) or_else str []))

unfoldable pub is_no_entity : Text → Bool
is_no_entity id = not (truthy id) || id === codes "0"

unfoldable pub unique_inventory_entity_ids : List Value → List Text
unique_inventory_entity_ids rows =
    fresh_by (λ id. id) is_no_entity [] (map entity_id (by_depth (filter has_entity rows)))

-- The slices of six; the fuel is the number of ids.
unfoldable pub chunks : ℕ → List Text → List (List Text)
chunks zero ids = []
chunks (suc fuel) [] = []
chunks (suc fuel) (id ∷ ids) = take 6 (id ∷ ids) ∷ chunks fuel (drop 6 (id ∷ ids))

-- The names of the target that every command carries.
unfoldable pub target_names : Props → Props
target_names target =
    (codes "targetSteamId", get (codes "steamId") target)
    ∷ (codes "targetName", get (codes "name") target)
    ∷ (codes "targetRuntimeKey", get (codes "runtimeKey") target)
    ∷ []

unfoldable pub destroy_body : Props → List Text → Props
destroy_body target chunk = assign target (
    target_names target
    ++ (codes "entityIds", arr (to_items (map str chunk)))
      ∷ (codes "entitiesText", str (join (codes " ") chunk))
      ∷ [])

-- `api` resolves with a value or rejects with a message.
pub data Answer : Type 0 where
  answered : Value → Answer
  rejected : Text → Answer

pub record DestroyResult : Type 0 where
  pub ok : Bool
  pub requested : ℕ
  pub chunk_count : ℕ
  pub queued : Number
  pub failed : List Text

-- `x && (x.payload || x.data || x)`
unfoldable pub inner : Value → Value
inner v =
    if is_true v
    then get (codes "payload") (props_of v) or_else (get (codes "data") (props_of v) or_else v)
    else v

unfoldable pub batch_size : Value → List Text → Number
batch_size answer chunk =
    let payload = inner (inner answer) in
    to_number (
      (if is_true payload
        then first_true (codes "batchSize" ∷ codes "requested" ∷ codes "sent" ∷ [])
            (props_of payload)
        else payload)
      or_else num (int (length chunk)))

-- What a batch's answer makes of the result.
unfoldable pub count_batch : ℕ → List Text → Answer → DestroyResult → DestroyResult
count_batch i chunk (answered v) r = record r { queued = add r.queued (batch_size v chunk) }
count_batch i chunk (rejected m) r = record r {
  ok = false;
  failed = r.failed ++ (codes "batch " ++ print_nat (i + 1) ++ codes ": " ++ m) ∷ [];
}

unfoldable pub destroy_chunks :
    (ℕ → Props → Answer) → Props → ℕ → List (List Text) → DestroyResult → DestroyResult
destroy_chunks api target i [] r = r
destroy_chunks api target i (chunk ∷ more) r =
    destroy_chunks api target (i + 1) more
      (count_batch i chunk (api i (destroy_body target chunk)) r)

unfoldable pub id_row : Value → Value
id_row id = obj (to_fields ((codes "entityId", id) ∷ []))

unfoldable pub clean_ids : List Value → List Text
clean_ids ids = unique_inventory_entity_ids (map id_row ids)

-- The bodies of the requests that are made, in order.
unfoldable pub destroy_requests : List Value → Props → List Props
destroy_requests ids target =
    map (destroy_body target) (chunks (length (clean_ids ids)) (clean_ids ids))

-- `none` where the code throws.
unfoldable pub destroy_inventory_entities_fast :
    (ℕ → Props → Answer) → List Value → Props → Option DestroyResult
destroy_inventory_entities_fast api ids target =
    let clean = clean_ids ids in
    let batches = chunks (length clean) clean in
    if not (truthy_ids clean)
    then none
    else some (
        destroy_chunks api target 0 batches (record {
          ok = true;
          requested = length clean;
          chunk_count = length batches;
          queued = int 0;
          failed = [];
        }))
  where
    truthy_ids : List Text → Bool
    truthy_ids [] = false
    truthy_ids (_ ∷ _) = true

-- `Math.max(1, Math.min(Number(quantity || 1), 20))`
unfoldable pub clean_quantity : Value → Number
clean_quantity quantity = at_least 1 (at_most 20 (to_number (quantity or_else num (int 1))))

-- The arguments of the command; `none` where the code throws.
unfoldable pub add_item_to_inventory : Value → Value → Props → Option Props
add_item_to_inventory item_id quantity target =
    let clean = trim (to_text (item_id or_else str [])) in
    if not (truthy clean)
    then none
    else some (
        (codes "command", str (codes "add_inventory_item"))
        ∷ (
          codes "args",
          obj (
              to_fields (
                assign target (
                  target_names target
                  ++ (codes "itemId", str clean)
                    ∷ (codes "quantity", num (clean_quantity quantity))
                    ∷ []))),
        )
        ∷ [])

-- What the button that clears the inventory reports.
pub record ClearResult : Type 0 where
  pub clear_ok : Bool
  pub sent : ℕ
  pub listed : ℕ
  pub clear_failed : List Text

clear_result : ℕ → ℕ → Option DestroyResult → ClearResult
clear_result listed sent none = record {
  clear_ok = false;
  sent = 0;
  listed = listed;
  clear_failed = codes "Нет EntityID для удаления." ∷ [];
}
clear_result listed sent (some r) = record {
  clear_ok = r.ok;
  sent = sent;
  listed = listed;
  clear_failed = [];
}

-- `none` where the panel has no list of items.
unfoldable pub clear_inventory : (ℕ → Props → Answer) → List Value → Props → Option ClearResult
unfolding clear_result
clear_inventory api rows target =
    let items = by_depth (filter has_entity rows) in
    let ids = unique_inventory_entity_ids items in
    if not (leb 1 (length items))
    then none
    else some (
        clear_result (length items) (length ids)
          (destroy_inventory_entities_fast api (map str ids) target))
