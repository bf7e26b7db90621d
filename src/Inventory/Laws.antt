-- ===== src/Inventory/Laws.antt =====
-- What the deletion of items sends, and what it reports.
use scum_ne_djin_release.Prelude.{
  ℕ, suc, ◌+◌, ◌≤◌, ◌≡◌, ◌⊎◌, refl, sym, ap, ◌∙◌, true, false, ◌||◌, List, [], ◌∷◌, ◌++◌, map, none,
  some, inl, inr, arith, All, length, filter, subst, ◌==◌, ◌&&◌, flatten, length-append,
}
use scum_ne_djin_release.Text.{Text, codes, ◌===◌, has}
use scum_ne_djin_release.Text.Fresh.{fresh_by, Distinct, fresh_by-Distinct, fresh_by_complete}
use scum_ne_djin_release.Js.{Value, str, arr, Props, items, to_items}
use scum_ne_djin_release.Js.Laws.{get-insert, get-insert_self, items-to_items}
use scum_ne_djin_release.Js.Numbers.{int}
use scum_ne_djin_release.Js.Numbers.Bounds.{InRange, max-min-InRange}
use scum_ne_djin_release.Js.Objects.{get, assign}
use scum_ne_djin_release.Js.Sorting.{All-sort_back}
use scum_ne_djin_release.Inventory.{
  depth, Answer, answered, rejected, DestroyResult, entity_id, has_entity, by_depth, is_no_entity,
  unique_inventory_entity_ids, chunks, target_names, destroy_body, count_batch, destroy_chunks,
  clean_ids, id_row, destroy_requests, destroy_inventory_entities_fast, clean_quantity,
}
use scum_ne_djin_release.Inventory.Batches.{flatten-chunks, IsBatch, chunks-IsBatch}

map_same : (ids : List Text) → map (λ id. id) ids ≡ ids
map_same [] = refl
map_same (id ∷ ids) = ap (id ∷◌) (map_same ids)

-- The ids of a deletion are neither empty nor "0", and none is twice among them.
pub unique_ids-Distinct :
    (rows : List Value)
    → All (λ id. is_no_entity id ≡ false) (unique_inventory_entity_ids rows)
      × Distinct (unique_inventory_entity_ids rows)
unfolding unique_inventory_entity_ids
unique_ids-Distinct rows =
    let (h, d) = fresh_by-Distinct (λ id. id) is_no_entity (ids_of rows) in
    (h, subst Distinct (map_same (fresh_by (λ id. id) is_no_entity [] (ids_of rows))) d)
  where
    ids_of : List Value → List Text
    ids_of r = map entity_id (by_depth (filter has_entity r))

-- A row with an id other than "0" is deleted.
IsDeleted : List Text → Value → Type 0
IsDeleted ids row = (is_no_entity (entity_id row) || has ids (entity_id row)) ≡ true

all-IsDeleted :
    (ids : List Text) (rows : List Value)
    → All (λ id. (is_no_entity id || has ids id) ≡ true) (map entity_id rows)
    → All (IsDeleted ids) rows
unfolding IsDeleted
all-IsDeleted ids [] h = tt
all-IsDeleted ids (row ∷ rows) (k, h) = (k, all-IsDeleted ids rows h)

-- Every row with an entity id other than "0" is among the ids of a deletion, whatever the depths
-- of the rows are.
pub unique_ids_complete :
    (rows : List Value)
    → All
        (λ row.
          (is_no_entity (entity_id row) || has (unique_inventory_entity_ids rows) (entity_id row))
          ≡ true)
        (filter has_entity rows)
unfolding unique_inventory_entity_ids IsDeleted by_depth
unique_ids_complete rows =
    let listed = filter has_entity rows in
    let ids = map entity_id (by_depth listed) in
    let kept = fresh_by (λ id. id) is_no_entity [] ids in
    All-sort_back depth (IsDeleted kept) listed (
      all-IsDeleted kept (by_depth listed) (
        subst (λ k. All (λ id. (is_no_entity id || has k id) ≡ true) ids) (map_same kept)
          (fresh_by_complete (λ id. id) is_no_entity ids)))

pub read_ids : Props → List Value
read_ids body = ids_in (get (codes "entityIds") body)
  where
    ids_in : Value → List Value
    ids_in (arr vs) = items vs
    ids_in _ = []

destroy_body-ids :
    (target : Props) (chunk : List Text)
    → get (codes "entityIds") (destroy_body target chunk) ≡ arr (to_items (map str chunk))
unfolding destroy_body assign target_names
destroy_body-ids target chunk =
    get-insert (codes "entitiesText") (codes "entityIds") _ _ (unfold ◌===◌ in refl)
    ∙ get-insert_self (codes "entityIds") _ _

-- The ids that a list of requests names, in order.
pub sent_ids : List Props → List Value
unfolding read_ids
sent_ids bodies = flatten (map read_ids bodies)

map-append : (xs ys : List Text) → map str (xs ++ ys) ≡ map str xs ++ map str ys
map-append [] ys = refl
map-append (x ∷ xs) ys = ap (str x ∷◌) (map-append xs ys)

sent_ids-chunks :
    (target : Props) (batches : List (List Text))
    → sent_ids (map (destroy_body target) batches) ≡ map str (flatten batches)
unfolding sent_ids read_ids
sent_ids-chunks target [] = refl
sent_ids-chunks target (chunk ∷ more) =
    rw
      (
        destroy_body-ids target chunk,
        items-to_items (map str chunk),
        map-append chunk (flatten more),
      )
      (ap (map str chunk ++◌) (sent_ids-chunks target more))

rejected_more : Answer → ℕ → ℕ
rejected_more (answered v) n = n
rejected_more (rejected m) n = suc n

-- How many of the requests are rejected.
pub rejections : (ℕ → Props → Answer) → ℕ → List Props → ℕ
unfolding rejected_more
rejections api i [] = 0
rejections api i (body ∷ more) = rejected_more (api i body) (rejections api (i + 1) more)

record Counted (r q : DestroyResult) (rejects : ℕ) : Type 0 where
  pub failures : length q.failed ≡ length r.failed + rejects
  pub success : q.ok ≡ (r.ok && rejects == 0)
  pub requested_same : q.requested ≡ r.requested
  pub chunks_same : q.chunk_count ≡ r.chunk_count

Counted-batch :
    (i : ℕ) (chunk : List Text) (a : Answer) (r q : DestroyResult) (rest : ℕ)
    → Counted (count_batch i chunk a r) q rest
    → Counted r q (rejected_more a rest)
unfolding count_batch rejected_more
Counted-batch i chunk (answered v) r q rest c = record {
  failures = c.failures;
  success = c.success;
  requested_same = c.requested_same;
  chunks_same = c.chunks_same;
}
Counted-batch i chunk (rejected m) r q rest c = record {
  failures = omega (arith, c.failures, length-append r.failed (_ ∷ []));
  success = ground (arith, c.success);
  requested_same = c.requested_same;
  chunks_same = c.chunks_same;
}

destroy_chunks-Counted :
    (api : ℕ → Props → Answer) (target : Props) (i : ℕ) (batches : List (List Text))
    (r : DestroyResult)
    → Counted r
        (destroy_chunks api target i batches r)
        (rejections api i (map (destroy_body target) batches))
unfolding destroy_chunks rejections
destroy_chunks-Counted api target i [] r = record {
  failures = omega arith;
  success = ground arith;
  requested_same = refl;
  chunks_same = refl;
}
destroy_chunks-Counted api target i (chunk ∷ more) r =
    Counted-batch i chunk (api i (destroy_body target chunk)) r _ _
      (destroy_chunks-Counted api target (i + 1) more _)

-- What a deletion reports, for the ids it cleaned and the requests it made.
pub record IsReported (ids : List Text) (requests rejects : ℕ) (r : DestroyResult) : Type 0 where
  pub requested_all : r.requested ≡ length ids
  pub batches_all : r.chunk_count ≡ requests
  pub failures_all : length r.failed ≡ rejects
  pub success_all : r.ok ≡ (rejects == 0)

length-map :
    (f : List Text → Props) (batches : List (List Text)) → length (map f batches) ≡ length batches
length-map f [] = refl
length-map f (b ∷ batches) = ap suc (length-map f batches)

-- A deletion throws if no id is left; else it asks for all of them, tells how many batches there
-- are, records one failure for each batch that is rejected, and succeeds exactly if none is.
pub destroy-IsReported :
    (api : ℕ → Props → Answer) (ids : List Value) (target : Props)
    → ((clean_ids ids ≡ []) × (destroy_inventory_entities_fast api ids target ≡ none))
      ⊎ ((r : DestroyResult) × (destroy_inventory_entities_fast api ids target ≡ some r)
          × IsReported
              (clean_ids ids)
              (length (destroy_requests ids target))
              (rejections api 0 (destroy_requests ids target))
              r)
unfolding destroy_inventory_entities_fast destroy_requests
destroy-IsReported api ids target = go (clean_ids ids) refl
  where
    go :
        (clean : List Text)
        → clean_ids ids ≡ clean
        → ((clean_ids ids ≡ []) × (destroy_inventory_entities_fast api ids target ≡ none))
          ⊎ ((r : DestroyResult) × (destroy_inventory_entities_fast api ids target ≡ some r)
              × IsReported
                  (clean_ids ids)
                  (length (destroy_requests ids target))
                  (rejections api 0 (destroy_requests ids target))
                  r)
    go [] e = inl (e, rw e refl)
    go (id ∷ more) e =
        let batches = chunks (length (id ∷ more)) (id ∷ more) in
        let c = destroy_chunks-Counted api target 0 batches (record {
          ok = true;
          requested = length (id ∷ more);
          chunk_count = length batches;
          queued = int 0;
          failed = [];
        }) in
        rw e (
          inr (
            _,
            refl,
            record {
              requested_all = c.requested_same;
              batches_all = c.chunks_same ∙ sym (length-map (destroy_body target) batches);
              failures_all = omega (arith, c.failures);
              success_all = ground (arith, c.success);
            },
          ))

abbrev pub IsSmall : Props → Type 0
IsSmall body = (1 ≤ length (read_ids body)) × (length (read_ids body) ≤ 6)

length-map_str : (ids : List Text) → length (map str ids) ≡ length ids
length-map_str [] = refl
length-map_str (id ∷ ids) = ap suc (length-map_str ids)

batch-IsSmall :
    (target : Props) (batches : List (List Text))
    → All IsBatch batches
    → All IsSmall (map (destroy_body target) batches)
unfolding read_ids
batch-IsSmall target [] h = tt
batch-IsSmall target (chunk ∷ more) (k, h) =
    rw (destroy_body-ids target chunk, items-to_items (map str chunk), length-map_str chunk)
      (k, batch-IsSmall target more h)

-- The requests of a deletion name each cleaned id once and in order, from one to six in a
-- request.
pub destroy_requests-IsExact :
    (ids : List Value) (target : Props)
    → (sent_ids (destroy_requests ids target) ≡ map str (clean_ids ids))
      × All IsSmall (destroy_requests ids target)
      × Distinct (clean_ids ids)
unfolding destroy_requests clean_ids
destroy_requests-IsExact ids target =
    let clean = clean_ids ids in
    let batches = chunks (length clean) clean in
    (
      sent_ids-chunks target batches
          ∙ ap (map str) (flatten-chunks (length clean) clean (omega arith)),
      batch-IsSmall target batches (chunks-IsBatch (length clean) clean),
      (unique_ids-Distinct (map id_row ids)).1,
    )

-- The quantity that is added to an inventory is from 1 to 20, unless what was typed is no number.
pub clean_quantity-InRange : (quantity : Value) → InRange 1 20 (clean_quantity quantity)
unfolding clean_quantity
clean_quantity-InRange quantity = max-min-InRange 1 20 _ (omega arith)
