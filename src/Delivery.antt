-- ===== src/Delivery.antt =====
-- The form that hands out items, vehicles, money and skills: `validateWargmRequest`,
-- `addWargmItemFromInputs`, the removal of an item, and what the button "deliver" sends, of
-- src/ScumWarden.Server/wwwroot/app.js. The inputs of the page are taken to be there, with the
-- texts that they hold.
pub mod Laws
pub mod Tests
use scum_ne_djin_release.Prelude.{
  ℕ, Bool, true, false, not, ◌&&◌, ◌||◌, List, [], ◌∷◌, ◌++◌, map, foldl, Option, none, some,
  if◌then◌else◌, all, remove_at,
}
use scum_ne_djin_release.Text.{Text, codes, ◌===◌, truthy, trim}
use scum_ne_djin_release.Js.{Value, undefined, bool, num, str, arr, obj, Props, to_fields, to_items}
use scum_ne_djin_release.Js.Numbers.{Number, int, is_nonzero, below, at_least}
use scum_ne_djin_release.Js.Convert.{to_number, ◌or_else◌}
use scum_ne_djin_release.Players.Target.{TargetBody, service_target_body}
use scum_ne_djin_release.Chat.{first_text}

pub record DeliveryItem : Type 0 where
  pub item_id : Text
  pub quantity : Number

-- `state.wargmItems` and the inputs.
pub record Form : Type 0 where
  pub wargm_items : List DeliveryItem
  pub service_target : Text
  pub mode : Text
  pub single_id : Text
  pub qty : Text
  pub vehicle_id : Text
  pub amount : Text
  pub skill : Text
  pub skill_level : Text
  pub skill_experience : Text
  pub all_skill_level : Text
  pub all_skill_experience : Text
  pub strength : Text
  pub constitution : Text
  pub dexterity : Text
  pub intelligence : Text
  pub command : Text

-- `Number(input.value || n)`
unfoldable pub number_in : Text → ℕ → Number
number_in text n = to_number (str text or_else num (int n))

unfoldable pub is_any : List DeliveryItem → Bool
is_any [] = false
is_any (_ ∷ _) = true

unfoldable pub is_empty_amount : Form → Bool
is_empty_amount f = not (is_nonzero (number_in f.amount 0))

-- `value === 0`; NaN is not 0
unfoldable pub is_zero : Number → Bool
is_zero n = not (is_nonzero n) && not (is_nan n)
  where
    is_nan : Number → Bool
    is_nan Number.nan = true
    is_nan _ = false

unfoldable pub attribute_values : Form → List Number
attribute_values f =
    map (λ s. number_in s 0) (f.strength ∷ f.constitution ∷ f.dexterity ∷ f.intelligence ∷ [])

-- The returns of `validateWargmRequest` in order, each with its condition.
unfoldable pub complaints : Form → List (Bool × Text)
unfolding is_empty_amount is_zero
complaints f =
    (not (truthy (trim f.service_target)), codes "Укажи SteamID или имя игрока в верхнем поле.")
    ∷ (
      (f.mode === codes "item") && (not (is_any f.wargm_items) && not (truthy (trim f.single_id))),
      codes "Добавь предмет в набор или укажи один ID предмета.",
    )
    ∷ (
      (f.mode === codes "vehicle") && not (truthy (trim f.vehicle_id)),
      codes "Укажи ID транспорта.",
    )
    ∷ (
      ((f.mode === codes "money") || ((f.mode === codes "gold") || (f.mode === codes "fame")))
          && is_empty_amount f,
      codes "Укажи ненулевую сумму.",
    )
    ∷ ((f.mode === codes "vip") && below (number_in f.amount 0) 1, codes "Укажи срок VIP в днях.")
    ∷ ((f.mode === codes "skill") && not (truthy (trim f.skill)), codes "Укажи навык.")
    ∷ (
      (f.mode === codes "attributes") && all is_zero (attribute_values f),
      codes "Укажи значения атрибутов.",
    )
    ∷ ((f.mode === codes "command") && not (truthy (trim f.command)), codes "Укажи команду.")
    ∷ []

unfoldable pub validate_wargm_request : Form → Text
validate_wargm_request f = first_text (complaints f) []

-- The message shown if the item has no id, and the form after it.
unfoldable pub add_wargm_item_from_inputs : Form → Form
add_wargm_item_from_inputs f =
    let item_id = trim f.single_id in
    let quantity = at_least 1 (number_in f.qty 1) in
    if not (truthy item_id) then f else record f {
      wargm_items = f.wargm_items ++ record { item_id = item_id; quantity = quantity } ∷ [];
      single_id = [];
      qty = codes "1";
    }

unfoldable pub remove_wargm_item : ℕ → Form → Form
remove_wargm_item i f = record f { wargm_items = remove_at f.wargm_items i }

-- The items of a delivery.
unfoldable pub delivery_items : Form → List DeliveryItem
delivery_items f =
    if is_any f.wargm_items
    then f.wargm_items
    else if truthy (trim f.single_id)
    then record { item_id = trim f.single_id; quantity = number_in f.qty 1 } ∷ []
    else []

unfoldable pub item_value : DeliveryItem → Value
item_value i =
    obj (to_fields ((codes "ItemId", str i.item_id) ∷ (codes "Quantity", num i.quantity) ∷ []))

-- `serviceTargetBody()`
unfoldable pub target_fields : TargetBody → Props
target_fields t =
    (codes "steamId", t.steam_id)
    ∷ (codes "name", t.name)
    ∷ (codes "runtimeKey", t.runtime_key)
    ∷ []

-- `Math.max(1, Number(amount || 30))` for VIP
unfoldable pub duration_days : Form → Value
duration_days f =
    let amount = number_in f.amount 0 in
    if f.mode === codes "vip"
    then num (at_least 1 (if is_nonzero amount then amount else int 30))
    else undefined

unfoldable pub skill_fields : Form → Props
skill_fields f =
    let is_all = f.mode === codes "allskills" in
    let skill = str (if is_all then codes "allskills" else trim f.skill) in
    let level = num (if is_all then number_in f.all_skill_level 4 else number_in f.skill_level 0) in
    let experience =
      num (if is_all then number_in f.all_skill_experience 0 else number_in f.skill_experience 0) in
    (codes "skill", skill)
    ∷ (codes "skillName", skill)
    ∷ (codes "allSkills", bool is_all)
    ∷ (codes "AllSkills", bool is_all)
    ∷ (codes "level", level)
    ∷ (codes "skillLevel", level)
    ∷ (codes "experience", experience)
    ∷ (codes "skillExperience", experience)
    ∷ []

unfoldable pub delivery_body : List Props → Form → Props
unfolding item_value
delivery_body players f =
    target_fields (service_target_body players f.service_target)
    ++ (codes "mode", str f.mode)
      ∷ (codes "itemId", str (trim f.single_id))
      ∷ (codes "quantity", num (number_in f.qty 1))
      ∷ (codes "Items", arr (to_items (map item_value (delivery_items f))))
      ∷ (codes "vehicleId", str (trim f.vehicle_id))
      ∷ (codes "amount", num (number_in f.amount 0))
      ∷ (codes "durationDays", duration_days f)
      ∷ (codes "currency", str (if f.mode === codes "gold" then codes "Gold" else codes "Normal"))
      ∷ skill_fields f
    ++ (codes "strength", num (number_in f.strength 0))
      ∷ (codes "constitution", num (number_in f.constitution 0))
      ∷ (codes "dexterity", num (number_in f.dexterity 0))
      ∷ (codes "intelligence", num (number_in f.intelligence 0))
      ∷ (codes "command", str (trim f.command))
      ∷ []

-- What the button does: the message that it shows, or the body that it sends.
pub data Delivered : Type 0 where
  refused : Text → Delivered
  requested : Props → Delivered

unfoldable pub deliver : List Props → Form → Delivered
deliver players f =
    let message = validate_wargm_request f in
    if truthy message then refused message else requested (delivery_body players f)
