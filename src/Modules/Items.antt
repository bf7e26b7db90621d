-- ===== src/Modules/Items.antt =====
-- The row that a list of a configuration gets when one is added: `defaultArrayItem` of
-- src/ScumWarden.Server/wwwroot/app.js. `expires` is the time thirty days from now.
use scum_ne_djin_release.Prelude.{Bool, true, false, ◌&&◌, ◌||◌, List, [], ◌∷◌, ◌++◌, if◌then◌else◌}
use scum_ne_djin_release.Text.{Text, codes, ◌===◌, lower}
use scum_ne_djin_release.Js.{Value, bool, num, str, arr, obj, nil, end, Props, to_fields, to_items}
use scum_ne_djin_release.Js.Numbers.{int}

-- More fields for the shop "gamestores-shop"; no key of `fields` is in the row already.
shop_fields : Text → Props → Props
shop_fields module_key fields = if module_key === codes "gamestores-shop" then fields else []

default_upgrade_rule : Value
default_upgrade_rule = obj (
    to_fields (
      (codes "Enabled", bool false)
      ∷ (codes "Alias", str (codes "barrett-light"))
      ∷ (codes "DisplayName", str (codes "Лёгкий Barrett"))
      ∷ (codes "SourceItemId", str (codes "Weapon_M82A1"))
      ∷ (codes "ResultItemId", str (codes "Weapon_M82A1"))
      ∷ (codes "Weight", num (int 1))
      ∷ (codes "Health", num (int 0))
      ∷ (codes "Uses", num (int 0))
      ∷ (codes "Dirtiness", num (int 0))
      ∷ (codes "AmmoCount", num (int 0))
      ∷ (codes "CashValue", num (int 0))
      ∷ (codes "KeyCardSector", str (codes ""))
      ∷ (codes "CostMoney", num (int 10000))
      ∷ (codes "CostGold", num (int 0))
      ∷ (codes "CostFame", num (int 0))
      ∷ (codes "RequiredCostItemId", str (codes ""))
      ∷ (codes "RequiredCostItemQuantity", num (int 0))
      ∷ (
        codes "SuccessMessage",
        str (codes "Предмет улучшен. Заберите новую версию рядом с собой."),
      )
      ∷ []))

default_zone_rule : Value
default_zone_rule = obj (
    to_fields (
      (codes "Enabled", bool false)
      ∷ (codes "Name", str (codes "Новое правило зоны"))
      ∷ (codes "Zone", str (codes "B2"))
      ∷ (codes "ScheduleTimesOn", str (codes "21:00"))
      ∷ (codes "ScheduleTimesOff", str (codes "06:00"))
      ∷ (codes "CommandTemplateOn", str (codes "Announce Роботы включены в зоне {Zone}."))
      ∷ (codes "CommandTemplateOff", str (codes "Announce Роботы отключены в зоне {Zone}."))
      ∷ (codes "AnnouncementOn", str (codes ""))
      ∷ (codes "AnnouncementOff", str (codes ""))
      ∷ []))

default_loot_rule : Value
default_loot_rule = obj (
    to_fields (
      (codes "Enabled", bool true)
      ∷ (codes "Name", str (codes "Новое правило"))
      ∷ (codes "MatchContains", str (codes "weapon;ammo;food"))
      ∷ (codes "ChestName", str (codes "Loot"))
      ∷ []))

default_quest : Value
default_quest = obj (
    to_fields (
      (codes "Enabled", bool true)
      ∷ (codes "Alias", str (codes "quest"))
      ∷ (codes "Title", str (codes "Новый квест"))
      ∷ (codes "Mode", str (codes "Claim"))
      ∷ (codes "Description", str (codes "Описание квеста."))
      ∷ (codes "TargetItemId", str (codes ""))
      ∷ (codes "TargetCount", num (int 0))
      ∷ (codes "RewardMoney", num (int 0))
      ∷ (codes "RewardGold", num (int 0))
      ∷ (codes "RewardFame", num (int 0))
      ∷ (codes "RewardItemsText", str (codes "Apple_2|1"))
      ∷ (codes "SuccessMessage", str (codes "Квест выполнен: {title}."))
      ∷ (codes "Announcement", str (codes ""))
      ∷ []))

default_item : Text → Value
default_item key = obj (
    if key === codes "items"
    then (to_fields
        ((codes "itemId", str (codes "Apple_2")) ∷ (codes "quantity", num (int 1)) ∷ []))
    else (to_fields
        ((codes "ItemId", str (codes "Apple_2")) ∷ (codes "Quantity", num (int 1)) ∷ [])))

default_vip_item : Text → Value
default_vip_item key = obj (
    if key === codes "vipitems"
    then (to_fields
        ((codes "itemId", str (codes "Apple_2")) ∷ (codes "quantity", num (int 1)) ∷ []))
    else (to_fields
        ((codes "ItemId", str (codes "Apple_2")) ∷ (codes "Quantity", num (int 1)) ∷ [])))

default_battlepass_reward : Text → Text → Value
default_battlepass_reward key normalized =
    let vip = normalized === codes "viprewards" in
    obj (
      if key === normalized
      then (to_fields (
          (codes "enabled", bool true)
          ∷ (codes "day", num (int 1))
          ∷ (codes "moneyAmount", if vip then num (int 5000) else num (int 3000))
          ∷ (codes "goldAmount", num (int 0))
          ∷ (codes "fameAmount", num (int 0))
          ∷ (codes "itemsText", if vip then str (codes "Apple_2|4") else str (codes "Apple_2|2"))
          ∷ (
            codes "message",
            if vip
                then str (codes "VIP Battlepass награда {day}/{maxDays} получена.")
                else str (codes "Battlepass награда {day}/{maxDays} получена."),
          )
          ∷ []))
      else (to_fields (
          (codes "Enabled", bool true)
          ∷ (codes "Day", num (int 1))
          ∷ (codes "MoneyAmount", if vip then num (int 5000) else num (int 3000))
          ∷ (codes "GoldAmount", num (int 0))
          ∷ (codes "FameAmount", num (int 0))
          ∷ (codes "ItemsText", if vip then str (codes "Apple_2|4") else str (codes "Apple_2|2"))
          ∷ (
            codes "Message",
            if vip
                then str (codes "VIP Battlepass награда {day}/{maxDays} получена.")
                else str (codes "Battlepass награда {day}/{maxDays} получена."),
          )
          ∷ [])))

default_member : Text → Text → Value
default_member key expires = obj (
    if key === codes "members"
    then (to_fields (
        (codes "enabled", bool true)
        ∷ (codes "steamId", str (codes ""))
        ∷ (codes "name", str (codes ""))
        ∷ (codes "tier", str (codes "vip"))
        ∷ (codes "expiresAtUtc", str expires)
        ∷ (codes "permissions", arr nil)
        ∷ (codes "note", str (codes ""))
        ∷ []))
    else (to_fields (
        (codes "Enabled", bool true)
        ∷ (codes "SteamId", str (codes ""))
        ∷ (codes "Name", str (codes ""))
        ∷ (codes "Tier", str (codes "vip"))
        ∷ (codes "ExpiresAtUtc", str expires)
        ∷ (codes "Permissions", arr nil)
        ∷ (codes "Note", str (codes ""))
        ∷ [])))

default_vehicle : Text → Text → Value
default_vehicle key normalized = obj (
    if key === normalized
    then (to_fields (
        (codes "alias", str (codes "vehicle"))
        ∷ (codes "displayName", str (codes "Транспорт"))
        ∷ (codes "assetName", str (codes "BPC_WolfsWagen"))
        ∷ (codes "pricePer10Minutes", num (int 0))
        ∷ (codes "initialCharge", num (int 0))
        ∷ (codes "defaultMinutes", num (int 10))
        ∷ (codes "maxMinutes", num (int 60))
        ∷ (codes "missingVehiclePenalty", num (int 0))
        ∷ []))
    else (to_fields (
        (codes "Alias", str (codes "vehicle"))
        ∷ (codes "DisplayName", str (codes "Транспорт"))
        ∷ (codes "AssetName", str (codes "BPC_WolfsWagen"))
        ∷ (codes "PricePer10Minutes", num (int 0))
        ∷ (codes "InitialCharge", num (int 0))
        ∷ (codes "DefaultMinutes", num (int 10))
        ∷ (codes "MaxMinutes", num (int 60))
        ∷ (codes "MissingVehiclePenalty", num (int 0))
        ∷ [])))

default_starter_vehicle : Text → Text → Value
default_starter_vehicle key normalized = obj (
    if key === normalized
    then (to_fields (
        (codes "enabled", bool true)
        ∷ (codes "alias", str (codes "starter-vehicle"))
        ∷ (codes "displayName", str (codes "Стартовый транспорт"))
        ∷ (codes "assetName", str (codes "BPC_WolfsWagen"))
        ∷ (codes "minutes", num (int 1440))
        ∷ (codes "missingVehiclePenalty", num (int 25000))
        ∷ (codes "successMessage", str (codes "Транспорт стартового набора выдан на 24 часа."))
        ∷ []))
    else (to_fields (
        (codes "Enabled", bool true)
        ∷ (codes "Alias", str (codes "starter-vehicle"))
        ∷ (codes "DisplayName", str (codes "Стартовый транспорт"))
        ∷ (codes "AssetName", str (codes "BPC_WolfsWagen"))
        ∷ (codes "Minutes", num (int 1440))
        ∷ (codes "MissingVehiclePenalty", num (int 25000))
        ∷ (codes "SuccessMessage", str (codes "Транспорт стартового набора выдан на 24 часа."))
        ∷ [])))

default_job : Value
default_job = obj (
    to_fields (
      (codes "Enabled", bool true)
      ∷ (codes "Name", str (codes "Новое задание"))
      ∷ (codes "Mode", str (codes "Command"))
      ∷ (codes "ScheduleTimes", str (codes "12:00"))
      ∷ (codes "IntervalMinutes", num (int 60))
      ∷ (codes "RunOnStartup", bool false)
      ∷ (codes "PointGroup", str (codes ""))
      ∷ (codes "PointCount", num (int 1))
      ∷ (codes "ItemSet", str (codes ""))
      ∷ (codes "WorldEventClass", str (codes ""))
      ∷ (codes "CommandTemplate", str (codes "Announce Плановое сообщение сервера."))
      ∷ (codes "Announcement", str (codes ""))
      ∷ (codes "MaxItemsPerRun", num (int 30))
      ∷ []))

default_point : Value
default_point = obj (
    to_fields (
      (codes "Name", str (codes "Новая точка"))
      ∷ (codes "Group", str (codes "event"))
      ∷ (codes "X", num (int 0))
      ∷ (codes "Y", num (int 0))
      ∷ (codes "Z", num (int 50))
      ∷ (codes "Radius", num (int 0))
      ∷ []))

default_item_set : Value
default_item_set = obj (
    to_fields (
      (codes "Name", str (codes "new-set"))
      ∷ (codes "Weight", num (int 1))
      ∷ (codes "ItemsText", str (codes "Apple_2|1"))
      ∷ []))

default_outpost : Text → Value
default_outpost key = obj (
    if key === codes "points"
    then (to_fields (
        (codes "displayName", str (codes "Новый маршрут"))
        ∷ (codes "commandAlias", str (codes "route"))
        ∷ (codes "arrivalPoint", arr (to_items (num (int 0) ∷ num (int 0) ∷ num (int 50) ∷ [])))
        ∷ (codes "price", num (int 0))
        ∷ []))
    else (to_fields (
        (codes "DisplayName", str (codes "Новый маршрут"))
        ∷ (codes "CommandAlias", str (codes "route"))
        ∷ (codes "CenterZone", arr (to_items (num (int 0) ∷ num (int 0) ∷ [])))
        ∷ (codes "ArrivalPoint", arr (to_items (num (int 0) ∷ num (int 0) ∷ num (int 50) ∷ [])))
        ∷ (codes "Price", num (int 0))
        ∷ [])))

default_delivery_rule : Text → Text → Value
unfolding shop_fields
default_delivery_rule key module_key = obj (
    if key === codes "rules"
    then (to_fields (
        ((codes "enabled", bool true)
          ∷ (codes "matchOfferId", str (codes ""))
          ∷ (codes "matchItemId", str (codes ""))
          ∷ (codes "matchTitleContains", str (codes ""))
          ∷ (codes "deliveryMode", str (codes "SpawnItem"))
          ∷ (codes "deliveryLabel", str (codes "Выдача"))
          ∷ (codes "itemId", str (codes "Apple_2"))
          ∷ (
            codes "items",
            arr (
                to_items (
                  obj (
                    to_fields (
                      (codes "itemId", str (codes "Apple_2"))
                      ∷ (codes "quantity", num (int 1))
                      ∷ []))
                  ∷ [])),
          )
          ∷ (codes "quantity", num (int 1))
          ∷ (codes "vehicleAsset", str (codes ""))
          ∷ (codes "durationDays", num (int 30))
          ∷ (codes "tier", str (codes "vip"))
          ∷ (codes "amount", num (int 0))
          ∷ (codes "successMessage", str (codes "Покупка выдана."))
          ∷ [])
        ++ shop_fields module_key (
            (codes "matchBucketId", str (codes ""))
            ∷ (codes "matchProductId", str (codes ""))
            ∷ (codes "matchCommandContains", str (codes ""))
            ∷ [])))
    else (to_fields (
        ((codes "Enabled", bool true)
          ∷ (codes "MatchOfferId", str (codes ""))
          ∷ (codes "MatchItemId", str (codes ""))
          ∷ (codes "MatchTitleContains", str (codes ""))
          ∷ (codes "DeliveryMode", str (codes "SpawnItem"))
          ∷ (codes "DeliveryLabel", str (codes "Выдача"))
          ∷ (codes "ItemId", str (codes "Apple_2"))
          ∷ (
            codes "Items",
            arr (
                to_items (
                  obj (
                    to_fields (
                      (codes "ItemId", str (codes "Apple_2"))
                      ∷ (codes "Quantity", num (int 1))
                      ∷ []))
                  ∷ [])),
          )
          ∷ (codes "VehicleAsset", str (codes ""))
          ∷ (codes "DurationDays", num (int 30))
          ∷ (codes "Tier", str (codes "vip"))
          ∷ (codes "Quantity", num (int 1))
          ∷ (codes "Amount", num (int 0))
          ∷ (codes "SkillName", str (codes ""))
          ∷ (codes "SkillLevel", num (int 0))
          ∷ (codes "SkillExperience", num (int 0))
          ∷ (codes "Strength", num (int 0))
          ∷ (codes "Constitution", num (int 0))
          ∷ (codes "Dexterity", num (int 0))
          ∷ (codes "Intelligence", num (int 0))
          ∷ (codes "CommandTemplate", str (codes ""))
          ∷ (codes "SuccessMessage", str (codes "Покупка выдана."))
          ∷ [])
        ++ shop_fields module_key (
            (codes "MatchBucketId", str (codes ""))
            ∷ (codes "MatchProductId", str (codes ""))
            ∷ (codes "MatchCommandContains", str (codes ""))
            ∷ []))))

default_skill_preset : Value
default_skill_preset = obj (
    to_fields (
      (codes "Name", str (codes "Навык"))
      ∷ (codes "Skill", str (codes "Survival"))
      ∷ (codes "Level", num (int 1))
      ∷ (codes "Experience", num (int 0))
      ∷ []))

default_character_pack : Value
default_character_pack = obj (
    to_fields (
      (codes "Name", str (codes "fullstats"))
      ∷ (codes "Enabled", bool true)
      ∷ (codes "Description", str (codes "Быстрый пакет персонажа"))
      ∷ (codes "CooldownHours", num (int 0))
      ∷ (
        codes "Attributes",
        obj (
            to_fields (
              (codes "Strength", num (int 8))
              ∷ (codes "Constitution", num (int 8))
              ∷ (codes "Dexterity", num (int 8))
              ∷ (codes "Intelligence", num (int 8))
              ∷ [])),
      )
      ∷ (
        codes "Actions",
        arr (
            to_items (
              obj (
                to_fields (
                  (codes "Type", str (codes "PlayerCommand"))
                  ∷ (codes "Value", str (codes "SetAttributes 8 8 8 8"))
                  ∷ (codes "StopOnFailure", bool true)
                  ∷ []))
              ∷ [])),
      )
      ∷ (codes "Skills", arr nil)
      ∷ (codes "SuccessMessage", str (codes "Атрибуты персонажа обновлены."))
      ∷ []))

unfoldable pub first_case : List (Bool × Value) → Value
first_case [] = obj end
first_case ((c, v) ∷ cases) = let rest = first_case cases in if c then v else rest

-- The cases of the function in order, each with the row that it returns.
unfoldable pub array_item_cases : Text → Text → Text → List (Bool × Value)
unfolding default_upgrade_rule default_zone_rule default_loot_rule default_quest default_item
    default_vip_item default_battlepass_reward default_member default_vehicle
    default_starter_vehicle default_job default_point default_item_set default_outpost
    default_delivery_rule default_skill_preset default_character_pack
array_item_cases expires key module_name =
    let normalized = lower key in
    let module_key = lower module_name in
    ((module_key === codes "item-upgrade") && (normalized === codes "rules"), default_upgrade_rule)
    ∷ (
      (module_key === codes "zone-robot-schedule") && (normalized === codes "rules"),
      default_zone_rule,
    )
    ∷ (
      (module_key === codes "base-loot-collector") && (normalized === codes "rules"),
      default_loot_rule,
    )
    ∷ ((module_key === codes "panel-quests") && (normalized === codes "quests"), default_quest)
    ∷ (normalized === codes "items", default_item key)
    ∷ (normalized === codes "vipitems", default_vip_item key)
    ∷ (
      (normalized === codes "rewards") || (normalized === codes "viprewards"),
      default_battlepass_reward key normalized,
    )
    ∷ (normalized === codes "members", default_member key expires)
    ∷ (
      (normalized === codes "vehicles") || (normalized === codes "vipvehicles"),
      default_vehicle key normalized,
    )
    ∷ (
      (normalized === codes "rentalvehicles")
          || ((normalized === codes "welcomevehicles") || (normalized === codes "startervehicles")),
      default_starter_vehicle key normalized,
    )
    ∷ (normalized === codes "jobs", default_job)
    ∷ (normalized === codes "points", default_point)
    ∷ (normalized === codes "itemsets", default_item_set)
    ∷ ((normalized === codes "outposts") || (normalized === codes "points"), default_outpost key)
    ∷ (normalized === codes "rules", default_delivery_rule key module_key)
    ∷ (normalized === codes "skillpresets", default_skill_preset)
    ∷ (normalized === codes "packs", default_character_pack)
    ∷ []

unfoldable pub default_array_item : Text → Text → Text → Value
default_array_item expires key module_name = first_case (array_item_cases expires key module_name)
