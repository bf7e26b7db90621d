-- ===== src/Modules/Fallbacks.antt =====
-- The modules that the panel adds with few settings when the server lacks them.
use scum_ne_djin_release.Prelude.{true, false, List, [], ◌∷◌}
use scum_ne_djin_release.Text.{Text, codes}
use scum_ne_djin_release.Js.{bool, num, str, arr, obj, nil, Props, to_fields, to_items}
use scum_ne_djin_release.Js.Numbers.{int}

pub record Fallback : Type 0 where
  pub key : Text
  pub name : Text
  pub description : Text
  pub category : Text
  pub config : Props

abbrev pub vip_system_fallback : Fallback
vip_system_fallback = record {
  key = codes "vip-system";
  name = codes "VIP игроки";
  description =
      codes "VIP-участники по SteamID64, сроки, уровни, права и отдельные лимиты модулей.";
  category = codes "players";
  config =
      (codes "Enabled", bool true)
      ∷ (codes "DefaultTier", str (codes "vip"))
      ∷ (codes "DefaultDurationDays", num (int 30))
      ∷ (codes "ExtendExisting", bool true)
      ∷ (
        codes "BasePermissions",
        arr (
            to_items (
              str (codes "vip.active")
              ∷ str (codes "welcome-pack.vip")
              ∷ str (codes "sethome.vip")
              ∷ str (codes "daily-pack.vip")
              ∷ str (codes "battlepass.vip")
              ∷ str (codes "sector-scan.vip")
              ∷ str (codes "vehicle-rental.vip")
              ∷ str (codes "base-loot.vip")
              ∷ [])),
      )
      ∷ (
        codes "TierPermissions",
        obj (to_fields ((codes "premium", arr (to_items (str (codes "vip.premium") ∷ []))) ∷ [])),
      )
      ∷ (codes "Members", arr nil)
      ∷ (
        codes "Features",
        obj (
            to_fields (
              (
                codes "WelcomePack",
                obj (to_fields ((codes "Enabled", bool true) ∷ (codes "Items", arr nil) ∷ [])),
              )
              ∷ (
                codes "DailyPack",
                obj (
                    to_fields (
                      (codes "Enabled", bool true)
                      ∷ (codes "CooldownHours", num (int 12))
                      ∷ (codes "Items", arr nil)
                      ∷ [])),
              )
              ∷ (codes "Battlepass", obj (to_fields ((codes "Enabled", bool true) ∷ [])))
              ∷ (
                codes "HomeSystem",
                obj (
                    to_fields
                      ((codes "Enabled", bool true) ∷ (codes "MaxHomes", num (int 5)) ∷ [])),
              )
              ∷ (
                codes "SectorScan",
                obj (
                    to_fields (
                      (codes "Enabled", bool true)
                      ∷ (codes "Free", bool true)
                      ∷ (codes "CooldownSeconds", num (int 30))
                      ∷ [])),
              )
              ∷ (
                codes "VehicleRental",
                obj (
                    to_fields (
                      (codes "Enabled", bool true)
                      ∷ (codes "DiscountPercent", num (int 25))
                      ∷ (codes "DefaultMinutes", num (int 30))
                      ∷ (codes "MaxMinutes", num (int 180))
                      ∷ (codes "SpawnCooldownSeconds", num (int 60))
                      ∷ [])),
              )
              ∷ (
                codes "BaseLootCollector",
                obj (
                    to_fields (
                      (codes "Enabled", bool true)
                      ∷ (codes "RadiusCm", num (int 7000))
                      ∷ (codes "CooldownSeconds", num (int 60))
                      ∷ (codes "MaxItemsPerRun", num (int 150))
                      ∷ [])),
              )
              ∷ [])),
      )
      ∷ [];
}

abbrev pub money_transfer_fallback : Fallback
money_transfer_fallback = record {
  key = codes "money-transfer";
  name = codes "Переводы денег";
  description = codes "Игроки переводят деньги друг другу через /sendmoney.";
  category = codes "commerce";
  config = (codes "Enabled", bool true) ∷ [];
}

abbrev pub item_upgrade_fallback : Fallback
item_upgrade_fallback = record {
  key = codes "item-upgrade";
  name = codes "Апгрейд предметов";
  description = codes "Платная замена предмета в руках на настроенный результат.";
  category = codes "commerce";
  config =
      (codes "Enabled", bool false)
      ∷ (codes "AllowReplacement", bool false)
      ∷ (codes "Rules", arr nil)
      ∷ [];
}

abbrev pub base_loot_collector_fallback : Fallback
base_loot_collector_fallback = record {
  key = codes "base-loot-collector";
  name = codes "Сбор лута базы";
  description = codes "Команда /loot собирает лежащий лут в сундуки своего флага.";
  category = codes "players";
  config = (codes "Enabled", bool false) ∷ (codes "Rules", arr nil) ∷ [];
}

abbrev pub info_response_fallback : Fallback
info_response_fallback = record {
  key = codes "info-response";
  name = codes "Ответ команды /info";
  description =
      codes
        "Настраиваемое многострочное описание команд с безопасным возвратом к динамической информации.";
  category = codes "chat";
  config =
      (codes "Name", str (codes "Ответ команды /info"))
      ∷ (
        codes "Description",
        str (
            codes
              "Если включён свой текст, каждая непустая строка отправляется игроку отдельным сообщением чата. Пустой английский текст использует русскую версию; выключенный модуль сохраняет стандартное динамическое описание команд."),
      )
      ∷ (codes "Enabled", bool true)
      ∷ (codes "UseCustomText", bool false)
      ∷ (codes "Text", str (codes ""))
      ∷ (codes "EnglishText", str (codes ""))
      ∷ (codes "LineDelayMs", num (int 160))
      ∷ (codes "MaxLines", num (int 24))
      ∷ (codes "MaxLineBytes", num (int 220))
      ∷ [];
}

abbrev pub command_aliases_fallback : Fallback
command_aliases_fallback = record {
  key = codes "command-aliases";
  name = codes "Команды игроков";
  description =
      codes
        "Настройка слов вызова /help, /info, /rent, /loot и других команд. Применяется после рестарта SCUM-сервера.";
  category = codes "chat";
  config =
      (codes "Enabled", bool true)
      ∷ (codes "IncludeBangAliases", bool true)
      ∷ (codes "Help", arr (to_items (str (codes "help") ∷ [])))
      ∷ (codes "Info", arr (to_items (str (codes "info") ∷ [])))
      ∷ (codes "Rent", arr (to_items (str (codes "rent") ∷ [])))
      ∷ (
        codes "BaseLoot",
        arr (
            to_items
              (str (codes "loot") ∷ str (codes "collectloot") ∷ str (codes "sortloot") ∷ [])),
      )
      ∷ (
        codes "Dlc",
        arr (to_items (str (codes "dlc") ∷ str (codes "dls") ∷ str (codes "длс") ∷ [])),
      )
      ∷ (
        codes "GameStores",
        arr (to_items (str (codes "pay") ∷ str (codes "gamestores") ∷ str (codes "gs") ∷ [])),
      )
      ∷ [];
}

abbrev pub zone_robot_schedule_fallback : Fallback
zone_robot_schedule_fallback = record {
  key = codes "zone-robot-schedule";
  name = codes "Роботы по зонам";
  description = codes "Расписание зонных команд для роботов/событий.";
  category = codes "events";
  config = (codes "Enabled", bool false) ∷ (codes "Rules", arr nil) ∷ [];
}

abbrev pub panel_quests_fallback : Fallback
panel_quests_fallback = record {
  key = codes "panel-quests";
  name = codes "Квесты сервера";
  description = codes "Квестовая доска панели с наградами.";
  category = codes "events";
  config = (codes "Enabled", bool false) ∷ (codes "Quests", arr nil) ∷ [];
}

abbrev pub lightweight_fallbacks : List Fallback
lightweight_fallbacks =
    vip_system_fallback ∷ money_transfer_fallback ∷ item_upgrade_fallback
    ∷ base_loot_collector_fallback ∷ info_response_fallback ∷ command_aliases_fallback
    ∷ zone_robot_schedule_fallback ∷ panel_quests_fallback ∷ []
