-- ===== src/Modules/Defaults.antt =====
-- The modules that the panel adds with all their settings when the server lacks them.
use scum_ne_djin_release.Prelude.{true, false, [], ◌∷◌}
use scum_ne_djin_release.Text.{codes}
use scum_ne_djin_release.Js.{bool, num, str, arr, obj, nil, Props, to_fields, to_items}
use scum_ne_djin_release.Js.Numbers.{int}
use scum_ne_djin_release.Modules.Rewards.{default_battlepass_rewards}

abbrev pub daily_pack_module : Props
daily_pack_module =
    (codes "key", str (codes "daily-pack"))
    ∷ (codes "name", str (codes "Ежедневный пак"))
    ∷ (
      codes "description",
      str (codes "Ежедневная выдача предметов через безопасную очередь WelcomePack."),
    )
    ∷ (codes "category", str (codes "players"))
    ∷ (codes "enabled", bool true)
    ∷ (
      codes "config",
      obj (
          to_fields (
            (codes "Name", str (codes "Ежедневный пак"))
            ∷ (
              codes "Description",
              str (
                  codes "Ежедневная выдача предметов игроку через безопасную очередь WelcomePack."),
            )
            ∷ (codes "Enabled", bool true)
            ∷ (codes "CooldownHours", num (int 24))
            ∷ (codes "RequiredPermission", str (codes ""))
            ∷ (codes "SuccessMessage", str (codes "Ежедневный пак выдан."))
            ∷ (
              codes "VipItems",
              arr (
                  to_items (
                    obj (
                      to_fields (
                        (codes "ItemId", str (codes "Apple_2"))
                        ∷ (codes "Quantity", num (int 1))
                        ∷ []))
                    ∷ [])),
            )
            ∷ (
              codes "VipSettings",
              obj (
                  to_fields (
                    (codes "Enabled", bool true)
                    ∷ (codes "RequiredPermission", str (codes "daily-pack.vip"))
                    ∷ (codes "CooldownHours", num (int 12))
                    ∷ (codes "MoneyAmount", num (int 5000))
                    ∷ (codes "GoldAmount", num (int 5))
                    ∷ (codes "FameAmount", num (int 50))
                    ∷ (codes "SuccessMessage", str (codes "VIP бонус ежедневного пака выдан."))
                    ∷ [])),
            )
            ∷ (
              codes "Items",
              arr (
                  to_items (
                    obj (
                      to_fields (
                        (codes "ItemId", str (codes "Apple_2"))
                        ∷ (codes "Quantity", num (int 2))
                        ∷ []))
                    ∷ obj (
                        to_fields (
                          (codes "ItemId", str (codes "CannedGoulash"))
                          ∷ (codes "Quantity", num (int 1))
                          ∷ []))
                    ∷ obj (
                        to_fields (
                          (codes "ItemId", str (codes "Emergency_bandage_Big"))
                          ∷ (codes "Quantity", num (int 1))
                          ∷ []))
                    ∷ [])),
            )
            ∷ [])),
    )
    ∷ (codes "synthetic", bool true)
    ∷ []

abbrev pub battlepass_module : Props
battlepass_module =
    (codes "key", str (codes "battlepass"))
    ∷ (codes "name", str (codes "Battlepass"))
    ∷ (
      codes "description",
      str (codes "30-дневная серия наград за реальные дни входа после прогрузки игрока."),
    )
    ∷ (codes "category", str (codes "players"))
    ∷ (codes "enabled", bool true)
    ∷ (
      codes "config",
      obj (
          to_fields (
            (codes "Name", str (codes "Battlepass"))
            ∷ (codes "Description", str (codes "30-дневная серия наград за реальные дни входа."))
            ∷ (codes "Enabled", bool true)
            ∷ (codes "MaxDays", num (int 30))
            ∷ (codes "DelayAfterJoinSeconds", num (int 60))
            ∷ (codes "PollIntervalMs", num (int 5000))
            ∷ (codes "RetryWindowSeconds", num (int 300))
            ∷ (codes "InterItemDelayMs", num (int 1500))
            ∷ (codes "RequiredPermission", str (codes ""))
            ∷ (codes "SuccessMessage", str (codes "Battlepass награда {day}/{maxDays} выдана."))
            ∷ (
              codes "VipSettings",
              obj (
                  to_fields (
                    (codes "Enabled", bool true)
                    ∷ (codes "RequiredPermission", str (codes "battlepass.vip"))
                    ∷ (
                      codes "SuccessMessage",
                      str (codes "VIP Battlepass награда {day}/{maxDays} выдана."),
                    )
                    ∷ [])),
            )
            ∷ (codes "Rewards", arr (to_items (default_battlepass_rewards false)))
            ∷ (codes "VipRewards", arr (to_items (default_battlepass_rewards true)))
            ∷ [])),
    )
    ∷ (codes "synthetic", bool true)
    ∷ []

abbrev pub scheduled_events_module : Props
scheduled_events_module =
    (codes "key", str (codes "scheduled-events"))
    ∷ (codes "name", str (codes "Планировщик заданий"))
    ∷ (
      codes "description",
      str (
          codes
            "События сервера по времени: команды, cargo drop, world events и наборы предметов в точках карты."),
    )
    ∷ (codes "category", str (codes "server"))
    ∷ (codes "enabled", bool true)
    ∷ (
      codes "config",
      obj (
          to_fields (
            (codes "Enabled", bool true)
            ∷ (codes "Name", str (codes "Планировщик заданий"))
            ∷ (codes "Description", str (codes "Задания сервера по времени или интервалу."))
            ∷ (codes "PollIntervalMs", num (int 15000))
            ∷ (codes "MaxRunsPerTick", num (int 1))
            ∷ (
              codes "WorldEventClasses",
              arr (
                  to_items (
                    str (codes "BP_CargoDropEvent")
                    ∷ str (codes "BP_EncounterCargoDropEvent")
                    ∷ str (codes "BP_DeathmatchGameEvent")
                    ∷ str (codes "BP_TeamDeathmatchGameEvent")
                    ∷ str (codes "BP_CTFGameEvent")
                    ∷ str (codes "BP_DropZoneGameEvent")
                    ∷ [])),
            )
            ∷ (
              codes "Jobs",
              arr (
                  to_items (
                    obj (
                      to_fields (
                        (codes "Enabled", bool false)
                        ∷ (codes "Name", str (codes "Новое задание"))
                        ∷ (codes "Mode", str (codes "Command"))
                        ∷ (codes "ScheduleTimes", str (codes "12:00"))
                        ∷ (codes "IntervalMinutes", num (int 60))
                        ∷ (codes "RunOnStartup", bool false)
                        ∷ (codes "PointGroup", str (codes ""))
                        ∷ (codes "PointCount", num (int 1))
                        ∷ (codes "ItemSet", str (codes ""))
                        ∷ (codes "WorldEventClass", str (codes ""))
                        ∷ (
                          codes "CommandTemplate",
                          str (codes "Announce Плановое сообщение сервера."),
                        )
                        ∷ (codes "Announcement", str (codes ""))
                        ∷ (codes "MaxItemsPerRun", num (int 1))
                        ∷ []))
                    ∷ [])),
            )
            ∷ (codes "Points", arr nil)
            ∷ (codes "ItemSets", arr nil)
            ∷ [])),
    )
    ∷ (codes "synthetic", bool true)
    ∷ []
