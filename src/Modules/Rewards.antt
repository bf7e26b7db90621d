-- ===== src/Modules/Rewards.antt =====
-- The rewards of a new battle pass: `defaultBattlepassRewards` of
-- src/ScumWarden.Server/wwwroot/app.js.
use scum_ne_djin_release.Prelude.{
  ℕ, zero, suc, ◌+◌, ◌*◌, ◌%◌, Bool, true, ◌||◌, List, [], ◌∷◌, if◌then◌else◌, ◌==◌,
}
use scum_ne_djin_release.Text.{Text, codes}
use scum_ne_djin_release.Js.{Value, bool, num, str, obj, to_fields}
use scum_ne_djin_release.Js.Numbers.{int}

unfoldable pub default_battlepass_items_text : ℕ → Bool → Text
default_battlepass_items_text day vip =
    if day == 2
    then if vip then codes "Apple_2|4" else codes "Apple_2|2"
    else if day == 5
    then if vip then codes "CannedGoulash|2" else codes "CannedGoulash|1"
    else if day == 10
    then if vip then codes "Emergency_bandage_Big|2" else codes "Emergency_bandage_Big|1"
    else if day == 20
    then if vip then codes "Apple_2|4;CannedGoulash|2" else codes "Apple_2|2;CannedGoulash|1"
    else if day == 30
    then if vip
      then codes "MRE_Cheeseburger|2;Emergency_bandage_Big|2"
      else codes "MRE_Cheeseburger|1;Emergency_bandage_Big|1"
    else []

unfoldable pub reward_money : ℕ → Bool → ℕ
reward_money day vip =
    if vip
    then if day == 1
      then 5000
      else if day == 2
      then 8000
      else if day == 3
      then 3000
      else 2500 + day * 400
    else if day == 1
    then 3000
    else if day == 2
    then 5000
    else if day == 3
    then 1000
    else 1000 + day * 250

unfoldable pub reward_gold : ℕ → Bool → ℕ
reward_gold day vip =
    if vip
    then if day % 5 == 0 then 2 else 0
    else if (day == 7) || ((day == 14) || ((day == 21) || (day == 30)))
    then 1
    else 0

unfoldable pub reward_fame : ℕ → Bool → ℕ
reward_fame day vip = if vip then if day % 3 == 0 then 50 else 0 else if day % 5 == 0 then 25 else 0

unfoldable pub reward : ℕ → Bool → Value
reward day vip = obj (
    to_fields (
      (codes "Enabled", bool true)
      ∷ (codes "Day", num (int day))
      ∷ (codes "MoneyAmount", num (int (reward_money day vip)))
      ∷ (codes "GoldAmount", num (int (reward_gold day vip)))
      ∷ (codes "FameAmount", num (int (reward_fame day vip)))
      ∷ (codes "ItemsText", str (default_battlepass_items_text day vip))
      ∷ (
        codes "Message",
        str (
            if vip
            then codes "VIP Battlepass награда {day}/{maxDays} получена."
            else codes "Battlepass награда {day}/{maxDays} получена."),
      )
      ∷ []))

rewards_from : ℕ → ℕ → Bool → List Value
rewards_from zero day vip = []
rewards_from (suc n) day vip = reward day vip ∷ rewards_from n (day + 1) vip

unfoldable pub default_battlepass_rewards : Bool → List Value
unfolding rewards_from
default_battlepass_rewards vip = rewards_from 30 1 vip
