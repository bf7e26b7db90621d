-- ===== src/Delivery/Tests.antt =====
-- The delivery form at concrete inputs.
use scum_ne_djin_release.Prelude.{◌≡◌, ◌≢◌, ◌⊎◌, refl, []}
use scum_ne_djin_release.Text.{Text, codes, text_ops}
use scum_ne_djin_release.Js.Convert.{value_ops}
use scum_ne_djin_release.Chat.{first_text}
use scum_ne_djin_release.Delivery.{
  Form, complaints, validate_wargm_request, number_in, is_any, attribute_values, deliver,
  delivery_body, refused, requested,
}
use scum_ne_djin_release.Delivery.Laws.{IsReady, deliver-IsReady}

-- Days of VIP for a player.
abbrev days : Text → Form
days amount = record {
  wargm_items = [];
  service_target = codes "76561198000000001";
  mode = codes "vip";
  single_id = codes "Weapon_AK47";
  qty = codes "0";
  vehicle_id = [];
  amount = amount;
  skill = [];
  skill_level = [];
  skill_experience = [];
  all_skill_level = [];
  all_skill_experience = [];
  strength = [];
  constitution = [];
  dexterity = [];
  intelligence = [];
  command = [];
}

no_days : validate_wargm_request (days (codes "0")) ≡ codes "Укажи срок VIP в днях."
unfolding value_ops text_ops validate_wargm_request complaints first_text number_in is_any
    attribute_values
no_days = refl

deliver-IsReady_example :
    ((m : Text) × (deliver [] (days (codes "30")) ≡ refused m) × (m ≢ []))
    ⊎ ((deliver [] (days (codes "30")) ≡ requested (delivery_body [] (days (codes "30"))))
        × IsReady (days (codes "30")))
deliver-IsReady_example = deliver-IsReady [] (days (codes "30"))
