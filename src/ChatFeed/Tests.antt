-- ===== src/ChatFeed/Tests.antt =====
-- The chat window at concrete messages.
use scum_ne_djin_release.Prelude.{ℕ, ◌≡◌, true, List, [], ◌∷◌, map, Option, none, All, filter}
use scum_ne_djin_release.Text.{Text, codes, ◌===◌, has}
use scum_ne_djin_release.Text.Fresh.{Distinct}
use scum_ne_djin_release.Js.{Value, num, str, Props}
use scum_ne_djin_release.Js.Numbers.{Number, int}
use scum_ne_djin_release.Js.Sorting.{IsFalling}
use scum_ne_djin_release.Chat.{normalize_chat_channel}
use scum_ne_djin_release.ChatFeed.{event_time, chat_text, chat_dedupe_key, chat_matches, chat_list}
use scum_ne_djin_release.ChatFeed.Laws.{chat_list_lem}

abbrev no_decoder : List ℕ → Option Text
no_decoder bytes = none

abbrev no_date : Value → Option Number
no_date v = none

abbrev said : ℕ → Text → Props
said time message =
    (codes "time", num (int time))
    ∷ (codes "channel", str (codes "global"))
    ∷ (codes "name", str (codes "Ivan"))
    ∷ (codes "message", str message)
    ∷ []

abbrev messages : List Props
messages = said 5 (codes "hi") ∷ said 9 (codes "bye") ∷ said 5 (codes "HI ") ∷ []

chat_list_lem_example :
    let list = chat_list no_decoder no_date messages (codes "global") [] in
    IsFalling (event_time no_date) list
    × All
        (λ e. normalize_chat_channel (chat_text no_decoder no_date e) e === codes "global" ≡ true)
        list
    × All (λ e. chat_matches no_decoder no_date (codes "global") [] e ≡ true) list
    × Distinct (map (chat_dedupe_key no_decoder no_date) list)
    × All
        (λ row.
          has
            (map (chat_dedupe_key no_decoder no_date) list)
            (chat_dedupe_key no_decoder no_date row)
          ≡ true)
        (filter (chat_matches no_decoder no_date (codes "global") []) messages)
chat_list_lem_example = chat_list_lem no_decoder no_date messages (codes "global") []
