-- ===== src/ChatFeed/Laws.antt =====
-- What the chat window shows.
use scum_ne_djin_release.Prelude.{
  ℕ, ◌≡◌, refl, ◌∙◌, Bool, true, not, ◌||◌, List, [], ◌∷◌, map, Option, arith, All, filter, &&-left,
}
use scum_ne_djin_release.Prelude.Filters.{filter-All}
use scum_ne_djin_release.Text.{Text, codes, ◌===◌, truthy, has}
use scum_ne_djin_release.Text.Fresh.{Distinct, fresh_by-Distinct, fresh_by_complete, All-fresh_by}
use scum_ne_djin_release.Text.Lines.{join}
use scum_ne_djin_release.Js.{Value, Props}
use scum_ne_djin_release.Js.Numbers.{Number}
use scum_ne_djin_release.Js.Sorting.{
  IsFalling, sort_desc, sort-IsFalling, All-sort, Distinct-sort, has-sort,
}
use scum_ne_djin_release.Chat.{normalize_chat_channel}
use scum_ne_djin_release.ChatFeed.{
  event_time, chat_text, chat_dedupe_key, dedupe_chat_messages, chat_matches, chat_list,
}

joined_filled : (s t : Text) (more : List Text) → truthy (join (codes "|") (s ∷ t ∷ more)) ≡ true
unfolding join truthy
joined_filled [] t more = refl
joined_filled (c ∷ s) t more = refl

module _ (decode : List ℕ → Option Text) (date : Value → Option Number) where
  key_filled : (event : Props) → truthy (chat_dedupe_key decode date event) ≡ true
  unfolding chat_dedupe_key
  key_filled event = joined_filled _ _ _

  -- The rows that have the channel and match the search.
  abbrev wanted : List Props → Text → Text → List Props
  wanted rows channel query = filter (chat_matches decode date channel query) rows

  of_channel :
      (channel query : Text) (xs : List Props)
      → All (λ e. chat_matches decode date channel query e ≡ true) xs
      → All (λ e. normalize_chat_channel (chat_text decode date e) e === channel ≡ true) xs
  unfolding chat_matches
  of_channel channel query [] h = tt
  of_channel channel query (x ∷ xs) (k, h) = (&&-left _ _ k, of_channel channel query xs h)

  shown :
      (kept xs : List Props)
      → All
          (λ x.
            (not (truthy (chat_dedupe_key decode date x))
              || has (map (chat_dedupe_key decode date) kept) (chat_dedupe_key decode date x))
            ≡ true)
          xs
      → All
          (λ x.
            has
              (map (chat_dedupe_key decode date) (sort_desc (event_time date) kept))
              (chat_dedupe_key decode date x)
            ≡ true)
          xs
  shown kept [] h = tt
  shown kept (x ∷ xs) (k, h) = (
    has-sort (event_time date) (chat_dedupe_key decode date) kept _ ∙ known (key_filled x) k,
    shown kept xs h,
  )
    where
      known : {b c : Bool} → b ≡ true → (not b || c) ≡ true → c ≡ true
      known p q = grind arith

  -- The list of a channel, whatever its rows and the search are: the newest messages first, all of
  -- the channel and matched by the search, no two with the same chatDedupeKey, which joins the time
  -- in seconds, the channel, the id, the name and the text by '|'; and the key of each row of the
  -- channel that the search matches is that of a message in the list.
  pub chat_list_lem :
      (rows : List Props) (channel query : Text)
      → let list = chat_list decode date rows channel query in
        IsFalling (event_time date) list
        × All (λ e. normalize_chat_channel (chat_text decode date e) e === channel ≡ true) list
        × All (λ e. chat_matches decode date channel query e ≡ true) list
        × Distinct (map (chat_dedupe_key decode date) list)
        × All
            (λ row.
              has (map (chat_dedupe_key decode date) list) (chat_dedupe_key decode date row) ≡ true)
            (filter (chat_matches decode date channel query) rows)
  unfolding chat_list dedupe_chat_messages
  chat_list_lem rows channel query = (
    sort-IsFalling (event_time date) _,
    All-sort (event_time date) _ _ (
        All-fresh_by (chat_dedupe_key decode date) (λ k. not (truthy k)) _ [] _
          (of_channel channel query _ (filter-All (chat_matches decode date channel query) rows))),
    All-sort (event_time date) _ _ (
        All-fresh_by (chat_dedupe_key decode date) (λ k. not (truthy k)) _ [] _
          (filter-All (chat_matches decode date channel query) rows)),
    Distinct-sort (event_time date) (chat_dedupe_key decode date) _ (
        (fresh_by-Distinct (chat_dedupe_key decode date) (λ k. not (truthy k))
          (wanted rows channel query)).1),
    shown _ (wanted rows channel query) (
        fresh_by_complete (chat_dedupe_key decode date) (λ k. not (truthy k))
          (wanted rows channel query)),
  )
