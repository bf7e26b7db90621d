-- ===== src/ChatFeed/Loading.antt =====
-- The rows of the channels "killfeed" and "nedjin", which are fetched apart:
-- `refreshChatAuxChannel` of src/ScumWarden.Server/wwwroot/app.js, for one of the two channels. A
-- call while a request is under way gives the promise of that request.
use scum_ne_djin_release.Prelude.{
  ℕ, zero, suc, ◌+◌, ◌≡◌, refl, Bool, true, false, not, ◌&&◌, List, [], ◌∷◌, Option, none, some,
  foldl, if◌then◌else◌, arith, Bool-cases, inl, inr,
}
use scum_ne_djin_release.Js.{Value}

-- `state.chatAuxLoaded[channel]`, `state.chatAuxLoading[channel]` and the rows; and how many
-- requests wait for their replies.
pub record Aux : Type 0 where
  pub loaded : Bool
  pub loading : Bool
  pub rows : List Value
  pub waiting : ℕ

abbrev pub no_aux : Aux
no_aux = record { loaded = false; loading = false; rows = []; waiting = 0 }

unfoldable pub refresh_chat_aux_channel : Bool → Aux → Aux
refresh_chat_aux_channel force a =
    if not force && a.loaded
    then a
    else if a.loading
    then a
    else record a { loading = true; waiting = a.waiting + 1 }

-- What stands behind the `await`, and the `finally` block.
unfoldable pub finish_aux : Option (List Value) → Aux → Aux
finish_aux none a = record a { loading = false }
finish_aux (some rows) a = record a { rows = rows; loaded = true; loading = false }

-- A call, or the reply to a request that waits: its rows, or `none` for an error.
pub data AuxEvent : Type 0 where
  call : Bool → AuxEvent
  reply : Option (List Value) → AuxEvent

answer_one : ℕ → Option (List Value) → Aux → Aux
answer_one zero r a = a
answer_one (suc n) r a = finish_aux r (record a { waiting = n })

unfoldable pub aux_step : Aux → AuxEvent → Aux
unfolding answer_one
aux_step a (call force) = refresh_chat_aux_channel force a
aux_step a (reply r) = answer_one a.waiting r a

-- The channel is marked as loading exactly while one request waits, and no more than one does.
pub IsSingle : Aux → Type 0
IsSingle a = a.waiting ≡ (if a.loading then 1 else 0)

call-IsSingle : (force : Bool) (a : Aux) → IsSingle a → IsSingle (refresh_chat_aux_channel force a)
unfolding IsSingle refresh_chat_aux_channel
call-IsSingle force a h = elim (Bool-cases (not force && a.loaded)) [
  | inl e ↦ rw e h
  | inr e ↦ elim (Bool-cases a.loading) [
    | inl f ↦ rw (e, f) (ground arith)
    | inr f ↦ rw (e, f) (ground arith)
  ]
]

finish-IsSingle : (r : Option (List Value)) (a : Aux) → a.waiting ≡ 0 → IsSingle (finish_aux r a)
unfolding IsSingle finish_aux
finish-IsSingle none a h = h
finish-IsSingle (some rows) a h = h

answer-IsSingle :
    (n : ℕ) (r : Option (List Value)) (a : Aux)
    → a.waiting ≡ n
    → IsSingle a
    → IsSingle (answer_one n r a)
unfolding IsSingle answer_one
answer-IsSingle zero r a e h = h
answer-IsSingle (suc n) r a e h = finish-IsSingle r (record a { waiting = n }) (ground arith)

step-IsSingle : (a : Aux) (e : AuxEvent) → IsSingle a → IsSingle (aux_step a e)
unfolding aux_step
step-IsSingle a (call force) h = call-IsSingle force a h
step-IsSingle a (reply r) h = answer-IsSingle a.waiting r a refl h

run-IsSingle_from : (es : List AuxEvent) (a : Aux) → IsSingle a → IsSingle (foldl aux_step a es)
run-IsSingle_from [] a h = h
run-IsSingle_from (e ∷ es) a h = run-IsSingle_from es (aux_step a e) (step-IsSingle a e h)

-- However calls and replies follow each other, a channel is marked as loading exactly while one
-- request for its rows waits, and never do two wait.
pub run-IsSingle : (es : List AuxEvent) → IsSingle (foldl aux_step no_aux es)
run-IsSingle es = run-IsSingle_from es no_aux (unfold IsSingle in refl)
