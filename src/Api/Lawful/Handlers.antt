-- ===== src/Api/Lawful/Handlers.antt =====
-- Every handler of supabase/functions acts for its user and writes valid data.
use rebalance_webull.Prelude.{refl, Bool, true, false, Option, Text}
use rebalance_webull.Js.{Runtime, Json, get}
use rebalance_webull.Validation.Bot.{parse_create_bot}
use rebalance_webull.Validation.Bot.Sound.{parse_create_bot-IsValid}
use rebalance_webull.Validation.Patch.{parse_update_bot}
use rebalance_webull.Validation.Patch.Sound.{parse_update_bot-IsUpdate}
use rebalance_webull.Validation.Forms.{parse_credentials, parse_status_action}
use rebalance_webull.Api.Effects.{create_bot, update_bot, delete_bot, set_bot_status}
use rebalance_webull.Api.Engine.{
  Env, store_credentials, remove_credentials, verify_connection, account, rebalance,
}
use rebalance_webull.Api.Auth.{AuthedUser}
use rebalance_webull.Api.Request.{request_json}
use rebalance_webull.Api.Broker.{
  get_connection, connection_reply, post_credentials, delete_credentials, post_verify, get_account,
}
use rebalance_webull.Api.BotReads.{list_bots, get_bot, get_orders, get_allocation}
use rebalance_webull.Api.BotWrites.{
  status_for, post_bot, patch_bot, remove_bot, post_status, post_rebalance,
}
use rebalance_webull.Api.Calls.{AllCalls-awaited, AllCalls-call_rpc, AllCalls-when_valid}
use rebalance_webull.Api.Lawful.{
  IsLawful, KeepsLaws, call-KeepsLaws, rows_or_error-KeepsLaws, both-KeepsLaws, found_or-KeepsLaws,
}
use rebalance_webull.Api.App.{
  Endpoint, health, me, connection, save_credentials, drop_credentials, verify, account_view,
  bots_list, bot_view, bot_new, bot_change, bot_removal, bot_status, bot_run, bot_orders,
  bot_allocation, Request, serve,
}

module _ (N : Type 0) ⦃r : Runtime N⦄ where
  connection_reply-KeepsLaws :
      (user : AuthedUser) (failed : Bool) (rows : Option (Json N))
      → KeepsLaws {N = N} user (connection_reply failed rows)
  unfolding connection_reply
  connection_reply-KeepsLaws user true rows = tt
  connection_reply-KeepsLaws user false rows = tt

  get_connection-KeepsLaws : (user : AuthedUser) → KeepsLaws {N = N} user (get_connection user)
  unfolding get_connection
  get_connection-KeepsLaws user = (
    refl,
    AllCalls-awaited (IsLawful user) _
        (λ reply. connection_reply-KeepsLaws user reply.failed reply.rows),
  )

  post_credentials-KeepsLaws :
      (env : Env) (user : AuthedUser) (body : Option (Json N))
      → KeepsLaws {N = N} user (post_credentials env user body)
  unfolding post_credentials get store_credentials
  post_credentials-KeepsLaws env user body =
      AllCalls-when_valid (IsLawful user) _ _ (parse_credentials (request_json body))
        (λ v c e k. call-KeepsLaws env user _ _ _ _ refl (λ result. tt))

  engine_call-KeepsLaws :
      (env : Env) (user : AuthedUser)
      → KeepsLaws {N = N} user (delete_credentials env user)
        × KeepsLaws {N = N} user (post_verify env user)
        × KeepsLaws {N = N} user (get_account env user)
  unfolding delete_credentials post_verify get_account get remove_credentials verify_connection
      account
  engine_call-KeepsLaws env user = (
    call-KeepsLaws env user _ _ _ _ refl (λ result. tt),
    call-KeepsLaws env user _ _ _ _ refl (λ result. tt),
    call-KeepsLaws env user _ _ _ _ refl (λ result. tt),
  )

  list_bots-KeepsLaws : (user : AuthedUser) → KeepsLaws {N = N} user (list_bots user)
  unfolding list_bots
  list_bots-KeepsLaws user = (
    refl,
    AllCalls-awaited (IsLawful user) _
        (λ reply. rows_or_error-KeepsLaws user _ _ reply.failed reply.rows),
  )

  get_bot-KeepsLaws : (user : AuthedUser) (id : Text) → KeepsLaws {N = N} user (get_bot user id)
  unfolding get_bot
  get_bot-KeepsLaws user id = (
    refl,
    AllCalls-awaited (IsLawful user) _ (λ bot.
        found_or-KeepsLaws user _ _ bot.rows tt
          (λ v. both-KeepsLaws ⦃r = r⦄ user _ _ _ (λ targets runs. tt))),
  )

  post_bot-KeepsLaws :
      (user : AuthedUser) (body : Option (Json N)) → KeepsLaws {N = N} user (post_bot user body)
  unfolding post_bot
  post_bot-KeepsLaws user body =
      AllCalls-when_valid (IsLawful user) _ _ (parse_create_bot (request_json body)) (λ v a e k.
        AllCalls-call_rpc (IsLawful user) (create_bot user.id a.0 a.1) _
          (let (bot_ok, basket_ok) = parse_create_bot-IsValid (request_json body) a.0 a.1 e k in
            (refl, bot_ok, basket_ok))
          (λ id. tt))

  patch_bot-KeepsLaws :
      (user : AuthedUser) (id : Text) (body : Option (Json N))
      → KeepsLaws {N = N} user (patch_bot user id body)
  unfolding patch_bot
  patch_bot-KeepsLaws user id body =
      AllCalls-when_valid (IsLawful user) _ _ (parse_update_bot (request_json body)) (λ v a e k.
        AllCalls-call_rpc (IsLawful user) (update_bot user.id id a.0 a.1) _
          (let (patch_ok, targets_ok) = parse_update_bot-IsUpdate (request_json body) a.0 a.1 e k in
            (refl, patch_ok, targets_ok))
          (λ id. tt))

  remove_bot-KeepsLaws :
      (user : AuthedUser) (id : Text) → KeepsLaws {N = N} user (remove_bot user id)
  unfolding remove_bot
  remove_bot-KeepsLaws user id =
      AllCalls-call_rpc (IsLawful user) (delete_bot user.id id) _ refl (λ v. tt)

  post_status-KeepsLaws :
      (user : AuthedUser) (id : Text) (body : Option (Json N))
      → KeepsLaws {N = N} user (post_status user id body)
  unfolding post_status
  post_status-KeepsLaws user id body =
      AllCalls-when_valid (IsLawful user) _ _ (parse_status_action (request_json body)) (λ v a e k.
        AllCalls-call_rpc (IsLawful user) (set_bot_status user.id id (status_for a)) _ refl
          (λ bot. tt))

  post_rebalance-KeepsLaws :
      (env : Env) (user : AuthedUser) (id : Text)
      → KeepsLaws {N = N} user (post_rebalance env user id)
  unfolding post_rebalance get rebalance
  post_rebalance-KeepsLaws env user id = call-KeepsLaws env user _ _ _ _ refl (λ result. tt)

  get_orders-KeepsLaws :
      (user : AuthedUser) (id : Text) (limit : Option Text)
      → KeepsLaws {N = N} user (get_orders user id limit)
  unfolding get_orders
  get_orders-KeepsLaws user id limit = (
    refl,
    AllCalls-awaited (IsLawful user) _
        (λ reply. rows_or_error-KeepsLaws user _ _ reply.failed reply.rows),
  )

  get_allocation-KeepsLaws :
      (user : AuthedUser) (id : Text) → KeepsLaws {N = N} user (get_allocation user id)
  unfolding get_allocation
  get_allocation-KeepsLaws user id = both-KeepsLaws user _ _ _ (λ targets run. tt)

  -- Whatever handler serves a request, each read that it makes carries the user's own token, each
  -- write and each request to the engine the user's own id, each new bot is within its bounds with
  -- a basket of holdings, and so are the given parts of each change of a bot.
  pub serve-KeepsLaws :
      (env : Env) (req : Request N) (endpoint : Endpoint) (id : Text) (user : AuthedUser)
      → KeepsLaws {N = N} user (serve env req endpoint id user)
  unfolding serve
  serve-KeepsLaws env req health id user = tt
  serve-KeepsLaws env req me id user = tt
  serve-KeepsLaws env req connection id user = get_connection-KeepsLaws user
  serve-KeepsLaws env req save_credentials id user = post_credentials-KeepsLaws env user req.body
  serve-KeepsLaws env req drop_credentials id user = (engine_call-KeepsLaws env user).0
  serve-KeepsLaws env req verify id user = (engine_call-KeepsLaws env user).1
  serve-KeepsLaws env req account_view id user = (engine_call-KeepsLaws env user).2
  serve-KeepsLaws env req bots_list id user = list_bots-KeepsLaws user
  serve-KeepsLaws env req bot_view id user = get_bot-KeepsLaws user id
  serve-KeepsLaws env req bot_new id user = post_bot-KeepsLaws user req.body
  serve-KeepsLaws env req bot_change id user = patch_bot-KeepsLaws user id req.body
  serve-KeepsLaws env req bot_removal id user = remove_bot-KeepsLaws user id
  serve-KeepsLaws env req bot_status id user = post_status-KeepsLaws user id req.body
  serve-KeepsLaws env req bot_run id user = post_rebalance-KeepsLaws env user id
  serve-KeepsLaws env req bot_orders id user = get_orders-KeepsLaws user id req.limit
  serve-KeepsLaws env req bot_allocation id user = get_allocation-KeepsLaws user id
