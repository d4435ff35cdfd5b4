-- ===== src/Api/Answers/Handlers.antt =====
-- Every handler of supabase/functions ends after at most three calls.
use rebalance_webull.Prelude.{
  ℕ, ◌-◌, ◌≤◌, refl, inl, inr, Bool, true, false, Option, String, Text, arith,
}
use rebalance_webull.Js.{Runtime, Json}
use rebalance_webull.Validation.Bot.{parse_create_bot}
use rebalance_webull.Validation.Patch.{parse_update_bot}
use rebalance_webull.Validation.Forms.{parse_credentials, parse_status_action}
use rebalance_webull.Api.Http.{Response, ok}
use rebalance_webull.Api.Effects.{
  create_bot, update_bot, delete_bot, set_bot_status, Program, ◌>>=◌,
}
use rebalance_webull.Api.Engine.{
  Env, call, store_credentials, remove_credentials, verify_connection, account, rebalance,
}
use rebalance_webull.Api.Auth.{AuthedUser}
use rebalance_webull.Api.Request.{request_json}
use rebalance_webull.Api.Broker.{
  get_connection, connection_reply, post_credentials, delete_credentials, post_verify, get_account,
}
use rebalance_webull.Api.BotReads.{list_bots, get_bot, get_orders, get_allocation}
use rebalance_webull.Api.BotWrites.{
  status_for, post_bot, patch_bot, remove_bot, post_status, post_rebalance,
}
use rebalance_webull.Api.App.{
  Endpoint, health, me, connection, save_credentials, drop_credentials, verify, account_view,
  bots_list, bot_view, bot_new, bot_change, bot_removal, bot_status, bot_run, bot_orders,
  bot_allocation, Request, serve,
}
use rebalance_webull.Api.Answers.{
  HandlesWithin, EndsWithin-awaited, EndsWithin-call_rpc, EndsWithin-when_valid,
  HandlesWithin-rows_or_error, HandlesWithin-both, EndsWithin-found_or, settle-EndsWithin,
}

module _ {N : Type 0} ⦃r : Runtime N⦄ where
  call-HandlesWithin :
      (n : ℕ) (env : Env) (path : Text) (method : String) (body : Json N)
      (next : Json N → Program N (Response N))
      → 1 ≤ n
      → ((v : Json N) → HandlesWithin (n - 1) (next v))
      → HandlesWithin n (call env path method body >>= next)
  unfolding call
  call-HandlesWithin n env path method body next some_left k =
      (some_left, λ reply. settle-EndsWithin (n - 1) reply next k)

  connection_reply-HandlesWithin :
      (n : ℕ) (failed : Bool) (rows : Option (Json N))
      → HandlesWithin n (connection_reply failed rows)
  unfolding connection_reply ok
  connection_reply-HandlesWithin n true rows = tt
  connection_reply-HandlesWithin n false rows = inl refl

  pub serve-HandlesWithin :
      (env : Env) (req : Request N) (endpoint : Endpoint) (id : Text) (user : AuthedUser)
      → HandlesWithin 3 (serve env req endpoint id user)
  unfolding serve ok get_connection post_credentials store_credentials delete_credentials
      remove_credentials post_verify verify_connection get_account account list_bots get_bot
      post_bot patch_bot remove_bot post_status post_rebalance rebalance get_orders get_allocation
  serve-HandlesWithin env req health id user = inl refl
  serve-HandlesWithin env req me id user = inl refl
  serve-HandlesWithin env req connection id user = (
    omega arith,
    EndsWithin-awaited _ 2 _ (λ reply. connection_reply-HandlesWithin 2 reply.failed reply.rows),
  )
  serve-HandlesWithin env req save_credentials id user =
      EndsWithin-when_valid _ 3 _ _ (parse_credentials (request_json req.body))
        (λ c. call-HandlesWithin 3 env _ _ _ _ (omega arith) (λ result. inl refl))
  serve-HandlesWithin env req drop_credentials id user =
      call-HandlesWithin 3 env _ _ _ _ (omega arith) (λ result. inl refl)
  serve-HandlesWithin env req verify id user =
      call-HandlesWithin 3 env _ _ _ _ (omega arith) (λ result. inl refl)
  serve-HandlesWithin env req account_view id user =
      call-HandlesWithin 3 env _ _ _ _ (omega arith) (λ result. inl refl)
  serve-HandlesWithin env req bots_list id user = (
    omega arith,
    EndsWithin-awaited _ 2 _ (λ reply. HandlesWithin-rows_or_error 2 _ _ reply.failed reply.rows),
  )
  serve-HandlesWithin env req bot_view id user = (
    omega arith,
    EndsWithin-awaited _ 2 _ (λ bot.
        EndsWithin-found_or 2 _ _ bot.rows tt
          (λ v. HandlesWithin-both 2 _ _ _ _ (omega arith) (λ targets runs. inl refl))),
  )
  serve-HandlesWithin env req bot_new id user =
      EndsWithin-when_valid _ 3 _ _ (parse_create_bot (request_json req.body)) (λ a.
        EndsWithin-call_rpc _ 3 (create_bot user.id a.0 a.1) _ (omega arith) (λ v. inr (inl refl)))
  serve-HandlesWithin env req bot_change id user =
      EndsWithin-when_valid _ 3 _ _ (parse_update_bot (request_json req.body)) (λ a.
        EndsWithin-call_rpc _ 3 (update_bot user.id id a.0 a.1) _ (omega arith) (λ v. inl refl))
  serve-HandlesWithin env req bot_removal id user =
      EndsWithin-call_rpc _ 3 (delete_bot user.id id) _ (omega arith) (λ v. inl refl)
  serve-HandlesWithin env req bot_status id user =
      EndsWithin-when_valid _ 3 _ _ (parse_status_action (request_json req.body)) (λ a.
        EndsWithin-call_rpc _ 3 (set_bot_status user.id id (status_for a)) _ (omega arith)
          (λ v. inl refl))
  serve-HandlesWithin env req bot_run id user =
      call-HandlesWithin 3 env _ _ _ _ (omega arith) (λ result. inl refl)
  serve-HandlesWithin env req bot_orders id user = (
    omega arith,
    EndsWithin-awaited _ 2 _ (λ reply. HandlesWithin-rows_or_error 2 _ _ reply.failed reply.rows),
  )
  serve-HandlesWithin env req bot_allocation id user =
      HandlesWithin-both 3 _ _ _ _ (omega arith) (λ targets run. inl refl)
