-- ===== src/Api/BotWrites.antt =====
-- The routes of supabase/functions/api/routes/bots.ts that write or trade.
use rebalance_webull.Prelude.{true, Option, Text, codes}
use rebalance_webull.Js.{Runtime, Json, null, str, obj, end, field}
use rebalance_webull.Validation.Bot.{parse_create_bot}
use rebalance_webull.Validation.Patch.{parse_update_bot}
use rebalance_webull.Validation.Forms.{Action, start, pause, stop, parse_status_action}
use rebalance_webull.Api.Http.{invalid_request, Response, ok}
use rebalance_webull.Api.Effects.{
  BotStatus, running, paused, stopped, create_bot, update_bot, delete_bot, set_bot_status, Program,
  done, ◌>>=◌,
}
use rebalance_webull.Api.Engine.{Env, api_error, rebalance}
use rebalance_webull.Api.Request.{request_json, invalid, when_valid, or_json}
use rebalance_webull.Api.Auth.{AuthedUser}
use rebalance_webull.Api.Postgres.{call_rpc}

-- The status that an action asks for.
abbrev pub status_for : Action → BotStatus
status_for start = running
status_for pause = paused
status_for stop = stopped

module _ {N : Type 0} where
  abbrev status_json : Text → Json N
  status_json t = obj (field "status" (str t) end)

  -- A row or rows of `data`; `undefined` and null are the same to the callers.
  abbrev data_json : Option (Json N) → Json N
  data_json rows = or_json rows null

module _ {N : Type 0} ⦃r : Runtime N⦄ where
  -- POST /
  unfoldable pub post_bot : AuthedUser → Option (Json N) → Program N (Response N)
  unfolding ok when_valid
  post_bot user body =
      when_valid (invalid (codes "invalid bot configuration"))
        (λ parsed.
          call_rpc (create_bot user.id parsed.0 parsed.1)
            (λ id. done (ok (obj (field "id" (data_json id) end)) 201)))
        (parse_create_bot (request_json body))

  -- PATCH /:id
  unfoldable pub patch_bot : AuthedUser → Text → Option (Json N) → Program N (Response N)
  unfolding ok when_valid
  patch_bot user id body =
      when_valid (invalid (codes "invalid bot configuration"))
        (λ parsed.
          call_rpc (update_bot user.id id parsed.0 parsed.1)
            (λ none_returned. done (ok (status_json (codes "updated")) 200)))
        (parse_update_bot (request_json body))

  -- DELETE /:id
  unfoldable pub remove_bot : AuthedUser → Text → Program N (Response N)
  unfolding ok
  remove_bot user id =
      call_rpc (delete_bot user.id id)
        (λ none_returned. done (ok (status_json (codes "deleted")) 200))

  -- POST /:id/status
  unfoldable pub post_status : AuthedUser → Text → Option (Json N) → Program N (Response N)
  unfolding ok when_valid
  post_status user id body =
      when_valid (λ issues. api_error invalid_request (codes "action must be start, pause or stop"))
        (λ action.
          call_rpc (set_bot_status user.id id (status_for action))
            (λ bot. done (ok (obj (field "bot" (data_json bot) end)) 200)))
        (parse_status_action (request_json body))

  -- POST /:id/rebalance
  unfoldable pub post_rebalance : Env → AuthedUser → Text → Program N (Response N)
  unfolding ok
  post_rebalance env user id = rebalance env user.id id true >>= λ result. done (ok result 200)
