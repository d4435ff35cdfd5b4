-- ===== src/Tests/Requests.antt =====
-- Requests to the application of supabase/functions and replies of its services, on which the
-- theorems on its handlers apply.
use rebalance_webull.Prelude.{◌≡◌, refl, ◌≢◌, none, some, [], codes}
use rebalance_webull.Js.{str, obj, field, end}
use rebalance_webull.Api.Effects.{PostgresError, Fetched, responded, json, done, crash}
use rebalance_webull.Api.Engine.{Env, settle}
use rebalance_webull.Api.Auth.{AuthedUser, bearer_token}
use rebalance_webull.Api.Postgres.{message_of, from_postgres}
use rebalance_webull.Api.App.{
  health, bot_new, bot_orders, Request, find_route, routes, guards, guarded, caught, serve, respond,
}
use rebalance_webull.Api.Session.{IsAuthorised, respond-IsAuthorised}
use rebalance_webull.Api.Refusal.{missing_token, respond_without_token, respond_with_user, or_else}
use rebalance_webull.Api.Errors.{IsScreened, from_postgres_texts, IsSettled, settle-IsSettled}
use rebalance_webull.Tests.Numbers.{Sample, sample_runtime}
use rebalance_webull.Tests.Routing.{sample_router}
use rebalance_webull.Tests.Bots.{sample_body}

abbrev pub sample_env : Env
sample_env = record {
  engine_url = codes "http://engine:8000";
  engine_token = codes "secret";
  app_env = codes "test";
}

abbrev pub sample_user : AuthedUser
sample_user = record { id = codes "u1"; email = some (codes "u1@example.com"); token = codes "t1" }

-- POST /bots with a bearer token and a body that is valid.
abbrev pub post_request : Request Sample
post_request = record {
  method = "POST";
  path = codes "/api/bots";
  authorization = some (codes "Bearer t1");
  body = some sample_body;
  limit = none;
}

-- The same with no header.
abbrev bare_request : Request Sample
bare_request = record {
  method = "POST";
  path = codes "/api/bots";
  authorization = none;
  body = some sample_body;
  limit = none;
}

post_request_routed :
    find_route sample_router "POST" (codes "/api/bots") routes ≡ some (bot_new, [])
unfolding find_route
post_request_routed = refl

-- GET /bots/b1 is routed with its id.
view_routed :
    find_route sample_router "GET" (codes "/api/bots/b1/orders") routes
    ≡ some (bot_orders, codes "b1")
unfolding find_route
view_routed = refl

bot_new_is_guarded : bot_new ≢ health
bot_new_is_guarded e = cc

bare_token : bearer_token bare_request.authorization ≡ []
unfolding bearer_token
bare_token = refl

respond-IsAuthorised_example :
    IsAuthorised
      (bearer_token post_request.authorization)
      none
      (respond sample_env sample_router post_request)
respond-IsAuthorised_example = respond-IsAuthorised sample_env sample_router post_request

respond_without_token_example : respond sample_env sample_router bare_request ≡ done missing_token
respond_without_token_example =
    respond_without_token sample_env sample_router bare_request bot_new [] post_request_routed
      bot_new_is_guarded bare_token

respond_with_user_example :
    respond sample_env sample_router post_request
    ≡ caught (
        guarded sample_router post_request guards none
          (or_else crash (serve sample_env post_request bot_new [])))
respond_with_user_example =
    respond_with_user sample_env sample_router post_request crash bot_new [] post_request_routed
      bot_new_is_guarded

abbrev duplicate_name : PostgresError
duplicate_name = record {
  message = some (codes "duplicate key value violates unique constraint");
  code = some (codes "23505");
}

from_postgres_texts_example :
    IsScreened (message_of duplicate_name.message) (from_postgres {N = Sample} duplicate_name)
from_postgres_texts_example = from_postgres_texts Sample duplicate_name

-- A 404 of the engine with a detail.
abbrev engine_missing : Fetched Sample
engine_missing = responded 404 (json (obj (field "detail" (str (codes "no credentials")) end)))

settle-IsSettled_example : IsSettled engine_missing (settle engine_missing)
settle-IsSettled_example = settle-IsSettled engine_missing
