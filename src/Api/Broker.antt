-- ===== src/Api/Broker.antt =====
-- The routes of the broker connection, supabase/functions/api/routes/broker.ts.
use rebalance_webull.Prelude.{Bool, true, false, Option, none, [], codes}
use rebalance_webull.Js.{Runtime, Json, null, str, obj, end, field}
use rebalance_webull.Validation.Forms.{parse_credentials}
use rebalance_webull.Api.Http.{internal_error, Response, ok}
use rebalance_webull.Api.Effects.{Query, select, Program, done, throw, ask, ◌>>=◌, awaited}
use rebalance_webull.Api.Engine.{
  Env, api_error, store_credentials, remove_credentials, verify_connection, account,
}
use rebalance_webull.Api.Request.{request_json, invalid, when_valid, or_json}
use rebalance_webull.Api.Auth.{AuthedUser}

module _ {N : Type 0} where
  abbrev disconnected : Json N
  disconnected = obj (
      field "status" (str (codes "disconnected")) (
        field "environment" null (
          field "account_id" null (
            field "account_currency" null (
              field "api_key_hint" null
                (field "last_verified_at" null (field "last_error" null end)))))))

  abbrev connection_query : Query N
  connection_query = record {
    table = "broker_connections";
    columns =
        "status, environment, account_id, account_currency, api_key_hint, last_verified_at, last_error";
    filters = [];
    order = none;
    limit = none;
    maybe_single = true;
  }

  unfoldable pub connection_reply : Bool → Option (Json N) → Program N (Response N)
  connection_reply true rows =
      throw (api_error internal_error (codes "could not read the connection"))
  connection_reply false rows = done (ok (or_json rows disconnected) 200)

  -- GET /connection
  unfoldable pub get_connection : AuthedUser → Program N (Response N)
  unfolding ok
  get_connection user =
      ask (select user.token connection_query)
        (awaited λ reply. connection_reply reply.failed reply.rows)

module _ {N : Type 0} ⦃r : Runtime N⦄ where
  -- POST /credentials
  unfoldable pub post_credentials : Env → AuthedUser → Option (Json N) → Program N (Response N)
  unfolding ok
  post_credentials env user body =
      when_valid (invalid (codes "invalid credentials"))
        (λ c.
          store_credentials env user.id c.api_key c.api_secret >>= λ result. done (ok result 200))
        (parse_credentials (request_json body))

  -- DELETE /credentials
  unfoldable pub delete_credentials : Env → AuthedUser → Program N (Response N)
  unfolding ok
  delete_credentials env user = remove_credentials env user.id >>= λ result. done (ok result 200)

  -- POST /verify
  unfoldable pub post_verify : Env → AuthedUser → Program N (Response N)
  unfolding ok
  post_verify env user = verify_connection env user.id >>= λ result. done (ok result 200)

  -- GET /account
  unfoldable pub get_account : Env → AuthedUser → Program N (Response N)
  unfolding ok
  get_account env user = account env user.id >>= λ result. done (ok result 200)
