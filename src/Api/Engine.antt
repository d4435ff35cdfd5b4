-- ===== src/Api/Engine.antt =====
-- The client of the rebalance engine, supabase/functions/_shared/engine.ts.
use rebalance_webull.Prelude.{
  ℕ, Bool, true, false, ◌&&◌, Option, none, some, ◌++◌, String, Text, codes, leb, ltb, ◌==◌,
  if◌then◌else◌,
}
use rebalance_webull.Js.{Runtime, Json, boolean, str, obj, end, field, get}
use rebalance_webull.Api.Http.{ErrorCode, not_found, upstream_error, ApiError}
use rebalance_webull.Api.Effects.{
  fetch, no_text, json, other_text, Fetched, responded, aborted, unreachable, Program, done, throw,
  ask,
}

-- What the client reads from `env` (env.ts).
pub record Env : Type 0 where
  pub engine_url : Text
  pub engine_token : Text
  pub app_env : Text

abbrev pub api_error : {N : Type 0} → ErrorCode → Text → ApiError N
api_error code message = record { code = code; message = message; details = none }

abbrev pub not_responding : Text
not_responding = codes "the rebalance engine did not respond in time"

abbrev pub is_unreachable : Text
is_unreachable = codes "the rebalance engine is unreachable"

-- `response.ok`
abbrev pub is_success : ℕ → Bool
is_success status = leb 200 status && ltb status 300

module _ {N : Type 0} ⦃r : Runtime N⦄ where
  -- `payload?.detail` if it is text, and else the status.
  unfoldable pub detail_of : ℕ → Option (Json N) → Text
  detail_of status (some (str t)) = t
  detail_of status v = codes "engine returned " ++ r.text_of_number (r.of_ℕ status)

  -- A response whose text was parsed, by whether its status is one of success.
  unfoldable pub answer : Bool → ℕ → Json N → Program N (Json N)
  unfolding detail_of
  answer true status payload = done payload
  answer false status payload = throw (
      api_error (if status == 404 then not_found else upstream_error)
        (detail_of status (get payload "detail")))

  -- What `call` makes of the outcome of `fetch`, its catch clauses included. A text that is no
  -- JSON is an exception of `JSON.parse`, which they catch.
  unfoldable pub settle : Fetched N → Program N (Json N)
  unfolding answer
  settle (responded status no_text) = answer (is_success status) status (obj end)
  settle (responded status (json payload)) = answer (is_success status) status payload
  settle (responded status other_text) = throw (api_error upstream_error is_unreachable)
  settle aborted = throw (api_error upstream_error not_responding)
  settle unreachable = throw (api_error upstream_error is_unreachable)

  unfoldable pub call : Env → Text → String → Json N → Program N (Json N)
  unfolding settle
  call env path method body =
      ask
        (fetch (record {
          url = env.engine_url ++ path;
          method = method;
          authorization = codes "Bearer " ++ env.engine_token;
          body = body;
        }))
        settle

  unfoldable pub store_credentials : Env → Text → Text → Text → Program N (Json N)
  store_credentials env user_id api_key api_secret =
      call env (codes "/internal/credentials") "POST" (
        obj (
          field "user_id" (str user_id)
            (field "api_key" (str api_key) (field "api_secret" (str api_secret) end))))

  unfoldable pub remove_credentials : Env → Text → Program N (Json N)
  remove_credentials env user_id =
      call env (codes "/internal/credentials") "DELETE" (obj (field "user_id" (str user_id) end))

  unfoldable pub verify_connection : Env → Text → Program N (Json N)
  verify_connection env user_id =
      call env (codes "/internal/connection/verify") "POST"
        (obj (field "user_id" (str user_id) end))

  unfoldable pub account : Env → Text → Program N (Json N)
  account env user_id =
      call env (codes "/internal/account") "POST" (obj (field "user_id" (str user_id) end))

  unfoldable pub rebalance : Env → Text → Text → Bool → Program N (Json N)
  rebalance env user_id bot_id force =
      call env (codes "/internal/bots/" ++ bot_id ++ codes "/rebalance") "POST"
        (obj (field "user_id" (str user_id) (field "force" (boolean force) end)))
