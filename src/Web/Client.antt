-- ===== src/Web/Client.antt =====
-- The client of the API, web/lib/api.ts. `fetch`, the session and the base URL are arguments.
pub mod Contract
use rebalance_webull.Prelude.{
  ℕ, Bool, true, false, Option, none, some, List, [], ◌∷◌, ◌++◌, String, Text, codes,
}
use rebalance_webull.Js.{Runtime, Json, null, str, obj, Fields, field, end, get}
use rebalance_webull.Validation.Forms.{Action, start, pause, stop}
use rebalance_webull.Api.Effects.{
  Payload, no_text, json, other_text, Fetched, responded, aborted, unreachable,
}
use rebalance_webull.Api.Engine.{is_success}
use rebalance_webull.Api.Request.{or_json}

pub record ClientRequest (N : Type 0) : Type 0 where
  pub url : Text
  pub method : String
  pub authorization : Text
  pub body : Option (Json N)

-- `ApiError` of the client, whose fields are what the response holds.
pub record ClientError (N : Type 0) : Type 0 where
  pub code : Json N
  pub message : Json N
  pub details : Option (Json N)

-- A promise that resolves, one that rejects with an `ApiError`, or one that rejects with another
-- exception.
pub data Settled (N : Type 0) : Type 0 where
  resolved : Json N → Settled N
  rejected : ClientError N → Settled N
  crashed : Settled N

module _ {N : Type 0} ⦃r : Runtime N⦄ where
  -- `payload?.error ?? {}`
  abbrev error_of : Json N → Json N
  error_of payload = or_json (get payload "error") (obj end)

  unfoldable pub reported : ℕ → Json N → ClientError N
  reported status error = record {
    code = or_json (get error "code") (str (codes "internal_error"));
    message =
        or_json (get error "message")
          (str (codes "request failed with " ++ r.text_of_number (r.of_ℕ status)));
    details = get error "details";
  }

  unfoldable pub by_status : Bool → ℕ → Json N → Settled N
  unfolding reported
  by_status true status payload = resolved payload
  by_status false status payload = rejected (reported status (error_of payload))

  -- What `request` makes of the outcome of `fetch`.
  unfoldable pub receive : Fetched N → Settled N
  unfolding by_status
  receive (responded status no_text) = by_status (is_success status) status (obj end)
  receive (responded status (json payload)) = by_status (is_success status) status payload
  receive (responded status other_text) = crashed
  receive aborted = crashed
  receive unreachable = crashed

  unfoldable pub request :
      (ClientRequest N → Fetched N)
      → Text
      → Option Text
      → Text
      → String
      → Option (Json N)
      → Settled N
  unfolding receive
  request fetch base none path method body = rejected (record {
    code = str (codes "unauthorized");
    message = str (codes "your session has expired, please sign in again");
    details = none;
  })
  request fetch base (some token) path method body = receive (
      fetch (record {
        url = base ++ path;
        method = method;
        authorization = codes "Bearer " ++ token;
        body = body;
      }))

-- The functions of `api`.
pub data ClientCall (N : Type 0) : Type 0 where
  connection disconnect verify account list_bots : ClientCall N
  save_credentials : Text → Text → ClientCall N
  create_bot : Json N → ClientCall N
  get_bot delete_bot rebalance_now orders allocation : Text → ClientCall N
  update_bot : Text → Json N → ClientCall N
  set_status : Text → Action → ClientCall N

abbrev bot_at : Text → String → Text
bot_at id rest = codes "/bots/" ++ (id ++ codes rest)

abbrev action_text : Action → Text
action_text start = codes "start"
action_text pause = codes "pause"
action_text stop = codes "stop"

module _ {N : Type 0} where
  unfoldable pub path_of : ClientCall N → Text
  path_of connection = codes "/broker/connection"
  path_of (save_credentials key secret) = codes "/broker/credentials"
  path_of disconnect = codes "/broker/credentials"
  path_of verify = codes "/broker/verify"
  path_of account = codes "/broker/account"
  path_of list_bots = codes "/bots"
  path_of (get_bot id) = bot_at id ""
  path_of (create_bot body) = codes "/bots"
  path_of (update_bot id body) = bot_at id ""
  path_of (delete_bot id) = bot_at id ""
  path_of (set_status id action) = bot_at id "/status"
  path_of (rebalance_now id) = bot_at id "/rebalance"
  path_of (orders id) = bot_at id "/orders"
  path_of (allocation id) = bot_at id "/allocation"

  unfoldable pub method_of : ClientCall N → String
  method_of (save_credentials key secret) = "POST"
  method_of disconnect = "DELETE"
  method_of verify = "POST"
  method_of (create_bot body) = "POST"
  method_of (update_bot id body) = "PATCH"
  method_of (delete_bot id) = "DELETE"
  method_of (set_status id action) = "POST"
  method_of (rebalance_now id) = "POST"
  method_of _ = "GET"

  unfoldable pub body_of : ClientCall N → Option (Json N)
  body_of (save_credentials key secret) =
      some (obj (field "api_key" (str key) (field "api_secret" (str secret) end)))
  body_of (create_bot body) = some body
  body_of (update_bot id body) = some body
  body_of (set_status id action) = some (obj (field "action" (str (action_text action)) end))
  body_of _ = none
