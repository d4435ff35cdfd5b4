-- ===== src/Web/Client/Contract.antt =====
-- What the client of web/lib/api.ts and the application of supabase/functions agree on: the routes,
-- the bodies of actions and the shape of errors.
use rebalance_webull.Prelude.{
  ℕ, suc, ◌≡◌, refl, ap, false, Option, none, some, List, [], ◌∷◌, ◌++◌, String, Text, codes, drop,
}
use rebalance_webull.Js.{Runtime, Json, str, obj, Fields, field, end, get, body_or_empty}
use rebalance_webull.Validation.Check.{Issue, finish, one_of}
use rebalance_webull.Validation.Forms.{Action, start, pause, stop, parse_status_action}
use rebalance_webull.Api.Http.{ErrorCode, ApiError, fail, status_of}
use rebalance_webull.Api.Effects.{responded, json}
use rebalance_webull.Api.Engine.{is_success}
use rebalance_webull.Api.App.{Endpoint, Segment, lit, id_param, wildcard, Pattern, Route, routes}
use rebalance_webull.Api.App
use rebalance_webull.Web.Client.{
  rejected, reported, by_status, receive, ClientCall, connection, disconnect, verify, account,
  list_bots, save_credentials, create_bot, get_bot, delete_bot, rebalance_now, orders, allocation,
  update_bot, set_status, path_of, method_of, body_of,
}

-- A path of a pattern, with a text for `:id`.
abbrev pub path_text : Text → Pattern → Text
path_text id [] = []
path_text id (lit s ∷ p) = codes "/" ++ (codes s ++ path_text id p)
path_text id (id_param ∷ p) = codes "/" ++ (id ++ path_text id p)
path_text id (wildcard ∷ p) = codes "/*"

-- The application registers the handler at this method and pattern.
abbrev pub IsRegistered : String → Pattern → Endpoint → Type 0
IsRegistered method pattern endpoint =
    (k : ℕ) × (drop k routes
      ≡ record { method = method; pattern = pattern; endpoint = endpoint } ∷ drop (suc k) routes)

abbrev bot_pattern : List Segment → Pattern
bot_pattern rest = lit "bots" ∷ id_param ∷ rest

abbrev broker_pattern : String → Pattern
broker_pattern name = lit "broker" ∷ lit name ∷ []

-- The handler that each function of the client means, with its pattern and the bot's id.
abbrev pub target_of : {N : Type 0} → ClientCall N → Pattern × Endpoint × Text
target_of connection = (broker_pattern "connection", App.connection, [])
target_of (save_credentials key secret) = (broker_pattern "credentials", App.save_credentials, [])
target_of disconnect = (broker_pattern "credentials", App.drop_credentials, [])
target_of verify = (broker_pattern "verify", App.verify, [])
target_of account = (broker_pattern "account", App.account_view, [])
target_of list_bots = (lit "bots" ∷ [], App.bots_list, [])
target_of (get_bot id) = (bot_pattern [], App.bot_view, id)
target_of (create_bot body) = (lit "bots" ∷ [], App.bot_new, [])
target_of (update_bot id body) = (bot_pattern [], App.bot_change, id)
target_of (delete_bot id) = (bot_pattern [], App.bot_removal, id)
target_of (set_status id action) = (bot_pattern (lit "status" ∷ []), App.bot_status, id)
target_of (rebalance_now id) = (bot_pattern (lit "rebalance" ∷ []), App.bot_run, id)
target_of (orders id) = (bot_pattern (lit "orders" ∷ []), App.bot_orders, id)
target_of (allocation id) = (bot_pattern (lit "allocation" ∷ []), App.bot_allocation, id)

-- For every function of the client, the application registers the handler that it means at the
-- method that the client uses and at a pattern whose path, with the bot's id, is the client's.
pub path_of-IsRegistered :
    {N : Type 0} (c : ClientCall N)
    → IsRegistered (method_of c) (target_of c).0 (target_of c).1
      × (path_of c ≡ path_text (target_of c).2 (target_of c).0)
unfolding path_of method_of
path_of-IsRegistered connection = ((2, refl), refl)
path_of-IsRegistered (save_credentials key secret) = ((3, refl), refl)
path_of-IsRegistered disconnect = ((4, refl), refl)
path_of-IsRegistered verify = ((5, refl), refl)
path_of-IsRegistered account = ((6, refl), refl)
path_of-IsRegistered list_bots = ((7, refl), refl)
path_of-IsRegistered (get_bot id) = ((8, refl), refl)
path_of-IsRegistered (create_bot body) = ((9, refl), refl)
path_of-IsRegistered (update_bot id body) = ((10, refl), refl)
path_of-IsRegistered (delete_bot id) = ((11, refl), refl)
path_of-IsRegistered (set_status id action) = ((12, refl), refl)
path_of-IsRegistered (rebalance_now id) = ((13, refl), refl)
path_of-IsRegistered (orders id) = ((14, refl), refl)
path_of-IsRegistered (allocation id) = ((15, refl), refl)

-- The text of a code, and the JSON of `fail`, by the JSON of the details.
abbrev pub code_text : ErrorCode → Text
code_text ErrorCode.unauthorized = codes "unauthorized"
code_text ErrorCode.forbidden = codes "forbidden"
code_text ErrorCode.not_found = codes "not_found"
code_text ErrorCode.invalid_request = codes "invalid_request"
code_text ErrorCode.conflict = codes "conflict"
code_text ErrorCode.broker_error = codes "broker_error"
code_text ErrorCode.upstream_error = codes "upstream_error"
code_text ErrorCode.internal_error = codes "internal_error"

-- Every code of an error has a status that is none of success.
status-error : (code : ErrorCode) → is_success (status_of code) ≡ false
unfolding status_of
status-error ErrorCode.unauthorized = refl
status-error ErrorCode.forbidden = refl
status-error ErrorCode.not_found = refl
status-error ErrorCode.invalid_request = refl
status-error ErrorCode.conflict = refl
status-error ErrorCode.broker_error = refl
status-error ErrorCode.upstream_error = refl
status-error ErrorCode.internal_error = refl

module _ {N : Type 0} where
  abbrev details_fields : (List (Issue N) → Json N) → Option (List (Issue N)) → Fields N
  details_fields written none = end
  details_fields written (some issues) = field "details" (written issues) end

  abbrev pub written_details : (List (Issue N) → Json N) → Option (List (Issue N)) → Option (Json N)
  written_details written none = none
  written_details written (some issues) = some (written issues)

  abbrev pub error_json : (List (Issue N) → Json N) → ApiError N → Json N
  error_json written e = obj (
      field "error"
        (obj (
          field "code" (str (code_text e.code))
            (field "message" (str e.message) (details_fields written e.details))))
        end)

module _ {N : Type 0} ⦃r : Runtime N⦄ where
  reported_fields :
      (written : List (Issue N) → Json N) (status : ℕ) (code message : Text)
      (details : Option (List (Issue N)))
      → reported status (
          obj (
            field "code"
              (str code)
              (field "message" (str message) (details_fields written details))))
        ≡ record {
          code = str code;
          message = str message;
          details = written_details written details;
        }
  unfolding reported get
  reported_fields written status code message none = refl
  reported_fields written status code message (some issues) = refl

  -- Whatever error the application reports, the client rejects with its code, its message and its
  -- details.
  pub receive-fail :
      (written : List (Issue N) → Json N) (e : ApiError N)
      → receive (responded (fail e).status (json (error_json written e)))
        ≡ rejected (record {
          code = str (code_text e.code);
          message = str e.message;
          details = written_details written e.details;
        })
  unfolding receive fail by_status get
  receive-fail written e = rw (status-error e.code) (
      ap rejected
        (reported_fields written (status_of e.code) (code_text e.code) e.message e.details))

-- Each action that the client sends is read by the application as that action, with no issue.
pub parse_status_action-body_of :
    {N : Type 0} (id : Text) (action : Action)
    → (body : Json N) × (body_of (set_status id action) ≡ some body)
      × (parse_status_action body ≡ some (record { value = some action; issues = [] }))
unfolding body_of parse_status_action body_or_empty get finish one_of
parse_status_action-body_of id start = (_, refl, refl)
parse_status_action-body_of id pause = (_, refl, refl)
parse_status_action-body_of id stop = (_, refl, refl)
