-- ===== src/Api/App.antt =====
-- The application, supabase/functions/api/index.ts: guards, routes and the handlers of errors.
use rebalance_webull.Prelude.{
  ◌≡◌, ◌≢◌, Option, none, some, List, [], ◌∷◌, ◌++◌, String, Text, codes, str_eq, if◌then◌else◌,
}
use rebalance_webull.Js.{Runtime, Json, null, str, obj, end, field}
use rebalance_webull.Api.Http.{not_found, internal_error, Response, no_body, ok, fail}
use rebalance_webull.Api.Effects.{Program, done, throw, crash, ask}
use rebalance_webull.Api.Engine.{Env, api_error}
use rebalance_webull.Api.Auth.{AuthedUser, require_user}
use rebalance_webull.Api.Broker.{
  get_connection, post_credentials, delete_credentials, post_verify, get_account,
}
use rebalance_webull.Api.BotReads.{list_bots, get_bot, get_orders, get_allocation}
use rebalance_webull.Api.BotWrites.{post_bot, patch_bot, remove_bot, post_status, post_rebalance}

pub data Endpoint : Type 0 where
  health me : Endpoint
  connection save_credentials drop_credentials verify account_view : Endpoint
  bots_list bot_view bot_new bot_change bot_removal bot_status bot_run : Endpoint
  bot_orders bot_allocation : Endpoint

-- A part of a path pattern: a literal, `:id`, or `*` at the end.
pub data Segment : Type 0 where
  lit : String → Segment
  id_param wildcard : Segment

abbrev pub Pattern : Type 0
Pattern = List Segment

-- The patterns of `app.use(…, requireUser)`.
abbrev pub guards : List Pattern
guards =
    (lit "broker" ∷ wildcard ∷ [])
    ∷ (lit "bots" ∷ [])
    ∷ (lit "bots" ∷ wildcard ∷ [])
    ∷ (lit "me" ∷ [])
    ∷ []

pub record Route : Type 0 where
  pub method : String
  pub pattern : Pattern
  pub endpoint : Endpoint

abbrev route : String → Pattern → Endpoint → Route
route method pattern endpoint = record { method = method; pattern = pattern; endpoint = endpoint }

-- `/bots/:id`, and a path below it.
abbrev bot_path : List Segment → Pattern
bot_path rest = lit "bots" ∷ id_param ∷ rest

abbrev broker_path : String → Pattern
broker_path name = lit "broker" ∷ lit name ∷ []

-- The registered handlers, in order; those of `app.route` with the prefix of their router.
abbrev pub routes : List Route
routes =
    route "GET" (lit "health" ∷ []) health
    ∷ route "GET" (lit "me" ∷ []) me
    ∷ route "GET" (broker_path "connection") connection
    ∷ route "POST" (broker_path "credentials") save_credentials
    ∷ route "DELETE" (broker_path "credentials") drop_credentials
    ∷ route "POST" (broker_path "verify") verify
    ∷ route "GET" (broker_path "account") account_view
    ∷ route "GET" (lit "bots" ∷ []) bots_list
    ∷ route "GET" (bot_path []) bot_view
    ∷ route "POST" (lit "bots" ∷ []) bot_new
    ∷ route "PATCH" (bot_path []) bot_change
    ∷ route "DELETE" (bot_path []) bot_removal
    ∷ route "POST" (bot_path (lit "status" ∷ [])) bot_status
    ∷ route "POST" (bot_path (lit "rebalance" ∷ [])) bot_run
    ∷ route "GET" (bot_path (lit "orders" ∷ [])) bot_orders
    ∷ route "GET" (bot_path (lit "allocation" ∷ [])) bot_allocation
    ∷ []

-- Hono's router: whether a pattern, behind the base path "/api", matches a path, with the value of
-- `:id`, empty where the pattern has none. The law is what Hono documents of `*`: it matches
-- whatever a longer pattern with the same beginning matches.
pub record Router : Type 0 where
  pub matches : Pattern → Text → Option Text
  pub wildcard_covers :
      (p : Pattern) (s : Segment) (q : Pattern) (path id : Text)
      → matches (p ++ s ∷ q) path ≡ some id
      → matches (p ++ wildcard ∷ []) path ≢ none

-- A request of Hono, whose method is GET for HEAD too.
pub record Request (N : Type 0) : Type 0 where
  pub method : String
  pub path : Text
  pub authorization : Option Text
  pub body : Option (Json N)
  pub limit : Option Text

-- The first handler of the request's method whose pattern matches.
unfoldable pub find_route : Router → String → Text → List Route → Option (Endpoint × Text)
find_route router method path [] = none
find_route router method path (rt ∷ rts) =
    let later = find_route router method path rts in
    if str_eq rt.method method
    then elim (router.matches rt.pattern path) [ none ↦ later | some id ↦ some (rt.endpoint, id) ]
    else later

abbrev email_json : {N : Type 0} → Option Text → Json N
email_json none = null
email_json (some t) = str t

unfoldable pub when_matched : {A : Type 0} → Option Text → A → A → A
when_matched none asked skipped = skipped
when_matched (some id) asked skipped = asked

module _ {N : Type 0} where
  -- The guards whose pattern matches, each of which asks for a user before the rest runs.
  unfoldable pub guarded :
      Router
      → Request N
      → List Pattern
      → Option AuthedUser
      → (Option AuthedUser → Program N (Response N))
      → Program N (Response N)
  guarded router req [] user next = next user
  guarded router req (g ∷ gs) user next =
      let skipped = guarded router req gs user next in
      let asked = require_user req.authorization (λ u. guarded router req gs (some u) next) in
      when_matched (router.matches g req.path) asked skipped

  -- `app.onError`: any exception becomes a response.
  unfoldable pub caught : Program N (Response N) → Program N (Response N)
  unfolding fail
  caught (done response) = done response
  caught (throw e) = done (fail e)
  caught crash = done (fail (api_error internal_error (codes "something went wrong")))
  caught (ask c k) = ask c (λ reply. caught (k reply))

-- GET /health
unfoldable pub health_reply : {N : Type 0} → Env → Program N (Response N)
unfolding ok
health_reply env =
    done (ok (obj (field "status" (str (codes "ok")) (field "env" (str env.app_env) end))) 200)

module _ {N : Type 0} ⦃r : Runtime N⦄ where
  -- The handlers behind `requireUser`.
  unfoldable pub serve : Env → Request N → Endpoint → Text → AuthedUser → Program N (Response N)
  unfolding ok health_reply
  serve env req health id user = health_reply env
  serve env req me id user =
      done (ok (obj (field "id" (str user.id) (field "email" (email_json user.email) end))) 200)
  serve env req connection id user = get_connection user
  serve env req save_credentials id user = post_credentials env user req.body
  serve env req drop_credentials id user = delete_credentials env user
  serve env req verify id user = post_verify env user
  serve env req account_view id user = get_account env user
  serve env req bots_list id user = list_bots user
  serve env req bot_view id user = get_bot user id
  serve env req bot_new id user = post_bot user req.body
  serve env req bot_change id user = patch_bot user id req.body
  serve env req bot_removal id user = remove_bot user id
  serve env req bot_status id user = post_status user id req.body
  serve env req bot_run id user = post_rebalance env user id
  serve env req bot_orders id user = get_orders user id req.limit
  serve env req bot_allocation id user = get_allocation user id

  -- `currentUser` gives `undefined` where no guard ran, and a handler then fails on its fields.
  abbrev pub with_user :
      Option AuthedUser → (AuthedUser → Program N (Response N)) → Program N (Response N)
  with_user none handler = crash
  with_user (some user) handler = handler user

  -- The handler of a path, or `app.notFound`.
  unfoldable pub dispatch :
      Env → Request N → Option (Endpoint × Text) → Option AuthedUser → Program N (Response N)
  unfolding serve fail health_reply
  dispatch env req none user = done (fail (api_error not_found (codes "no route for " ++ req.path)))
  dispatch env req (some (health, id)) user = health_reply env
  dispatch env req (some (endpoint, id)) user = with_user user (serve env req endpoint id)

  -- What Hono's `cors` answers to every OPTIONS request itself: 204, with no body.
  abbrev pub preflight : Response N
  preflight = record { status = 204; body = no_body }

  -- The answer to a request. `cors` runs on every path, before the guards.
  unfoldable pub respond : Env → Router → Request N → Program N (Response N)
  unfolding caught guarded when_matched dispatch find_route
  respond env router req =
      if str_eq req.method "OPTIONS"
      then done preflight
      else caught (
          guarded router req guards none
            (dispatch env req (find_route router req.method req.path routes)))
