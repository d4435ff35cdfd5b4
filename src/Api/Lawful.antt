-- ===== src/Api/Lawful.antt =====
-- What every call of a handler of supabase/functions keeps to.
pub mod Handlers
use rebalance_webull.Prelude.{
  ℕ, ◌≡◌, refl, Bool, true, false, Option, none, some, List, String, Text, codes, arith,
}
use rebalance_webull.Js.{Runtime, Json, null, str, get}
use rebalance_webull.Validation.Targets.{Target}
use rebalance_webull.Validation.Bot.{BotInput, parse_create_bot}
use rebalance_webull.Validation.Bot.Sound.{IsBot, parse_create_bot-IsValid}
use rebalance_webull.Validation.Patch.{BotPatch, parse_update_bot}
use rebalance_webull.Validation.Patch.Sound.{IsGiven, IsPatch, parse_update_bot-IsUpdate}
use rebalance_webull.Validation.Basket.{IsBasket}
use rebalance_webull.Validation.Forms.{parse_credentials, parse_status_action}
use rebalance_webull.Api.Http.{Response}
use rebalance_webull.Api.Effects.{
  Procedure, create_bot, update_bot, delete_bot, set_bot_status, EngineRequest, Query, Rows, Call,
  get_user, select, rpc, fetch, Payload, no_text, json, other_text, Fetched, responded, aborted,
  unreachable, ◌>>=◌, Program, done, throw, crash, ask, awaited, AllCalls,
}
use rebalance_webull.Api.Engine.{
  Env, call, settle, answer, store_credentials, remove_credentials, verify_connection, account,
  rebalance,
}
use rebalance_webull.Api.Auth.{AuthedUser}
use rebalance_webull.Api.Request.{request_json}
use rebalance_webull.Api.Broker.{
  get_connection, connection_reply, post_credentials, delete_credentials, post_verify, get_account,
}
use rebalance_webull.Api.BotReads.{
  rows_or_error, both, found_or, list_bots, get_bot, get_orders, get_allocation,
}
use rebalance_webull.Api.BotWrites.{post_bot, patch_bot, remove_bot, post_status, post_rebalance}
use rebalance_webull.Api.Calls.{
  AllCalls-bind, AllCalls-awaited, AllCalls-call_rpc, AllCalls-when_valid,
}

module _ {N : Type 0} ⦃r : Runtime N⦄ where
  -- A write for the user: a new bot and new holdings are valid.
  abbrev pub IsLawfulWrite : AuthedUser → Procedure N → Type 0
  IsLawfulWrite user (create_bot owner bot targets) =
      (owner ≡ user.id) × IsBot bot × IsBasket r targets
  IsLawfulWrite user (update_bot owner id patch targets) =
      (owner ≡ user.id) × IsPatch patch × IsGiven (IsBasket r) targets
  IsLawfulWrite user (delete_bot owner id) = owner ≡ user.id
  IsLawfulWrite user (set_bot_status owner id status) = owner ≡ user.id

  -- A read carries the user's token, a write and a request to the engine the user's id.
  abbrev pub IsLawful : AuthedUser → Call N → Type 0
  IsLawful user (get_user token) = ⊥
  IsLawful user (select token query) = token ≡ user.token
  IsLawful user (rpc procedure) = IsLawfulWrite user procedure
  IsLawful user (fetch request) = get request.body "user_id" ≡ some (str user.id)

  abbrev pub KeepsLaws : {A : Type 0} → AuthedUser → Program N A → Type 0
  KeepsLaws user p = AllCalls (IsLawful user) p

  pub answer-KeepsLaws :
      (user : AuthedUser) (success : Bool) (status : ℕ) (payload : Json N)
      → KeepsLaws user (answer success status payload)
  unfolding answer
  answer-KeepsLaws user true status payload = tt
  answer-KeepsLaws user false status payload = tt

  pub settle-KeepsLaws : (user : AuthedUser) (reply : Fetched N) → KeepsLaws user (settle reply)
  unfolding settle
  settle-KeepsLaws user (responded status no_text) = answer-KeepsLaws user _ status _
  settle-KeepsLaws user (responded status (json payload)) = answer-KeepsLaws user _ status payload
  settle-KeepsLaws user (responded status other_text) = tt
  settle-KeepsLaws user aborted = tt
  settle-KeepsLaws user unreachable = tt

  -- A request to the engine, and the response made of its answer.
  pub call-KeepsLaws :
      (env : Env) (user : AuthedUser) (path : Text) (method : String) (body : Json N)
      (next : Json N → Program N (Response N))
      → get body "user_id" ≡ some (str user.id)
      → ((v : Json N) → KeepsLaws user (next v))
      → KeepsLaws user (call env path method body >>= next)
  unfolding call
  call-KeepsLaws env user path method body next e k = (
    e,
    λ reply. AllCalls-bind (IsLawful user) (settle reply) next (settle-KeepsLaws user reply) k,
  )

  pub rows_or_error-KeepsLaws :
      (user : AuthedUser) (message : Text) (wrap : Json N → Json N) (failed : Bool)
      (rows : Option (Json N))
      → KeepsLaws user (rows_or_error message wrap failed rows)
  unfolding rows_or_error
  rows_or_error-KeepsLaws user message wrap true rows = tt
  rows_or_error-KeepsLaws user message wrap false rows = tt

  pub both-KeepsLaws :
      (user : AuthedUser) (a b : Query N) (next : Rows N → Rows N → Program N (Response N))
      → ((x y : Rows N) → KeepsLaws user (next x y))
      → KeepsLaws user (both user.token a b next)
  unfolding both
  both-KeepsLaws user a b next k = (
    refl,
    λ x. (
      refl,
      λ y.
          AllCalls-awaited (IsLawful user) (λ rows. awaited (next rows) y)
            (λ rows. AllCalls-awaited (IsLawful user) (next rows) (k rows) y) x,
    ),
  )

  pub found_or-KeepsLaws :
      (user : AuthedUser) (missing : Program N (Response N))
      (next : Json N → Program N (Response N)) (row : Option (Json N))
      → KeepsLaws user missing
      → ((v : Json N) → KeepsLaws user (next v))
      → KeepsLaws user (found_or missing next row)
  unfolding found_or
  found_or-KeepsLaws user missing next none h k = h
  found_or-KeepsLaws user missing next (some null) h k = h
  found_or-KeepsLaws user missing next (some v) h k = k v
