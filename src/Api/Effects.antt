-- ===== src/Api/Effects.antt =====
-- What a handler of supabase/functions does outside itself, as a tree of calls and replies.
--
-- The services are Supabase (its auth server, its tables behind row-level security, its stored
-- procedures) and the rebalance engine. They are not code of these files: a handler is a tree that
-- asks a service and goes on with any reply that the service may give, `none` being a promise that
-- rejects. A theorem about a tree holds whatever the services answer.
use rebalance_webull.Prelude.{ℕ, Bool, Option, none, some, List, String, Text}
use rebalance_webull.Js.{Json}
use rebalance_webull.Validation.Targets.{Target}
use rebalance_webull.Validation.Bot.{BotInput}
use rebalance_webull.Validation.Patch.{BotPatch}
use rebalance_webull.Api.Http.{ApiError}

pub data BotStatus : Type 0 where
  running paused stopped : BotStatus

-- A read: `userClient(token).from(table).select(columns)` and its modifiers. The order has a column
-- and whether it ascends.
pub record Query (N : Type 0) : Type 0 where
  pub table : String
  pub columns : String
  pub filters : List (String × Text)
  pub order : Option (String × Bool)
  pub limit : Option N
  pub maybe_single : Bool

-- A write: `adminClient().rpc(name, arguments)`, its first argument `p_user_id`.
pub data Procedure (N : Type 0) : Type 0 where
  create_bot : Text → BotInput N → List (Target N) → Procedure N
  update_bot : Text → Text → BotPatch N → Option (List (Target N)) → Procedure N
  delete_bot : Text → Text → Procedure N
  set_bot_status : Text → Text → BotStatus → Procedure N

-- A request to the engine.
pub record EngineRequest (N : Type 0) : Type 0 where
  pub url : Text
  pub method : String
  pub authorization : Text
  pub body : Json N

pub data Call (N : Type 0) : Type 0 where
  -- `userClient(token).auth.getUser(token)`
  get_user : Text → Call N
  -- A read as the user of the token.
  select : Text → Query N → Call N
  rpc : Procedure N → Call N
  fetch : EngineRequest N → Call N

-- The user that the auth server knows a token for.
pub record AuthUser : Type 0 where
  pub id : Text
  pub email : Option Text

pub record AuthReply : Type 0 where
  pub failed : Bool
  pub user : Option AuthUser

-- `{ data, error }` of a read.
pub record Rows (N : Type 0) : Type 0 where
  pub rows : Option (Json N)
  pub failed : Bool

pub record PostgresError : Type 0 where
  pub message : Option Text
  pub code : Option Text

-- `{ data, error }` of a procedure.
pub record Returned (N : Type 0) : Type 0 where
  pub returned : Option (Json N)
  pub error : Option PostgresError

-- The text of a response body, by what `JSON.parse` makes of it.
pub data Payload (N : Type 0) : Type 0 where
  no_text : Payload N
  json : Json N → Payload N
  other_text : Payload N

-- What `fetch` comes to: a response, an abort at the deadline, or another failure.
pub data Fetched (N : Type 0) : Type 0 where
  responded : ℕ → Payload N → Fetched N
  aborted unreachable : Fetched N

abbrev pub Reply : {N : Type 0} → Call N → Type 0
Reply (get_user token) = Option AuthReply
Reply {N} (select token query) = Option (Rows N)
Reply {N} (rpc procedure) = Option (Returned N)
Reply {N} (fetch request) = Fetched N

pub data Program (N A : Type 0) : Type 0 where
  done : A → Program N A
  -- `throw new ApiError(…)`, and any other exception.
  throw : ApiError N → Program N A
  crash : Program N A
  ask : (c : Call N) → (Reply c → Program N A) → Program N A

infixl 5 ◌>>=◌
abbrev pub ◌>>=◌ : {N A B : Type 0} → Program N A → (A → Program N B) → Program N B
done a >>= f = f a
throw e >>= f = throw e
crash >>= f = crash
ask c k >>= f = ask c (λ reply. k reply >>= f)

-- A promise of a service: a rejection is an exception.
abbrev pub awaited : {N A B : Type 0} → (A → Program N B) → Option A → Program N B
awaited f none = crash
awaited f (some a) = f a

-- Every call of the tree, after any replies, satisfies `P`.
abbrev pub AllCalls : {N A : Type 0} → (Call N → Type 0) → Program N A → Type 0
AllCalls P (done a) = Unit
AllCalls P (throw e) = Unit
AllCalls P crash = Unit
AllCalls P (ask c k) = P c × ((reply : Reply c) → AllCalls P (k reply))
