-- ===== src/Api/Postgres.antt =====
-- Calls of stored procedures, and the mapping of their errors, of
-- supabase/functions/api/routes/bots.ts.
use rebalance_webull.Prelude.{
  Bool, true, false, ◌||◌, Option, none, some, [], ◌∷◌, Text, codes, text_eq, ◌==◌, ◌&&◌,
  if◌then◌else◌,
}
use rebalance_webull.Js.{Json}
use rebalance_webull.Api.Http.{not_found, invalid_request, conflict, internal_error, ApiError}
use rebalance_webull.Api.Effects.{
  Procedure, rpc, PostgresError, Returned, Program, throw, ask, awaited,
}
use rebalance_webull.Api.Engine.{api_error}

-- `startsWith` and `includes` of `String.prototype`.
abbrev pub starts_with : Text → Text → Bool
starts_with t [] = true
starts_with [] (c ∷ p) = false
starts_with (d ∷ t) (c ∷ p) = d == c && starts_with t p

unfoldable pub includes : Text → Text → Bool
includes [] p = starts_with [] p
includes (c ∷ t) p = starts_with (c ∷ t) p || includes t p

abbrev pub message_of : Option Text → Text
message_of none = codes "database error"
message_of (some t) = t

abbrev pub is_unique_violation : Option Text → Bool
is_unique_violation none = false
is_unique_violation (some code) = text_eq code (codes "23505")

-- `fromPostgres`
unfoldable pub from_postgres : {N : Type 0} → PostgresError → ApiError N
from_postgres e =
    let message = message_of e.message in
    if includes message (codes "bot not found")
    then api_error not_found (codes "bot not found")
    else if includes message (codes "pause the bot")
    then api_error conflict (codes "pause the bot before changing its configuration")
    else if includes message (codes "target weights must total")
    then api_error invalid_request message
    else if includes message (codes "add target holdings")
    then api_error invalid_request message
    else if is_unique_violation e.code
    then api_error conflict (codes "a bot with that name already exists")
    else api_error internal_error (codes "could not complete the request")

module _ {N : Type 0} where
  -- `if (error) throw fromPostgres(error)`, and the rest of the handler.
  abbrev pub or_postgres_error :
      {A : Type 0}
      → (Option (Json N) → Program N A)
      → Returned N
      → Option PostgresError
      → Program N A
  or_postgres_error next reply none = next reply.returned
  or_postgres_error next reply (some e) = throw (from_postgres e)

  -- `await adminClient().rpc(…)` with its error check.
  abbrev pub call_rpc : {A : Type 0} → Procedure N → (Option (Json N) → Program N A) → Program N A
  call_rpc procedure next =
      ask (rpc procedure) (awaited λ reply. or_postgres_error next reply reply.error)
