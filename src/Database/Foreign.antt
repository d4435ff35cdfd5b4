-- ===== src/Database/Foreign.antt =====
-- Writes of a bot that is not the caller's: the handlers of
-- supabase/functions/api/routes/bots.ts against supabase/migrations.
use rebalance_webull.Prelude.{ℕ, ◌≡◌, ◌⊎◌, none, some, Text}
use rebalance_webull.Js.{Runtime}
use rebalance_webull.Api.App.{Request, Endpoint, bot_change, bot_removal, bot_status}
use rebalance_webull.Api.Http.{not_found, invalid_request, ApiError}
use rebalance_webull.Api.Effects.{Procedure}
use rebalance_webull.Database.Rows.{Postgres, Tables}
use rebalance_webull.Database.Procedures.{Violation, bot_not_found, undone, execute}
use rebalance_webull.Database.Serving.{Ending, thrown, crashed}

-- The id of the user or of the bot is no uuid.
abbrev pub IsMalformed : {N : Type 0} → Postgres N → Text → Text → Type 0
IsMalformed pg user id = (pg.uuid user ≡ none) ⊎ (pg.uuid id ≡ none)

-- The caller is told of a bad body or that there is no such bot, or gets the error of an id that is
-- no uuid, whatever its code, or the reply was lost.
abbrev pub IsRefusal : {N A : Type 0} → Postgres N → Text → Text → Ending N A → Type 0
IsRefusal {N} pg user id ending =
    (ending ≡ crashed)
    ⊎ ((e : ApiError N) × (ending ≡ thrown e)
        × ((e.code ≡ not_found) ⊎ (e.code ≡ invalid_request) ⊎ IsMalformed pg user id))

some-injective : {A : Type 0} {a b : A} → some a ≡ some b → a ≡ b
some-injective e = cc

-- A procedure that is undone for want of the bot, or where it cannot cast an id.
abbrev IsForbidden :
    {N : Type 0} → Postgres N → Text → Text → Procedure N → Tables → ℕ → Text → Type 0
IsForbidden pg user id p db now fresh =
    (v : Violation) × (execute pg now fresh p db ≡ undone v)
    × ((v ≡ bot_not_found) ⊎ IsMalformed pg user id)

module _ {N : Type 0} (pg : Postgres N) (user_id id : Text) where
  -- Nothing was written, and the caller was refused.
  abbrev pub IsRefused : {A : Type 0} → Tables → Tables → Ending N A → Type 0
  IsRefused db after ending = (after ≡ db) × IsRefusal pg user_id id ending

module _ {N : Type 0} (pg : Postgres N) where
  module _ ⦃r : Runtime N⦄ where
    -- The endpoints that write a bot that exists.
    abbrev pub IsWrite : Endpoint → Type 0
    IsWrite bot_change = Unit
    IsWrite bot_removal = Unit
    IsWrite bot_status = Unit
    IsWrite _ = ⊥
