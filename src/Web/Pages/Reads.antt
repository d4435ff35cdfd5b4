-- ===== src/Web/Pages/Reads.antt =====
-- What the pages of web/app/(app) read, and what they hand to the browser.
use rebalance_webull.Prelude.{
  ◌≡◌, ◌≢◌, ◌↔◌, refl, false, Option, none, some, List, [], ◌∷◌, String, Text, any, arith, str_eq,
  if◌then◌else◌,
}
use rebalance_webull.Js.{Runtime, Decimals, Json, Fields, end, field, lookup, get}
use rebalance_webull.Api.Effects.{Query}
use rebalance_webull.Web.Format.{Display}
use rebalance_webull.Web.Pages.{
  Page, shown, not_found, broken, read_one, read_many, shown_or_broken,
}
use rebalance_webull.Web.Pages.BotDetail.{
  BotView, bot_query, bot_targets_query, bot_runs_query, bot_orders_query, bot_view, bot_found,
  bot_page,
}
use rebalance_webull.Web.Pages.Shell.{initial_fields, initial_connection}

-- A page whose reads get their data from two functions.
unfoldable pub ended_page :
    {N A : Type 0}
    → (Query N → Option (Json N))
    → (Query N → Option (List (Json N)))
    → Page N A
    → Page N A
ended_page one many (shown view) = shown view
ended_page one many not_found = not_found
ended_page one many broken = broken
ended_page one many (read_one query next) = ended_page one many (next (one query))
ended_page one many (read_many query next) = ended_page one many (next (many query))

-- Every read of a page, whatever the earlier ones gave.
abbrev pub AllReads : {N A : Type 0} → (Query N → Type 0) → Page N A → Type 0
AllReads P (read_one query next) = P query × ((row : _) → AllReads P (next row))
AllReads P (read_many query next) = P query × ((rows : _) → AllReads P (next rows))
AllReads P _ = Unit

-- A read of the bot of an id, or of what belongs to it.
abbrev pub IsAbout : {N : Type 0} → Text → Query N → Type 0
IsAbout id query =
    if str_eq query.table "bots"
    then query.filters ≡ ("id", id) ∷ []
    else query.filters ≡ ("bot_id", id) ∷ []

module _ {N : Type 0} ⦃r : Runtime N⦄ where
  view_reads :
      (P : Query N → Type 0) (view : Option (BotView N)) → AllReads P (shown_or_broken view)
  view_reads P none = tt
  view_reads P (some view) = tt

  bot_found-reads :
      (d : Decimals N r) (p : Display N) (id : Text) (bot : Option (Json N))
      → AllReads (IsAbout id) (bot_found d p id bot)
  unfolding bot_found bot_targets_query bot_runs_query bot_orders_query
  bot_found-reads d p id none = tt
  bot_found-reads d p id (some bot) = (
    refl,
    λ targets. (
      refl,
      λ runs. (refl, λ orders. view_reads (IsAbout id) (bot_view d p id bot targets runs orders)),
    ),
  )

  view_found :
      (one : Query N → Option (Json N)) (many : Query N → Option (List (Json N)))
      (view : Option (BotView N))
      → ended_page one many (shown_or_broken view) ≢ not_found
  unfolding ended_page
  view_found one many none e = cc
  view_found one many (some view) e = cc

  bot_found-not_found :
      (d : Decimals N r) (p : Display N) (id : Text) (bot : Option (Json N))
      (one : Query N → Option (Json N)) (many : Query N → Option (List (Json N)))
      → (ended_page one many (bot_found d p id bot) ≡ not_found) ↔ (bot ≡ none)
  unfolding bot_found ended_page
  bot_found-not_found d p id none one many = (λ e. refl, λ e. refl)
  bot_found-not_found d p id (some bot) one many = (
    λ e. absurd (
        view_found one many
          (bot_view d p id bot (many (bot_targets_query id)) (many (bot_runs_query id))
            (many (bot_orders_query id)))
          e),
    λ e. absurd cc,
  )

  -- Every read of the page of a bot, whatever the others gave, is of the bot with the id of the
  -- path or of rows of that bot, and the page is "not found" exactly if no bot is read.
  pub bot_page-IsAbout :
      (d : Decimals N r) (p : Display N) (id : Text) (one : Query N → Option (Json N))
      (many : Query N → Option (List (Json N)))
      → AllReads (IsAbout id) (bot_page d p id)
        × ((ended_page one many (bot_page d p id) ≡ not_found) ↔ (one (bot_query id) ≡ none))
  unfolding bot_page bot_query ended_page
  bot_page-IsAbout d p id one many =
      ((refl, bot_found-reads d p id), bot_found-not_found d p id (one (bot_query id)) one many)

-- The columns that the page of the connection hands on.
abbrev pub handed_on : List String
handed_on =
    "status" ∷ "environment" ∷ "account_id" ∷ "account_currency" ∷ "api_key_hint"
    ∷ "last_verified_at" ∷ "last_error" ∷ []

abbrev keys : {N : Type 0} → Fields N → List String
keys end = []
keys (field key value fields) = key ∷ keys fields

lookup-keys :
    {N : Type 0} (fields : Fields N) (name : String)
    → any (λ key. str_eq key name) (keys fields) ≡ false
    → lookup name fields ≡ none
unfolding lookup
lookup-keys end name h = refl
lookup-keys (field key value fields) name h =
    let other : str_eq key name ≡ false = ground (arith, h) in
    rw other (lookup-keys fields name (ground (arith, h)))

-- Whatever else the row of the connection holds, the component in the browser is given the seven
-- named fields alone.
pub initial_connection-handed_on :
    {N : Type 0} (row : Option (Json N)) (name : String)
    → any (λ key. str_eq key name) handed_on ≡ false
    → get (initial_connection row) name ≡ none
unfolding initial_fields initial_connection get
initial_connection-handed_on row name h = lookup-keys (initial_fields row) name h
