-- ===== src/Lib.antt =====
-- The verification library of the rebalancing application: its API, which is one edge function,
-- its database, its web client, and the core of the engine that plans the trades.
--
-- The API (supabase/functions) takes requests of the web client (web), asks the auth server who
-- the caller is, validates bodies, reads tables as the caller, writes through stored procedures
-- with the caller's id, and passes what touches a broker to the rebalance engine over HTTP.
--
--   Prelude      texts as lists of UTF-16 code units, trimming, tests on numbers, lists
--   Js           JSON values and the coercions String and Number; the interface `Runtime` of
--                JavaScript numbers, with the laws of ECMA-262 that the program relies on, and
--                `Decimals`, those of division and of decimal texts
--   Validation   supabase/functions/_shared/validation.ts. Check: the class Check, a reader being
--                a value and the issues it pushes, or none where a coercion throws. Targets:
--                readTargets. Bot: readBotCore and parseCreateBot. Patch: parseUpdateBot. Forms:
--                parseCredentials and parseStatusAction. Basket: what readTargets promises. Total:
--                that the parsers end.
--   Api          Http, Auth, Engine: http.ts, auth.ts and engine.ts of supabase/functions/_shared.
--                Effects: a handler as a tree that asks a service and goes on with any reply.
--                Postgres, BotReads, BotWrites: supabase/functions/api/routes/bots.ts. Broker:
--                supabase/functions/api/routes/broker.ts. Request: the reading of a body, shared
--                by the two. App: supabase/functions/api/index.ts. Calls, Lawful, Session,
--                Guarding, Refusal, Errors, Answers: proofs. Origins: the origins of CORS, also of
--                App's file. Environment: supabase/functions/_shared/env.ts.
--   Secrets      supabase/functions/_shared/crypto.ts, the envelope of a credential
--   Engine       the pure core of the Python engine. Money: api/src/engine/money.py. Models: the
--                value objects of api/src/engine/models.py. Planner:
--                api/src/engine/rebalance.py, Inputs being its checks and the valuation and Trades
--                its loops of sells and buys; Inversion, Placed, Symbols, Sorting, Cash, Approach,
--                Orders, Accounted, Total and Accepts are proofs. Triggers:
--                api/src/engine/triggers.py.
--   Database     the bots and their targets in supabase/migrations. Rows: the tables and their
--                constraints, of 20260101000000_init.sql. Procedures:
--                20260101000200_api_functions.sql. Inversion, Owners, Consistent, Changes, Deletes,
--                Preserved, Creates, Updates, Executes, Reschedules and Reachable are proofs.
--                Serving and Foreign run the handlers of the API against the tables, and Running
--                gives what is stored to the planner, as api/src/engine/repo.py does.
--   Web          Targets: web/lib/targets.ts. Form and Editor: the submission and the state of
--                web/components/bot-form.tsx. Session: web/lib/supabase/proxy.ts,
--                web/app/login/actions.ts and web/components/login-form.tsx. Client:
--                web/lib/api.ts. Controls, Connection, Account, Allocation: bot-controls.tsx,
--                connection-manager.tsx (with ui/badge.tsx), account-panel.tsx and
--                allocation-table.tsx of web/components. Format: web/lib/format.ts. Pages: the
--                pages of web/app/(app), BotDetail being bots/[id]/page.tsx, Lists the pages of
--                the bots and the dashboard, Shell the layout and the page of the connection.
--   Tests        concrete instances of the interfaces, and examples of the theorems
--
-- An OPTIONS request is answered by Hono's `cors` itself, before guards and routes, with 204 and no
-- body; every other request goes through them.
--
-- Parameters. `Runtime` stands for the numbers and locale-independent text operations of
-- JavaScript, `Decimals` for division and `toFixed`, `Display` for Intl, dates and the clock,
-- `Router` for the matching of paths by Hono, `Platform` for base64, UTF-8 and AES-GCM. The
-- services of the API (Supabase's auth server, tables and procedures, and the engine) are the
-- replies of a tree, and may be anything; those of the web client and the variables of the
-- process are arguments. No definition uses fuel: each recursion is on the structure of its
-- argument.
--
-- The engine counts money and prices in units of 0.0001 and shares in units of 0.00000001, to
-- which its Decimals are quantized, so that every amount is a whole number and rounding is division;
-- Engine/Money states the bounds below which Python's 28 digits are as exact.
--
-- The procedures of the database are transactions, one after another, that commit or are undone.
-- The casts (those of the ids to uuids too), the functions on texts and the users of Supabase are
-- the parameter `Postgres`. A run of a handler against the tables takes any reply of the other
-- services, and of a procedure the one that fits what it did, or none.
--
-- The components of the web client are their state, as records, with a function for each change:
-- an event of the user or the outcome of a call. Their histories are step relations. A page is a
-- tree of reads, and what it shows is a record of texts; an exception on the way is a value.
--
-- Not modelled: logging and the headers of CORS, the construction of the Supabase clients, markup
-- and styles of the pages, what the browser checks in a field, the pending state and the refresh
-- of React and the framework, the rest of the Python engine under api (its service, scheduler,
-- database and brokers), the policies of reads and the tables of runs, orders and connections under
-- supabase/migrations, transactions that overlap, and the deployment. Reads of two tables at once
-- are asked one after the other.
pub mod Prelude
pub mod Js
pub mod Validation
pub mod Api
pub mod Secrets
pub mod Engine
pub mod Database
pub mod Web
pub mod Tests
