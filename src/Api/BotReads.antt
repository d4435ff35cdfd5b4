-- ===== src/Api/BotReads.antt =====
-- The routes of supabase/functions/api/routes/bots.ts that read.
use rebalance_webull.Prelude.{
  Bool, true, false, Option, none, some, [], ◌∷◌, String, Text, codes, if◌then◌else◌,
}
use rebalance_webull.Js.{Runtime, Json, null, obj, arr, nil, end, field}
use rebalance_webull.Api.Http.{not_found, internal_error, Response, ok}
use rebalance_webull.Api.Effects.{Query, select, Rows, Program, done, throw, ask, awaited}
use rebalance_webull.Api.Engine.{api_error}
use rebalance_webull.Api.Request.{or_json}
use rebalance_webull.Api.Auth.{AuthedUser}

module _ {N : Type 0} where
  unfoldable pub rows_or_error :
      Text → (Json N → Json N) → Bool → Option (Json N) → Program N (Response N)
  rows_or_error message wrap true rows = throw (api_error internal_error message)
  rows_or_error message wrap false rows = done (ok (wrap (or_json rows (arr nil))) 200)

  abbrev overview_query : Query N
  overview_query = record {
    table = "bot_overview";
    columns = "*";
    filters = [];
    order = some ("name", true);
    limit = none;
    maybe_single = false;
  }

  -- GET /
  unfoldable pub list_bots : AuthedUser → Program N (Response N)
  unfolding ok
  list_bots user = ask (select user.token overview_query) (
      awaited λ reply.
        rows_or_error (codes "could not list bots") (λ rows. obj (field "bots" rows end))
          reply.failed reply.rows)

  abbrev one_bot_query : Text → Query N
  one_bot_query id = record {
    table = "bots";
    columns = "*";
    filters = ("id", id) ∷ [];
    order = none;
    limit = none;
    maybe_single = true;
  }

  abbrev targets_query : Text → Query N
  targets_query id = record {
    table = "bot_targets";
    columns = "symbol, target_weight_bps";
    filters = ("bot_id", id) ∷ [];
    order = some ("symbol", true);
    limit = none;
    maybe_single = false;
  }

  -- Both promises are made; `Promise.all` rejects if one of them does.
  unfoldable pub both :
      Text → Query N → Query N → (Rows N → Rows N → Program N (Response N)) → Program N (Response N)
  both token first second next =
      ask (select token first)
        λ a. ask (select token second) λ b. awaited (λ rows. awaited (next rows) b) a

  -- `if (!bot)`
  unfoldable pub found_or :
      Program N (Response N)
      → (Json N → Program N (Response N))
      → Option (Json N)
      → Program N (Response N)
  found_or missing next none = missing
  found_or missing next (some null) = missing
  found_or missing next (some v) = next v

module _ {N : Type 0} ⦃r : Runtime N⦄ where
  abbrev runs_query : Text → String → N → Bool → Query N
  runs_query id columns limit single = record {
    table = "rebalance_runs";
    columns = columns;
    filters = ("bot_id", id) ∷ [];
    order = some ("started_at", false);
    limit = some limit;
    maybe_single = single;
  }

  -- GET /:id
  unfoldable pub get_bot : AuthedUser → Text → Program N (Response N)
  unfolding ok
  get_bot user id = ask (select user.token (one_bot_query id)) (
      awaited λ bot.
        found_or (throw (api_error not_found (codes "bot not found")))
          (λ v.
            both user.token (targets_query id)
              (runs_query id
                "id, status, trigger_reason, portfolio_value, max_drift_bps, planned_order_count, submitted_order_count, error, started_at, finished_at"
                (r.of_ℕ 20) false)
              (λ targets runs. done (
                ok
                  (obj (
                    field "bot" v (
                      field "targets" (or_json targets.rows (arr nil))
                        (field "runs" (or_json runs.rows (arr nil)) end))))
                  200)))
          bot.rows)

  -- `Math.min(Number(c.req.query("limit") ?? 100), 200)`; NaN is the least of NaN and a number.
  unfoldable pub order_limit : Option Text → N
  order_limit none = r.of_ℕ 100
  order_limit (some text) =
      let n = r.number_of_text text in
      if r.same n n then if r.lt (r.of_ℕ 200) n then r.of_ℕ 200 else n else r.nan

  -- GET /:id/orders
  unfoldable pub get_orders : AuthedUser → Text → Option Text → Program N (Response N)
  unfolding ok order_limit
  get_orders user id limit =
      ask
        (select user.token (record {
          table = "orders";
          columns =
              "id, run_id, symbol, side, quantity, filled_quantity, avg_fill_price, requested_value, status, reject_reason, created_at";
          filters = ("bot_id", id) ∷ [];
          order = some ("created_at", false);
          limit = some (order_limit limit);
          maybe_single = false;
        }))
        (awaited λ reply.
          rows_or_error (codes "could not list orders") (λ rows. obj (field "orders" rows end))
            reply.failed reply.rows)

  -- GET /:id/allocation
  unfoldable pub get_allocation : AuthedUser → Text → Program N (Response N)
  unfolding ok
  get_allocation user id =
      both user.token (targets_query id)
        (runs_query id "id, status, plan, max_drift_bps, portfolio_value, started_at" (r.of_ℕ 1)
          true)
        (λ targets run. done (
          ok
            (obj (
              field "targets" (or_json targets.rows (arr nil))
                (field "latest_run" (or_json run.rows null) end)))
            200))
