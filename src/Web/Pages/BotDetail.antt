-- ===== src/Web/Pages/BotDetail.antt =====
-- The page of a bot, web/app/(app)/bots/[id]/page.tsx.
use rebalance_webull.Prelude.{
  Bool, true, false, Option, none, some, List, [], ◌∷◌, ◌++◌, Text, text_eq, codes, if◌then◌else◌,
}
use rebalance_webull.Js.{Runtime, Decimals, Json, null, str, get, ◌>>=◌}
use rebalance_webull.Api.Effects.{Query}
use rebalance_webull.Web.Controls.{truthy}
use rebalance_webull.Web.Format.{Display, date_time, money, quantity}
use rebalance_webull.Web.Allocation.{AllocationTarget}
use rebalance_webull.Web.Pages.{
  Page, not_found, read_one, read_many, shown_or_broken, or_empty, each, StatusBadge, text_of,
  badge, number_of, optional_text, band_text, bps_unless_null,
}

pub record RunView : Type 0 where
  pub reason : Text
  pub line : Text
  pub error : Text
  pub status : StatusBadge

pub record OrderView : Type 0 where
  pub symbol : Text
  pub is_buy : Bool
  pub side : Text
  pub held : Text
  pub fill : Text
  pub status : StatusBadge
  pub reject_reason : Text

pub record BotView (N : Type 0) : Type 0 where
  pub name : Text
  pub status : StatusBadge
  pub summary : Text
  -- The properties of `BotControls` and of `AllocationTable`.
  pub bot_id : Text
  pub targets : List (AllocationTarget N)
  pub plan : Option (Json N)
  pub currency : Text
  pub runs : List RunView
  pub orders : List OrderView

module _ {N : Type 0} ⦃r : Runtime N⦄ where
  unfoldable pub bot_query : Text → Query N
  bot_query id = record {
    table = "bots";
    columns = "*";
    filters = ("id", id) ∷ [];
    order = none;
    limit = none;
    maybe_single = true;
  }

  unfoldable pub bot_targets_query : Text → Query N
  bot_targets_query id = record {
    table = "bot_targets";
    columns = "symbol, target_weight_bps";
    filters = ("bot_id", id) ∷ [];
    order = some ("symbol", true);
    limit = none;
    maybe_single = false;
  }

  unfoldable pub bot_runs_query : Text → Query N
  bot_runs_query id = record {
    table = "rebalance_runs";
    columns =
        "id, status, trigger_reason, portfolio_value, max_drift_bps, planned_order_count, submitted_order_count, error, plan, started_at";
    filters = ("bot_id", id) ∷ [];
    order = some ("started_at", false);
    limit = some (r.of_ℕ 15);
    maybe_single = false;
  }

  unfoldable pub bot_orders_query : Text → Query N
  bot_orders_query id = record {
    table = "orders";
    columns =
        "id, symbol, side, quantity, filled_quantity, avg_fill_price, requested_value, status, reject_reason, created_at";
    filters = ("bot_id", id) ∷ [];
    order = some ("created_at", false);
    limit = some (r.of_ℕ 50);
    maybe_single = false;
  }

  -- The line under the name.
  unfoldable pub summary : Decimals N r → Display N → Text → Json N → Option Text
  unfolding band_text optional_text money truthy
  summary d p currency bot = money p (get bot "investment_amount") currency >>= λ amount.
      band_text d bot (codes " drift band") >>= λ band.
      optional_text bot "interval_minutes" (codes " · every ") (codes "m") >>= λ interval. some (
        amount
        ++ (codes " allocated"
            ++ (band
                ++ (interval
                    ++ (if truthy (get bot "allow_fractional")
                        then codes " · fractional"
                        else codes " · whole shares")))))

  unfoldable pub basket_target : Json N → Option (AllocationTarget N)
  unfolding text_of
  basket_target row = text_of row "symbol" >>= λ symbol.
      number_of row "target_weight_bps" >>= λ weight.
      some (record { symbol = symbol; target_weight_bps = weight })

  unfoldable pub run_view : Decimals N r → Display N → Json N → Option RunView
  unfolding text_of badge bps_unless_null date_time optional_text
  run_view d p run = text_of run "trigger_reason" >>= λ reason.
      bps_unless_null d run "max_drift_bps" [] (codes " · drift ") >>= λ drift.
      text_of run "submitted_order_count" >>= λ submitted.
      text_of run "planned_order_count" >>= λ planned. optional_text run "error" [] [] >>= λ error.
      badge run >>= λ status. some (record {
        reason = reason;
        line =
            date_time p (get run "started_at")
            ++ (drift
                ++ (codes " · " ++ (submitted ++ (codes "/" ++ (planned ++ codes " orders")))));
        error = error;
        status = status;
      })

  abbrev is_text : Text → Option (Json N) → Bool
  is_text text (some (str s)) = text_eq s text
  is_text text _ = false

  unfoldable fill_text : Display N → Text → Json N → Option Text
  unfolding money truthy
  fill_text p currency order =
      let text = money p (get order "avg_fill_price") currency in
      if truthy (get order "avg_fill_price") then text else some (codes "—")

  unfoldable pub order_view : Display N → Text → Json N → Option OrderView
  unfolding text_of badge fill_text quantity optional_text
  order_view p currency order = text_of order "symbol" >>= λ symbol.
      text_of order "side" >>= λ side. quantity p (get order "quantity") >>= λ held.
      fill_text p currency order >>= λ fill. badge order >>= λ status.
      optional_text order "reject_reason" [] [] >>= λ reason. some (record {
        symbol = symbol;
        is_buy = is_text (codes "buy") (get order "side");
        side = side;
        held = held;
        fill = fill;
        status = status;
        reject_reason = reason;
      })

  -- `(runs?.[0] ?? null)?.plan ?? null`, with null as none.
  unfoldable pub latest_plan : Option (List (Json N)) → Option (Json N)
  latest_plan (some (run ∷ runs)) = elim (get run "plan") [
    | none ↦ none
    | some null ↦ none
    | some plan ↦ some plan
  ]
  latest_plan _ = none

  unfoldable pub bot_view :
      Decimals N r
      → Display N
      → Text
      → Json N
      → Option (List (Json N))
      → Option (List (Json N))
      → Option (List (Json N))
      → Option (BotView N)
  unfolding text_of badge summary basket_target run_view order_view latest_plan
  bot_view d p id bot targets runs orders = text_of bot "base_currency" >>= λ currency.
      text_of bot "name" >>= λ name. badge bot >>= λ status. summary d p currency bot >>= λ line.
      each basket_target (or_empty targets) >>= λ basket.
      each (run_view d p) (or_empty runs) >>= λ history.
      each (order_view p currency) (or_empty orders) >>= λ trades. some (record {
        name = name;
        status = status;
        summary = line;
        bot_id = id;
        targets = basket;
        plan = latest_plan runs;
        currency = currency;
        runs = history;
        orders = trades;
      })

  -- The page once its bot was read.
  unfoldable pub bot_found : Decimals N r → Display N → Text → Option (Json N) → Page N (BotView N)
  unfolding bot_targets_query bot_runs_query bot_orders_query bot_view
  bot_found d p id none = not_found
  bot_found d p id (some bot) = read_many (bot_targets_query id) λ targets.
      read_many (bot_runs_query id) λ runs.
        read_many (bot_orders_query id)
          λ orders. shown_or_broken (bot_view d p id bot targets runs orders)

  -- The page, by the id of its path.
  unfoldable pub bot_page : Decimals N r → Display N → Text → Page N (BotView N)
  unfolding bot_query bot_found
  bot_page d p id = read_one (bot_query id) (bot_found d p id)
