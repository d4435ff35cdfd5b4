-- ===== src/Engine/Planner.antt =====
-- The planner of the engine, api/src/engine/rebalance.py. Its checks raise in the order of the
-- source; what follows them is `plan_of`.
pub mod Inputs
pub mod Trades
pub mod Placed
pub mod Inversion
pub mod Symbols
pub mod Sorting
pub mod Cash
pub mod Approach
pub mod Orders
pub mod Accounted
pub mod Total
pub mod Accepts
use rebalance_webull.Prelude.{
  ℕ, ◌+◌, ◌-◌, ◌++◌, List, [], ◌∷◌, Text, length, take, drop, ◌==◌, if◌then◌else◌,
}
use rebalance_webull.Engine.Money.{ℤ, pos, negsuc}
use rebalance_webull.Engine.Models.{
  EngineTarget, Holding, RebalanceSettings, PlannedOrder, SkippedOrder, RebalancePlan, run_capped,
  negative_cash, no_investment, Planned, raised, planned,
}
use rebalance_webull.Engine.Planner.Inputs.{
  Weighted, Held, Priced, Prices, ◌>>=◌, validate_targets, read_held, universe, price_all,
  portfolio_of, investable_of, deployable_of, reserved_of, drifts_for, largest_drift,
}
use rebalance_webull.Engine.Planner.Trades.{
  sells_considered, buys_considered, buy_candidates, placed, skips, sum_values, buys_of, sells_of,
}

-- An order that the cap defers to the next run.
abbrev pub deferred : ℕ → List PlannedOrder → List SkippedOrder
deferred cap [] = []
deferred cap (o ∷ os) =
    record {
      symbol = o.symbol;
      side = o.side;
      intended_value = o.estimated_value;
      reason = run_capped cap;
    }
    ∷ deferred cap os

-- The plan of inputs that passed the checks: the cash, the holdings, the basket and the prices.
unfoldable pub plan_of :
    RebalanceSettings → ℕ → ℕ → List Held → List Weighted → List Priced → RebalancePlan
unfolding drifts_for largest_drift sells_considered buys_considered buy_candidates
plan_of settings investment cash held weights priced =
    let portfolio = portfolio_of cash held priced in
    let investable = investable_of investment portfolio in
    let deployable = deployable_of investable settings.cash_buffer_bps in
    let drifts = drifts_for deployable held weights priced in
    let sells = sells_considered settings drifts in
    let proceeds = sum_values (placed sells) in
    let budget = (cash + proceeds) - reserved_of investable settings.cash_buffer_bps in
    let buys = buys_considered settings budget (buy_candidates drifts) in
    let ordered = placed sells ++ placed buys in
    let orders = take settings.max_orders ordered in
    record {
      orders = orders;
      skipped =
          (skips sells ++ skips buys)
          ++ deferred settings.max_orders (drop settings.max_orders ordered);
      drifts = drifts;
      portfolio_value = portfolio;
      investable_value = investable;
      deployable_value = deployable;
      cash_before = cash;
      projected_cash_after = (cash + sum_values (sells_of orders)) - sum_values (buys_of orders);
      max_drift_bps = largest_drift drifts;
    }

-- The checks of the two amounts.
unfoldable pub non_negative : ℤ → Planned ℕ
non_negative (pos n) = planned n
non_negative (negsuc n) = raised negative_cash

unfoldable pub positive_investment : ℤ → Planned ℕ
positive_investment (pos n) = if n == 0 then raised no_investment else planned n
positive_investment (negsuc n) = raised no_investment

-- `build_plan`
unfoldable pub build_plan :
    ℤ → List Holding → List EngineTarget → Prices → RebalanceSettings → Planned RebalancePlan
unfolding non_negative positive_investment validate_targets read_held price_all universe plan_of
build_plan cash holdings targets prices settings = non_negative cash >>= λ money.
    positive_investment settings.investment_amount >>= λ investment.
    validate_targets targets >>= λ weights. read_held [] holdings >>= λ held.
    price_all prices (universe weights held) >>= λ priced.
    planned (plan_of settings investment money held weights priced)
