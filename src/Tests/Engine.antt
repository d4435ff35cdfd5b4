-- ===== src/Tests/Engine.antt =====
-- A run of the planner and of the trigger of api/src/engine, on which their theorems apply.

use mathlib.Core.List.Perm
use rebalance_webull.Prelude.{
  true, ◌↔◌, ℕ, ◌≡◌, refl, false, some, List, [], ◌∷◌, Text, codes, map, text_eq, arith,
  if◌then◌else◌,
}
use rebalance_webull.Engine.Money.{pos, negsuc}
use rebalance_webull.Engine.Models.{
  EngineTarget, Holding, RebalanceSettings, RebalancePlan, buy, sell, planned, raised,
  negative_cash, running, schedule_or_drift, not_in_basket, overweight, underweight,
}
use rebalance_webull.Engine.Planner.Inputs.{
  Prices, Weighted, Held, Priced, check_targets, validate_targets, read_held, fallen_out, universe,
  price_for, price_all, positions_product, drift_of, drifts_for, largest_drift,
}
use rebalance_webull.Engine.Planner.Trades.{
  sell_quantity, consider_sell, sells_considered, insert_drift, sort_drifts, below_target,
  buy_candidates, consider_buy, buys_considered,
}
use rebalance_webull.Engine.Planner.Cash.{IsFunded, build_plan-IsFunded}
use rebalance_webull.Engine.Planner.Orders.{IsOrderly, build_plan-IsOrderly}
use rebalance_webull.Engine.Planner.Accounted.{IsAccounted, build_plan-IsAccounted}
use rebalance_webull.Engine.Planner.Total.{to_target}
use rebalance_webull.Engine.Planner.Accepts.{basket_rows, build_plan-planned_of_IsBasket}
use rebalance_webull.Engine.Planner.{plan_of, non_negative, positive_investment, build_plan}
use rebalance_webull.Engine.Triggers.{evaluate_trigger}
use rebalance_webull.Engine.Triggers.Due.{IsDue, evaluate_trigger-IsDue}
use rebalance_webull.Tests.Bots.{sample_targets, sample_targets-IsBasket}
use rebalance_webull.Tests.Numbers.{sample_runtime}

-- A sleeve of 2500 with a buffer of 1%, an overweight holding, one that is missing and one that has
-- fallen out of the basket.
abbrev sample_settings : RebalanceSettings
sample_settings = record {
  investment_amount = pos 25_000_000;
  min_order_value = 100_000;
  cash_buffer_bps = 100;
  allow_fractional = false;
  max_orders = 25;
}

abbrev sample_rows : List Weighted
sample_rows = basket_rows sample_targets (6000 ∷ 4000 ∷ [])

abbrev sample_basket : List EngineTarget
sample_basket = map to_target sample_rows

abbrev sample_holdings : List Holding
sample_holdings =
    record { symbol = codes "VTI"; quantity = pos 1_000_000_000 }
    ∷ record { symbol = codes "XYZ"; quantity = pos 350_000_000 }
    ∷ []

abbrev sample_price : Text → ℕ
sample_price symbol =
    if text_eq symbol (codes "VTI")
    then 2_000_000
    else if text_eq symbol (codes "BND")
    then 700_000
    else 100_000

abbrev sample_prices : Prices
sample_prices symbol = some (pos (sample_price symbol))

abbrev sample_held : List Held
sample_held =
    record { symbol = codes "VTI"; quantity = 1_000_000_000 }
    ∷ record { symbol = codes "XYZ"; quantity = 350_000_000 }
    ∷ []

abbrev sample_priced : List Priced
sample_priced =
    record { symbol = codes "VTI"; price = 2_000_000 }
    ∷ record { symbol = codes "BND"; price = 700_000 }
    ∷ record { symbol = codes "XYZ"; price = 100_000 }
    ∷ []

abbrev sample_plan : RebalancePlan
sample_plan = plan_of sample_settings 25_000_000 10_000_000 sample_held sample_rows sample_priced

sample_run :
    build_plan (pos 10_000_000) sample_holdings sample_basket sample_prices sample_settings
    ≡ planned sample_plan
unfolding build_plan non_negative positive_investment validate_targets check_targets read_held
    universe fallen_out price_all price_for
sample_run = refl

-- The whole holding out of the basket is sold, two shares of the overweight one, and the proceeds
-- and the cash buy fourteen of the missing one.
sample_orders :
    sample_plan.orders
    ≡ record {
      symbol = codes "VTI";
      side = sell;
      quantity = 200_000_000;
      price = 2_000_000;
      estimated_value = 4_000_000;
      reason = overweight 8081 6000;
    }
      ∷ record {
        symbol = codes "XYZ";
        side = sell;
        quantity = 350_000_000;
        price = 100_000;
        estimated_value = 350_000;
        reason = not_in_basket;
      }
      ∷ record {
        symbol = codes "BND";
        side = buy;
        quantity = 1_400_000_000;
        price = 700_000;
        estimated_value = 9_800_000;
        reason = underweight 0 4000;
      }
      ∷ []
unfolding plan_of drifts_for drift_of positions_product sells_considered consider_sell sell_quantity
    buy_candidates below_target sort_drifts insert_drift buys_considered consider_buy
sample_orders = refl

no_cash :
    build_plan (negsuc 0) sample_holdings sample_basket sample_prices sample_settings
    ≡ raised negative_cash
unfolding build_plan non_negative
no_cash = refl

build_plan-IsFunded_example : IsFunded sample_settings sample_plan
build_plan-IsFunded_example =
    build_plan-IsFunded (pos 10_000_000) sample_holdings sample_basket sample_prices sample_settings
      sample_plan sample_run

build_plan-IsOrderly_example : IsOrderly sample_settings sample_plan
build_plan-IsOrderly_example =
    build_plan-IsOrderly (pos 10_000_000) sample_holdings sample_basket sample_prices
      sample_settings sample_plan sample_run

build_plan-IsAccounted_example : IsAccounted sample_plan
build_plan-IsAccounted_example =
    build_plan-IsAccounted (pos 10_000_000) sample_holdings sample_basket sample_prices
      sample_settings sample_plan sample_run

-- A broker that holds nothing yet and prices all at one.
abbrev unit_prices : Prices
unit_prices symbol = some (pos 10_000)

abbrev stored_rows : List Weighted
stored_rows = basket_rows sample_targets sample_targets-IsBasket.weights

build_plan-planned_of_IsBasket_example :
    (plan : RebalancePlan) × (build_plan
        (pos 10_000_000)
        []
        (map to_target stored_rows)
        unit_prices
        sample_settings
      ≡ planned plan)
build_plan-planned_of_IsBasket_example =
    build_plan-planned_of_IsBasket sample_runtime sample_targets sample_targets-IsBasket stored_rows
      Perm.rfl 10_000_000 24_999_999 [] unit_prices sample_settings (tt, λ s. omega arith)
      (λ s m. (9_999, refl)) refl

evaluate_trigger-IsDue_example :
    ((evaluate_trigger running schedule_or_drift 7
        (some 9)
        (some (largest_drift sample_plan.drifts))
        (some 500)).should_run
      ≡ true)
    ↔ IsDue running schedule_or_drift 7 (some 9) (some 500) sample_plan.drifts
evaluate_trigger-IsDue_example =
    evaluate_trigger-IsDue running schedule_or_drift 7 (some 9) (some 500) sample_plan.drifts
      (omega arith)
