-- ===== src/Engine/Planner/Trades.antt =====
-- The sells and buys of `build_plan`, api/src/engine/rebalance.py.
use rebalance_webull.Prelude.{
  ℕ, ◌+◌, ◌-◌, Bool, true, false, List, [], ◌∷◌, map, ltb, leb, ◌==◌, if◌then◌else◌,
}
use rebalance_webull.Engine.Money.{value_of, quantity_for, whole_shares_for, min}
use rebalance_webull.Engine.Models.{
  Side, buy, sell, RebalanceSettings, Drift, Reason, overweight, underweight, not_in_basket,
  no_whole_share, below_minimum, no_cash_left, PlannedOrder, SkippedOrder,
}

-- What becomes of a holding: nothing is to be traded, its order is skipped, or it is placed.
pub data Considered : Type 0 where
  settled : Considered
  skip : SkippedOrder → Considered
  place : PlannedOrder → Considered

abbrev pub placed : List Considered → List PlannedOrder
placed [] = []
placed (place o ∷ cs) = o ∷ placed cs
placed (settled ∷ cs) = placed cs
placed (skip s ∷ cs) = placed cs

abbrev pub skips : List Considered → List SkippedOrder
skips [] = []
skips (skip s ∷ cs) = s ∷ skips cs
skips (settled ∷ cs) = skips cs
skips (place o ∷ cs) = skips cs

abbrev pub sum_values : List PlannedOrder → ℕ
sum_values [] = 0
sum_values (o ∷ os) = o.estimated_value + sum_values os

abbrev pub is_buy : Side → Bool
is_buy buy = true
is_buy sell = false

abbrev pub buys_of : List PlannedOrder → List PlannedOrder
buys_of [] = []
buys_of (o ∷ os) = if is_buy o.side then o ∷ buys_of os else buys_of os

abbrev pub sells_of : List PlannedOrder → List PlannedOrder
sells_of [] = []
sells_of (o ∷ os) = if is_buy o.side then sells_of os else o ∷ sells_of os

-- `quantity(raw)` or `whole_shares(raw)`, of the quotient `raw` of a value and a price.
abbrev pub shares_for : RebalanceSettings → ℕ → ℕ → ℕ
shares_for settings value price =
    if settings.allow_fractional then quantity_for value price else whole_shares_for value price

abbrev skipped_order : Drift → Side → ℕ → Reason → Considered
skipped_order d side value reason =
    skip (record { symbol = d.symbol; side = side; intended_value = value; reason = reason })

abbrev planned_order : Drift → Side → ℕ → ℕ → Reason → Considered
planned_order d side quantity value reason = place (record {
  symbol = d.symbol;
  side = side;
  quantity = quantity;
  price = d.price;
  estimated_value = value;
  reason = reason;
})

-- A holding whose target is nothing is sold whole.
unfoldable pub sell_quantity : RebalanceSettings → Drift → ℕ
sell_quantity settings d =
    if d.target_value == 0
    then d.current_quantity
    else min (shares_for settings (d.current_value - d.target_value) d.price) d.current_quantity

abbrev sell_reason : Drift → Reason
sell_reason d =
    if d.target_weight_bps == 0
    then not_in_basket
    else overweight d.current_weight_bps d.target_weight_bps

-- The body of the loop of the sells.
unfoldable pub consider_sell : RebalanceSettings → Drift → Considered
unfolding sell_quantity
consider_sell settings d =
    let quantity = sell_quantity settings d in
    let value = value_of quantity d.price in
    let delta = d.current_value - d.target_value in
    if leb d.current_value d.target_value
    then settled
    else if quantity == 0
    then skipped_order d sell delta (no_whole_share delta d.price)
    else if ltb value settings.min_order_value
    then skipped_order d sell value (below_minimum value settings.min_order_value)
    else planned_order d sell quantity value (sell_reason d)

unfoldable pub sells_considered : RebalanceSettings → List Drift → List Considered
unfolding consider_sell
sells_considered settings drifts = map (consider_sell settings) drifts

-- `sorted` by the drift, the most underweight first, is stable: a drift goes before the first
-- later one that is not less.
abbrev pub drift_less : Drift → Drift → Bool
drift_less d e =
    ltb (d.current_weight_bps + e.target_weight_bps) (e.current_weight_bps + d.target_weight_bps)

unfoldable pub insert_drift : Drift → List Drift → List Drift
insert_drift d [] = d ∷ []
insert_drift d (e ∷ es) =
    let rest = insert_drift d es in if drift_less e d then e ∷ rest else d ∷ e ∷ es

unfoldable pub sort_drifts : List Drift → List Drift
unfolding insert_drift
sort_drifts [] = []
sort_drifts (d ∷ ds) = insert_drift d (sort_drifts ds)

unfoldable pub below_target : List Drift → List Drift
below_target [] = []
below_target (d ∷ ds) =
    let rest = below_target ds in if ltb d.current_value d.target_value then d ∷ rest else rest

unfoldable pub buy_candidates : List Drift → List Drift
unfolding sort_drifts below_target
buy_candidates drifts = sort_drifts (below_target drifts)

-- The body of the loop of the buys, by the cash that remains.
unfoldable pub consider_buy : RebalanceSettings → ℕ → Drift → Considered
consider_buy settings remaining d =
    let wanted = d.target_value - d.current_value in
    let affordable = min wanted remaining in
    let quantity = shares_for settings affordable d.price in
    let value = value_of quantity d.price in
    if affordable == 0
    then skipped_order d buy wanted no_cash_left
    else if quantity == 0
    then skipped_order d buy wanted (no_whole_share affordable d.price)
    else if ltb value settings.min_order_value
    then skipped_order d buy value (below_minimum value settings.min_order_value)
    else planned_order d buy quantity value (underweight d.current_weight_bps d.target_weight_bps)

abbrev pub left_after : ℕ → Considered → ℕ
left_after remaining (place o) = remaining - o.estimated_value
left_after remaining c = remaining

unfoldable pub buys_considered : RebalanceSettings → ℕ → List Drift → List Considered
unfolding consider_buy
buys_considered settings remaining [] = []
buys_considered settings remaining (d ∷ ds) =
    let first = consider_buy settings remaining d in
    first ∷ buys_considered settings (left_after remaining first) ds
