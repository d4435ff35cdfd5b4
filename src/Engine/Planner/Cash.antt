-- ===== src/Engine/Planner/Cash.antt =====
-- The cash of a plan of api/src/engine/rebalance.py.
use native.Mathlib.Nat.{div-mul-le_self}
use rebalance_webull.Prelude.{
  ℕ, zero, suc, ◌+◌, ◌-◌, ◌*◌, ◌≤◌, ◌≡◌, ◌⊎◌, inl, inr, refl, List, [], ◌∷◌, ◌++◌, All, take, arith,
  Bool-cases,
}
use rebalance_webull.Engine.Money.{ℤ, one_share, value_of, min}
use rebalance_webull.Engine.Models.{
  EngineTarget, Holding, planned, Side, buy, sell, RebalanceSettings, Drift, PlannedOrder,
  RebalancePlan,
}
use rebalance_webull.Engine.Planner.Inputs.{Prices, Held, Weighted, Priced, reserved_of}
use rebalance_webull.Engine.Planner.Trades.{
  Considered, settled, skip, place, placed, sum_values, buys_of, sells_of, shares_for,
  consider_sell, sells_considered, consider_buy, buys_considered, buy_candidates, left_after,
}
use rebalance_webull.Engine.Planner.Placed.{
  IsSellOf, IsBuyOf, All-placed, Places-weaken, consider_sell-Places, consider_buy-Places,
}
use rebalance_webull.Engine.Planner.Inversion.{build_plan-planned}
use rebalance_webull.Engine.Planner.{plan_of, build_plan}
use mathlib.Core.Path.{subst}

-- The shares that a value buys cost no more than the value, before and after rounding.
pub shares_for-le :
    (settings : RebalanceSettings) (value price : ℕ)
    → shares_for settings value price * price ≤ value * one_share
shares_for-le settings value price = elim (Bool-cases settings.allow_fractional) [
  | inl h ↦ rw h (div-mul-le_self (value * one_share) price)
  | inr h ↦ rw h (omega (arith, div-mul-le_self value price))
]

pub value_of-le :
    (quantity price value : ℕ)
    → quantity * price ≤ value * one_share
    → value_of quantity price ≤ value
value_of-le quantity price value h = omega (arith, h)

-- What a considered order spends.
abbrev spent_by : Considered → ℕ
spent_by (place o) = o.estimated_value
spent_by c = 0

consider_buy-le :
    (settings : RebalanceSettings) (remaining : ℕ) (d : Drift)
    → spent_by (consider_buy settings remaining d) ≤ remaining
unfolding consider_buy
consider_buy-le settings remaining d =
    let affordable = min (d.target_value - d.current_value) remaining in
    let covered =
      value_of-le (shares_for settings affordable d.price) d.price affordable
        (shares_for-le settings affordable d.price) in
    let small : affordable ≤ remaining = ground arith in ground (arith, covered, small)

sum_values-placed :
    (c : Considered) (cs : List Considered)
    → sum_values (placed (c ∷ cs)) ≡ spent_by c + sum_values (placed cs)
sum_values-placed settled cs = omega arith
sum_values-placed (skip s) cs = omega arith
sum_values-placed (place o) cs = refl

left_after-eq : (remaining : ℕ) (c : Considered) → left_after remaining c ≡ remaining - spent_by c
left_after-eq remaining settled = omega arith
left_after-eq remaining (skip s) = omega arith
left_after-eq remaining (place o) = refl

-- The buys cost at most the budget.
pub buys_considered-le :
    (settings : RebalanceSettings) (remaining : ℕ) (ds : List Drift)
    → sum_values (placed (buys_considered settings remaining ds)) ≤ remaining
unfolding buys_considered
buys_considered-le settings remaining [] = omega arith
buys_considered-le settings remaining (d ∷ ds) =
    let first = consider_buy settings remaining d in
    let rest = buys_considered settings (left_after remaining first) ds in
    omega (
      arith,
      sum_values-placed first rest,
      left_after-eq remaining first,
      consider_buy-le settings remaining d,
      buys_considered-le settings (left_after remaining first) ds,
    )

-- Every order is of a side.
abbrev pub OfSide : Side → List PlannedOrder → Type 0
OfSide side = All (λ o. o.side ≡ side)

sells_of_sells : (os : List PlannedOrder) → OfSide sell os → sum_values (buys_of os) ≡ 0
sells_of_sells [] h = refl
sells_of_sells (o ∷ os) h = rw h.0 (sells_of_sells os h.1)

buys_of_buys :
    (cap : ℕ) (os : List PlannedOrder)
    → OfSide buy os
    → (sum_values (sells_of (take cap os)) ≡ 0)
      × (sum_values (buys_of (take cap os)) ≤ sum_values os)
buys_of_buys zero os h = (refl, omega arith)
buys_of_buys (suc cap) [] h = (refl, omega arith)
buys_of_buys (suc cap) (o ∷ os) h =
    let rest = buys_of_buys cap os h.1 in rw h.0 ((rest.0, omega (arith, rest.1)))

-- A cut of sells and then buys has no buys, or it has all the sells.
take-append_cash :
    (cap : ℕ) (sells buys : List PlannedOrder)
    → OfSide sell sells
    → OfSide buy buys
    → (sum_values (buys_of (take cap (sells ++ buys))) ≡ 0)
      ⊎ ((sum_values (sells_of (take cap (sells ++ buys))) ≡ sum_values sells)
          × (sum_values (buys_of (take cap (sells ++ buys))) ≤ sum_values buys))
take-append_cash cap [] buys h i = inr (buys_of_buys cap buys i)
take-append_cash zero (o ∷ os) buys h i = inl refl
take-append_cash (suc cap) (o ∷ os) buys h i = rw h.0 (elim (take-append_cash cap os buys h.1 i) [
  | inl none_left ↦ inl none_left
  | inr all_there ↦ inr (omega (arith, all_there.0), all_there.1)
])

pub sells-OfSide :
    (settings : RebalanceSettings) (ds : List Drift)
    → OfSide sell (placed (sells_considered settings ds))
unfolding sells_considered
sells-OfSide settings [] = tt
sells-OfSide settings (d ∷ ds) =
    All-placed (λ o. o.side ≡ sell) (consider_sell settings d) (sells_considered settings ds)
      (Places-weaken (λ o. IsSellOf settings d o) (λ o. o.side ≡ sell) (λ o h. h.0.0)
        (consider_sell settings d) (consider_sell-Places settings d))
      (sells-OfSide settings ds)

pub buys-OfSide :
    (settings : RebalanceSettings) (remaining : ℕ) (ds : List Drift)
    → OfSide buy (placed (buys_considered settings remaining ds))
unfolding buys_considered
buys-OfSide settings remaining [] = tt
buys-OfSide settings remaining (d ∷ ds) =
    let first = consider_buy settings remaining d in
    let rest = left_after remaining first in
    All-placed (λ o. o.side ≡ buy) first (buys_considered settings rest ds)
      (Places-weaken (λ o. IsBuyOf settings remaining d o) (λ o. o.side ≡ buy) (λ o h. h.0.0) first
        (consider_buy-Places settings remaining d))
      (buys-OfSide settings rest ds)

-- What the buys of a plan spend, and what its sells raise.
abbrev pub spent_in : RebalancePlan → ℕ
spent_in plan = sum_values (buys_of plan.orders)

abbrev pub raised_in : RebalancePlan → ℕ
raised_in plan = sum_values (sells_of plan.orders)

-- A plan spends nothing, or leaves the reserve of what its sells raise and the cash; the cash
-- that it projects is what is left.
abbrev pub IsFunded : RebalanceSettings → RebalancePlan → Type 0
IsFunded settings plan =
    ((spent_in plan ≡ 0)
      ⊎ (spent_in plan + reserved_of plan.investable_value settings.cash_buffer_bps
          ≤ plan.cash_before + raised_in plan))
    × plan.projected_cash_after + spent_in plan ≡ plan.cash_before + raised_in plan

funded_by :
    (cash proceeds reserved spent raised bought : ℕ)
    → (spent ≡ 0) ⊎ ((raised ≡ proceeds) × (spent ≤ bought))
    → bought ≤ (cash + proceeds) - reserved
    → ((spent ≡ 0) ⊎ (spent + reserved ≤ cash + raised))
      × (((cash + raised) - spent) + spent ≡ cash + raised)
funded_by cash proceeds reserved spent raised bought cut h = ground (arith, cut, h)

plan_of-IsFunded :
    (settings : RebalanceSettings) (investment cash : ℕ) (held : List Held)
    (weights : List Weighted) (priced : List Priced)
    → IsFunded settings (plan_of settings investment cash held weights priced)
unfolding plan_of
plan_of-IsFunded settings investment cash held weights priced =
    let plan = plan_of settings investment cash held weights priced in
    let sells = placed (sells_considered settings plan.drifts) in
    let reserved = reserved_of plan.investable_value settings.cash_buffer_bps in
    let budget = (cash + sum_values sells) - reserved in
    let candidates = buy_candidates plan.drifts in
    let buys = placed (buys_considered settings budget candidates) in
    funded_by cash (sum_values sells) reserved (spent_in plan) (raised_in plan) (sum_values buys)
      (take-append_cash settings.max_orders sells buys (sells-OfSide settings plan.drifts)
        (buys-OfSide settings budget candidates))
      (buys_considered-le settings budget candidates)

-- A plan leaves the cash reserve alone: its buys spend nothing, or what they spend and the reserve
-- together are at most the cash and what the sells of the plan raise, whichever orders were skipped
-- and whichever the cap on orders deferred; and the cash it projects is what the cash and the
-- sells leave after the buys.
pub build_plan-IsFunded :
    (cash : ℤ) (holdings : List Holding) (targets : List EngineTarget) (prices : Prices)
    (settings : RebalanceSettings) (plan : RebalancePlan)
    → build_plan cash holdings targets prices settings ≡ planned plan
    → IsFunded settings plan
build_plan-IsFunded cash holdings targets prices settings plan e =
    let i = build_plan-planned cash holdings targets prices settings plan e in
    subst (IsFunded settings) i.is_plan
      (plan_of-IsFunded settings i.investment i.funds i.held i.weights i.priced)
