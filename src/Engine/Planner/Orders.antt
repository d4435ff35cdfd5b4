-- ===== src/Engine/Planner/Orders.antt =====
-- What the orders of a plan of api/src/engine/rebalance.py trade.

use mathlib.Core.Path.{subst}
use mathlib.Core.List.{Mem, mem-cons_self, mem-cons_of_mem}
use rebalance_webull.Prelude.{
  ℕ, zero, suc, ◌+◌, ◌-◌, ◌≤◌, ◌<◌, ◌≡◌, inl, inr, refl, ap, sym, true, false, List, [], ◌∷◌, ◌++◌,
  All, take, length, arith, ltb, Bool-cases,
}
use rebalance_webull.Engine.Money.{ℤ}
use rebalance_webull.Engine.Models.{
  buy, sell, RebalanceSettings, Drift, PlannedOrder, RebalancePlan, EngineTarget, Holding, planned,
}
use rebalance_webull.Engine.Planner.Inputs.{
  Prices, Held, Weighted, Priced, reserved_of, drift_of, drifts_for,
}
use rebalance_webull.Engine.Planner.Trades.{
  placed, sum_values, is_buy, buys_of, sells_of, consider_sell, sells_considered, insert_drift,
  sort_drifts, below_target, buy_candidates, drift_less, consider_buy, left_after, buys_considered,
}
use rebalance_webull.Engine.Planner.Placed.{
  IsOrderOf, IsSellOf, IsBuyOf, Places-weaken, All-placed, consider_sell-Places,
  consider_buy-Places,
}
use rebalance_webull.Engine.Planner.Approach.{
  Approaches, IsTradeOf, IsValued, sell-Approaches, buy-Approaches,
}
use rebalance_webull.Engine.Planner.Cash.{OfSide, sells-OfSide, buys-OfSide}
use rebalance_webull.Engine.Planner.Inversion.{build_plan-planned}
use rebalance_webull.Engine.Planner.{plan_of, build_plan}

-- The drifts of a list that are of a plan, and those that are below their target besides.
abbrev AreOf : List Drift → List Drift → Type 0
AreOf drifts = All (λ d. Mem d drifts × IsValued d)

abbrev AreBelow : List Drift → List Drift → Type 0
AreBelow drifts = All (λ d. (Mem d drifts × IsValued d) × d.current_value < d.target_value)

below_target-AreBelow :
    (drifts ds : List Drift) → AreOf drifts ds → AreBelow drifts (below_target ds)
unfolding below_target
below_target-AreBelow drifts [] h = tt
below_target-AreBelow drifts (d ∷ ds) h =
    let rest = below_target-AreBelow drifts ds h.1 in
    elim (Bool-cases (ltb d.current_value d.target_value)) [
      | inl i ↦ rw i ((h.0, ground (arith, i)), rest)
      | inr i ↦ rw i rest
    ]

insert_drift-All :
    (P : Drift → Type 0) (d : Drift) (ds : List Drift) → P d → All P ds → All P (insert_drift d ds)
unfolding insert_drift
insert_drift-All P d [] p h = (p, tt)
insert_drift-All P d (e ∷ es) p h = elim (Bool-cases (drift_less e d)) [
  | inl i ↦ rw i ((h.0, insert_drift-All P d es p h.1))
  | inr i ↦ rw i ((p, h))
]

sort_drifts-All : (P : Drift → Type 0) (ds : List Drift) → All P ds → All P (sort_drifts ds)
unfolding sort_drifts
sort_drifts-All P [] h = tt
sort_drifts-All P (d ∷ ds) h = insert_drift-All P d (sort_drifts ds) h.0 (sort_drifts-All P ds h.1)

candidates-AreBelow :
    (drifts ds : List Drift) → AreOf drifts ds → AreBelow drifts (buy_candidates ds)
unfolding buy_candidates
candidates-AreBelow drifts ds h =
    sort_drifts-All (λ d. (Mem d drifts × IsValued d) × d.current_value < d.target_value)
      (below_target ds) (below_target-AreBelow drifts ds h)

-- An order is a trade of a drift of the plan.
abbrev pub Trades : RebalanceSettings → List Drift → PlannedOrder → Type 0
Trades settings drifts o = (d : Drift) × Mem d drifts × IsTradeOf settings d o

sells-Trades :
    (settings : RebalanceSettings) (drifts ds : List Drift)
    → AreOf drifts ds
    → All (Trades settings drifts) (placed (sells_considered settings ds))
unfolding sells_considered
sells-Trades settings drifts [] h = tt
sells-Trades settings drifts (d ∷ ds) h =
    let traded : (o : PlannedOrder) → IsSellOf settings d o → Trades settings drifts o = λ o i. (
      d,
      h.0.0,
      subst (λ s. IsOrderOf settings s d o × Approaches settings s d o) (sym i.0.0)
          (i.0, sell-Approaches settings d o h.0.1 i),
    ) in
    All-placed (Trades settings drifts) (consider_sell settings d) (sells_considered settings ds)
      (Places-weaken (IsSellOf settings d) (Trades settings drifts) traded
        (consider_sell settings d) (consider_sell-Places settings d))
      (sells-Trades settings drifts ds h.1)

buys-Trades :
    (settings : RebalanceSettings) (remaining : ℕ) (drifts ds : List Drift)
    → AreBelow drifts ds
    → All (Trades settings drifts) (placed (buys_considered settings remaining ds))
unfolding buys_considered
buys-Trades settings remaining drifts [] h = tt
buys-Trades settings remaining drifts (d ∷ ds) h =
    let first = consider_buy settings remaining d in
    let traded : (o : PlannedOrder) → IsBuyOf settings remaining d o → Trades settings drifts o =
      λ o i. (
        d,
        h.0.0.0,
        subst (λ s. IsOrderOf settings s d o × Approaches settings s d o) (sym i.0.0)
            (i.0, buy-Approaches settings remaining d o h.0.1 i),
      ) in
    All-placed (Trades settings drifts) first
      (buys_considered settings (left_after remaining first) ds)
      (Places-weaken (IsBuyOf settings remaining d) (Trades settings drifts) traded first
        (consider_buy-Places settings remaining d))
      (buys-Trades settings (left_after remaining first) drifts ds h.1)

All-take_append :
    {A : Type 0} (P : A → Type 0) (cap : ℕ) (xs ys : List A)
    → All P xs
    → All P ys
    → All P (take cap (xs ++ ys))
All-take_append P zero xs ys h i = tt
All-take_append P (suc cap) [] [] h i = tt
All-take_append P (suc cap) [] (y ∷ ys) h i = (i.0, All-take_append P cap [] ys tt i.1)
All-take_append P (suc cap) (x ∷ xs) ys h i = (h.0, All-take_append P cap xs ys h.1 i)

length-take-le : {A : Type 0} (cap : ℕ) (xs : List A) → length (take cap xs) ≤ cap
length-take-le zero xs = omega arith
length-take-le (suc cap) [] = omega arith
length-take-le (suc cap) (x ∷ xs) = omega (arith, length-take-le cap xs)

buys_alone :
    (cap : ℕ) (os : List PlannedOrder)
    → OfSide buy os
    → (sells_of (take cap os) ≡ []) × (buys_of (take cap os) ≡ take cap os)
buys_alone zero os h = (refl, refl)
buys_alone (suc cap) [] h = (refl, refl)
buys_alone (suc cap) (o ∷ os) h =
    let bought : is_buy o.side ≡ true = ap is_buy h.0 in
    let rest = buys_alone cap os h.1 in rw bought ((rest.0, ap (◌∷◌ o) rest.1))

sells_lead :
    (cap : ℕ) (sells buys : List PlannedOrder)
    → OfSide sell sells
    → OfSide buy buys
    → take cap (sells ++ buys)
      ≡ sells_of (take cap (sells ++ buys)) ++ buys_of (take cap (sells ++ buys))
sells_lead cap [] buys h i = let alone = buys_alone cap buys i in rw (alone.0, alone.1) refl
sells_lead zero (o ∷ os) buys h i = refl
sells_lead (suc cap) (o ∷ os) buys h i =
    let sold : is_buy o.side ≡ false = ap is_buy h.0 in
    rw sold (ap (◌∷◌ o) (sells_lead cap os buys h.1 i))

drifts_for-AreOf :
    (deployable : ℕ) (held : List Held) (ws : List Weighted) (priced : List Priced)
    (drifts : List Drift)
    → ((d : Drift) → Mem d (drifts_for deployable held ws priced) → Mem d drifts)
    → AreOf drifts (drifts_for deployable held ws priced)
unfolding drifts_for drift_of
drifts_for-AreOf deployable held ws [] drifts h = tt
drifts_for-AreOf deployable held ws (p ∷ ps) drifts h = (
  (h (drift_of deployable held ws p) mem-cons_self, refl),
  drifts_for-AreOf deployable held ws ps drifts
      (λ d m. h d (mem-cons_of_mem (drift_of deployable held ws p) m)),
)

-- What is proved of the orders of a plan.
abbrev pub IsOrderly : RebalanceSettings → RebalancePlan → Type 0
IsOrderly settings plan =
    All (Trades settings plan.drifts) plan.orders
    × length plan.orders ≤ settings.max_orders
    × plan.orders ≡ sells_of plan.orders ++ buys_of plan.orders

plan_of-IsOrderly :
    (settings : RebalanceSettings) (investment cash : ℕ) (held : List Held)
    (weights : List Weighted) (priced : List Priced)
    → IsOrderly settings (plan_of settings investment cash held weights priced)
unfolding plan_of
plan_of-IsOrderly settings investment cash held weights priced =
    let plan = plan_of settings investment cash held weights priced in
    let sold = sells_considered settings plan.drifts in
    let budget =
      (cash + sum_values (placed sold))
      - reserved_of plan.investable_value settings.cash_buffer_bps in
    let candidates = buy_candidates plan.drifts in
    let bought = buys_considered settings budget candidates in
    let are_of =
      drifts_for-AreOf plan.deployable_value held weights priced plan.drifts (λ d m. m) in
    (
      All-take_append (Trades settings plan.drifts) settings.max_orders (placed sold)
          (placed bought) (sells-Trades settings plan.drifts plan.drifts are_of)
          (buys-Trades settings budget plan.drifts candidates
            (candidates-AreBelow plan.drifts plan.drifts are_of)),
      length-take-le settings.max_orders (placed sold ++ placed bought),
      sells_lead settings.max_orders (placed sold) (placed bought)
          (sells-OfSide settings plan.drifts) (buys-OfSide settings budget candidates),
    )

-- Each order of a plan is a trade of one of the drifts of the plan: it has the symbol and the price
-- of the drift, is of some shares, has their value, and that is at least the minimum of the bot. A
-- buy leaves the drift at most at its target, and is of whole shares unless fractions are allowed.
-- A sell is of shares that are held, leaves the drift at least at its target, and is of whole
-- shares, or of all that are held, unless fractions are allowed. The orders are at most as many as
-- the cap allows, and the sells come first.
pub build_plan-IsOrderly :
    (cash : ℤ) (holdings : List Holding) (targets : List EngineTarget) (prices : Prices)
    (settings : RebalanceSettings) (plan : RebalancePlan)
    → build_plan cash holdings targets prices settings ≡ planned plan
    → IsOrderly settings plan
build_plan-IsOrderly cash holdings targets prices settings plan e =
    let i = build_plan-planned cash holdings targets prices settings plan e in
    subst (IsOrderly settings) i.is_plan
      (plan_of-IsOrderly settings i.investment i.funds i.held i.weights i.priced)
