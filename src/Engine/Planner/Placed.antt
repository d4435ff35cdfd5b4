-- ===== src/Engine/Planner/Placed.antt =====
-- The orders that the loops of `build_plan`, api/src/engine/rebalance.py, place.
use rebalance_webull.Prelude.{
  ℕ, ◌-◌, ◌≤◌, ◌<◌, ◌≡◌, inl, inr, refl, List, ◌∷◌, All, arith, ltb, leb, ◌==◌, Bool-cases,
}
use rebalance_webull.Engine.Money.{value_of, min}
use rebalance_webull.Engine.Models.{Side, buy, sell, RebalanceSettings, Drift, PlannedOrder}
use rebalance_webull.Engine.Planner.Trades.{
  Considered, settled, skip, place, placed, shares_for, sell_quantity, consider_sell, consider_buy,
}

-- What is placed, if an order is, has a property.
abbrev pub Places : (PlannedOrder → Type 0) → Considered → Type 0
Places P (place o) = P o
Places P settled = Unit
Places P (skip s) = Unit

pub Places-weaken :
    (P Q : PlannedOrder → Type 0)
    → ((o : PlannedOrder) → P o → Q o)
    → (c : Considered) → Places P c
    → Places Q c
Places-weaken P Q f (place o) h = f o h
Places-weaken P Q f settled h = tt
Places-weaken P Q f (skip s) h = tt

pub All-placed :
    (P : PlannedOrder → Type 0) (c : Considered) (cs : List Considered)
    → Places P c
    → All P (placed cs)
    → All P (placed (c ∷ cs))
All-placed P (place o) cs h i = (h, i)
All-placed P settled cs h i = i
All-placed P (skip s) cs h i = i

-- An order of a drift: it is valued at the drift's price, is of some shares and is large enough.
abbrev pub IsOrderOf : RebalanceSettings → Side → Drift → PlannedOrder → Type 0
IsOrderOf settings side d o =
    o.side ≡ side
    × o.symbol ≡ d.symbol
    × o.price ≡ d.price
    × o.estimated_value ≡ value_of o.quantity o.price
    × 1 ≤ o.quantity
    × settings.min_order_value ≤ o.estimated_value

abbrev pub IsSellOf : RebalanceSettings → Drift → PlannedOrder → Type 0
IsSellOf settings d o =
    IsOrderOf settings sell d o
    × o.quantity ≡ sell_quantity settings d
    × d.target_value < d.current_value

abbrev pub affordable_of : ℕ → Drift → ℕ
affordable_of remaining d = min (d.target_value - d.current_value) remaining

abbrev pub IsBuyOf : RebalanceSettings → ℕ → Drift → PlannedOrder → Type 0
IsBuyOf settings remaining d o =
    IsOrderOf settings buy d o
    × o.quantity ≡ shares_for settings (affordable_of remaining d) d.price

pub consider_sell-Places :
    (settings : RebalanceSettings) (d : Drift)
    → Places (IsSellOf settings d) (consider_sell settings d)
unfolding consider_sell
consider_sell-Places settings d =
    let quantity = sell_quantity settings d in
    elim (Bool-cases (leb d.current_value d.target_value)) [
      | inl h ↦ rw h tt
      | inr h ↦ rw h (elim (Bool-cases (quantity == 0)) [
        | inl i ↦ rw i tt
        | inr i ↦
            rw i (elim (Bool-cases (ltb (value_of quantity d.price) settings.min_order_value)) [
              | inl j ↦ rw j tt
              | inr j ↦ rw j (
                (refl, refl, refl, refl, ground (arith, i), ground (arith, j)),
                refl,
                ground (arith, h),
              )
            ])
      ])
    ]

pub consider_buy-Places :
    (settings : RebalanceSettings) (remaining : ℕ) (d : Drift)
    → Places (IsBuyOf settings remaining d) (consider_buy settings remaining d)
unfolding consider_buy
consider_buy-Places settings remaining d =
    let affordable = affordable_of remaining d in
    let quantity = shares_for settings affordable d.price in
    elim (Bool-cases (affordable == 0)) [
      | inl h ↦ rw h tt
      | inr h ↦ rw h (elim (Bool-cases (quantity == 0)) [
        | inl i ↦ rw i tt
        | inr i ↦
            rw i (elim (Bool-cases (ltb (value_of quantity d.price) settings.min_order_value)) [
              | inl j ↦ rw j tt
              | inr j ↦ rw j ((refl, refl, refl, refl, ground (arith, i), ground (arith, j)), refl)
            ])
      ])
    ]
