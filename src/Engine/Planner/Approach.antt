-- ===== src/Engine/Planner/Approach.antt =====
-- What an order of a drift moves, in api/src/engine/rebalance.py trade.
use native.Mathlib.Nat.{mul-le-mul, le_refl}
use mathlib.Core.Path.{subst}
use rebalance_webull.Prelude.{
  ℕ, ◌+◌, ◌-◌, ◌*◌, ◌%◌, ◌≤◌, ◌<◌, ◌≡◌, ◌⊎◌, inl, inr, sym, ◌∙◌, true, arith, Bool-cases,
}
use rebalance_webull.Engine.Money.{one_share, value_of}
use rebalance_webull.Engine.Models.{Side, buy, sell, RebalanceSettings, Drift, PlannedOrder}
use rebalance_webull.Engine.Planner.Trades.{shares_for, sell_quantity}
use rebalance_webull.Engine.Planner.Placed.{IsOrderOf, IsSellOf, IsBuyOf, affordable_of}
use rebalance_webull.Engine.Planner.Cash.{shares_for-le, value_of-le}

-- An order takes its drift towards its target and not past it: a buy leaves the value at most the
-- target, and is of whole shares where fractions are not allowed; a sell is of shares that are
-- held, leaves the value at least the target, and is of whole shares, or of all, where fractions
-- are not allowed.
abbrev pub Approaches : RebalanceSettings → Side → Drift → PlannedOrder → Type 0
Approaches settings buy d o =
    d.current_value + o.estimated_value ≤ d.target_value
    × ((settings.allow_fractional ≡ true) ⊎ (o.quantity % one_share ≡ 0))
Approaches settings sell d o =
    d.target_value + o.estimated_value ≤ d.current_value
    × o.quantity ≤ d.current_quantity
    × ((settings.allow_fractional ≡ true)
        ⊎ ((o.quantity % one_share ≡ 0) ⊎ (o.quantity ≡ d.current_quantity)))

abbrev pub IsTradeOf : RebalanceSettings → Drift → PlannedOrder → Type 0
IsTradeOf settings d o = IsOrderOf settings o.side d o × Approaches settings o.side d o

-- The current value of a drift is that of its quantity.
abbrev pub IsValued : Drift → Type 0
IsValued d = d.current_value ≡ value_of d.current_quantity d.price

shares_for-whole :
    (settings : RebalanceSettings) (value price : ℕ)
    → (settings.allow_fractional ≡ true) ⊎ (shares_for settings value price % one_share ≡ 0)
shares_for-whole settings value price = elim (Bool-cases settings.allow_fractional) [
  | inl h ↦ inl h
  | inr h ↦ inr (rw h (omega arith))
]

-- A sell is of all that is held, or of at most the shares for the excess.
sell_quantity-cases :
    (settings : RebalanceSettings) (d : Drift)
    → (sell_quantity settings d ≡ d.current_quantity × d.target_value ≡ 0)
      ⊎ (sell_quantity settings d ≤ shares_for settings (d.current_value - d.target_value) d.price
          × sell_quantity settings d ≤ d.current_quantity
          × ((sell_quantity settings d
                ≡ shares_for settings (d.current_value - d.target_value) d.price)
              ⊎ (sell_quantity settings d ≡ d.current_quantity)))
unfolding sell_quantity
sell_quantity-cases settings d = ground arith

value-le_excess :
    (quantity shares price excess : ℕ)
    → quantity ≤ shares
    → shares * price ≤ excess * one_share
    → value_of quantity price ≤ excess
value-le_excess quantity shares price excess h i =
    let fewer : quantity * price ≤ shares * price = mul-le-mul h (le_refl price) in
    value_of-le quantity price excess (omega (arith, fewer, i))

pub sell-Approaches :
    (settings : RebalanceSettings) (d : Drift) (o : PlannedOrder)
    → IsValued d
    → IsSellOf settings d o
    → Approaches settings sell d o
sell-Approaches settings d o valued ((_, _, priced, value, _, _), quantity, above) =
    let excess = d.current_value - d.target_value in
    let value_sold : o.estimated_value ≡ value_of (sell_quantity settings d) d.price = cc in
    elim (sell_quantity-cases settings d) [
      | inl (all_of, nothing) ↦
          let whole : o.estimated_value ≡ d.current_value = cc in
          (
            omega (arith, whole, nothing),
            omega (arith, quantity, all_of),
            inr (inr (quantity ∙ all_of)),
          )
      | inr (fewer, held, which) ↦ (
        omega (
          arith,
          value_sold,
          above,
          value-le_excess (sell_quantity settings d) (shares_for settings excess d.price) d.price
              excess fewer (shares_for-le settings excess d.price),
        ),
        omega (arith, quantity, held),
        elim which [
          | inl shares ↦ elim (shares_for-whole settings excess d.price) [
            | inl fractional ↦ inl fractional
            | inr whole ↦ inr (inl (subst (λ q. q % one_share ≡ 0) (sym (quantity ∙ shares)) whole))
          ]
          | inr all_of ↦ inr (inr (quantity ∙ all_of))
        ],
      )
    ]

pub buy-Approaches :
    (settings : RebalanceSettings) (remaining : ℕ) (d : Drift) (o : PlannedOrder)
    → d.current_value < d.target_value
    → IsBuyOf settings remaining d o
    → Approaches settings buy d o
buy-Approaches settings remaining d o below ((_, _, priced, value, _, _), quantity) =
    let affordable = affordable_of remaining d in
    let value_bought : o.estimated_value
        ≡ value_of (shares_for settings affordable d.price) d.price =
      cc in
    let covered =
      value_of-le (shares_for settings affordable d.price) d.price affordable
        (shares_for-le settings affordable d.price) in
    let wanted : affordable ≤ d.target_value - d.current_value = ground arith in
    (
      omega (arith, value_bought, covered, wanted, below),
      subst (λ q. (settings.allow_fractional ≡ true) ⊎ (q % one_share ≡ 0)) (sym quantity)
          (shares_for-whole settings affordable d.price),
    )
