-- ===== src/Engine/Planner/Accepts.antt =====
-- The planner of api/src/engine/rebalance.py takes the baskets that `readTargets` of
-- supabase/functions/_shared/validation.ts passes: a bot is stored with its rows, which
-- api/src/engine/repo.py reads back in the order of the symbols.

use mathlib.Core.List.{Perm}
use rebalance_webull.Prelude.{ℕ, suc, ◌+◌, ◌≤◌, ◌≡◌, refl, ◌∙◌, List, [], ◌∷◌, map, Text, arith}
use rebalance_webull.Js.{Runtime}
use rebalance_webull.Validation.Targets.{Target}
use rebalance_webull.Validation.Basket.{IsBasket, IsFresh, Weighs, sum}
use rebalance_webull.Engine.Money.{pos}
use rebalance_webull.Engine.Models.{Holding, RebalanceSettings, RebalancePlan, planned}
use rebalance_webull.Engine.Planner.Inputs.{Prices, Weighted, total_weight, symbols_weighted}
use rebalance_webull.Engine.Planner.Symbols.{times, IsDistinct, IsDistinct-cons}
use rebalance_webull.Engine.Planner.Total.{
  to_target, validate_targets-Perm, build_plan-planned, symbols_of, AreHoldings, IsPriced,
}
use rebalance_webull.Engine.Planner.{build_plan}

-- The rows of a basket.
abbrev pub basket_rows : {N : Type 0} → List (Target N) → List ℕ → List Weighted
basket_rows [] ws = []
basket_rows (t ∷ ts) [] = []
basket_rows (t ∷ ts) (w ∷ ws) = record { symbol = t.symbol; weight = w } ∷ basket_rows ts ws

module _ {N : Type 0} where
  basket_rows-IsDistinct :
      (seen : List Text) (ts : List (Target N)) (ws : List ℕ)
      → IsFresh seen ts
      → IsDistinct seen
      → (s : Text) → times s seen + times s (symbols_weighted (basket_rows ts ws)) ≤ 1
  basket_rows-IsDistinct seen [] ws h i s = omega (arith, i s)
  basket_rows-IsDistinct seen (t ∷ ts) [] h i s = omega (arith, i s)
  basket_rows-IsDistinct seen (t ∷ ts) (w ∷ ws) h i s = omega (
    arith,
    basket_rows-IsDistinct (t.symbol ∷ seen) ts ws h.1 (IsDistinct-cons t.symbol seen h.0 i) s,
  )

  module _ (r : Runtime N) where
    basket_rows-total :
        (ts : List (Target N)) (ws : List ℕ)
        → Weighs r ts ws
        → total_weight (basket_rows ts ws) ≡ sum ws
    basket_rows-total [] [] h = refl
    basket_rows-total [] (w ∷ ws) h = absurd h
    basket_rows-total (t ∷ ts) [] h = absurd h
    basket_rows-total (t ∷ ts) (w ∷ ws) h = omega (arith, basket_rows-total ts ws h.2)

-- The planner plans for every bot whose basket `readTargets` passed: it raises no error where the
-- rows of the basket are read back in any order, the investment is positive and the broker reports
-- cash and positions that are not negative, no position twice, and a positive price of each symbol
-- of the basket and of the positions.
pub build_plan-planned_of_IsBasket :
    {N : Type 0} (r : Runtime N) (ts : List (Target N)) (b : IsBasket r ts) (stored : List Weighted)
    → Perm stored (basket_rows ts b.weights)
    → (cash amount : ℕ) (holdings : List Holding) (prices : Prices) (settings : RebalanceSettings)
    → AreHoldings holdings
    → ((s : Text)
        → 1 ≤ times s (symbols_weighted stored) + times s (symbols_of holdings)
        → IsPriced prices s)
    → settings.investment_amount ≡ pos (suc amount)
    → (plan : RebalancePlan) × (build_plan
          (pos cash)
          holdings
          (map to_target stored)
          prices
          settings
        ≡ planned plan)
build_plan-planned_of_IsBasket r ts b stored p cash amount holdings prices settings h priced i =
    let distinct : IsDistinct (symbols_weighted (basket_rows ts b.weights)) =
      λ s. omega (arith, basket_rows-IsDistinct [] ts b.weights b.distinct (λ x. omega arith) s) in
    build_plan-planned stored
      (validate_targets-Perm stored (basket_rows ts b.weights) p distinct
        (basket_rows-total r ts b.weights b.weighed ∙ b.balanced))
      cash amount holdings prices settings h priced i
