-- ===== src/Validation/Basket.antt =====
-- What `readTargets` of validation.ts promises of the holdings that it accepts.
pub mod Sound
pub mod Complete
pub mod Order
use rebalance_webull.Prelude.{
  ℕ, suc, ◌+◌, ◌≤◌, ◌≡◌, ◌≢◌, Bool, true, false, List, [], ◌∷◌, Text, text_eq, length, any, map,
  All,
}
use rebalance_webull.Js.{Runtime, exact_limit}
use rebalance_webull.Validation.Targets.{Target, symbol_pattern}

abbrev pub sum : List ℕ → ℕ
sum [] = 0
sum (w ∷ ws) = w + sum ws

-- No symbol is that of an earlier holding or one of `seen`.
abbrev pub IsFresh : {N : Type 0} → List Text → List (Target N) → Type 0
IsFresh seen [] = Unit
IsFresh seen (t ∷ ts) = (any (text_eq t.symbol) seen ≡ false) × IsFresh (t.symbol ∷ seen) ts

-- Every symbol has the pattern of a symbol.
abbrev pub HasSymbols : {N : Type 0} → List (Target N) → Type 0
HasSymbols [] = Unit
HasSymbols (t ∷ ts) = (symbol_pattern t.symbol ≡ true) × HasSymbols ts

module _ {N : Type 0} (r : Runtime N) where
  -- The weights are the whole numbers `ws` of basis points, each at most 10000.
  abbrev pub Weighs : List (Target N) → List ℕ → Type 0
  Weighs [] [] = Unit
  Weighs (t ∷ ts) (w ∷ ws) = (t.weight_bps ≡ r.of_ℕ w) × (w ≤ 10000) × Weighs ts ws
  Weighs _ _ = ⊥

  -- Between 1 and 50 holdings of distinct well-formed symbols, which weigh 10000 together.
  pub record IsBasket (ts : List (Target N)) : Type 0 where
    pub some_holding : 1 ≤ length ts
    pub at_most : length ts ≤ 50
    pub symbols : HasSymbols ts
    pub distinct : IsFresh [] ts
    pub weights : List ℕ
    pub weighed : Weighs ts weights
    pub balanced : sum weights ≡ 10000
