-- ===== src/Engine/Planner/Inputs.antt =====
-- The checks and the valuation of `build_plan`, api/src/engine/rebalance.py.
use rebalance_webull.Prelude.{
  ℕ, ◌+◌, ◌-◌, ◌*◌, true, false, Option, none, some, List, [], ◌∷◌, ◌++◌, Text, text_eq, any, map,
  ltb, ◌==◌, if◌then◌else◌,
}
use rebalance_webull.Engine.Money.{
  ℤ, pos, negsuc, one_share, round_money, value_of, apply_bps, without_bps, bps_of, min,
}
use rebalance_webull.Engine.Models.{
  EngineTarget, Holding, Drift, Planned, raised, planned, no_targets, duplicate_target,
  weight_outside, duplicate_holding, negative_quantity, no_price, price_not_positive, wrong_total,
}

infixl 5 ◌>>=◌
abbrev pub ◌>>=◌ : {A B : Type 0} → Planned A → (A → Planned B) → Planned B
raised e >>= f = raised e
planned a >>= f = f a

-- A target whose weight was checked, an entry of `held`, and one of `price_of`.
pub record Weighted : Type 0 where
  pub symbol : Text
  pub weight : ℕ

pub record Held : Type 0 where
  pub symbol : Text
  pub quantity : ℕ

pub record Priced : Type 0 where
  pub symbol : Text
  pub price : ℕ

-- `prices.get(symbol)`
abbrev pub Prices : Type 0
Prices = Text → Option ℤ

abbrev pub in_range : Text → ℤ → Planned ℕ
in_range symbol (pos w) = if ltb 10000 w then raised (weight_outside symbol) else planned w
in_range symbol (negsuc w) = raised (weight_outside symbol)

-- The loop of `validate_targets`, with the symbols seen.
unfoldable pub check_targets : List Text → List EngineTarget → Planned (List Weighted)
check_targets seen [] = planned []
check_targets seen (t ∷ ts) =
    let rest = check_targets (t.symbol ∷ seen) ts in
    if any (text_eq t.symbol) seen
    then raised (duplicate_target t.symbol)
    else (in_range t.symbol t.weight_bps >>= λ w.
        rest >>= λ ws. planned (record { symbol = t.symbol; weight = w } ∷ ws))

abbrev pub total_weight : List Weighted → ℕ
total_weight [] = 0
total_weight (w ∷ ws) = w.weight + total_weight ws

abbrev check_total : List Weighted → Planned (List Weighted)
check_total ws =
    if total_weight ws == 10000 then planned ws else raised (wrong_total (total_weight ws))

unfoldable pub validate_targets : List EngineTarget → Planned (List Weighted)
unfolding check_targets
validate_targets [] = raised no_targets
validate_targets (t ∷ ts) = check_targets [] (t ∷ ts) >>= check_total

abbrev pub symbols_held : List Held → List Text
symbols_held held = map (λ h. h.symbol) held

-- The loop that fills `held`, which keeps the positive quantities.
unfoldable pub read_held : List Held → List Holding → Planned (List Held)
read_held held [] = planned held
read_held held (h ∷ hs) =
    if any (text_eq h.symbol) (symbols_held held)
    then raised (duplicate_holding h.symbol)
    else elim h.quantity [
      | negsuc n ↦ raised (negative_quantity h.symbol)
      | pos q ↦ elim (q == 0) [
        | true ↦ read_held held hs
        | false ↦ read_held (held ++ (record { symbol = h.symbol; quantity = q } ∷ [])) hs
      ]
    ]

-- `held.get(symbol, ZERO)` and `target_bps.get(symbol, 0)`
abbrev pub quantity_held : Text → List Held → ℕ
quantity_held symbol [] = 0
quantity_held symbol (h ∷ hs) =
    if text_eq h.symbol symbol then h.quantity else quantity_held symbol hs

abbrev pub weight_in : Text → List Weighted → ℕ
weight_in symbol [] = 0
weight_in symbol (w ∷ ws) = if text_eq w.symbol symbol then w.weight else weight_in symbol ws

abbrev pub symbols_weighted : List Weighted → List Text
symbols_weighted ws = map (λ w. w.symbol) ws

-- The held symbols that are not in the basket.
unfoldable pub fallen_out : List Weighted → List Held → List Text
fallen_out ws [] = []
fallen_out ws (h ∷ hs) =
    let rest = fallen_out ws hs in
    if any (text_eq h.symbol) (symbols_weighted ws) then rest else h.symbol ∷ rest

unfoldable pub universe : List Weighted → List Held → List Text
unfolding fallen_out
universe ws held = symbols_weighted ws ++ fallen_out ws held

-- `_price_for`
unfoldable pub price_for : Prices → Text → Planned Priced
price_for prices symbol = elim (prices symbol) [
  | none ↦ raised (no_price symbol)
  | some p ↦ elim p [
    | negsuc n ↦ raised (price_not_positive symbol)
    | pos n ↦
        if n == 0
        then raised (price_not_positive symbol)
        else planned (record { symbol = symbol; price = n })
  ]
]

unfoldable pub price_all : Prices → List Text → Planned (List Priced)
unfolding price_for
price_all prices [] = planned []
price_all prices (symbol ∷ symbols) =
    price_for prices symbol >>= λ first. price_all prices symbols >>= λ rest. planned (first ∷ rest)

-- `price_of[symbol]`, where it has the symbol.
abbrev pub price_in : Text → List Priced → ℕ
price_in symbol [] = 0
price_in symbol (p ∷ ps) = if text_eq p.symbol symbol then p.price else price_in symbol ps

-- `positions_value`, before it is rounded.
unfoldable pub positions_product : List Held → List Priced → ℕ
positions_product [] priced = 0
positions_product (h ∷ hs) priced =
    h.quantity * price_in h.symbol priced + positions_product hs priced

abbrev pub portfolio_of : ℕ → List Held → List Priced → ℕ
portfolio_of cash held priced = round_money (cash * one_share + positions_product held priced)

abbrev pub investable_of : ℕ → ℕ → ℕ
investable_of investment portfolio = min investment portfolio

abbrev pub deployable_of : ℕ → ℕ → ℕ
deployable_of investable buffer_bps = without_bps investable buffer_bps

abbrev pub reserved_of : ℕ → ℕ → ℕ
reserved_of investable buffer_bps = apply_bps investable buffer_bps

-- The entry of `drifts` for a symbol of the universe.
unfoldable pub drift_of : ℕ → List Held → List Weighted → Priced → Drift
drift_of deployable held ws p =
    let quantity = quantity_held p.symbol held in
    let weight = weight_in p.symbol ws in
    let current = value_of quantity p.price in
    record {
      symbol = p.symbol;
      price = p.price;
      current_quantity = quantity;
      current_value = current;
      target_value = apply_bps deployable weight;
      current_weight_bps = bps_of current deployable;
      target_weight_bps = weight;
    }

unfoldable pub drifts_for : ℕ → List Held → List Weighted → List Priced → List Drift
unfolding drift_of
drifts_for deployable held ws priced = map (drift_of deployable held ws) priced

-- `abs(drift_bps)`, of a difference of two weights.
abbrev pub distance : ℕ → ℕ → ℕ
distance a b = (a - b) + (b - a)

unfoldable pub largest_drift : List Drift → ℕ
largest_drift [] = 0
largest_drift (d ∷ ds) =
    let rest = largest_drift ds in
    let here = distance d.current_weight_bps d.target_weight_bps in
    if ltb rest here then here else rest
