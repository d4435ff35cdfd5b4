-- ===== src/Engine/Planner/Accounted.antt =====
-- How the orders and the skipped orders of a plan of api/src/engine/rebalance.py answer for its
-- drifts.
use mathlib.Core.Path.{subst}
use rebalance_webull.Prelude.{
  ℕ, zero, suc, ◌+◌, ◌-◌, ◌≡◌, inl, inr, refl, ap, sym, ◌∙◌, false, List, [], ◌∷◌, ◌++◌, map, take,
  drop, Text, text_eq, arith, ltb, leb, ◌==◌, if◌then◌else◌, Bool-cases,
}
use rebalance_webull.Engine.Money.{ℤ, value_of}
use rebalance_webull.Engine.Models.{
  RebalanceSettings, Drift, PlannedOrder, SkippedOrder, RebalancePlan, EngineTarget, Holding,
  planned,
}
use rebalance_webull.Engine.Planner.Inputs.{Prices, Held, Weighted, Priced, universe, reserved_of}
use rebalance_webull.Engine.Planner.Trades.{
  Considered, settled, skip, place, placed, skips, sum_values, shares_for, sell_quantity,
  consider_sell, sells_considered, drift_less, insert_drift, sort_drifts, below_target,
  buy_candidates, consider_buy, left_after, buys_considered,
}
use rebalance_webull.Engine.Planner.Placed.{affordable_of}
use rebalance_webull.Engine.Planner.Symbols.{
  times, times-map_append, symbols_drifted, IsDistinct, validate_targets-IsDistinct,
  read_held-IsDistinct, universe-IsDistinct, price_all-symbols, symbols_drifted-drifts_for,
}
use rebalance_webull.Engine.Planner.Inversion.{build_plan-planned}
use rebalance_webull.Engine.Planner.{deferred, plan_of, build_plan}

abbrev pub symbols_ordered : List PlannedOrder → List Text
symbols_ordered os = map (λ o. o.symbol) os

abbrev pub symbols_skipped : List SkippedOrder → List Text
symbols_skipped ss = map (λ s. s.symbol) ss

-- The drifts whose value is not their target.
abbrev pub off_target : List Drift → List Drift
off_target [] = []
off_target (d ∷ ds) =
    let rest = off_target ds in if d.current_value == d.target_value then rest else d ∷ rest

-- How often what became of the drifts is about a symbol.
abbrev answered : Text → List Considered → ℕ
answered symbol cs =
    times symbol (symbols_ordered (placed cs)) + times symbol (symbols_skipped (skips cs))

abbrev above_target : List Drift → List Drift
above_target [] = []
above_target (d ∷ ds) =
    let rest = above_target ds in if leb d.current_value d.target_value then rest else d ∷ rest

times-off_target :
    (s : Text) (ds : List Drift)
    → times s (symbols_drifted (off_target ds))
      ≡ times s (symbols_drifted (above_target ds)) + times s (symbols_drifted (below_target ds))
unfolding below_target
times-off_target s [] = refl
times-off_target s (d ∷ ds) = ground (arith, times-off_target s ds)

-- A drift was answered for by an order or a skipped order of its symbol.
abbrev AnswersFor : Text → Considered → Type 0
AnswersFor symbol settled = ⊥
AnswersFor symbol (skip s) = s.symbol ≡ symbol
AnswersFor symbol (place o) = o.symbol ≡ symbol

answered-cons :
    (s symbol : Text) (c : Considered) (cs : List Considered)
    → AnswersFor symbol c
    → answered s (c ∷ cs) ≡ times s (symbol ∷ []) + answered s cs
answered-cons s symbol settled cs h = absurd h
answered-cons s symbol (skip k) cs h =
    let same : text_eq s k.symbol ≡ text_eq s symbol = ap (λ x. text_eq s x) h in
    ground (arith, same)
answered-cons s symbol (place o) cs h =
    let same : text_eq s o.symbol ≡ text_eq s symbol = ap (λ x. text_eq s x) h in
    ground (arith, same)

consider_sell-AnswersFor :
    (settings : RebalanceSettings) (d : Drift)
    → leb d.current_value d.target_value ≡ false
    → AnswersFor d.symbol (consider_sell settings d)
unfolding consider_sell
consider_sell-AnswersFor settings d h =
    let quantity = sell_quantity settings d in
    rw h (elim (Bool-cases (quantity == 0)) [
      | inl i ↦ rw i refl
      | inr i ↦ rw i (elim (Bool-cases (ltb (value_of quantity d.price) settings.min_order_value)) [
        | inl j ↦ rw j refl
        | inr j ↦ rw j refl
      ])
    ])

consider_buy-AnswersFor :
    (settings : RebalanceSettings) (remaining : ℕ) (d : Drift)
    → AnswersFor d.symbol (consider_buy settings remaining d)
unfolding consider_buy
consider_buy-AnswersFor settings remaining d =
    let affordable = affordable_of remaining d in
    let quantity = shares_for settings affordable d.price in
    elim (Bool-cases (affordable == 0)) [
      | inl h ↦ rw h refl
      | inr h ↦ rw h (elim (Bool-cases (quantity == 0)) [
        | inl i ↦ rw i refl
        | inr i ↦
            rw i (elim (Bool-cases (ltb (value_of quantity d.price) settings.min_order_value)) [
              | inl j ↦ rw j refl
              | inr j ↦ rw j refl
            ])
      ])
    ]

sells-answered :
    (s : Text) (settings : RebalanceSettings) (ds : List Drift)
    → answered s (sells_considered settings ds) ≡ times s (symbols_drifted (above_target ds))
unfolding sells_considered consider_sell
sells-answered s settings [] = refl
sells-answered s settings (d ∷ ds) = elim (Bool-cases (leb d.current_value d.target_value)) [
  | inl h ↦ rw h (sells-answered s settings ds)
  | inr h ↦
      let first =
        answered-cons s d.symbol (consider_sell settings d) (sells_considered settings ds)
          (consider_sell-AnswersFor settings d h) in
      first ∙ rw h (omega (arith, sells-answered s settings ds))
]

buys-answered :
    (s : Text) (settings : RebalanceSettings) (remaining : ℕ) (ds : List Drift)
    → answered s (buys_considered settings remaining ds) ≡ times s (symbols_drifted ds)
unfolding buys_considered
buys-answered s settings remaining [] = refl
buys-answered s settings remaining (d ∷ ds) =
    let first = consider_buy settings remaining d in
    let rest = left_after remaining first in
    omega (
      arith,
      answered-cons s d.symbol first (buys_considered settings rest ds)
          (consider_buy-AnswersFor settings remaining d),
      buys-answered s settings rest ds,
    )

times-insert_drift :
    (s : Text) (d : Drift) (ds : List Drift)
    → times s (symbols_drifted (insert_drift d ds)) ≡ times s (symbols_drifted (d ∷ ds))
unfolding insert_drift
times-insert_drift s d [] = refl
times-insert_drift s d (e ∷ es) = elim (Bool-cases (drift_less e d)) [
  | inl h ↦ rw h (omega (arith, times-insert_drift s d es))
  | inr h ↦ rw h refl
]

times-sort_drifts :
    (s : Text) (ds : List Drift)
    → times s (symbols_drifted (sort_drifts ds)) ≡ times s (symbols_drifted ds)
unfolding sort_drifts
times-sort_drifts s [] = refl
times-sort_drifts s (d ∷ ds) =
    omega (arith, times-insert_drift s d (sort_drifts ds), times-sort_drifts s ds)

times-take :
    (s : Text) (cap limit : ℕ) (os : List PlannedOrder)
    → times s (symbols_ordered (take cap os))
        + times s (symbols_skipped (deferred limit (drop cap os)))
      ≡ times s (symbols_ordered os)
times-take s zero limit [] = refl
times-take s zero limit (o ∷ os) = omega (arith, times-take s zero limit os)
times-take s (suc cap) limit [] = refl
times-take s (suc cap) limit (o ∷ os) = omega (arith, times-take s cap limit os)

-- What is proved of the answers of a plan.
abbrev pub IsAccounted : RebalancePlan → Type 0
IsAccounted plan =
    ((symbol : Text)
      → times symbol (symbols_ordered plan.orders) + times symbol (symbols_skipped plan.skipped)
        ≡ times symbol (symbols_drifted (off_target plan.drifts)))
    × IsDistinct (symbols_drifted plan.drifts)

plan_of-answers :
    (s : Text) (settings : RebalanceSettings) (investment cash : ℕ) (held : List Held)
    (weights : List Weighted) (priced : List Priced)
    → let plan = plan_of settings investment cash held weights priced in
      times s (symbols_ordered plan.orders) + times s (symbols_skipped plan.skipped)
      ≡ times s (symbols_drifted (off_target plan.drifts))
unfolding plan_of buy_candidates
plan_of-answers s settings investment cash held weights priced =
    let plan = plan_of settings investment cash held weights priced in
    let cap = settings.max_orders in
    let sold = sells_considered settings plan.drifts in
    let budget =
      (cash + sum_values (placed sold))
      - reserved_of plan.investable_value settings.cash_buffer_bps in
    let candidates = buy_candidates plan.drifts in
    let bought = buys_considered settings budget candidates in
    let ordered = placed sold ++ placed bought in
    let of_order : PlannedOrder → Text = λ o. o.symbol in
    let of_skip : SkippedOrder → Text = λ k. k.symbol in
    omega (
      arith,
      times-off_target s plan.drifts,
      sells-answered s settings plan.drifts,
      buys-answered s settings budget candidates,
      times-sort_drifts s (below_target plan.drifts),
      times-take s cap cap ordered,
      times-map_append s of_order (placed sold) (placed bought),
      times-map_append s of_skip (skips sold ++ skips bought) (deferred cap (drop cap ordered)),
      times-map_append s of_skip (skips sold) (skips bought),
    )

-- Each symbol of a plan that is off its target is answered for exactly once, by an order or by an
-- entry of the skipped orders, and no other symbol is: the orders and the skipped orders about any
-- symbol are together as many as the drifts of that symbol whose value is not their target, and no
-- symbol has two drifts.
pub build_plan-IsAccounted :
    (cash : ℤ) (holdings : List Holding) (targets : List EngineTarget) (prices : Prices)
    (settings : RebalanceSettings) (plan : RebalancePlan)
    → build_plan cash holdings targets prices settings ≡ planned plan
    → IsAccounted plan
unfolding plan_of
build_plan-IsAccounted cash holdings targets prices settings plan e =
    let i = build_plan-planned cash holdings targets prices settings plan e in
    let distinct =
      universe-IsDistinct i.weights i.held
        (validate_targets-IsDistinct targets i.weights i.of_targets)
        (read_held-IsDistinct [] holdings i.held (λ s. omega arith) i.of_holdings) in
    let made = plan_of settings i.investment i.funds i.held i.weights i.priced in
    let same : symbols_drifted made.drifts ≡ universe i.weights i.held =
      symbols_drifted-drifts_for made.deployable_value i.held i.weights i.priced
      ∙ price_all-symbols prices (universe i.weights i.held) i.priced i.of_prices in
    subst IsAccounted i.is_plan (
      λ s. plan_of-answers s settings i.investment i.funds i.held i.weights i.priced,
      subst IsDistinct (sym same) distinct,
    )
