-- ===== src/Database/Running.antt =====
-- The planner of api/src/engine/rebalance.py on the bots that supabase/migrations stores, which
-- api/src/engine/repo.py reads.
use mathlib.Core.Path.{subst}
use mathlib.Core.List.{Perm}
use rebalance_webull.Prelude.{
  ℕ, zero, suc, ◌+◌, ◌≤◌, ◌≡◌, ◌⊎◌, inl, inr, refl, ◌∙◌, true, false, List, [], ◌∷◌, Text, text_eq,
  any, map, All, arith, Bool-cases,
}
use rebalance_webull.Engine.Money.{ℤ, pos, negsuc}
use rebalance_webull.Engine.Models.{Holding, RebalanceSettings, RebalancePlan, planned}
use rebalance_webull.Engine.Planner.Inputs.{Prices, Weighted, total_weight, symbols_weighted}
use rebalance_webull.Engine.Planner.Symbols.{times, IsDistinct, IsDistinct-cons}
use rebalance_webull.Engine.Planner.Total.{
  to_target, validate_targets-Perm, build_plan-planned, symbols_of, AreHoldings, IsPriced,
}
use rebalance_webull.Engine.Planner.{build_plan}
use rebalance_webull.Database.Rows.{
  Postgres, BotRecord, TargetRecord, Tables, is_at_least, bot_checks, of_bot, targets_of,
  is_balanced, sum_weights,
}
use rebalance_webull.Database.Procedures.{symbol_taken, has_none, is_running_status}
use rebalance_webull.Database.Owners.{IsUnique, text_eq_of}
use rebalance_webull.Database.Consistent.{IsSound, IsConsistent}

abbrev pub to_weighted : TargetRecord → Weighted
to_weighted t = record { symbol = t.symbol; weight = t.target_weight_bps }

-- An amount that a check keeps from being negative.
abbrev magnitude : ℤ → ℕ
magnitude (pos n) = n
magnitude (negsuc n) = 0

-- The settings of `_to_spec`.
abbrev pub to_settings : ℕ → BotRecord → RebalanceSettings
to_settings max_orders b = record {
  investment_amount = b.investment_amount;
  min_order_value = magnitude b.min_order_value;
  cash_buffer_bps = magnitude b.cash_buffer_bps;
  allow_fractional = b.allow_fractional;
  max_orders = max_orders;
}

-- A row is one of the table.
abbrev pub IsIn : BotRecord → List BotRecord → Type 0
IsIn b [] = ⊥
IsIn b (c ∷ cs) = (c ≡ b) ⊎ IsIn b cs

untaken :
    (id : Text) (t : TargetRecord) (ts : List TargetRecord)
    → of_bot id t ≡ true
    → symbol_taken t ts ≡ false
    → any (text_eq t.symbol) (symbols_weighted (map to_weighted (targets_of id ts))) ≡ false
unfolding targets_of
untaken id t [] o h = refl
untaken id t (u ∷ us) o h =
    let same : id ≡ t.bot_id = text_eq_of id t.bot_id o in
    elim (Bool-cases (of_bot id u)) [
      | inl here ↦
          let both : text_eq t.bot_id u.bot_id ≡ true =
            subst (λ x. text_eq x u.bot_id ≡ true) same here in
          rw here (ground (arith, h, both, untaken id t us o))
      | inr other ↦ rw other (ground (arith, h, untaken id t us o))
    ]

IsDistinct-targets_of :
    (id : Text) (ts : List TargetRecord)
    → IsUnique ts
    → IsDistinct (symbols_weighted (map to_weighted (targets_of id ts)))
unfolding targets_of
IsDistinct-targets_of id [] h s = omega arith
IsDistinct-targets_of id (t ∷ ts) h s = elim (Bool-cases (of_bot id t)) [
  | inl here ↦ rw here (
      IsDistinct-cons t.symbol (symbols_weighted (map to_weighted (targets_of id ts)))
        (untaken id t ts here h.0) (IsDistinct-targets_of id ts h.1) s)
  | inr other ↦ rw other (IsDistinct-targets_of id ts h.1 s)
]

total_weight-rows : (ts : List TargetRecord) → total_weight (map to_weighted ts) ≡ sum_weights ts
total_weight-rows [] = refl
total_weight-rows (t ∷ ts) = omega (arith, total_weight-rows ts)

total_weight-stocked :
    (ts : List TargetRecord)
    → is_balanced ts ≡ true
    → has_none ts ≡ false
    → total_weight (map to_weighted ts) ≡ 10000
total_weight-stocked [] b e = absurd (ground (arith, e))
total_weight-stocked (t ∷ ts) b e = total_weight-rows (t ∷ ts) ∙ ground (arith, b)

at_least_one : (z : ℤ) → is_at_least 1 z ≡ true → (n : ℕ) × (z ≡ pos (suc n))
at_least_one (pos zero) h = absurd (ground (arith, h))
at_least_one (pos (suc n)) h = (n, refl)
at_least_one (negsuc n) h = absurd (ground (arith, h))

invested :
    {N : Type 0} (pg : Postgres N) (b : BotRecord)
    → bot_checks pg b ≡ true
    → (n : ℕ) × (b.investment_amount ≡ pos (suc n))
unfolding bot_checks
invested pg b h =
    let positive : is_at_least 1 b.investment_amount ≡ true = ground (arith, h) in
    at_least_one b.investment_amount positive

IsIn-IsSound :
    {N : Type 0} (pg : Postgres N) (b : BotRecord) (bs : List BotRecord) (ts : List TargetRecord)
    → IsIn b bs
    → All (λ c. IsSound pg c ts) bs
    → IsSound pg b ts
IsIn-IsSound pg b [] ts m s = absurd m
IsIn-IsSound pg b (c ∷ cs) ts (inl same) s = subst (λ x. IsSound pg x ts) same s.0
IsIn-IsSound pg b (c ∷ cs) ts (inr later) s = IsIn-IsSound pg b cs ts later s.1

-- The planner plans for every bot that runs: where the tables are consistent, it raises no error on
-- the settings of the bot and its targets, read in any order, if the broker reports cash and
-- positions that are not negative, no position twice, and a positive price of each symbol of the
-- targets and of the positions.
pub running-planned :
    {N : Type 0} (pg : Postgres N) (db : Tables) (b : BotRecord) (max_orders : ℕ)
    (stored : List Weighted) (cash : ℕ) (holdings : List Holding) (prices : Prices)
    → IsConsistent pg db
    → IsIn b db.bots
    → is_running_status b.status ≡ true
    → Perm stored (map to_weighted (targets_of b.id db.targets))
    → AreHoldings holdings
    → ((s : Text)
        → 1 ≤ times s (symbols_weighted stored) + times s (symbols_of holdings)
        → IsPriced prices s)
    → (plan : RebalancePlan) × (build_plan
          (pos cash)
          holdings
          (map to_target stored)
          prices
          (to_settings max_orders b)
        ≡ planned plan)
running-planned pg db b max_orders stored cash holdings prices c m running p h priced =
    let sound = IsIn-IsSound pg b db.bots db.targets m c.sound in
    let amount = invested pg b sound.0 in
    let rows = targets_of b.id db.targets in
    build_plan-planned stored
      (validate_targets-Perm stored (map to_weighted rows) p
        (IsDistinct-targets_of b.id db.targets c.unique)
        (total_weight-stocked rows sound.1 (sound.2 running)))
      cash amount.0 holdings prices (to_settings max_orders b) h priced amount.1
