-- ===== src/Engine/Planner/Inversion.antt =====
-- What a plan of `build_plan`, api/src/engine/rebalance.py, was made of.
use rebalance_webull.Prelude.{ℕ, ◌≡◌, refl, List, []}
use rebalance_webull.Engine.Money.{ℤ}
use rebalance_webull.Engine.Models.{
  EngineTarget, Holding, RebalanceSettings, RebalancePlan, RebalanceError, Planned, raised, planned,
}
use rebalance_webull.Engine.Planner.Inputs.{
  Weighted, Held, Priced, Prices, ◌>>=◌, validate_targets, read_held, universe, price_all,
}
use rebalance_webull.Engine.Planner.{plan_of, non_negative, positive_investment, build_plan}

pub planned-injective : {A : Type 0} {a b : A} → planned a ≡ planned b → a ≡ b
planned-injective e = cc

pub raised-planned : {A : Type 0} {e : RebalanceError} {a : A} → ¬ (raised e ≡ planned a)
raised-planned h = absurd cc

-- What a step gave to the steps after it.
pub record Passed {A B : Type 0} (x : Planned A) (f : A → Planned B) (b : B) : Type 0 where
  pub value : A
  pub given : x ≡ planned value
  pub after : f value ≡ planned b

pub bind-planned :
    {A B : Type 0} (x : Planned A) (f : A → Planned B) (b : B)
    → (x >>= f) ≡ planned b
    → Passed x f b
bind-planned (raised e) f b h = absurd cc
bind-planned (planned a) f b h = record { value = a; given = refl; after = h }

pub record Inputs (cash : ℤ) (holdings : List Holding) (targets : List EngineTarget)
    (prices : Prices) (settings : RebalanceSettings) (plan : RebalancePlan) : Type 0 where
  pub funds : ℕ
  pub investment : ℕ
  pub weights : List Weighted
  pub held : List Held
  pub priced : List Priced
  pub of_cash : non_negative cash ≡ planned funds
  pub of_investment : positive_investment settings.investment_amount ≡ planned investment
  pub of_targets : validate_targets targets ≡ planned weights
  pub of_holdings : read_held [] holdings ≡ planned held
  pub of_prices : price_all prices (universe weights held) ≡ planned priced
  pub is_plan : plan_of settings investment funds held weights priced ≡ plan

pub build_plan-planned :
    (cash : ℤ) (holdings : List Holding) (targets : List EngineTarget) (prices : Prices)
    (settings : RebalanceSettings) (plan : RebalancePlan)
    → build_plan cash holdings targets prices settings ≡ planned plan
    → Inputs cash holdings targets prices settings plan
unfolding build_plan
build_plan-planned cash holdings targets prices settings plan e =
    let a = bind-planned _ _ plan e in
    let b = bind-planned _ _ plan a.after in
    let c = bind-planned _ _ plan b.after in
    let d = bind-planned _ _ plan c.after in
    let f = bind-planned _ _ plan d.after in
    record {
      funds = a.value;
      investment = b.value;
      weights = c.value;
      held = d.value;
      priced = f.value;
      of_cash = a.given;
      of_investment = b.given;
      of_targets = c.given;
      of_holdings = d.given;
      of_prices = f.given;
      is_plan = planned-injective f.after;
    }
