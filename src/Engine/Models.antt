-- ===== src/Engine/Models.antt =====
-- The value objects of the engine, api/src/engine/models.py, and the errors of
-- api/src/engine/rebalance.py. A reason holds what its text is made of.
use rebalance_webull.Prelude.{ℕ, Bool, Option, List, Text}
use rebalance_webull.Engine.Money.{ℤ}

pub data Side : Type 0 where
  buy sell : Side

pub record Holding : Type 0 where
  pub symbol : Text
  pub quantity : ℤ

pub record EngineTarget : Type 0 where
  pub symbol : Text
  pub weight_bps : ℤ

pub record RebalanceSettings : Type 0 where
  pub investment_amount : ℤ
  pub min_order_value : ℕ
  pub cash_buffer_bps : ℕ
  pub allow_fractional : Bool
  pub max_orders : ℕ

pub record Drift : Type 0 where
  pub symbol : Text
  pub price : ℕ
  pub current_quantity : ℕ
  pub current_value : ℕ
  pub target_value : ℕ
  pub current_weight_bps : ℕ
  pub target_weight_bps : ℕ

-- Why an order was planned, by the two weights whose difference is the drift, or not placed.
pub data Reason : Type 0 where
  overweight underweight : ℕ → ℕ → Reason
  not_in_basket : Reason
  no_whole_share : ℕ → ℕ → Reason
  below_minimum : ℕ → ℕ → Reason
  no_cash_left : Reason
  run_capped : ℕ → Reason

pub record PlannedOrder : Type 0 where
  pub symbol : Text
  pub side : Side
  pub quantity : ℕ
  pub price : ℕ
  pub estimated_value : ℕ
  pub reason : Reason

pub record SkippedOrder : Type 0 where
  pub symbol : Text
  pub side : Side
  pub intended_value : ℕ
  pub reason : Reason

pub record RebalancePlan : Type 0 where
  pub orders : List PlannedOrder
  pub skipped : List SkippedOrder
  pub drifts : List Drift
  pub portfolio_value : ℕ
  pub investable_value : ℕ
  pub deployable_value : ℕ
  pub cash_before : ℕ
  pub projected_cash_after : ℕ
  pub max_drift_bps : ℕ

-- `RebalanceError`, by its message.
pub data RebalanceError : Type 0 where
  no_targets : RebalanceError
  duplicate_target weight_outside duplicate_holding negative_quantity : Text → RebalanceError
  no_price price_not_positive : Text → RebalanceError
  wrong_total : ℕ → RebalanceError
  negative_cash no_investment : RebalanceError

-- A value, or the error that was raised.
pub data Planned (A : Type 0) : Type 0 where
  raised : RebalanceError → Planned A
  planned : A → Planned A

pub data EngineTrigger : Type 0 where
  schedule drift schedule_or_drift : EngineTrigger

pub data EngineStatus : Type 0 where
  draft running paused stopped : EngineStatus

-- What the reason of a decision is made of: the status, the time of the next run, or the drift and
-- the threshold.
pub data TriggerReason : Type 0 where
  not_running : EngineStatus → TriggerReason
  interval_elapsed : TriggerReason
  next_scheduled : Option ℕ → TriggerReason
  drift_reached drift_below : Option ℕ → Option ℕ → TriggerReason
  drift_below_and_next : Option ℕ → Option ℕ → Option ℕ → TriggerReason

pub record TriggerDecision : Type 0 where
  pub should_run : Bool
  pub reason : TriggerReason
