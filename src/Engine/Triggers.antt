-- ===== src/Engine/Triggers.antt =====
-- When a bot is due, api/src/engine/triggers.py. A time is the number of microseconds of its
-- instant in UTC, which `_as_utc` settles, from a fixed one before all of them.
pub mod Due
use rebalance_webull.Prelude.{
  ℕ, ◌+◌, ◌*◌, Bool, true, false, ◌&&◌, Option, none, some, leb, ◌==◌, if◌then◌else◌,
}
use rebalance_webull.Engine.Models.{
  EngineTrigger, schedule, drift, schedule_or_drift, EngineStatus, draft, running, paused, stopped,
  TriggerReason, not_running, interval_elapsed, next_scheduled, drift_reached, drift_below,
  drift_below_and_next, TriggerDecision,
}

-- `next_run_after`
unfoldable pub next_run_after : ℕ → Option ℕ → Option ℕ
next_run_after now none = none
next_run_after now (some minutes) = if minutes == 0 then none else some (now + minutes * 60_000_000)

abbrev decide : Bool → TriggerReason → TriggerDecision
decide b reason = record { should_run = b; reason = reason }

abbrev pub is_running : EngineStatus → Bool
is_running running = true
is_running draft = false
is_running paused = false
is_running stopped = false

abbrev pub by_schedule : EngineTrigger → Bool
by_schedule schedule = true
by_schedule drift = false
by_schedule schedule_or_drift = true

abbrev pub by_drift : EngineTrigger → Bool
by_drift schedule = false
by_drift drift = true
by_drift schedule_or_drift = true

-- `next_run_at is None or now >= _as_utc(next_run_at)`
abbrev pub reached : ℕ → Option ℕ → Bool
reached now none = true
reached now (some at) = leb at now

abbrev pub at_least : Option ℕ → Option ℕ → Bool
at_least none threshold = false
at_least (some d) none = false
at_least (some d) (some t) = leb t d

-- What `evaluate_trigger` answers of the trigger, from `schedule_due` and `drift_breached`.
abbrev pub by_type : EngineTrigger → Bool → Bool → Option ℕ → Option ℕ → Option ℕ → TriggerDecision
by_type schedule due breached next_run_at largest_drift threshold =
    if due then decide true interval_elapsed else decide false (next_scheduled next_run_at)
by_type drift due breached next_run_at largest_drift threshold =
    if breached
    then decide true (drift_reached largest_drift threshold)
    else decide false (drift_below largest_drift threshold)
by_type schedule_or_drift due breached next_run_at largest_drift threshold =
    if breached
    then decide true (drift_reached largest_drift threshold)
    else if due
    then decide true interval_elapsed
    else decide false (drift_below_and_next largest_drift threshold next_run_at)

unfoldable pub evaluate_trigger :
    EngineStatus → EngineTrigger → ℕ → Option ℕ → Option ℕ → Option ℕ → TriggerDecision
evaluate_trigger status trigger now next_run_at largest_drift threshold =
    let due = by_schedule trigger && reached now next_run_at in
    let breached = by_drift trigger && at_least largest_drift threshold in
    if is_running status
    then by_type trigger due breached next_run_at largest_drift threshold
    else decide false (not_running status)
