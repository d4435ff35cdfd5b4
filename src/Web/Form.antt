-- ===== src/Web/Form.antt =====
-- The body that the form for a new bot submits, web/components/bot-form.tsx.
pub mod Agreement
pub mod Submission
use rebalance_webull.Prelude.{
  ℕ, ◌≡◌, Bool, true, false, Option, none, some, List, [], ◌∷◌, Text, trim, codes, map,
  if◌then◌else◌,
}
use rebalance_webull.Js.{
  Runtime, Json, null, boolean, num, str, arr, obj, Items, nil, cons, Fields, end, field,
}
use rebalance_webull.Validation.Targets.{Target}
use rebalance_webull.Validation.Bot.{
  TriggerType, schedule, drift, schedule_or_drift, is_drift, is_schedule,
}
use rebalance_webull.Validation.Optional.{trigger_text}
use rebalance_webull.Web.Targets.{TargetInput, percent_to_bps, symbol_of}

-- The fields of the form; the trigger type is one of the three options of a `Select`.
pub record BotForm : Type 0 where
  pub name : Text
  pub amount : Text
  pub trigger_type : TriggerType
  pub interval : Text
  pub threshold : Text
  pub min_order : Text
  pub cash_buffer : Text
  pub fractional : Bool
  pub targets : List TargetInput

module _ {N : Type 0} ⦃r : Runtime N⦄ where
  -- `JSON.stringify` writes a number that is not finite as null.
  abbrev pub json_number : N → Json N
  json_number n = if r.is_finite n then num n else null

  -- `Math.round(Number(text) * 100)`
  abbrev pub hundredfold : Text → N
  hundredfold t = r.round (r.mul (r.number_of_text t) (r.of_ℕ 100))

  abbrev pub submitted : TargetInput → Target N
  submitted t = record { symbol = symbol_of r t; weight_bps = percent_to_bps t.percent }

  -- `targets.map(…)`, as JSON.
  unfoldable pub form_items : List TargetInput → Items N
  form_items [] = nil
  form_items (t ∷ ts) =
      cons
        (obj (
          field "symbol" (str (submitted t).symbol)
            (field "weight_bps" (json_number (submitted t).weight_bps) end)))
        (form_items ts)

  -- The argument of `api.createBot`.
  unfoldable pub form_body : BotForm → Json N
  unfolding form_items
  form_body f = obj (
      field "name" (str (trim f.name)) (
        field "investment_amount" (json_number (r.number_of_text f.amount)) (
          field "trigger_type" (str (trigger_text f.trigger_type)) (
            field "interval_minutes"
              (if is_drift f.trigger_type then null else json_number (r.number_of_text f.interval))
              (field "drift_threshold_bps"
                (if is_schedule f.trigger_type then null else json_number (hundredfold f.threshold))
                (field "min_order_value" (json_number (r.number_of_text f.min_order)) (
                  field "cash_buffer_bps" (json_number (hundredfold f.cash_buffer)) (
                    field "allow_fractional" (boolean f.fractional)
                      (field "targets" (arr (form_items f.targets)) end)))))))))
