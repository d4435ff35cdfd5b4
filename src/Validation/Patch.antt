-- ===== src/Validation/Patch.antt =====
-- `parseUpdateBot` of supabase/functions/_shared/validation.ts: a change of some fields of a bot.
-- A field of the patch that the source leaves out is `none`.
pub mod Sound
use rebalance_webull.Prelude.{Bool, true, false, Option, none, some, List, String, Text}
use rebalance_webull.Js.{Runtime, Json, get, has_key, body_or_empty}
use rebalance_webull.Validation.Check.{
  Checked, pure, ◌>>=◌, string, number, nullable_number, read_boolean, one_of, ValidationResult,
  finish,
}
use rebalance_webull.Validation.Targets.{Target, read_targets}
use rebalance_webull.Validation.Bot.{
  TriggerType, trigger_types, name_options, currency_options, amount_options, interval_options,
  threshold_options, min_order_options, buffer_options,
}

pub record BotPatch (N : Type 0) : Type 0 where
  pub name : Option Text
  pub base_currency : Option Text
  pub investment_amount : Option N
  pub trigger_type : Option TriggerType
  pub interval_minutes : Option (Option N)
  pub drift_threshold_bps : Option (Option N)
  pub min_order_value : Option N
  pub cash_buffer_bps : Option N
  pub allow_fractional : Option Bool

abbrev pub given : {N A : Type 0} → Bool → Checked N A → Checked N (Option A)
given true read = read >>= λ a. pure (some a)
given false read = pure none

-- `if (check.has(path)) patch[path] = read`
abbrev pub read_given : {N A : Type 0} → Json N → String → Checked N A → Checked N (Option A)
read_given input path read = given (has_key input path) read

module _ {N : Type 0} ⦃r : Runtime N⦄ where
  unfoldable pub read_update_bot : Json N → Checked N (BotPatch N × Option (List (Target N)))
  read_update_bot body = do
    let input = body_or_empty body
    name ← read_given input "name" (string input "name" name_options)
    currency ← read_given input "base_currency" (string input "base_currency" currency_options)
    amount ← read_given input "investment_amount" (number input "investment_amount" amount_options)
    trigger ← read_given input "trigger_type" (one_of input "trigger_type" trigger_types)
    interval ←
        read_given input "interval_minutes"
          (nullable_number input "interval_minutes" interval_options)
    threshold ←
        read_given input "drift_threshold_bps"
          (nullable_number input "drift_threshold_bps" threshold_options)
    min_order ←
        read_given input "min_order_value" (number input "min_order_value" min_order_options)
    buffer ← read_given input "cash_buffer_bps" (number input "cash_buffer_bps" buffer_options)
    fractional ← read_given input "allow_fractional" (read_boolean input "allow_fractional" false)
    targets ← read_given input "targets" (read_targets (get input "targets"))
    pure (
      record {
        name = name;
        base_currency = currency;
        investment_amount = amount;
        trigger_type = trigger;
        interval_minutes = interval;
        drift_threshold_bps = threshold;
        min_order_value = min_order;
        cash_buffer_bps = buffer;
        allow_fractional = fractional;
      },
      targets,
    )

  unfoldable pub parse_update_bot :
      Json N → Option (ValidationResult N (BotPatch N × Option (List (Target N))))
  unfolding read_update_bot
  parse_update_bot body = finish (read_update_bot body)
