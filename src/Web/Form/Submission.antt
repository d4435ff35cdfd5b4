-- ===== src/Web/Form/Submission.antt =====
-- The whole body that the form for a new bot submits, web/components/bot-form.tsx, as
-- `parseCreateBot` of supabase/functions/_shared/validation.ts reads it.
use rebalance_webull.Prelude.{
  ◌≡◌, refl, ap, true, false, ◌&&◌, not, Option, none, some, [], List, ℕ, ◌≤◌, codes, trim, map,
  length, if◌then◌else◌,
}
use rebalance_webull.Prelude.Trim.{trim-IsTrimmed, trim_of_IsTrimmed}
use rebalance_webull.Js.{Runtime, null, num, get, has_key, body_or_empty}
use rebalance_webull.Validation.Check.{normalise, string, finish}
use rebalance_webull.Validation.Bot.{
  TriggerType, schedule, drift, schedule_or_drift, is_drift, is_schedule, is_none, BotInput,
  name_options, amount_options, interval_options, threshold_options, min_order_options,
  buffer_options, read_bot_core, read_create_bot, parse_create_bot,
}
use rebalance_webull.Validation.Accept.{Accepts}
use rebalance_webull.Validation.Fields.{IsString, IsNumber, string_of_normal, number_of_IsNumber}
use rebalance_webull.Validation.Optional.{
  IsOptional, optional_json, nullable_number_of_IsOptional, read_boolean_of_get, one_of_of_trigger,
}
use rebalance_webull.Validation.Basket.{HasSymbols, Weighs}
use rebalance_webull.Web.Targets.{validate_targets}
use rebalance_webull.Web.Form.{BotForm, json_number, hundredfold, submitted, form_body}
use rebalance_webull.Web.Form.Agreement.{form_accepted}

module _ {N : Type 0} ⦃r : Runtime N⦄ where
  abbrev unless_drift : TriggerType → N → Option N
  unless_drift drift n = none
  unless_drift _ n = some n

  abbrev unless_schedule : TriggerType → N → Option N
  unless_schedule schedule n = none
  unless_schedule _ n = some n

  -- The bot that the form describes: in dollars, with the interval and the band that its trigger
  -- asks for, and percentages as basis points.
  abbrev pub bot_of : BotForm → BotInput N
  bot_of f = record {
    name = trim f.name;
    base_currency = codes "USD";
    investment_amount = r.number_of_text f.amount;
    trigger_type = f.trigger_type;
    interval_minutes = unless_drift f.trigger_type (r.number_of_text f.interval);
    drift_threshold_bps = unless_schedule f.trigger_type (hundredfold f.threshold);
    min_order_value = r.number_of_text f.min_order;
    cash_buffer_bps = hundredfold f.cash_buffer;
    allow_fractional = f.fractional;
  }

-- The fields are within the bounds of a new bot's, those that the trigger asks for.
pub record IsFilled {N : Type 0} (r : Runtime N) (f : BotForm) : Type 0 where
  pub name : IsString name_options (trim f.name)
  pub amount : IsNumber ⦃r = r⦄ (amount_options ⦃r = r⦄) (bot_of ⦃r = r⦄ f).investment_amount
  pub interval : IsOptional ⦃r = r⦄ (interval_options ⦃r = r⦄) (bot_of ⦃r = r⦄ f).interval_minutes
  pub threshold :
      IsOptional ⦃r = r⦄ (threshold_options ⦃r = r⦄) (bot_of ⦃r = r⦄ f).drift_threshold_bps
  pub min_order : IsNumber ⦃r = r⦄ (min_order_options ⦃r = r⦄) (bot_of ⦃r = r⦄ f).min_order_value
  pub buffer : IsNumber ⦃r = r⦄ (buffer_options ⦃r = r⦄) (bot_of ⦃r = r⦄ f).cash_buffer_bps

module _ {N : Type 0} ⦃r : Runtime N⦄ where
  json_number-finite : (n : N) → r.is_finite n ≡ true → json_number n ≡ num n
  json_number-finite n h = rw h refl

  interval_written :
      (t : TriggerType) (n : N)
      → IsOptional interval_options (unless_drift t n)
      → (if is_drift t then null else json_number n) ≡ optional_json (unless_drift t n)
  interval_written drift n h = refl
  interval_written schedule n h = json_number-finite n h.finite
  interval_written schedule_or_drift n h = json_number-finite n h.finite

  threshold_written :
      (t : TriggerType) (n : N)
      → IsOptional threshold_options (unless_schedule t n)
      → (if is_schedule t then null else json_number n) ≡ optional_json (unless_schedule t n)
  threshold_written schedule n h = refl
  threshold_written drift n h = json_number-finite n h.finite
  threshold_written schedule_or_drift n h = json_number-finite n h.finite

  interval_given :
      (t : TriggerType) (n : N) → (not (is_drift t) && is_none (unless_drift t n)) ≡ false
  interval_given schedule n = refl
  interval_given drift n = refl
  interval_given schedule_or_drift n = refl

  threshold_given :
      (t : TriggerType) (n : N) → (not (is_schedule t) && is_none (unless_schedule t n)) ≡ false
  threshold_given schedule n = refl
  threshold_given drift n = refl
  threshold_given schedule_or_drift n = refl

  form_name_read :
      (f : BotForm)
      → IsString name_options (trim f.name)
      → Accepts {N = N} (string (form_body f) "name" name_options) (trim f.name)
  unfolding form_body get normalise
  form_name_read f h =
      string_of_normal (form_body f) "name" name_options (trim f.name) refl
        (trim_of_IsTrimmed (trim f.name) (trim-IsTrimmed f.name)) h

  read_form :
      (f : BotForm) → IsFilled r f → Accepts {N = N} (read_bot_core (form_body f)) (bot_of f)
  unfolding form_body read_bot_core get has_key
  read_form f h =
      let input = form_body {N = N} f in
      let b : BotInput N = bot_of f in
      rw (
        form_name_read f h.name,
        number_of_IsNumber input "investment_amount" amount_options b.investment_amount
            (ap some (json_number-finite b.investment_amount h.amount.finite)) h.amount,
        one_of_of_trigger input "trigger_type" b.trigger_type refl,
        nullable_number_of_IsOptional input "interval_minutes" interval_options b.interval_minutes
            (ap some (interval_written f.trigger_type (r.number_of_text f.interval) h.interval))
            h.interval,
        nullable_number_of_IsOptional input "drift_threshold_bps" threshold_options
            b.drift_threshold_bps
            (ap some (threshold_written f.trigger_type (hundredfold f.threshold) h.threshold))
            h.threshold,
        number_of_IsNumber input "min_order_value" min_order_options b.min_order_value
            (ap some (json_number-finite b.min_order_value h.min_order.finite)) h.min_order,
        number_of_IsNumber input "cash_buffer_bps" buffer_options b.cash_buffer_bps
            (ap some (json_number-finite b.cash_buffer_bps h.buffer.finite)) h.buffer,
        read_boolean_of_get input "allow_fractional" false b.allow_fractional refl,
        interval_given f.trigger_type (r.number_of_text f.interval),
        threshold_given f.trigger_type (hundredfold f.threshold),
      )

  -- What the form submits, if its fields are within the bounds of a new bot's, its basket has at
  -- most 50 rows and is valid, the symbols have the pattern of a symbol and the percentages come
  -- to whole basis points from 0 to 10000, is parsed without an issue as the very bot and holdings
  -- that the form describes.
  pub parse_create_bot-form_body :
      (f : BotForm) (ws : List ℕ)
      → IsFilled r f
      → (validate_targets {N = N} f.targets).valid ≡ true
      → length f.targets ≤ 50
      → HasSymbols {N = N} (map submitted f.targets)
      → Weighs r (map submitted f.targets) ws
      → parse_create_bot {N = N} (form_body f)
        ≡ some (record { value = some (bot_of f, map submitted f.targets); issues = [] })
  unfolding parse_create_bot read_create_bot form_body get body_or_empty finish
  parse_create_bot-form_body f ws h valid few symbols weighed =
      rw (read_form f h, form_accepted N f.targets ws valid few symbols weighed) refl
