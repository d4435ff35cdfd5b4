-- ===== src/Validation/Bot.antt =====
-- The request bodies of supabase/functions/_shared/validation.ts: a new bot, a change of a bot,
-- credentials and a status action.
pub mod Sound
pub mod RoundTrip
use rebalance_webull.Prelude.{
  Bool, true, false, ◌&&◌, not, Option, none, some, List, [], ◌∷◌, String, Text, codes, length, all,
  leb, ◌==◌, if◌then◌else◌,
}
use rebalance_webull.Js.{Runtime, Json, get, has_key, body_or_empty}
use rebalance_webull.Validation.Check.{
  needs_an_interval, needs_a_threshold, at_field, Checked, pure, ◌>>=◌, ◌>>◌, add_if, StringOptions,
  NumberOptions, string, number, nullable_number, read_boolean, Choices, one_of, ValidationResult,
  finish,
}
use rebalance_webull.Validation.Targets.{Target, read_targets}

pub data TriggerType : Type 0 where
  schedule drift schedule_or_drift : TriggerType

-- TRIGGER_TYPES
abbrev pub trigger_types : Choices TriggerType
trigger_types = record {
  first = (codes "schedule", schedule);
  others = (codes "drift", drift) ∷ (codes "schedule_or_drift", schedule_or_drift) ∷ [];
}

-- CURRENCY_PATTERN, /^[A-Z]{3}$/
unfoldable pub currency_pattern : Text → Bool
currency_pattern t = length t == 3 && all (λ c. leb b'A' c && leb c b'Z') t

pub record BotInput (N : Type 0) : Type 0 where
  pub name : Text
  pub base_currency : Text
  pub investment_amount : N
  pub trigger_type : TriggerType
  pub interval_minutes : Option N
  pub drift_threshold_bps : Option N
  pub min_order_value : N
  pub cash_buffer_bps : N
  pub allow_fractional : Bool

abbrev pub name_options : StringOptions
name_options = record { min = 1; max = 60; pattern = none; upper = false }

abbrev pub currency_options : StringOptions
currency_options = record { min = 3; max = 3; pattern = some currency_pattern; upper = true }

abbrev pub is_schedule : TriggerType → Bool
is_schedule schedule = true
is_schedule _ = false

abbrev pub is_drift : TriggerType → Bool
is_drift drift = true
is_drift _ = false

abbrev pub is_none : {A : Type 0} → Option A → Bool
is_none none = true
is_none (some _) = false

module _ {N : Type 0} ⦃r : Runtime N⦄ where
  abbrev pub range : N → N → Bool → NumberOptions N
  range low high integer = record { min = some low; max = some high; integer = integer }

  abbrev pub amount_options : NumberOptions N
  amount_options = range r.hundredth (r.of_ℕ 1_000_000_000) false

  abbrev pub interval_options : NumberOptions N
  interval_options = range (r.of_ℕ 1) (r.of_ℕ 525600) true

  abbrev pub threshold_options : NumberOptions N
  threshold_options = range (r.of_ℕ 1) (r.of_ℕ 10000) true

  abbrev pub min_order_options : NumberOptions N
  min_order_options = range (r.of_ℕ 0) (r.of_ℕ 1_000_000) false

  abbrev pub buffer_options : NumberOptions N
  buffer_options = range (r.of_ℕ 0) (r.of_ℕ 10000) true

  -- `check.has(path) ? read : fallback`
  abbrev pub read_or : {A : Type 0} → Json N → String → Checked N A → A → Checked N A
  read_or input path read fallback = if has_key input path then read else pure fallback

  unfoldable pub read_bot_core : Json N → Checked N (BotInput N)
  read_bot_core input = do
    name ← string input "name" name_options
    currency ←
        read_or input "base_currency" (string input "base_currency" currency_options) (codes "USD")
    amount ← number input "investment_amount" amount_options
    trigger ← one_of input "trigger_type" trigger_types
    interval ← nullable_number input "interval_minutes" interval_options
    threshold ← nullable_number input "drift_threshold_bps" threshold_options
    min_order ←
        read_or input "min_order_value" (number input "min_order_value" min_order_options)
          (r.of_ℕ 10)
    buffer ←
        read_or input "cash_buffer_bps" (number input "cash_buffer_bps" buffer_options) (r.of_ℕ 0)
    fractional ← read_boolean input "allow_fractional" false
    add_if (not (is_drift trigger) && is_none interval) (at_field "interval_minutes")
        needs_an_interval
    add_if (not (is_schedule trigger) && is_none threshold) (at_field "drift_threshold_bps")
        needs_a_threshold
    pure (record {
      name = name;
      base_currency = currency;
      investment_amount = amount;
      trigger_type = trigger;
      interval_minutes = interval;
      drift_threshold_bps = threshold;
      min_order_value = min_order;
      cash_buffer_bps = buffer;
      allow_fractional = fractional;
    })

  -- `{ ...bot, targets }`
  unfoldable pub read_create_bot : Json N → Checked N (BotInput N × List (Target N))
  unfolding read_bot_core
  read_create_bot body = do
    let input = body_or_empty body
    bot ← read_bot_core input
    targets ← read_targets (get input "targets")
    pure (bot, targets)

  unfoldable pub parse_create_bot :
      Json N → Option (ValidationResult N (BotInput N × List (Target N)))
  unfolding read_create_bot
  parse_create_bot body = finish (read_create_bot body)
