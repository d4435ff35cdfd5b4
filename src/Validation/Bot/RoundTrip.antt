-- ===== src/Validation/Bot/RoundTrip.antt =====
-- A bot, written as JSON, is read back by `parseCreateBot` of validation.ts.

use rebalance_webull.Prelude.{
  ◌≡◌, refl, true, false, ◌&&◌, not, some, List, [], Text, all, leb, arith,
}
use rebalance_webull.Prelude.Trim.{IsTrimmed, trim_of_IsTrimmed}
use rebalance_webull.Js.{
  Runtime, Json, str, num, boolean, obj, Fields, field, end, get, has_key, body_or_empty,
}
use rebalance_webull.Validation.Check.{normalise, string, finish}
use rebalance_webull.Validation.Targets.{Target}
use rebalance_webull.Validation.Bot.{
  is_drift, is_schedule, is_none, BotInput, currency_pattern, name_options, currency_options,
  amount_options, interval_options, threshold_options, min_order_options, buffer_options,
  read_bot_core, read_create_bot, parse_create_bot,
}
use rebalance_webull.Validation.Accept.{Accepts}
use rebalance_webull.Validation.Plain.{is_plain, upper_of_plain, all-weaken}
use rebalance_webull.Validation.Fields.{IsString, string_of_normal, number_of_IsNumber}
use rebalance_webull.Validation.Optional.{
  optional_json, nullable_number_of_IsOptional, read_boolean_of_get, trigger_text,
  one_of_of_trigger,
}
use rebalance_webull.Validation.Basket.{IsBasket}
use rebalance_webull.Validation.Basket.Complete.{targets_json, read_targets_of_IsBasket}
use rebalance_webull.Validation.Bot.Sound.{IsBot}

-- The body that describes a bot and its holdings.
abbrev pub bot_fields : {N : Type 0} → BotInput N → List (Target N) → Fields N
bot_fields b ts = field "name" (str b.name) (
    field "base_currency" (str b.base_currency) (
      field "investment_amount" (num b.investment_amount) (
        field "trigger_type" (str (trigger_text b.trigger_type)) (
          field "interval_minutes" (optional_json b.interval_minutes) (
            field "drift_threshold_bps" (optional_json b.drift_threshold_bps) (
              field "min_order_value" (num b.min_order_value) (
                field "cash_buffer_bps" (num b.cash_buffer_bps) (
                  field "allow_fractional" (boolean b.allow_fractional)
                    (field "targets" (targets_json ts) end)))))))))

abbrev pub bot_json : {N : Type 0} → BotInput N → List (Target N) → Json N
bot_json b ts = obj (bot_fields b ts)

currency-plain : (t : Text) → IsString currency_options t → all is_plain t ≡ true
unfolding currency_pattern
currency-plain t h =
    all-weaken (λ c. leb b'A' c && leb c b'Z') is_plain t (λ c k. ground arith)
      (ground (arith, h.shape))

module _ {N : Type 0} ⦃r : Runtime N⦄ where
  name_read :
      (input : Json N) (t : Text)
      → get input "name" ≡ some (str t)
      → IsString name_options t
      → IsTrimmed t
      → Accepts (string input "name" name_options) t
  unfolding normalise
  name_read input t e h trimmed =
      string_of_normal input "name" name_options t e (trim_of_IsTrimmed t trimmed) h

  currency_read :
      (input : Json N) (t : Text)
      → get input "base_currency" ≡ some (str t)
      → IsString currency_options t
      → Accepts (string input "base_currency" currency_options) t
  unfolding normalise
  currency_read input t e h =
      string_of_normal input "base_currency" currency_options t e
        (upper_of_plain r t (currency-plain t h)) h

  interval_present :
      (b : BotInput N)
      → IsBot b
      → (not (is_drift b.trigger_type) && is_none b.interval_minutes) ≡ false
  interval_present b h = ground (arith, h.has_interval)

  threshold_present :
      (b : BotInput N)
      → IsBot b
      → (not (is_schedule b.trigger_type) && is_none b.drift_threshold_bps) ≡ false
  threshold_present b h = ground (arith, h.has_threshold)

  read_bot_core_of_IsBot :
      (b : BotInput N) (ts : List (Target N)) → IsBot b → Accepts (read_bot_core (bot_json b ts)) b
  unfolding read_bot_core get has_key
  read_bot_core_of_IsBot b ts h =
      let input = bot_json b ts in
      rw (
        name_read input b.name refl h.name h.name_trimmed,
        currency_read input b.base_currency refl h.base_currency,
        number_of_IsNumber input "investment_amount" amount_options b.investment_amount refl
            h.investment_amount,
        one_of_of_trigger input "trigger_type" b.trigger_type refl,
        nullable_number_of_IsOptional input "interval_minutes" interval_options b.interval_minutes
            refl h.interval_minutes,
        nullable_number_of_IsOptional input "drift_threshold_bps" threshold_options
            b.drift_threshold_bps refl h.drift_threshold_bps,
        number_of_IsNumber input "min_order_value" min_order_options b.min_order_value refl
            h.min_order_value,
        number_of_IsNumber input "cash_buffer_bps" buffer_options b.cash_buffer_bps refl
            h.cash_buffer_bps,
        read_boolean_of_get input "allow_fractional" false b.allow_fractional refl,
        interval_present b h,
        threshold_present b h,
      )

  -- A valid bot with a basket, written as the JSON body of a request, is parsed without an issue
  -- to the same bot and the same holdings.
  pub parse_create_bot-bot_json :
      (b : BotInput N) (ts : List (Target N))
      → IsBot b
      → IsBasket r ts
      → parse_create_bot (bot_json b ts) ≡ some (record { value = some (b, ts); issues = [] })
  unfolding parse_create_bot read_create_bot get body_or_empty finish
  parse_create_bot-bot_json b ts h k =
      rw (read_bot_core_of_IsBot b ts h, read_targets_of_IsBasket ts k)
