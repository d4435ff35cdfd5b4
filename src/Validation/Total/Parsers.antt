-- ===== src/Validation/Total/Parsers.antt =====
-- The parsers of validation.ts return on every body in which no object has a key `toString`.
use rebalance_webull.Prelude.{◌≡◌, refl, true, false, Option, none, some, String, codes, arith}
use rebalance_webull.Js.{Runtime, Json, has_key, body_or_empty}
use rebalance_webull.Validation.Check.{Checked, ValidationResult, finish}
use rebalance_webull.Validation.Bot.{
  trigger_types, name_options, currency_options, amount_options, interval_options,
  threshold_options, min_order_options, buffer_options, read_or, read_bot_core, read_create_bot,
  parse_create_bot,
}
use rebalance_webull.Validation.Patch.{given, read_given, read_update_bot, parse_update_bot}
use rebalance_webull.Validation.Forms.{
  secret_options, read_credentials, parse_credentials, parse_status_action, actions,
}
use rebalance_webull.Validation.Total.Coercions.{IsPlain, body_or_empty-IsPlain}
use rebalance_webull.Validation.Total.Readers.{
  Returns, >>=-Returns, pure-Returns, string-Returns, number-Returns, nullable_number-Returns,
  read_boolean-Returns, one_of-Returns, read_targets-Returns,
}

module _ {N : Type 0} ⦃r : Runtime N⦄ where
  read_or-Returns :
      {A : Type 0} (input : Json N) (path : String) (read : Checked N A) (fallback : A)
      → Returns read
      → Returns (read_or input path read fallback)
  read_or-Returns input path read fallback h = ground arith

  read_given-Returns :
      {A : Type 0} (input : Json N) (path : String) (read : Checked N A)
      → Returns read
      → Returns (read_given input path read)
  read_given-Returns input path read h =
      elim (has_key input path) as (λ b. Returns (given b read)) [
        | true ↦ >>=-Returns read _ h (λ a. pure-Returns (some a))
        | false ↦ pure-Returns none
      ]

  read_bot_core-Returns : (input : Json N) → IsPlain input → Returns (read_bot_core input)
  unfolding read_bot_core
  read_bot_core-Returns input h = >>=-Returns _ _ (string-Returns input "name" name_options) λ name.
      >>=-Returns _ _
        (read_or-Returns input "base_currency" _ (codes "USD")
          (string-Returns input "base_currency" currency_options))
        λ currency.
          >>=-Returns _ _ (number-Returns input "investment_amount" amount_options h) λ amount.
            >>=-Returns _ _ (one_of-Returns input "trigger_type" trigger_types) λ trigger.
              >>=-Returns _ _ (nullable_number-Returns input "interval_minutes" interval_options h)
                λ interval.
                  >>=-Returns _ _
                    (nullable_number-Returns input "drift_threshold_bps" threshold_options h)
                    λ threshold.
                      >>=-Returns _ _
                        (read_or-Returns input "min_order_value" _ (r.of_ℕ 10)
                          (number-Returns input "min_order_value" min_order_options h))
                        λ min_order.
                          >>=-Returns _ _
                            (read_or-Returns input "cash_buffer_bps" _ (r.of_ℕ 0)
                              (number-Returns input "cash_buffer_bps" buffer_options h))
                            λ buffer.
                              >>=-Returns _ _ (read_boolean-Returns input "allow_fractional" false)
                                λ fractional. ground arith

  read_create_bot-Returns : (body : Json N) → IsPlain body → Returns (read_create_bot body)
  unfolding read_create_bot
  read_create_bot-Returns body h =
      let plain = body_or_empty-IsPlain body h in
      >>=-Returns _ _ (read_bot_core-Returns (body_or_empty body) plain) λ bot.
        >>=-Returns _ _ (read_targets-Returns (body_or_empty body) plain)
          λ targets. pure-Returns (bot, targets)

  read_update_bot-Returns : (body : Json N) → IsPlain body → Returns (read_update_bot body)
  unfolding read_update_bot
  read_update_bot-Returns body h =
      let input = body_or_empty body in
      let plain = body_or_empty-IsPlain body h in
      >>=-Returns _ _ (read_given-Returns input "name" _ (string-Returns input "name" name_options))
        λ name.
          >>=-Returns _ _
            (read_given-Returns input "base_currency" _
              (string-Returns input "base_currency" currency_options))
            λ currency.
              >>=-Returns _ _
                (read_given-Returns input "investment_amount" _
                  (number-Returns input "investment_amount" amount_options plain))
                λ amount.
                  >>=-Returns _ _
                    (read_given-Returns input "trigger_type" _
                      (one_of-Returns input "trigger_type" trigger_types))
                    λ trigger.
                      >>=-Returns _ _
                        (read_given-Returns input "interval_minutes" _
                          (nullable_number-Returns input "interval_minutes" interval_options plain))
                        λ interval.
                          >>=-Returns _ _
                            (read_given-Returns input "drift_threshold_bps" _ (
                              nullable_number-Returns input "drift_threshold_bps" threshold_options
                                plain))
                            λ threshold.
                              >>=-Returns _ _
                                (read_given-Returns input "min_order_value" _
                                  (number-Returns input "min_order_value" min_order_options plain))
                                λ min_order.
                                  >>=-Returns _ _
                                    (read_given-Returns input "cash_buffer_bps" _
                                      (number-Returns input "cash_buffer_bps" buffer_options plain))
                                    λ buffer.
                                      >>=-Returns _ _
                                        (read_given-Returns input "allow_fractional" _
                                          (read_boolean-Returns input "allow_fractional" false))
                                        λ fractional.
                                          >>=-Returns _ _
                                            (read_given-Returns input "targets" _
                                              (read_targets-Returns input plain))
                                            λ targets. pure-Returns _

  read_credentials-Returns : (body : Json N) → Returns (read_credentials body)
  unfolding read_credentials
  read_credentials-Returns body =
      let input = body_or_empty body in
      >>=-Returns _ _ (string-Returns input "api_key" secret_options) λ key.
        >>=-Returns _ _ (string-Returns input "api_secret" secret_options) λ secret. pure-Returns _

-- The parser ends with a result, valid or with issues.
abbrev pub Ends : {N A : Type 0} → Option (ValidationResult N A) → Type 0
Ends {N} {A} p = (v : ValidationResult N A) × (p ≡ some v)

finish-Ends : {N A : Type 0} (m : Checked N A) → Returns m → Ends (finish m)
unfolding finish
finish-Ends none h = absurd (h refl)
finish-Ends (some (a, issues)) h = (_, refl)

module _ {N : Type 0} ⦃r : Runtime N⦄ where
  -- On a body in which no object has a key `toString` each of the four parsers ends with a result;
  -- none throws.
  pub parsers_end :
      (body : Json N)
      → IsPlain body
      → Ends (parse_create_bot body)
        × Ends (parse_update_bot body)
        × Ends (parse_credentials body)
        × Ends (parse_status_action body)
  unfolding parse_create_bot parse_update_bot parse_credentials parse_status_action
  parsers_end body h = (
    finish-Ends _ (read_create_bot-Returns body h),
    finish-Ends _ (read_update_bot-Returns body h),
    finish-Ends _ (read_credentials-Returns body),
    finish-Ends _ (one_of-Returns (body_or_empty body) "action" actions),
  )
