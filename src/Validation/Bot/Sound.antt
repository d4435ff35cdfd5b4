-- ===== src/Validation/Bot/Sound.antt =====
-- The bots that `parseCreateBot` of validation.ts accepts.
use rebalance_webull.Prelude.{
  ℕ, ◌≤◌, ltb, ◌≡◌, refl, ◌≢◌, sym, ◌∙◌, ap, Bool, true, false, ◌&&◌, not, Option, none, some, List,
  [], ◌∷◌, String, Text, codes, arith, Bool-cases, inl, inr,
}
use mathlib.Core.Path.{subst}
use rebalance_webull.Prelude.Trim.{IsTrimmed, trim-IsTrimmed}
use rebalance_webull.Js.{Runtime, exact_limit, Json, get, has_key, body_or_empty}
use rebalance_webull.Validation.Check.{
  Checked, pure, normalise, string, number, nullable_number, read_boolean, one_of, ValidationResult,
  finish,
}
use rebalance_webull.Validation.Targets.{Target, read_targets}
use rebalance_webull.Validation.Bot.{
  currency_pattern, range, TriggerType, schedule, drift, trigger_types, is_drift, is_schedule,
  is_none, BotInput, name_options, currency_options, amount_options, interval_options,
  threshold_options, min_order_options, buffer_options, read_or, read_bot_core, read_create_bot,
  parse_create_bot,
}
use rebalance_webull.Validation.Accept.{Accepts, >>=-Accepts, pure-Accepts, add_if-Accepts}
use rebalance_webull.Validation.Fields.{IsString, IsNumber, string-Accepts, number-Accepts}
use rebalance_webull.Validation.Optional.{IsOptional, nullable_number-Accepts}
use rebalance_webull.Validation.Basket.{IsBasket}
use rebalance_webull.Validation.Basket.Sound.{read_targets-IsBasket}

usd-IsString : IsString currency_options (codes "USD")
unfolding currency_pattern
usd-IsString = record { long = omega arith; short = omega arith; shape = refl }

module _ {N : Type 0} ⦃r : Runtime N⦄ where
  -- What a stored bot keeps: bounds on each field, and a trigger that can fire.
  pub record IsBot (b : BotInput N) : Type 0 where
    pub name : IsString name_options b.name
    pub name_trimmed : IsTrimmed b.name
    pub base_currency : IsString currency_options b.base_currency
    pub investment_amount : IsNumber amount_options b.investment_amount
    pub interval_minutes : IsOptional interval_options b.interval_minutes
    pub drift_threshold_bps : IsOptional threshold_options b.drift_threshold_bps
    pub min_order_value : IsNumber min_order_options b.min_order_value
    pub cash_buffer_bps : IsNumber buffer_options b.cash_buffer_bps
    pub has_interval : b.trigger_type ≢ drift → b.interval_minutes ≢ none
    pub has_threshold : b.trigger_type ≢ schedule → b.drift_threshold_bps ≢ none

  -- Each reader accepts, with the bot's field.
  pub record IsRead (input : Json N) (b : BotInput N) : Type 0 where
    pub name : Accepts (string input "name" name_options) b.name
    pub currency :
        Accepts
          (read_or input "base_currency"
            (string input "base_currency" currency_options)
            (codes "USD"))
          b.base_currency
    pub amount : Accepts (number input "investment_amount" amount_options) b.investment_amount
    pub trigger : Accepts (one_of input "trigger_type" trigger_types) b.trigger_type
    pub interval :
        Accepts (nullable_number input "interval_minutes" interval_options) b.interval_minutes
    pub threshold :
        Accepts
          (nullable_number input "drift_threshold_bps" threshold_options)
          b.drift_threshold_bps
    pub min_order :
        Accepts
          (read_or input "min_order_value"
            (number input "min_order_value" min_order_options)
            (r.of_ℕ 10))
          b.min_order_value
    pub buffer :
        Accepts
          (read_or input "cash_buffer_bps"
            (number input "cash_buffer_bps" buffer_options)
            (r.of_ℕ 0))
          b.cash_buffer_bps
    pub fractional : Accepts (read_boolean input "allow_fractional" false) b.allow_fractional
    pub needs_interval : (not (is_drift b.trigger_type) && is_none b.interval_minutes) ≡ false
    pub needs_threshold :
        (not (is_schedule b.trigger_type) && is_none b.drift_threshold_bps) ≡ false

  pub read_bot_core-IsRead :
      (input : Json N) {b : BotInput N} → Accepts (read_bot_core input) b → IsRead input b
  unfolding read_bot_core
  read_bot_core-IsRead input {b} h =
      let (name, name_read, h₁) = >>=-Accepts (string input "name" name_options) _ h in
      let (currency, currency_read, h₂) = >>=-Accepts (read_or input _ _ _) _ h₁ in
      let (amount, amount_read, h₃) = >>=-Accepts (number input _ _) _ h₂ in
      let (trigger, trigger_read, h₄) = >>=-Accepts (one_of input _ _) _ h₃ in
      let (interval, interval_read, h₅) = >>=-Accepts (nullable_number input _ _) _ h₄ in
      let (threshold, threshold_read, h₆) = >>=-Accepts (nullable_number input _ _) _ h₅ in
      let (min_order, min_order_read, h₇) = >>=-Accepts (read_or input _ _ _) _ h₆ in
      let (buffer, buffer_read, h₈) = >>=-Accepts (read_or input _ _ _) _ h₇ in
      let (fractional, fractional_read, h₉) = >>=-Accepts (read_boolean input _ _) _ h₈ in
      let (interval_ok, h₁₀) = add_if-Accepts _ _ _ _ h₉ in
      let (threshold_ok, h₁₁) = add_if-Accepts _ _ _ _ h₁₀ in
      subst (IsRead input) (sym (pure-Accepts h₁₁)) (record {
        name = name_read;
        currency = currency_read;
        amount = amount_read;
        trigger = trigger_read;
        interval = interval_read;
        threshold = threshold_read;
        min_order = min_order_read;
        buffer = buffer_read;
        fractional = fractional_read;
        needs_interval = interval_ok;
        needs_threshold = threshold_ok;
      })

  -- A field with a default satisfies what its reader and the default satisfy.
  read_or-Accepts :
      {A : Type 0} (P : A → Type 0) (input : Json N) (path : String) (read : Checked N A)
      (fallback : A) {a : A}
      → ((b : A) → Accepts read b → P b)
      → P fallback
      → Accepts (read_or input path read fallback) a
      → P a
  read_or-Accepts P input path read fallback {a} reads falls h =
      elim (Bool-cases (has_key input path)) [
        | inl e ↦ reads a (rw e at h)
        | inr e ↦ let k : Accepts {N = N} (pure fallback) a = rw e at h in rw (pure-Accepts k) falls
      ]

  has_interval_of :
      (t : TriggerType) (m : Option N)
      → (not (is_drift t) && is_none m) ≡ false
      → t ≢ drift
      → m ≢ none
  has_interval_of t m h k = ground arith

  has_threshold_of :
      (t : TriggerType) (m : Option N)
      → (not (is_schedule t) && is_none m) ≡ false
      → t ≢ schedule
      → m ≢ none
  has_threshold_of t m h k = ground arith

  -- A whole number within whole bounds.
  pub of_ℕ-IsNumber :
      (low high n : ℕ) (integer : Bool)
      → low ≤ n
      → n ≤ high
      → high ≤ exact_limit
      → IsNumber (range (r.of_ℕ low) (r.of_ℕ high) integer) (r.of_ℕ n)
  of_ℕ-IsNumber low high n integer h k small =
      let whole : r.is_integer (r.of_ℕ n) ≡ true = r.is_integer-of_ℕ n (omega arith) in
      let not_below : ltb n low ≡ false = ground arith in
      let not_above : ltb high n ≡ false = ground arith in
      record {
        finite = r.is_finite_of_is_integer (r.of_ℕ n) whole;
        whole = ground arith;
        not_below = r.lt-of_ℕ n low (omega arith) (omega arith) ∙ not_below;
        not_above = r.lt-of_ℕ high n (omega arith) (omega arith) ∙ not_above;
      }

  pub name-Accepts :
      (input : Json N) {t : Text}
      → Accepts (string input "name" name_options) t
      → IsString name_options t × IsTrimmed t
  unfolding normalise
  name-Accepts input h =
      let (raw, _, e, ok) = string-Accepts input "name" name_options h in
      (ok, subst IsTrimmed (sym e) (trim-IsTrimmed raw))

  IsBot-of_IsRead : (input : Json N) (b : BotInput N) → IsRead input b → IsBot b
  IsBot-of_IsRead input b p =
      let (name_ok, trimmed) = name-Accepts input p.name in
      record {
        name = name_ok;
        name_trimmed = trimmed;
        base_currency =
            read_or-Accepts (IsString currency_options) input "base_currency"
              (string input "base_currency" currency_options) (codes "USD")
              (λ c k. (string-Accepts input "base_currency" currency_options k).3) usd-IsString
              p.currency;
        investment_amount = (number-Accepts input "investment_amount" amount_options p.amount).1;
        interval_minutes =
            nullable_number-Accepts input "interval_minutes" interval_options p.interval;
        drift_threshold_bps =
            nullable_number-Accepts input "drift_threshold_bps" threshold_options p.threshold;
        min_order_value =
            read_or-Accepts (IsNumber min_order_options) input "min_order_value"
              (number input "min_order_value" min_order_options) (r.of_ℕ 10)
              (λ n k. (number-Accepts input "min_order_value" min_order_options k).1)
              (of_ℕ-IsNumber 0 1_000_000 10 false (omega arith) (omega arith) (omega arith))
              p.min_order;
        cash_buffer_bps =
            read_or-Accepts (IsNumber buffer_options) input "cash_buffer_bps"
              (number input "cash_buffer_bps" buffer_options) (r.of_ℕ 0)
              (λ n k. (number-Accepts input "cash_buffer_bps" buffer_options k).1)
              (of_ℕ-IsNumber 0 10000 0 true (omega arith) (omega arith) (omega arith)) p.buffer;
        has_interval = has_interval_of b.trigger_type b.interval_minutes p.needs_interval;
        has_threshold = has_threshold_of b.trigger_type b.drift_threshold_bps p.needs_threshold;
      }

  read_create_bot-IsValid :
      (body : Json N) (bot : BotInput N) (targets : List (Target N))
      → Accepts (read_create_bot body) (bot, targets)
      → IsBot bot × IsBasket r targets
  unfolding read_create_bot
  read_create_bot-IsValid body bot targets h =
      let input = body_or_empty body in
      let (b, read, h₁) = >>=-Accepts (read_bot_core input) _ h in
      let (ts, read_ts, h₂) = >>=-Accepts (read_targets (get input "targets")) _ h₁ in
      let same = pure-Accepts h₂ in
      (
        subst IsBot (sym (ap (λ p. p.0) same))
            (IsBot-of_IsRead input b (read_bot_core-IsRead input read)),
        subst (IsBasket r) (sym (ap (λ p. p.1) same))
            (read_targets-IsBasket (get input "targets") read_ts),
      )

  -- A value comes back only with no issue.
  pub finish-Accepts :
      {A : Type 0} (m : Checked N A) (a : A) {v : ValidationResult N A}
      → finish m ≡ some v
      → v.value ≡ some a
      → Accepts m a
  unfolding finish
  finish-Accepts none a h e = cc
  finish-Accepts (some (b, [])) a h e = ground arith
  finish-Accepts (some (b, i ∷ issues)) a h e = ground arith

  -- A bot that `parseCreateBot` returns satisfies every bound of its fields, has a trigger that
  -- can fire, and comes with a basket of 1 to 50 distinct well-formed symbols whose weights are
  -- whole numbers of basis points that add up to exactly 10000.
  pub parse_create_bot-IsValid :
      (body : Json N) (bot : BotInput N) (targets : List (Target N))
      {v : ValidationResult N (BotInput N × List (Target N))}
      → parse_create_bot body ≡ some v
      → v.value ≡ some (bot, targets)
      → IsBot bot × IsBasket r targets
  unfolding parse_create_bot
  parse_create_bot-IsValid body bot targets h e =
      read_create_bot-IsValid body bot targets
        (finish-Accepts (read_create_bot body) (bot, targets) h e)
