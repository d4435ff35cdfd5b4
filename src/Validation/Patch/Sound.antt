-- ===== src/Validation/Patch/Sound.antt =====
-- The changes that `parseUpdateBot` of validation.ts accepts.
use mathlib.Core.Path.{subst}
use rebalance_webull.Prelude.{◌≡◌, sym, Bool, true, false, Option, none, some, List, String}
use rebalance_webull.Prelude.Trim.{IsTrimmed}
use rebalance_webull.Js.{Runtime, Json, get, has_key, body_or_empty}
use rebalance_webull.Validation.Check.{
  Checked, pure, NumberOptions, string, number, nullable_number, ValidationResult,
}
use rebalance_webull.Validation.Targets.{Target, read_targets}
use rebalance_webull.Validation.Bot.{
  name_options, currency_options, amount_options, interval_options, threshold_options,
  min_order_options, buffer_options,
}
use rebalance_webull.Validation.Patch.{
  BotPatch, given, read_given, read_update_bot, parse_update_bot,
}
use rebalance_webull.Validation.Accept.{Accepts, >>=-Accepts, pure-Accepts}
use rebalance_webull.Validation.Fields.{IsString, IsNumber, string-Accepts, number-Accepts}
use rebalance_webull.Validation.Optional.{IsOptional, nullable_number-Accepts}
use rebalance_webull.Validation.Basket.{IsBasket}
use rebalance_webull.Validation.Basket.Sound.{read_targets-IsBasket}
use rebalance_webull.Validation.Bot.Sound.{name-Accepts, finish-Accepts}

-- A field is left out, or satisfies `P`.
abbrev pub IsGiven : {A : Type 0} → (A → Type 0) → Option A → Type 0
IsGiven P none = Unit {0}
IsGiven P (some a) = P a

given-Accepts :
    {N A : Type 0} (P : A → Type 0) (present : Bool) (read : Checked N A) (o : Option A)
    → ((a : A) → Accepts read a → P a)
    → Accepts (given present read) o
    → IsGiven P o
given-Accepts P true read o k h =
    let (a, accepted, e) = >>=-Accepts read (λ a. pure (some a)) h in
    subst (IsGiven P) (sym (pure-Accepts e)) (k a accepted)
given-Accepts P false read o k h = subst (IsGiven P) (sym (pure-Accepts h)) tt

module _ {N : Type 0} ⦃r : Runtime N⦄ where
  -- Each field that the change gives is within the bounds of a new bot's.
  pub record IsPatch (p : BotPatch N) : Type 0 where
    pub name : IsGiven (λ t. IsString name_options t × IsTrimmed t) p.name
    pub base_currency : IsGiven (IsString currency_options) p.base_currency
    pub investment_amount : IsGiven (IsNumber amount_options) p.investment_amount
    pub interval_minutes : IsGiven (IsOptional interval_options) p.interval_minutes
    pub drift_threshold_bps : IsGiven (IsOptional threshold_options) p.drift_threshold_bps
    pub min_order_value : IsGiven (IsNumber min_order_options) p.min_order_value
    pub cash_buffer_bps : IsGiven (IsNumber buffer_options) p.cash_buffer_bps

  IsGiven-number :
      (input : Json N) (path : String) (o : NumberOptions N) {m : Option N}
      → Accepts (read_given input path (number input path o)) m
      → IsGiven (IsNumber o) m
  IsGiven-number input path o {m} h =
      given-Accepts (IsNumber o) (has_key input path) (number input path o) m
        (λ n k. (number-Accepts input path o k).1) h

  IsGiven-nullable :
      (input : Json N) (path : String) (o : NumberOptions N) {m : Option (Option N)}
      → Accepts (read_given input path (nullable_number input path o)) m
      → IsGiven (IsOptional o) m
  IsGiven-nullable input path o {m} h =
      given-Accepts (IsOptional o) (has_key input path) (nullable_number input path o) m
        (λ n k. nullable_number-Accepts input path o k) h

  -- The pair of a change and of new holdings.
  abbrev IsUpdate : BotPatch N × Option (List (Target N)) → Type 0
  IsUpdate (patch, targets) = IsPatch patch × IsGiven (IsBasket r) targets

  read_update_bot-IsUpdate :
      (body : Json N) {u : BotPatch N × Option (List (Target N))}
      → Accepts (read_update_bot body) u
      → IsUpdate u
  unfolding read_update_bot
  read_update_bot-IsUpdate body {u} h =
      let input = body_or_empty body in
      let (name, name_read, h₁) = >>=-Accepts (read_given input "name" _) _ h in
      let (currency, currency_read, h₂) = >>=-Accepts (read_given input _ _) _ h₁ in
      let (amount, amount_read, h₃) = >>=-Accepts (read_given input _ _) _ h₂ in
      let (trigger, _, h₄) = >>=-Accepts (read_given input _ _) _ h₃ in
      let (interval, interval_read, h₅) = >>=-Accepts (read_given input _ _) _ h₄ in
      let (threshold, threshold_read, h₆) = >>=-Accepts (read_given input _ _) _ h₅ in
      let (min_order, min_order_read, h₇) = >>=-Accepts (read_given input _ _) _ h₆ in
      let (buffer, buffer_read, h₈) = >>=-Accepts (read_given input _ _) _ h₇ in
      let (fractional, _, h₉) = >>=-Accepts (read_given input _ _) _ h₈ in
      let (targets, targets_read, h₁₀) = >>=-Accepts (read_given input "targets" _) _ h₉ in
      subst IsUpdate (sym (pure-Accepts h₁₀)) (
        record {
          name =
              given-Accepts (λ t. IsString name_options t × IsTrimmed t) (has_key input "name")
                (string input "name" name_options) name (λ t k. name-Accepts input k) name_read;
          base_currency =
              given-Accepts (IsString currency_options) (has_key input "base_currency")
                (string input "base_currency" currency_options) currency
                (λ t k. (string-Accepts input "base_currency" currency_options k).3) currency_read;
          investment_amount = IsGiven-number input "investment_amount" amount_options amount_read;
          interval_minutes =
              IsGiven-nullable input "interval_minutes" interval_options interval_read;
          drift_threshold_bps =
              IsGiven-nullable input "drift_threshold_bps" threshold_options threshold_read;
          min_order_value = IsGiven-number input "min_order_value" min_order_options min_order_read;
          cash_buffer_bps = IsGiven-number input "cash_buffer_bps" buffer_options buffer_read;
        },
        given-Accepts (IsBasket r) (has_key input "targets") (read_targets (get input "targets"))
            targets (λ ts k. read_targets-IsBasket (get input "targets") k) targets_read,
      )

  -- A change that `parseUpdateBot` returns keeps each field that it gives within the bounds of a
  -- new bot's, and the holdings that it gives are a basket.
  pub parse_update_bot-IsUpdate :
      (body : Json N) (patch : BotPatch N) (targets : Option (List (Target N)))
      {v : ValidationResult N (BotPatch N × Option (List (Target N)))}
      → parse_update_bot body ≡ some v
      → v.value ≡ some (patch, targets)
      → IsPatch patch × IsGiven (IsBasket r) targets
  unfolding parse_update_bot
  parse_update_bot-IsUpdate body patch targets h e =
      read_update_bot-IsUpdate body (finish-Accepts (read_update_bot body) (patch, targets) h e)
