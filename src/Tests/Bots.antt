-- ===== src/Tests/Bots.antt =====
-- A bot, its holdings and the bodies of requests, on which the theorems on validation.ts and on
-- the form apply.
use rebalance_webull.Prelude.{
  ℕ, ◌≡◌, refl, true, false, none, some, List, [], ◌∷◌, Text, codes, trim, map, arith,
}
use rebalance_webull.Js.{
  Json, null, num, str, arr, obj, nil, cons, Fields, field, end, get, lookup, has_key,
  body_or_empty, to_number, to_text,
}
use rebalance_webull.Validation.Check.{
  finish, string, number, one_of, nullable_number, read_boolean,
}
use rebalance_webull.Validation.Targets.{Target, symbol_pattern, read_targets}
use rebalance_webull.Validation.Bot.{BotInput, schedule, parse_create_bot}
use rebalance_webull.Validation.Accept.{Accepts}
use rebalance_webull.Validation.Basket.{IsBasket, Weighs, HasSymbols}
use rebalance_webull.Validation.Basket.Complete.{read_targets_of_IsBasket, targets_json}
use rebalance_webull.Validation.Basket.Order.{swap, read_targets-Shuffle}
use rebalance_webull.Validation.Bot.Sound.{IsBot, parse_create_bot-IsValid}
use rebalance_webull.Validation.Bot.RoundTrip.{bot_json, parse_create_bot-bot_json}
use rebalance_webull.Validation.Patch.{BotPatch, parse_update_bot}
use rebalance_webull.Validation.Patch.Sound.{IsGiven, IsPatch, parse_update_bot-IsUpdate}
use rebalance_webull.Validation.Throws.{parse_create_bot_throws}
use rebalance_webull.Web.Targets.{TargetInput, validate_targets, percent_to_bps, symbol_of}
use rebalance_webull.Web.Form.{submitted}
use rebalance_webull.Tests.Numbers.{Sample, sample_runtime}

abbrev whole : ℕ → Sample
whole n = sample_runtime.of_ℕ n

abbrev pub sample_targets : List (Target Sample)
sample_targets =
    record { symbol = codes "VTI"; weight_bps = whole 6000 }
    ∷ record { symbol = codes "BND"; weight_bps = whole 4000 }
    ∷ []

abbrev pub sample_bot : BotInput Sample
sample_bot = record {
  name = codes "Core";
  base_currency = codes "USD";
  investment_amount = whole 2500;
  trigger_type = schedule;
  interval_minutes = some (whole 60);
  drift_threshold_bps = none;
  min_order_value = whole 10;
  cash_buffer_bps = whole 0;
  allow_fractional = false;
}

-- A body with white space, lower case, a weight as text and fields left out.
abbrev holding : Text → Json Sample → Json Sample
holding symbol weight = obj (field "symbol" (str symbol) (field "weight_bps" weight end))

abbrev sample_rows : Json Sample
sample_rows = arr (
    cons (holding (codes " vti ") (num (whole 6000)))
      (cons (holding (codes "bnd") (str (codes "4000"))) nil))

abbrev pub sample_body : Json Sample
sample_body = obj (
    field "name" (str (codes "Core ")) (
      field "investment_amount" (num (whole 2500)) (
        field "trigger_type" (str (codes "schedule"))
          (field "interval_minutes" (num (whole 60)) (field "targets" sample_rows end)))))

sample_body_parsed :
    parse_create_bot sample_body
    ≡ some (record { value = some (sample_bot, sample_targets); issues = [] })
unfolding parse_create_bot finish string get body_or_empty trim has_key number to_number to_text
    one_of nullable_number read_boolean read_targets
sample_body_parsed = refl

sample_rows_read : Accepts (read_targets (some sample_rows)) sample_targets
unfolding read_targets get body_or_empty to_text to_number trim
sample_rows_read = refl

parse_create_bot-IsValid_example : IsBot sample_bot × IsBasket sample_runtime sample_targets
parse_create_bot-IsValid_example =
    parse_create_bot-IsValid sample_body sample_bot sample_targets sample_body_parsed refl

sample_bot-IsBot : IsBot sample_bot
sample_bot-IsBot =
    (parse_create_bot-IsValid sample_body sample_bot sample_targets sample_body_parsed refl).0

pub sample_targets-IsBasket : IsBasket sample_runtime sample_targets
unfolding symbol_pattern
sample_targets-IsBasket = record {
  some_holding = omega arith;
  at_most = omega arith;
  symbols = (refl, (refl, tt));
  distinct = (refl, (refl, tt));
  weights = 6000 ∷ 4000 ∷ [];
  weighed = (refl, omega arith, (refl, omega arith, tt));
  balanced = refl;
}

parse_create_bot-bot_json_example :
    parse_create_bot (bot_json sample_bot sample_targets)
    ≡ some (record { value = some (sample_bot, sample_targets); issues = [] })
parse_create_bot-bot_json_example =
    parse_create_bot-bot_json sample_bot sample_targets sample_bot-IsBot sample_targets-IsBasket

-- A change of the interval and of the basket.
abbrev sample_change : Json Sample
sample_change = obj (field "interval_minutes" (num (whole 30)) (field "targets" sample_rows end))

abbrev sample_patch : BotPatch Sample
sample_patch = record {
  name = none;
  base_currency = none;
  investment_amount = none;
  trigger_type = none;
  interval_minutes = some (some (whole 30));
  drift_threshold_bps = none;
  min_order_value = none;
  cash_buffer_bps = none;
  allow_fractional = none;
}

sample_change_parsed :
    parse_update_bot sample_change
    ≡ some (record { value = some (sample_patch, some sample_targets); issues = [] })
unfolding parse_update_bot finish get body_or_empty trim has_key number nullable_number to_number
    to_text read_targets
sample_change_parsed = refl

parse_update_bot-IsUpdate_example :
    IsPatch sample_patch × IsGiven (IsBasket sample_runtime) (some sample_targets)
parse_update_bot-IsUpdate_example =
    parse_update_bot-IsUpdate sample_change sample_patch (some sample_targets) sample_change_parsed
      refl

-- `{ "investment_amount": { "toString": null } }`
abbrev hostile_amount : Fields Sample
hostile_amount = field "toString" null end

abbrev hostile_body : Fields Sample
hostile_body = field "investment_amount" (obj hostile_amount) end

parse_create_bot_throws_example : parse_create_bot (obj hostile_body) ≡ none
unfolding lookup
parse_create_bot_throws_example = parse_create_bot_throws hostile_body hostile_amount null refl refl

abbrev form_rows : List TargetInput
form_rows =
    record { symbol = codes " vti"; percent = codes "60" }
    ∷ record { symbol = codes "bnd "; percent = codes "40" }
    ∷ []

form_rows_valid : (validate_targets {N = Sample} form_rows).valid ≡ true
unfolding validate_targets trim percent_to_bps
form_rows_valid = refl

form_rows-HasSymbols : HasSymbols {N = Sample} (map submitted form_rows)
unfolding symbol_of trim symbol_pattern
form_rows-HasSymbols = (refl, (refl, tt))

form_rows-Weighs : Weighs sample_runtime (map submitted form_rows) (6000 ∷ 4000 ∷ [])
unfolding percent_to_bps
form_rows-Weighs = (refl, omega arith, (refl, omega arith, tt))

-- The holdings in the other order.
abbrev turned_targets : List (Target Sample)
turned_targets =
    record { symbol = codes "BND"; weight_bps = whole 4000 }
    ∷ record { symbol = codes "VTI"; weight_bps = whole 6000 }
    ∷ []

read_targets-Shuffle_example :
    Accepts (read_targets (some (targets_json turned_targets))) turned_targets
read_targets-Shuffle_example =
    read_targets-Shuffle {N = Sample} (swap _ _ [])
      (read_targets_of_IsBasket sample_targets sample_targets-IsBasket)
