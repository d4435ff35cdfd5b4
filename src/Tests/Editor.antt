-- ===== src/Tests/Editor.antt =====
-- A session with the form for a new bot, on which the theorems on it apply.
use rebalance_webull.Prelude.{Text, ◌≡◌, refl, true, false, some, [], ◌∷◌, codes, trim, map, arith}
use rebalance_webull.Validation.Targets.{symbol_pattern}
use rebalance_webull.Validation.Basket.{sum, IsFresh, HasSymbols, Weighs}
use rebalance_webull.Web.Targets.{TargetInput, total_bps, symbol_of}
use rebalance_webull.Web.Form.{submitted}
use rebalance_webull.Web.Editor.{
  type_name, FormState, opened, new_row, inputs, is_offered, edited, press_add_holding,
  press_split_evenly, press_remove, type_symbol, split_rows, can_submit,
}
use rebalance_webull.Web.Editor.Rows.{IsKeyed, work, Reach, here, next, Reach-IsKeyed}
use rebalance_webull.Web.Editor.Split.{shares, split_rows-shares}
use rebalance_webull.Web.Editor.Accepted.{parse_create_bot-split_evenly}
use rebalance_webull.Validation.Bot.{parse_create_bot}
use rebalance_webull.Web.Form.{BotForm, form_body}
use rebalance_webull.Web.Form.Submission.{bot_of, IsFilled, parse_create_bot-form_body}
use rebalance_webull.Web.Editor.{form_of}
use rebalance_webull.Web.Targets.{validate_targets, percent_to_bps}
use rebalance_webull.Tests.Numbers.{Sample, sample_runtime, sample_decimals}

abbrev form : FormState
form = opened (codes "r1") (codes "r2") (codes "r3")

-- The same with the last row removed.
abbrev two_rows : FormState
two_rows = record form {
  targets =
      new_row (codes "r1") (codes "AAPL") (codes "40")
      ∷ new_row (codes "r2") (codes "MSFT") (codes "35")
      ∷ [];
}

remove_offered : is_offered form (press_remove 2) ≡ true
unfolding is_offered
remove_offered = refl

removed_eq : edited sample_decimals (press_remove 2) form ≡ two_rows
unfolding edited
removed_eq = refl

-- A name typed in, and a fourth row with its symbol.
abbrev grown : FormState
grown = edited sample_decimals (type_symbol 3 (codes "voo")) (
    edited sample_decimals (press_add_holding (codes "r4"))
      (edited sample_decimals (type_name (codes " Core ")) form))

grown_reached : Reach sample_decimals form grown
unfolding is_offered edited
grown_reached =
    next
      (next (next here (work (type_name (codes " Core ")) refl tt))
        (work (press_add_holding (codes "r4")) refl refl))
      (work (type_symbol 3 (codes "voo")) refl tt)

Reach-IsKeyed_example : IsKeyed grown.targets
Reach-IsKeyed_example =
    Reach-IsKeyed sample_decimals (codes "r1") (codes "r2") (codes "r3") (refl, (refl, (refl, tt)))
      grown_reached

split_rows-shares_example :
    Weighs sample_runtime
      (map submitted (inputs (split_rows sample_decimals 3 form.targets)))
      (shares 3 form.targets)
    × (sum (shares 3 form.targets) ≡ 10000)
    × (total_bps (inputs (split_rows sample_decimals 3 form.targets)) ≡ sample_runtime.of_ℕ 10000)
split_rows-shares_example =
    split_rows-shares sample_decimals form.targets (omega arith) (omega arith)

three_shares : shares 3 form.targets ≡ 3334 ∷ 3333 ∷ 3333 ∷ []
three_shares = refl

grown-HasSymbols : HasSymbols {N = Sample} (map submitted (inputs grown.targets))
unfolding symbol_of symbol_pattern trim edited
grown-HasSymbols = (refl, (refl, (refl, (refl, tt))))

grown-IsFresh : IsFresh {N = Sample} [] (map submitted (inputs grown.targets))
unfolding symbol_of trim edited
grown-IsFresh = (refl, (refl, (refl, (refl, tt))))

grown-IsFilled : IsFilled sample_runtime (form_of grown)
unfolding trim edited
grown-IsFilled = record {
  name = record { long = omega arith; short = omega arith; shape = refl };
  amount = record { finite = refl; whole = refl; not_below = refl; not_above = refl };
  interval = record { finite = refl; whole = refl; not_below = refl; not_above = refl };
  threshold = record { finite = refl; whole = refl; not_below = refl; not_above = refl };
  min_order = record { finite = refl; whole = refl; not_below = refl; not_above = refl };
  buffer = record { finite = refl; whole = refl; not_below = refl; not_above = refl };
}

parse_create_bot-split_evenly_example :
    (can_submit sample_runtime false (edited sample_decimals press_split_evenly grown) ≡ true)
    × (parse_create_bot {N = Sample}
          (form_body (form_of (edited sample_decimals press_split_evenly grown)))
        ≡ some (record {
          value = some (
            bot_of (form_of grown),
            map submitted (inputs (edited sample_decimals press_split_evenly grown).targets),
          );
          issues = [];
        }))
parse_create_bot-split_evenly_example =
    parse_create_bot-split_evenly sample_decimals (codes "r1") (codes "r2") (codes "r3")
      (refl, (refl, (refl, tt))) grown_reached grown-IsFilled grown-HasSymbols grown-IsFresh

-- The form as it opens, with a name typed in.
abbrev named_form : BotForm
named_form = form_of (record form { name = codes " Core " })

named_form-IsFilled : IsFilled sample_runtime named_form
unfolding trim
named_form-IsFilled = record {
  name = record { long = omega arith; short = omega arith; shape = refl };
  amount = record { finite = refl; whole = refl; not_below = refl; not_above = refl };
  interval = record { finite = refl; whole = refl; not_below = refl; not_above = refl };
  threshold = record { finite = refl; whole = refl; not_below = refl; not_above = refl };
  min_order = record { finite = refl; whole = refl; not_below = refl; not_above = refl };
  buffer = record { finite = refl; whole = refl; not_below = refl; not_above = refl };
}

named_form_valid : (validate_targets {N = Sample} named_form.targets).valid ≡ true
unfolding validate_targets percent_to_bps symbol_of trim
named_form_valid = refl

named_form-HasSymbols : HasSymbols {N = Sample} (map submitted named_form.targets)
unfolding symbol_of symbol_pattern trim
named_form-HasSymbols = (refl, (refl, (refl, tt)))

named_form-Weighs :
    Weighs sample_runtime (map submitted named_form.targets) (4000 ∷ 3500 ∷ 2500 ∷ [])
unfolding percent_to_bps
named_form-Weighs = (refl, omega arith, (refl, omega arith, (refl, omega arith, tt)))

parse_create_bot-form_body_example :
    parse_create_bot {N = Sample} (form_body named_form)
    ≡ some
        (record { value = some (bot_of named_form, map submitted named_form.targets); issues = [] })
parse_create_bot-form_body_example =
    parse_create_bot-form_body named_form (4000 ∷ 3500 ∷ 2500 ∷ []) named_form-IsFilled
      named_form_valid (omega arith) named_form-HasSymbols named_form-Weighs

-- The cases of web/tests/targets.test.ts.
abbrev input : Text → Text → TargetInput
input symbol percent = record { symbol = symbol; percent = percent }

three_thirds :
    total_bps {N = Sample} (
      input (codes "A") (codes "33.33")
      ∷ input (codes "B") (codes "33.33")
      ∷ input (codes "C") (codes "33.33")
      ∷ [])
    ≡ sample_runtime.of_ℕ 9999
unfolding total_bps percent_to_bps
three_thirds = refl

duplicate_first :
    (validate_targets {N = Sample}
      (input (codes "aapl") (codes "50") ∷ input (codes " AAPL ") (codes "60") ∷ [])).error
    ≡ some (codes "Each symbol can only appear once.")
unfolding validate_targets symbol_of trim
duplicate_first = refl
