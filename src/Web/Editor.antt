-- ===== src/Web/Editor.antt =====
-- The state of the form for a new bot and what its controls do to it,
-- web/components/bot-form.tsx. React and the HTML of the fields are not modelled; the ids that
-- `crypto.randomUUID` returns, and whether a submission is pending, are arguments.
pub mod Rows
pub mod Split
pub mod Accepted
use rebalance_webull.Prelude.{
  ℕ, zero, suc, ◌≡◌, Bool, true, false, ◌&&◌, not, Option, none, some, List, [], ◌∷◌, ◌++◌, Text,
  codes, length, map, ltb, leb, if◌then◌else◌,
}
use rebalance_webull.Js.{Decimals, Runtime, Json, null, get, to_text}
use rebalance_webull.Validation.Bot.{TriggerType, schedule_or_drift}
use rebalance_webull.Web.Targets.{TargetInput, total_bps, validate_targets}
use rebalance_webull.Web.Form.{BotForm}
use rebalance_webull.Web.Client.{Settled, resolved, rejected, crashed}
use rebalance_webull.Web.Controls.{template_text}

pub record TargetRow : Type 0 where
  pub id : Text
  pub symbol : Text
  pub percent : Text

-- `newRow`, by the id that it mints.
abbrev pub new_row : Text → Text → Text → TargetRow
new_row id symbol percent = record { id = id; symbol = symbol; percent = percent }

-- `blankRows`
abbrev pub blank_rows : Text → Text → Text → List TargetRow
blank_rows a b c =
    new_row a (codes "AAPL") (codes "40")
    ∷ new_row b (codes "MSFT") (codes "35")
    ∷ new_row c (codes "NVDA") (codes "25")
    ∷ []

-- A row as the validation and the submission read it.
abbrev pub input_of : TargetRow → TargetInput
input_of row = record { symbol = row.symbol; percent = row.percent }

abbrev pub inputs : List TargetRow → List TargetInput
inputs rows = map input_of rows

pub record FormState : Type 0 where
  pub name : Text
  pub amount : Text
  pub trigger_type : TriggerType
  pub interval : Text
  pub threshold : Text
  pub min_order : Text
  pub cash_buffer : Text
  pub fractional : Bool
  pub targets : List TargetRow

-- The state that the form opens with.
abbrev pub opened : Text → Text → Text → FormState
opened a b c = record {
  name = [];
  amount = codes "100000";
  trigger_type = schedule_or_drift;
  interval = codes "60";
  threshold = codes "5";
  min_order = codes "25";
  cash_buffer = codes "2";
  fractional = false;
  targets = blank_rows a b c;
}

-- What `submit` reads of the state.
abbrev pub form_of : FormState → BotForm
form_of s = record {
  name = s.name;
  amount = s.amount;
  trigger_type = s.trigger_type;
  interval = s.interval;
  threshold = s.threshold;
  min_order = s.min_order;
  cash_buffer = s.cash_buffer;
  fractional = s.fractional;
  targets = inputs s.targets;
}

-- `setRow`: the row at an index is changed.
unfoldable pub set_row : (TargetRow → TargetRow) → ℕ → List TargetRow → List TargetRow
set_row patch index [] = []
set_row patch zero (row ∷ rows) = patch row ∷ rows
set_row patch (suc index) (row ∷ rows) = row ∷ set_row patch index rows

-- `rows.filter((_, i) => i !== index)`
unfoldable pub remove_row : ℕ → List TargetRow → List TargetRow
remove_row index [] = []
remove_row zero (row ∷ rows) = rows
remove_row (suc index) (row ∷ rows) = row ∷ remove_row index rows

-- What the user does to the form; a new row comes with its id.
pub data Edit : Type 0 where
  type_name type_amount type_interval type_threshold type_min_order type_cash_buffer : Text → Edit
  choose_trigger_type : TriggerType → Edit
  check_fractional : Bool → Edit
  type_symbol type_percent : ℕ → Text → Edit
  press_remove : ℕ → Edit
  press_add_holding : Text → Edit
  press_split_evenly : Edit

-- Whether the control is enabled.
unfoldable pub is_offered : FormState → Edit → Bool
is_offered s (press_remove index) = not (leb (length s.targets) 1)
is_offered s (press_add_holding id) = not (leb 50 (length s.targets))
is_offered s edit = true

abbrev pub with_percent : Text → TargetRow → TargetRow
with_percent percent row = record row { percent = percent }

module _ {N : Type 0} ⦃r : Runtime N⦄ (d : Decimals N r) where
  -- The text of a weight in basis points as a percentage.
  abbrev pub percent_text : N → Text
  percent_text weight = d.to_fixed 2 (d.div weight (r.of_ℕ 100))

  abbrev pub each_of : ℕ → N
  each_of count = d.floor (d.div (r.of_ℕ 10000) (r.of_ℕ count))

  abbrev pub remainder_of : ℕ → N
  remainder_of count = d.sub (r.of_ℕ 10000) (r.mul (each_of count) (r.of_ℕ count))

  -- "Split evenly", with `targets.length`: the first row takes the remainder.
  unfoldable pub split_rows : ℕ → List TargetRow → List TargetRow
  split_rows count [] = []
  split_rows count (row ∷ rows) =
      with_percent (percent_text (r.add (each_of count) (remainder_of count))) row
      ∷ map (with_percent (percent_text (each_of count))) rows

  -- The state after an edit.
  unfoldable pub edited : Edit → FormState → FormState
  unfolding set_row remove_row split_rows
  edited (type_name text) s = record s { name = text }
  edited (type_amount text) s = record s { amount = text }
  edited (type_interval text) s = record s { interval = text }
  edited (type_threshold text) s = record s { threshold = text }
  edited (type_min_order text) s = record s { min_order = text }
  edited (type_cash_buffer text) s = record s { cash_buffer = text }
  edited (choose_trigger_type type) s = record s { trigger_type = type }
  edited (check_fractional checked) s = record s { fractional = checked }
  edited (type_symbol index text) s = record s {
    targets = set_row (λ row. record row { symbol = r.to_upper text }) index s.targets;
  }
  edited (type_percent index text) s = record s {
    targets = set_row (λ row. record row { percent = text }) index s.targets;
  }
  edited (press_remove index) s = record s { targets = remove_row index s.targets }
  edited (press_add_holding id) s = record s {
    targets = s.targets ++ (new_row id [] (codes "0") ∷ []);
  }
  edited press_split_evenly s = record s { targets = split_rows (length s.targets) s.targets }

  -- The sum shown above the basket.
  unfoldable pub total_text : FormState → Text
  total_text s = percent_text (total_bps (inputs s.targets)) ++ codes "% of 100%"

-- Whether "Create bot" is enabled, by whether a submission is pending.
unfoldable pub can_submit : {N : Type 0} → Runtime N → Bool → FormState → Bool
can_submit r busy s = not busy && (validate_targets ⦃r = r⦄ (inputs s.targets)).valid

-- Where `submit` leads: to the page of the bot, or to an error above the button.
pub data Submitted : Type 0 where
  pushed : Text → Submitted
  failed : Text → Submitted

abbrev could_not_create : Text
could_not_create = codes "could not create the bot"

abbrev pushed_to : Option Text → Submitted
pushed_to none = failed could_not_create
pushed_to (some id) = pushed (codes "/bots/" ++ id)

abbrev failed_with : Option Text → Submitted
failed_with none = failed could_not_create
failed_with (some message) = failed message

module _ {N : Type 0} ⦃r : Runtime N⦄ where
  -- What `submit` makes of the outcome of `api.createBot`; null has no `id`.
  unfoldable pub after_submit : Settled N → Submitted
  unfolding template_text
  after_submit (resolved null) = failed could_not_create
  after_submit (resolved payload) = pushed_to (template_text (get payload "id"))
  after_submit (rejected e) = failed_with (to_text e.message)
  after_submit crashed = failed could_not_create
