-- ===== src/Web/Targets.antt =====
-- Validation of a target basket in the form, web/lib/targets.ts.
use rebalance_webull.Prelude.{
  Bool, true, false, not, Option, none, some, List, [], ◌∷◌, Text, text_eq, trim, codes, length,
  map, any, ◌==◌, if◌then◌else◌,
}
use rebalance_webull.Js.{Runtime}

pub record TargetInput : Type 0 where
  pub symbol : Text
  pub percent : Text

pub record TargetValidation (N : Type 0) : Type 0 where
  pub valid : Bool
  pub total_bps : N
  pub error : Option Text

-- `new Set(texts)` in order of insertion, from the texts that it holds.
unfoldable pub set_from : List Text → List Text → List Text
set_from held [] = held
set_from held (t ∷ ts) = set_from (if any (text_eq t) held then held else t ∷ held) ts

-- `t.symbol.trim().toUpperCase()`
unfoldable pub symbol_of : {N : Type 0} → Runtime N → TargetInput → Text
symbol_of r t = r.to_upper (trim t.symbol)

module _ {N : Type 0} ⦃r : Runtime N⦄ where
  abbrev percent_number : Text → N
  percent_number [] = r.of_ℕ 0
  percent_number (c ∷ cs) = r.number_of_text (c ∷ cs)

  -- `Math.round(Number(percent || 0) * 100)`
  unfoldable pub percent_to_bps : Text → N
  percent_to_bps percent = r.round (r.mul (percent_number percent) (r.of_ℕ 100))

  unfoldable pub sum_from : N → List TargetInput → N
  sum_from sum [] = sum
  sum_from sum (t ∷ ts) = sum_from (r.add sum (percent_to_bps t.percent)) ts

  -- `totalBps`
  unfoldable pub total_bps : List TargetInput → N
  unfolding sum_from
  total_bps targets = sum_from (r.of_ℕ 0) targets

  unfoldable pub validate_targets : List TargetInput → TargetValidation N
  unfolding total_bps symbol_of set_from
  validate_targets targets =
      let sum = total_bps targets in
      let symbols = map (symbol_of r) targets in
      if length targets == 0
      then record {
        valid = false;
        total_bps = sum;
        error = some (codes "Add at least one holding.");
      }
      else if not (length (set_from [] symbols) == length symbols)
      then record {
        valid = false;
        total_bps = sum;
        error = some (codes "Each symbol can only appear once.");
      }
      else if not (r.same sum (r.of_ℕ 10000))
      then record {
        valid = false;
        total_bps = sum;
        error = some (codes "Weights must total exactly 100%.");
      }
      else record { valid = true; total_bps = sum; error = none }
