-- ===== src/Web/Allocation.antt =====
-- The table of a bot's allocation, web/components/allocation-table.tsx. A plan has the types that
-- its interfaces give it.
pub mod Unrun
use rebalance_webull.Prelude.{
  ℕ, Bool, true, false, Option, none, some, List, [], ◌∷◌, ◌++◌, Text, codes, map, if◌then◌else◌,
}
use rebalance_webull.Js.{Runtime, Decimals, Json, str, ◌>>=◌}
use rebalance_webull.Web.Format.{Display, bps, money, quantity, signed_bps}

pub record AllocationTarget (N : Type 0) : Type 0 where
  pub symbol : Text
  pub target_weight_bps : N

pub record PlanDrift (N : Type 0) : Type 0 where
  pub symbol : Text
  pub price : Text
  pub current_quantity : Text
  pub current_value : Text
  pub target_value : Text
  pub current_weight_bps : N
  pub target_weight_bps : N
  pub drift_bps : N

pub record Skipped : Type 0 where
  pub symbol : Text
  pub side : Text
  pub reason : Text

-- What the table reads of a plan; `none` is `undefined`.
pub record Plan (N : Type 0) : Type 0 where
  pub portfolio_value : Option (Json N)
  pub deployable_value : Option (Json N)
  pub drifts : Option (List (PlanDrift N))
  pub skipped : Option (List Skipped)

-- The colour of a drift: the classes muted, negative and accent.
pub data DriftTone : Type 0 where
  muted_tone negative_tone accent_tone : DriftTone

-- A row of the table, by what its cells show.
pub record Row : Type 0 where
  pub symbol : Text
  pub liquidating : Bool
  pub held : Text
  pub value : Text
  pub current : Text
  pub target : Text
  pub drift : Text
  pub tone : DriftTone
  pub bar_over : Bool
  pub bar_left : Text
  pub bar_width : Text
  pub mark_left : Text
  pub mark_title : Text

abbrev skipped_text : Skipped → Text
skipped_text s = s.side ++ (codes " " ++ (s.symbol ++ (codes " — " ++ s.reason)))

module _ {N : Type 0} ⦃r : Runtime N⦄ where
  -- A target of which there is no run yet.
  unfoldable pub unrun : Decimals N r → AllocationTarget N → PlanDrift N
  unrun d t = record {
    symbol = t.symbol;
    price = codes "0";
    current_quantity = codes "0";
    current_value = codes "0";
    target_value = codes "0";
    current_weight_bps = r.of_ℕ 0;
    target_weight_bps = t.target_weight_bps;
    drift_bps = d.neg t.target_weight_bps;
  }

  abbrev or_targets :
      Decimals N r → List (AllocationTarget N) → List (PlanDrift N) → List (PlanDrift N)
  or_targets d targets (drift ∷ drifts) = drift ∷ drifts
  or_targets d targets [] = map (unrun d) targets

  abbrev drifts_of : Option (Plan N) → List (PlanDrift N)
  drifts_of none = []
  drifts_of (some plan) = elim plan.drifts [ none ↦ [] | some drifts ↦ drifts ]

  -- `rows`
  unfoldable pub drift_rows :
      Decimals N r → List (AllocationTarget N) → Option (Plan N) → List (PlanDrift N)
  unfolding unrun
  drift_rows d targets plan = or_targets d targets (drifts_of plan)

  abbrev percent : Decimals N r → N → Text
  percent d x = r.text_of_number (d.div x (r.of_ℕ 100)) ++ codes "%"

  unfoldable pub drift_tone : Decimals N r → N → DriftTone
  drift_tone d drift =
      if r.lt (d.abs drift) (r.of_ℕ 50)
      then muted_tone
      else if r.lt (r.of_ℕ 0) drift
      then negative_tone
      else accent_tone

  -- The cells of a row, with the texts of its quantity and value.
  unfoldable pub cells : Decimals N r → PlanDrift N → Text → Text → Row
  unfolding drift_tone bps signed_bps
  cells d row held value = record {
    symbol = row.symbol;
    liquidating = r.same row.target_weight_bps (r.of_ℕ 0);
    held = held;
    value = value;
    current = bps d 2 (some row.current_weight_bps);
    target = bps d 2 (some row.target_weight_bps);
    drift = signed_bps d (some row.drift_bps);
    tone = drift_tone d row.drift_bps;
    bar_over = r.lt (r.of_ℕ 0) row.drift_bps;
    bar_left = percent d (d.min row.current_weight_bps row.target_weight_bps);
    bar_width =
        r.text_of_number (d.max (d.div (d.abs row.drift_bps) (r.of_ℕ 100)) d.half) ++ codes "%";
    mark_left = percent d row.target_weight_bps;
    mark_title = codes "target " ++ bps d 2 (some row.target_weight_bps);
  }

  -- A row; `none` is an exception.
  unfoldable pub row_of : Decimals N r → Display N → Text → PlanDrift N → Option Row
  unfolding cells money quantity
  row_of d p currency row = quantity p (some (str row.current_quantity)) >>= λ held.
      money p (some (str row.current_value)) currency >>= λ value. some (cells d row held value)

  unfoldable pub rows_of : Decimals N r → Display N → Text → List (PlanDrift N) → Option (List Row)
  unfolding row_of
  rows_of d p currency [] = some []
  rows_of d p currency (row ∷ rows) =
      row_of d p currency row >>= λ first. rows_of d p currency rows >>= λ rest. some (first ∷ rest)

  -- The line beside the title.
  unfoldable pub heading : Display N → Text → Option (Plan N) → Option Text
  unfolding money
  heading p currency none = some (codes "target basket — no run yet")
  heading p currency (some plan) = money p plan.portfolio_value currency >>= λ portfolio.
      money p plan.deployable_value currency >>= λ deployable.
      some (codes "portfolio " ++ (portfolio ++ (codes " · deployable " ++ deployable)))

  -- The orders that the last run declined to place.
  unfoldable pub skipped_lines : Option (Plan N) → List Text
  skipped_lines none = []
  skipped_lines (some plan) = elim plan.skipped [
    | none ↦ []
    | some skipped ↦ map skipped_text skipped
  ]
