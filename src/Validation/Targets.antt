-- ===== src/Validation/Targets.antt =====
-- `readTargets` of supabase/functions/_shared/validation.ts: the target holdings of a bot.
use rebalance_webull.Prelude.{
  ℕ, suc, ◌+◌, Bool, ◌&&◌, ◌||◌, not, Option, none, some, List, [], ◌∷◌, Text, text_eq, trim,
  length, all, any, ltb, leb, ◌==◌, if◌then◌else◌,
}
use rebalance_webull.Js.{
  Runtime, Json, null, arr, Items, nil, cons, get, body_or_empty, to_text, to_number,
}
use rebalance_webull.Validation.Check.{
  must_be_a_list, add_at_least_one, at_most_50, bad_symbol, bad_weight, duplicate_symbol,
  weights_total, at_field, at_symbol, at_weight_bps, Checked, pure, ◌>>=◌, ◌>>◌, add, add_if,
}

pub record Target (N : Type 0) : Type 0 where
  pub symbol : Text
  pub weight_bps : N

abbrev pub is_symbol_char : ℕ → Bool
is_symbol_char c =
    (leb b'A' c && leb c b'Z') || (leb b'0' c && leb c b'9') || c == b'.' || c == b'-'

-- SYMBOL_PATTERN, /^[A-Z0-9.\-]{1,12}$/
unfoldable pub symbol_pattern : Text → Bool
symbol_pattern t = leb 1 (length t) && leb (length t) 12 && all is_symbol_char t

-- `input.length`
abbrev pub count_items : {N : Type 0} → Items N → ℕ
count_items nil = 0
count_items (cons v vs) = suc (count_items vs)

module _ {N : Type 0} ⦃r : Runtime N⦄ where
  -- `String(item.symbol ?? "")` and `Number(item.weight_bps)`.
  unfoldable pub symbol_text : Option (Json N) → Option Text
  symbol_text none = some []
  symbol_text (some null) = some []
  symbol_text (some v) = to_text v

  unfoldable pub weight_number : Option (Json N) → Option N
  weight_number none = some r.nan
  weight_number (some v) = to_number v

  -- An exception of a coercion, as one of the reader.
  abbrev pub coerce : {A : Type 0} → Option A → Checked N A
  coerce none = none
  coerce (some a) = pure a

  unfoldable pub is_weight : N → Bool
  is_weight w = r.is_integer w && not (r.lt w (r.of_ℕ 0)) && not (r.lt (r.of_ℕ 10000) w)

  -- One round of `input.forEach`, with the symbols seen before.
  unfoldable pub read_row : ℕ → List Text → Json N → Checked N (Target N)
  unfolding symbol_text weight_number is_weight symbol_pattern
  read_row index seen row = do
    let item = body_or_empty row
    text ← coerce (symbol_text (get item "symbol"))
    let symbol = r.to_upper (trim text)
    weight ← coerce (weight_number (get item "weight_bps"))
    add_if (not (symbol_pattern symbol)) (at_symbol index) bad_symbol
    add_if (not (is_weight weight)) (at_weight_bps index) bad_weight
    add_if (any (text_eq symbol) seen) (at_symbol index) (duplicate_symbol symbol)
    pure (record { symbol = symbol; weight_bps = weight })

  unfoldable pub read_rows : ℕ → List Text → Items N → Checked N (List (Target N))
  unfolding read_row
  read_rows index seen nil = pure []
  read_rows index seen (cons row rows) = do
    target ← read_row index seen row
    targets ← read_rows (index + 1) (target.symbol ∷ seen) rows
    pure (target ∷ targets)

  -- The `reduce` that totals the weights.
  unfoldable pub total_from : N → List (Target N) → N
  total_from sum [] = sum
  total_from sum (t ∷ ts) =
      total_from (r.add sum (if r.is_finite t.weight_bps then t.weight_bps else r.of_ℕ 0)) ts

  unfoldable pub total : List (Target N) → N
  unfolding total_from
  total ts = total_from (r.of_ℕ 0) ts

  unfoldable pub read_list : Items N → Checked N (List (Target N))
  unfolding read_rows total
  read_list rows = do
    add_if (count_items rows == 0) (at_field "targets") add_at_least_one
    add_if (ltb 50 (count_items rows)) (at_field "targets") at_most_50
    targets ← read_rows 0 [] rows
    let sum = total targets
    add_if (ltb 0 (length targets) && not (r.same sum (r.of_ℕ 10000))) (at_field "targets")
        (weights_total sum)
    pure targets

  unfoldable pub read_targets : Option (Json N) → Checked N (List (Target N))
  unfolding read_list
  read_targets (some (arr rows)) = read_list rows
  read_targets input = do add (at_field "targets") must_be_a_list; pure []
