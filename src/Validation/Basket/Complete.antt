-- ===== src/Validation/Basket/Complete.antt =====
-- A basket, written as JSON, is read back by `readTargets` of validation.ts.
use rebalance_webull.Prelude.{
  ℕ, suc, ◌+◌, ◌≤◌, ◌≡◌, refl, ap, true, false, some, List, [], ◌∷◌, Text, text_eq, length, any,
  all, arith, ltb, ◌==◌,
}
use rebalance_webull.Js.{
  Runtime, Json, str, num, arr, obj, Items, nil, cons, field, end, get, body_or_empty, to_text,
  to_number,
}
use rebalance_webull.Validation.Check.{}
use rebalance_webull.Validation.Targets.{
  Target, symbol_pattern, is_symbol_char, is_weight, read_row, read_rows, total, count_items,
  read_targets,
}
use rebalance_webull.Validation.Accept.{Accepts}
use rebalance_webull.Validation.Plain.{is_plain, upper_of_plain, all-weaken}
use rebalance_webull.Validation.Basket.{IsFresh, HasSymbols, Weighs, IsBasket}
use rebalance_webull.Validation.Basket.Sound.{total-eq}

-- The JSON of a holding and of a list of holdings.
abbrev pub target_json : {N : Type 0} → Target N → Json N
target_json t = obj (field "symbol" (str t.symbol) (field "weight_bps" (num t.weight_bps) end))

abbrev pub items_json : {N : Type 0} → List (Target N) → Items N
items_json [] = nil
items_json (t ∷ ts) = cons (target_json t) (items_json ts)

abbrev pub targets_json : {N : Type 0} → List (Target N) → Json N
targets_json ts = arr (items_json ts)

count_items_json : {N : Type 0} (ts : List (Target N)) → count_items (items_json ts) ≡ length ts
count_items_json [] = refl
count_items_json (t ∷ ts) = ap suc (count_items_json ts)

symbol_char_plain : (c : ℕ) → is_symbol_char c ≡ true → is_plain c ≡ true
symbol_char_plain c h = ground arith

pub symbol_pattern-plain : (t : Text) → symbol_pattern t ≡ true → all is_plain t ≡ true
unfolding symbol_pattern
symbol_pattern-plain t h = all-weaken is_symbol_char is_plain t symbol_char_plain (ground arith)

is_weight_complete :
    {N : Type 0} (r : Runtime N) (w : ℕ) → w ≤ 10000 → is_weight ⦃r = r⦄ (r.of_ℕ w) ≡ true
unfolding is_weight
is_weight_complete r w h =
    rw
      (
        r.is_integer-of_ℕ w (omega arith),
        r.lt-of_ℕ w 0 (omega arith) (omega arith),
        r.lt-of_ℕ 10000 w (omega arith) (omega arith),
      )
      (ground arith)

module _ {N : Type 0} ⦃r : Runtime N⦄ where
  read_row_of_valid :
      (index : ℕ) (seen : List Text) (t : Target N) (w : ℕ)
      → symbol_pattern t.symbol ≡ true
      → t.weight_bps ≡ r.of_ℕ w
      → w ≤ 10000
      → any (text_eq t.symbol) seen ≡ false
      → Accepts (read_row index seen (target_json t)) t
  unfolding read_row get body_or_empty to_text to_number
  read_row_of_valid index seen t w pattern same small fresh =
      let weight_ok : is_weight t.weight_bps ≡ true = rw same (is_weight_complete r w small) in
      rw (
        upper_of_plain r t.symbol (symbol_pattern-plain t.symbol pattern),
        pattern,
        fresh,
        weight_ok,
      )

  read_rows_of_valid :
      (index : ℕ) (seen : List Text) (ts : List (Target N)) (ws : List ℕ)
      → HasSymbols ts
      → IsFresh seen ts
      → Weighs r ts ws
      → Accepts (read_rows index seen (items_json ts)) ts
  unfolding read_rows
  read_rows_of_valid index seen [] ws symbols distinct weighed = refl
  read_rows_of_valid index seen (t ∷ ts) [] symbols distinct weighed = absurd weighed
  read_rows_of_valid index seen (t ∷ ts) (w ∷ ws) (pattern, symbols) (fresh, distinct)
        (same, small, weighed) =
      rw (
        read_row_of_valid index seen t w pattern same small fresh,
        read_rows_of_valid (index + 1) (t.symbol ∷ seen) ts ws symbols distinct weighed,
      )

  -- A basket is accepted as it is.
  pub read_targets_of_IsBasket :
      (ts : List (Target N)) → IsBasket r ts → Accepts (read_targets (some (targets_json ts))) ts
  unfolding read_targets
  read_targets_of_IsBasket ts b =
      let not_empty : (length ts == 0) ≡ false = ground (arith, b.some_holding) in
      let few : ltb 50 (length ts) ≡ false = ground (arith, b.at_most) in
      let rows : Accepts (read_rows 0 [] (items_json ts)) ts =
        read_rows_of_valid 0 [] ts b.weights b.symbols b.distinct b.weighed in
      let same : r.same (total ts) (r.of_ℕ 10000) ≡ true =
        rw (total-eq ts b.weights b.weighed b.at_most, b.balanced)
          (r.same-of_ℕ 10000 10000 (omega arith) (omega arith)) in
      rw (count_items_json ts, not_empty, few, rows, same) (ground (arith, b.some_holding))
