-- ===== src/Validation/Basket/Sound.antt =====
-- The holdings that `readTargets` of validation.ts accepts are a basket.
use rebalance_webull.Prelude.{
  sym, ◌∙◌, ap, ℕ, suc, ◌+◌, ◌*◌, ◌≤◌, ◌≡◌, refl, true, false, Option, none, some, List, [], ◌∷◌,
  Text, text_eq, length, any, arith, ==_iff,
}
use rebalance_webull.Js.{Runtime, Json, Items, nil, cons, arr, get, body_or_empty, exact_limit}
use rebalance_webull.Validation.Check.{pure, at_field, must_be_a_list}
use rebalance_webull.Validation.Targets.{
  Target, symbol_pattern, is_weight, coerce, symbol_text, weight_number, read_row, read_rows,
  total_from, total, count_items, read_list, read_targets,
}
use rebalance_webull.Validation.Accept.{
  Accepts, >>=-Accepts, pure-Accepts, add_if-Accepts, add-Accepts,
}
use rebalance_webull.Validation.Basket.{sum, IsFresh, HasSymbols, Weighs, IsBasket}

pub balanced_of_same :
    {N : Type 0} (r : Runtime N) (n : ℕ)
    → n ≤ 500000
    → r.same (r.of_ℕ n) (r.of_ℕ 10000) ≡ true
    → n ≡ 10000
balanced_of_same r n small h =
    (==_iff n 10000).0 (sym (r.same-of_ℕ n 10000 (omega arith) (omega arith)) ∙ h)

module _ {N : Type 0} ⦃r : Runtime N⦄ where
  -- A weight that the test lets through is a whole number of basis points.
  is_weight_sound : (x : N) → is_weight x ≡ true → (w : ℕ) × (w ≤ 10000) × (x ≡ r.of_ℕ w)
  unfolding is_weight
  is_weight_sound x h =
      r.integer_within x 10000 (omega arith) (ground arith) (ground arith) (ground arith)

  read_row-Accepts :
      (index : ℕ) (seen : List Text) (row : Json N) {t : Target N}
      → Accepts (read_row index seen row) t
      → (symbol_pattern t.symbol ≡ true)
        × (is_weight t.weight_bps ≡ true)
        × (any (text_eq t.symbol) seen ≡ false)
  unfolding read_row
  read_row-Accepts index seen row {t} h =
      let item = body_or_empty row in
      let (text, _, h₁) = >>=-Accepts (coerce (symbol_text (get item "symbol"))) _ h in
      let (weight, _, h₂) = >>=-Accepts (coerce (weight_number (get item "weight_bps"))) _ h₁ in
      let (symbol_ok, h₃) = add_if-Accepts _ _ _ _ h₂ in
      let (weight_ok, h₄) = add_if-Accepts _ _ _ _ h₃ in
      let (fresh, h₅) = add_if-Accepts _ _ _ _ h₄ in
      rw (pure-Accepts h₅) (ground arith, ground arith, fresh)

  read_rows-Accepts :
      (index : ℕ) (seen : List Text) (rows : Items N) {ts : List (Target N)}
      → Accepts (read_rows index seen rows) ts
      → (length ts ≡ count_items rows)
        × HasSymbols ts
        × IsFresh seen ts
        × ((ws : List ℕ) × Weighs r ts ws)
  unfolding read_rows
  read_rows-Accepts index seen nil {ts} h = rw (pure-Accepts h) (refl, tt, tt, ([], tt))
  read_rows-Accepts index seen (cons row rows) {ts} h =
      let (t, read, h₁) = >>=-Accepts (read_row index seen row) _ h in
      let (more, read_more, h₂) =
        >>=-Accepts (read_rows (index + 1) (t.symbol ∷ seen) rows) (λ targets. pure (t ∷ targets))
          h₁ in
      let (symbol_ok, weight_ok, fresh) = read_row-Accepts index seen row read in
      let (w, small, same) = is_weight_sound t.weight_bps weight_ok in
      let (count, symbols, distinct, (ws, weighed)) =
        read_rows-Accepts (index + 1) (t.symbol ∷ seen) rows read_more in
      rw (pure-Accepts h₂)
        (ap suc count, (symbol_ok, symbols), (fresh, distinct), (w ∷ ws, (same, small, weighed)))

  pub sum-le : (ts : List (Target N)) (ws : List ℕ) → Weighs r ts ws → sum ws ≤ 10000 * length ts
  sum-le [] [] h = omega arith
  sum-le (t ∷ ts) (w ∷ ws) h = omega (arith, sum-le ts ws h.2)
  sum-le [] (w ∷ ws) h = absurd h
  sum-le (t ∷ ts) [] h = absurd h

  -- The sum in doubles is the sum of the whole numbers.
  total_from-eq :
      (ts : List (Target N)) (ws : List ℕ) (k : ℕ)
      → Weighs r ts ws
      → k + sum ws ≤ exact_limit
      → total_from (r.of_ℕ k) ts ≡ r.of_ℕ (k + sum ws)
  unfolding total_from
  total_from-eq [] [] k h small = ap r.of_ℕ (omega arith)
  total_from-eq [] (w ∷ ws) k h small = absurd h
  total_from-eq (t ∷ ts) [] k h small = absurd h
  total_from-eq (t ∷ ts) (w ∷ ws) k (same, bound, more) small =
      let finite : r.is_finite (r.of_ℕ w) ≡ true =
        r.is_finite_of_is_integer (r.of_ℕ w) (r.is_integer-of_ℕ w (omega arith)) in
      rw (same, finite, r.add-of_ℕ k w (omega arith))
        (total_from-eq ts ws (k + w) more (omega arith) ∙ ap r.of_ℕ (omega arith))

  pub total-eq :
      (ts : List (Target N)) (ws : List ℕ)
      → Weighs r ts ws
      → length ts ≤ 50
      → total ts ≡ r.of_ℕ (sum ws)
  unfolding total
  total-eq ts ws h few =
      total_from-eq ts ws 0 h (omega (arith, sum-le ts ws h)) ∙ ap r.of_ℕ (omega arith)

  read_list-IsBasket :
      (rows : Items N) {ts : List (Target N)} → Accepts (read_list rows) ts → IsBasket r ts
  unfolding read_list
  read_list-IsBasket rows {ts} h =
      let (not_empty, h₁) = add_if-Accepts _ _ _ _ h in
      let (few, h₂) = add_if-Accepts _ _ _ _ h₁ in
      let (targets, read, h₃) = >>=-Accepts (read_rows 0 [] rows) _ h₂ in
      let (whole, h₄) = add_if-Accepts _ _ _ _ h₃ in
      let (count, symbols, distinct, (ws, weighed)) = read_rows-Accepts 0 [] rows read in
      let some_holding : 1 ≤ length targets = ground arith in
      let at_most : length targets ≤ 50 = ground arith in
      let same : r.same (total targets) (r.of_ℕ 10000) ≡ true = ground arith in
      rw (pure-Accepts h₄) (record {
        some_holding = some_holding;
        at_most = at_most;
        symbols = symbols;
        distinct = distinct;
        weights = ws;
        weighed = weighed;
        balanced =
            balanced_of_same r (sum ws) (omega (arith, sum-le targets ws weighed))
              (rw (total-eq targets ws weighed at_most) at same);
      })

  -- Holdings that are read without an issue are a basket.
  pub read_targets-IsBasket :
      (input : Option (Json N)) {ts : List (Target N)}
      → Accepts (read_targets input) ts
      → IsBasket r ts
  unfolding read_targets
  read_targets-IsBasket (some (arr rows)) h = read_list-IsBasket rows h
  read_targets-IsBasket none h =
      absurd (add-Accepts (at_field "targets") must_be_a_list (pure []) h)
  read_targets-IsBasket _ h = absurd (add-Accepts (at_field "targets") must_be_a_list (pure []) h)
