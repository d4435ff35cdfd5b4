-- ===== src/Web/Form/Agreement.antt =====
-- A basket that the form calls valid is accepted by the server: web/lib/targets.ts against
-- `readTargets` of supabase/functions/_shared/validation.ts.
use rebalance_webull.Prelude.{
  ℕ, suc, ◌+◌, ◌≤◌, ◌≡◌, ◌≢◌, refl, ◌∙◌, true, some, List, [], ◌∷◌, Text, text_eq, map, any, length,
  length-map, arith, Bool-cases, inl, inr,
}
use rebalance_webull.Js.{Runtime, arr}
use rebalance_webull.Validation.Targets.{total, total_from, read_targets}
use rebalance_webull.Validation.Accept.{Accepts}
use rebalance_webull.Validation.Basket.{sum, IsFresh, HasSymbols, Weighs, IsBasket}
use rebalance_webull.Validation.Basket.Sound.{sum-le, total-eq, balanced_of_same}
use rebalance_webull.Validation.Basket.Complete.{items_json, read_targets_of_IsBasket}
use rebalance_webull.Web.Targets.{
  TargetInput, set_from, percent_to_bps, sum_from, total_bps, symbol_of, validate_targets,
}
use rebalance_webull.Web.Form.{submitted, form_items}

length-set_from : (held ts : List Text) → length (set_from held ts) ≤ length held + length ts
unfolding set_from
length-set_from held [] = omega arith
length-set_from held (t ∷ ts) = elim (Bool-cases (any (text_eq t) held)) [
  | inl old ↦ rw old (omega (arith, length-set_from held ts))
  | inr new ↦ rw new (omega (arith, length-set_from (t ∷ held) ts))
]

module _ (N : Type 0) ⦃r : Runtime N⦄ where
  -- If no text was dropped, each is new.
  IsFresh-of_length :
      (held : List Text) (ts : List TargetInput)
      → length (set_from held (map (symbol_of r) ts)) ≡ length held + length ts
      → IsFresh {N = N} held (map submitted ts)
  unfolding set_from
  IsFresh-of_length held [] h = tt
  IsFresh-of_length held (t ∷ ts) h = elim (Bool-cases (any (text_eq (symbol_of r t)) held)) [
    | inl old ↦
        let short = length-set_from held (map (symbol_of r) ts) in
        let same = length-map (symbol_of r) ts in
        let kept : length (set_from held (map (symbol_of r) ts)) ≡ length held + suc (length ts) =
          rw (old, set_from) at h in
        absurd (omega arith)
    | inr new ↦
        (new, IsFresh-of_length (symbol_of r t ∷ held) ts ((rw (new, set_from) at h) ∙ omega arith))
  ]

  -- The form's sum of the weights is the server's.
  pub sum_from-eq-total_from :
      (k : N) (ts : List TargetInput) (ws : List ℕ)
      → Weighs r (map submitted ts) ws
      → sum_from k ts ≡ total_from k (map submitted ts)
  unfolding sum_from total_from
  sum_from-eq-total_from k [] ws h = refl
  sum_from-eq-total_from k (t ∷ ts) [] h = absurd h
  sum_from-eq-total_from k (t ∷ ts) (w ∷ ws) (same, small, h) =
      let finite : r.is_finite (percent_to_bps t.percent) ≡ true =
        rw same (r.is_finite_of_is_integer (r.of_ℕ w) (r.is_integer-of_ℕ w (omega arith))) in
      rw (finite, total_from) (sum_from-eq-total_from (r.add k (percent_to_bps t.percent)) ts ws h)

  form_items-eq :
      (ts : List TargetInput) (ws : List ℕ)
      → Weighs r (map submitted ts) ws
      → form_items {N = N} ts ≡ items_json (map submitted ts)
  unfolding form_items
  form_items-eq [] ws h = refl
  form_items-eq (t ∷ ts) [] h = absurd h
  form_items-eq (t ∷ ts) (w ∷ ws) (same, small, h) =
      let finite : r.is_finite (percent_to_bps t.percent) ≡ true =
        rw same (r.is_finite_of_is_integer (r.of_ℕ w) (r.is_integer-of_ℕ w (omega arith))) in
      rw (finite, form_items-eq ts ws h)

  -- What the form's verdict says.
  valid_says :
      (ts : List TargetInput)
      → (validate_targets {N = N} ts).valid ≡ true
      → (length ts ≢ 0)
        × (length (set_from [] (map (symbol_of r) ts)) ≡ length (map (symbol_of r) ts))
        × (r.same (total_bps ts) (r.of_ℕ 10000) ≡ true)
  unfolding validate_targets
  valid_says ts h = ground arith

  form-IsBasket :
      (ts : List TargetInput) (ws : List ℕ)
      → (validate_targets {N = N} ts).valid ≡ true
      → length ts ≤ 50
      → HasSymbols {N = N} (map submitted ts)
      → Weighs r (map submitted ts) ws
      → IsBasket r (map submitted ts)
  unfolding total_bps total
  form-IsBasket ts ws valid few symbols weighed =
      let (not_empty, no_duplicate, balanced) = valid_says ts valid in
      let count : length (map submitted ts) ≡ length ts = length-map (submitted {N = N}) ts in
      let at_most : length (map (submitted {N = N}) ts) ≤ 50 = omega (arith, count) in
      let same_sum : total_bps ts ≡ r.of_ℕ (sum ws) =
        sum_from-eq-total_from (r.of_ℕ 0) ts ws weighed
        ∙ total-eq (map submitted ts) ws weighed at_most in
      record {
        some_holding = omega (arith, count);
        at_most = at_most;
        symbols = symbols;
        distinct =
            IsFresh-of_length [] ts (no_duplicate ∙ length-map (symbol_of r) ts ∙ omega arith);
        weights = ws;
        weighed = weighed;
        balanced =
            balanced_of_same r (sum ws) (omega (arith, sum-le (map submitted ts) ws weighed))
              (rw same_sum at balanced);
      }

  -- If the form calls a basket of at most 50 rows valid, its symbols have the pattern of a symbol
  -- and its percentages come to whole basis points from 0 to 10000, then the server reads what the
  -- form submits without an issue, as the very symbols and weights that the form computed.
  pub form_accepted :
      (ts : List TargetInput) (ws : List ℕ)
      → (validate_targets {N = N} ts).valid ≡ true
      → length ts ≤ 50
      → HasSymbols {N = N} (map submitted ts)
      → Weighs r (map submitted ts) ws
      → Accepts {N = N} (read_targets (some (arr (form_items ts)))) (map submitted ts)
  form_accepted ts ws valid few symbols weighed =
      rw (form_items-eq ts ws weighed) (
        read_targets_of_IsBasket (map submitted ts) (form-IsBasket ts ws valid few symbols weighed))
