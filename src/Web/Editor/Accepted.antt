-- ===== src/Web/Editor/Accepted.antt =====
-- A basket that was split evenly can be submitted, and the server accepts it:
-- web/components/bot-form.tsx against `readTargets` of
-- supabase/functions/_shared/validation.ts.
use rebalance_webull.Prelude.{
  ℕ, ◌+◌, ◌≡◌, ◌≢◌, sym, ◌∙◌, true, false, some, List, [], ◌∷◌, Text, text_eq, any, length,
  length-map, map, arith,
}
use rebalance_webull.Js.{Runtime, Decimals}
use rebalance_webull.Validation.Basket.{IsFresh, HasSymbols}
use rebalance_webull.Web.Targets.{TargetInput, set_from, total_bps, symbol_of, validate_targets}
use rebalance_webull.Web.Form.Submission.{bot_of, IsFilled, parse_create_bot-form_body}
use rebalance_webull.Validation.Bot.{parse_create_bot}
use rebalance_webull.Web.Form.{form_body, submitted}
use rebalance_webull.Web.Editor.{
  form_of, TargetRow, input_of, inputs, FormState, opened, split_rows, with_percent,
  press_split_evenly, edited, can_submit,
}
use rebalance_webull.Web.Editor.Rows.{IsDistinct, Reach, Reach-IsKeyed}
use rebalance_webull.Web.Editor.Split.{shares, split_rows-shares, length-split_rows}

-- The converse of what the form's test for duplicates shows.
length-set_from_of_IsFresh :
    {N : Type 0} (r : Runtime N) (held : List Text) (ts : List TargetInput)
    → IsFresh held (map (submitted ⦃r = r⦄) ts)
    → length (set_from held (map (symbol_of r) ts)) ≡ length held + length ts
unfolding set_from
length-set_from_of_IsFresh r held [] h = omega arith
length-set_from_of_IsFresh r held (t ∷ ts) (new, h) =
    let fresh : any (text_eq (symbol_of r t)) held ≡ false = new in
    rw (fresh, set_from) (length-set_from_of_IsFresh r (symbol_of r t ∷ held) ts h ∙ omega arith)

module _ {N : Type 0} ⦃r : Runtime N⦄ (d : Decimals N r) where
  -- The symbols stay, and so does what holds of them.
  HasSymbols-with_percent :
      (t : Text) (rows : List TargetRow)
      → HasSymbols {N = N} (map submitted (inputs rows))
      → HasSymbols {N = N} (map submitted (inputs (map (with_percent t) rows)))
  unfolding symbol_of
  HasSymbols-with_percent t [] h = tt
  HasSymbols-with_percent t (row ∷ rows) (pattern, h) = (pattern, HasSymbols-with_percent t rows h)

  HasSymbols-split_rows :
      (count : ℕ) (rows : List TargetRow)
      → HasSymbols {N = N} (map submitted (inputs rows))
      → HasSymbols {N = N} (map submitted (inputs (split_rows d count rows)))
  unfolding split_rows symbol_of
  HasSymbols-split_rows count [] h = tt
  HasSymbols-split_rows count (row ∷ rows) (pattern, h) =
      (pattern, HasSymbols-with_percent _ rows h)

  IsFresh-with_percent :
      (seen : List Text) (t : Text) (rows : List TargetRow)
      → IsFresh {N = N} seen (map submitted (inputs rows))
      → IsFresh {N = N} seen (map submitted (inputs (map (with_percent t) rows)))
  unfolding symbol_of
  IsFresh-with_percent seen t [] h = tt
  IsFresh-with_percent seen t (row ∷ rows) (new, h) =
      (new, IsFresh-with_percent (symbol_of r (input_of row) ∷ seen) t rows h)

  IsFresh-split_rows :
      (count : ℕ) (rows : List TargetRow)
      → IsFresh {N = N} [] (map submitted (inputs rows))
      → IsFresh {N = N} [] (map submitted (inputs (split_rows d count rows)))
  unfolding split_rows symbol_of
  IsFresh-split_rows count [] h = tt
  IsFresh-split_rows count (row ∷ rows) (new, h) =
      (new, IsFresh-with_percent (symbol_of r (input_of row) ∷ []) _ rows h)

  valid_of :
      (ts : List TargetInput)
      → length ts ≢ 0
      → IsFresh {N = N} [] (map submitted ts)
      → total_bps ts ≡ r.of_ℕ 10000
      → (validate_targets {N = N} ts).valid ≡ true
  unfolding validate_targets
  valid_of ts some_row fresh balanced =
      let same_count : length (set_from [] (map (symbol_of r) ts)) ≡ length (map (symbol_of r) ts) =
        length-set_from_of_IsFresh r [] ts fresh
        ∙ omega arith
        ∙ sym (length-map (symbol_of r) ts) in
      let whole : r.same (total_bps ts) (r.of_ℕ 10000) ≡ true =
        rw balanced (r.same-of_ℕ 10000 10000 (omega arith) (omega arith)) in
      ground arith

  IsFilled-split :
      (s : FormState)
      → IsFilled r (form_of s)
      → IsFilled r (form_of (edited d press_split_evenly s))
  unfolding edited
  IsFilled-split s h = record {
    name = h.name;
    amount = h.amount;
    interval = h.interval;
    threshold = h.threshold;
    min_order = h.min_order;
    buffer = h.buffer;
  }

  -- However the user came to the state of the form, if its fields are within the bounds of a new
  -- bot's and the symbols of its rows are well-formed and distinct, then after "Split evenly" the
  -- button "Create bot" is enabled, unless a submission is pending, and the server parses the
  -- submitted body without an issue as the very bot and holdings that the form describes.
  pub parse_create_bot-split_evenly :
      (a b c : Text) {s : FormState}
      → IsDistinct (a ∷ b ∷ c ∷ [])
      → Reach d (opened a b c) s
      → IsFilled r (form_of s)
      → HasSymbols {N = N} (map submitted (inputs s.targets))
      → IsFresh {N = N} [] (map submitted (inputs s.targets))
      → (can_submit r false (edited d press_split_evenly s) ≡ true)
        × (parse_create_bot {N = N} (form_body (form_of (edited d press_split_evenly s)))
            ≡ some (record {
              value = some (
                bot_of (form_of s),
                map submitted (inputs (edited d press_split_evenly s).targets),
              );
              issues = [];
            }))
  unfolding edited can_submit
  parse_create_bot-split_evenly a b c {s} distinct reached filled symbols fresh =
      let (low, high, keys) = Reach-IsKeyed d a b c distinct reached in
      let (weighed, whole, balanced) = split_rows-shares d s.targets low high in
      let split = inputs (split_rows d (length s.targets) s.targets) in
      let count : length split ≡ length s.targets =
        length-map input_of (split_rows d (length s.targets) s.targets)
        ∙ length-split_rows d (length s.targets) s.targets in
      let valid : (validate_targets {N = N} split).valid ≡ true =
        valid_of split (λ e. absurd (omega (arith, count, e)))
          (IsFresh-split_rows (length s.targets) s.targets fresh) balanced in
      (
        valid,
        parse_create_bot-form_body (form_of (edited d press_split_evenly s))
            (shares (length s.targets) s.targets) (IsFilled-split s filled) valid
            (omega (arith, count)) (HasSymbols-split_rows (length s.targets) s.targets symbols)
            weighed,
      )
