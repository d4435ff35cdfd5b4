-- ===== src/Web/Allocation/Unrun.antt =====
-- A basket before its first run, in web/components/allocation-table.tsx.
use rebalance_webull.Prelude.{
  ℕ, ◌≤◌, ◌≡◌, refl, false, none, some, List, [], ◌∷◌, Text, arith, ltb, ◌==◌, if◌then◌else◌,
}
use rebalance_webull.Web.Format.{Display, money, quantity, number_or_zero}
use rebalance_webull.Js.{to_number, to_text, Runtime, Decimals}
use rebalance_webull.Web.Allocation.{
  AllocationTarget, muted_tone, accent_tone, unrun, drift_rows, drift_tone, Row, cells, rows_of,
  row_of,
}

module _ {N : Type 0} ⦃r : Runtime N⦄ where
  -- Rows and targets, one to one: each row is of the symbol of its target, is liquidated only if
  -- the target weighs nothing, shows no excess, and is muted below 50 basis points.
  abbrev pub IsShort : List (AllocationTarget N) → List ℕ → List Row → Type 0
  IsShort [] [] [] = Unit
  IsShort (t ∷ ts) (w ∷ ws) (row ∷ rows) =
      (row.symbol ≡ t.symbol)
      × (row.liquidating ≡ (w == 0))
      × (row.bar_over ≡ false)
      × (row.tone ≡ (if ltb w 50 then muted_tone else accent_tone))
      × IsShort ts ws rows
  IsShort _ _ _ = ⊥

  -- The weights are the whole basis points `ws`.
  abbrev pub IsWeighed : List (AllocationTarget N) → List ℕ → Type 0
  IsWeighed [] [] = Unit
  IsWeighed (t ∷ ts) (w ∷ ws) = (t.target_weight_bps ≡ r.of_ℕ w) × (w ≤ 10000) × IsWeighed ts ws
  IsWeighed _ _ = ⊥

  -- The currency is one that `Intl` knows.
  abbrev pub IsCurrency : Display N → Text → Type 0
  IsCurrency p currency = (x : N) → (t : Text) × (p.currency_text currency x ≡ some t)

  unrun-tone :
      (d : Decimals N r) (w : ℕ)
      → w ≤ 10000
      → drift_tone d (d.neg (r.of_ℕ w)) ≡ (if ltb w 50 then muted_tone else accent_tone)
  unfolding drift_tone
  unrun-tone d w small =
      rw
        (
          d.abs-neg w (omega arith),
          r.lt-of_ℕ w 50 (omega arith) (omega arith),
          d.lt-neg w (omega arith),
        )
        refl

  row_of-unrun :
      (d : Decimals N r) (p : Display N) (currency : Text) (t : AllocationTarget N) (w : ℕ)
      → IsCurrency p currency
      → t.target_weight_bps ≡ r.of_ℕ w
      → w ≤ 10000
      → (row : Row) × (row_of d p currency (unrun d t) ≡ some row)
        × (row.symbol ≡ t.symbol)
        × (row.liquidating ≡ (w == 0))
        × (row.bar_over ≡ false)
        × (row.tone ≡ (if ltb w 50 then muted_tone else accent_tone))
  unfolding row_of unrun cells money quantity number_or_zero to_number to_text
  row_of-unrun d p currency t w known same small =
      let (text, money_shown) = known (
        if r.is_finite (r.number_of_text (b'0' ∷ []))
        then r.number_of_text (b'0' ∷ [])
        else r.of_ℕ 0) in
      (
        cells d (unrun d t) (p.decimal_text (r.number_of_text (b'0' ∷ []))) text,
        rw money_shown refl,
        refl,
        rw same (r.same-of_ℕ w 0 (omega arith) (omega arith)),
        rw same (d.lt-neg w (omega arith)),
        rw same (unrun-tone d w small),
      )

  -- Before its first run a bot shows its whole basket in a currency that `Intl` knows: a row for
  -- each target, in order, as underweight and never as overweight, muted below 50 basis points,
  -- and marked as being liquidated only if the target weighs nothing.
  pub rows_of-IsShort :
      (d : Decimals N r) (p : Display N) (currency : Text) (ts : List (AllocationTarget N))
      (ws : List ℕ)
      → IsCurrency p currency
      → IsWeighed ts ws
      → (rows : List Row) × (rows_of d p currency (drift_rows d ts none) ≡ some rows)
        × IsShort ts ws rows
  unfolding rows_of drift_rows
  rows_of-IsShort d p currency [] [] known weighed = ([], refl, tt)
  rows_of-IsShort d p currency (t ∷ ts) (w ∷ ws) known (same, small, weighed) =
      let (rows, shown, short) = rows_of-IsShort d p currency ts ws known weighed in
      let (row, row_shown, symbol, liquidating, over, tone) =
        row_of-unrun d p currency t w known same small in
      (row ∷ rows, rw (row_shown, shown) refl, (symbol, liquidating, over, tone, short))
  rows_of-IsShort d p currency [] (w ∷ ws) known weighed = absurd weighed
  rows_of-IsShort d p currency (t ∷ ts) [] known weighed = absurd weighed
