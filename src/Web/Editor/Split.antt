-- ===== src/Web/Editor/Split.antt =====
-- "Split evenly" of web/components/bot-form.tsx, against the rules of the server for a basket.
use native.Mathlib.Nat.{div-mul-le_self}
use rebalance_webull.Prelude.{
  ℕ, zero, suc, ◌+◌, ◌-◌, ◌*◌, ◌/◌, ◌≤◌, ◌≡◌, ◌≢◌, refl, ap, ◌∙◌, List, [], ◌∷◌, Text, length,
  length-map, map, arith,
}
use rebalance_webull.Js.{Runtime, Decimals}
use rebalance_webull.Validation.Targets.{total}
use rebalance_webull.Validation.Basket.{sum, Weighs}
use rebalance_webull.Validation.Basket.Sound.{total-eq}
use rebalance_webull.Web.Targets.{percent_to_bps, total_bps}
use rebalance_webull.Web.Form.{submitted}
use rebalance_webull.Web.Form.Agreement.{sum_from-eq-total_from}
use rebalance_webull.Web.Editor.{
  TargetRow, input_of, inputs, split_rows, with_percent, percent_text, each_of, remainder_of,
}

-- The whole basis points of each row but the first, and of the first.
abbrev pub share : ℕ → ℕ
share count = 10000 / count

abbrev pub first_share : ℕ → ℕ
first_share count = share count + (10000 - share count * count)

share-le : (count : ℕ) → share count * count ≤ 10000
share-le count = div-mul-le_self 10000 count

share_small : (count : ℕ) → 1 ≤ count → share count ≤ 10000
share_small zero h = absurd (omega (arith, h))
share_small (suc n) h = omega (arith, share-le (suc n))

first_share_small : (count : ℕ) → 1 ≤ count → first_share count ≤ 10000
first_share_small zero h = absurd (omega (arith, h))
first_share_small (suc n) h = omega (arith, share-le (suc n))

abbrev pub shares : ℕ → List TargetRow → List ℕ
shares count [] = []
shares count (row ∷ rows) = first_share count ∷ map (λ row. share count) rows

sum-same : (q : ℕ) (rows : List TargetRow) → sum (map (λ row. q) rows) ≡ q * length rows
sum-same q [] = omega arith
sum-same q (row ∷ rows) = omega (arith, sum-same q rows)

sum-shares : (rows : List TargetRow) → 1 ≤ length rows → sum (shares (length rows) rows) ≡ 10000
sum-shares [] h = absurd (omega (arith, h))
sum-shares (row ∷ rows) h =
    omega (arith, sum-same (share (suc (length rows))) rows, share-le (suc (length rows)))

module _ {N : Type 0} ⦃r : Runtime N⦄ (d : Decimals N r) where
  percent_to_bps-written :
      (t : Text) → t ≢ [] → percent_to_bps t ≡ r.round (r.mul (r.number_of_text t) (r.of_ℕ 100))
  unfolding percent_to_bps
  percent_to_bps-written [] h = absurd (h refl)
  percent_to_bps-written (c ∷ t) h = refl

  percent_to_bps-percent_text :
      (n : ℕ) → n ≤ 10000 → percent_to_bps (percent_text d (r.of_ℕ n)) ≡ r.of_ℕ n
  percent_to_bps-percent_text n h =
      percent_to_bps-written (percent_text d (r.of_ℕ n)) (d.to_fixed-written 2 _)
      ∙ ap (λ x. r.round (r.mul x (r.of_ℕ 100))) (d.to_fixed-read n h)
      ∙ d.round-hundredths n h

  each_of-eq : (count : ℕ) → 1 ≤ count → count ≤ 50 → each_of d count ≡ r.of_ℕ (share count)
  each_of-eq count low high = d.floor-div 10000 count (omega arith) low (omega arith)

  first-eq :
      (count : ℕ)
      → 1 ≤ count
      → count ≤ 50
      → r.add (each_of d count) (remainder_of d count) ≡ r.of_ℕ (first_share count)
  first-eq count low high =
      let small = share-le count in
      rw
        (
          remainder_of,
          each_of-eq count low high,
          d.mul-of_ℕ (share count) count (omega arith),
          d.sub-of_ℕ 10000 (share count * count) small (omega arith),
        )
        (r.add-of_ℕ (share count) (10000 - share count * count)
          (omega (arith, first_share_small count low)))

  each-Weighs :
      (count : ℕ) (rows : List TargetRow)
      → 1 ≤ count
      → count ≤ 50
      → Weighs r
          (map submitted (inputs (map (with_percent (percent_text d (each_of d count))) rows)))
          (map (λ row. share count) rows)
  each-Weighs count [] low high = tt
  each-Weighs count (row ∷ rows) low high = (
    ap (λ x. percent_to_bps (percent_text d x)) (each_of-eq count low high)
        ∙ percent_to_bps-percent_text (share count) (share_small count low),
    share_small count low,
    each-Weighs count rows low high,
  )

  split_rows-Weighs :
      (count : ℕ) (rows : List TargetRow)
      → 1 ≤ count
      → count ≤ 50
      → Weighs r (map submitted (inputs (split_rows d count rows))) (shares count rows)
  unfolding split_rows
  split_rows-Weighs count [] low high = tt
  split_rows-Weighs count (row ∷ rows) low high = (
    ap (λ x. percent_to_bps (percent_text d x)) (first-eq count low high)
        ∙ percent_to_bps-percent_text (first_share count) (first_share_small count low),
    first_share_small count low,
    each-Weighs count rows low high,
  )

  pub length-split_rows :
      (count : ℕ) (rows : List TargetRow) → length (split_rows d count rows) ≡ length rows
  unfolding split_rows
  length-split_rows count [] = refl
  length-split_rows count (row ∷ rows) = ap suc (length-map _ rows)

  -- A split of 1 to 50 rows gives each the whole basis points of 10000 / count, and the first the
  -- remainder besides: read back from the texts in the fields, these weights sum to 10000, and so
  -- does the form's sum in doubles.
  pub split_rows-shares :
      (rows : List TargetRow)
      → 1 ≤ length rows
      → length rows ≤ 50
      → Weighs r
          (map submitted (inputs (split_rows d (length rows) rows)))
          (shares (length rows) rows)
        × (sum (shares (length rows) rows) ≡ 10000)
        × (total_bps (inputs (split_rows d (length rows) rows)) ≡ r.of_ℕ 10000)
  unfolding total_bps total
  split_rows-shares rows low high =
      let split = inputs (split_rows d (length rows) rows) in
      let weighed = split_rows-Weighs (length rows) rows low high in
      let count : length (map (submitted {N = N}) split) ≡ length rows =
        length-map submitted split
        ∙ length-map input_of (split_rows d (length rows) rows)
        ∙ length-split_rows (length rows) rows in
      let whole = sum-shares rows low in
      (
        weighed,
        whole,
        sum_from-eq-total_from N (r.of_ℕ 0) split (shares (length rows) rows) weighed
            ∙ total-eq (map submitted split) (shares (length rows) rows) weighed
                (omega (arith, count))
            ∙ ap r.of_ℕ whole,
      )
