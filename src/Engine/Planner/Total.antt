-- ===== src/Engine/Planner/Total.antt =====
-- Inputs of which `build_plan` of api/src/engine/rebalance.py raises no error.
use native.Mathlib.Nat.{ℕ_set}
use mathlib.Core.Logic.{∥∥₁_elim}
use mathlib.Core.List.{Perm, Permᴰ}
use rebalance_webull.Prelude.{
  ℕ, suc, ◌+◌, ◌≤◌, ◌≡◌, inl, inr, refl, ap, ◌∙◌, true, false, List, [], ◌∷◌, ◌++◌, map, any, All,
  Text, text_eq, text_eq_iff, arith, ltb, ◌==◌, Bool-cases, some,
}
use rebalance_webull.Engine.Money.{pos}
use rebalance_webull.Engine.Models.{
  EngineTarget, Holding, RebalanceSettings, RebalancePlan, planned,
}
use rebalance_webull.Engine.Planner.Inputs.{
  Prices, Held, Weighted, Priced, check_targets, validate_targets, total_weight, read_held,
  universe, price_all, price_for, fallen_out, symbols_held, symbols_weighted,
}
use rebalance_webull.Engine.Planner.Symbols.{
  fallen_out-times, times, times-append, times-map_append, IsDistinct,
}
use rebalance_webull.Engine.Planner.{plan_of, non_negative, positive_investment, build_plan}

-- A target that was read from a row.
abbrev pub to_target : Weighted → EngineTarget
to_target w = record { symbol = w.symbol; weight_bps = pos w.weight }

Permᴰ-times :
    {v w : List Weighted} (s : Text)
    → Permᴰ v w
    → times s (symbols_weighted v) ≡ times s (symbols_weighted w)
Permᴰ-times s Permᴰ.nil = refl
Permᴰ-times s (Permᴰ.cons e p) =
    omega (arith, ap (λ (x : Weighted). times s (x.symbol ∷ [])) e, Permᴰ-times s p)
Permᴰ-times s (Permᴰ.swap e f) = omega (
  arith,
  ap (λ (x : Weighted). times s (x.symbol ∷ [])) e,
  ap (λ (x : Weighted). times s (x.symbol ∷ [])) f,
)
Permᴰ-times s (Permᴰ.trans p q) = Permᴰ-times s p ∙ Permᴰ-times s q

Permᴰ-total : {v w : List Weighted} → Permᴰ v w → total_weight v ≡ total_weight w
Permᴰ-total Permᴰ.nil = refl
Permᴰ-total (Permᴰ.cons e p) = omega (arith, ap (λ (x : Weighted). x.weight) e, Permᴰ-total p)
Permᴰ-total (Permᴰ.swap e f) =
    omega (arith, ap (λ (x : Weighted). x.weight) e, ap (λ (x : Weighted). x.weight) f)
Permᴰ-total (Permᴰ.trans p q) = Permᴰ-total p ∙ Permᴰ-total q

Perm-times :
    {v w : List Weighted} (s : Text)
    → Perm v w
    → times s (symbols_weighted v) ≡ times s (symbols_weighted w)
Perm-times s p = ∥∥₁_elim p (ℕ_set _ _) (Permᴰ-times s)

Perm-total : {v w : List Weighted} → Perm v w → total_weight v ≡ total_weight w
Perm-total p = ∥∥₁_elim p (ℕ_set _ _) Permᴰ-total

any_of_times : (s : Text) (xs : List Text) → times s xs ≡ 0 → any (text_eq s) xs ≡ false
any_of_times s [] h = refl
any_of_times s (x ∷ xs) h = ground (arith, h, any_of_times s xs)

text_eq_refl : (s : Text) → text_eq s s ≡ true
text_eq_refl s = (text_eq_iff s s).1 refl

-- What is checked of distinct symbols whose weights are in range.
check_targets-planned :
    (seen : List Text) (ws : List Weighted)
    → ((s : Text) → times s seen + times s (symbols_weighted ws) ≤ 1)
    → total_weight ws ≤ 10000
    → check_targets seen (map to_target ws) ≡ planned ws
unfolding check_targets
check_targets-planned seen [] h i = refl
check_targets-planned seen (w ∷ ws) h i =
    let new : any (text_eq w.symbol) seen ≡ false =
      any_of_times w.symbol seen (ground (arith, h w.symbol, text_eq_refl w.symbol)) in
    let in_range : ltb 10000 w.weight ≡ false = ground (arith, i) in
    let rest =
      check_targets-planned (w.symbol ∷ seen) ws (λ s. omega (arith, h s)) (omega (arith, i)) in
    rw (new, in_range, rest) refl

validate_targets-planned :
    (ws : List Weighted)
    → IsDistinct (symbols_weighted ws)
    → total_weight ws ≡ 10000
    → validate_targets (map to_target ws) ≡ planned ws
unfolding validate_targets
validate_targets-planned [] h i = absurd (omega (arith, i))
validate_targets-planned (w ∷ ws) h i =
    let total_kept : (total_weight (w ∷ ws) == 10000) ≡ true = ground (arith, i) in
    rw (check_targets-planned [] (w ∷ ws) (λ s. omega (arith, h s)) (omega (arith, i)), total_kept)
      refl

-- Rows of distinct symbols that weigh 10000 pass, in any order.
pub validate_targets-Perm :
    (stored ws : List Weighted)
    → Perm stored ws
    → IsDistinct (symbols_weighted ws)
    → total_weight ws ≡ 10000
    → validate_targets (map to_target stored) ≡ planned stored
validate_targets-Perm stored ws p h i =
    validate_targets-planned stored (λ s. omega (arith, Perm-times s p, h s)) (Perm-total p ∙ i)

abbrev pub symbols_of : List Holding → List Text
symbols_of hs = map (λ h. h.symbol) hs

-- What a broker reports of the positions: none is negative and none is listed twice.
abbrev pub AreHoldings : List Holding → Type 0
AreHoldings hs = All (λ h. (n : ℕ) × (h.quantity ≡ pos n)) hs × IsDistinct (symbols_of hs)

record Kept (held : List Held) (hs : List Holding) : Type 0 where
  result : List Held
  given : read_held held hs ≡ planned result
  fewer :
      (s : Text)
      → times s (symbols_held result) ≤ times s (symbols_held held) + times s (symbols_of hs)

read_held-planned :
    (held : List Held) (hs : List Holding)
    → All (λ h. (n : ℕ) × (h.quantity ≡ pos n)) hs
    → ((s : Text) → times s (symbols_held held) + times s (symbols_of hs) ≤ 1)
    → Kept held hs
unfolding read_held
read_held-planned held [] h i = record { result = held; given = refl; fewer = λ s. omega arith }
read_held-planned held (x ∷ xs) ((n, amount), h) i =
    let new : any (text_eq x.symbol) (symbols_held held) ≡ false =
      any_of_times x.symbol (symbols_held held)
        (ground (arith, i x.symbol, text_eq_refl x.symbol)) in
    elim (Bool-cases (n == 0)) [
      | inl nothing ↦
          let rest = read_held-planned held xs h (λ s. omega (arith, i s)) in
          record {
            result = rest.result;
            given = rw (new, amount, nothing) rest.given;
            fewer = λ s. omega (arith, rest.fewer s);
          }
      | inr some_held ↦
          let entry : Held = record { symbol = x.symbol; quantity = n } in
          let more = λ (s : Text). times-map_append s (λ (k : Held). k.symbol) held (entry ∷ []) in
          let rest =
            read_held-planned (held ++ (entry ∷ [])) xs h (λ s. omega (arith, i s, more s)) in
          record {
            result = rest.result;
            given = rw (new, amount, some_held) rest.given;
            fewer = λ s. omega (arith, rest.fewer s, more s);
          }
    ]

-- A symbol has a price that is positive.
abbrev pub IsPriced : Prices → Text → Type 0
IsPriced prices symbol = (n : ℕ) × (prices symbol ≡ some (pos (suc n)))

price_for-planned :
    (prices : Prices) (s : Text) (n : ℕ)
    → prices s ≡ some (pos (suc n))
    → price_for prices s ≡ planned (record { symbol = s; price = suc n })
unfolding price_for
price_for-planned prices s n h =
    let positive : (suc n == 0) ≡ false = ground arith in rw (price_for, h, positive) refl

positive_investment-planned : (n : ℕ) → positive_investment (pos (suc n)) ≡ planned (suc n)
unfolding positive_investment
positive_investment-planned n =
    let positive : (suc n == 0) ≡ false = ground arith in rw positive refl

price_all-planned :
    (prices : Prices) (symbols : List Text)
    → ((s : Text) → 1 ≤ times s symbols → IsPriced prices s)
    → (ps : List Priced) × (price_all prices symbols ≡ planned ps)
unfolding price_all
price_all-planned prices [] h = ([], refl)
price_all-planned prices (s ∷ ss) h =
    let rest = price_all-planned prices ss (λ x m. h x (omega (arith, m))) in
    let first = h s (ground (arith, text_eq_refl s)) in
    (
      record { symbol = s; price = suc first.0 } ∷ rest.0,
      rw (price_for-planned prices s first.0 first.1, rest.1) refl,
    )

-- The planner plans for rows that pass, where the broker reports what it should.
pub build_plan-planned :
    (stored : List Weighted)
    → validate_targets (map to_target stored) ≡ planned stored
    → (cash amount : ℕ) (holdings : List Holding) (prices : Prices) (settings : RebalanceSettings)
    → AreHoldings holdings
    → ((s : Text)
        → 1 ≤ times s (symbols_weighted stored) + times s (symbols_of holdings)
        → IsPriced prices s)
    → settings.investment_amount ≡ pos (suc amount)
    → (plan : RebalancePlan) × (build_plan
          (pos cash)
          holdings
          (map to_target stored)
          prices
          settings
        ≡ planned plan)
unfolding build_plan non_negative universe
build_plan-planned stored v cash amount holdings prices settings h priced i =
    let kept = read_held-planned [] holdings h.0 (λ s. omega (arith, h.1 s)) in
    let asked = price_all-planned prices (universe stored kept.result) (λ s m. priced s (
      omega (
        arith,
        m,
        times-append s (symbols_weighted stored) (fallen_out stored kept.result),
        fallen_out-times s stored kept.result,
        kept.fewer s,
      ))) in
    (
      plan_of settings (suc amount) cash kept.result stored asked.0,
      rw (i, positive_investment-planned amount, v, kept.given, asked.1) refl,
    )
