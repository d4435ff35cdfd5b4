-- ===== src/Engine/Planner/Symbols.antt =====
-- How often a symbol occurs in the inputs of the planner, api/src/engine/rebalance.py, and in its
-- drifts.
use mathlib.Core.Path.{subst, ap₂}
use rebalance_webull.Prelude.{
  ℕ, ◌+◌, ◌≤◌, ◌≡◌, ◌⊎◌, inl, inr, refl, ap, sym, ◌∙◌, false, List, [], ◌∷◌, ◌++◌, map, any, Text,
  text_eq, text_eq_iff, arith, ◌==◌, if◌then◌else◌, Bool-cases, Option-cases,
}
use rebalance_webull.Engine.Money.{ℤ, pos, negsuc}
use rebalance_webull.Engine.Models.{Drift, EngineTarget, Holding, planned}
use rebalance_webull.Engine.Planner.Inputs.{
  Prices, Held, Weighted, Priced, ◌>>=◌, in_range, check_targets, validate_targets, read_held,
  universe, price_all, price_for, fallen_out, symbols_held, symbols_weighted, total_weight,
  drift_of, drifts_for,
}
use rebalance_webull.Engine.Planner.Inversion.{raised-planned, bind-planned, planned-injective}

-- How often a symbol occurs.
abbrev pub times : Text → List Text → ℕ
times symbol [] = 0
times symbol (x ∷ xs) = (if text_eq symbol x then 1 else 0) + times symbol xs

pub times-append : (s : Text) (xs ys : List Text) → times s (xs ++ ys) ≡ times s xs + times s ys
times-append s [] ys = omega arith
times-append s (x ∷ xs) ys = omega (arith, times-append s xs ys)

pub times-map_append :
    {A : Type 0} (s : Text) (f : A → Text) (xs ys : List A)
    → times s (map f (xs ++ ys)) ≡ times s (map f xs) + times s (map f ys)
times-map_append s f [] ys = omega arith
times-map_append s f (x ∷ xs) ys = omega (arith, times-map_append s f xs ys)

-- No symbol occurs twice.
abbrev pub IsDistinct : List Text → Type 0
IsDistinct xs = (s : Text) → times s xs ≤ 1

pub times-any : (s : Text) (xs : List Text) → any (text_eq s) xs ≡ false → times s xs ≡ 0
times-any s [] h = refl
times-any s (x ∷ xs) h = ground (arith, h, times-any s xs)

pub IsDistinct-cons :
    (x : Text) (xs : List Text) → any (text_eq x) xs ≡ false → IsDistinct xs → IsDistinct (x ∷ xs)
IsDistinct-cons x xs new h s = elim (Bool-cases (text_eq s x)) [
  | inl same ↦
      let none_yet : times s xs ≡ 0 =
        subst (λ y. times y xs ≡ 0) (sym ((text_eq_iff s x).0 same)) (times-any x xs new) in
      rw same (omega (arith, none_yet))
  | inr other ↦ rw other (omega (arith, h s))
]

check_targets-times :
    (seen : List Text) (ts : List EngineTarget) (ws : List Weighted)
    → IsDistinct seen
    → check_targets seen ts ≡ planned ws
    → (s : Text) → times s seen + times s (symbols_weighted ws) ≤ 1
unfolding check_targets
check_targets-times seen [] ws h e s =
    let empty : [] ≡ ws = planned-injective e in
    let bound : times s seen + 0 ≤ 1 = omega (arith, h s) in
    subst (λ v. times s seen + times s (symbols_weighted v) ≤ 1) empty bound
check_targets-times seen (t ∷ ts) ws h e s = elim (Bool-cases (any (text_eq t.symbol) seen)) [
  | inl old ↦ absurd (raised-planned (rw old at e))
  | inr new ↦
      let a =
        bind-planned (in_range t.symbol t.weight_bps)
          (λ w. check_targets (t.symbol ∷ seen) ts >>= λ ws'.
            planned (record { symbol = t.symbol; weight = w } ∷ ws'))
          ws (rw new at e) in
      let b = bind-planned (check_targets (t.symbol ∷ seen) ts) _ ws a.after in
      let rest =
        check_targets-times (t.symbol ∷ seen) ts b.value (IsDistinct-cons t.symbol seen new h)
          b.given s in
      let bound : times s seen
            + times s (symbols_weighted (record { symbol = t.symbol; weight = a.value } ∷ b.value))
          ≤ 1 =
        omega (arith, rest) in
      subst (λ v. times s seen + times s (symbols_weighted v) ≤ 1) (planned-injective b.after) bound
]

pub validate_targets-IsDistinct :
    (ts : List EngineTarget) (ws : List Weighted)
    → validate_targets ts ≡ planned ws
    → IsDistinct (symbols_weighted ws)
unfolding validate_targets
validate_targets-IsDistinct [] ws e s = absurd (raised-planned e)
validate_targets-IsDistinct (t ∷ ts) ws e s =
    let a = bind-planned (check_targets [] (t ∷ ts)) _ ws e in
    let checked = check_targets-times [] (t ∷ ts) a.value (λ x. omega arith) a.given s in
    elim (Bool-cases (total_weight a.value == 10000)) [
      | inl h ↦
          subst (λ v. times s (symbols_weighted v) ≤ 1) (planned-injective (rw h at a.after))
            (omega (arith, checked))
      | inr h ↦ absurd (raised-planned (rw h at a.after))
    ]

pub ℤ-cases : (z : ℤ) → ((n : ℕ) × (z ≡ pos n)) ⊎ ((n : ℕ) × (z ≡ negsuc n))
ℤ-cases (pos n) = inl (n, refl)
ℤ-cases (negsuc n) = inr (n, refl)

pub read_held-IsDistinct :
    (held : List Held) (hs : List Holding) (result : List Held)
    → IsDistinct (symbols_held held)
    → read_held held hs ≡ planned result
    → IsDistinct (symbols_held result)
unfolding read_held
read_held-IsDistinct held [] result h e =
    subst (λ v. IsDistinct (symbols_held v)) (planned-injective e) h
read_held-IsDistinct held (x ∷ xs) result h e =
    elim (Bool-cases (any (text_eq x.symbol) (symbols_held held))) [
      | inl old ↦ absurd (raised-planned (rw old at e))
      | inr new ↦ elim (ℤ-cases x.quantity) [
        | inr (n, negative) ↦ absurd (raised-planned (rw (new, negative) at e))
        | inl (n, amount) ↦ elim (Bool-cases (n == 0)) [
          | inl nothing ↦ read_held-IsDistinct held xs result h (rw (new, amount, nothing) at e)
          | inr some_held ↦
              let entry : Held = record { symbol = x.symbol; quantity = n } in
              read_held-IsDistinct (held ++ (entry ∷ [])) xs result
                (λ s. omega (
                  arith,
                  times-map_append s (λ (k : Held). k.symbol) held (entry ∷ []),
                  IsDistinct-cons x.symbol (symbols_held held) new h s,
                ))
                (rw (new, amount, some_held) at e)
        ]
      ]
    ]

pub fallen_out-times :
    (s : Text) (ws : List Weighted) (held : List Held)
    → times s (fallen_out ws held) ≤ times s (symbols_held held)
unfolding fallen_out
fallen_out-times s ws [] = omega arith
fallen_out-times s ws (h ∷ hs) = ground (arith, fallen_out-times s ws hs)

fallen_out-elsewhere :
    (s : Text) (ws : List Weighted) (held : List Held)
    → (times s (symbols_weighted ws) ≡ 0) ⊎ (times s (fallen_out ws held) ≡ 0)
unfolding fallen_out
fallen_out-elsewhere s ws [] = inr refl
fallen_out-elsewhere s ws (h ∷ hs) =
    elim (Bool-cases (any (text_eq h.symbol) (symbols_weighted ws))) [
      | inl old ↦ rw old (fallen_out-elsewhere s ws hs)
      | inr new ↦ elim (Bool-cases (text_eq s h.symbol)) [
        | inl same ↦ inl (
            subst (λ y. times y (symbols_weighted ws) ≡ 0) (sym ((text_eq_iff s h.symbol).0 same))
              (times-any h.symbol (symbols_weighted ws) new))
        | inr other ↦ elim (fallen_out-elsewhere s ws hs) [
          | inl none_weighted ↦ inl none_weighted
          | inr none_out ↦ inr (rw (new, other) (omega (arith, none_out)))
        ]
      ]
    ]

pub universe-IsDistinct :
    (ws : List Weighted) (held : List Held)
    → IsDistinct (symbols_weighted ws)
    → IsDistinct (symbols_held held)
    → IsDistinct (universe ws held)
unfolding universe
universe-IsDistinct ws held h i s = omega (
  arith,
  times-append s (symbols_weighted ws) (fallen_out ws held),
  fallen_out-times s ws held,
  fallen_out-elsewhere s ws held,
  h s,
  i s,
)

abbrev pub symbols_priced : List Priced → List Text
symbols_priced ps = map (λ p. p.symbol) ps

price_for-symbol :
    (prices : Prices) (symbol : Text) (p : Priced)
    → price_for prices symbol ≡ planned p
    → p.symbol ≡ symbol
unfolding price_for
price_for-symbol prices symbol p e = elim (Option-cases (prices symbol)) [
  | inl missing ↦ absurd (raised-planned (rw (price_for, missing) at e))
  | inr (z, found) ↦ elim (ℤ-cases z) [
    | inr (n, negative) ↦ absurd (raised-planned (rw (price_for, found, negative) at e))
    | inl (n, amount) ↦ elim (Bool-cases (n == 0)) [
      | inl nothing ↦ absurd (raised-planned (rw (price_for, found, amount, nothing) at e))
      | inr positive ↦ sym (
          ap (λ (q : Priced). q.symbol)
            (planned-injective (rw (price_for, found, amount, positive) at e)))
    ]
  ]
]

pub price_all-symbols :
    (prices : Prices) (symbols : List Text) (ps : List Priced)
    → price_all prices symbols ≡ planned ps
    → symbols_priced ps ≡ symbols
unfolding price_all
price_all-symbols prices [] ps e = sym (ap symbols_priced (planned-injective e))
price_all-symbols prices (s ∷ ss) ps e =
    let a = bind-planned (price_for prices s) _ ps e in
    let b = bind-planned (price_all prices ss) _ ps a.after in
    sym (ap symbols_priced (planned-injective b.after))
    ∙ ap₂ ◌∷◌ (price_for-symbol prices s a.value a.given)
        (price_all-symbols prices ss b.value b.given)

abbrev pub symbols_drifted : List Drift → List Text
symbols_drifted ds = map (λ d. d.symbol) ds

pub symbols_drifted-drifts_for :
    (deployable : ℕ) (held : List Held) (ws : List Weighted) (ps : List Priced)
    → symbols_drifted (drifts_for deployable held ws ps) ≡ symbols_priced ps
unfolding drifts_for drift_of
symbols_drifted-drifts_for deployable held ws [] = refl
symbols_drifted-drifts_for deployable held ws (p ∷ ps) =
    ap (◌∷◌ p.symbol) (symbols_drifted-drifts_for deployable held ws ps)
