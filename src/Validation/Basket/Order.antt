-- ===== src/Validation/Basket/Order.antt =====
-- Whether `readTargets` of validation.ts accepts holdings does not depend on their order.
use rebalance_webull.Prelude.{
  ℕ, suc, ◌+◌, ◌≡◌, refl, ap, ◌∙◌, ◌||◌, some, List, [], ◌∷◌, Text, text_eq, text_eq-sym, length,
  any, arith,
}
use rebalance_webull.Js.{Runtime}
use rebalance_webull.Validation.Targets.{Target, read_targets}
use rebalance_webull.Validation.Accept.{Accepts}
use rebalance_webull.Validation.Basket.{sum, IsFresh, HasSymbols, Weighs, IsBasket}
use rebalance_webull.Validation.Basket.Sound.{read_targets-IsBasket}
use rebalance_webull.Validation.Basket.Complete.{targets_json, read_targets_of_IsBasket}

-- The same entries in another order.
pub data Shuffle {A : Type 0} : List A → List A → Type 0 where
  none_left : Shuffle [] []
  keep : (x : A) {xs ys : List A} → Shuffle xs ys → Shuffle (x ∷ xs) (x ∷ ys)
  swap : (x y : A) (xs : List A) → Shuffle (x ∷ y ∷ xs) (y ∷ x ∷ xs)
  then_again : {xs ys zs : List A} → Shuffle xs ys → Shuffle ys zs → Shuffle xs zs

length-Shuffle : {A : Type 0} {xs ys : List A} → Shuffle xs ys → length xs ≡ length ys
length-Shuffle none_left = refl
length-Shuffle (keep x s) = ap suc (length-Shuffle s)
length-Shuffle (swap x y xs) = refl
length-Shuffle (then_again s t) = length-Shuffle s ∙ length-Shuffle t

module _ {N : Type 0} where
  HasSymbols-Shuffle : {ts us : List (Target N)} → Shuffle ts us → HasSymbols ts → HasSymbols us
  HasSymbols-Shuffle none_left h = h
  HasSymbols-Shuffle (keep t s) (pattern, h) = (pattern, HasSymbols-Shuffle s h)
  HasSymbols-Shuffle (swap t u ts) (first, (second, h)) = (second, (first, h))
  HasSymbols-Shuffle (then_again s t) h = HasSymbols-Shuffle t (HasSymbols-Shuffle s h)

  -- Only which symbols were seen counts.
  IsFresh-seen :
      (ts : List (Target N)) (seen other : List Text)
      → ((symbol : Text) → any (text_eq symbol) seen ≡ any (text_eq symbol) other)
      → IsFresh seen ts
      → IsFresh other ts
  IsFresh-seen [] seen other same h = tt
  IsFresh-seen (t ∷ ts) seen other same (new, h) = (
    rw (same t.symbol) at new,
    IsFresh-seen ts (t.symbol ∷ seen) (t.symbol ∷ other)
        (λ symbol. ap (λ b. text_eq symbol t.symbol || b) (same symbol)) h,
  )

  IsFresh-Shuffle :
      (seen : List Text) {ts us : List (Target N)}
      → Shuffle ts us
      → IsFresh seen ts
      → IsFresh seen us
  IsFresh-Shuffle seen none_left h = tt
  IsFresh-Shuffle seen (keep t s) (new, h) = (new, IsFresh-Shuffle (t.symbol ∷ seen) s h)
  IsFresh-Shuffle seen (swap t u ts) (first, (second, h)) =
      let apart = text_eq-sym t.symbol u.symbol in
      (
        ground arith,
        (
          ground (arith, apart),
          IsFresh-seen ts (u.symbol ∷ t.symbol ∷ seen) (t.symbol ∷ u.symbol ∷ seen)
              (λ symbol. ground arith) h,
        ),
      )
  IsFresh-Shuffle seen (then_again s t) h = IsFresh-Shuffle seen t (IsFresh-Shuffle seen s h)

  Weighs-Shuffle :
      (r : Runtime N) {ts us : List (Target N)}
      → Shuffle ts us
      → (ws : List ℕ) → Weighs r ts ws
      → (vs : List ℕ) × Weighs r us vs × (sum vs ≡ sum ws)
  Weighs-Shuffle r none_left [] h = ([], tt, refl)
  Weighs-Shuffle r (keep t s) (w ∷ ws) (same, small, h) =
      let (vs, weighed, total) = Weighs-Shuffle r s ws h in
      (w ∷ vs, (same, small, weighed), ap (λ n. w + n) total)
  Weighs-Shuffle r (swap t u ts) (w ∷ v ∷ ws) (same, small, (same', small', h)) =
      (v ∷ w ∷ ws, (same', small', (same, small, h)), omega arith)
  Weighs-Shuffle r none_left (w ∷ ws) h = absurd h
  Weighs-Shuffle r (keep t s) [] h = absurd h
  Weighs-Shuffle r (swap t u ts) [] h = absurd h
  Weighs-Shuffle r (swap t u ts) (w ∷ []) h = absurd h.2
  Weighs-Shuffle r (then_again s t) ws h =
      let (vs, weighed, total) = Weighs-Shuffle r s ws h in
      let (us, again, total') = Weighs-Shuffle r t vs weighed in (us, again, total' ∙ total)

  IsBasket-Shuffle :
      (r : Runtime N) {ts us : List (Target N)} → Shuffle ts us → IsBasket r ts → IsBasket r us
  IsBasket-Shuffle r s b =
      let count = length-Shuffle s in
      let (vs, weighed, total) = Weighs-Shuffle r s b.weights b.weighed in
      record {
        some_holding = omega (arith, count, b.some_holding);
        at_most = omega (arith, count, b.at_most);
        symbols = HasSymbols-Shuffle s b.symbols;
        distinct = IsFresh-Shuffle [] s b.distinct;
        weights = vs;
        weighed = weighed;
        balanced = total ∙ b.balanced;
      }

  -- Holdings that are accepted as they are, are so in every order.
  pub read_targets-Shuffle :
      ⦃r : Runtime N⦄ {ts us : List (Target N)}
      → Shuffle ts us
      → Accepts (read_targets (some (targets_json ts))) ts
      → Accepts (read_targets (some (targets_json us))) us
  read_targets-Shuffle ⦃r = r⦄ {ts} {us} s h =
      read_targets_of_IsBasket us
        (IsBasket-Shuffle r s (read_targets-IsBasket (some (targets_json ts)) h))
