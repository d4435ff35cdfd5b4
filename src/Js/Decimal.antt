-- ===== src/Js/Decimal.antt =====
-- Division and decimal notation of the runtime, for web/components/bot-form.tsx and
-- web/lib/format.ts, as an interface over the numbers.
--
-- The laws are those of ECMA-262 for `*`, `-`, `/`, `Math.floor` and `toFixed` on whole numbers
-- up to 10 ^ 9 (10 ^ 13 for the rounding of a quotient) and on hundredths up to 100.
use rebalance_webull.Prelude.{ℕ, ◌+◌, ◌*◌, ◌-◌, ◌/◌, ◌≤◌, ◌≡◌, ◌≢◌, false, [], Text}
use rebalance_webull.Js.Interface.{Runtime, exact_limit}

-- The milliseconds of three centuries, at which doubles still divide closely enough to round.
abbrev pub time_limit : ℕ
time_limit = 10_000_000_000_000

pub record Decimals (N : Type 0) (r : Runtime N) : Type 0 where
  -- Subtraction, `/`, `Math.floor` and `x.toFixed(digits)`.
  pub sub : N → N → N
  pub div : N → N → N
  pub floor : N → N
  -- `-x`, `Math.abs`, `Math.min` and `Math.max`, and the literal 0.5.
  pub neg : N → N
  pub abs : N → N
  pub min : N → N → N
  pub max : N → N → N
  pub half : N
  pub to_fixed : ℕ → N → Text
  pub mul-of_ℕ : (m n : ℕ) → m * n ≤ exact_limit → r.mul (r.of_ℕ m) (r.of_ℕ n) ≡ r.of_ℕ (m * n)
  pub sub-of_ℕ : (m n : ℕ) → n ≤ m → m ≤ exact_limit → sub (r.of_ℕ m) (r.of_ℕ n) ≡ r.of_ℕ (m - n)
  pub lt-neg : (n : ℕ) → n ≤ exact_limit → r.lt (r.of_ℕ 0) (neg (r.of_ℕ n)) ≡ false
  pub abs-neg : (n : ℕ) → n ≤ exact_limit → abs (neg (r.of_ℕ n)) ≡ r.of_ℕ n
  pub min-zero : (n : ℕ) → n ≤ exact_limit → min (r.of_ℕ 0) (r.of_ℕ n) ≡ r.of_ℕ 0
  pub floor-div :
      (m n : ℕ)
      → m ≤ exact_limit
      → 1 ≤ n
      → n ≤ exact_limit
      → floor (div (r.of_ℕ m) (r.of_ℕ n)) ≡ r.of_ℕ (m / n)
  -- The quotient rounds to the whole number nearest to it, the greater of two.
  pub round-div :
      (m n : ℕ)
      → m ≤ time_limit
      → 1 ≤ n
      → n ≤ exact_limit
      → r.round (div (r.of_ℕ m) (r.of_ℕ n)) ≡ r.of_ℕ ((2 * m + n) / (2 * n))
  -- A text has some digit.
  pub to_fixed-written : (digits : ℕ) (x : N) → to_fixed digits x ≢ []
  -- Two places show hundredths as they are: the text reads back as the number.
  pub to_fixed-read :
      (n : ℕ)
      → n ≤ 10000
      → r.number_of_text (to_fixed 2 (div (r.of_ℕ n) (r.of_ℕ 100))) ≡ div (r.of_ℕ n) (r.of_ℕ 100)
  -- A hundred hundredths are a whole, once the error of the product is rounded off.
  pub round-hundredths :
      (n : ℕ) → n ≤ 10000 → r.round (r.mul (div (r.of_ℕ n) (r.of_ℕ 100)) (r.of_ℕ 100)) ≡ r.of_ℕ n
