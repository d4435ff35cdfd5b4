-- ===== src/Js/Interface.antt =====
-- Numbers and the locale-independent text operations of the runtime, as an interface.
--
-- `N` is the set of JavaScript numbers, IEEE doubles with NaN and the infinities, in which 0 and
-- -0 are one value: no operation that the program applies tells them apart but `Intl`. The laws are those
-- of ECMA-262 that the program relies on; they speak of integers up to 10 ^ 9, far inside the
-- range 2 ^ 53 in which doubles hold every integer and add them with no rounding.
use rebalance_webull.Prelude.{
  ℕ, ◌+◌, ◌≤◌, ◌≡◌, Bool, true, false, Text, IsAscii, ascii_upper, map, ltb, ◌==◌,
}

abbrev pub exact_limit : ℕ
exact_limit = 1_000_000_000

pub record Runtime (N : Type 0) : Type 0 where
  -- The number of a numeral, and of the literal 0.01.
  pub of_ℕ : ℕ → N
  pub hundredth : N
  pub nan : N
  -- `<`, `+`, `*`, `===` and `Math.round`.
  pub lt : N → N → Bool
  pub add : N → N → N
  pub mul : N → N → N
  pub same : N → N → Bool
  pub round : N → N
  -- `Number.isFinite`, `Number.isInteger`, `Number(text)` and `String(number)`.
  pub is_finite : N → Bool
  pub is_integer : N → Bool
  pub number_of_text : Text → N
  pub text_of_number : N → Text
  -- `String.prototype.toUpperCase`, with the tables of Unicode.
  pub to_upper : Text → Text
  pub is_integer-of_ℕ : (n : ℕ) → n ≤ exact_limit → is_integer (of_ℕ n) ≡ true
  pub is_finite_of_is_integer : (x : N) → is_integer x ≡ true → is_finite x ≡ true
  pub lt-of_ℕ : (m n : ℕ) → m ≤ exact_limit → n ≤ exact_limit → lt (of_ℕ m) (of_ℕ n) ≡ ltb m n
  pub same-of_ℕ : (m n : ℕ) → m ≤ exact_limit → n ≤ exact_limit → same (of_ℕ m) (of_ℕ n) ≡ (m == n)
  pub add-of_ℕ : (m n : ℕ) → m + n ≤ exact_limit → add (of_ℕ m) (of_ℕ n) ≡ of_ℕ (m + n)
  -- No number is less than NaN.
  pub lt-nan : (x : N) → lt x nan ≡ false
  -- An integer from 0 to `n` is one of the naturals up to `n`.
  pub integer_within :
      (x : N) (n : ℕ)
      → n ≤ exact_limit
      → is_integer x ≡ true
      → lt x (of_ℕ 0) ≡ false
      → lt (of_ℕ n) x ≡ false
      → (k : ℕ) × (k ≤ n) × (x ≡ of_ℕ k)
  pub to_upper_of_IsAscii : (t : Text) → IsAscii t → to_upper t ≡ map ascii_upper t
