-- ===== src/Tests/Numbers.antt =====
-- Numbers in hundredths with exact arithmetic, which satisfy the laws of the runtime.
use native.Mathlib.Nat.{add-mul-div_right, mul-div-mul_right, div-div-eq-div-mul}
use rebalance_webull.Prelude.{
  ℕ, sym, ◌∙◌, ◌≢◌, ◌++◌, ◌+◌, ◌-◌, ◌*◌, ◌/◌, ◌%◌, ◌≤◌, ◌≡◌, refl, ap, Bool, true, false, ◌&&◌, [],
  ◌∷◌, Text, codes, ascii_upper, map, ltb, leb, ◌==◌, arith, if◌then◌else◌,
}
use rebalance_webull.Js.{Runtime, Decimals, exact_limit}

-- NaN, or a number of hundredths; those below zero have the digits of their opposite.
pub data Sample : Type 0 where
  not_a_number : Sample
  hundredths below_zero : ℕ → Sample

abbrev lt : Sample → Sample → Bool
lt (hundredths a) (hundredths b) = ltb a b
lt (below_zero a) (hundredths b) = true
lt (below_zero a) (below_zero b) = ltb b a
lt _ _ = false

abbrev same : Sample → Sample → Bool
same (hundredths a) (hundredths b) = a == b
same (below_zero a) (below_zero b) = a == b
same _ _ = false

abbrev add : Sample → Sample → Sample
add (hundredths a) (hundredths b) = hundredths (a + b)
add _ _ = not_a_number

abbrev mul : Sample → Sample → Sample
mul (hundredths a) (hundredths b) = hundredths ((a * b) / 100)
mul _ _ = not_a_number

abbrev round : Sample → Sample
round (hundredths a) = hundredths (((a + 50) / 100) * 100)
round x = x

abbrev is_finite : Sample → Bool
is_finite (hundredths a) = true
is_finite (below_zero a) = true
is_finite not_a_number = false

abbrev is_integer : Sample → Bool
is_integer (hundredths a) = a % 100 == 0
is_integer (below_zero a) = a % 100 == 0
is_integer not_a_number = false

-- Two decimal places after a whole part of `n`.
abbrev places : ℕ → Text → Sample
places n (c ∷ d ∷ []) = hundredths (n * 100 + (c - b'0') * 10 + (d - b'0'))
places n _ = not_a_number

-- The value of decimal digits after those that come to `n`.
abbrev numeral : ℕ → Text → Sample
numeral n [] = hundredths (n * 100)
numeral n (c ∷ cs) =
    let rest = numeral (n * 10 + (c - b'0')) cs in
    if leb b'0' c && leb c b'9' then rest else if c == b'.' then places n cs else not_a_number

abbrev text_of_sample : Sample → Text
text_of_sample not_a_number = codes "NaN"
text_of_sample (below_zero a) = codes "-"
text_of_sample (hundredths a) = (b'0' + (a / 100) % 10) ∷ []

pub integer_within :
    (x : Sample) (n : ℕ)
    → n ≤ exact_limit
    → is_integer x ≡ true
    → lt x (hundredths 0) ≡ false
    → lt (hundredths (n * 100)) x ≡ false
    → (k : ℕ) × (k ≤ n) × (x ≡ hundredths (k * 100))
integer_within not_a_number n small whole low high = cc
integer_within (below_zero a) n small whole low high = cc
integer_within (hundredths a) n small whole low high =
    let same : (a / 100) * 100 ≡ a = ground (arith, whole) in
    (a / 100, ground (arith, high, whole), rw same)

pub is_finite_of_is_integer : (x : Sample) → is_integer x ≡ true → is_finite x ≡ true
is_finite_of_is_integer not_a_number h = h
is_finite_of_is_integer (hundredths a) h = refl
is_finite_of_is_integer (below_zero a) h = refl

pub is_integer-hundredths : (n : ℕ) → is_integer (hundredths (n * 100)) ≡ true
is_integer-hundredths n = ground arith

pub lt-hundredths : (m n : ℕ) → lt (hundredths (m * 100)) (hundredths (n * 100)) ≡ ltb m n
lt-hundredths m n = ground arith

pub same-hundredths : (m n : ℕ) → same (hundredths (m * 100)) (hundredths (n * 100)) ≡ (m == n)
same-hundredths m n = ground arith

pub lt-not_a_number : (x : Sample) → lt x not_a_number ≡ false
lt-not_a_number not_a_number = refl
lt-not_a_number (hundredths a) = refl
lt-not_a_number (below_zero a) = refl

abbrev digit : ℕ → ℕ
digit n = b'0' + n % 10

-- The digits of a number below 1000.
abbrev digits : ℕ → Text
digits n =
    if ltb n 10
    then digit n ∷ []
    else if ltb n 100
    then digit (n / 10) ∷ digit n ∷ []
    else digit (n / 100) ∷ digit (n / 10) ∷ digit n ∷ []

-- `toFixed(2)` below 1000, whatever the places asked for.
abbrev fixed : ℕ → Sample → Text
fixed places not_a_number = codes "NaN"
fixed places (below_zero a) = codes "-"
fixed places (hundredths a) = digits (a / 100) ++ (b'.' ∷ digit (a / 10) ∷ digit a ∷ [])

abbrev sub : Sample → Sample → Sample
sub (hundredths a) (hundredths b) = hundredths (a - b)
sub _ _ = not_a_number

abbrev quotient : ℕ → ℕ → Sample
quotient a b = if b == 0 then not_a_number else hundredths ((a * 100) / b)

abbrev div : Sample → Sample → Sample
div (hundredths a) (hundredths b) = quotient a b
div _ _ = not_a_number

abbrev floor : Sample → Sample
floor (hundredths a) = hundredths ((a / 100) * 100)
floor x = x

abbrev neg : Sample → Sample
neg not_a_number = not_a_number
neg (hundredths a) = if a == 0 then hundredths 0 else below_zero a
neg (below_zero a) = hundredths a

abbrev abs : Sample → Sample
abs (below_zero a) = hundredths a
abs x = x

abbrev min : Sample → Sample → Sample
min x y = if lt y x then y else x

abbrev max : Sample → Sample → Sample
max x y = if lt x y then y else x

pub lt-neg : (n : ℕ) → lt (hundredths 0) (neg (hundredths (n * 100))) ≡ false
lt-neg n = ground arith

pub abs-neg : (n : ℕ) → abs (neg (hundredths (n * 100))) ≡ hundredths (n * 100)
abs-neg n = ground arith

pub min-zero : (n : ℕ) → min (hundredths 0) (hundredths (n * 100)) ≡ hundredths 0
min-zero n = ground arith

pub div_by_hundred : (n : ℕ) → div (hundredths (n * 100)) (hundredths 10000) ≡ hundredths n
div_by_hundred n = ap hundredths (omega arith)

pub read_fixed : (n : ℕ) → n ≤ 10000 → numeral 0 (fixed 2 (hundredths n)) ≡ hundredths n
read_fixed n h = ground arith

pub fixed_written : (places : ℕ) (x : Sample) → fixed places x ≢ []
fixed_written places not_a_number e = cc
fixed_written places (below_zero a) e = cc
fixed_written places (hundredths a) e = ground arith

pub floor-quotient :
    (m n : ℕ) → 1 ≤ n → floor (quotient (m * 100) (n * 100)) ≡ hundredths ((m / n) * 100)
floor-quotient m n h =
    let some_part : ((n * 100) == 0) ≡ false = ground arith in
    let same : m * 100 * 100 / (n * 100) / 100 ≡ m / n =
      ap (λ x. x / 100) (mul-div-mul_right (m * 100) n (omega arith))
      ∙ div-div-eq-div-mul (m * 100) n 100
      ∙ mul-div-mul_right m n (omega arith) in
    rw some_part (ap (λ x. hundredths (x * 100)) same)

pub read_quotient :
    (n : ℕ)
    → n ≤ 10000
    → numeral 0 (fixed 2 (div (hundredths (n * 100)) (hundredths 10000)))
      ≡ div (hundredths (n * 100)) (hundredths 10000)
read_quotient n h =
    ap (λ x. numeral 0 (fixed 2 x)) (div_by_hundred n) ∙ read_fixed n h ∙ sym (div_by_hundred n)

pub round_quotient :
    (n : ℕ)
    → round (mul (div (hundredths (n * 100)) (hundredths 10000)) (hundredths 10000))
      ≡ hundredths (n * 100)
round_quotient n =
    ap (λ x. round (mul x (hundredths 10000))) (div_by_hundred n) ∙ ap hundredths (omega arith)

pub round-quotient :
    (m n : ℕ)
    → 1 ≤ n
    → round (quotient (m * 100) (n * 100)) ≡ hundredths (((2 * m + n) / (2 * n)) * 100)
round-quotient m n h =
    let some_part : ((n * 100) == 0) ≡ false = ground arith in
    let same : (m * 100 * 100 / (n * 100) + 50) / 100 ≡ (2 * m + n) / (2 * n) =
      ap (λ x. (x + 50) / 100) (mul-div-mul_right (m * 100) n (omega arith))
      ∙ ap (λ x. x / 100) (sym (add-mul-div_right (m * 100) 50 h))
      ∙ div-div-eq-div-mul (m * 100 + 50 * n) n 100
      ∙ ap (λ x. x / (n * 100)) (omega arith)
      ∙ ap (λ x. ((2 * m + n) * 50) / x) (omega arith)
      ∙ mul-div-mul_right {m = 50} (2 * m + n) (2 * n) (omega arith) in
    rw some_part (ap (λ x. hundredths (x * 100)) same)

pub mul-whole :
    (m n : ℕ) → mul (hundredths (m * 100)) (hundredths (n * 100)) ≡ hundredths (m * n * 100)
mul-whole m n = ap hundredths (omega arith)

instance abbrev pub sample_runtime : Runtime Sample
sample_runtime = record {
  of_ℕ = λ n. hundredths (n * 100);
  hundredth = hundredths 1;
  nan = not_a_number;
  lt = lt;
  add = add;
  mul = mul;
  same = same;
  round = round;
  is_finite = is_finite;
  is_integer = is_integer;
  number_of_text = numeral 0;
  text_of_number = text_of_sample;
  to_upper = map ascii_upper;
  is_integer-of_ℕ = λ n h. is_integer-hundredths n;
  is_finite_of_is_integer = is_finite_of_is_integer;
  lt-of_ℕ = λ m n h k. lt-hundredths m n;
  same-of_ℕ = λ m n h k. same-hundredths m n;
  add-of_ℕ = λ m n h. ap hundredths (omega arith);
  lt-nan = lt-not_a_number;
  integer_within = integer_within;
  to_upper_of_IsAscii = λ t h. refl;
}

instance abbrev pub sample_decimals : Decimals Sample sample_runtime
sample_decimals = record {
  sub = sub;
  div = div;
  floor = floor;
  neg = neg;
  abs = abs;
  min = min;
  max = max;
  half = hundredths 50;
  lt-neg = λ n h. lt-neg n;
  abs-neg = λ n h. abs-neg n;
  min-zero = λ n h. min-zero n;
  to_fixed = fixed;
  mul-of_ℕ = λ m n h. mul-whole m n;
  sub-of_ℕ = λ m n h k. ap hundredths (omega arith);
  floor-div = λ m n h k l. floor-quotient m n k;
  round-div = λ m n h k l. round-quotient m n k;
  to_fixed-written = fixed_written;
  to_fixed-read = read_quotient;
  round-hundredths = λ n h. round_quotient n;
}
