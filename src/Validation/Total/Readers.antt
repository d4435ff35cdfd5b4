-- ===== src/Validation/Total/Readers.antt =====
-- The readers of `Check` and of holdings return on plain values, for validation.ts.
use rebalance_webull.Prelude.{
  ℕ, ◌+◌, refl, ◌≢◌, Bool, true, false, Option, none, some, List, [], ◌∷◌, String, Text, arith,
  Option-cases, inl, inr,
}
use rebalance_webull.Js.{
  Runtime, Json, null, boolean, num, str, arr, Items, nil, cons, get, body_or_empty,
}
use rebalance_webull.Validation.Check.{
  Message, IssuePath, Checked, pure, ◌>>=◌, add_if, StringOptions, NumberOptions, string,
  string_value, number, number_value, typed_number, coerced, nullable_number, nullable_value,
  read_boolean, boolean_value, Choices, one_of, choice_value,
}
use rebalance_webull.Validation.Targets.{
  symbol_text, weight_number, coerce, read_row, read_rows, read_list, read_targets,
}
use rebalance_webull.Validation.Total.Coercions.{
  IsPlain, IsPlainItems, get-IsPlain, to_text-ne-none, to_number-ne-none, body_or_empty-IsPlain,
}

-- The reader returns, with or without issues.
abbrev pub Returns : {N A : Type 0} → Checked N A → Type 0
Returns m = m ≢ none

abbrev IsPlainOption : {N : Type 0} → Option (Json N) → Type 0
IsPlainOption none = Unit
IsPlainOption (some v) = IsPlain v

pub >>=-Returns :
    {N A B : Type 0} (m : Checked N A) (f : A → Checked N B)
    → Returns m
    → ((a : A) → Returns (f a))
    → Returns (m >>= f)
>>=-Returns none f h k = λ e. h refl
>>=-Returns (some (a, issues)) f h k = elim (Option-cases (f a)) [
  | inl threw ↦ absurd (k a threw)
  | inr (b, found) ↦ rw found (λ e. cc)
]

pub add_if-Returns :
    {N : Type 0} (b : Bool) (path : IssuePath) (message : Message N)
    → Returns (add_if b path message)
add_if-Returns true path message e = cc
add_if-Returns false path message e = cc

pub pure-Returns : {N A : Type 0} (a : A) → Returns {N = N} (pure a)
pure-Returns a e = cc

module _ {N : Type 0} ⦃r : Runtime N⦄ where
  get-IsPlainOption : (input : Json N) (k : String) → IsPlain input → IsPlainOption (get input k)
  get-IsPlainOption input k h = elim (Option-cases (get input k)) [
    | inl missing ↦ rw missing tt
    | inr (v, found) ↦ rw found (get-IsPlain input k h found)
  ]

  string_value-Returns :
      (path : String) (o : StringOptions) (v : Option (Json N)) → Returns (string_value path o v)
  unfolding string_value
  string_value-Returns path o (some (str t)) = ground arith
  string_value-Returns path o none = ground arith
  string_value-Returns path o _ = ground arith

  pub string-Returns :
      (input : Json N) (path : String) (o : StringOptions) → Returns (string input path o)
  unfolding string
  string-Returns input path o = string_value-Returns path o (get input path)

  coerced-Returns : (v : Option (Json N)) → IsPlainOption v → Returns (coerced v)
  unfolding coerced
  coerced-Returns none h = ground arith
  coerced-Returns (some v) h = ground (arith, to_number-ne-none v h)

  typed_number-Returns :
      (finite : Bool) (path : String) (o : NumberOptions N) (n : N)
      → Returns (typed_number finite path o n)
  unfolding typed_number
  typed_number-Returns true path o n = ground arith
  typed_number-Returns false path o n = ground arith

  number_value-Returns :
      (path : String) (o : NumberOptions N) (v : Option (Json N))
      → IsPlainOption v
      → Returns (number_value path o v)
  unfolding number_value
  number_value-Returns path o (some (num n)) h = typed_number-Returns _ path o n
  number_value-Returns path o none h = ground (arith, coerced-Returns none h)
  number_value-Returns path o (some v) h = ground (arith, coerced-Returns (some v) h)

  pub number-Returns :
      (input : Json N) (path : String) (o : NumberOptions N)
      → IsPlain input
      → Returns (number input path o)
  unfolding number
  number-Returns input path o h = number_value-Returns path o _ (get-IsPlainOption input path h)

  nullable_value-Returns :
      (path : String) (o : NumberOptions N) (v : Option (Json N))
      → IsPlainOption v
      → Returns (nullable_value path o v)
  unfolding nullable_value
  nullable_value-Returns path o none h = ground arith
  nullable_value-Returns path o (some null) h = ground arith
  nullable_value-Returns path o (some (str [])) h = ground arith
  nullable_value-Returns path o (some v) h = ground (arith, number_value-Returns path o (some v) h)

  pub nullable_number-Returns :
      (input : Json N) (path : String) (o : NumberOptions N)
      → IsPlain input
      → Returns (nullable_number input path o)
  unfolding nullable_number
  nullable_number-Returns input path o h =
      nullable_value-Returns path o _ (get-IsPlainOption input path h)

module _ {N : Type 0} where
  boolean_value-Returns :
      (path : String) (fallback : Bool) (v : Option (Json N))
      → Returns (boolean_value path fallback v)
  unfolding boolean_value
  boolean_value-Returns path fallback none = ground arith
  boolean_value-Returns path fallback (some null) = ground arith
  boolean_value-Returns path fallback (some (boolean b)) = ground arith
  boolean_value-Returns path fallback (some v) = ground arith

  pub read_boolean-Returns :
      (input : Json N) (path : String) (fallback : Bool)
      → Returns (read_boolean input path fallback)
  unfolding read_boolean
  read_boolean-Returns input path fallback = boolean_value-Returns path fallback (get input path)

  choice_value-Returns :
      {A : Type 0} (path : String) (allowed : Choices A) (v : Option (Json N))
      → Returns (choice_value path allowed v)
  unfolding choice_value
  choice_value-Returns path allowed (some (str t)) = ground arith
  choice_value-Returns path allowed none = ground arith
  choice_value-Returns path allowed (some v) = ground arith

  pub one_of-Returns :
      {A : Type 0} (input : Json N) (path : String) (allowed : Choices A)
      → Returns (one_of input path allowed)
  unfolding one_of
  one_of-Returns input path allowed = choice_value-Returns path allowed (get input path)

module _ {N : Type 0} ⦃r : Runtime N⦄ where
  symbol_text-Returns : (v : Option (Json N)) → IsPlainOption v → symbol_text v ≢ none
  unfolding symbol_text
  symbol_text-Returns none h = ground arith
  symbol_text-Returns (some null) h = ground arith
  symbol_text-Returns (some v) h = to_text-ne-none v h

  weight_number-Returns : (v : Option (Json N)) → IsPlainOption v → weight_number v ≢ none
  unfolding weight_number
  weight_number-Returns none h = ground arith
  weight_number-Returns (some v) h = to_number-ne-none v h

  coerce-Returns : {A : Type 0} (o : Option A) → o ≢ none → Returns {N = N} (coerce o)
  coerce-Returns none h e = h refl
  coerce-Returns (some a) h e = cc

  read_row-Returns :
      (index : ℕ) (seen : List Text) (row : Json N)
      → IsPlain row
      → Returns (read_row index seen row)
  unfolding read_row
  read_row-Returns index seen row h =
      let item = body_or_empty row in
      let plain = body_or_empty-IsPlain row h in
      >>=-Returns (coerce (symbol_text (get item "symbol"))) _
        (coerce-Returns (symbol_text (get item "symbol"))
          (symbol_text-Returns (get item "symbol") (get-IsPlainOption item "symbol" plain)))
        (λ text.
          >>=-Returns (coerce (weight_number (get item "weight_bps"))) _
            (coerce-Returns (weight_number (get item "weight_bps")) (
              weight_number-Returns (get item "weight_bps")
                (get-IsPlainOption item "weight_bps" plain)))
            (λ weight. ground arith))

  read_rows-Returns :
      (index : ℕ) (seen : List Text) (rows : Items N)
      → IsPlainItems rows
      → Returns (read_rows index seen rows)
  unfolding read_rows IsPlainItems
  read_rows-Returns index seen nil h = ground arith
  read_rows-Returns index seen (cons row rows) (p, h) =
      >>=-Returns (read_row index seen row) _ (read_row-Returns index seen row p) (λ target.
        >>=-Returns (read_rows (index + 1) (target.symbol ∷ seen) rows) _
          (read_rows-Returns (index + 1) (target.symbol ∷ seen) rows h)
          (λ targets. pure-Returns (target ∷ targets)))

  read_list-Returns : (rows : Items N) → IsPlainItems rows → Returns (read_list rows)
  unfolding read_list
  read_list-Returns rows h = ground (arith, read_rows-Returns 0 [] rows h)

  read_option-Returns : (v : Option (Json N)) → IsPlainOption v → Returns (read_targets v)
  unfolding read_targets IsPlain
  read_option-Returns (some (arr rows)) h = read_list-Returns rows h
  read_option-Returns none h = ground arith
  read_option-Returns (some v) h = ground arith

  pub read_targets-Returns :
      (input : Json N) → IsPlain input → Returns (read_targets (get input "targets"))
  read_targets-Returns input h =
      read_option-Returns (get input "targets") (get-IsPlainOption input "targets" h)
