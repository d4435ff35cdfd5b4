-- ===== src/Validation/Throws.antt =====
-- Bodies on which the parsers of validation.ts throw.
use rebalance_webull.Prelude.{◌≡◌, refl, ap, none, some, List, String, arith}
use rebalance_webull.Js.{Runtime, Json, obj, Fields, lookup, get, body_or_empty, to_text, to_number}
use rebalance_webull.Validation.Check.{
  Issue, Checked, ◌>>=◌, NumberOptions, string, number, coerced, finish,
}
use rebalance_webull.Validation.Bot.{
  name_options, amount_options, read_or, read_bot_core, read_create_bot, parse_create_bot,
}

-- The reader returns, with or without issues.
abbrev Returns : {N A : Type 0} → Checked N A → Type 0
Returns {N} {A} m = (a : A) × (issues : List (Issue N)) × (m ≡ some (a, issues))

-- Where what follows a reader that returns throws, the chain throws.
throws_after :
    {N A B : Type 0} (m : Checked N A) (f : A → Checked N B)
    → ((a : A) → f a ≡ none)
    → (m >>= f) ≡ none
throws_after none f h = refl
throws_after (some (a, issues)) f h = rw (h a)

throws_first :
    {N A B : Type 0} (m : Checked N A) (f : A → Checked N B) → m ≡ none → (m >>= f) ≡ none
throws_first m f h = rw h

module _ {N : Type 0} ⦃r : Runtime N⦄ where
  to_text_throws :
      (fields : Fields N) {w : Json N}
      → lookup "toString" fields ≡ some w
      → to_text (obj fields) ≡ none
  unfolding to_text
  to_text_throws fields h = ground arith

  coerced_throws :
      (fields : Fields N) {w : Json N}
      → lookup "toString" fields ≡ some w
      → coerced (some (obj fields)) ≡ none
  unfolding coerced to_number
  coerced_throws fields h = ground (arith, to_text_throws fields h)

  number_throws :
      (input : Json N) (path : String) (o : NumberOptions N) (fields : Fields N) {w : Json N}
      → get input path ≡ some (obj fields)
      → lookup "toString" fields ≡ some w
      → number input path o ≡ none
  unfolding number
  number_throws input path o fields e h = rw (e, coerced_throws fields h)

  -- A body whose amount is an object with a key `toString` makes `parseCreateBot` throw a
  -- TypeError in place of reporting an issue, whatever its other fields are.
  pub parse_create_bot_throws :
      (body fields : Fields N) (w : Json N)
      → lookup "investment_amount" body ≡ some (obj fields)
      → lookup "toString" fields ≡ some w
      → parse_create_bot (obj body) ≡ none
  unfolding parse_create_bot read_create_bot read_bot_core finish body_or_empty get
  parse_create_bot_throws body fields w e h =
      let amount = number_throws (obj body) "investment_amount" amount_options fields e h in
      ap finish (
        throws_first (read_bot_core (obj body)) _ (
          throws_after (string (obj body) "name" name_options) _ (λ name.
            throws_after (read_or (obj body) "base_currency" _ _) _ (λ currency.
              throws_first (number (obj body) "investment_amount" amount_options) _ amount))))
