-- ===== src/Validation/Check.antt =====
-- The class `Check` of supabase/functions/_shared/validation.ts: readers of one field, which
-- collect issues and go on.
--
-- A reader returns its value with the issues that it pushed, in order. `none` is an exception
-- that leaves the reader, the TypeError of a coercion. A message is a constructor that carries
-- what the source splices into the text.
use rebalance_webull.Prelude.{
  ℕ, Bool, true, false, ◌&&◌, not, Option, none, some, List, [], ◌∷◌, ◌++◌, map, String, Text,
  text_eq, trim, length, ltb, if◌then◌else◌,
}
use rebalance_webull.Js.{Runtime, Json, null, boolean, num, str, get, to_number}

pub data Message (N : Type 0) : Type 0 where
  must_be_text must_be_a_number must_be_a_whole_number must_be_true_or_false : Message N
  bad_format must_be_a_list add_at_least_one at_most_50 : Message N
  at_least_characters at_most_characters : ℕ → Message N
  at_least at_most : N → Message N
  must_be_one_of : List Text → Message N
  bad_symbol bad_weight : Message N
  duplicate_symbol : Text → Message N
  weights_total : N → Message N
  needs_an_interval needs_a_threshold : Message N

-- The path of an issue: a field, or a part of the holding at an index.
pub data IssuePath : Type 0 where
  at_field : String → IssuePath
  at_symbol at_weight_bps : ℕ → IssuePath

pub record Issue (N : Type 0) : Type 0 where
  pub path : IssuePath
  pub message : Message N

abbrev pub Checked : Type 0 → Type 0 → Type 0
Checked N A = Option (A × List (Issue N))

infixl 5 ◌>>=◌ ◌>>◌
abbrev pub pure : {N A : Type 0} → A → Checked N A
pure a = some (a, [])

-- What follows a reader that pushed `issues`.
abbrev pub after : {N B : Type 0} → List (Issue N) → Checked N B → Checked N B
after issues none = none
after issues (some (b, more)) = some (b, issues ++ more)

abbrev pub ◌>>=◌ : {N A B : Type 0} → Checked N A → (A → Checked N B) → Checked N B
none >>= f = none
some (a, issues) >>= f = after issues (f a)

abbrev pub ◌>>◌ : {N B : Type 0} → Checked N (Unit {0}) → Checked N B → Checked N B
m >> k = m >>= λ _. k

-- `fail` and `add`
abbrev pub add : {N : Type 0} → IssuePath → Message N → Checked N (Unit {0})
add path message = some (tt, record { path = path; message = message } ∷ [])

abbrev pub add_if : {N : Type 0} → Bool → IssuePath → Message N → Checked N (Unit {0})
add_if true path message = add path message
add_if false path message = some (tt, [])

-- The options of `Check.string`.
pub record StringOptions : Type 0 where
  pub min : ℕ
  pub max : ℕ
  pub pattern : Option (Text → Bool)
  pub upper : Bool

-- The options of `Check.number`; a bound that is left out is `none`.
pub record NumberOptions (N : Type 0) : Type 0 where
  pub min : Option N
  pub max : Option N
  pub integer : Bool

abbrev pub fails_pattern : Option (Text → Bool) → Text → Bool
fails_pattern none t = false
fails_pattern (some pattern) t = not (pattern t)

-- The text that `Check.string` tests and returns.
unfoldable pub normalise : {N : Type 0} → Runtime N → Bool → Text → Text
normalise r upper value = if upper then r.to_upper (trim value) else trim value

module _ {N : Type 0} ⦃r : Runtime N⦄ where
  unfoldable pub string_value : String → StringOptions → Option (Json N) → Checked N Text
  unfolding normalise
  string_value path o (some (str value)) = do
    let trimmed = normalise r o.upper value
    add_if (ltb (length trimmed) o.min) (at_field path) (at_least_characters o.min)
    add_if (ltb o.max (length trimmed)) (at_field path) (at_most_characters o.max)
    add_if (fails_pattern o.pattern trimmed) (at_field path) bad_format
    pure trimmed
  string_value path o value = do add (at_field path) must_be_text; pure []

  unfoldable pub string : Json N → String → StringOptions → Checked N Text
  unfolding string_value
  string input path o = string_value path o (get input path)

  abbrev pub below : N → Option N → Bool
  below n none = false
  below n (some bound) = r.lt n bound

  abbrev pub above : N → Option N → Bool
  above n none = false
  above n (some bound) = r.lt bound n

  abbrev pub or_nan : Option N → N
  or_nan none = r.nan
  or_nan (some n) = n

  -- `Number(value)` is called for its exception alone: a value that is no number is refused.
  unfoldable pub coerced : Option (Json N) → Checked N N
  coerced none = pure r.nan
  coerced (some v) = elim (to_number v) [ none ↦ none | some n ↦ pure n ]

  abbrev pub add_bound : Bool → String → (N → Message N) → Option N → Checked N (Unit {0})
  add_bound outside path message none = pure tt
  add_bound outside path message (some bound) = add_if outside (at_field path) (message bound)

  -- A value of type number, by whether it is finite.
  unfoldable pub typed_number : Bool → String → NumberOptions N → N → Checked N N
  typed_number true path o n = do
    add_if (o.integer && not (r.is_integer n)) (at_field path) must_be_a_whole_number
    add_bound (below n o.min) path at_least o.min
    add_bound (above n o.max) path at_most o.max
    pure n
  typed_number false path o n = do add (at_field path) must_be_a_number; pure (r.of_ℕ 0)

  unfoldable pub number_value : String → NumberOptions N → Option (Json N) → Checked N N
  unfolding coerced typed_number
  number_value path o (some (num n)) = typed_number (r.is_finite n) path o n
  number_value path o value = do
    ignored ← coerced value
    add (at_field path) must_be_a_number
    pure (r.of_ℕ 0)

  unfoldable pub number : Json N → String → NumberOptions N → Checked N N
  unfolding number_value
  number input path o = number_value path o (get input path)

  -- `null`, `undefined` and the empty text are an absent number.
  unfoldable pub nullable_value : String → NumberOptions N → Option (Json N) → Checked N (Option N)
  unfolding number_value
  nullable_value path o none = pure none
  nullable_value path o (some null) = pure none
  nullable_value path o (some (str [])) = pure none
  nullable_value path o value = do n ← number_value path o value; pure (some n)

  unfoldable pub nullable_number : Json N → String → NumberOptions N → Checked N (Option N)
  unfolding nullable_value
  nullable_number input path o = nullable_value path o (get input path)

module _ {N : Type 0} where
  unfoldable pub boolean_value : String → Bool → Option (Json N) → Checked N Bool
  boolean_value path fallback none = pure fallback
  boolean_value path fallback (some null) = pure fallback
  boolean_value path fallback (some (boolean b)) = pure b
  boolean_value path fallback value = do add (at_field path) must_be_true_or_false; pure fallback

  -- `Check.boolean`
  unfoldable pub read_boolean : Json N → String → Bool → Checked N Bool
  unfolding boolean_value
  read_boolean input path fallback = boolean_value path fallback (get input path)

-- A literal type of the source is a data type with the text of each of its values.
pub record Choices (A : Type 0) : Type 0 where
  pub first : Text × A
  pub others : List (Text × A)

abbrev pub find_choice : {A : Type 0} → Text → List (Text × A) → Option A
find_choice t [] = none
find_choice t ((u, a) ∷ choices) = if text_eq u t then some a else find_choice t choices

module _ {N A : Type 0} where
  abbrev refused : String → Choices A → Checked N A
  refused path allowed = do
    add (at_field path) (must_be_one_of (map (λ c. c.0) (allowed.first ∷ allowed.others)))
    pure allowed.first.1

  abbrev chosen : String → Choices A → Option A → Checked N A
  chosen path allowed none = refused path allowed
  chosen path allowed (some a) = pure a

  unfoldable pub choice_value : String → Choices A → Option (Json N) → Checked N A
  choice_value path allowed (some (str t)) =
      chosen path allowed (find_choice t (allowed.first ∷ allowed.others))
  choice_value path allowed value = refused path allowed

  -- `Check.oneOf`
  unfoldable pub one_of : Json N → String → Choices A → Checked N A
  unfolding choice_value
  one_of input path allowed = choice_value path allowed (get input path)

-- `ValidationResult`: the value, or null where an issue was pushed.
pub record ValidationResult (N A : Type 0) : Type 0 where
  pub value : Option A
  pub issues : List (Issue N)

abbrev pub kept : {N A : Type 0} → List (Issue N) → A → Option A
kept [] a = some a
kept (_ ∷ _) a = none

-- `new ValidationResult(check.issues.length ? null : value, check.issues)`
unfoldable pub finish : {N A : Type 0} → Checked N A → Option (ValidationResult N A)
finish none = none
finish (some (a, issues)) = some (record { value = kept issues a; issues = issues })

-- `ok`
unfoldable pub is_ok : {N A : Type 0} → ValidationResult N A → Bool
is_ok v = elim v.issues [ [] ↦ elim v.value [ none ↦ false | some _ ↦ true ] | _ ∷ _ ↦ false ]
