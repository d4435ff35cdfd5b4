-- ===== src/Validation/Fields.antt =====
-- What the single readers of `Check` accept, for validation.ts.
use mathlib.Core.Path.{subst}
use rebalance_webull.Prelude.{
  ◌≡◌, sym, refl, ◌≤◌, Bool, true, false, ◌&&◌, not, Option, none, some, String, Text, length, ltb,
  arith,
}
use rebalance_webull.Js.{Runtime, Json, num, str, get}
use rebalance_webull.Validation.Check.{
  Message, at_field, Checked, pure, ◌>>◌, StringOptions, NumberOptions, fails_pattern, normalise,
  string, string_value, number, number_value, typed_number, coerced, below, above, add_bound,
  must_be_text, must_be_a_number, at_least, at_most,
}
use rebalance_webull.Validation.Accept.{
  Accepts, pure-Accepts, add-Accepts, ignored-Accepts, add_if-Accepts,
}

-- A text that the options of `Check.string` admit.
pub record IsString (o : StringOptions) (t : Text) : Type 0 where
  pub long : o.min ≤ length t
  pub short : length t ≤ o.max
  pub shape : fails_pattern o.pattern t ≡ false

module _ {N : Type 0} ⦃r : Runtime N⦄ where
  -- A number that the options of `Check.number` admit.
  pub record IsNumber (o : NumberOptions N) (n : N) : Type 0 where
    pub finite : r.is_finite n ≡ true
    pub whole : (o.integer && not (r.is_integer n)) ≡ false
    pub not_below : below n o.min ≡ false
    pub not_above : above n o.max ≡ false

  string_value-Accepts :
      (path : String) (o : StringOptions) (v : Option (Json N)) {t : Text}
      → Accepts (string_value path o v) t
      → (raw : Text) × (v ≡ some (str raw)) × (t ≡ normalise r o.upper raw) × IsString o t
  unfolding string_value
  string_value-Accepts path o (some (str raw)) {t} h =
      let (min_ok, h₁) = add_if-Accepts _ _ _ _ h in
      let (max_ok, h₂) = add_if-Accepts _ _ _ _ h₁ in
      let (shape_ok, h₃) = add_if-Accepts _ _ _ _ h₂ in
      rw (pure-Accepts h₃)
        (raw, refl, refl, record { long = ground arith; short = ground arith; shape = shape_ok })
  string_value-Accepts path o none h = ground arith
  string_value-Accepts path o _ h = ground arith

  -- `Check.string` accepts just the texts that, trimmed, fit its options.
  pub string-Accepts :
      (input : Json N) (path : String) (o : StringOptions) {t : Text}
      → Accepts (string input path o) t
      → (raw : Text) × (get input path ≡ some (str raw))
        × (t ≡ normalise r o.upper raw)
        × IsString o t
  unfolding string
  string-Accepts input path o h = string_value-Accepts path o (get input path) h

  pub string_of_IsString :
      (input : Json N) (path : String) (o : StringOptions) (raw : Text)
      → get input path ≡ some (str raw)
      → IsString o (normalise r o.upper raw)
      → Accepts (string input path o) (normalise r o.upper raw)
  unfolding string
  string_of_IsString input path o raw e h = rw e (
      let min_ok : ltb (length (normalise r o.upper raw)) o.min ≡ false = ground arith in
      let max_ok : ltb o.max (length (normalise r o.upper raw)) ≡ false = ground arith in
      rw (min_ok, max_ok, h.shape))

  -- A text that trimming and upper-casing leave alone is read as it is.
  pub string_of_normal :
      (input : Json N) (path : String) (o : StringOptions) (t : Text)
      → get input path ≡ some (str t)
      → normalise r o.upper t ≡ t
      → IsString o t
      → Accepts (string input path o) t
  string_of_normal input path o t e same h =
      subst (Accepts (string input path o)) same
        (string_of_IsString input path o t e (subst (IsString o) (sym same) h))

  bound-Accepts :
      {B : Type 0} (n : N) (path : String) (bound : Option N) (k : Checked N B) {b : B}
      → Accepts (add_bound (below n bound) path at_least bound >> k) b
      → (below n bound ≡ false) × Accepts k b
  bound-Accepts n path none k h = (refl, (add_if-Accepts false (at_field path) must_be_text k h).1)
  bound-Accepts n path (some m) k h = add_if-Accepts _ _ _ k h

  upper_bound-Accepts :
      {B : Type 0} (n : N) (path : String) (bound : Option N) (k : Checked N B) {b : B}
      → Accepts (add_bound (above n bound) path at_most bound >> k) b
      → (above n bound ≡ false) × Accepts k b
  upper_bound-Accepts n path none k h =
      (refl, (add_if-Accepts false (at_field path) must_be_text k h).1)
  upper_bound-Accepts n path (some m) k h = add_if-Accepts _ _ _ k h

  typed_number-Accepts :
      (finite : Bool) (path : String) (o : NumberOptions N) (m : N) {n : N}
      → r.is_finite m ≡ finite
      → Accepts (typed_number finite path o m) n
      → (n ≡ m) × IsNumber o m
  unfolding typed_number
  typed_number-Accepts true path o m e h =
      let (whole_ok, h₁) = add_if-Accepts _ _ _ _ h in
      let (min_ok, h₂) = bound-Accepts m path o.min _ h₁ in
      let (max_ok, h₃) = upper_bound-Accepts m path o.max _ h₂ in
      (
        pure-Accepts h₃,
        record { finite = e; whole = whole_ok; not_below = min_ok; not_above = max_ok },
      )
  typed_number-Accepts false path o m e h = ground arith

  pub number_value-Accepts :
      (path : String) (o : NumberOptions N) (v : Option (Json N)) {n : N}
      → Accepts (number_value path o v) n
      → (v ≡ some (num n)) × IsNumber o n
  unfolding number_value
  number_value-Accepts path o (some (num m)) h =
      let (e, k) = typed_number-Accepts (r.is_finite m) path o m refl h in rw e (refl, k)
  number_value-Accepts path o none h = absurd (
      add-Accepts (at_field path) must_be_a_number (pure (r.of_ℕ 0))
        (ignored-Accepts (coerced none) _ h))
  number_value-Accepts path o (some v) h = absurd (
      add-Accepts (at_field path) must_be_a_number (pure (r.of_ℕ 0))
        (ignored-Accepts (coerced (some v)) _ h))

  -- `Check.number` accepts just the numbers that its options admit.
  pub number-Accepts :
      (input : Json N) (path : String) (o : NumberOptions N) {n : N}
      → Accepts (number input path o) n
      → (get input path ≡ some (num n)) × IsNumber o n
  unfolding number
  number-Accepts input path o h = number_value-Accepts path o (get input path) h

  add_bound_of :
      (path : String) (message : N → Message N) (bound : Option N) {outside : Bool}
      → outside ≡ false
      → Accepts (add_bound outside path message bound) tt
  add_bound_of path message none h = refl
  add_bound_of path message (some m) h = rw h

  pub number_value_of_IsNumber :
      (path : String) (o : NumberOptions N) (n : N)
      → IsNumber o n
      → Accepts (number_value path o (some (num n))) n
  unfolding number_value
  number_value_of_IsNumber path o n h = rw (
    h.finite,
    typed_number,
    h.whole,
    add_bound_of path at_least o.min h.not_below,
    add_bound_of path at_most o.max h.not_above,
  )

  pub number_of_IsNumber :
      (input : Json N) (path : String) (o : NumberOptions N) (n : N)
      → get input path ≡ some (num n)
      → IsNumber o n
      → Accepts (number input path o) n
  unfolding number
  number_of_IsNumber input path o n e h = rw e (number_value_of_IsNumber path o n h)
