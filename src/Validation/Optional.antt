-- ===== src/Validation/Optional.antt =====
-- What the readers of optional numbers, of booleans and of choices accept, for validation.ts.
use rebalance_webull.Prelude.{◌≡◌, Bool, Option, none, some, [], String, Text, codes}
use rebalance_webull.Js.{Runtime, Json, null, boolean, num, str, get}
use rebalance_webull.Validation.Check.{
  pure, ◌>>=◌, NumberOptions, nullable_number, nullable_value, number_value, read_boolean, one_of,
}
use rebalance_webull.Validation.Accept.{Accepts, >>=-Accepts, >>=_of_Accepts, pure-Accepts}
use rebalance_webull.Validation.Fields.{IsNumber, number_value-Accepts, number_value_of_IsNumber}
use rebalance_webull.Validation.Bot.{TriggerType, schedule, drift, schedule_or_drift, trigger_types}

-- The text of a trigger type.
abbrev pub trigger_text : TriggerType → Text
trigger_text schedule = codes "schedule"
trigger_text drift = codes "drift"
trigger_text schedule_or_drift = codes "schedule_or_drift"

-- An optional number as JSON.
abbrev pub optional_json : {N : Type 0} → Option N → Json N
optional_json none = null
optional_json (some n) = num n

module _ {N : Type 0} ⦃r : Runtime N⦄ where
  -- The number is absent, or the options admit it.
  abbrev pub IsOptional : NumberOptions N → Option N → Type 0
  IsOptional o none = Unit {0}
  IsOptional o (some n) = IsNumber o n

  present-Accepts :
      (path : String) (o : NumberOptions N) (v : Option (Json N)) (m : Option N)
      → Accepts (number_value path o v >>= λ n. pure (some n)) m
      → IsOptional o m
  present-Accepts path o v m h =
      let (n, k, e) = >>=-Accepts (number_value path o v) (λ n. pure (some n)) h in
      rw (pure-Accepts e) (number_value-Accepts path o v k).1

  nullable_value-Accepts :
      (path : String) (o : NumberOptions N) (v : Option (Json N)) (m : Option N)
      → Accepts (nullable_value path o v) m
      → IsOptional o m
  unfolding nullable_value
  nullable_value-Accepts path o none m h = rw (pure-Accepts h) tt
  nullable_value-Accepts path o (some null) m h = rw (pure-Accepts h) tt
  nullable_value-Accepts path o (some (str [])) m h = rw (pure-Accepts h) tt
  nullable_value-Accepts path o (some v) m h = present-Accepts path o (some v) m h

  pub nullable_number-Accepts :
      (input : Json N) (path : String) (o : NumberOptions N) {m : Option N}
      → Accepts (nullable_number input path o) m
      → IsOptional o m
  unfolding nullable_number
  nullable_number-Accepts input path o {m} h = nullable_value-Accepts path o (get input path) m h

  pub nullable_number_of_IsOptional :
      (input : Json N) (path : String) (o : NumberOptions N) (m : Option N)
      → get input path ≡ some (optional_json m)
      → IsOptional o m
      → Accepts (nullable_number input path o) m
  unfolding nullable_number
  nullable_number_of_IsOptional input path o none e h = rw e
  nullable_number_of_IsOptional input path o (some n) e h =
      rw e (>>=_of_Accepts (λ n. pure (some n)) (number_value_of_IsNumber path o n h))

  pub read_boolean_of_get :
      (input : Json N) (path : String) (fallback b : Bool)
      → get input path ≡ some (boolean b)
      → Accepts (read_boolean input path fallback) b
  unfolding read_boolean
  read_boolean_of_get input path fallback b e = rw e

  pub one_of_of_trigger :
      (input : Json N) (path : String) (t : TriggerType)
      → get input path ≡ some (str (trigger_text t))
      → Accepts (one_of input path trigger_types) t
  unfolding one_of
  one_of_of_trigger input path schedule e = rw e
  one_of_of_trigger input path drift e = rw e
  one_of_of_trigger input path schedule_or_drift e = rw e
