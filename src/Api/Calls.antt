-- ===== src/Api/Calls.antt =====
-- How the calls of a tree follow from those of its parts, for the handlers of supabase/functions.
use rebalance_webull.Prelude.{◌≡◌, refl, Bool, true, false, Option, none, some, List}
use rebalance_webull.Js.{Json}
use rebalance_webull.Validation.Check.{Issue, ValidationResult, is_ok}
use rebalance_webull.Api.Http.{ApiError}
use rebalance_webull.Api.Effects.{
  Call, rpc, Procedure, Program, done, throw, crash, ask, ◌>>=◌, awaited, AllCalls, Returned,
  PostgresError,
}
use rebalance_webull.Api.Request.{unless_refused, when_valid}
use rebalance_webull.Api.Postgres.{call_rpc, or_postgres_error}

module _ {N : Type 0} (P : Call N → Type 0) where
  pub AllCalls-bind :
      {A B : Type 0} (m : Program N A) (f : A → Program N B)
      → AllCalls P m
      → ((a : A) → AllCalls P (f a))
      → AllCalls P (m >>= f)
  AllCalls-bind (done a) f h k = k a
  AllCalls-bind (throw e) f h k = tt
  AllCalls-bind crash f h k = tt
  AllCalls-bind (ask c next) f (p, h) k = (p, λ reply. AllCalls-bind (next reply) f (h reply) k)

  pub AllCalls-awaited :
      {A B : Type 0} (f : A → Program N B)
      → ((a : A) → AllCalls P (f a))
      → (reply : Option A) → AllCalls P (awaited f reply)
  AllCalls-awaited f k none = tt
  AllCalls-awaited f k (some a) = k a

  or_postgres_error-AllCalls :
      {A : Type 0} (next : Option (Json N) → Program N A) (reply : Returned N)
      (e : Option PostgresError)
      → ((v : Option (Json N)) → AllCalls P (next v))
      → AllCalls P (or_postgres_error next reply e)
  or_postgres_error-AllCalls next reply none k = k reply.returned
  or_postgres_error-AllCalls next reply (some e) k = tt

  pub AllCalls-call_rpc :
      {A : Type 0} (procedure : Procedure N) (next : Option (Json N) → Program N A)
      → P (rpc procedure)
      → ((v : Option (Json N)) → AllCalls P (next v))
      → AllCalls P (call_rpc procedure next)
  AllCalls-call_rpc procedure next p k =
      (p, AllCalls-awaited _ (λ reply. or_postgres_error-AllCalls next reply reply.error k))

  unless_refused-AllCalls :
      {A B : Type 0} (refusal : ApiError N) (next : A → Program N B) (valid : Bool) (o : Option A)
      → ((a : A) → o ≡ some a → AllCalls P (next a))
      → AllCalls P (unless_refused refusal next valid o)
  unless_refused-AllCalls refusal next true (some a) k = k a refl
  unless_refused-AllCalls refusal next true none k = tt
  unless_refused-AllCalls refusal next false o k = tt

  -- The rest of a handler calls with what the parser returned.
  pub AllCalls-when_valid :
      {A B : Type 0} (refusal : List (Issue N) → ApiError N) (next : A → Program N B)
      (parsed : Option (ValidationResult N A))
      → ((v : ValidationResult N A) (a : A)
          → parsed ≡ some v
          → v.value ≡ some a
          → AllCalls P (next a))
      → AllCalls P (when_valid refusal next parsed)
  unfolding when_valid
  AllCalls-when_valid refusal next none k = tt
  AllCalls-when_valid refusal next (some v) k =
      unless_refused-AllCalls (refusal v.issues) next (is_ok v) v.value (λ a e. k v a refl e)
