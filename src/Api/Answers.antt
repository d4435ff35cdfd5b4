-- ===== src/Api/Answers.antt =====
-- How long a handler of supabase/functions waits on its services, and how it ends.
pub mod Handlers
pub mod Requests
use rebalance_webull.Prelude.{
  ℕ, suc, ◌+◌, ◌-◌, ◌≤◌, ◌≡◌, refl, ◌⊎◌, inl, inr, Bool, true, false, Option, none, some, List,
  Text, arith, ◌==◌, if◌then◌else◌,
}
use rebalance_webull.Js.{Runtime, Json, null}
use rebalance_webull.Validation.Check.{Issue, ValidationResult, is_ok}
use rebalance_webull.Api.Http.{ErrorCode, status_of, ApiError, Response, ok, fail}
use rebalance_webull.Api.Effects.{
  Query, Procedure, PostgresError, Returned, Rows, Payload, no_text, json, other_text, Fetched,
  responded, aborted, unreachable, Reply, Program, done, throw, crash, ask, ◌>>=◌, awaited,
}
use rebalance_webull.Api.Engine.{Env, is_success, answer, settle}
use rebalance_webull.Api.Request.{unless_refused, when_valid}
use rebalance_webull.Api.Postgres.{call_rpc, or_postgres_error}
use rebalance_webull.Api.BotReads.{rows_or_error, both, found_or}

-- A status that the application answers with: of success, or of one of its error codes.
abbrev pub IsStatus : ℕ → Type 0
IsStatus status = (status ≡ 200) ⊎ (status ≡ 201) ⊎ ((code : ErrorCode) × (status ≡ status_of code))

-- After at most `n` calls, whatever the services reply, the tree ends: with a value that satisfies
-- `P`, or by an exception.
abbrev pub EndsWithin : {N A : Type 0} → ℕ → (A → Type 0) → Program N A → Type 0
EndsWithin n P (done a) = P a
EndsWithin n P (throw e) = Unit
EndsWithin n P crash = Unit
EndsWithin n P (ask c k) = (1 ≤ n) × ((reply : Reply c) → EndsWithin (n - 1) P (k reply))

-- The same with no exception.
abbrev pub AnswersWithin : {N : Type 0} → ℕ → Program N (Response N) → Type 0
AnswersWithin n (done response) = IsStatus response.status
AnswersWithin n (throw e) = ⊥
AnswersWithin n crash = ⊥
AnswersWithin n (ask c k) = (1 ≤ n) × ((reply : Reply c) → AnswersWithin (n - 1) (k reply))

abbrev pub HandlesWithin : {N : Type 0} → ℕ → Program N (Response N) → Type 0
HandlesWithin n p = EndsWithin n (λ response. IsStatus response.status) p

module _ {N : Type 0} where
  EndsWithin-weaken :
      {A : Type 0} (P : A → Type 0) (m n : ℕ) (p : Program N A)
      → m ≤ n
      → EndsWithin m P p
      → EndsWithin n P p
  EndsWithin-weaken P m n (done a) h e = e
  EndsWithin-weaken P m n (throw x) h e = tt
  EndsWithin-weaken P m n crash h e = tt
  EndsWithin-weaken P m n (ask c k) h (some_left, e) =
      (omega arith, λ reply. EndsWithin-weaken P (m - 1) (n - 1) (k reply) (omega arith) (e reply))

  pub HandlesWithin-weaken :
      (m n : ℕ) (p : Program N (Response N)) → m ≤ n → HandlesWithin m p → HandlesWithin n p
  HandlesWithin-weaken m n p h e =
      EndsWithin-weaken (λ response. IsStatus response.status) m n p h e

  pub EndsWithin-awaited :
      {A B : Type 0} (P : B → Type 0) (n : ℕ) (f : A → Program N B)
      → ((a : A) → EndsWithin n P (f a))
      → (reply : Option A) → EndsWithin n P (awaited f reply)
  EndsWithin-awaited P n f k none = tt
  EndsWithin-awaited P n f k (some a) = k a

  or_postgres_error-EndsWithin :
      {A : Type 0} (P : A → Type 0) (n : ℕ) (next : Option (Json N) → Program N A)
      (reply : Returned N) (e : Option PostgresError)
      → ((v : Option (Json N)) → EndsWithin n P (next v))
      → EndsWithin n P (or_postgres_error next reply e)
  or_postgres_error-EndsWithin P n next reply none k = k reply.returned
  or_postgres_error-EndsWithin P n next reply (some e) k = tt

  pub EndsWithin-call_rpc :
      {A : Type 0} (P : A → Type 0) (n : ℕ) (procedure : Procedure N)
      (next : Option (Json N) → Program N A)
      → 1 ≤ n
      → ((v : Option (Json N)) → EndsWithin (n - 1) P (next v))
      → EndsWithin n P (call_rpc procedure next)
  EndsWithin-call_rpc P n procedure next some_left k = (
    some_left,
    EndsWithin-awaited P (n - 1) _
        (λ reply. or_postgres_error-EndsWithin P (n - 1) next reply reply.error k),
  )

  unless_refused-EndsWithin :
      {A B : Type 0} (P : B → Type 0) (n : ℕ) (refusal : ApiError N) (next : A → Program N B)
      (valid : Bool) (o : Option A)
      → ((a : A) → EndsWithin n P (next a))
      → EndsWithin n P (unless_refused refusal next valid o)
  unless_refused-EndsWithin P n refusal next true (some a) k = k a
  unless_refused-EndsWithin P n refusal next true none k = tt
  unless_refused-EndsWithin P n refusal next false o k = tt

  pub EndsWithin-when_valid :
      {A B : Type 0} (P : B → Type 0) (n : ℕ) (refusal : List (Issue N) → ApiError N)
      (next : A → Program N B) (parsed : Option (ValidationResult N A))
      → ((a : A) → EndsWithin n P (next a))
      → EndsWithin n P (when_valid refusal next parsed)
  unfolding when_valid
  EndsWithin-when_valid P n refusal next none k = tt
  EndsWithin-when_valid P n refusal next (some v) k =
      unless_refused-EndsWithin P n (refusal v.issues) next (is_ok v) v.value k

  pub ok-IsStatus : (v : Json N) → IsStatus (ok v 200).status × IsStatus (ok v 201).status
  unfolding ok
  ok-IsStatus v = (inl refl, inr (inl refl))

  pub fail-IsStatus : (e : ApiError N) → IsStatus (fail e).status
  unfolding fail
  fail-IsStatus e = inr (inr (e.code, refl))

  pub HandlesWithin-rows_or_error :
      (n : ℕ) (message : Text) (wrap : Json N → Json N) (failed : Bool) (rows : Option (Json N))
      → HandlesWithin n (rows_or_error message wrap failed rows)
  unfolding rows_or_error ok
  HandlesWithin-rows_or_error n message wrap true rows = tt
  HandlesWithin-rows_or_error n message wrap false rows = inl refl

  pub HandlesWithin-both :
      (n : ℕ) (token : Text) (a b : Query N) (next : Rows N → Rows N → Program N (Response N))
      → 2 ≤ n
      → ((x y : Rows N) → HandlesWithin (n - 1 - 1) (next x y))
      → HandlesWithin n (both token a b next)
  unfolding both
  HandlesWithin-both n token a b next enough k = (
    omega arith,
    λ x. (
      omega arith,
      λ y.
          EndsWithin-awaited _ (n - 1 - 1) (λ rows. awaited (next rows) y)
            (λ rows. EndsWithin-awaited _ (n - 1 - 1) (next rows) (k rows) y) x,
    ),
  )

  pub EndsWithin-found_or :
      (n : ℕ) (missing : Program N (Response N)) (next : Json N → Program N (Response N))
      (row : Option (Json N))
      → HandlesWithin n missing
      → ((v : Json N) → HandlesWithin n (next v))
      → HandlesWithin n (found_or missing next row)
  unfolding found_or
  EndsWithin-found_or n missing next none h k = h
  EndsWithin-found_or n missing next (some null) h k = h
  EndsWithin-found_or n missing next (some v) h k = k v

module _ {N : Type 0} ⦃r : Runtime N⦄ where
  answer-EndsWithin :
      (n : ℕ) (success : Bool) (status : ℕ) (payload : Json N)
      (next : Json N → Program N (Response N))
      → ((v : Json N) → HandlesWithin n (next v))
      → HandlesWithin n (answer success status payload >>= next)
  unfolding answer
  answer-EndsWithin n true status payload next k = k payload
  answer-EndsWithin n false status payload next k = tt

  -- What follows the client of the engine.
  pub settle-EndsWithin :
      (n : ℕ) (reply : Fetched N) (next : Json N → Program N (Response N))
      → ((v : Json N) → HandlesWithin n (next v))
      → HandlesWithin n (settle reply >>= next)
  unfolding settle
  settle-EndsWithin n (responded status no_text) next k = answer-EndsWithin n _ status _ next k
  settle-EndsWithin n (responded status (json v)) next k = answer-EndsWithin n _ status v next k
  settle-EndsWithin n (responded status other_text) next k = tt
  settle-EndsWithin n aborted next k = tt
  settle-EndsWithin n unreachable next k = tt
