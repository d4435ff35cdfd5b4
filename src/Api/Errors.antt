-- ===== src/Api/Errors.antt =====
-- Errors of the database and of the engine, for supabase/functions/api/routes/bots.ts and
-- supabase/functions/_shared/engine.ts.
use rebalance_webull.Prelude.{
  ℕ, ◌≡◌, refl, ◌⊎◌, inl, inr, true, false, Option, none, some, Text, codes, ◌==◌, arith,
  Bool-cases,
}
use rebalance_webull.Js.{Runtime, Json, obj, end}
use rebalance_webull.Api.Http.{not_found, invalid_request, upstream_error, ApiError}
use rebalance_webull.Api.Effects.{
  PostgresError, Payload, no_text, json, other_text, Fetched, responded, aborted, unreachable,
  Program, done, throw,
}
use rebalance_webull.Api.Engine.{is_success, answer, settle}
use rebalance_webull.Api.Postgres.{includes, message_of, is_unique_violation, from_postgres}
use rebalance_webull.Api.BotReads.{order_limit}

-- The texts that the program itself writes for an error of the database.
abbrev IsOwnText : Text → Type 0
IsOwnText t =
    (t ≡ codes "bot not found")
    ⊎ (t ≡ codes "pause the bot before changing its configuration")
    ⊎ (t ≡ codes "a bot with that name already exists")
    ⊎ (t ≡ codes "could not complete the request")

-- The database's own message, where it speaks of the basket.
abbrev SpeaksOfBasket : Text → Type 0
SpeaksOfBasket t =
    (includes t (codes "target weights must total") ≡ true)
    ⊎ (includes t (codes "add target holdings") ≡ true)

-- The error says one of those texts, or the database's own message under the code
-- `invalid_request`, and then only where that message speaks of the basket.
abbrev pub IsScreened : {N : Type 0} → Text → ApiError N → Type 0
IsScreened t error =
    IsOwnText error.message
    ⊎ ((error.message ≡ t) × (error.code ≡ invalid_request) × SpeaksOfBasket t)

-- An error of the database becomes one of four fixed texts, or its message is passed on under the
-- code `invalid_request`, and then only if it contains one of the two phrases on the basket.
pub from_postgres_texts :
    (N : Type 0) (e : PostgresError) → IsScreened (message_of e.message) (from_postgres {N = N} e)
unfolding from_postgres
from_postgres_texts N e =
    let t = message_of e.message in
    elim (Bool-cases (includes t (codes "bot not found"))) [
      | inl h ↦ rw h (inl (inl refl))
      | inr h₁ ↦ elim (Bool-cases (includes t (codes "pause the bot"))) [
        | inl h ↦ rw (h₁, h) (inl (inr (inl refl)))
        | inr h₂ ↦ elim (Bool-cases (includes t (codes "target weights must total"))) [
          | inl h ↦ rw (h₁, h₂, h) (inr (refl, refl, inl refl))
          | inr h₃ ↦ elim (Bool-cases (includes t (codes "add target holdings"))) [
            | inl h ↦ rw (h₁, h₂, h₃, h) (inr (refl, refl, inr refl))
            | inr h₄ ↦ elim (Bool-cases (is_unique_violation e.code)) [
              | inl h ↦ rw (h₁, h₂, h₃, h₄, h) (inl (inr (inr (inl refl))))
              | inr h₅ ↦ rw (h₁, h₂, h₃, h₄, h₅) (inl (inr (inr (inr refl))))
            ]
          ]
        ]
      ]
    ]

-- However the query names a limit, the orders that are read are never more than 200.
pub order_limit_bound :
    {N : Type 0} (r : Runtime N) (query : Option Text)
    → r.lt (r.of_ℕ 200) (order_limit ⦃r = r⦄ query) ≡ false
unfolding order_limit
order_limit_bound r none = r.lt-of_ℕ 200 100 (omega arith) (omega arith)
order_limit_bound r (some text) =
    let n = r.number_of_text text in
    elim (Bool-cases (r.same n n)) [
      | inl number ↦ elim (Bool-cases (r.lt (r.of_ℕ 200) n)) [
        | inl above ↦ rw (number, above) (r.lt-of_ℕ 200 200 (omega arith) (omega arith))
        | inr within ↦ rw (number, within) within
      ]
      | inr not_number ↦ rw not_number (r.lt-nan (r.of_ℕ 200))
    ]

module _ {N : Type 0} ⦃r : Runtime N⦄ where
  -- The engine answered with success, and with this payload.
  abbrev IsAnswer : Fetched N → Json N → Type 0
  IsAnswer (responded status no_text) p = (is_success status ≡ true) × (p ≡ obj end)
  IsAnswer (responded status (json v)) p = (is_success status ≡ true) × (p ≡ v)
  IsAnswer _ p = ⊥

  abbrev IsMissing : Fetched N → Type 0
  IsMissing (responded status payload) = status ≡ 404
  IsMissing _ = ⊥

  -- An error of the engine's client.
  abbrev IsEngineError : Fetched N → ApiError N → Type 0
  IsEngineError f e = (e.code ≡ upstream_error) ⊎ ((e.code ≡ not_found) × IsMissing f)

  abbrev pub IsSettled : Fetched N → Program N (Json N) → Type 0
  IsSettled f (done p) = IsAnswer f p
  IsSettled f (throw e) = IsEngineError f e
  IsSettled f _ = ⊥

  answer-IsSettled :
      (status : ℕ) (payload : Payload N) (v : Json N)
      → (is_success status ≡ true → IsAnswer (responded status payload) v)
      → IsSettled (responded status payload) (answer (is_success status) status v)
  unfolding answer
  answer-IsSettled status payload v h = elim (Bool-cases (is_success status)) [
    | inl good ↦ rw good (h good)
    | inr bad ↦ rw bad (elim (Bool-cases (status == 404)) [
      | inl missing ↦ rw missing (inr (refl, ground arith))
      | inr other ↦ rw other (inl refl)
    ])
  ]

  -- Whatever `fetch` comes to, the client ends: with the payload of a successful response, with
  -- `not_found` and then only if the engine answered 404, or with `upstream_error`.
  pub settle-IsSettled : (f : Fetched N) → IsSettled f (settle f)
  unfolding settle
  settle-IsSettled (responded status no_text) =
      answer-IsSettled status no_text (obj end) (λ good. (good, refl))
  settle-IsSettled (responded status (json v)) =
      answer-IsSettled status (json v) v (λ good. (good, refl))
  settle-IsSettled (responded status other_text) = inl refl
  settle-IsSettled aborted = inl refl
  settle-IsSettled unreachable = inl refl
