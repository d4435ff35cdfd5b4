-- ===== src/Api/Http.antt =====
-- The error contract of supabase/functions/_shared/http.ts.
use rebalance_webull.Prelude.{ℕ, Option, List, Text}
use rebalance_webull.Js.{Json}
use rebalance_webull.Validation.Check.{Issue}

pub data ErrorCode : Type 0 where
  unauthorized forbidden not_found invalid_request conflict : ErrorCode
  broker_error upstream_error internal_error : ErrorCode

-- STATUS
unfoldable pub status_of : ErrorCode → ℕ
status_of unauthorized = 401
status_of forbidden = 403
status_of not_found = 404
status_of invalid_request = 422
status_of conflict = 409
status_of broker_error = 502
status_of upstream_error = 502
status_of internal_error = 500

-- `details` is unknown in the source; the program passes the issues of a validation only.
pub record ApiError (N : Type 0) : Type 0 where
  pub code : ErrorCode
  pub message : Text
  pub details : Option (List (Issue N))

-- A JSON response: the object `{ error: … }` of `fail`, or the data of `ok`; or one with no body.
pub data Body (N : Type 0) : Type 0 where
  error : ApiError N → Body N
  success : Json N → Body N
  no_body : Body N

pub record Response (N : Type 0) : Type 0 where
  pub status : ℕ
  pub body : Body N

unfoldable pub fail : {N : Type 0} → ApiError N → Response N
unfolding status_of
fail e = record { status = status_of e.code; body = error e }

unfoldable pub ok : {N : Type 0} → Json N → ℕ → Response N
ok data_value status = record { status = status; body = success data_value }
