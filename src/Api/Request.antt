-- ===== src/Api/Request.antt =====
-- What the routes of supabase/functions/api share: the body of a request and its validation.
use rebalance_webull.Prelude.{Bool, true, Option, none, some, List, Text}
use rebalance_webull.Js.{Json, null, obj, end}
use rebalance_webull.Validation.Check.{Issue, ValidationResult, is_ok}
use rebalance_webull.Api.Http.{invalid_request, ApiError}
use rebalance_webull.Api.Effects.{Program, throw, crash}

-- `c.req.json().catch(() => ({}))`; `none` is a body that is no JSON.
abbrev pub request_json : {N : Type 0} → Option (Json N) → Json N
request_json none = obj end
request_json (some v) = v

-- `new ApiError("invalid_request", message, issues)`
abbrev pub invalid : {N : Type 0} → Text → List (Issue N) → ApiError N
invalid message issues = record { code = invalid_request; message = message; details = some issues }

abbrev pub unless_refused :
    {N A B : Type 0} → ApiError N → (A → Program N B) → Bool → Option A → Program N B
unless_refused refusal next true (some a) = next a
unless_refused refusal next _ _ = throw refusal

-- `if (!parsed.ok || !parsed.value) throw …`, and the rest of the handler. `none` is an exception
-- of the parser.
unfoldable pub when_valid :
    {N A B : Type 0}
    → (List (Issue N) → ApiError N)
    → (A → Program N B)
    → Option (ValidationResult N A)
    → Program N B
unfolding is_ok
when_valid refusal next none = crash
when_valid refusal next (some v) = unless_refused (refusal v.issues) next (is_ok v) v.value

-- `data ?? fallback`
abbrev pub or_json : {N : Type 0} → Option (Json N) → Json N → Json N
or_json none fallback = fallback
or_json (some null) fallback = fallback
or_json (some v) fallback = v
