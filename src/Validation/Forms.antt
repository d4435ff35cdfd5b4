-- ===== src/Validation/Forms.antt =====
-- `parseCredentials` and `parseStatusAction` of supabase/functions/_shared/validation.ts.
use rebalance_webull.Prelude.{false, Option, none, [], ◌∷◌, Text, codes}
use rebalance_webull.Js.{Runtime, Json, body_or_empty}
use rebalance_webull.Validation.Check.{
  Checked, pure, ◌>>=◌, StringOptions, string, Choices, one_of, ValidationResult, finish,
}

pub record Credentials : Type 0 where
  pub api_key : Text
  pub api_secret : Text

abbrev pub secret_options : StringOptions
secret_options = record { min = 4; max = 512; pattern = none; upper = false }

pub data Action : Type 0 where
  start pause stop : Action

abbrev pub actions : Choices Action
actions = record {
  first = (codes "start", start);
  others = (codes "pause", pause) ∷ (codes "stop", stop) ∷ [];
}

module _ {N : Type 0} ⦃r : Runtime N⦄ where
  unfoldable pub read_credentials : Json N → Checked N Credentials
  read_credentials body = do
    let input = body_or_empty body
    api_key ← string input "api_key" secret_options
    api_secret ← string input "api_secret" secret_options
    pure (record { api_key = api_key; api_secret = api_secret })

  unfoldable pub parse_credentials : Json N → Option (ValidationResult N Credentials)
  unfolding read_credentials
  parse_credentials body = finish (read_credentials body)

module _ {N : Type 0} where
  unfoldable pub parse_status_action : Json N → Option (ValidationResult N Action)
  parse_status_action body = finish (one_of (body_or_empty body) "action" actions)
