-- ===== src/Tests/Answers.antt =====
-- Examples of the theorems that a body is read to its end and a request is answered.
use rebalance_webull.Api.Origins.{
  allowed_origins, cors_origin, AreParts, IsPart, cors_origin-IsPart,
}
use rebalance_webull.Prelude.{
  none, ◌≡◌, ◌≢◌, ◌↔◌, refl, some, [], ◌∷◌, Text, codes, trim, arith, List,
}
use rebalance_webull.Validation.Bot.{parse_create_bot}
use rebalance_webull.Validation.Patch.{parse_update_bot}
use rebalance_webull.Validation.Forms.{parse_credentials, parse_status_action}
use rebalance_webull.Validation.Total.Coercions.{IsPlain, IsPlainItems, IsPlainFields}
use rebalance_webull.Validation.Total.Parsers.{Ends, parsers_end}
use rebalance_webull.Api.App.{preflight, respond}
use rebalance_webull.Api.Effects.{done}
use rebalance_webull.Tests.Numbers.{sample_runtime}
use rebalance_webull.Tests.Routing.{sample_router}
use rebalance_webull.Tests.Bots.{sample_body}
use rebalance_webull.Tests.Requests.{sample_env, post_request}

sample_body-IsPlain : IsPlain sample_body
unfolding IsPlain IsPlainItems IsPlainFields
sample_body-IsPlain = ground arith

parsers_end_example :
    Ends (parse_create_bot sample_body)
    × Ends (parse_update_bot sample_body)
    × Ends (parse_credentials sample_body)
    × Ends (parse_status_action sample_body)
parsers_end_example = parsers_end sample_body sample_body-IsPlain

-- An OPTIONS request to a guarded path, with no token.
options_answered :
    respond sample_env sample_router
      (record post_request { method = "OPTIONS"; authorization = none })
    ≡ done preflight
unfolding respond
options_answered = refl

-- CORS_ALLOWED_ORIGINS with white space and an empty entry.
abbrev origins_text : Text
origins_text = codes " https://a.example , ,http://localhost:3000"

abbrev app_origin : Text
app_origin = codes "https://a.example"

cors_origin-IsPart_example :
    (parts : List Text) × AreParts origins_text parts
    × ((cors_origin (allowed_origins (some origins_text)) app_origin ≡ some app_origin)
        ↔ ((app_origin ≢ []) × IsPart app_origin parts))
cors_origin-IsPart_example = cors_origin-IsPart origins_text app_origin

two_origins :
    allowed_origins (some origins_text)
    ≡ codes "https://a.example" ∷ codes "http://localhost:3000" ∷ []
unfolding allowed_origins trim
two_origins = refl

other_origin :
    cors_origin (allowed_origins (some origins_text)) (codes "https://b.example") ≡ some app_origin
unfolding cors_origin allowed_origins trim
other_origin = refl
