-- ===== src/Api/Environment.antt =====
-- The configuration of the edge function, supabase/functions/_shared/env.ts. The variables of the
-- process are a parameter, and so is the coercion of numbers.
pub mod Complete
use rebalance_webull.Prelude.{
  ◌≡◌, refl, Bool, true, false, Option, none, some, List, [], ◌∷◌, ◌++◌, String, Text, codes, trim,
  arith, if◌then◌else◌, Option-cases, inl, inr,
}
use mathlib.Core.Path.{subst}
use rebalance_webull.Js.{Runtime}
use rebalance_webull.Prelude.Trim.{IsTrimmed, trim-IsTrimmed}

abbrev pub is_blank : Text → Bool
is_blank [] = true
is_blank _ = false

-- `value && value.trim()`, then the trimmed value.
abbrev pub filled : Text → Option Text
filled [] = none
filled (c ∷ t) = some (c ∷ t)

abbrev pub trimmed_value : Option Text → Option Text
trimmed_value none = none
trimmed_value (some value) = filled (trim value)

abbrev pub or_else : Option Text → Option Text → Option Text
or_else none later = later
or_else (some value) later = some value

-- `env`, as far as it is read from variables.
pub record Settings (N : Type 0) : Type 0 where
  pub app_env : Text
  pub supabase_url : Text
  pub supabase_secret_key : Text
  pub supabase_publishable_key : Text
  pub encryption_key : Text
  pub encryption_key_version : N
  pub engine_url : Text
  pub engine_token : Text
  pub engine_timeout_ms : N

infixl 5 ◌>>=◌
abbrev pub ◌>>=◌ : {A B : Type 0} → Option A → (A → Option B) → Option B
none >>= f = none
some a >>= f = f a

module _ (variables : String → Option Text) where
  unfoldable pub first_filled : List String → Option Text
  first_filled [] = none
  first_filled (key ∷ keys) = or_else (trimmed_value (variables key)) (first_filled keys)

  -- `required(name, ...fallbacks)`; `none` is the exception.
  unfoldable pub required : String → List String → Option Text
  unfolding first_filled
  required name fallbacks = first_filled (name ∷ fallbacks)

  abbrev value_or : Text → Option Text → Text
  value_or fallback none = fallback
  value_or fallback (some value) = value

  -- `optional(name, fallback)`
  unfoldable pub optional : String → Text → Text
  optional name fallback = value_or fallback (trimmed_value (variables name))

  -- The object `env`, whose fields are read in this order when the module loads.
  unfoldable pub read_settings : {N : Type 0} → Runtime N → Option (Settings N)
  unfolding required optional
  read_settings r = do
    url ← required "SUPABASE_URL" []
    secret ← required "SUPABASE_SECRET_KEY" ("SUPABASE_SERVICE_ROLE_KEY" ∷ [])
    publishable ← required "SUPABASE_PUBLISHABLE_KEY" ("SUPABASE_ANON_KEY" ∷ [])
    key ← required "APP_ENCRYPTION_KEY" []
    engine ← required "ENGINE_URL" []
    token ← required "ENGINE_INTERNAL_TOKEN" []
    some (record {
      app_env = optional "APP_ENV" (codes "development");
      supabase_url = url;
      supabase_secret_key = secret;
      supabase_publishable_key = publishable;
      encryption_key = key;
      encryption_key_version = r.number_of_text (optional "APP_ENCRYPTION_KEY_VERSION" (codes "1"));
      engine_url = engine;
      engine_token = token;
      engine_timeout_ms = r.number_of_text (optional "ENGINE_TIMEOUT_MS" (codes "15000"));
    })
