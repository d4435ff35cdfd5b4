-- ===== src/Tests/Settings.antt =====
-- Variables of a process, on which the theorem on the settings applies.
use rebalance_webull.Prelude.{
  ◌≡◌, refl, Option, none, some, List, [], ◌∷◌, String, Text, codes, trim, str_eq, if◌then◌else◌,
}
use rebalance_webull.Api.Environment.{Settings, read_settings}
use rebalance_webull.Api.Environment.Complete.{IsComplete, read_settings-IsComplete}
use rebalance_webull.Tests.Numbers.{Sample, sample_runtime}

abbrev value_in : List (String × Text) → String → Option Text
value_in [] name = none
value_in (pair ∷ pairs) name = if str_eq pair.0 name then some pair.1 else value_in pairs name

-- A local stack with a legacy key.
abbrev sample_variables : List (String × Text)
sample_variables =
    ("SUPABASE_URL", codes "http://gateway:8000 ")
    ∷ ("SUPABASE_SECRET_KEY", codes " ")
    ∷ ("SUPABASE_SERVICE_ROLE_KEY", codes "legacy")
    ∷ ("SUPABASE_ANON_KEY", codes "anon")
    ∷ ("APP_ENCRYPTION_KEY", codes "AAAA")
    ∷ ("ENGINE_URL", codes "http://engine:8000")
    ∷ ("ENGINE_INTERNAL_TOKEN", codes "secret")
    ∷ []

abbrev sample_settings : Settings Sample
sample_settings = record {
  app_env = codes "development";
  supabase_url = codes "http://gateway:8000";
  supabase_secret_key = codes "legacy";
  supabase_publishable_key = codes "anon";
  encryption_key = codes "AAAA";
  encryption_key_version = sample_runtime.of_ℕ 1;
  engine_url = codes "http://engine:8000";
  engine_token = codes "secret";
  engine_timeout_ms = sample_runtime.of_ℕ 15000;
}

sample_settings_read :
    read_settings (value_in sample_variables) sample_runtime ≡ some sample_settings
unfolding read_settings trim
sample_settings_read = refl

read_settings-IsComplete_example : IsComplete sample_settings
read_settings-IsComplete_example =
    read_settings-IsComplete sample_runtime (value_in sample_variables) sample_settings
      sample_settings_read
