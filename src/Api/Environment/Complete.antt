-- ===== src/Api/Environment/Complete.antt =====
-- What supabase/functions/_shared/env.ts requires of the variables.
use rebalance_webull.Prelude.{
  ◌≡◌, refl, false, Option, none, some, List, [], ◌∷◌, String, Text, trim, Option-cases, inl, inr,
}
use mathlib.Core.Path.{subst}
use rebalance_webull.Js.{Runtime}
use rebalance_webull.Prelude.Trim.{IsTrimmed, trim-IsTrimmed}
use rebalance_webull.Api.Environment.{
  is_blank, filled, trimmed_value, Settings, ◌>>=◌, first_filled, required, read_settings,
}

-- The text is not empty and has no white space around it.
abbrev pub IsPresent : Text → Type 0
IsPresent t = (is_blank t ≡ false) × IsTrimmed t

some-injective : {A : Type 0} {a b : A} → some a ≡ some b → a ≡ b
some-injective e = cc

filled-some : (u t : Text) → filled u ≡ some t → (u ≡ t) × (is_blank t ≡ false)
filled-some [] t e = cc
filled-some (c ∷ u) t e =
    (some-injective e, subst (λ v. is_blank v ≡ false) (some-injective e) refl)

trimmed_value-IsPresent :
    (value : Option Text) (t : Text) → trimmed_value value ≡ some t → IsPresent t
trimmed_value-IsPresent none t e = cc
trimmed_value-IsPresent (some value) t e =
    let (same, present) = filled-some (trim value) t e in
    (present, subst IsTrimmed same (trim-IsTrimmed value))

first_filled-IsPresent :
    (variables : String → Option Text) (keys : List String) (t : Text)
    → first_filled variables keys ≡ some t
    → IsPresent t
unfolding first_filled
first_filled-IsPresent variables [] t e = cc
first_filled-IsPresent variables (key ∷ keys) t e =
    elim (Option-cases (trimmed_value (variables key))) [
      | inl blank ↦ first_filled-IsPresent variables keys t (rw blank at e)
      | inr (value, found) ↦
          subst IsPresent (some-injective (rw found at e))
            (trimmed_value-IsPresent (variables key) value found)
    ]

>>=-some :
    {A B : Type 0} (o : Option A) (f : A → Option B) {b : B}
    → (o >>= f) ≡ some b
    → (a : A) × (o ≡ some a) × (f a ≡ some b)
>>=-some none f e = cc
>>=-some (some a) f e = (a, refl, e)

required-IsPresent :
    (variables : String → Option Text) (name : String) (fallbacks : List String) {t : Text}
    → required variables name fallbacks ≡ some t
    → IsPresent t
unfolding required
required-IsPresent variables name fallbacks {t} e =
    first_filled-IsPresent variables (name ∷ fallbacks) t e

-- Every setting that the service cannot do without.
pub record IsComplete {N : Type 0} (s : Settings N) : Type 0 where
  pub supabase_url : IsPresent s.supabase_url
  pub supabase_secret_key : IsPresent s.supabase_secret_key
  pub supabase_publishable_key : IsPresent s.supabase_publishable_key
  pub encryption_key : IsPresent s.encryption_key
  pub engine_url : IsPresent s.engine_url
  pub engine_token : IsPresent s.engine_token

-- Where the module loads, each of the six required settings is a text that is not empty and has
-- no white space around it.
pub read_settings-IsComplete :
    {N : Type 0} (r : Runtime N) (variables : String → Option Text) (s : Settings N)
    → read_settings variables r ≡ some s
    → IsComplete s
unfolding read_settings
read_settings-IsComplete r variables s e =
    let (url, h₁, e₁) = >>=-some (required variables "SUPABASE_URL" []) _ e in
    let (secret, h₂, e₂) =
      >>=-some (required variables "SUPABASE_SECRET_KEY" ("SUPABASE_SERVICE_ROLE_KEY" ∷ [])) _ e₁ in
    let (publishable, h₃, e₃) =
      >>=-some (required variables "SUPABASE_PUBLISHABLE_KEY" ("SUPABASE_ANON_KEY" ∷ [])) _ e₂ in
    let (key, h₄, e₄) = >>=-some (required variables "APP_ENCRYPTION_KEY" []) _ e₃ in
    let (engine, h₅, e₅) = >>=-some (required variables "ENGINE_URL" []) _ e₄ in
    let (token, h₆, e₆) = >>=-some (required variables "ENGINE_INTERNAL_TOKEN" []) _ e₅ in
    subst IsComplete (some-injective e₆) (record {
      supabase_url = required-IsPresent variables "SUPABASE_URL" [] h₁;
      supabase_secret_key =
          required-IsPresent variables "SUPABASE_SECRET_KEY" ("SUPABASE_SERVICE_ROLE_KEY" ∷ []) h₂;
      supabase_publishable_key =
          required-IsPresent variables "SUPABASE_PUBLISHABLE_KEY" ("SUPABASE_ANON_KEY" ∷ []) h₃;
      encryption_key = required-IsPresent variables "APP_ENCRYPTION_KEY" [] h₄;
      engine_url = required-IsPresent variables "ENGINE_URL" [] h₅;
      engine_token = required-IsPresent variables "ENGINE_INTERNAL_TOKEN" [] h₆;
    })
