-- ===== src/Api/Origins.antt =====
-- The origins that may call the API from a browser, supabase/functions/api/index.ts.
use mathlib.Core.Path.{ap₂}
use rebalance_webull.Prelude.{
  ℕ, ◌≡◌, ◌≢◌, ◌⊎◌, ◌↔◌, ◌++◌, refl, sym, ap, ◌∙◌, false, trim, ◌==◌, true, Option, none, some,
  List, [], ◌∷◌, Text, text_eq, text_eq_iff, codes, map, any, All, arith, Bool-cases, inl, inr,
  if◌then◌else◌,
}

abbrev in_first : ℕ → List Text → List Text
in_first c [] = (c ∷ []) ∷ []
in_first c (t ∷ ts) = (c ∷ t) ∷ ts

-- `split(",")`
unfoldable pub split_commas : Text → List Text
split_commas [] = [] ∷ []
split_commas (c ∷ s) = let rest = split_commas s in if c == b',' then [] ∷ rest else in_first c rest

-- `filter(Boolean)` on texts.
unfoldable pub not_empty : List Text → List Text
not_empty [] = []
not_empty ([] ∷ ts) = not_empty ts
not_empty ((c ∷ t) ∷ ts) = (c ∷ t) ∷ not_empty ts

abbrev or_local : Option Text → Text
or_local none = codes "http://127.0.0.1:3000,http://localhost:3000"
or_local (some origins) = origins

-- `allowedOrigins`, by CORS_ALLOWED_ORIGINS.
unfoldable pub allowed_origins : Option Text → List Text
unfolding split_commas not_empty
allowed_origins setting = not_empty (map trim (split_commas (or_local setting)))

abbrev first_of : List Text → Option Text
first_of [] = none
first_of (t ∷ ts) = some t

-- The origin that `cors` is told to allow, by that of the request; `none` is `undefined`.
unfoldable pub cors_origin : List Text → Text → Option Text
cors_origin allowed origin = if any (text_eq origin) allowed then some origin else first_of allowed

-- Texts with a comma between each two.
abbrev pub joined : List Text → Text
joined [] = []
joined (t ∷ []) = t
joined (t ∷ u ∷ ts) = t ++ b',' ∷ joined (u ∷ ts)

abbrev pub Lacks : ℕ → Text → Type 0
Lacks b t = All (λ c. c ≢ b) t

-- A part of the setting is the origin, with white space around it or none.
abbrev pub IsPart : Text → List Text → Type 0
IsPart origin [] = ⊥
IsPart origin (t ∷ ts) = (trim t ≡ origin) ⊎ IsPart origin ts

-- The texts that a setting is made of, with its commas between them.
abbrev pub AreParts : Text → List Text → Type 0
AreParts setting parts = (joined parts ≡ setting) × All (Lacks b',') parts

joined-in_first : (c : ℕ) (ts : List Text) → joined (in_first c ts) ≡ c ∷ joined ts
joined-in_first c [] = refl
joined-in_first c (t ∷ []) = refl
joined-in_first c (t ∷ u ∷ ts) = refl

joined-nil : (ts : List Text) → ts ≢ [] → joined ([] ∷ ts) ≡ b',' ∷ joined ts
joined-nil [] h = absurd (h refl)
joined-nil (t ∷ ts) h = refl

split_commas_some : (s : Text) → split_commas s ≢ []
unfolding split_commas
split_commas_some [] e = cc
split_commas_some (c ∷ s) e = elim (Bool-cases (c == b',')) [
  | inl comma ↦ absurd (cons_nil (rw comma at e))
  | inr other ↦ absurd (in_first_some (split_commas s) (rw other at e))
]
  where
    cons_nil : {t : Text} {ts : List Text} → ¬ (t ∷ ts ≡ [])
    cons_nil e = absurd cc

    in_first_some : (ts : List Text) → ¬ (in_first c ts ≡ [])
    in_first_some [] e = absurd cc
    in_first_some (t ∷ ts) e = absurd cc

in_first-Lacks :
    (c : ℕ) (ts : List Text)
    → (c == b',') ≡ false
    → All (Lacks b',') ts
    → All (Lacks b',') (in_first c ts)
in_first-Lacks c [] other h = ((λ e. ground (arith, e), tt), tt)
in_first-Lacks c (t ∷ ts) other (first, rest) = ((λ e. ground (arith, e), first), rest)

split_commas-AreParts : (s : Text) → AreParts s (split_commas s)
unfolding split_commas
split_commas-AreParts [] = (refl, (tt, tt))
split_commas-AreParts (c ∷ s) =
    let (whole, lacking) = split_commas-AreParts s in
    elim (Bool-cases (c == b',')) [
      | inl comma ↦
          let is_comma : c ≡ b',' = ground arith in
          rw comma (
            joined-nil (split_commas s) (split_commas_some s)
                ∙ ap₂ (λ a t. a ∷ t) (sym is_comma) whole,
            (tt, lacking),
          )
      | inr other ↦ rw other (
        joined-in_first c (split_commas s) ∙ ap (λ t. c ∷ t) whole,
        in_first-Lacks c (split_commas s) other lacking,
      )
    ]

text_eq_refl : (t : Text) → text_eq t t ≡ true
text_eq_refl t = (text_eq_iff t t).1 refl

-- One text before the others: it is kept unless it is empty.
any_kept-cons :
    (origin t : Text) (ts : List Text) (Later : Type 0)
    → ((any (text_eq origin) (not_empty ts) ≡ true) ↔ ((origin ≢ []) × Later))
    → (any (text_eq origin) (not_empty (t ∷ ts)) ≡ true) ↔ ((origin ≢ []) × ((t ≡ origin) ⊎ Later))
unfolding not_empty
any_kept-cons origin [] ts Later rest = (
  λ e. ((rest.0 e).0, inr (rest.0 e).1),
  λ h. elim h.1 [ inl same ↦ absurd (h.0 (sym same)) | inr later ↦ rest.1 (h.0, later) ],
)
any_kept-cons origin (c ∷ t) ts Later rest = elim (Bool-cases (text_eq origin (c ∷ t))) [
  | inl same ↦
      let is : origin ≡ c ∷ t = (text_eq_iff origin (c ∷ t)).0 same in
      (λ e. ((λ none_left. absurd cc), inl (sym is)), λ h. rw same refl)
  | inr other ↦ (
    λ e. let later = rest.0 (rw other at e) in (later.0, inr later.1),
    λ h. elim h.1 [
      | inl is ↦ absurd (false-true (sym other ∙ (text_eq_iff origin (c ∷ t)).1 (sym is)))
      | inr later ↦ rw other (rest.1 (h.0, later))
    ],
  )
]
  where
    false-true : ¬ (false ≡ true)
    false-true e = absurd cc

-- The parts that are kept: those that are not empty when trimmed.
any_kept-IsPart :
    (origin : Text) (ts : List Text)
    → (any (text_eq origin) (not_empty (map trim ts)) ≡ true) ↔ ((origin ≢ []) × IsPart origin ts)
unfolding not_empty
any_kept-IsPart origin [] = (λ e. absurd cc, λ h. absurd h.1)
any_kept-IsPart origin (t ∷ ts) =
    any_kept-cons origin (trim t) (map trim ts) (IsPart origin ts) (any_kept-IsPart origin ts)

first-any :
    (allowed : List Text) (origin : Text)
    → first_of allowed ≡ some origin
    → any (text_eq origin) allowed ≡ true
first-any [] origin e = cc
first-any (t ∷ ts) origin e =
    let same : t ≡ origin = ground arith in rw (same, text_eq_refl origin) refl

cors_origin-any :
    (allowed : List Text) (origin : Text)
    → (cors_origin allowed origin ≡ some origin) ↔ (any (text_eq origin) allowed ≡ true)
unfolding cors_origin
cors_origin-any allowed origin = elim (Bool-cases (any (text_eq origin) allowed)) [
  | inl h ↦ (λ e. h, λ e. rw h refl)
  | inr h ↦ (λ e. first-any allowed origin (rw h at e), λ e. absurd cc)
]

-- A setting that is given is made of texts that hold no comma, with a comma between each two, and a
-- request's own origin is allowed exactly if it is not empty and one of these texts, less the white
-- space around it.
pub cors_origin-IsPart :
    (setting origin : Text)
    → (parts : List Text) × AreParts setting parts
      × ((cors_origin (allowed_origins (some setting)) origin ≡ some origin)
          ↔ ((origin ≢ []) × IsPart origin parts))
unfolding allowed_origins
cors_origin-IsPart setting origin =
    let asked = cors_origin-any (allowed_origins (some setting)) origin in
    let kept = any_kept-IsPart origin (split_commas setting) in
    (
      split_commas setting,
      split_commas-AreParts setting,
      (λ e. kept.0 (asked.0 e), λ h. asked.1 (kept.1 h)),
    )
