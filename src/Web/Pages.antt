-- ===== src/Web/Pages.antt =====
-- The pages of web/app/(app): what each reads and what it shows.
--
-- A page is a tree of reads as the signed-in user, with any data that Supabase may give: the
-- object of `maybeSingle`, the list of another read, or none. Markup, links and styles are left out.
pub mod BotDetail
pub mod Lists
pub mod Shell
pub mod Reads
use rebalance_webull.Prelude.{
  Bool, true, false, Option, none, some, List, [], ◌∷◌, ◌++◌, String, Text, text_eq, codes,
  if◌then◌else◌,
}
use rebalance_webull.Js.{Runtime, Decimals, Json, null, str, get, to_number, ◌>>=◌}
use rebalance_webull.Api.Effects.{Query}
use rebalance_webull.Web.Controls.{truthy, template_text}
use rebalance_webull.Web.Format.{bps}
use rebalance_webull.Web.Connection.{Tone, status_tone}

pub data Page (N A : Type 0) : Type 0 where
  shown : A → Page N A
  -- `notFound()`, and an exception.
  not_found : Page N A
  broken : Page N A
  read_one : Query N → (Option (Json N) → Page N A) → Page N A
  read_many : Query N → (Option (List (Json N)) → Page N A) → Page N A

-- A view, or an exception on the way to it.
abbrev pub shown_or_broken : {N A : Type 0} → Option A → Page N A
shown_or_broken none = broken
shown_or_broken (some view) = shown view

-- `data ?? []`
abbrev pub or_empty : {A : Type 0} → Option (List A) → List A
or_empty none = []
or_empty (some xs) = xs

-- A function of each entry, of which one may throw.
abbrev pub each : {A B : Type 0} → (A → Option B) → List A → Option (List B)
each f [] = some []
each f (x ∷ xs) = f x >>= λ y. each f xs >>= λ ys. some (y ∷ ys)

-- A status with its colour.
pub record StatusBadge : Type 0 where
  pub tone : Tone
  pub text : Text

module _ {N : Type 0} ⦃r : Runtime N⦄ where
  -- `String(row.name)`
  unfoldable pub text_of : Json N → String → Option Text
  unfolding template_text
  text_of row name = template_text (get row name)

  unfoldable pub badge : Json N → Option StatusBadge
  unfolding text_of status_tone
  badge row =
      text_of row "status" >>= λ status. some (record { tone = status_tone status; text = status })

  abbrev pub number_of : Json N → String → Option N
  number_of row name = elim (get row name) [ none ↦ some r.nan | some v ↦ to_number v ]

  -- The text of a field between two others where it is truthy, and else none.
  unfoldable pub optional_text : Json N → String → Text → Text → Option Text
  unfolding text_of truthy
  optional_text row name before after =
      let text = text_of row name in
      if truthy (get row name) then (text >>= λ t. some (before ++ (t ++ after))) else some []

  -- The drift band of a bot, followed by `after`.
  unfoldable pub band_text : Decimals N r → Json N → Text → Option Text
  unfolding bps truthy
  band_text d bot after =
      let number = number_of bot "drift_threshold_bps" in
      if truthy (get bot "drift_threshold_bps")
      then (number >>= λ n. some (codes " · " ++ (bps d 1 (some n) ++ after)))
      else some []

  abbrev is_null : Option (Json N) → Bool
  is_null (some null) = true
  is_null _ = false

  -- Basis points, or `otherwise` for null.
  unfoldable pub bps_unless_null : Decimals N r → Json N → String → Text → Text → Option Text
  unfolding bps
  bps_unless_null d row name otherwise before =
      let number = number_of row name in
      if is_null (get row name)
      then some otherwise
      else number >>= λ n. some (before ++ bps d 2 (some n))
