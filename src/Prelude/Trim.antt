-- ===== src/Prelude/Trim.antt =====
-- Trimming leaves a text that neither begins nor ends with white space.
use mathlib.Core.Path.{◌≡◌, refl, ap, ◌∙◌, sym, subst}
use mathlib.Core.Bool.{false}
use mathlib.Core.Logic.{inl, inr}
use mathlib.Core.List.{[], ◌∷◌, ◌++◌, reverse, reverse-reverse, reverse-append}
use rebalance_webull.Prelude.Tests.{Bool-cases}
use rebalance_webull.Prelude.Strings.{Text, is_space, trim_start, trim}

-- The text is empty or its first code unit is no white space.
abbrev pub StartsClean : Text → Type 0
StartsClean [] = Unit
StartsClean (c ∷ s) = is_space c ≡ false

pub trim_start_of_StartsClean : (s : Text) → StartsClean s → trim_start s ≡ s
unfolding trim_start
trim_start_of_StartsClean [] h = refl
trim_start_of_StartsClean (c ∷ s) h = rw h

pub trim_start-StartsClean : (s : Text) → StartsClean (trim_start s)
unfolding trim_start
trim_start-StartsClean [] = tt
trim_start-StartsClean (c ∷ s) = elim (Bool-cases (is_space c)) [
  | inl h ↦ rw h (trim_start-StartsClean s)
  | inr h ↦ rw h h
]

-- Trimming removes a prefix.
trim_start_suffix : (s : Text) → (p : Text) × (s ≡ p ++ trim_start s)
unfolding trim_start
trim_start_suffix [] = ([], refl)
trim_start_suffix (c ∷ s) = elim (Bool-cases (is_space c)) [
  | inl h ↦ let (p, e) = trim_start_suffix s in (c ∷ p, rw h (ap (λ t. c ∷ t) e))
  | inr h ↦ ([], rw h)
]

StartsClean-append : (a b : Text) → StartsClean (a ++ b) → StartsClean a
StartsClean-append [] b h = tt
StartsClean-append (c ∷ a) b h = h

-- The kept part of a text that starts clean, once its end is trimmed, starts clean.
trim_end-StartsClean : (u : Text) → StartsClean u → StartsClean (reverse (trim_start (reverse u)))
trim_end-StartsClean u h =
    let (p, e) = trim_start_suffix (reverse u) in
    let back : u ≡ reverse (trim_start (reverse u)) ++ reverse p =
      sym (reverse-reverse u) ∙ ap reverse e ∙ reverse-append p (trim_start (reverse u)) in
    StartsClean-append (reverse (trim_start (reverse u))) (reverse p) (subst StartsClean back h)

-- A text that neither begins nor ends with white space.
abbrev pub IsTrimmed : Text → Type 0
IsTrimmed s = StartsClean s × StartsClean (reverse s)

pub trim-IsTrimmed : (s : Text) → IsTrimmed (trim s)
unfolding trim
trim-IsTrimmed s = (
  trim_end-StartsClean (trim_start s) (trim_start-StartsClean s),
  rw reverse-reverse (trim_start-StartsClean (reverse (trim_start s))),
)

pub trim_of_IsTrimmed : (s : Text) → IsTrimmed s → trim s ≡ s
unfolding trim
trim_of_IsTrimmed s (a, b) =
    rw (trim_start_of_StartsClean s a, trim_start_of_StartsClean (reverse s) b) (reverse-reverse s)
