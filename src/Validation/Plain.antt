-- ===== src/Validation/Plain.antt =====
-- Texts of capital letters, digits and punctuation stand trimming and upper-casing unchanged, for
-- the patterns of validation.ts.
use rebalance_webull.Prelude.{
  ℕ, ◌≡◌, refl, ◌∙◌, Bool, true, false, ◌&&◌, not, [], ◌∷◌, ◌++◌, Text, trim, is_space, ascii_upper,
  IsAscii, is_lower, all, leb, ltb, map, reverse, arith,
}
use rebalance_webull.Prelude.Trim.{StartsClean, trim_of_IsTrimmed}
use rebalance_webull.Js.{Runtime}
use mathlib.Core.List.{reverse-append}

-- A code unit that is no white space, no small letter and ASCII.
abbrev pub is_plain : ℕ → Bool
is_plain c = leb 33 c && ltb c 128 && not (is_lower c)

all-append : (p : ℕ → Bool) (s t : Text) → all p s ≡ true → all p t ≡ true → all p (s ++ t) ≡ true
all-append p [] t h k = k
all-append p (c ∷ s) t h k = ground (arith, all-append p s t)

all-reverse : (p : ℕ → Bool) (s : Text) → all p s ≡ true → all p (reverse s) ≡ true
all-reverse p [] h = refl
all-reverse p (c ∷ s) h =
    rw (reverse-append (c ∷ []) s)
      (all-append p (reverse s) (c ∷ []) (all-reverse p s (ground arith)) (ground arith))

is_space_of_plain : (c : ℕ) → is_plain c ≡ true → is_space c ≡ false
unfolding is_space
is_space_of_plain c h = ground arith

StartsClean-of_plain : (s : Text) → all is_plain s ≡ true → StartsClean s
StartsClean-of_plain [] h = tt
StartsClean-of_plain (c ∷ s) h = is_space_of_plain c (ground arith)

pub trim_of_plain : (s : Text) → all is_plain s ≡ true → trim s ≡ s
trim_of_plain s h =
    trim_of_IsTrimmed s
      (StartsClean-of_plain s h, StartsClean-of_plain (reverse s) (all-reverse is_plain s h))

IsAscii-of_plain : (s : Text) → all is_plain s ≡ true → IsAscii s
IsAscii-of_plain [] h = tt
IsAscii-of_plain (c ∷ s) h = (ground arith, IsAscii-of_plain s (ground arith))

map-ascii_upper_of_plain : (s : Text) → all is_plain s ≡ true → map ascii_upper s ≡ s
map-ascii_upper_of_plain [] h = refl
map-ascii_upper_of_plain (c ∷ s) h =
    let upper : ascii_upper c ≡ c = ground arith in
    let rest = map-ascii_upper_of_plain s (ground arith) in cc

pub upper_of_plain :
    {N : Type 0} (r : Runtime N) (s : Text) → all is_plain s ≡ true → r.to_upper (trim s) ≡ s
upper_of_plain r s h =
    rw (trim_of_plain s h)
      (r.to_upper_of_IsAscii s (IsAscii-of_plain s h) ∙ map-ascii_upper_of_plain s h)

pub all-weaken :
    (p q : ℕ → Bool) (s : Text)
    → ((c : ℕ) → p c ≡ true → q c ≡ true)
    → all p s ≡ true
    → all q s ≡ true
all-weaken p q [] weaker h = refl
all-weaken p q (c ∷ s) weaker h = ground (arith, weaker c, all-weaken p q s weaker)
