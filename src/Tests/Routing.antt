-- ===== src/Tests/Routing.antt =====
-- A router that compares the parts of a path between slashes, after the base path "/api".
use rebalance_webull.Prelude.{
  ℕ, ◌≡◌, ◌≢◌, Option, none, some, List, [], ◌∷◌, ◌++◌, Text, text_eq, codes, ◌==◌, Bool-cases, inl,
  inr, if◌then◌else◌,
}
use rebalance_webull.Api.App.{Segment, lit, id_param, wildcard, Pattern, Router}

-- A code unit before the parts that follow it.
abbrev before : ℕ → List Text → List Text
before c [] = (c ∷ []) ∷ []
before c (part ∷ parts) = (c ∷ part) ∷ parts

abbrev parts_of : Text → List Text
parts_of [] = [] ∷ []
parts_of (c ∷ cs) = if c == b'/' then [] ∷ parts_of cs else before c (parts_of cs)

-- Whether the pattern matches the parts, with the value of `:id`.
abbrev walk : Text → Pattern → List Text → Option Text
walk id [] [] = some id
walk id [] (part ∷ parts) = none
walk id (wildcard ∷ p) parts = some id
walk id (_ ∷ p) [] = none
walk id (lit s ∷ p) (part ∷ parts) =
    let rest = walk id p parts in if text_eq (codes s) part then rest else none
walk id (id_param ∷ p) (part ∷ parts) = walk part p parts

pub walk-wildcard :
    (p : Pattern) (s : Segment) (q : Pattern) (id : Text) (parts : List Text) {found : Text}
    → walk id (p ++ s ∷ q) parts ≡ some found
    → walk id (p ++ wildcard ∷ []) parts ≢ none
walk-wildcard [] s q id parts e k = cc
walk-wildcard (wildcard ∷ p) s q id parts e k = cc
walk-wildcard (lit t ∷ p) s q id [] e k = cc
walk-wildcard (lit t ∷ p) s q id (part ∷ parts) e k = elim (Bool-cases (text_eq (codes t) part)) [
  | inl same ↦ walk-wildcard p s q id parts (rw same at e) (rw same at k)
  | inr other ↦ cc
]
walk-wildcard (id_param ∷ p) s q id [] e k = cc
walk-wildcard (id_param ∷ p) s q id (part ∷ parts) e k = walk-wildcard p s q part parts e k

-- The parts below "/api".
abbrev below_base : List Text → List Text
below_base (empty ∷ base ∷ parts) = parts
below_base parts = parts

abbrev pub sample_router : Router
sample_router = record {
  matches = λ p path. walk [] p (below_base (parts_of path));
  wildcard_covers = λ p s q path id e. walk-wildcard p s q [] (below_base (parts_of path)) e;
}
