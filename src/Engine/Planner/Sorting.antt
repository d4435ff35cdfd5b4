-- ===== src/Engine/Planner/Sorting.antt =====
-- The order of the buys of api/src/engine/rebalance.py.
use native.Mathlib.Omega.{arith}
use mathlib.Core.List.{Perm, Pairwise, Pairwise-singleton, Mem, forall_mem-cons}
use mathlib.Core.List.Perm
use native.Mathlib.Bridge.{le_prop}
use rebalance_webull.Prelude.{◌+◌, ◌≤◌, inl, inr, List, [], ◌∷◌, Bool-cases}
use rebalance_webull.Engine.Models.{Drift}
use rebalance_webull.Engine.Planner.Trades.{
  drift_less, insert_drift, sort_drifts, below_target, buy_candidates,
}

-- A drift is at most another's: the difference of its two weights is.
abbrev pub Precedes : Drift → Drift → Type 0
Precedes d e =
    d.current_weight_bps + e.target_weight_bps ≤ e.current_weight_bps + d.target_weight_bps

abbrev PrecedesAll : Drift → List Drift → Type 0
PrecedesAll d ds = (e : Drift) → Mem e ds → Precedes d e

insert_drift-Perm : (d : Drift) (ds : List Drift) → Perm (insert_drift d ds) (d ∷ ds)
unfolding insert_drift
insert_drift-Perm d [] = Perm.rfl
insert_drift-Perm d (e ∷ es) = elim (Bool-cases (drift_less e d)) [
  | inl h ↦ rw h (Perm.trans (Perm.cons e (insert_drift-Perm d es)) (Perm.swap d e es))
  | inr h ↦ rw h Perm.rfl
]

pub sort_drifts-Perm : (ds : List Drift) → Perm (sort_drifts ds) ds
unfolding sort_drifts
sort_drifts-Perm [] = Perm.rfl
sort_drifts-Perm (d ∷ ds) =
    Perm.trans (insert_drift-Perm d (sort_drifts ds)) (Perm.cons d (sort_drifts-Perm ds))

PrecedesAll-cons :
    (d e : Drift) (es : List Drift) → Precedes d e → PrecedesAll d es → PrecedesAll d (e ∷ es)
PrecedesAll-cons d e es p h = (forall_mem-cons (λ x. le_prop)).1 (p, h)

PrecedesAll-perm :
    (d : Drift) (ds es : List Drift) → Perm ds es → PrecedesAll d es → PrecedesAll d ds
PrecedesAll-perm d ds es p h e m = h e ((Perm.mem_iff p).0 m)

insert_drift-IsAscending :
    (d : Drift) (ds : List Drift) → Pairwise Precedes ds → Pairwise Precedes (insert_drift d ds)
unfolding insert_drift
insert_drift-IsAscending d [] h = Pairwise-singleton _ d
insert_drift-IsAscending d (e ∷ es) (Pairwise.cons below h) = elim (Bool-cases (drift_less e d)) [
  | inl i ↦ rw i (
      Pairwise.cons
        (PrecedesAll-perm e (insert_drift d es) (d ∷ es) (insert_drift-Perm d es)
          (PrecedesAll-cons e d es (ground (arith, i)) below))
        (insert_drift-IsAscending d es h))
  | inr i ↦
      let first : Precedes d e = ground (arith, i) in
      rw i (
        Pairwise.cons (PrecedesAll-cons d e es first (λ x m. omega (arith, first, below x m)))
          (Pairwise.cons below h))
]

sort_drifts-IsAscending : (ds : List Drift) → Pairwise Precedes (sort_drifts ds)
unfolding sort_drifts
sort_drifts-IsAscending [] = Pairwise.nil
sort_drifts-IsAscending (d ∷ ds) =
    insert_drift-IsAscending d (sort_drifts ds) (sort_drifts-IsAscending ds)

-- The buys are considered in the order of their drifts, the most underweight first, and they are
-- the drifts below their target, each as often as it was.
pub buy_candidates-IsAscending :
    (ds : List Drift)
    → Pairwise Precedes (buy_candidates ds) × Perm (buy_candidates ds) (below_target ds)
unfolding buy_candidates
buy_candidates-IsAscending ds =
    (sort_drifts-IsAscending (below_target ds), sort_drifts-Perm (below_target ds))
