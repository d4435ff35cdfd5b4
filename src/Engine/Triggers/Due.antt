-- ===== src/Engine/Triggers/Due.antt =====
-- When `evaluate_trigger` of api/src/engine/triggers.py runs a bot, by the drifts of its plan.
use rebalance_webull.Prelude.{
  ◌⊎◌, ◌↔◌, ℕ, ◌+◌, ◌≤◌, ◌≡◌, inl, inr, refl, Bool, true, false, ◌&&◌, ◌||◌, Option, none, some,
  List, [], ◌∷◌, arith, leb, Bool-cases,
}
use rebalance_webull.Engine.Models.{
  EngineTrigger, schedule, drift, schedule_or_drift, EngineStatus, draft, running, paused, stopped,
  Drift,
}
use rebalance_webull.Engine.Planner.Inputs.{distance, largest_drift}
use rebalance_webull.Engine.Triggers.{
  by_schedule, by_drift, reached, at_least, by_type, evaluate_trigger,
}

-- A weight is off its target by so much at least, above or below it.
abbrev pub IsOffBy : ℕ → Drift → Type 0
IsOffBy t d =
    (d.target_weight_bps + t ≤ d.current_weight_bps)
    ⊎ (d.current_weight_bps + t ≤ d.target_weight_bps)

abbrev pub SomeOffBy : ℕ → List Drift → Type 0
SomeOffBy t [] = ⊥
SomeOffBy t (d ∷ ds) = IsOffBy t d ⊎ SomeOffBy t ds

-- A threshold is set, and a holding is off by it.
abbrev pub HasDrifted : Option ℕ → List Drift → Type 0
HasDrifted none ds = ⊥
HasDrifted (some t) ds = SomeOffBy t ds

-- The bot was never scheduled, or the time of its next run is not after now.
abbrev pub HasCome : ℕ → Option ℕ → Type 0
HasCome now none = Unit
HasCome now (some at) = at ≤ now

-- A threshold of no drift at all is none.
abbrev pub IsThreshold : Option ℕ → Type 0
IsThreshold none = Unit
IsThreshold (some t) = 1 ≤ t

-- When a bot is due: only a running one ever is.
abbrev pub IsDue : EngineStatus → EngineTrigger → ℕ → Option ℕ → Option ℕ → List Drift → Type 0
IsDue running schedule now next_run_at threshold ds = HasCome now next_run_at
IsDue running drift now next_run_at threshold ds = HasDrifted threshold ds
IsDue running schedule_or_drift now next_run_at threshold ds =
    HasCome now next_run_at ⊎ HasDrifted threshold ds
IsDue draft trigger now next_run_at threshold ds = ⊥
IsDue paused trigger now next_run_at threshold ds = ⊥
IsDue stopped trigger now next_run_at threshold ds = ⊥

reached-HasCome :
    (now : ℕ) (next_run_at : Option ℕ) → (reached now next_run_at ≡ true) ↔ HasCome now next_run_at
reached-HasCome now none = (λ e. tt, λ h. refl)
reached-HasCome now (some at) = (λ e. ground arith, λ h. ground arith)

leb-SomeOffBy :
    (t : ℕ) (ds : List Drift) → 1 ≤ t → (leb t (largest_drift ds) ≡ true) ↔ SomeOffBy t ds
unfolding largest_drift
leb-SomeOffBy t [] h = (λ e. absurd (ground arith), λ never. absurd never)
leb-SomeOffBy t (d ∷ ds) h =
    let rest = leb-SomeOffBy t ds h in
    (
      λ e. elim (Bool-cases (leb t (distance d.current_weight_bps d.target_weight_bps))) [
        | inl off ↦ inl (ground arith)
        | inr near ↦ inr (rest.0 (ground arith))
      ],
      elim [
        | inl (inl above) ↦ ground arith
        | inl (inr below) ↦ ground arith
        | inr later ↦ let there : leb t (largest_drift ds) ≡ true = rest.1 later in ground arith
      ],
    )

at_least-HasDrifted :
    (threshold : Option ℕ) (ds : List Drift)
    → IsThreshold threshold
    → (at_least (some (largest_drift ds)) threshold ≡ true) ↔ HasDrifted threshold ds
at_least-HasDrifted none ds h = (λ e. absurd cc, λ never. absurd never)
at_least-HasDrifted (some t) ds h = leb-SomeOffBy t ds h

either-true : (a b : Bool) → ((a || b) ≡ true) ↔ ((a ≡ true) ⊎ (b ≡ true))
either-true true b = (λ e. inl refl, λ h. refl)
either-true false b = (λ e. inr e, elim [ inl never ↦ absurd cc | inr e ↦ e ])

by_type-should_run :
    (trigger : EngineTrigger) (come breached : Bool) (next_run_at drifted threshold : Option ℕ)
    → (by_type trigger
        (by_schedule trigger && come)
        (by_drift trigger && breached)
        next_run_at
        drifted
        threshold).should_run
      ≡ ((by_schedule trigger && come) || (by_drift trigger && breached))
by_type-should_run schedule true breached next_run_at drifted threshold = refl
by_type-should_run schedule false breached next_run_at drifted threshold = refl
by_type-should_run drift come true next_run_at drifted threshold = refl
by_type-should_run drift come false next_run_at drifted threshold = refl
by_type-should_run schedule_or_drift true true next_run_at drifted threshold = refl
by_type-should_run schedule_or_drift true false next_run_at drifted threshold = refl
by_type-should_run schedule_or_drift false true next_run_at drifted threshold = refl
by_type-should_run schedule_or_drift false false next_run_at drifted threshold = refl

-- `evaluate_trigger`, given the largest drift of a plan, answers that a bot is to be run exactly if
-- it is running and due by its trigger. By its schedule it is due if it has no time of a next run or that time is
-- not after now; by its drift, if it has a threshold, which is not zero, and a holding of its plan is
-- off its target by that much at least, above or below; by the trigger of both, if by one of them.
pub evaluate_trigger-IsDue :
    (status : EngineStatus) (trigger : EngineTrigger) (now : ℕ) (next_run_at threshold : Option ℕ)
    (ds : List Drift)
    → IsThreshold threshold
    → ((evaluate_trigger status trigger now next_run_at
          (some (largest_drift ds))
          threshold).should_run
        ≡ true)
      ↔ IsDue status trigger now next_run_at threshold ds
unfolding evaluate_trigger
evaluate_trigger-IsDue running trigger now next_run_at threshold ds h =
    rw
      (by_type-should_run trigger (reached now next_run_at)
        (at_least (some (largest_drift ds)) threshold) next_run_at (some (largest_drift ds))
        threshold)
      (due_by trigger)
  where
    due_by :
        (trigger : EngineTrigger)
        → (((by_schedule trigger && reached now next_run_at)
              || (by_drift trigger && at_least (some (largest_drift ds)) threshold))
            ≡ true)
          ↔ IsDue running trigger now next_run_at threshold ds
    due_by schedule =
        let come = reached-HasCome now next_run_at in
        (
          λ e. elim ((either-true (reached now next_run_at) false).0 e) [
            | inl e ↦ come.0 e
            | inr never ↦ absurd cc
          ],
          λ due. (either-true (reached now next_run_at) false).1 (inl (come.1 due)),
        )
    due_by drift = at_least-HasDrifted threshold ds h
    due_by schedule_or_drift =
        let come = reached-HasCome now next_run_at in
        let off = at_least-HasDrifted threshold ds h in
        let both =
          either-true (reached now next_run_at) (at_least (some (largest_drift ds)) threshold) in
        (
          λ e. elim (both.0 e) [ inl e ↦ inl (come.0 e) | inr e ↦ inr (off.0 e) ],
          elim [ inl due ↦ both.1 (inl (come.1 due)) | inr due ↦ both.1 (inr (off.1 due)) ],
        )
evaluate_trigger-IsDue draft trigger now next_run_at threshold ds h =
    (λ e. absurd cc, λ never. absurd never)
evaluate_trigger-IsDue paused trigger now next_run_at threshold ds h =
    (λ e. absurd cc, λ never. absurd never)
evaluate_trigger-IsDue stopped trigger now next_run_at threshold ds h =
    (λ e. absurd cc, λ never. absurd never)
