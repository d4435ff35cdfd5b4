-- ===== src/Database/Reschedules.antt =====
-- The rows of public.bots after the engine set times of next runs, as `touch_bot` of
-- api/src/engine/repo.py does.
use mathlib.Core.Path.{subst}
use rebalance_webull.Prelude.{◌≡◌, refl, ap, sym, ◌∙◌, false, List, [], ◌∷◌, All, Text, any}
use rebalance_webull.Database.Rows.{
  Postgres, BotRecord, TargetRecord, Tables, bot_checks, is_bot, has_id,
}
use rebalance_webull.Database.Owners.{IsUnique, others_bots, others_targets}
use rebalance_webull.Database.Consistent.{Keyed, IsSound, IsKept, IsConsistent}
use rebalance_webull.Database.Preserved.{Preserves, All-IsKept}

-- Each row is as it was, but for the time of its next run.
abbrev pub Rescheduled : List BotRecord → List BotRecord → Type 0
Rescheduled [] [] = Unit
Rescheduled [] (c ∷ cs) = ⊥
Rescheduled (b ∷ bs) [] = ⊥
Rescheduled (b ∷ bs) (c ∷ cs) = (c ≡ record b { next_run_at = c.next_run_at }) × Rescheduled bs cs

Rescheduled-has_id :
    (x : Text) (bs cs : List BotRecord) → Rescheduled bs cs → any (has_id x) cs ≡ any (has_id x) bs
Rescheduled-has_id x [] [] h = refl
Rescheduled-has_id x [] (c ∷ cs) h = absurd h
Rescheduled-has_id x (b ∷ bs) [] h = absurd h
Rescheduled-has_id x (b ∷ bs) (c ∷ cs) h =
    let same : c.id ≡ b.id = ap (λ (r : BotRecord). r.id) h.0 in
    rw (same, Rescheduled-has_id x bs cs h.1) refl

Rescheduled-is_bot :
    (user x : Text) (bs cs : List BotRecord)
    → Rescheduled bs cs
    → any (is_bot user x) cs ≡ any (is_bot user x) bs
Rescheduled-is_bot user x [] [] h = refl
Rescheduled-is_bot user x [] (c ∷ cs) h = absurd h
Rescheduled-is_bot user x (b ∷ bs) [] h = absurd h
Rescheduled-is_bot user x (b ∷ bs) (c ∷ cs) h =
    let same : c.id ≡ b.id = ap (λ (r : BotRecord). r.id) h.0 in
    let owner : c.user_id ≡ b.user_id = ap (λ (r : BotRecord). r.user_id) h.0 in
    rw (same, owner, Rescheduled-is_bot user x bs cs h.1) refl

Rescheduled-Keyed : (bs cs : List BotRecord) → Rescheduled bs cs → Keyed bs → Keyed cs
Rescheduled-Keyed [] [] h k = tt
Rescheduled-Keyed [] (c ∷ cs) h k = absurd h
Rescheduled-Keyed (b ∷ bs) [] h k = absurd h
Rescheduled-Keyed (b ∷ bs) (c ∷ cs) h k =
    let same : c.id ≡ b.id = ap (λ (r : BotRecord). r.id) h.0 in
    let none_later : any (has_id c.id) cs ≡ false =
      rw (same, Rescheduled-has_id b.id bs cs h.1) k.0 in
    (none_later, Rescheduled-Keyed bs cs h.1 k.1)

Rescheduled-others :
    (user : Text) (bs cs : List BotRecord)
    → Rescheduled bs cs
    → others_bots user cs ≡ others_bots user bs
Rescheduled-others user [] [] h = refl
Rescheduled-others user [] (c ∷ cs) h = absurd h
Rescheduled-others user (b ∷ bs) [] h = absurd h
Rescheduled-others user (b ∷ bs) (c ∷ cs) h =
    subst (λ x. others_bots user (x ∷ cs) ≡ others_bots user (b ∷ bs)) (sym h.0)
      (rw (Rescheduled-others user bs cs h.1) refl)

module _ {N : Type 0} (pg : Postgres N) where
  Rescheduled-IsSound :
      (ts : List TargetRecord) (bs cs : List BotRecord)
      → Rescheduled bs cs
      → All (λ b. IsSound pg b ts) bs
      → All (λ c. IsSound pg c ts) cs
  unfolding bot_checks
  Rescheduled-IsSound ts [] [] h s = tt
  Rescheduled-IsSound ts [] (c ∷ cs) h s = absurd h
  Rescheduled-IsSound ts (b ∷ bs) [] h s = absurd h
  Rescheduled-IsSound ts (b ∷ bs) (c ∷ cs) h s =
      (subst (λ x. IsSound pg x ts) (sym h.0) s.0, Rescheduled-IsSound ts bs cs h.1 s.1)

  -- Tables that only differ in times of next runs are as consistent, and have the same other rows.
  pub Rescheduled-Preserves :
      (user : Text) (db after : Tables)
      → IsConsistent pg db
      → Rescheduled db.bots after.bots
      → after.targets ≡ db.targets
      → Preserves pg user db after
  Rescheduled-Preserves user db after c h e = record {
    consistent = record {
      sound =
          subst (λ ts. All (λ b. IsSound pg b ts) after.bots) (sym e)
            (Rescheduled-IsSound db.targets db.bots after.bots h c.sound);
      keyed = Rescheduled-Keyed db.bots after.bots h c.keyed;
      kept = subst (All (IsKept pg after.bots)) (sym e) (
          All-IsKept pg db.bots after.bots db.targets
            (λ u i k. Rescheduled-is_bot u i db.bots after.bots h ∙ k) c.kept);
      unique = subst IsUnique (sym e) c.unique;
    };
    others_bots_kept = Rescheduled-others user db.bots after.bots h;
    others_targets_kept = ap (others_targets user) e;
  }
