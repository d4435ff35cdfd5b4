-- ===== src/Database/Preserved.antt =====
-- A delete and a new status, of supabase/migrations/20260101000200_api_functions.sql, keep the tables
-- consistent, and the rows of other users as they are.
use mathlib.Core.Path.{subst}
use rebalance_webull.Prelude.{
  ℕ, ◌≡◌, inl, inr, refl, sym, ◌∙◌, true, false, ◌&&◌, List, [], ◌∷◌, All, Text, any, arith,
  Bool-cases,
}
use rebalance_webull.Engine.Models.{EngineStatus}
use rebalance_webull.Api.Effects.{Procedure, create_bot, update_bot, delete_bot, set_bot_status}
use rebalance_webull.Database.Rows.{
  Postgres, BotRecord, TargetRecord, Tables, bot_checks, is_bot, targets_of, is_balanced,
}
use rebalance_webull.Database.Procedures.{
  Executed, executed, when_owned, change, with_status, has_none, is_running_status, status_set,
  deleted,
}
use rebalance_webull.Database.Inversion.{
  executed-injective, undone-executed, bind-executed, change-Changed,
}
use rebalance_webull.Database.Owners.{
  IsUnique-targets_but, others_bots, others_targets, text_eq_of, others_targets-targets_but,
}
use rebalance_webull.Database.Consistent.{Owns-of_any, IsSound, IsKept, IsConsistent, AreOf-of_Owns}
use rebalance_webull.Database.Changes.{
  Changed-is_bot, Changed-Keyed, Changed-others, Changed-IsSound,
}
use rebalance_webull.Database.Deletes.{
  bots_but-others, bots_but-Keyed, bots_but-kept, bots_but-IsSound,
}

-- The tables before and after a user's write.
pub record Preserves {N : Type 0} (pg : Postgres N) (user : Text) (db after : Tables) : Type 0 where
  pub consistent : IsConsistent pg after
  pub others_bots_kept : others_bots user after.bots ≡ others_bots user db.bots
  pub others_targets_kept : others_targets user after.targets ≡ others_targets user db.targets

-- The user that a procedure is called for.
abbrev pub writer_of : {N : Type 0} → Procedure N → Text
writer_of (create_bot user bot ts) = user
writer_of (update_bot user id p ts) = user
writer_of (delete_bot user id) = user
writer_of (set_bot_status user id status) = user

pub when_owned-executed :
    {A : Type 0} (user id : Text) (bots : List BotRecord) (next : Executed A) (a : A)
    → when_owned user id bots next ≡ executed a
    → (any (is_bot user id) bots ≡ true) × (next ≡ executed a)
unfolding when_owned
when_owned-executed user id bots next a e = elim (Bool-cases (any (is_bot user id) bots)) [
  | inl owned ↦ (owned, rw owned at e)
  | inr other ↦ absurd (undone-executed (rw other at e))
]

module _ {N : Type 0} (pg : Postgres N) where
  pub deleted-Preserves :
      (user id : Text) (db after : Tables)
      → IsConsistent pg db
      → deleted user id db ≡ executed after
      → Preserves pg user db after
  unfolding deleted
  deleted-Preserves user id db after c e =
      let a = when_owned-executed user id db.bots _ after e in
      let owns = Owns-of_any user id db.bots c.keyed a.0 in
      subst (Preserves pg user db) (executed-injective a.1) (record {
        consistent = record {
          sound = bots_but-IsSound user id pg db.targets db.bots owns c.sound;
          keyed = bots_but-Keyed user id db.bots c.keyed;
          kept = bots_but-kept user id pg db.bots db.targets c.kept;
          unique = IsUnique-targets_but id db.targets c.unique;
        };
        others_bots_kept = bots_but-others user id db.bots;
        others_targets_kept =
            others_targets-targets_but user id db.targets
              (AreOf-of_Owns pg user id db.bots db.targets owns c.kept);
      })

  pub All-IsKept :
      (bs cs : List BotRecord) (ts : List TargetRecord)
      → ((u i : Text) → any (is_bot u i) bs ≡ true → any (is_bot u i) cs ≡ true)
      → All (IsKept pg bs) ts
      → All (IsKept pg cs) ts
  All-IsKept bs cs [] k h = tt
  All-IsKept bs cs (t ∷ ts) k h = ((h.0.0, k t.user_id t.bot_id h.0.1), All-IsKept bs cs ts k h.1)

  -- What a status that is set does to a row.
  abbrev SetsStatus : EngineStatus → BotRecord → BotRecord → Type 0
  SetsStatus status b c = (bot_checks pg c ≡ bot_checks pg b) × (c.status ≡ status)

  SetsStatus-IsSound :
      (user id : Text) (status : EngineStatus) (ts : List TargetRecord)
      → (is_running_status status && has_none (targets_of id ts)) ≡ false
      → (b c : BotRecord) → is_bot user id b ≡ true
      → c.id ≡ b.id
      → SetsStatus status b c
      → IsSound pg b ts
      → IsSound pg c ts
  SetsStatus-IsSound user id status ts good b c here i p s = (
    p.0 ∙ s.0,
    subst (λ x. is_balanced (targets_of x ts) ≡ true) (sym i) s.1,
    λ running.
        let same : id ≡ c.id = text_eq_of id b.id (ground (arith, here)) ∙ sym i in
        let started : is_running_status status ≡ true =
          subst (λ x. is_running_status x ≡ true) p.1 running in
        let stocked : has_none (targets_of id ts) ≡ false = ground (arith, good, started) in
        subst (λ x. has_none (targets_of x ts) ≡ false) same stocked,
  )

  pub status_set-Preserves :
      (now : ℕ) (user id : Text) (status : EngineStatus) (db after : Tables)
      → IsConsistent pg db
      → status_set now user id status db ≡ executed after
      → Preserves pg user db after
  unfolding status_set bot_checks
  status_set-Preserves now user id status db after c e =
      let a = when_owned-executed user id db.bots _ after e in
      let owns = Owns-of_any user id db.bots c.keyed a.0 in
      elim (Bool-cases (is_running_status status && has_none (targets_of id db.targets))) [
        | inl bad ↦ absurd (undone-executed (rw bad at a.1))
        | inr good ↦
            let b =
              bind-executed (change user id (with_status now status) db.bots) _ after
                (rw good at a.1) in
            let changed =
              change-Changed user id (with_status now status) (SetsStatus status)
                (λ x y g.
                  subst (λ z. (z.id ≡ x.id) × (z.user_id ≡ x.user_id) × SetsStatus status x z)
                    (executed-injective g) (refl, refl, (refl, refl)))
                db.bots b.value b.given in
            subst (Preserves pg user db) (executed-injective b.after) (record {
              consistent = record {
                sound =
                    Changed-IsSound user id (SetsStatus status) pg (λ x. IsSound pg x db.targets)
                      db.targets db.targets (λ x h. h)
                      (SetsStatus-IsSound user id status db.targets good) (λ x other. refl) db.bots
                      b.value changed owns c.sound;
                keyed = Changed-Keyed user id (SetsStatus status) db.bots b.value changed c.keyed;
                kept =
                    All-IsKept db.bots b.value db.targets
                      (λ u i h.
                        Changed-is_bot user id (SetsStatus status) u i db.bots b.value changed ∙ h)
                      c.kept;
                unique = c.unique;
              };
              others_bots_kept = Changed-others user id (SetsStatus status) db.bots b.value changed;
              others_targets_kept = refl;
            })
      ]
