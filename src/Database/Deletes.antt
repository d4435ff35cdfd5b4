-- ===== src/Database/Deletes.antt =====
-- What the delete of a bot with its targets leaves, supabase/migrations.
use mathlib.Core.Path.{subst}
use rebalance_webull.Prelude.{
  ◌≡◌, inl, inr, refl, ◌∙◌, true, false, List, [], ◌∷◌, All, Text, text_eq, text_eq-sym, any, arith,
  Bool-cases,
}
use rebalance_webull.Database.Rows.{
  Postgres, BotRecord, TargetRecord, is_bot, has_id, of_bot, targets_but,
}
use rebalance_webull.Database.Procedures.{bots_but}
use rebalance_webull.Database.Owners.{others_bots, text_eq_of, targets_of-targets_but}
use rebalance_webull.Database.Consistent.{
  Keyed, Owns, IsSound, IsKept, IsSound-elsewhere, not_owned,
}

module _ (user id : Text) where
  pub bots_but-others :
      (bs : List BotRecord) → others_bots user (bots_but user id bs) ≡ others_bots user bs
  unfolding bots_but
  bots_but-others [] = refl
  bots_but-others (b ∷ bs) = elim (Bool-cases (is_bot user id b)) [
    | inl here ↦
        let own : text_eq user b.user_id ≡ true = ground (arith, here) in
        rw (here, own) (bots_but-others bs)
    | inr other ↦ rw (other, bots_but-others bs) refl
  ]

  bots_but-has_id :
      (x : Text) (bs : List BotRecord)
      → any (has_id x) bs ≡ false
      → any (has_id x) (bots_but user id bs) ≡ false
  unfolding bots_but
  bots_but-has_id x [] h = h
  bots_but-has_id x (b ∷ bs) h = ground (arith, h, bots_but-has_id x bs)

  pub bots_but-Keyed : (bs : List BotRecord) → Keyed bs → Keyed (bots_but user id bs)
  unfolding bots_but
  bots_but-Keyed [] k = tt
  bots_but-Keyed (b ∷ bs) k = elim (Bool-cases (is_bot user id b)) [
    | inl here ↦ rw here (bots_but-Keyed bs k.1)
    | inr other ↦ rw other ((bots_but-has_id b.id bs k.0, bots_but-Keyed bs k.1))
  ]

  pub bots_but-is_bot :
      (owner x : Text) (bs : List BotRecord)
      → text_eq id x ≡ false
      → any (is_bot owner x) bs ≡ true
      → any (is_bot owner x) (bots_but user id bs) ≡ true
  unfolding bots_but
  bots_but-is_bot owner x [] e h = h
  bots_but-is_bot owner x (b ∷ bs) e h = elim (Bool-cases (is_bot user id b)) [
    | inl here ↦
        let same : id ≡ b.id = text_eq_of id b.id (ground (arith, here)) in
        let elsewhere : text_eq x b.id ≡ false =
          subst (λ y. text_eq x y ≡ false) same (text_eq-sym x id ∙ e) in
        rw here (bots_but-is_bot owner x bs e (ground (arith, h, elsewhere)))
    | inr other ↦ rw other (elim (Bool-cases (is_bot owner x b)) [
      | inl there ↦ rw there refl
      | inr later ↦ rw later (bots_but-is_bot owner x bs e (rw later at h))
    ])
  ]

  module _ {N : Type 0} (pg : Postgres N) where
    pub bots_but-kept :
        (bs : List BotRecord) (ts : List TargetRecord)
        → All (IsKept pg bs) ts
        → All (IsKept pg (bots_but user id bs)) (targets_but id ts)
    unfolding targets_but
    bots_but-kept bs [] h = tt
    bots_but-kept bs (t ∷ ts) h = elim (Bool-cases (of_bot id t)) [
      | inl same ↦ rw same (bots_but-kept bs ts h.1)
      | inr other ↦
          rw other
            (((h.0.0, bots_but-is_bot t.user_id t.bot_id bs other h.0.1), bots_but-kept bs ts h.1))
    ]

    pub bots_but-IsSound :
        (ts : List TargetRecord) (bs : List BotRecord)
        → Owns user id bs
        → All (λ b. IsSound pg b ts) bs
        → All (λ b. IsSound pg b (targets_but id ts)) (bots_but user id bs)
    unfolding bots_but
    bots_but-IsSound ts [] o h = tt
    bots_but-IsSound ts (b ∷ bs) o h = elim (Bool-cases (is_bot user id b)) [
      | inl here ↦ rw here (bots_but-IsSound ts bs o.1 h.1)
      | inr other ↦
          let elsewhere = targets_of-targets_but id b.id ts (not_owned user id b o.0 other) in
          rw other (
            (
              IsSound-elsewhere pg b ts (targets_but id ts) elsewhere h.0,
              bots_but-IsSound ts bs o.1 h.1,
            ))
    ]
