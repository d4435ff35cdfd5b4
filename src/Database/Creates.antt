-- ===== src/Database/Creates.antt =====
-- A new bot, of supabase/migrations/20260101000200_api_functions.sql, keeps the tables consistent.
use mathlib.Core.Path.{subst}
use rebalance_webull.Prelude.{
  ◌≡◌, inl, inr, refl, ap, sym, ◌∙◌, true, false, List, [], ◌∷◌, All, Text, text_eq, text_eq_iff,
  any, arith, Bool-cases,
}
use rebalance_webull.Validation.Targets.{Target}
use rebalance_webull.Validation.Bot.{BotInput}
use rebalance_webull.Engine.Models.{EngineStatus, draft}
use rebalance_webull.Database.Rows.{
  Postgres, BotRecord, TargetRecord, Tables, bot_checks, is_bot, has_id, targets_of, is_balanced,
}
use rebalance_webull.Database.Procedures.{
  executed, ◌>>=◌, cast, cast_unless_null, is_taken, new_bot, insert_bot, write_targets, created,
  is_running_status,
}
use rebalance_webull.Database.Inversion.{executed-injective, undone-executed, bind-executed}
use rebalance_webull.Database.Owners.{write_targets-Written}
use rebalance_webull.Database.Consistent.{
  Owns-none, IsSound, IsKept, IsConsistent, AreOf-of_Owns, IsSound-elsewhere,
}
use rebalance_webull.Database.Preserved.{Preserves, All-IsKept}

module _ {N : Type 0} (pg : Postgres N) where
  insert_bot-executed :
      (bots : List BotRecord) (b : BotRecord) (result : List BotRecord)
      → insert_bot pg bots b ≡ executed result
      → (bot_checks pg b ≡ true) × (is_taken b bots ≡ false) × (b ∷ bots ≡ result)
  unfolding insert_bot
  insert_bot-executed bots b result e = elim (Bool-cases (bot_checks pg b)) [
    | inr bad ↦ absurd (undone-executed (rw bad at e))
    | inl good ↦ elim (Bool-cases (is_taken b bots)) [
      | inl taken ↦ absurd (undone-executed (rw (good, taken) at e))
      | inr new ↦ elim (Bool-cases (pg.is_user b.user_id)) [
        | inl known ↦ (good, new, executed-injective (rw (good, new, known) at e))
        | inr unknown ↦ absurd (undone-executed (rw (good, new, unknown) at e))
      ]
    ]
  ]

  new_bot-executed :
      (id user : Text) (bot : BotInput N) (b : BotRecord)
      → new_bot pg id user bot ≡ executed b
      → (b.id ≡ id) × (b.user_id ≡ user) × (b.status ≡ draft)
  unfolding new_bot
  new_bot-executed id user bot b e =
      let a = bind-executed (cast (pg.numeric bot.investment_amount)) _ b e in
      let c = bind-executed (cast_unless_null pg.int bot.interval_minutes) _ b a.after in
      let d = bind-executed (cast_unless_null pg.int bot.drift_threshold_bps) _ b c.after in
      let f = bind-executed (cast (pg.numeric bot.min_order_value)) _ b d.after in
      let g = bind-executed (cast (pg.int bot.cash_buffer_bps)) _ b f.after in
      subst (λ x. (x.id ≡ id) × (x.user_id ≡ user) × (x.status ≡ draft))
        (executed-injective g.after) (refl, refl, refl)

  All-IsSound :
      (id : Text) (ts us : List TargetRecord)
      → ((x : Text) → text_eq id x ≡ false → targets_of x us ≡ targets_of x ts)
      → (bs : List BotRecord) → any (has_id id) bs ≡ false
      → All (λ b. IsSound pg b ts) bs
      → All (λ b. IsSound pg b us) bs
  All-IsSound id ts us k [] h s = tt
  All-IsSound id ts us k (b ∷ bs) h s = (
    IsSound-elsewhere pg b ts us (k b.id (ground (arith, h))) s.0,
    All-IsSound id ts us k bs (ground (arith, h)) s.1,
  )

  is_taken-has_id :
      (b : BotRecord) (bs : List BotRecord) → is_taken b bs ≡ false → any (has_id b.id) bs ≡ false
  is_taken-has_id b [] h = h
  is_taken-has_id b (c ∷ cs) h = ground (arith, h, is_taken-has_id b cs)

  not_draft : (s : EngineStatus) → s ≡ draft → ¬ (is_running_status s ≡ true)
  not_draft s e h =
      let off : is_running_status s ≡ false = ap is_running_status e in ground (arith, h, off)

  is_bot_of :
      (user id : Text) (b : BotRecord) → user ≡ b.user_id → id ≡ b.id → is_bot user id b ≡ true
  is_bot_of user id b u i = rw ((text_eq_iff id b.id).1 i, (text_eq_iff user b.user_id).1 u) refl

  pub created-Preserves :
      (fresh user : Text) (bot : BotInput N) (ts : List (Target N)) (db after : Tables)
      → IsConsistent pg db
      → created pg fresh user bot ts db ≡ executed after
      → Preserves pg user db after
  unfolding created
  created-Preserves fresh user bot ts db after c e =
      let a = bind-executed (new_bot pg fresh user bot >>= insert_bot pg db.bots) _ after e in
      let row = bind-executed (new_bot pg fresh user bot) (insert_bot pg db.bots) a.value a.given in
      let fields = new_bot-executed fresh user bot row.value row.given in
      let inserted = insert_bot-executed db.bots row.value a.value row.after in
      let new : any (has_id fresh) db.bots ≡ false =
        subst (λ x. any (has_id x) db.bots ≡ false) fields.0
          (is_taken-has_id row.value db.bots inserted.1) in
      let w = bind-executed (write_targets pg user fresh ts db.targets) _ after a.after in
      let written =
        write_targets-Written pg (IsKept pg (row.value ∷ db.bots)) user fresh ts db.targets w.value
          (λ t i u checked. (
            checked,
            rw (is_bot_of t.user_id t.bot_id row.value (u ∙ sym fields.1) (i ∙ sym fields.0)) refl,
          ))
          (AreOf-of_Owns pg user fresh db.bots db.targets (Owns-none user fresh db.bots new) c.kept)
          (All-IsKept pg db.bots (row.value ∷ db.bots) db.targets (λ u i h. ground (arith, h))
            c.kept)
          w.given in
      let result : Preserves pg user db (record { bots = row.value ∷ db.bots; targets = w.value }) =
        record {
          consistent = record {
            sound = (
              (
                inserted.0,
                subst (λ x. is_balanced (targets_of x w.value) ≡ true) (sym fields.0)
                    written.balanced,
                λ running. absurd (not_draft row.value.status fields.2 running),
              ),
              All-IsSound fresh db.targets w.value written.elsewhere db.bots new c.sound,
            );
            keyed = (is_taken-has_id row.value db.bots inserted.1, c.keyed);
            kept = written.each;
            unique = written.unique c.unique;
          };
          others_bots_kept = rw ((text_eq_iff user row.value.user_id).1 (sym fields.1)) refl;
          others_targets_kept = written.others;
        } in
      subst (Preserves pg user db)
        (ap (λ bots. record { bots = bots; targets = w.value }) inserted.2
          ∙ executed-injective w.after)
        result
