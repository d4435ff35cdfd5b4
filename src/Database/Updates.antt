-- ===== src/Database/Updates.antt =====
-- A change of a bot, of supabase/migrations/20260101000200_api_functions.sql, keeps the tables consistent.
use mathlib.Core.Path.{subst}
use rebalance_webull.Prelude.{
  ◌≡◌, inl, inr, refl, sym, ◌∙◌, true, false, not, Option, none, some, List, [], ◌∷◌, All, Text,
  text_eq, any, arith, Bool-cases,
}
use rebalance_webull.Validation.Targets.{Target}
use rebalance_webull.Validation.Patch.{BotPatch}
use rebalance_webull.Database.Rows.{
  Postgres, BotRecord, TargetRecord, Tables, bot_checks, target_checks, is_bot, has_id, targets_of,
  is_balanced,
}
use rebalance_webull.Database.Procedures.{
  executed, provided, coalesce, replaced, check_violated, not_unique, name_taken, is_running_bot,
  update_row, patched, change, targets_given, updated, is_running_status,
}
use rebalance_webull.Database.Inversion.{
  executed-injective, undone-executed, bind-executed, provided-executed, change-Changed,
}
use rebalance_webull.Database.Owners.{
  IsUnique, AreOf, others_targets, text_eq_of, write_targets-Written,
}
use rebalance_webull.Database.Consistent.{Owns-of_any, IsSound, IsKept, IsConsistent, AreOf-of_Owns}
use rebalance_webull.Database.Changes.{
  Changed-is_bot, Changed-Keyed, Changed-others, Changed-IsSound,
}
use rebalance_webull.Database.Preserved.{Preserves, when_owned-executed, All-IsKept}

module _ {N : Type 0} (pg : Postgres N) where
  -- What a patch does to a row.
  abbrev Patches : BotRecord → BotRecord → Type 0
  Patches b c = (bot_checks pg c ≡ true) × (c.status ≡ b.status)

  patched-executed :
      (p : BotPatch N) (b c : BotRecord)
      → patched pg p b ≡ executed c
      → (c.id ≡ b.id) × (c.user_id ≡ b.user_id) × (c.status ≡ b.status)
  unfolding patched
  patched-executed p b c e =
      let s₁ = bind-executed (coalesce pg.numeric p.investment_amount b.investment_amount) _ c e in
      let s₂ = bind-executed (replaced pg.int p.interval_minutes b.interval_minutes) _ c s₁.after in
      let s₃ =
        bind-executed (replaced pg.int p.drift_threshold_bps b.drift_threshold_bps) _ c s₂.after in
      let s₄ =
        bind-executed (coalesce pg.numeric p.min_order_value b.min_order_value) _ c s₃.after in
      let s₅ = bind-executed (coalesce pg.int p.cash_buffer_bps b.cash_buffer_bps) _ c s₄.after in
      let s₆ = bind-executed (coalesce some p.name b.name) _ c s₅.after in
      let s₇ = bind-executed (coalesce some p.base_currency b.base_currency) _ c s₆.after in
      let s₈ = bind-executed (coalesce some p.trigger_type b.trigger_type) _ c s₇.after in
      let s₉ = bind-executed (coalesce some p.allow_fractional b.allow_fractional) _ c s₈.after in
      subst (λ x. (x.id ≡ b.id) × (x.user_id ≡ b.user_id) × (x.status ≡ b.status))
        (executed-injective s₉.after) (refl, refl, refl)

  update_row-executed :
      (p : BotPatch N) (bots : List BotRecord) (b c : BotRecord)
      → update_row pg p bots b ≡ executed c
      → (c.id ≡ b.id) × (c.user_id ≡ b.user_id) × Patches b c
  unfolding update_row
  update_row-executed p bots b c e =
      let a = bind-executed (patched pg p b) _ c e in
      let fields = patched-executed p b a.value a.given in
      let d = bind-executed (provided (bot_checks pg a.value) check_violated a.value) _ c a.after in
      let checked =
        provided-executed (bot_checks pg a.value) check_violated a.value d.value d.given in
      let named = provided-executed (not (name_taken d.value bots)) not_unique d.value c d.after in
      subst (λ x. (x.id ≡ b.id) × (x.user_id ≡ b.user_id) × Patches b x) (checked.1 ∙ named.1)
        (fields.0, fields.1, (checked.0, fields.2))

  -- A sound row that does not run if it is of the bot.
  abbrev IsPaused : Text → List TargetRecord → BotRecord → Type 0
  IsPaused id ts b = IsSound pg b ts × (has_id id b ≡ true → is_running_status b.status ≡ false)

  All-IsPaused :
      (id : Text) (ts : List TargetRecord) (bs : List BotRecord)
      → any (is_running_bot id) bs ≡ false
      → All (λ b. IsSound pg b ts) bs
      → All (IsPaused id ts) bs
  All-IsPaused id ts [] h s = tt
  All-IsPaused id ts (b ∷ bs) h s =
      ((s.0, λ here. ground (arith, h, here)), All-IsPaused id ts bs (ground (arith, h)) s.1)

  Patches-IsSound :
      (user id : Text) (ts us : List TargetRecord)
      → (is_balanced (targets_of id ts) ≡ true → is_balanced (targets_of id us) ≡ true)
      → (b c : BotRecord) → is_bot user id b ≡ true
      → c.id ≡ b.id
      → Patches b c
      → IsPaused id ts b
      → IsSound pg c us
  Patches-IsSound user id ts us k b c here i p s =
      let known : has_id id b ≡ true = ground (arith, here) in
      let same : id ≡ b.id = text_eq_of id b.id known in
      let before : is_balanced (targets_of id ts) ≡ true =
        subst (λ x. is_balanced (targets_of x ts) ≡ true) (sym same) s.0.1 in
      (
        p.0,
        subst (λ x. is_balanced (targets_of x us) ≡ true) (same ∙ sym i) (k before),
        λ running.
            let runs_on : is_running_status b.status ≡ true =
              subst (λ x. is_running_status x ≡ true) p.1 running in
            let off : is_running_status b.status ≡ false = s.1 known in
            absurd (ground (arith, runs_on, off)),
      )

  -- What the targets of an update are after it, given or not.
  record Given (P : TargetRecord → Type 0) (user id : Text) (rows result : List TargetRecord)
      : Type 0 where
    balanced : is_balanced (targets_of id rows) ≡ true → is_balanced (targets_of id result) ≡ true
    each : All P result
    elsewhere : (x : Text) → text_eq id x ≡ false → targets_of x result ≡ targets_of x rows
    others : others_targets user result ≡ others_targets user rows
    unique : IsUnique rows → IsUnique result

  targets_given-Given :
      (P : TargetRecord → Type 0) (user id : Text) (ts : Option (List (Target N)))
      (rows result : List TargetRecord)
      → ((row : TargetRecord)
          → row.bot_id ≡ id
          → row.user_id ≡ user
          → target_checks pg row ≡ true
          → P row)
      → AreOf user id rows
      → All P rows
      → targets_given pg user id ts rows ≡ executed result
      → Given P user id rows result
  targets_given-Given P user id none rows result k own h e =
      subst (Given P user id rows) (executed-injective e) (record {
        balanced = λ b. b;
        each = h;
        elsewhere = λ x other. refl;
        others = refl;
        unique = λ u. u;
      })
  targets_given-Given P user id (some ts) rows result k own h e =
      let w = write_targets-Written pg P user id ts rows result k own h e in
      record {
        balanced = λ b. w.balanced;
        each = w.each;
        elsewhere = w.elsewhere;
        others = w.others;
        unique = w.unique;
      }

  pub updated-Preserves :
      (user id : Text) (p : BotPatch N) (ts : Option (List (Target N))) (db after : Tables)
      → IsConsistent pg db
      → updated pg user id p ts db ≡ executed after
      → Preserves pg user db after
  unfolding updated
  updated-Preserves user id p ts db after c e =
      let a = when_owned-executed user id db.bots _ after e in
      let owns = Owns-of_any user id db.bots c.keyed a.0 in
      elim (Bool-cases (any (is_running_bot id) db.bots)) [
        | inl bad ↦ absurd (undone-executed (rw bad at a.1))
        | inr good ↦
            let b =
              bind-executed (change user id (update_row pg p db.bots) db.bots) _ after
                (rw good at a.1) in
            let changed =
              change-Changed user id (update_row pg p db.bots) Patches
                (update_row-executed p db.bots) db.bots b.value b.given in
            let same_owner =
              λ (u i : Text). Changed-is_bot user id Patches u i db.bots b.value changed in
            let d = bind-executed (targets_given pg user id ts db.targets) _ after b.after in
            let given =
              targets_given-Given (IsKept pg b.value) user id ts db.targets d.value
                (λ t i u checked. (
                  checked,
                  subst (λ x. any (is_bot x t.bot_id) b.value ≡ true) (sym u)
                      (subst (λ x. any (is_bot user x) b.value ≡ true) (sym i)
                        (same_owner user id ∙ a.0)),
                ))
                (AreOf-of_Owns pg user id db.bots db.targets owns c.kept)
                (All-IsKept pg db.bots b.value db.targets (λ u i h. same_owner u i ∙ h) c.kept)
                d.given in
            subst (Preserves pg user db) (executed-injective d.after) (record {
              consistent = record {
                sound =
                    Changed-IsSound user id Patches pg (IsPaused id db.targets) db.targets d.value
                      (λ x h. h.0) (Patches-IsSound user id db.targets d.value given.balanced)
                      given.elsewhere db.bots b.value changed owns
                      (All-IsPaused id db.targets db.bots good c.sound);
                keyed = Changed-Keyed user id Patches db.bots b.value changed c.keyed;
                kept = given.each;
                unique = given.unique c.unique;
              };
              others_bots_kept = Changed-others user id Patches db.bots b.value changed;
              others_targets_kept = given.others;
            })
      ]
