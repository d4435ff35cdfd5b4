-- ===== src/Database/Owners.antt =====
-- The rows of other users, and how the writes of the targets of a bot leave those of other bots and
-- users, supabase/migrations/20260101000200_api_functions.sql.
use mathlib.Core.Path.{subst}
use rebalance_webull.Prelude.{
  none, ◌≡◌, inl, inr, refl, ap, sym, ◌∙◌, true, false, List, [], ◌∷◌, All, Text, text_eq,
  text_eq_iff, text_eq-sym, arith, if◌then◌else◌, Bool-cases,
}
use rebalance_webull.Validation.Targets.{Target}
use rebalance_webull.Database.Rows.{
  Postgres, BotRecord, TargetRecord, target_checks, of_bot, targets_of, targets_but, is_balanced,
}
use rebalance_webull.Database.Procedures.{
  symbol_taken, executed, write_targets, insert_targets, unbalanced,
}
use rebalance_webull.Database.Inversion.{bind-executed, provided-executed, insert_targets-keeps}

-- A bot but for the time of its next run, which the engine sets.
abbrev pub unscheduled : BotRecord → BotRecord
unscheduled b = record b { next_run_at = none }

abbrev pub others_bots : Text → List BotRecord → List BotRecord
others_bots user [] = []
others_bots user (b ∷ bs) =
    let rest = others_bots user bs in if text_eq user b.user_id then rest else unscheduled b ∷ rest

abbrev pub others_targets : Text → List TargetRecord → List TargetRecord
others_targets user [] = []
others_targets user (t ∷ ts) =
    let rest = others_targets user ts in if text_eq user t.user_id then rest else t ∷ rest

pub text_eq_refl : (s : Text) → text_eq s s ≡ true
text_eq_refl s = (text_eq_iff s s).1 refl

pub text_eq_of : (s t : Text) → text_eq s t ≡ true → s ≡ t
text_eq_of s t h = (text_eq_iff s t).0 h

-- The targets of a bot are its user's.
abbrev pub AreOf : Text → Text → List TargetRecord → Type 0
AreOf user id = All (λ t. of_bot id t ≡ true → text_eq user t.user_id ≡ true)

pub others_targets-targets_but :
    (user id : Text) (ts : List TargetRecord)
    → AreOf user id ts
    → others_targets user (targets_but id ts) ≡ others_targets user ts
unfolding targets_but
others_targets-targets_but user id [] h = refl
others_targets-targets_but user id (t ∷ ts) h = elim (Bool-cases (of_bot id t)) [
  | inl same ↦ rw (same, h.0 same) (others_targets-targets_but user id ts h.1)
  | inr other ↦ elim (Bool-cases (text_eq user t.user_id)) [
    | inl own ↦ rw (other, own) (others_targets-targets_but user id ts h.1)
    | inr foreign ↦ rw (other, foreign) (ap (◌∷◌ t) (others_targets-targets_but user id ts h.1))
  ]
]

pub targets_of-targets_but :
    (id id' : Text) (ts : List TargetRecord)
    → text_eq id id' ≡ false
    → targets_of id' (targets_but id ts) ≡ targets_of id' ts
unfolding targets_of targets_but
targets_of-targets_but id id' [] h = refl
targets_of-targets_but id id' (t ∷ ts) h = elim (Bool-cases (of_bot id t)) [
  | inl same ↦
      let elsewhere : of_bot id' t ≡ false =
        subst (λ x. text_eq id' x ≡ false) (text_eq_of id t.bot_id same) (text_eq-sym id' id ∙ h) in
      rw (same, elsewhere) (targets_of-targets_but id id' ts h)
  | inr other ↦ elim (Bool-cases (of_bot id' t)) [
    | inl here ↦ rw (other, here) (ap (◌∷◌ t) (targets_of-targets_but id id' ts h))
    | inr elsewhere ↦ rw (other, elsewhere) (targets_of-targets_but id id' ts h)
  ]
]

pub All-targets_but :
    (P : TargetRecord → Type 0) (id : Text) (ts : List TargetRecord)
    → All P ts
    → All P (targets_but id ts)
unfolding targets_but
All-targets_but P id [] h = tt
All-targets_but P id (t ∷ ts) h = elim (Bool-cases (of_bot id t)) [
  | inl same ↦ rw same (All-targets_but P id ts h.1)
  | inr other ↦ rw other ((h.0, All-targets_but P id ts h.1))
]

-- No two targets of a bot have one symbol.
abbrev pub IsUnique : List TargetRecord → Type 0
IsUnique [] = Unit
IsUnique (t ∷ ts) = (symbol_taken t ts ≡ false) × IsUnique ts

symbol_taken-targets_but :
    (id : Text) (t : TargetRecord) (ts : List TargetRecord)
    → symbol_taken t ts ≡ false
    → symbol_taken t (targets_but id ts) ≡ false
unfolding targets_but
symbol_taken-targets_but id t [] h = h
symbol_taken-targets_but id t (u ∷ us) h = ground (arith, h, symbol_taken-targets_but id t us)

pub IsUnique-targets_but :
    (id : Text) (ts : List TargetRecord) → IsUnique ts → IsUnique (targets_but id ts)
unfolding targets_but
IsUnique-targets_but id [] h = tt
IsUnique-targets_but id (t ∷ ts) h = elim (Bool-cases (of_bot id t)) [
  | inl same ↦ rw same (IsUnique-targets_but id ts h.1)
  | inr other ↦ rw other ((symbol_taken-targets_but id t ts h.0, IsUnique-targets_but id ts h.1))
]

module _ {N : Type 0} (pg : Postgres N) where
  -- A basket that was written is balanced, all rows keep a property that the new ones have, and the
  -- targets of other bots and of other users are as they were.
  pub record Written (P : TargetRecord → Type 0) (user id : Text) (rows result : List TargetRecord)
      : Type 0 where
    pub balanced : is_balanced (targets_of id result) ≡ true
    pub each : All P result
    pub elsewhere :
        (id' : Text) → text_eq id id' ≡ false → targets_of id' result ≡ targets_of id' rows
    pub others : others_targets user result ≡ others_targets user rows
    pub unique : IsUnique rows → IsUnique result

  pub write_targets-Written :
      (P : TargetRecord → Type 0) (user id : Text) (ts : List (Target N))
      (rows result : List TargetRecord)
      → ((row : TargetRecord)
          → row.bot_id ≡ id
          → row.user_id ≡ user
          → target_checks pg row ≡ true
          → P row)
      → AreOf user id rows
      → All P rows
      → write_targets pg user id ts rows ≡ executed result
      → Written P user id rows result
  unfolding write_targets targets_of
  write_targets-Written P user id ts rows result k own h e =
      let a = bind-executed (insert_targets pg user id ts (targets_but id rows)) _ result e in
      let b =
        provided-executed (is_balanced (targets_of id a.value)) unbalanced a.value result a.after in
      subst (Written P user id rows) b.1 (record {
        balanced = b.0;
        each =
            insert_targets-keeps pg (All P) user id (λ row rest i u c new h. (k row i u c, h)) ts
              (targets_but id rows) a.value a.given (All-targets_but P id rows h);
        elsewhere = λ id' different.
            insert_targets-keeps pg (λ rest. targets_of id' rest ≡ targets_of id' rows) user id
              (λ row rest i u c new h.
                let there : of_bot id' row ≡ false =
                  subst (λ x. text_eq id' x ≡ false) (sym i) (text_eq-sym id' id ∙ different) in
                rw there h)
              ts (targets_but id rows) a.value a.given
              (targets_of-targets_but id id' rows different);
        others =
            insert_targets-keeps pg (λ rest. others_targets user rest ≡ others_targets user rows)
              user id
              (λ row rest i u c new h.
                let own_row : text_eq user row.user_id ≡ true =
                  subst (λ x. text_eq user x ≡ true) (sym u) (text_eq_refl user) in
                rw own_row h)
              ts (targets_but id rows) a.value a.given
              (others_targets-targets_but user id rows own);
        unique = λ v.
            insert_targets-keeps pg IsUnique user id (λ row rest i u c new h. (new, h)) ts
              (targets_but id rows) a.value a.given (IsUnique-targets_but id rows v);
      })
