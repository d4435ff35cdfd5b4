-- ===== src/Database/Inversion.antt =====
-- What a transaction of supabase/migrations/20260101000200_api_functions.sql that commits has passed.
use mathlib.Core.Path.{subst}
use rebalance_webull.Prelude.{
  ◌≡◌, ◌⊎◌, inl, inr, refl, sym, ◌∙◌, Bool, true, false, List, [], ◌∷◌, Text, Bool-cases, not,
}
use rebalance_webull.Validation.Targets.{Target}
use rebalance_webull.Database.Rows.{Postgres, BotRecord, TargetRecord, target_checks, is_bot}
use rebalance_webull.Database.Procedures.{
  Violation, check_violated, not_unique, Executed, undone, executed, ◌>>=◌, provided, cast,
  weight_column, target_row, symbol_taken, insert_targets, change,
}

not-true : (b : Bool) → not b ≡ true → b ≡ false
not-true true h = sym h
not-true false h = refl

pub executed-injective : {A : Type 0} {a b : A} → executed a ≡ executed b → a ≡ b
executed-injective e = cc

pub undone-executed : {A : Type 0} {v : Violation} {a : A} → ¬ (undone v ≡ executed a)
undone-executed h = absurd cc

-- What a step gave to the steps after it.
pub record Passed {A B : Type 0} (x : Executed A) (f : A → Executed B) (b : B) : Type 0 where
  pub value : A
  pub given : x ≡ executed value
  pub after : f value ≡ executed b

pub bind-executed :
    {A B : Type 0} (x : Executed A) (f : A → Executed B) (b : B)
    → (x >>= f) ≡ executed b
    → Passed x f b
bind-executed (undone v) f b h = absurd (undone-executed h)
bind-executed (executed a) f b h = record { value = a; given = refl; after = h }

pub provided-executed :
    {A : Type 0} (test : Bool) (v : Violation) (a b : A)
    → provided test v a ≡ executed b
    → (test ≡ true) × (a ≡ b)
provided-executed true v a b h = (refl, executed-injective h)
provided-executed false v a b h = absurd (undone-executed h)

module _ {N : Type 0} (pg : Postgres N) where
  -- What holds of rows and is kept by each row that is inserted holds after the inserts.
  pub insert_targets-keeps :
      (P : List TargetRecord → Type 0) (user id : Text)
      → ((row : TargetRecord) (rows : List TargetRecord)
          → row.bot_id ≡ id
          → row.user_id ≡ user
          → target_checks pg row ≡ true
          → symbol_taken row rows ≡ false
          → P rows
          → P (row ∷ rows))
      → (ts : List (Target N)) (rows result : List TargetRecord)
      → insert_targets pg user id ts rows ≡ executed result
      → P rows
      → P result
  unfolding insert_targets
  insert_targets-keeps P user id k [] rows result e h = subst P (executed-injective e) h
  insert_targets-keeps P user id k (t ∷ ts) rows result e h =
      let b = bind-executed (cast (pg.int t.weight_bps) >>= weight_column) _ result e in
      let row = target_row pg user id t.symbol b.value in
      let c = bind-executed (provided (target_checks pg row) check_violated row) _ result b.after in
      let checked = provided-executed (target_checks pg row) check_violated row c.value c.given in
      let d =
        bind-executed (provided (not (symbol_taken c.value rows)) not_unique c.value) _ result
          c.after in
      let new =
        provided-executed (not (symbol_taken c.value rows)) not_unique c.value d.value d.given in
      insert_targets-keeps P user id k ts (d.value ∷ rows) result d.after (
        subst (λ x. P (x ∷ rows)) (checked.1 ∙ new.1)
          (k row rows refl refl checked.0
            (not-true (symbol_taken row rows)
              (subst (λ x. not (symbol_taken x rows) ≡ true) (sym checked.1) new.0))
            h))

-- The rows before and after an update: each keeps its id and its user, and it is as it was, or it is
-- the row of the update.
abbrev pub Changed :
    Text → Text → (BotRecord → BotRecord → Type 0) → List BotRecord → List BotRecord → Type 0
Changed user id P [] [] = Unit
Changed user id P [] (c ∷ cs) = ⊥
Changed user id P (b ∷ bs) [] = ⊥
Changed user id P (b ∷ bs) (c ∷ cs) =
    (c.id ≡ b.id)
    × (c.user_id ≡ b.user_id)
    × (((is_bot user id b ≡ false) × (b ≡ c)) ⊎ ((is_bot user id b ≡ true) × P b c))
    × Changed user id P bs cs

pub change-Changed :
    (user id : Text) (f : BotRecord → Executed BotRecord) (P : BotRecord → BotRecord → Type 0)
    → ((b c : BotRecord) → f b ≡ executed c → (c.id ≡ b.id) × (c.user_id ≡ b.user_id) × P b c)
    → (bs cs : List BotRecord) → change user id f bs ≡ executed cs
    → Changed user id P bs cs
unfolding change
change-Changed user id f P k [] cs e = subst (Changed user id P []) (executed-injective e) tt
change-Changed user id f P k (b ∷ bs) cs e =
    let a = bind-executed (change user id f bs) _ cs e in
    let rest = change-Changed user id f P k bs a.value a.given in
    elim (Bool-cases (is_bot user id b)) [
      | inl same ↦
          let d = bind-executed (f b) _ cs (rw same at a.after) in
          let facts = k b d.value d.given in
          let whole : Changed user id P (b ∷ bs) (d.value ∷ a.value) =
            (facts.0, facts.1, inr (same, facts.2), rest) in
          subst (Changed user id P (b ∷ bs)) (executed-injective d.after) whole
      | inr other ↦
          let whole : Changed user id P (b ∷ bs) (b ∷ a.value) =
            (refl, refl, inl (other, refl), rest) in
          subst (Changed user id P (b ∷ bs)) (executed-injective (rw other at a.after)) whole
    ]
