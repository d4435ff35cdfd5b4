-- ===== src/Database/Consistent.antt =====
-- What the tables of supabase/migrations/20260101000000_init.sql promise, and how updates and
-- deletes of a row keep it.
use mathlib.Core.Path.{subst}
use rebalance_webull.Prelude.{
  ◌≡◌, inl, inr, refl, sym, true, false, List, [], ◌∷◌, All, Text, text_eq, any, arith, Bool-cases,
}
use rebalance_webull.Database.Rows.{
  Postgres, BotRecord, TargetRecord, Tables, bot_checks, target_checks, is_bot, has_id, targets_of,
  is_balanced,
}
use rebalance_webull.Database.Procedures.{is_running_status, has_none}
use rebalance_webull.Database.Owners.{IsUnique, AreOf, text_eq_of}

-- No id is that of a later row.
abbrev pub Keyed : List BotRecord → Type 0
Keyed [] = Unit
Keyed (b ∷ bs) = (any (has_id b.id) bs ≡ false) × Keyed bs

-- Every row with the id is the user's.
abbrev pub Owns : Text → Text → List BotRecord → Type 0
Owns user id = All (λ b. has_id id b ≡ true → is_bot user id b ≡ true)

is_bot-has_id : (user id : Text) (b : BotRecord) → is_bot user id b ≡ true → has_id id b ≡ true
is_bot-has_id user id b h = ground (arith, h)

any-is_bot :
    (user id : Text) (bs : List BotRecord)
    → any (is_bot user id) bs ≡ true
    → any (has_id id) bs ≡ true
any-is_bot user id [] h = h
any-is_bot user id (b ∷ bs) h = elim (Bool-cases (is_bot user id b)) [
  | inl here ↦ let known = is_bot-has_id user id b here in rw known refl
  | inr there ↦ ground (arith, any-is_bot user id bs (rw there at h))
]

-- Where no row has the id, all rows are the user's that have it.
pub Owns-none :
    (user id : Text) (bs : List BotRecord) → any (has_id id) bs ≡ false → Owns user id bs
Owns-none user id [] h = tt
Owns-none user id (b ∷ bs) h = elim (Bool-cases (has_id id b)) [
  | inl here ↦ absurd (ground (arith, h, here))
  | inr there ↦
      (λ i. absurd (ground (arith, i, there)), Owns-none user id bs (ground (arith, h, there)))
]

pub Owns-of_any :
    (user id : Text) (bs : List BotRecord)
    → Keyed bs
    → any (is_bot user id) bs ≡ true
    → Owns user id bs
Owns-of_any user id [] k h = tt
Owns-of_any user id (b ∷ bs) k h = elim (Bool-cases (is_bot user id b)) [
  | inl here ↦
      let same : id ≡ b.id = text_eq_of id b.id (is_bot-has_id user id b here) in
      (λ i. here, Owns-none user id bs (subst (λ x. any (has_id x) bs ≡ false) (sym same) k.0))
  | inr there ↦
      let later = rw there at h in
      (
        λ i.
            let same : id ≡ b.id = text_eq_of id b.id i in
            let seen : any (has_id b.id) bs ≡ true =
              subst (λ x. any (has_id x) bs ≡ true) same (any-is_bot user id bs later) in
            absurd (ground (arith, seen, k.0)),
        Owns-of_any user id bs k.1 later,
      )
]

-- A row that is the user's, of rows with the id that are one's.
owner_is :
    (user user' id : Text) (bs : List BotRecord)
    → Owns user id bs
    → any (is_bot user' id) bs ≡ true
    → text_eq user user' ≡ true
owner_is user user' id [] o h = absurd (ground (arith, h))
owner_is user user' id (b ∷ bs) o h = elim (Bool-cases (is_bot user' id b)) [
  | inl here ↦
      let theirs : user' ≡ b.user_id = text_eq_of user' b.user_id (ground (arith, here)) in
      let ours : text_eq user b.user_id ≡ true =
        ground (arith, o.0 (is_bot-has_id user' id b here)) in
      subst (λ x. text_eq user x ≡ true) (sym theirs) ours
  | inr there ↦ owner_is user user' id bs o.1 (rw there at h)
]

module _ {N : Type 0} (pg : Postgres N) where
  -- A row passes its checks, its basket totals 10000 or is empty, and it is not empty while the bot
  -- runs.
  abbrev pub IsSound : BotRecord → List TargetRecord → Type 0
  IsSound b ts =
      (bot_checks pg b ≡ true)
      × (is_balanced (targets_of b.id ts) ≡ true)
      × (is_running_status b.status ≡ true → has_none (targets_of b.id ts) ≡ false)

  -- A target passes its checks and is of a bot of its own user.
  abbrev pub IsKept : List BotRecord → TargetRecord → Type 0
  IsKept bs t = (target_checks pg t ≡ true) × (any (is_bot t.user_id t.bot_id) bs ≡ true)

  pub record IsConsistent (db : Tables) : Type 0 where
    pub sound : All (λ b. IsSound b db.targets) db.bots
    pub keyed : Keyed db.bots
    pub kept : All (IsKept db.bots) db.targets
    pub unique : IsUnique db.targets

  pub AreOf-of_Owns :
      (user id : Text) (bs : List BotRecord) (ts : List TargetRecord)
      → Owns user id bs
      → All (IsKept bs) ts
      → AreOf user id ts
  AreOf-of_Owns user id bs [] o h = tt
  AreOf-of_Owns user id bs (t ∷ ts) o h = (
    λ i.
        let same : t.bot_id ≡ id = sym (text_eq_of id t.bot_id i) in
        owner_is user t.user_id id bs o
          (subst (λ x. any (is_bot t.user_id x) bs ≡ true) same h.0.1),
    AreOf-of_Owns user id bs ts o h.1,
  )

  -- A row is as sound as it was where its own targets are as they were.
  pub IsSound-elsewhere :
      (b : BotRecord) (ts us : List TargetRecord)
      → targets_of b.id us ≡ targets_of b.id ts
      → IsSound b ts
      → IsSound b us
  IsSound-elsewhere b ts us e h = (
    h.0,
    subst (λ x. is_balanced x ≡ true) (sym e) h.1,
    λ running. subst (λ x. has_none x ≡ false) (sym e) (h.2 running),
  )

pub not_owned :
    (user id : Text) (b : BotRecord)
    → (has_id id b ≡ true → is_bot user id b ≡ true)
    → is_bot user id b ≡ false
    → has_id id b ≡ false
not_owned user id b o h = elim (Bool-cases (has_id id b)) [
  | inl here ↦ absurd (ground (arith, h, o here))
  | inr there ↦ there
]
