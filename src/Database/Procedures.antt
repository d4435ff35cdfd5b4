-- ===== src/Database/Procedures.antt =====
-- The procedures of supabase/migrations/20260101000200_api_functions.sql. A procedure is one
-- transaction: it commits with its changes, or an exception undoes them all.
use rebalance_webull.Prelude.{
  ℕ, Bool, true, false, ◌&&◌, ◌||◌, not, Option, none, some, List, [], ◌∷◌, Text, text_eq, any,
  if◌then◌else◌,
}
use rebalance_webull.Validation.Targets.{Target}
use rebalance_webull.Validation.Bot.{BotInput}
use rebalance_webull.Validation.Patch.{BotPatch}
use rebalance_webull.Engine.Money.{ℤ, pos, negsuc}
use rebalance_webull.Engine.Models.{EngineStatus, draft, running, paused, stopped}
use rebalance_webull.Api.Effects.{
  BotStatus, Procedure, create_bot, update_bot, delete_bot, set_bot_status,
}
use rebalance_webull.Database.Rows.{
  Postgres, BotRecord, TargetRecord, Tables, bot_checks, target_checks, is_bot, has_id, targets_of,
  targets_but, is_balanced,
}

-- Why a transaction was undone.
pub data Violation : Type 0 where
  bot_not_found is_running no_targets : Violation
  bad_cast check_violated not_unique unknown_user unbalanced : Violation

pub data Executed (A : Type 0) : Type 0 where
  undone : Violation → Executed A
  executed : A → Executed A

infixl 5 ◌>>=◌
abbrev pub ◌>>=◌ : {A B : Type 0} → Executed A → (A → Executed B) → Executed B
undone v >>= f = undone v
executed a >>= f = f a

-- A condition that must hold for the transaction to go on with a value.
abbrev pub provided : {A : Type 0} → Bool → Violation → A → Executed A
provided true v a = executed a
provided false v a = undone v

abbrev pub cast : {A : Type 0} → Option A → Executed A
cast none = undone bad_cast
cast (some a) = executed a

abbrev pub cast_unless_null : {A B : Type 0} → (A → Option B) → Option A → Executed (Option B)
cast_unless_null f none = executed none
cast_unless_null f (some a) = cast (f a) >>= λ b. executed (some b)

-- `coalesce(new::type, old)`
abbrev pub coalesce : {A B : Type 0} → (A → Option B) → Option A → B → Executed B
coalesce f none old = executed old
coalesce f (some a) old = cast (f a)

-- `case when p_patch ? 'field' then … else old end`
abbrev pub replaced :
    {A B : Type 0} → (A → Option B) → Option (Option A) → Option B → Executed (Option B)
replaced f none old = executed old
replaced f (some new) old = cast_unless_null f new

-- The unique constraints of public.bots: the primary key, and the name of each user.
abbrev pub is_taken : BotRecord → List BotRecord → Bool
is_taken b bs =
    any (λ c. has_id b.id c || (text_eq b.user_id c.user_id && text_eq b.name c.name)) bs

abbrev pub name_taken : BotRecord → List BotRecord → Bool
name_taken b bs =
    any (λ c. not (has_id b.id c) && (text_eq b.user_id c.user_id && text_eq b.name c.name)) bs

-- The unique constraint of public.bot_targets.
abbrev pub symbol_taken : TargetRecord → List TargetRecord → Bool
symbol_taken t ts = any (λ u. text_eq t.bot_id u.bot_id && text_eq t.symbol u.symbol) ts

abbrev pub stored_status : BotStatus → EngineStatus
stored_status BotStatus.running = running
stored_status BotStatus.paused = paused
stored_status BotStatus.stopped = stopped

abbrev pub is_running_status : EngineStatus → Bool
is_running_status running = true
is_running_status draft = false
is_running_status paused = false
is_running_status stopped = false

-- The cast of a weight, with the part of its check that refuses a negative one.
abbrev pub weight_column : ℤ → Executed ℕ
weight_column (pos n) = executed n
weight_column (negsuc n) = undone check_violated

-- `update public.bots set … where id = p_bot_id and user_id = p_user_id`
unfoldable pub change :
    Text → Text → (BotRecord → Executed BotRecord) → List BotRecord → Executed (List BotRecord)
change user id f [] = executed []
change user id f (b ∷ bs) = change user id f bs >>= λ rest.
    if is_bot user id b then (f b >>= λ changed. executed (changed ∷ rest)) else executed (b ∷ rest)

-- `assert_owns_bot`, and the rest of the procedure.
unfoldable pub when_owned : {A : Type 0} → Text → Text → List BotRecord → Executed A → Executed A
when_owned user id bots next = if any (is_bot user id) bots then next else undone bot_not_found

abbrev pub is_running_bot : Text → BotRecord → Bool
is_running_bot id b = has_id id b && is_running_status b.status

abbrev pub next_run : ℕ → EngineStatus → Option ℕ → Option ℕ
next_run now running at = some now
next_run now draft at = at
next_run now paused at = at
next_run now stopped at = at

abbrev pub with_status : ℕ → EngineStatus → BotRecord → Executed BotRecord
with_status now status b =
    executed (record b { status = status; next_run_at = next_run now status b.next_run_at })

abbrev pub has_none : List TargetRecord → Bool
has_none [] = true
has_none (t ∷ ts) = false

unfoldable pub status_set : ℕ → Text → Text → EngineStatus → Tables → Executed Tables
unfolding when_owned change
status_set now user id status db = when_owned user id db.bots (
    if is_running_status status && has_none (targets_of id db.targets)
    then undone no_targets
    else (change user id (with_status now status) db.bots >>= λ bots.
        executed (record { bots = bots; targets = db.targets })))

-- `delete from public.bots`, which cascades to the targets.
unfoldable pub bots_but : Text → Text → List BotRecord → List BotRecord
bots_but user id [] = []
bots_but user id (b ∷ bs) =
    let rest = bots_but user id bs in if is_bot user id b then rest else b ∷ rest

unfoldable pub deleted : Text → Text → Tables → Executed Tables
unfolding when_owned bots_but
deleted user id db =
    when_owned user id db.bots
      (executed (record { bots = bots_but user id db.bots; targets = targets_but id db.targets }))

module _ {N : Type 0} (pg : Postgres N) where
  -- The `values` of the insert of `create_bot`.
  unfoldable pub new_bot : Text → Text → BotInput N → Executed BotRecord
  new_bot id user bot = cast (pg.numeric bot.investment_amount) >>= λ amount.
      cast_unless_null pg.int bot.interval_minutes >>= λ interval.
      cast_unless_null pg.int bot.drift_threshold_bps >>= λ threshold.
      cast (pg.numeric bot.min_order_value) >>= λ minimum.
      cast (pg.int bot.cash_buffer_bps) >>= λ buffer. executed (record {
        id = id;
        user_id = user;
        name = bot.name;
        status = draft;
        base_currency = bot.base_currency;
        investment_amount = amount;
        trigger_type = bot.trigger_type;
        interval_minutes = interval;
        drift_threshold_bps = threshold;
        min_order_value = minimum;
        cash_buffer_bps = buffer;
        allow_fractional = bot.allow_fractional;
        next_run_at = none;
      })

  unfoldable pub insert_bot : List BotRecord → BotRecord → Executed (List BotRecord)
  insert_bot bots b = provided (bot_checks pg b) check_violated b >>= λ b.
      provided (not (is_taken b bots)) not_unique b >>= λ b.
      provided (pg.is_user b.user_id) unknown_user (b ∷ bots)

  abbrev pub target_row : Text → Text → Text → ℕ → TargetRecord
  target_row user id symbol weight = record {
    bot_id = id;
    user_id = user;
    symbol = pg.upper symbol;
    target_weight_bps = weight;
  }

  unfoldable pub insert_targets :
      Text → Text → List (Target N) → List TargetRecord → Executed (List TargetRecord)
  insert_targets user id [] rows = executed rows
  insert_targets user id (t ∷ ts) rows = cast (pg.int t.weight_bps) >>= weight_column >>= λ weight.
      provided (target_checks pg (target_row user id t.symbol weight)) check_violated
        (target_row user id t.symbol weight)
      >>= λ row. provided (not (symbol_taken row rows)) not_unique row >>= λ row.
          insert_targets user id ts (row ∷ rows)

  -- `write_targets`, and the deferred check of the basket when the transaction commits.
  unfoldable pub write_targets :
      Text → Text → List (Target N) → List TargetRecord → Executed (List TargetRecord)
  unfolding insert_targets
  write_targets user id targets rows =
      insert_targets user id targets (targets_but id rows) >>= λ rows.
      provided (is_balanced (targets_of id rows)) unbalanced rows

  unfoldable pub patched : BotPatch N → BotRecord → Executed BotRecord
  patched p b = coalesce pg.numeric p.investment_amount b.investment_amount >>= λ amount.
      replaced pg.int p.interval_minutes b.interval_minutes >>= λ interval.
      replaced pg.int p.drift_threshold_bps b.drift_threshold_bps >>= λ threshold.
      coalesce pg.numeric p.min_order_value b.min_order_value >>= λ minimum.
      coalesce pg.int p.cash_buffer_bps b.cash_buffer_bps >>= λ buffer.
      coalesce some p.name b.name >>= λ name.
      coalesce some p.base_currency b.base_currency >>= λ currency.
      coalesce some p.trigger_type b.trigger_type >>= λ trigger.
      coalesce some p.allow_fractional b.allow_fractional >>= λ fractional. executed (record b {
        name = name;
        base_currency = currency;
        investment_amount = amount;
        trigger_type = trigger;
        interval_minutes = interval;
        drift_threshold_bps = threshold;
        min_order_value = minimum;
        cash_buffer_bps = buffer;
        allow_fractional = fractional;
      })

  unfoldable pub created : Text → Text → BotInput N → List (Target N) → Tables → Executed Tables
  unfolding new_bot insert_bot write_targets
  created id user bot targets db = new_bot id user bot >>= insert_bot db.bots >>= λ bots.
      write_targets user id targets db.targets >>= λ rows.
      executed (record { bots = bots; targets = rows })

  -- The update of a row, its checks and the name that is unique.
  unfoldable pub update_row : BotPatch N → List BotRecord → BotRecord → Executed BotRecord
  unfolding patched
  update_row p bots b = patched p b >>= λ changed.
      provided (bot_checks pg changed) check_violated changed >>= λ changed.
      provided (not (name_taken changed bots)) not_unique changed

  abbrev pub targets_given :
      Text → Text → Option (List (Target N)) → List TargetRecord → Executed (List TargetRecord)
  targets_given user id none rows = executed rows
  targets_given user id (some targets) rows = write_targets user id targets rows

  unfoldable pub updated :
      Text → Text → BotPatch N → Option (List (Target N)) → Tables → Executed Tables
  unfolding when_owned change update_row write_targets
  updated user id p targets db = when_owned user id db.bots (
      if any (is_running_bot id) db.bots
      then undone is_running
      else (change user id (update_row p db.bots) db.bots >>= λ bots.
          targets_given user id targets db.targets >>= λ rows.
          executed (record { bots = bots; targets = rows })))

  -- The arguments `p_user_id uuid, p_bot_id uuid` of a procedure: the call casts their texts.
  unfoldable pub with_uuids : Text → Text → (Text → Text → Executed Tables) → Executed Tables
  with_uuids user id next = cast (pg.uuid user) >>= λ user. cast (pg.uuid id) >>= λ id. next user id

  -- A procedure at a time, with an id that `gen_random_uuid` makes.
  unfoldable pub execute : ℕ → Text → Procedure N → Tables → Executed Tables
  unfolding created updated status_set deleted with_uuids
  execute now fresh (create_bot user bot targets) db =
      cast (pg.uuid user) >>= λ user. created fresh user bot targets db
  execute now fresh (update_bot user id p targets) db =
      with_uuids user id (λ user id. updated user id p targets db)
  execute now fresh (delete_bot user id) db = with_uuids user id (λ user id. deleted user id db)
  execute now fresh (set_bot_status user id status) db =
      with_uuids user id (λ user id. status_set now user id (stored_status status) db)
