-- ===== src/Database/Rows.antt =====
-- The rows of public.bots and public.bot_targets with their constraints,
-- supabase/migrations/20260101000000_init.sql. A numeric(20,4) counts units of 0.0001. The columns
-- that only record times of changes, and the ids of the targets, are left out.
use rebalance_webull.Prelude.{
  ℕ, ◌+◌, Bool, true, false, ◌&&◌, ◌||◌, not, Option, none, some, List, [], ◌∷◌, Text, text_eq, leb,
  ◌==◌, if◌then◌else◌,
}
use rebalance_webull.Validation.Targets.{symbol_pattern}
use rebalance_webull.Validation.Bot.{
  TriggerType, schedule, drift, schedule_or_drift, currency_pattern,
}
use rebalance_webull.Engine.Money.{ℤ, pos, negsuc}
use rebalance_webull.Engine.Models.{EngineStatus}

-- What the procedures take from PostgreSQL and from the schema `auth`: the casts of the text of a
-- JSON number and of a text to a uuid, which gives the one text that stands for it, `char_length`,
-- `btrim` and `upper` of a text, and the users that exist.
pub record Postgres (N : Type 0) : Type 0 where
  pub int : N → Option ℤ
  pub numeric : N → Option ℤ
  pub uuid : Text → Option Text
  pub char_length : Text → ℕ
  pub btrim : Text → Text
  pub upper : Text → Text
  pub is_user : Text → Bool

pub record BotRecord : Type 0 where
  pub id : Text
  pub user_id : Text
  pub name : Text
  pub status : EngineStatus
  pub base_currency : Text
  pub investment_amount : ℤ
  pub trigger_type : TriggerType
  pub interval_minutes : Option ℤ
  pub drift_threshold_bps : Option ℤ
  pub min_order_value : ℤ
  pub cash_buffer_bps : ℤ
  pub allow_fractional : Bool
  pub next_run_at : Option ℕ

pub record TargetRecord : Type 0 where
  pub bot_id : Text
  pub user_id : Text
  pub symbol : Text
  pub target_weight_bps : ℕ

pub record Tables : Type 0 where
  pub bots : List BotRecord
  pub targets : List TargetRecord

-- `x between lo and hi`, for bounds that are not negative.
abbrev pub between : ℕ → ℕ → ℤ → Bool
between lo hi (pos n) = leb lo n && leb n hi
between lo hi (negsuc n) = false

-- A check of a column that holds null is passed.
abbrev pub null_or : (ℤ → Bool) → Option ℤ → Bool
null_or p none = true
null_or p (some z) = p z

abbrev pub is_not_null : Option ℤ → Bool
is_not_null none = false
is_not_null (some z) = true

abbrev pub is_at_least : ℕ → ℤ → Bool
is_at_least lo (pos n) = leb lo n
is_at_least lo (negsuc n) = false

abbrev goes_by_schedule : TriggerType → Bool
goes_by_schedule drift = false
goes_by_schedule schedule = true
goes_by_schedule schedule_or_drift = true

abbrev goes_by_drift : TriggerType → Bool
goes_by_drift schedule = false
goes_by_drift drift = true
goes_by_drift schedule_or_drift = true

abbrev pub or_text : Text → Option Text → Text
or_text t none = t
or_text t (some u) = u

-- The text that a uuid is stored as, and a text that is no uuid as it is.
abbrev pub stored_uuid : {N : Type 0} → Postgres N → Text → Text
stored_uuid pg t = or_text t (pg.uuid t)

-- The checks of public.bots.
unfoldable pub bot_checks : {N : Type 0} → Postgres N → BotRecord → Bool
bot_checks pg b =
    leb 1 (pg.char_length (pg.btrim b.name))
    && leb (pg.char_length (pg.btrim b.name)) 60
    && currency_pattern b.base_currency
    && is_at_least 1 b.investment_amount
    && null_or (between 1 525600) b.interval_minutes
    && null_or (between 1 10000) b.drift_threshold_bps
    && is_at_least 0 b.min_order_value
    && between 0 10000 b.cash_buffer_bps
    && (not (goes_by_schedule b.trigger_type) || is_not_null b.interval_minutes)
    && (not (goes_by_drift b.trigger_type) || is_not_null b.drift_threshold_bps)

-- The checks of public.bot_targets.
unfoldable pub target_checks : {N : Type 0} → Postgres N → TargetRecord → Bool
target_checks pg t =
    text_eq t.symbol (pg.upper t.symbol) && symbol_pattern t.symbol && leb t.target_weight_bps 10000

-- `id = p_bot_id and user_id = p_user_id`
abbrev pub is_bot : Text → Text → BotRecord → Bool
is_bot user id b = text_eq id b.id && text_eq user b.user_id

abbrev pub has_id : Text → BotRecord → Bool
has_id id b = text_eq id b.id

abbrev pub of_bot : Text → TargetRecord → Bool
of_bot id t = text_eq id t.bot_id

-- The targets of a bot, and all but those.
unfoldable pub targets_of : Text → List TargetRecord → List TargetRecord
targets_of id [] = []
targets_of id (t ∷ ts) = let rest = targets_of id ts in if of_bot id t then t ∷ rest else rest

unfoldable pub targets_but : Text → List TargetRecord → List TargetRecord
targets_but id [] = []
targets_but id (t ∷ ts) = let rest = targets_but id ts in if of_bot id t then rest else t ∷ rest

abbrev pub sum_weights : List TargetRecord → ℕ
sum_weights [] = 0
sum_weights (t ∷ ts) = t.target_weight_bps + sum_weights ts

-- `assert_bot_targets_sum_to_100`, of the targets of a bot that exists.
abbrev pub is_balanced : List TargetRecord → Bool
is_balanced [] = true
is_balanced (t ∷ ts) = sum_weights (t ∷ ts) == 10000
