-- ===== src/Tests/Database.antt =====
-- Tables of supabase/migrations and requests against them, on which the theorems on the database
-- apply.

use mathlib.Core.List.Perm
use rebalance_webull.Prelude.{
  text_eq, if◌then◌else◌, ℕ, ◌*◌, ◌/◌, ◌≡◌, inl, refl, true, false, none, some, Option, [], ◌∷◌,
  Text, codes, map, arith, trim, length,
}
use rebalance_webull.Js.{obj, str, end, field}
use rebalance_webull.Validation.Targets.{symbol_pattern}
use rebalance_webull.Validation.Bot.{schedule, currency_pattern}
use rebalance_webull.Engine.Money.{ℤ, pos}
use rebalance_webull.Engine.Models.{running, draft, RebalancePlan, planned}
use rebalance_webull.Engine.Planner.{build_plan}
use rebalance_webull.Engine.Planner.Total.{to_target}
use rebalance_webull.Api.Http.{Response, ok}
use rebalance_webull.Api.Effects.{PostgresError, create_bot, delete_bot}
use rebalance_webull.Api.Auth.{AuthedUser}
use rebalance_webull.Api.App.{bot_removal, serve}
use rebalance_webull.Api.BotWrites.{remove_bot}
use rebalance_webull.Api.Postgres.{from_postgres}
use rebalance_webull.Database.Rows.{
  Postgres, BotRecord, TargetRecord, Tables, bot_checks, target_checks, targets_of, targets_but,
}
use rebalance_webull.Database.Procedures.{
  executed, undone, bad_cast, deleted, with_uuids, when_owned, bots_but, execute, created, new_bot,
  insert_bot, write_targets, insert_targets,
}
use rebalance_webull.Database.Consistent.{IsConsistent}
use rebalance_webull.Database.Preserved.{Preserves}
use rebalance_webull.Database.Reachable.{empty, committed, Reachable-IsConsistent}
use rebalance_webull.Database.Serving.{Ending, returned, thrown, Leads, serve-Preserves}
use rebalance_webull.Database.Running.{to_weighted, to_settings, running-planned}
use rebalance_webull.Tests.Numbers.{sample_runtime, Sample, hundredths, below_zero, not_a_number}
use rebalance_webull.Tests.Bots.{sample_bot, sample_targets}
use rebalance_webull.Tests.Requests.{sample_env, sample_user, post_request}

abbrev int_of : Sample → Option ℤ
int_of (hundredths n) = some (pos (n / 100))
int_of (below_zero n) = none
int_of not_a_number = none

abbrev numeric_of : Sample → Option ℤ
numeric_of (hundredths n) = some (pos (n * 100))
numeric_of (below_zero n) = none
numeric_of not_a_number = none

abbrev sample_postgres : Postgres Sample
sample_postgres = record {
  int = int_of;
  numeric = numeric_of;
  uuid = λ t. some t;
  char_length = length;
  btrim = trim;
  upper = λ t. t;
  is_user = λ t. true;
}

abbrev running_bot : BotRecord
running_bot = record {
  id = codes "b1";
  user_id = codes "u1";
  name = codes "Core";
  status = running;
  base_currency = codes "USD";
  investment_amount = pos 25_000_000;
  trigger_type = schedule;
  interval_minutes = some (pos 60);
  drift_threshold_bps = none;
  min_order_value = pos 100_000;
  cash_buffer_bps = pos 0;
  allow_fractional = false;
  next_run_at = some 5;
}

abbrev stored_target : Text → ℕ → TargetRecord
stored_target symbol weight = record {
  bot_id = codes "b1";
  user_id = codes "u1";
  symbol = symbol;
  target_weight_bps = weight;
}

abbrev sample_tables : Tables
sample_tables = record {
  bots = running_bot ∷ [];
  targets = stored_target (codes "VTI") 6000 ∷ stored_target (codes "BND") 4000 ∷ [];
}

sample_tables-IsConsistent : IsConsistent sample_postgres sample_tables
unfolding bot_checks target_checks targets_of symbol_pattern currency_pattern trim
sample_tables-IsConsistent = record {
  sound = ((refl, refl, λ runs. refl), tt);
  keyed = (refl, tt);
  kept = ((refl, refl), ((refl, refl), tt));
  unique = (refl, (refl, tt));
}

abbrev no_tables : Tables
no_tables = record { bots = []; targets = [] }

abbrev created_tables : Tables
created_tables = record {
  bots =
      record running_bot {
        id = codes "b2";
        user_id = codes "u2";
        status = draft;
        next_run_at = none;
      }
      ∷ [];
  targets =
      record {
        bot_id = codes "b2";
        user_id = codes "u2";
        symbol = codes "BND";
        target_weight_bps = 4000;
      }
      ∷ record {
        bot_id = codes "b2";
        user_id = codes "u2";
        symbol = codes "VTI";
        target_weight_bps = 6000;
      }
      ∷ [];
}

-- A new bot is a row of its user's, a draft, with its targets.
created_bot :
    execute sample_postgres 7
      (codes "b2")
      (create_bot (codes "u2") sample_bot sample_targets)
      no_tables
    ≡ executed created_tables
unfolding execute created new_bot insert_bot write_targets insert_targets bot_checks target_checks
    targets_of targets_but symbol_pattern currency_pattern trim
created_bot = refl

Reachable-IsConsistent_example : IsConsistent sample_postgres created_tables
Reachable-IsConsistent_example =
    Reachable-IsConsistent sample_postgres created_tables (
      committed 7 (codes "b2") (create_bot (codes "u2") sample_bot sample_targets) empty
        created_bot)

abbrev deleted_response : Response Sample
deleted_response = ok (obj (field "status" (str (codes "deleted")) end)) 200

-- The owner deletes the bot.
sample_deletion :
    Leads sample_postgres
      (serve sample_env post_request bot_removal (codes "b1") sample_user)
      sample_tables
      no_tables
      (returned deleted_response)
unfolding serve remove_bot execute deleted with_uuids when_owned bots_but targets_but ok
sample_deletion = (
  some (record { returned = none; error = none }),
  no_tables,
  inl ((7, [], refl), refl),
  (refl, refl),
)

serve-Preserves_example : Preserves sample_postgres (codes "u1") sample_tables no_tables
serve-Preserves_example =
    serve-Preserves sample_postgres sample_env post_request bot_removal (codes "b1") sample_user
      sample_tables no_tables (returned deleted_response) sample_tables-IsConsistent sample_deletion

-- Another user tries to.
abbrev other_user : AuthedUser
other_user = record { id = codes "u2"; email = none; token = codes "t2" }

abbrev no_such_bot : PostgresError
no_such_bot = record { message = some (codes "bot not found"); code = some (codes "P0002") }

abbrev refused_run : Ending Sample (Response Sample)
refused_run = thrown (from_postgres no_such_bot)

-- An id that is no uuid undoes the call before the owner is asked for.
malformed_id :
    execute
      (record sample_postgres { uuid = λ t. none })
      7
      []
      (delete_bot (codes "u1") (codes "b1"))
      sample_tables
    ≡ undone bad_cast
unfolding execute with_uuids
malformed_id = refl

-- Any spelling of the ids is of the same bot.
other_spelling :
    execute
      (record sample_postgres {
        uuid = λ t. some (if text_eq t (codes "B1") then codes "b1" else t);
      })
      7
      []
      (delete_bot (codes "u1") (codes "B1"))
      sample_tables
    ≡ executed no_tables
unfolding execute with_uuids deleted when_owned bots_but targets_but
other_spelling = refl

running-planned_example :
    (plan : RebalancePlan) × (build_plan
        (pos 10_000_000)
        []
        (map to_target (map to_weighted (targets_of (codes "b1") sample_tables.targets)))
        (λ s. some (pos 10_000))
        (to_settings 25 running_bot)
      ≡ planned plan)
running-planned_example =
    running-planned sample_postgres sample_tables running_bot 25
      (map to_weighted (targets_of (codes "b1") sample_tables.targets)) 10_000_000 []
      (λ s. some (pos 10_000)) sample_tables-IsConsistent (inl refl) refl Perm.rfl
      (tt, λ s. omega arith) (λ s m. (9_999, refl))
