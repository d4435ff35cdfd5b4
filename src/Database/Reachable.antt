-- ===== src/Database/Reachable.antt =====
-- The tables that the procedures of supabase/migrations and the engine can come to.
use rebalance_webull.Prelude.{ℕ, ◌≡◌, [], Text}
use rebalance_webull.Api.Effects.{Procedure}
use rebalance_webull.Database.Rows.{Postgres, Tables}
use rebalance_webull.Database.Procedures.{executed, execute}
use rebalance_webull.Database.Consistent.{IsConsistent}
use rebalance_webull.Database.Executes.{execute-Preserves}
use rebalance_webull.Database.Reschedules.{Rescheduled, Rescheduled-Preserves}

module _ {N : Type 0} (pg : Postgres N) where
  -- The tables begin empty. A procedure of any user commits at some time, with some new id, or the
  -- engine sets times of next runs.
  pub data Reachable : Tables → Type 0 where
    empty : Reachable (record { bots = []; targets = [] })
    committed :
        {db after : Tables} (now : ℕ) (fresh : Text) (p : Procedure N)
        → Reachable db
        → execute pg now fresh p db ≡ executed after
        → Reachable after
    rescheduled :
        {db after : Tables}
        → Reachable db
        → Rescheduled db.bots after.bots
        → after.targets ≡ db.targets
        → Reachable after

  -- Whatever procedures are called, for whichever users and with whatever arguments, valid or not,
  -- the tables are consistent: the ids are distinct, every row passes its checks, each target is of a
  -- bot of its own user, no bot has two targets of one symbol, each basket is empty or totals 10000,
  -- and that of a running bot is not empty.
  pub Reachable-IsConsistent : (db : Tables) → Reachable db → IsConsistent pg db
  Reachable-IsConsistent _ empty = record { sound = tt; keyed = tt; kept = tt; unique = tt }
  Reachable-IsConsistent _ (committed {db} {after} now fresh p r e) =
      (execute-Preserves pg now fresh p db after (Reachable-IsConsistent db r) e).consistent
  Reachable-IsConsistent _ (rescheduled {db} {after} r h e) =
      (Rescheduled-Preserves pg [] db after (Reachable-IsConsistent db r) h e).consistent
