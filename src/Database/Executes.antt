-- ===== src/Database/Executes.antt =====
-- The procedures of supabase/migrations/20260101000200_api_functions.sql, all together.
use rebalance_webull.Prelude.{ℕ, ◌≡◌, inl, inr, Text, Option-cases}
use rebalance_webull.Api.Effects.{Procedure, create_bot, update_bot, delete_bot, set_bot_status}
use rebalance_webull.Database.Rows.{Postgres, Tables, stored_uuid}
use rebalance_webull.Database.Procedures.{
  Executed, executed, ◌>>=◌, cast, with_uuids, execute, stored_status,
}
use rebalance_webull.Database.Inversion.{undone-executed}
use rebalance_webull.Database.Consistent.{IsConsistent}
use rebalance_webull.Database.Preserved.{
  Preserves, writer_of, deleted-Preserves, status_set-Preserves,
}
use rebalance_webull.Database.Creates.{created-Preserves}
use rebalance_webull.Database.Updates.{updated-Preserves}

module _ {N : Type 0} (pg : Postgres N) where
  -- A call that commits had a uuid for its user.
  cast-executed :
      (t : Text) (next : Text → Executed Tables) (after : Tables)
      → (cast (pg.uuid t) >>= next) ≡ executed after
      → next (stored_uuid pg t) ≡ executed after
  cast-executed t next after e = elim (Option-cases (pg.uuid t)) [
    | inl bad ↦ absurd (undone-executed (rw bad at e))
    | inr (u, good) ↦ rw good (rw good at e)
  ]

  with_uuids-executed :
      (user id : Text) (next : Text → Text → Executed Tables) (after : Tables)
      → with_uuids pg user id next ≡ executed after
      → next (stored_uuid pg user) (stored_uuid pg id) ≡ executed after
  unfolding with_uuids
  with_uuids-executed user id next after e =
      cast-executed id (next (stored_uuid pg user)) after
        (cast-executed user (λ u. cast (pg.uuid id) >>= next u) after e)

  -- A procedure that commits keeps the tables consistent, and leaves the targets of every user other
  -- than the one that it is called for, and their bots but for the times of next runs.
  pub execute-Preserves :
      (now : ℕ) (fresh : Text) (p : Procedure N) (db after : Tables)
      → IsConsistent pg db
      → execute pg now fresh p db ≡ executed after
      → Preserves pg (stored_uuid pg (writer_of p)) db after
  unfolding execute
  execute-Preserves now fresh (create_bot user bot ts) db after c e =
      created-Preserves pg fresh (stored_uuid pg user) bot ts db after c
        (cast-executed user _ after e)
  execute-Preserves now fresh (update_bot user id p ts) db after c e =
      updated-Preserves pg (stored_uuid pg user) (stored_uuid pg id) p ts db after c
        (with_uuids-executed user id _ after e)
  execute-Preserves now fresh (delete_bot user id) db after c e =
      deleted-Preserves pg (stored_uuid pg user) (stored_uuid pg id) db after c
        (with_uuids-executed user id _ after e)
  execute-Preserves now fresh (set_bot_status user id status) db after c e =
      status_set-Preserves pg now (stored_uuid pg user) (stored_uuid pg id) (stored_status status)
        db after c (with_uuids-executed user id _ after e)
