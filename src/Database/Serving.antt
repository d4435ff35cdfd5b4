-- ===== src/Database/Serving.antt =====
-- The handlers of supabase/functions/api run against the tables of supabase/migrations.
use mathlib.Core.Path.{subst}
use rebalance_webull.Prelude.{
  ℕ, ◌≡◌, ◌⊎◌, inl, inr, refl, sym, ◌∙◌, Option, none, some, Text, codes,
}
use rebalance_webull.Js.{Runtime}
use rebalance_webull.Api.Http.{ApiError, Response}
use rebalance_webull.Api.Effects.{
  Call, get_user, select, rpc, fetch, Reply, Returned, PostgresError, Procedure, create_bot,
  update_bot, delete_bot, set_bot_status, Program, done, throw, crash, ask, AllCalls,
}
use rebalance_webull.Api.Engine.{Env}
use rebalance_webull.Api.Auth.{AuthedUser}
use rebalance_webull.Api.App.{Request, Endpoint, serve}
use rebalance_webull.Api.Lawful.{IsLawful}
use rebalance_webull.Api.Lawful.Handlers.{serve-KeepsLaws}
use rebalance_webull.Database.Rows.{Postgres, Tables, stored_uuid}
use rebalance_webull.Database.Procedures.{
  Violation, bot_not_found, is_running, no_targets, bad_cast, check_violated, not_unique,
  unknown_user, unbalanced, executed, undone, execute,
}
use rebalance_webull.Database.Consistent.{IsConsistent}
use rebalance_webull.Database.Preserved.{Preserves, writer_of}
use rebalance_webull.Database.Reschedules.{Rescheduled, Rescheduled-Preserves}
use rebalance_webull.Database.Executes.{execute-Preserves}

-- The errors that the procedures raise. The words of the others are PostgreSQL's.
abbrev pub IsErrorOf : Violation → PostgresError → Type 0
IsErrorOf bot_not_found e = e.message ≡ some (codes "bot not found")
IsErrorOf is_running e = e.message ≡ some (codes "pause the bot before changing its configuration")
IsErrorOf no_targets e = e.message ≡ some (codes "add target holdings before starting this bot")
IsErrorOf not_unique e = e.code ≡ some (codes "23505")
IsErrorOf bad_cast e = Unit
IsErrorOf check_violated e = Unit
IsErrorOf unknown_user e = Unit
IsErrorOf unbalanced e = Unit

-- How a handler ends: with a value, an error of the API or another exception.
pub data Ending (N A : Type 0) : Type 0 where
  returned : A → Ending N A
  thrown : ApiError N → Ending N A
  crashed : Ending N A

module _ {N : Type 0} (pg : Postgres N) where
  -- A procedure ran, at some time and with some new id, and was committed or undone.
  abbrev pub Commits : Procedure N → Tables → Tables → Type 0
  Commits p db after = (now : ℕ) × (fresh : Text) × (execute pg now fresh p db ≡ executed after)

  abbrev pub Undoes : Procedure N → Tables → Violation → Type 0
  Undoes p db v = (now : ℕ) × (fresh : Text) × (execute pg now fresh p db ≡ undone v)

  -- What becomes of the tables in a call, by its reply: a procedure that commits has no error, and
  -- one that does not has its own. Where the reply is lost, it may have been run or not. The engine
  -- writes no targets, and of a bot only the time of its next run; reads write nothing.
  abbrev pub Answered : (c : Call N) → Reply c → Tables → Tables → Type 0
  Answered (get_user token) reply db after = after ≡ db
  Answered (select token query) reply db after = after ≡ db
  Answered (fetch request) reply db after =
      Rescheduled db.bots after.bots × after.targets ≡ db.targets
  Answered (rpc p) none db after = (after ≡ db) ⊎ Commits p db after
  Answered (rpc p) (some reply) db after =
      (Commits p db after × reply.error ≡ none)
      ⊎ ((after ≡ db)
          × (v : Violation) × (e : PostgresError) × Undoes p db v
          × IsErrorOf v e
          × reply.error ≡ some e)

  -- A run of a handler, from some tables to others and to an ending.
  abbrev pub Leads : {A : Type 0} → Program N A → Tables → Tables → Ending N A → Type 0
  Leads (done a) db after ending = (after ≡ db) × ending ≡ returned a
  Leads (throw e) db after ending = (after ≡ db) × ending ≡ thrown e
  Leads crash db after ending = (after ≡ db) × ending ≡ crashed
  Leads (ask c k) db after ending =
      (reply : Reply c) × (mid : Tables) × Answered c reply db mid
      × Leads (k reply) mid after ending

  Preserves-same :
      (user : Text) (db after : Tables)
      → IsConsistent pg db
      → after ≡ db
      → Preserves pg user db after
  Preserves-same user db after c e =
      subst (Preserves pg user db) (sym e)
        (record { consistent = c; others_bots_kept = refl; others_targets_kept = refl })

  Preserves-trans :
      (user : Text) (db mid after : Tables)
      → Preserves pg user db mid
      → Preserves pg user mid after
      → Preserves pg user db after
  Preserves-trans user db mid after p q = record {
    consistent = q.consistent;
    others_bots_kept = q.others_bots_kept ∙ p.others_bots_kept;
    others_targets_kept = q.others_targets_kept ∙ p.others_targets_kept;
  }

  Commits-Preserves :
      (user : Text) (p : Procedure N) (db after : Tables)
      → writer_of p ≡ user
      → IsConsistent pg db
      → Commits p db after
      → Preserves pg (stored_uuid pg user) db after
  Commits-Preserves user p db after w c (now, fresh, e) =
      subst (λ u. Preserves pg (stored_uuid pg u) db after) w
        (execute-Preserves pg now fresh p db after c e)

  rpc-Preserves :
      (user : Text) (p : Procedure N) (reply : Option (Returned N)) (db after : Tables)
      → writer_of p ≡ user
      → IsConsistent pg db
      → Answered (rpc p) reply db after
      → Preserves pg (stored_uuid pg user) db after
  rpc-Preserves user p none db after w c (inl same) =
      Preserves-same (stored_uuid pg user) db after c same
  rpc-Preserves user p none db after w c (inr ran) = Commits-Preserves user p db after w c ran
  rpc-Preserves user p (some reply) db after w c (inl (ran, _)) =
      Commits-Preserves user p db after w c ran
  rpc-Preserves user p (some reply) db after w c (inr (same, _, _, _, _, _)) =
      Preserves-same (stored_uuid pg user) db after c same

  module _ ⦃r : Runtime N⦄ where
    writer_of-IsLawful :
        (user : AuthedUser) (p : Procedure N) → IsLawful user (rpc p) → writer_of p ≡ user.id
    writer_of-IsLawful user (create_bot owner bot ts) h = h.0
    writer_of-IsLawful user (update_bot owner id p ts) h = h.0
    writer_of-IsLawful user (delete_bot owner id) h = h
    writer_of-IsLawful user (set_bot_status owner id status) h = h

    Leads-Preserves :
        {A : Type 0} (user : AuthedUser) (p : Program N A) (db after : Tables) (ending : Ending N A)
        → AllCalls (IsLawful user) p
        → IsConsistent pg db
        → Leads p db after ending
        → Preserves pg (stored_uuid pg user.id) db after
    Leads-Preserves user (done a) db after ending l c h =
        Preserves-same (stored_uuid pg user.id) db after c h.0
    Leads-Preserves user (throw e) db after ending l c h =
        Preserves-same (stored_uuid pg user.id) db after c h.0
    Leads-Preserves user crash db after ending l c h =
        Preserves-same (stored_uuid pg user.id) db after c h.0
    Leads-Preserves user (ask (get_user token) k) db after ending l c h = absurd l.0
    Leads-Preserves user (ask (select token query) k) db after ending l c (reply, mid, same, h) =
        let first = Preserves-same (stored_uuid pg user.id) db mid c same in
        Preserves-trans (stored_uuid pg user.id) db mid after first
          (Leads-Preserves user (k reply) mid after ending (l.1 reply) first.consistent h)
    Leads-Preserves user (ask (fetch request) k) db after ending l c (reply, mid, set, h) =
        let first = Rescheduled-Preserves pg (stored_uuid pg user.id) db mid c set.0 set.1 in
        Preserves-trans (stored_uuid pg user.id) db mid after first
          (Leads-Preserves user (k reply) mid after ending (l.1 reply) first.consistent h)
    Leads-Preserves user (ask (rpc p) k) db after ending l c (reply, mid, answer, h) =
        let first = rpc-Preserves user.id p reply db mid (writer_of-IsLawful user p l.0) c answer in
        Preserves-trans (stored_uuid pg user.id) db mid after first
          (Leads-Preserves user (k reply) mid after ending (l.1 reply) first.consistent h)

    -- Whatever handler serves a request of a user, with whatever replies, and however it ends, tables
    -- that are consistent before it are so after it, and the bots and targets of every other user
    -- are as they were, but for the times of next runs, which the engine may set. A user owns what is
    -- stored with the uuid that the user's id is cast to, whatever text stands for it. Consistent means
    -- that the ids are distinct, every row passes its checks, each target is of a bot of its own
    -- user, no bot has two targets of one symbol, each basket is empty or totals 10000, and that of a
    -- running bot is not empty.
    pub serve-Preserves :
        (env : Env) (req : Request N) (endpoint : Endpoint) (id : Text) (user : AuthedUser)
        (db after : Tables) (ending : Ending N (Response N))
        → IsConsistent pg db
        → Leads (serve env req endpoint id user) db after ending
        → Preserves pg (stored_uuid pg user.id) db after
    serve-Preserves env req endpoint id user db after ending c h =
        Leads-Preserves user (serve env req endpoint id user) db after ending
          (serve-KeepsLaws N env req endpoint id user) c h
