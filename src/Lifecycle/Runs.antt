-- ===== src/Lifecycle/Runs.antt =====
-- backend/app/services/managed_agent_lifecycle.py: what its functions do to the table of runs.
use auto_script_hub.Prelude.{ℕ, String, Bool, Option, refl, Reply, ok, http}
use auto_script_hub.Store.{Db, Agent, User, IsSound}
use auto_script_hub.Store.Evolution.{Follows, Follows-refl}
use auto_script_hub.Store.Writes.{IsSound-write_runs}
use auto_script_hub.Lifecycle.{
  VersionSource, agent_or_404, waits_for, runs_on, stop_run, stop_active_work, disabled, enabled,
  deleted, disable_checks, delete_checks, carried, disable_agent, enable_agent, delete_agent,
}
use auto_script_hub.Lifecycle.Effects.{Follows-stop_active_work}

stop-IsSound :
    (id : ℕ) (reason : String) (actor_id now : ℕ) (db : Db)
    → IsSound db
    → IsSound (stop_active_work id reason actor_id now db)
unfolding stop_active_work
stop-IsSound id reason actor_id now db s =
    let first_write = IsSound-write_runs (waits_for id) (stop_run now _) db (λ r. refl) s in
    let k = IsSound-write_runs (runs_on id) (stop_run now _) _ (λ r. refl) first_write in
    record { keyed = k.keyed; below = k.below }

disabled-Follows :
    (agent : Agent) (actor : User) (now : ℕ) (db : Db)
    → IsSound db
    → Follows db.runs (disabled agent actor now db).runs × IsSound (disabled agent actor now db)
unfolding disabled
disabled-Follows agent actor now db s =
    let k = stop-IsSound agent.id "托管 Agent 已暂停接单" actor.id now db s in
    (
      Follows-stop_active_work agent.id "托管 Agent 已暂停接单" actor.id now db,
      record { keyed = k.keyed; below = k.below },
    )

deleted-Follows :
    (agent : Agent) (actor : User) (now : ℕ) (db : Db)
    → IsSound db
    → Follows db.runs (deleted agent actor now db).runs × IsSound (deleted agent actor now db)
unfolding deleted
deleted-Follows agent actor now db s =
    let k = stop-IsSound agent.id "Agent 已删除" actor.id now db s in
    (
      Follows-stop_active_work agent.id "Agent 已删除" actor.id now db,
      record { keyed = k.keyed; below = k.below },
    )

enabled-Follows :
    (agent : Agent) (actor : User) (now : ℕ) (db : Db)
    → IsSound db
    → Follows db.runs (enabled agent actor now db).runs × IsSound (enabled agent actor now db)
unfolding enabled
enabled-Follows agent actor now db s =
    (Follows-refl db.runs, record { keyed = s.keyed; below = s.below })

module _ (digest : VersionSource → String) where
  carried-Follows :
      (db : Db) (f : Agent → Db) (r : Reply Agent)
      → IsSound db
      → ((a : Agent) → Follows db.runs (f a).runs × IsSound (f a))
      → Follows db.runs (carried digest db f r).1.runs × IsSound (carried digest db f r).1
  carried-Follows db f (http c d) s h = (Follows-refl db.runs, s)
  carried-Follows db f (ok a) s h = h a

  pub disable_agent-Follows :
      (db : Db) (id : ℕ) (actor : User) (expected : Option String) (managed_only : Bool) (now : ℕ)
      → IsSound db
      → Follows db.runs (disable_agent digest db id actor expected managed_only now).1.runs
        × IsSound (disable_agent digest db id actor expected managed_only now).1
  unfolding disable_agent
  disable_agent-Follows db id actor expected managed_only now s =
      carried-Follows db (λ a. disabled a actor now db)
        (disable_checks digest db id expected managed_only) s
        (λ a. disabled-Follows a actor now db s)

  pub enable_agent-Follows :
      (db : Db) (id : ℕ) (actor : User) (managed_only : Bool) (now : ℕ)
      → IsSound db
      → Follows db.runs (enable_agent digest db id actor managed_only now).1.runs
        × IsSound (enable_agent digest db id actor managed_only now).1
  unfolding enable_agent
  enable_agent-Follows db id actor managed_only now s =
      carried-Follows db (λ a. enabled a actor now db) (agent_or_404 db id managed_only) s
        (λ a. enabled-Follows a actor now db s)

  pub delete_agent-Follows :
      (db : Db) (id : ℕ) (actor : User) (expected : Option String)
      (require_preview managed_only : Bool) (now : ℕ)
      → IsSound db
      → Follows db.runs
          (delete_agent digest db id actor expected require_preview managed_only now).1.runs
        × IsSound (delete_agent digest db id actor expected require_preview managed_only now).1
  unfolding delete_agent
  delete_agent-Follows db id actor expected require_preview managed_only now s =
      carried-Follows db (λ a. deleted a actor now db)
        (delete_checks digest db id expected require_preview managed_only) s
        (λ a. deleted-Follows a actor now db s)
