-- ===== src/Managed/RunNow.antt =====
-- backend/app/routers/managed.py: _create_schedule_run and run_managed_schedule_now, a plan's run at once.
-- As in the parent, `seen` is what is read before the write lock is taken.
use auto_script_hub.Prelude.{
  ℕ, String, true, some, List, ◌+◌, ◌*◌, Reply, ok, http, ◌>>=◌, ◌>>◌, require, expect, first,
  is_none,
}
use auto_script_hub.Store.{Db, Agent, User, Run, Schedule, managed_schedule, second}
use auto_script_hub.Users.{require_admin}
use auto_script_hub.Contract.Params.{Values, Value}
use auto_script_hub.Dispatch.{Json, Order, create_validated_run}
use auto_script_hub.Scheduler.Scan.{schedule_key, is_live_of}
use auto_script_hub.Managed.{managed_agent_or_404, owner_or_409, noted, params_or_empty}
use auto_script_hub.Managed.Schedules.{schedule_or_404, write_schedules}

abbrev pub stamp_run : User → ℕ → Schedule → Schedule
stamp_run actor now s = record s { last_run_at = some now; updated_by = actor.id; updated_at = now }

unfoldable pub stamped_run : ℕ → User → ℕ → Reply Run × Db → Reply Run × Db
stamped_run id actor now (http c d, db) = (http c d, db)
stamped_run id actor now (ok r, db) =
    (ok r, write_schedules (schedule_key id) (stamp_run actor now) db)

module _ (V : Values) (json : Json V) where
  open json use {load_values}

  pub record Planned : Type 0 where
    pub schedule : Schedule
    pub agent : Agent
    pub owner : User
    pub params : List (String × Value V)

  unfoldable pub run_now_checks : Db → ℕ → User → Reply Planned
  unfolding schedule_or_404 managed_agent_or_404 owner_or_409
  run_now_checks db id actor = do
    require_admin actor
    schedule ← schedule_or_404 db id
    require (is_none (first (is_live_of schedule.id) db.runs)) 409 "该计划已有待执行或执行中的任务"
    agent ← managed_agent_or_404 db schedule.agent_id true
    owner ← owner_or_409 db agent
    params ← expect (load_values (params_or_empty schedule.params)) 500 ""
    ok (record { schedule = schedule; agent = agent; owner = owner; params = params })

  abbrev pub planned_order : Planned → User → ℕ → Order V json
  planned_order x actor now = record {
    script_id = x.schedule.script_id;
    params = x.params;
    environment_id = x.schedule.environment_id;
    requested_by = some actor.id;
    dispatch_type = managed_schedule;
    target_agent_id = some x.agent.id;
    schedule_id = some x.schedule.id;
    scheduled_for = some now;
    expires_at = some (now + x.schedule.expires_after_seconds * second);
  }

  unfoldable pub launched_now : User → ℕ → Db → Reply Planned → Reply Run × Db
  unfolding create_validated_run stamped_run noted
  launched_now actor now db (http c d) = (http c d, db)
  launched_now actor now db (ok x) = noted actor "managed_schedule.run_now" now (
      stamped_run x.schedule.id actor now
        (create_validated_run V json x.owner (planned_order x actor now) now db))

  unfoldable pub run_managed_schedule_now : ℕ → User → ℕ → Db → Db → Reply Run × Db
  unfolding run_now_checks launched_now
  run_managed_schedule_now id actor now seen db =
      launched_now actor now db (run_now_checks seen id actor)
