-- ===== src/Managed.antt =====
-- backend/app/routers/managed.py: what an admin sends to a managed device, at once or again.
-- A handler reads its agent, owner and runs before run_dispatch.py takes the write lock: `seen` is the
-- database of these reads, `db` the one that the run is created in. The number of the running run in
-- the text of a refusal is left out, and so is the detail of an audit entry.
pub mod Rules
pub mod Schedules
pub mod Sending
pub mod RunNow
pub mod Laws
pub mod Single
pub mod Constraint
pub mod Kept
pub mod Due
use auto_script_hub.Prelude.{
  ℕ, String, Bool, true, false, not, ◌&&◌, ◌||◌, Option, none, some, List, ◌==◌, ◌+◌, ◌-◌, ◌*◌, ◌/◌,
  leb, Reply, ok, http, ◌>>=◌, ◌>>◌, require, expect, first, is_none, if◌then◌else◌, str_eq,
}
use auto_script_hub.Store.{
  Db, Agent, User, Run, AuditLog, Status, failed, cancelled, expired, Dispatch, standard_run,
  managed_manual, managed_schedule, is_managed, run_key, add_audit, second,
}
use auto_script_hub.Store.Writes.{write_runs}
use auto_script_hub.Users.{require_admin}
use auto_script_hub.Lifecycle.{runs_on}
use auto_script_hub.Contract.Params.{Values, Value}
use auto_script_hub.Dispatch.{Json, Order, create_validated_run}
use auto_script_hub.Scheduler.Scan.{is_owner}

abbrev pub is_managed_agent : ℕ → Bool → Agent → Bool
is_managed_agent id require_enabled a =
    a.id == id && (is_managed a.mode && (not a.is_deleted && (not require_enabled || a.enabled)))

-- _managed_agent_or_404
unfoldable pub managed_agent_or_404 : Db → ℕ → Bool → Reply Agent
managed_agent_or_404 db id require_enabled =
    expect (first (is_managed_agent id require_enabled) db.agents) 404 "托管 Agent 不存在或不可用"

unfoldable pub owner_or_409 : Db → Agent → Reply User
owner_or_409 db agent = expect (first (is_owner agent.user_id) db.users) 409 "Agent 所属用户不可用"

-- `if running: raise`, with what the handler says.
unfoldable pub nothing_runs : Db → Agent → String → Reply (Unit {0})
nothing_runs db agent detail = require (is_none (first (runs_on agent.id) db.runs)) 409 detail

abbrev pub managed_entry : User → String → String → ℕ → ℕ → AuditLog
managed_entry actor action target_type target_id now = record {
  user_id = some actor.id;
  username = some actor.username;
  action = action;
  target_type = some target_type;
  target_id = some target_id;
  detail = none;
  created_at = now;
}

-- write_audit, once the run is committed.
unfoldable pub noted : User → String → ℕ → Reply Run × Db → Reply Run × Db
noted actor action now (http c d, db) = (http c d, db)
noted actor action now (ok r, db) = (ok r, add_audit (managed_entry actor action "run" r.id now) db)

abbrev pub is_managed_run : Dispatch → Bool
is_managed_run standard_run = false
is_managed_run managed_manual = true
is_managed_run managed_schedule = true

abbrev pub is_retried : Status → Bool
is_retried failed = true
is_retried cancelled = true
is_retried expired = true
is_retried _ = false

abbrev pub original_at : ℕ → Run → Bool
original_at id r = r.id == id && (is_managed_run r.dispatch_type && not r.is_deleted)

abbrev pub clamp : ℕ → ℕ → ℕ → ℕ
clamp low high n = if leb n low then low else if leb high n then high else n

-- The seconds that a retry may wait, as long as the original could.
unfoldable pub lifetime_seconds : Option ℕ → Option ℕ → ℕ
lifetime_seconds (some from) (some to) = clamp 60 604_800 ((to - from) / second)
lifetime_seconds _ _ = 3600

abbrev pub mark_retry : ℕ → Run → Run
mark_retry original_id r = record r { retry_of_run_id = some original_id }

-- The new run's row says which run it repeats.
unfoldable pub marked : ℕ → Reply Run × Db → Reply Run × Db
marked original_id (http c d, db) = (http c d, db)
marked original_id (ok r, db) =
    (ok (mark_retry original_id r), write_runs (run_key r.id) (mark_retry original_id) db)

-- json.loads(text or "{}")
abbrev pub params_or_empty : Option String → String
params_or_empty none = "{}"
params_or_empty (some t) = if str_eq t "" then "{}" else t

module _ (V : Values) (json : Json V) where
  open json use {load_values}

  pub record ManagedRunCreate : Type 0 where
    pub script_id : ℕ
    pub params : List (String × Value V)
    pub environment_id : Option ℕ
    pub expires_in_seconds : ℕ

  unfoldable pub dispatch_checks : Db → ℕ → User → Reply (Agent × User)
  unfolding managed_agent_or_404 owner_or_409 nothing_runs
  dispatch_checks db agent_id actor = do
    require_admin actor
    agent ← managed_agent_or_404 db agent_id true
    owner ← owner_or_409 db agent
    nothing_runs db agent "设备正在执行任务，暂时不能下发临时任务"
    ok (agent, owner)

  abbrev pub manual_order : ManagedRunCreate → Agent → User → ℕ → Order V json
  manual_order q agent actor now = record {
    script_id = q.script_id;
    params = q.params;
    environment_id = q.environment_id;
    requested_by = some actor.id;
    dispatch_type = managed_manual;
    target_agent_id = some agent.id;
    schedule_id = none;
    scheduled_for = some now;
    expires_at = some (now + q.expires_in_seconds * second);
  }

  unfoldable pub dispatched :
      ManagedRunCreate → User → ℕ → Db → Reply (Agent × User) → Reply Run × Db
  unfolding create_validated_run noted
  dispatched q actor now db (http c d) = (http c d, db)
  dispatched q actor now db (ok (agent, owner)) =
      noted actor "managed_run.dispatch" now
        (create_validated_run V json owner (manual_order q agent actor now) now db)

  unfoldable pub dispatch_managed_run : ℕ → ManagedRunCreate → User → ℕ → Db → Db → Reply Run × Db
  unfolding dispatch_checks dispatched
  dispatch_managed_run agent_id q actor now seen db =
      dispatched q actor now db (dispatch_checks seen agent_id actor)

  -- What retry_managed_run has read when it creates the run.
  pub record Retry : Type 0 where
    pub original : Run
    pub agent : Agent
    pub owner : User
    pub params : List (String × Value V)

  -- A text that is not JSON, and one that is not an object, are one case here.
  unfoldable pub retry_checks : Db → ℕ → User → Reply Retry
  unfolding managed_agent_or_404 owner_or_409 nothing_runs
  retry_checks db run_id actor = do
    require_admin actor
    original ← expect (first (original_at run_id) db.runs) 404 "托管运行记录不存在"
    require (is_retried original.status) 409 "仅失败、过期或已取消的托管任务可重试"
    target ← expect original.target_agent_id 409 "原任务没有目标设备，无法重试"
    agent ← managed_agent_or_404 db target true
    owner ← owner_or_409 db agent
    nothing_runs db agent "设备正在执行任务，暂时不能重试"
    params ← expect (load_values (params_or_empty original.params)) 409 "原任务参数已损坏，无法重试"
    ok (record { original = original; agent = agent; owner = owner; params = params })

  abbrev pub retry_order : Retry → User → ℕ → Order V json
  retry_order x actor now = record {
    script_id = x.original.script_id;
    params = x.params;
    environment_id = x.original.environment_id;
    requested_by = some actor.id;
    dispatch_type = x.original.dispatch_type;
    target_agent_id = some x.agent.id;
    schedule_id = x.original.schedule_id;
    scheduled_for = some now;
    expires_at =
        some (now + lifetime_seconds x.original.scheduled_for x.original.expires_at * second);
  }

  unfoldable pub retried : User → ℕ → Db → Reply Retry → Reply Run × Db
  unfolding create_validated_run noted marked lifetime_seconds
  retried actor now db (http c d) = (http c d, db)
  retried actor now db (ok x) =
      noted actor "managed_run.retry" now (
        marked x.original.id (create_validated_run V json x.owner (retry_order x actor now) now db))

  unfoldable pub retry_managed_run : ℕ → User → ℕ → Db → Db → Reply Run × Db
  unfolding retry_checks retried
  retry_managed_run run_id actor now seen db = retried actor now db (retry_checks seen run_id actor)
