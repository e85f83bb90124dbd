-- ===== src/Lifecycle.antt =====
-- backend/app/services/managed_agent_lifecycle.py: an admin disables, enables or deletes an agent,
-- after a preview of what it touches. Each function is one transaction; `commit=False` only leaves
-- the commit to the caller.
-- The version of a preview is the SHA-256 of a JSON text: the digest is a parameter of what it is
-- taken of. The messages of `identity_recovery` and `history_policy` are left out, and so is the
-- `detail` of an audit entry.
pub mod Effects
pub mod Preview
pub mod Runs
use Prim.Native.String.{◌++◌ as str_append}
use auto_script_hub.Prelude.{
  ℕ, String, Bool, true, false, not, ◌&&◌, ◌||◌, Option, none, some, List, [], ◌∷◌, ◌++◌, ◌==◌, ltb,
  Reply, ok, http, ◌>>=◌, ◌>>◌, require, expect, first, select, order_by, update_where, map, opt_is,
  is_some, if◌then◌else◌, str_eq, length,
}
use auto_script_hub.Store.{
  Db, Agent, User, Run, Schedule, AuditLog, Status, Presence, is_managed, is_pending, is_running,
  cancelled, offline, add_audit,
}
use auto_script_hub.Access.{member_of}

pub data Action : Type 0 where
  disable delete : Action

abbrev pub manageable : ℕ → Bool → Agent → Bool
manageable id managed_only a =
    a.id == id && (not a.is_deleted && (not managed_only || is_managed a.mode))

abbrev pub missing_agent : Bool → String
missing_agent true = "托管 Agent 不存在或不可用"
missing_agent false = "Agent 不存在"

unfoldable pub agent_or_404 : Db → ℕ → Bool → Reply Agent
agent_or_404 db id managed_only =
    expect (first (manageable id managed_only) db.agents) 404 (missing_agent managed_only)

-- The runs and schedules of an agent.
abbrev pub waits_for : ℕ → Run → Bool
waits_for id r = opt_is r.target_agent_id id && (is_pending r.status && not r.is_deleted)

abbrev pub runs_on : ℕ → Run → Bool
runs_on id r =
    (opt_is r.target_agent_id id || opt_is r.agent_id id)
    && (is_running r.status && not r.is_deleted)

abbrev pub planned_on : ℕ → Schedule → Bool
planned_on id s = s.agent_id == id && not s.is_deleted

abbrev pub by_run : Run → Run → Bool
by_run a b = ltb a.id b.id

-- What the version is taken of.
pub record AgentState : Type 0 where
  pub id : ℕ
  pub enabled : Bool
  pub status : Presence
  pub updated_at : ℕ
  pub thumbnail_updated_at : Option ℕ
  pub thumbnail_size : Option ℕ
  pub thumbnail_exists : Bool

pub record RunState : Type 0 where
  pub id : ℕ
  pub status : Status
  pub updated_at : ℕ

pub record PlanState : Type 0 where
  pub id : ℕ
  pub enabled : Bool
  pub is_deleted : Bool
  pub updated_at : ℕ

pub record VersionSource : Type 0 where
  pub action : Action
  pub agent : AgentState
  pub pending : List RunState
  pub running : List RunState
  pub schedules : List PlanState

pub record Impact : Type 0 where
  pub action : Action
  pub agent_id : ℕ
  pub machine_name : String
  pub version : String
  pub pending_count : ℕ
  pub running_count : ℕ
  pub enabled_schedule_count : ℕ
  pub paused_schedule_count : ℕ
  pub thumbnail_exists : Bool

abbrev pub run_state : Run → RunState
run_state r = record { id = r.id; status = r.status; updated_at = r.updated_at }

abbrev pub plan_state : Schedule → PlanState
plan_state s = record {
  id = s.id;
  enabled = s.enabled;
  is_deleted = s.is_deleted;
  updated_at = s.updated_at;
}

abbrev pub has_thumbnail : Db → ℕ → Bool
has_thumbnail db id = member_of id db.thumbnails

unfoldable pub pending_of : Db → ℕ → List Run
pending_of db id = order_by by_run (select (waits_for id) db.runs)

unfoldable pub running_of : Db → ℕ → List Run
running_of db id = order_by by_run (select (runs_on id) db.runs)

unfoldable pub schedules_of : Db → ℕ → List Schedule
schedules_of db id = order_by (λ a b. ltb a.id b.id) (select (planned_on id) db.schedules)

unfoldable pub version_source : Db → Agent → Action → VersionSource
version_source db agent action = record {
  action = action;
  agent = record {
    id = agent.id;
    enabled = agent.enabled;
    status = agent.status;
    updated_at = agent.updated_at;
    thumbnail_updated_at = agent.thumbnail_updated_at;
    thumbnail_size = agent.thumbnail_size;
    thumbnail_exists = has_thumbnail db agent.id;
  };
  pending = map run_state (pending_of db agent.id);
  running = map run_state (running_of db agent.id);
  schedules = map plan_state (schedules_of db agent.id);
}

-- _stop_active_work
abbrev pub stop_run : ℕ → String → Run → Run
stop_run now message r = record r {
  status = cancelled;
  finished_at = some now;
  error_msg = some message;
  updated_at = now;
}

abbrev pub enabled_on : ℕ → Schedule → Bool
enabled_on id s = s.agent_id == id && (s.enabled && not s.is_deleted)

abbrev pub pause : ℕ → ℕ → Schedule → Schedule
pause now actor_id s = record s { enabled = false; updated_by = actor_id; updated_at = now }

unfoldable pub stop_active_work : ℕ → String → ℕ → ℕ → Db → Db
stop_active_work agent_id reason actor_id now db =
    let withdrawn =
      update_where (waits_for agent_id) (stop_run now (str_append reason "，待执行任务已取消")) db.runs in
    record db {
      runs =
          update_where (runs_on agent_id) (stop_run now (str_append reason "，运行中任务已取消，客户端将终止进程"))
            withdrawn;
      schedules = update_where (enabled_on agent_id) (pause now actor_id) db.schedules;
    }

abbrev pub agent_key : ℕ → Agent → Bool
agent_key id a = a.id == id

abbrev pub set_agent : ℕ → (Agent → Agent) → Db → Db
set_agent id f db = record db { agents = update_where (agent_key id) f db.agents }

abbrev pub lifecycle_entry : User → String → ℕ → ℕ → AuditLog
lifecycle_entry actor action agent_id now = record {
  user_id = some actor.id;
  username = some actor.username;
  action = action;
  target_type = some "agent";
  target_id = some agent_id;
  detail = none;
  created_at = now;
}

abbrev pub switch_off : ℕ → Agent → Agent
switch_off now a = record a { enabled = false; status = offline; updated_at = now }

abbrev pub switch_on : ℕ → Agent → Agent
switch_on now a = record a { enabled = true; status = offline; updated_at = now }

abbrev pub remove : ℕ → Agent → Agent
remove now a = record a {
  thumbnail_updated_at = none;
  thumbnail_size = none;
  enabled = false;
  is_deleted = true;
  status = offline;
  updated_at = now;
}

unfoldable pub without : ℕ → List ℕ → List ℕ
without n [] = []
without n (m ∷ ms) = let rest = without n ms in if m == n then rest else m ∷ rest

unfoldable pub disabled : Agent → User → ℕ → Db → Db
disabled agent actor now db =
    add_audit (lifecycle_entry actor "managed_agent.disable" agent.id now) (
      set_agent agent.id (switch_off now)
        (stop_active_work agent.id "托管 Agent 已暂停接单" actor.id now db))

unfoldable pub enabled : Agent → User → ℕ → Db → Db
enabled agent actor now db =
    add_audit (lifecycle_entry actor "managed_agent.enable" agent.id now)
      (set_agent agent.id (switch_on now) db)

-- delete_thumbnail removes the file, if it is there.
abbrev pub drop_thumbnail : ℕ → Db → Db
drop_thumbnail id db = record db { thumbnails = without id db.thumbnails }

unfoldable pub deleted : Agent → User → ℕ → Db → Db
deleted agent actor now db = add_audit (lifecycle_entry actor "managed_agent.delete" agent.id now) (
    set_agent agent.id (remove now)
      (drop_thumbnail agent.id (stop_active_work agent.id "Agent 已删除" actor.id now db)))

module _ (digest : VersionSource → String) where
  unfoldable pub snapshot : Db → Agent → Action → Impact
  snapshot db agent action =
      let schedules = schedules_of db agent.id in
      record {
        action = action;
        agent_id = agent.id;
        machine_name = agent.machine_name;
        version = digest (version_source db agent action);
        pending_count = length (pending_of db agent.id);
        running_count = length (running_of db agent.id);
        enabled_schedule_count = length (select (λ (s : Schedule). s.enabled) schedules);
        paused_schedule_count = length (select (λ (s : Schedule). not s.enabled) schedules);
        thumbnail_exists = has_thumbnail db agent.id;
      }

  unfoldable pub preview_agent_impact : Db → ℕ → Action → Bool → Reply Impact
  preview_agent_impact db id action managed_only = do
    agent ← agent_or_404 db id managed_only
    ok (snapshot db agent action)

  unfoldable pub assert_current_version : Impact → Option String → Reply (Unit {0})
  assert_current_version impact none = http 409 "请先获取最新影响预览后再确认操作"
  assert_current_version impact (some v) =
      if str_eq v ""
      then http 409 "请先获取最新影响预览后再确认操作"
      else require (str_eq v impact.version) 409 "设备状态已变化，请刷新影响预览后重新确认"

  -- What is asked before the first write.
  unfoldable pub disable_checks : Db → ℕ → Option String → Bool → Reply Agent
  unfolding agent_or_404 assert_current_version snapshot
  disable_checks db id expected managed_only = do
    agent ← agent_or_404 db id managed_only
    assert_current_version (snapshot db agent disable) expected
    ok agent

  unfoldable pub delete_checks : Db → ℕ → Option String → Bool → Bool → Reply Agent
  unfolding agent_or_404 assert_current_version snapshot
  delete_checks db id expected require_preview managed_only = do
    agent ← agent_or_404 db id managed_only
    if require_preview then assert_current_version (snapshot db agent delete) expected else ok tt
    ok agent

  -- The transaction that follows the checks.
  abbrev pub carried : Db → (Agent → Db) → Reply Agent → Reply Agent × Db
  carried db f (http c d) = (http c d, db)
  carried db f (ok agent) = (ok agent, f agent)

  unfoldable pub disable_agent : Db → ℕ → User → Option String → Bool → ℕ → Reply Agent × Db
  disable_agent db id actor expected managed_only now =
      carried db (λ agent. disabled agent actor now db) (disable_checks db id expected managed_only)

  unfoldable pub enable_agent : Db → ℕ → User → Bool → ℕ → Reply Agent × Db
  enable_agent db id actor managed_only now =
      carried db (λ agent. enabled agent actor now db) (agent_or_404 db id managed_only)

  unfoldable pub delete_agent : Db → ℕ → User → Option String → Bool → Bool → ℕ → Reply Agent × Db
  delete_agent db id actor expected require_preview managed_only now =
      carried db (λ agent. deleted agent actor now db)
        (delete_checks db id expected require_preview managed_only)
