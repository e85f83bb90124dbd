-- ===== src/Managed/Schedules.antt =====
-- backend/app/routers/managed.py: an admin plans runs of a managed device, changes, stops and deletes a plan.
-- `now` is the one instant of a handler. An exception that no handler catches is the reply 500.
use auto_script_hub.Prelude.{
  ℕ, suc, String, Bool, true, false, not, ◌&&◌, ◌||◌, Option, none, some, List, [], ◌∷◌, ◌++◌, ◌==◌,
  Reply, ok, ◌>>=◌, ◌>>◌, require, expect, first, update_where, is_some, opt_is, if◌then◌else◌,
  strip,
}
use auto_script_hub.Store.{
  Db, Agent, User, Run, Schedule, ScheduleType, cancelled, is_pending, add_audit,
}
use auto_script_hub.Users.{require_admin, given}
use auto_script_hub.Contract.Params.{Values, Value}
use auto_script_hub.Dispatch.{Json, validate_run_request}
use auto_script_hub.Scheduler.Scan.{schedule_key}
use auto_script_hub.Managed.{managed_agent_or_404, managed_entry, params_or_empty}
use auto_script_hub.Managed.Rules.{
  Clock, Rule, rule_of, is_cron, in_bounds, in_bounds_of, wait_in_bounds, validate_rule,
  changed_rule, first_time,
}

abbrev pub is_schedule_at : ℕ → Schedule → Bool
is_schedule_at id s = s.id == id && not s.is_deleted

-- _schedule_or_404
unfoldable pub schedule_or_404 : Db → ℕ → Reply Schedule
schedule_or_404 db id = expect (first (is_schedule_at id) db.schedules) 404 "托管计划不存在"

abbrev pub is_kept_user : ℕ → User → Bool
is_kept_user id u = u.id == id && not u.is_deleted

-- The owner as the handlers of schedules ask for it, who need not be active.
unfoldable pub kept_owner : Db → Agent → Reply User
kept_owner db agent = expect (first (is_kept_user agent.user_id) db.users) 409 "Agent 所属用户不可用"

abbrev pub write_schedules : (Schedule → Bool) → (Schedule → Schedule) → Db → Db
write_schedules p f db = record db { schedules = update_where p f db.schedules }

abbrev pub add_schedule : (ℕ → Schedule) → Db → Db
add_schedule make db = record db {
  schedules = db.schedules ++ make db.next_schedule_id ∷ [];
  next_schedule_id = suc db.next_schedule_id;
}

abbrev pub schedule_noted : User → String → ℕ → ℕ → Db → Db
schedule_noted actor action id now db =
    add_audit (managed_entry actor action "managed_schedule" id now) db

abbrev pub switch_schedule : Bool → User → ℕ → Schedule → Schedule
switch_schedule on actor now s = record s { enabled = on; updated_by = actor.id; updated_at = now }

abbrev pub restart : ℕ → User → ℕ → Schedule → Schedule
restart cursor actor now s = record s {
  enabled = true;
  next_run_at = cursor;
  updated_by = actor.id;
  updated_at = now;
}

abbrev pub remove_schedule : User → ℕ → Schedule → Schedule
remove_schedule actor now s = record s {
  enabled = false;
  is_deleted = true;
  updated_by = actor.id;
  updated_at = now;
}

abbrev pub is_waiting_of : ℕ → Run → Bool
is_waiting_of id r = opt_is r.schedule_id id && (is_pending r.status && not r.is_deleted)

abbrev pub withdraw : ℕ → Run → Run
withdraw now r = record r {
  status = cancelled;
  finished_at = some now;
  error_msg = some "托管计划已删除，待执行任务已取消";
  updated_at = now;
}

unfoldable pub disable_managed_schedule : ℕ → User → ℕ → Db → Reply Db
unfolding schedule_or_404
disable_managed_schedule id actor now db = do
  require_admin actor
  schedule ← schedule_or_404 db id
  ok (
      schedule_noted actor "managed_schedule.disable" id now
        (write_schedules (schedule_key id) (switch_schedule false actor now) db))

-- The schedule goes, and its runs that wait.
unfoldable pub without_schedule : ℕ → User → ℕ → Db → Db
without_schedule id actor now db = record db {
  schedules = update_where (schedule_key id) (remove_schedule actor now) db.schedules;
  runs = update_where (is_waiting_of id) (withdraw now) db.runs;
}

unfoldable pub delete_managed_schedule : ℕ → User → ℕ → Db → Reply Db
unfolding schedule_or_404 without_schedule
delete_managed_schedule id actor now db = do
  require_admin actor
  schedule ← schedule_or_404 db id
  ok (schedule_noted actor "managed_schedule.delete" id now (without_schedule id actor now db))

module _ (clock : Clock) where
  unfoldable pub enable_managed_schedule : ℕ → User → ℕ → Db → Reply Db
  unfolding schedule_or_404 managed_agent_or_404 first_time
  enable_managed_schedule id actor now db = do
    require_admin actor
    schedule ← schedule_or_404 db id
    agent ← managed_agent_or_404 db schedule.agent_id true
    cursor ← first_time clock (rule_of schedule) now
    ok (
        schedule_noted actor "managed_schedule.enable" id now
          (write_schedules (schedule_key id) (restart cursor actor now) db))

  module _ (V : Values) (json : Json V) where
    open json use {load_values, dump_values}

    pub record ScheduleCreate : Type 0 where
      pub name : String
      pub agent_id : ℕ
      pub script_id : ℕ
      pub params : List (String × Value V)
      pub environment_id : Option ℕ
      pub schedule_type : ScheduleType
      pub interval_seconds : Option ℕ
      pub cron_expression : Option String
      pub timezone : String
      pub expires_after_seconds : ℕ
      pub enabled : Bool
      pub next_run_at : Option ℕ

    -- `none` is a field that is not set; a nullable field may be set to null.
    pub record ScheduleUpdate : Type 0 where
      pub name : Option String
      pub agent_id : Option ℕ
      pub script_id : Option ℕ
      pub params : Option (List (String × Value V))
      pub environment_id : Option (Option ℕ)
      pub schedule_type : Option ScheduleType
      pub interval_seconds : Option (Option ℕ)
      pub cron_expression : Option (Option String)
      pub timezone : Option String
      pub expires_after_seconds : Option ℕ
      pub enabled : Option Bool
      pub next_run_at : Option ℕ

    -- `req.next_run_at`, which a cron rule does not look at, or the first occurrence.
    abbrev pub start_of : ScheduleCreate → Rule → ℕ → Reply ℕ
    start_of q r now = elim (if is_cron r.kind then none else q.next_run_at) [
      | none ↦ first_time clock r now
      | some t ↦ ok t
    ]

    abbrev pub new_schedule : ScheduleCreate → Rule → Agent → User → ℕ → ℕ → ℕ → Schedule
    new_schedule q r agent actor start now id = record {
      id = id;
      name = strip q.name;
      agent_id = agent.id;
      script_id = q.script_id;
      params = some (dump_values q.params);
      environment_id = q.environment_id;
      schedule_type = r.kind;
      interval_seconds = r.interval_seconds;
      cron_expression = r.cron_expression;
      timezone = r.timezone;
      expires_after_seconds = q.expires_after_seconds;
      enabled = q.enabled;
      next_run_at = start;
      last_run_at = none;
      last_missed_at = none;
      last_missed_reason = none;
      created_by = actor.id;
      updated_by = actor.id;
      created_at = now;
      updated_at = now;
      is_deleted = false;
    }

    unfoldable pub create_managed_schedule : ScheduleCreate → User → ℕ → Db → Reply Db
    unfolding strip validate_rule validate_run_request managed_agent_or_404 kept_owner first_time
    create_managed_schedule q actor now db = do
      require_admin actor
      require (in_bounds q.interval_seconds && wait_in_bounds q.expires_after_seconds) 422 ""
      rule ← validate_rule clock q.schedule_type q.interval_seconds q.cron_expression q.timezone
      agent ← managed_agent_or_404 db q.agent_id true
      owner ← kept_owner db agent
      script ← validate_run_request V json db owner q.script_id q.params q.environment_id
      start ← start_of q rule now
      ok (
          schedule_noted actor "managed_schedule.create" db.next_schedule_id now
            (add_schedule (new_schedule q rule agent actor start now) db))

    abbrev pub stripped : Option String → Option String
    stripped none = none
    stripped (some s) = some (strip s)

    -- The fields that the request sets, and the rule.
    unfoldable pub change_schedule :
        ScheduleUpdate → Rule → Option ℕ → User → ℕ → Schedule → Schedule
    unfolding strip
    change_schedule q r cursor actor now s = record s {
      name = given s.name (stripped q.name);
      agent_id = given s.agent_id q.agent_id;
      script_id = given s.script_id q.script_id;
      params = elim q.params [ none ↦ s.params | some ps ↦ some (dump_values ps) ];
      environment_id = given s.environment_id q.environment_id;
      schedule_type = r.kind;
      interval_seconds = r.interval_seconds;
      cron_expression = r.cron_expression;
      timezone = r.timezone;
      expires_after_seconds = given s.expires_after_seconds q.expires_after_seconds;
      enabled = given s.enabled q.enabled;
      next_run_at = given (given s.next_run_at q.next_run_at) cursor;
      updated_by = actor.id;
      updated_at = now;
    }

    abbrev pub rule_changed : ScheduleUpdate → Bool
    rule_changed q =
        is_some q.schedule_type
        || (is_some q.interval_seconds || (is_some q.cron_expression || is_some q.timezone))

    -- Whether the cursor is computed anew.
    unfoldable pub is_restarted : ScheduleUpdate → Rule → Schedule → Bool
    is_restarted q r s =
        rule_changed q
        || ((given false q.enabled && not s.enabled) || (is_cron r.kind && is_some q.next_run_at))

    unfoldable pub new_cursor : ScheduleUpdate → Rule → Schedule → ℕ → Reply (Option ℕ)
    unfolding is_restarted first_time
    new_cursor q r s now =
        if is_restarted q r s then (first_time clock r now >>= λ t. ok (some t)) else ok none

    unfoldable pub update_managed_schedule : ℕ → ScheduleUpdate → User → ℕ → Db → Reply Db
    unfolding change_schedule changed_rule validate_run_request managed_agent_or_404 kept_owner
        schedule_or_404 new_cursor
    update_managed_schedule id q actor now db = do
      require_admin actor
      require (in_bounds_of q.interval_seconds && wait_in_bounds (given 60 q.expires_after_seconds))
          422 ""
      schedule ← schedule_or_404 db id
      old ← expect (load_values (params_or_empty schedule.params)) 500 ""
      agent ← managed_agent_or_404 db (given schedule.agent_id q.agent_id) false
      require (agent.enabled || not (given schedule.enabled q.enabled)) 409 "设备已停用，只能维护暂停状态的已有计划"
      owner ← kept_owner db agent
      script ←
          validate_run_request V json db owner (given schedule.script_id q.script_id)
            (given old q.params) (given schedule.environment_id q.environment_id)
      rule ←
          changed_rule clock (given schedule.schedule_type q.schedule_type)
            (given schedule.interval_seconds q.interval_seconds)
            (given schedule.cron_expression q.cron_expression) (given schedule.timezone q.timezone)
      cursor ← new_cursor q rule schedule now
      ok (
          schedule_noted actor "managed_schedule.update" id now
            (write_schedules (schedule_key id) (change_schedule q rule cursor actor now) db))
