-- ===== src/Scheduler/Scan.antt =====
-- backend/app/scheduler.py, _managed_schedule_scan: unclaimed work expires, and each due schedule
-- becomes a run or a recorded miss.
-- The SQLAlchemy session is part of the model, since the scan depends on it: it is opened with
-- autoflush off (backend/app/database.py), so a query sees what was flushed, an object shows what was
-- set on it, and `expire_all` in services/script_lifecycle.py, which create_validated_run calls first,
-- drops what was set and not flushed. New rows wait for the flush and are not dropped.
-- The text of the audit entries' `detail` is left out, and the scan is one transaction.
pub mod Cursors
pub mod Skips
pub mod Single
use auto_script_hub.Prelude.{
  ℕ, String, Bool, true, false, not, ◌&&◌, ◌||◌, Option, none, some, List, [], ◌∷◌, ◌++◌, ◌==◌, ◌+◌,
  ◌*◌, ltb, leb, Reply, ok, http, first, select, order_by, update_where, map, holds, opt_is,
  or_else, is_some, if◌then◌else◌, str_eq,
}
use auto_script_hub.Store.{
  Db, Agent, User, Run, Script, Schedule, AuditLog, is_active, is_managed, is_pending, is_live,
  expired, managed_schedule, run_key, second,
}
use auto_script_hub.Store.Writes.{add_run}
use auto_script_hub.Contract.Params.{Values, Value}
use auto_script_hub.Dispatch.{Json, Order, new_run, validate_run_request}
use auto_script_hub.Scheduler.Cursor.{CronNext, next_schedule_run}

-- `flushed` is what the database holds within the transaction, `live` what the session's objects
-- show, and `fresh` the audit entries that wait for the flush.
pub record Session : Type 0 where
  pub flushed : Db
  pub live : Db
  pub fresh : List AuditLog

abbrev pub opened : Db → Session
opened db = record { flushed = db; live = db; fresh = [] }

-- db.expire_all()
abbrev pub expire_all : Session → Session
expire_all s = record s { live = s.flushed }

-- db.flush() and db.commit(): what was set and what is new is written.
abbrev pub written : Session → Db
written s = record s.live { audit_logs = s.live.audit_logs ++ s.fresh }

abbrev pub committed : Option Session → Option Db
committed none = none
committed (some s) = some (written s)

-- What comes next, where no exception was raised.
abbrev pub and_then : Option Session → (Session → Option Session) → Option Session
and_then none f = none
and_then (some s) f = f s

abbrev pub set_runs : (Run → Bool) → (Run → Run) → Session → Session
set_runs p f s = record s { live = record s.live { runs = update_where p f s.live.runs } }

abbrev pub schedule_key : ℕ → Schedule → Bool
schedule_key i s = s.id == i

abbrev pub set_schedule : ℕ → (Schedule → Schedule) → Session → Session
set_schedule i f s = record s {
  live = record s.live { schedules = update_where (schedule_key i) f s.live.schedules };
}

abbrev pub add_entry : AuditLog → Session → Session
add_entry a s = record s { fresh = s.fresh ++ a ∷ [] }

abbrev pub entry : String → Option ℕ → String → ℕ → ℕ → AuditLog
entry action user_id target_type target_id now = record {
  user_id = user_id;
  username = some "scheduler";
  action = action;
  target_type = some target_type;
  target_id = some target_id;
  detail = none;
  created_at = now;
}

-- Pending runs that nobody claimed in time.
abbrev pub is_overdue : ℕ → Run → Bool
is_overdue now r = is_pending r.status && (holds (λ e. leb e now) r.expires_at && not r.is_deleted)

-- `run.error_msg or "任务超过领取有效期"`
abbrev pub kept_message : Option String → Option String
kept_message none = some "任务超过领取有效期"
kept_message (some m) = if str_eq m "" then some "任务超过领取有效期" else some m

abbrev pub expire_overdue : ℕ → Run → Run
expire_overdue now r = record r {
  status = expired;
  finished_at = some now;
  error_msg = kept_message r.error_msg;
  updated_at = now;
}

abbrev pub expire_entry : ℕ → Run → AuditLog
expire_entry now r = entry "managed_run.expire" r.requested_by "run" r.id now

unfoldable pub expire_runs : ℕ → Db → Session
expire_runs now db = record (set_runs (is_overdue now) (expire_overdue now) (opened db)) {
  fresh = map (expire_entry now) (select (is_overdue now) db.runs);
}

abbrev pub is_due : ℕ → Schedule → Bool
is_due now s = s.enabled && (not s.is_deleted && leb s.next_run_at now)

unfoldable pub due_ids : ℕ → Db → List ℕ
due_ids now db =
    map (λ (s : Schedule). s.id)
      (order_by (λ a b. ltb a.next_run_at b.next_run_at) (select (is_due now) db.schedules))

abbrev pub is_live_of : ℕ → Run → Bool
is_live_of schedule_id r =
    opt_is r.schedule_id schedule_id && (is_live r.status && not r.is_deleted)

abbrev pub is_target : ℕ → Agent → Bool
is_target id a = a.id == id && (is_managed a.mode && (a.enabled && not a.is_deleted))

abbrev pub is_owner : ℕ → User → Bool
is_owner id u = u.id == id && (is_active u.status && not u.is_deleted)

abbrev pub expires_of : Schedule → ℕ
expires_of schedule = schedule.next_run_at + schedule.expires_after_seconds * second

-- _record_schedule_miss
abbrev pub record_miss : ℕ → ℕ → String → Schedule → Schedule
record_miss now due_at reason s = record s {
  last_missed_at = some due_at;
  last_missed_reason = some reason;
  updated_at = now;
}

abbrev pub miss : ℕ → Schedule → String → Session → Session
miss now schedule reason s =
    add_entry
      (entry "managed_schedule.missed" (some schedule.created_by) "managed_schedule" schedule.id
        now)
      (set_schedule schedule.id (record_miss now schedule.next_run_at reason) s)

module _ (V : Values) (json : Json V) (next : CronNext) where
  open json use {load_values}

  -- What stands in the way of a due schedule, in the order in which it is asked.
  pub data Gate : Type 0 where
    late busy no_agent no_owner unreadable : Gate
    clear : Agent → User → List (String × Value V) → Gate

  -- json.loads(schedule.params or "{}")
  abbrev pub params_text : Option String → String
  params_text none = "{}"
  params_text (some t) = if str_eq t "" then "{}" else t

  gate_params : Agent → User → Option (List (String × Value V)) → Gate
  gate_params agent owner none = unreadable
  gate_params agent owner (some ps) = clear agent owner ps

  gate_owner : Schedule → Agent → Option User → Gate
  unfolding gate_params
  gate_owner schedule agent none = no_owner
  gate_owner schedule agent (some owner) =
      gate_params agent owner (load_values (params_text schedule.params))

  gate_agent : Db → Schedule → Option Agent → Gate
  unfolding gate_owner
  gate_agent db schedule none = no_agent
  gate_agent db schedule (some agent) =
      gate_owner schedule agent (first (is_owner agent.user_id) db.users)

  unfoldable pub gate : ℕ → Db → Schedule → Gate
  unfolding gate_agent
  gate now db schedule =
      if leb (expires_of schedule) now
      then late
      else if is_some (first (is_live_of schedule.id) db.runs)
      then busy
      else gate_agent db schedule (first (is_target schedule.agent_id) db.agents)

  abbrev pub order_of : Schedule → Agent → List (String × Value V) → Order V json
  order_of schedule agent ps = record {
    script_id = schedule.script_id;
    params = ps;
    environment_id = schedule.environment_id;
    requested_by = some schedule.created_by;
    dispatch_type = managed_schedule;
    target_agent_id = some agent.id;
    schedule_id = some schedule.id;
    scheduled_for = some schedule.next_run_at;
    expires_at = some (expires_of schedule);
  }

  abbrev pub set_last_run : ℕ → Schedule → Schedule
  set_last_run now s = record s { last_run_at = some now; updated_at = now }

  -- The flush with the new run: all that waits is written, and the objects show it.
  abbrev pub flush_run : ℕ → Script → User → Order V json → Session → Session
  flush_run now script owner o s = opened (add_run (new_run V json script owner o now) (written s))

  -- create_validated_run(commit=False) behind its `expire_all`, and what follows it.
  unfoldable pub materialize : ℕ → Schedule → User → Order V json → Reply Script → Session → Session
  materialize now schedule owner o (http c d) s = miss now schedule "任务配置校验失败，本次执行已跳过" s
  materialize now schedule owner o (ok script) s =
      add_entry
        (entry "managed_schedule.materialize" (some schedule.created_by) "run" s.flushed.next_run_id
          now)
        (set_schedule schedule.id (set_last_run now) (flush_run now script owner o s))

  unfoldable pub pass : ℕ → Schedule → Gate → Session → Session
  pass now schedule late s = miss now schedule "调度扫描时本次执行已超过任务有效期" s
  pass now schedule busy s = miss now schedule "已有待执行或运行中任务，本次执行已跳过" s
  pass now schedule no_agent s = miss now schedule "目标设备已停用或不可用，本次执行已跳过" s
  pass now schedule no_owner s = miss now schedule "设备所属用户不可用，本次执行已跳过" s
  pass now schedule unreadable s = miss now schedule "任务配置校验失败，本次执行已跳过" s
  pass now schedule (clear agent owner ps) s =
      let o = order_of schedule agent ps in
      materialize now schedule owner o
        (validate_run_request V json s.flushed owner o.script_id o.params o.environment_id)
        (expire_all s)

  abbrev pub set_cursor : ℕ → ℕ → Schedule → Schedule
  set_cursor now cursor s = record s { next_run_at = cursor; updated_at = now }

  moved : ℕ → Schedule → Option ℕ → Session → Option Session
  unfolding pass
  moved now schedule none s = none
  moved now schedule (some cursor) s = some (
      pass now schedule (gate now s.flushed schedule)
        (set_schedule schedule.id (set_cursor now cursor) s))

  visited : ℕ → Option Schedule → Session → Option Session
  unfolding moved
  visited now none s = some s
  visited now (some schedule) s =
      moved now schedule (next_schedule_run next schedule schedule.next_run_at now) s

  -- One round of the loop: the schedule as its object shows it. None is an exception.
  unfoldable pub visit : ℕ → ℕ → Session → Option Session
  unfolding visited
  visit now id s = visited now (first (schedule_key id) s.live.schedules) s

  unfoldable pub visit_all : ℕ → List ℕ → Session → Option Session
  visit_all now [] s = some s
  visit_all now (id ∷ ids) s = and_then (visit now id s) (visit_all now ids)

  -- The commit at the end; an exception rolls all back.
  unfoldable pub managed_schedule_scan : ℕ → Db → Option Db
  managed_schedule_scan now db = committed (visit_all now (due_ids now db) (expire_runs now db))
