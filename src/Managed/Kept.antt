-- ===== src/Managed/Kept.antt =====
-- backend/app/models.py, the constraints on the table of schedules, and what the handlers of
-- backend/app/routers/managed.py keep of them.
use auto_script_hub.Prelude.{
  ℕ, Bool, true, false, not, ◌&&◌, ◌||◌, Option, none, some, ◌∷◌, [], ◌++◌, ◌≡◌, sym, ap, arith, ok,
  expect, >>=-eq-ok, require-eq-ok, ok-inj, subst, leb, All, All-append, update_where,
}
use auto_script_hub.Store.{Db, Agent, User, Schedule, is_admin}
use auto_script_hub.Users.{given}
use auto_script_hub.Contract.Params.{Values}
use auto_script_hub.Dispatch.{Json, validate_run_request}
use auto_script_hub.Scheduler.Scan.{schedule_key}
use auto_script_hub.Managed.{managed_agent_or_404, params_or_empty}
use auto_script_hub.Managed.Rules.{
  Clock, Rule, rule_of, in_bounds, in_bounds_of, wait_in_bounds, validate_rule, changed_rule,
  first_time,
}
use auto_script_hub.Managed.Schedules.{
  schedule_or_404, kept_owner, restart, switch_schedule, remove_schedule, is_waiting_of, withdraw,
  without_schedule, disable_managed_schedule, delete_managed_schedule, enable_managed_schedule,
  ScheduleCreate, ScheduleUpdate, start_of, new_schedule, create_managed_schedule, change_schedule,
  new_cursor, update_managed_schedule,
}
use auto_script_hub.Managed.Constraint.{
  is_rule, is_allowed_row, IsRuled, validate_rule-is_rule, changed_rule-is_rule, given_interval,
  found_schedule, written-IsRuled,
}

module _ (clock : Clock) (V : Values) (json : Json V) where
  change_schedule-is_allowed_row :
      (q : ScheduleUpdate clock V json) (r : Rule) (cursor : Option ℕ) (actor : User) (now : ℕ)
      (s : Schedule)
      → is_rule r.kind r.interval_seconds r.cron_expression ≡ true
      → wait_in_bounds (given 60 q.expires_after_seconds) ≡ true
      → is_allowed_row s ≡ true
      → is_allowed_row (change_schedule clock V json q r cursor actor now s) ≡ true
  unfolding change_schedule is_allowed_row
  change_schedule-is_allowed_row q r cursor actor now s h w k =
      rw h (waits q.expires_after_seconds w k)
    where
      waits :
          (o : Option ℕ)
          → wait_in_bounds (given 60 o) ≡ true
          → (is_rule s.schedule_type s.interval_seconds s.cron_expression
              && leb 60 s.expires_after_seconds)
            ≡ true
          → leb 60 (given s.expires_after_seconds o) ≡ true
      waits none w k = ground arith
      waits (some n) w k = ground arith

  -- What a change that goes through has read and written.
  pub record Updated (id : ℕ) (q : ScheduleUpdate clock V json) (actor : User) (now : ℕ)
      (db db' : Db) : Type 0 where
    pub schedule : Schedule
    pub rule : Rule
    pub cursor : Option ℕ
    pub read : schedule_or_404 db id ≡ ok schedule
    pub bounded : in_bounds_of q.interval_seconds ≡ true
    pub waits : wait_in_bounds (given 60 q.expires_after_seconds) ≡ true
    pub ruled :
        changed_rule clock
          (given schedule.schedule_type q.schedule_type)
          (given schedule.interval_seconds q.interval_seconds)
          (given schedule.cron_expression q.cron_expression)
          (given schedule.timezone q.timezone)
        ≡ ok rule
    pub next : new_cursor clock V json q rule schedule now ≡ ok cursor
    pub schedules :
        db'.schedules
        ≡ update_where
            (schedule_key id)
            (change_schedule clock V json q rule cursor actor now)
            db.schedules
    pub runs : db'.runs ≡ db.runs

  both : {a b : Bool} → (a && b) ≡ true → (a ≡ true) × (b ≡ true)
  both {a} {b} e = (ground arith, ground arith)

  pub update_managed_schedule-ok :
      (id : ℕ) (q : ScheduleUpdate clock V json) (actor : User) (now : ℕ) (db db' : Db)
      → update_managed_schedule clock V json id q actor now db ≡ ok db'
      → Updated id q actor now db db'
  unfolding update_managed_schedule
  update_managed_schedule-ok id q actor now db db' h =
      let (isadmin, h1) = require-eq-ok (is_admin actor.role) 403 _ _ h in
      let (bounds, h2) =
        require-eq-ok
          (in_bounds_of q.interval_seconds && wait_in_bounds (given 60 q.expires_after_seconds)) 422
          _ _ h1 in
      let (s, e1, h3) = >>=-eq-ok (schedule_or_404 db id) _ h2 in
      let (old, e2, h4) =
        >>=-eq-ok (expect (json.load_values (params_or_empty s.params)) 500 "") _ h3 in
      let (agent, e3, h5) =
        >>=-eq-ok (managed_agent_or_404 db (given s.agent_id q.agent_id) false) _ h4 in
      let (may, h6) = require-eq-ok (agent.enabled || not (given s.enabled q.enabled)) 409 _ _ h5 in
      let (owner, e4, h7) = >>=-eq-ok (kept_owner db agent) _ h6 in
      let (script, e5, h8) =
        >>=-eq-ok
          (validate_run_request V json db owner (given s.script_id q.script_id) (given old q.params)
            (given s.environment_id q.environment_id))
          _ h7 in
      let (rule, e6, h9) =
        >>=-eq-ok
          (changed_rule clock (given s.schedule_type q.schedule_type)
            (given s.interval_seconds q.interval_seconds)
            (given s.cron_expression q.cron_expression) (given s.timezone q.timezone))
          _ h8 in
      let (cursor, e7, h10) = >>=-eq-ok (new_cursor clock V json q rule s now) _ h9 in
      record {
        schedule = s;
        rule = rule;
        cursor = cursor;
        read = e1;
        bounded = (both bounds).0;
        waits = (both bounds).1;
        ruled = e6;
        next = e7;
        schedules = sym (ap (λ (d : Db). d.schedules) (ok-inj h10));
        runs = sym (ap (λ (d : Db). d.runs) (ok-inj h10));
      }

  update-IsRuled :
      (id : ℕ) (q : ScheduleUpdate clock V json) (actor : User) (now : ℕ) (db db' : Db)
      → IsRuled db
      → update_managed_schedule clock V json id q actor now db ≡ ok db'
      → IsRuled db'
  update-IsRuled id q actor now db db' g h =
      let u = update_managed_schedule-ok id q actor now db db' h in
      let s = u.schedule in
      let k = found_schedule id db u.read g in
      let ruled =
        changed_rule-is_rule clock (given s.schedule_type q.schedule_type)
          (given s.interval_seconds q.interval_seconds) (given s.cron_expression q.cron_expression)
          (given s.timezone q.timezone) u.rule
          (λ m e. given_interval s q.interval_seconds m k.1 u.bounded e) u.ruled in
      written-IsRuled db db' (schedule_key id)
        (change_schedule clock V json q u.rule u.cursor actor now) u.schedules
        (λ x a. change_schedule-is_allowed_row q u.rule u.cursor actor now x ruled u.waits a) g

  new_row :
      (q : ScheduleCreate clock V json) (r : Rule) (agent : Agent) (actor : User) (start now id : ℕ)
      → is_rule r.kind r.interval_seconds r.cron_expression ≡ true
      → wait_in_bounds q.expires_after_seconds ≡ true
      → is_allowed_row (new_schedule clock V json q r agent actor start now id) ≡ true
  unfolding is_allowed_row
  new_row q r agent actor start now id h w = rw h (ground arith)

  create-IsRuled :
      (q : ScheduleCreate clock V json) (actor : User) (now : ℕ) (db db' : Db)
      → IsRuled db
      → create_managed_schedule clock V json q actor now db ≡ ok db'
      → IsRuled db'
  unfolding create_managed_schedule
  create-IsRuled q actor now db db' g h =
      let (isadmin, h1) = require-eq-ok (is_admin actor.role) 403 _ _ h in
      let (bounds, h2) =
        require-eq-ok (in_bounds q.interval_seconds && wait_in_bounds q.expires_after_seconds) 422 _
          _ h1 in
      let (rule, e1, h3) =
        >>=-eq-ok
          (validate_rule clock q.schedule_type q.interval_seconds q.cron_expression q.timezone) _
          h2 in
      let (agent, e2, h4) = >>=-eq-ok (managed_agent_or_404 db q.agent_id true) _ h3 in
      let (owner, e3, h5) = >>=-eq-ok (kept_owner db agent) _ h4 in
      let (script, e4, h6) =
        >>=-eq-ok (validate_run_request V json db owner q.script_id q.params q.environment_id) _
          h5 in
      let (start, e5, h7) = >>=-eq-ok (start_of clock V json q rule now) _ h6 in
      let made = new_schedule clock V json q rule agent actor start now db.next_schedule_id in
      let ruled =
        validate_rule-is_rule clock q.schedule_type q.interval_seconds q.cron_expression q.timezone
          rule (both bounds).0 e1 in
      let same : db.schedules ++ made ∷ [] ≡ db'.schedules =
        ap (λ (d : Db). d.schedules) (ok-inj h7) in
      record {
        rows = subst (All (λ (s : Schedule). is_allowed_row s ≡ true)) same (
            All-append (λ (s : Schedule). is_allowed_row s ≡ true) db.schedules (made ∷ []) g.rows
              (new_row q rule agent actor start now db.next_schedule_id ruled (both bounds).1, tt));
      }

  enable-IsRuled :
      (id : ℕ) (actor : User) (now : ℕ) (db db' : Db)
      → IsRuled db
      → enable_managed_schedule clock id actor now db ≡ ok db'
      → IsRuled db'
  unfolding enable_managed_schedule is_allowed_row
  enable-IsRuled id actor now db db' g h =
      let (isadmin, h1) = require-eq-ok (is_admin actor.role) 403 _ _ h in
      let (s, e1, h2) = >>=-eq-ok (schedule_or_404 db id) _ h1 in
      let (agent, e2, h3) = >>=-eq-ok (managed_agent_or_404 db s.agent_id true) _ h2 in
      let (cursor, e3, h4) = >>=-eq-ok (first_time clock (rule_of s) now) _ h3 in
      written-IsRuled db db' (schedule_key id) (restart cursor actor now)
        (sym (ap (λ (d : Db). d.schedules) (ok-inj h4))) (λ x a. a) g

disable-IsRuled :
    (id : ℕ) (actor : User) (now : ℕ) (db db' : Db)
    → IsRuled db
    → disable_managed_schedule id actor now db ≡ ok db'
    → IsRuled db'
unfolding disable_managed_schedule is_allowed_row
disable-IsRuled id actor now db db' g h =
    let (isadmin, h1) = require-eq-ok (is_admin actor.role) 403 _ _ h in
    let (s, e1, h2) = >>=-eq-ok (schedule_or_404 db id) _ h1 in
    written-IsRuled db db' (schedule_key id) (switch_schedule false actor now)
      (sym (ap (λ (d : Db). d.schedules) (ok-inj h2))) (λ x a. a) g

-- A deletion writes both tables.
pub deleted_tables :
    (id : ℕ) (actor : User) (now : ℕ) (db db' : Db)
    → delete_managed_schedule id actor now db ≡ ok db'
    → (db'.schedules ≡ update_where (schedule_key id) (remove_schedule actor now) db.schedules)
      × (db'.runs ≡ update_where (is_waiting_of id) (withdraw now) db.runs)
unfolding delete_managed_schedule without_schedule
deleted_tables id actor now db db' h =
    let (isadmin, h1) = require-eq-ok (is_admin actor.role) 403 _ _ h in
    let (s, e1, h2) = >>=-eq-ok (schedule_or_404 db id) _ h1 in
    (sym (ap (λ (d : Db). d.schedules) (ok-inj h2)), sym (ap (λ (d : Db). d.runs) (ok-inj h2)))

pub deleted_counter :
    (id : ℕ) (actor : User) (now : ℕ) (db db' : Db)
    → delete_managed_schedule id actor now db ≡ ok db'
    → db'.next_run_id ≡ db.next_run_id
unfolding delete_managed_schedule without_schedule
deleted_counter id actor now db db' h =
    let (isadmin, h1) = require-eq-ok (is_admin actor.role) 403 _ _ h in
    let (s, e1, h2) = >>=-eq-ok (schedule_or_404 db id) _ h1 in
    sym (ap (λ (d : Db). d.next_run_id) (ok-inj h2))

delete-IsRuled :
    (id : ℕ) (actor : User) (now : ℕ) (db db' : Db)
    → IsRuled db
    → delete_managed_schedule id actor now db ≡ ok db'
    → IsRuled db'
unfolding is_allowed_row
delete-IsRuled id actor now db db' g h =
    written-IsRuled db db' (schedule_key id) (remove_schedule actor now)
      (deleted_tables id actor now db db' h).0 (λ x a. a) g

-- What the handlers of schedules do, one after another.
pub data Plans (clock : Clock) (V : Values) (json : Json V) (start : Db) : Db → Type 0 where
  none_yet : Plans clock V json start start
  creates :
      {db db' : Db} (q : ScheduleCreate clock V json) (actor : User) (now : ℕ)
      → Plans clock V json start db
      → create_managed_schedule clock V json q actor now db ≡ ok db'
      → Plans clock V json start db'
  updates :
      {db db' : Db} (id : ℕ) (q : ScheduleUpdate clock V json) (actor : User) (now : ℕ)
      → Plans clock V json start db
      → update_managed_schedule clock V json id q actor now db ≡ ok db'
      → Plans clock V json start db'
  enables :
      {db db' : Db} (id : ℕ) (actor : User) (now : ℕ)
      → Plans clock V json start db
      → enable_managed_schedule clock id actor now db ≡ ok db'
      → Plans clock V json start db'
  disables :
      {db db' : Db} (id : ℕ) (actor : User) (now : ℕ)
      → Plans clock V json start db
      → disable_managed_schedule id actor now db ≡ ok db'
      → Plans clock V json start db'
  deletes :
      {db db' : Db} (id : ℕ) (actor : User) (now : ℕ)
      → Plans clock V json start db
      → delete_managed_schedule id actor now db ≡ ok db'
      → Plans clock V json start db'

-- Whatever schedules are created, changed, enabled, disabled and deleted, by any requests in any order: where all
-- rows met the constraints of the table, all do.
pub Plans-IsRuled :
    (clock : Clock) (V : Values) (json : Json V) (start db : Db)
    → IsRuled start
    → Plans clock V json start db
    → IsRuled db
Plans-IsRuled clock V json start db g none_yet = g
Plans-IsRuled clock V json start db g (creates {db = d} q actor now r h) =
    create-IsRuled clock V json q actor now d db (Plans-IsRuled clock V json start d g r) h
Plans-IsRuled clock V json start db g (updates {db = d} id q actor now r h) =
    update-IsRuled clock V json id q actor now d db (Plans-IsRuled clock V json start d g r) h
Plans-IsRuled clock V json start db g (enables {db = d} id actor now r h) =
    enable-IsRuled clock V json id actor now d db (Plans-IsRuled clock V json start d g r) h
Plans-IsRuled clock V json start db g (disables {db = d} id actor now r h) =
    disable-IsRuled id actor now d db (Plans-IsRuled clock V json start d g r) h
Plans-IsRuled clock V json start db g (deletes {db = d} id actor now r h) =
    delete-IsRuled id actor now d db (Plans-IsRuled clock V json start d g r) h
