-- ===== src/Managed/Due.antt =====
-- backend/app/routers/managed.py: when a schedule is due after it was deleted, disabled, enabled or changed.
use auto_script_hub.Prelude.{
  subst, ◌∙◌, ◌||◌, ◌&&◌, not, ℕ, String, true, false, Option, some, ◌≡◌, ◌<◌, refl, sym, ap, arith,
  ok, ◌>>=◌, >>=-eq-ok, expect-eq-ok, require-eq-ok, ok-inj, All, All-update_where, All-any, touch,
  update_where, Bool-cases, inl, inr,
}
use auto_script_hub.Store.{Db, User, Run, IsSound, Schedule, is_admin, live-cancelled}
use auto_script_hub.Store.Evolution.{Keeps, Follows, Follows-update_where}
use auto_script_hub.Store.Writes.{IsSound-write_runs}
use auto_script_hub.Users.{given}
use auto_script_hub.Contract.Params.{Values}
use auto_script_hub.Dispatch.{Json}
use auto_script_hub.Scheduler.Scan.{schedule_key, is_due}
use auto_script_hub.Scheduler.Cursor.{next_schedule_time, next_schedule_time-later}
use auto_script_hub.Managed.{managed_agent_or_404}
use auto_script_hub.Managed.Rules.{Clock, Rule, rule_of, first_time}
use auto_script_hub.Managed.Schedules.{
  schedule_or_404, restart, remove_schedule, is_waiting_of, withdraw, delete_managed_schedule,
  enable_managed_schedule, ScheduleUpdate, change_schedule, is_restarted, rule_changed, new_cursor,
  update_managed_schedule,
}
use auto_script_hub.Managed.Kept.{deleted_tables, deleted_counter, update_managed_schedule-ok}

-- No row of the id is due at an instant.
abbrev pub IsQuiet : ℕ → ℕ → Db → Type 0
IsQuiet id at db = All (λ (s : Schedule). s.id ≡ id → is_due at s ≡ false) db.schedules

written-IsQuiet :
    (id at : ℕ) (f : Schedule → Schedule) (db db' : Db)
    → db'.schedules ≡ update_where (schedule_key id) f db.schedules
    → ((s : Schedule) → s.id ≡ id → is_due at (f s) ≡ false)
    → IsQuiet id at db'
written-IsQuiet id at f db db' e k = rw e (
    All-update_where (λ (s : Schedule). Unit {0})
      (λ (s : Schedule). s.id ≡ id → is_due at s ≡ false) (schedule_key id) f db.schedules
      (λ s u. row s) (All-any (λ (s : Schedule). Unit {0}) db.schedules (λ s. tt)))
  where
    row :
        (s : Schedule)
        → (touch (schedule_key id) f s).id ≡ id
        → is_due at (touch (schedule_key id) f s) ≡ false
    row s h = elim (Bool-cases (schedule_key id s)) [
      | inl t ↦ let named : s.id ≡ id = ground arith in rw t (k s named)
      | inr t ↦ let named : s.id ≡ id = rw t at h in ground arith
    ]

Keeps-withdraw : (id now : ℕ) (r : Run) → is_waiting_of id r ≡ true → Keeps r (withdraw now r)
Keeps-withdraw id now r h = record {
  same_id = refl;
  same_script = refl;
  same_user = refl;
  same_target = refl;
  same_expiry = refl;
  moved = live-cancelled r.status (ground arith);
  claimed_once = λ c. refl;
}

withdrawn_row :
    (id now : ℕ) (r : Run) → is_waiting_of id (touch (is_waiting_of id) (withdraw now) r) ≡ false
withdrawn_row id now r = ground arith

-- A schedule that is gone: it is due at no time, and no run of it waits.
pub record IsGone (id : ℕ) (db : Db) : Type 0 where
  pub never_due : (at : ℕ) → IsQuiet id at db
  pub none_waits : All (λ (r : Run). is_waiting_of id r ≡ false) db.runs

-- After a deletion the schedule is due at no time and none of its runs is pending; the other runs move only along
-- the diagram of statuses.
pub delete_managed_schedule-IsGone :
    (id : ℕ) (actor : User) (now : ℕ) (db db' : Db)
    → delete_managed_schedule id actor now db ≡ ok db'
    → IsGone id db' × Follows db.runs db'.runs
delete_managed_schedule-IsGone id actor now db db' h =
    let (schedules, runs) = deleted_tables id actor now db db' h in
    (
      record {
        never_due = λ at.
            written-IsQuiet id at (remove_schedule actor now) db db' schedules
              (λ s e. ground arith);
        none_waits = rw runs (
            All-update_where (λ (r : Run). Unit {0}) (λ (r : Run). is_waiting_of id r ≡ false)
              (is_waiting_of id) (withdraw now) db.runs (λ r u. withdrawn_row id now r)
              (All-any (λ (r : Run). Unit {0}) db.runs (λ r. tt)));
      },
      rw runs (
          Follows-update_where (is_waiting_of id) (withdraw now) db.runs (λ r. refl)
            (Keeps-withdraw id now)),
    )

pub delete_managed_schedule-Follows :
    (id : ℕ) (actor : User) (now : ℕ) (db db' : Db)
    → IsSound db
    → delete_managed_schedule id actor now db ≡ ok db'
    → Follows db.runs db'.runs × IsSound db'
delete_managed_schedule-Follows id actor now db db' s h =
    let (schedules, runs) = deleted_tables id actor now db db' h in
    let k = IsSound-write_runs (is_waiting_of id) (withdraw now) db (λ r. refl) s in
    (
      (delete_managed_schedule-IsGone id actor now db db' h).1,
      record {
        keyed = rw runs k.keyed;
        below = rw (runs, deleted_counter id actor now db db' h) k.below;
      },
    )

module _ (clock : Clock)
    (later : (e z : String) (t c : ℕ) → clock.next e z t ≡ some c → t < c) where
  first_time-later : (r : Rule) (now c : ℕ) → first_time clock r now ≡ ok c → now < c
  unfolding first_time
  first_time-later r now c h =
      next_schedule_time-later clock.next later r.kind now r.interval_seconds r.cron_expression
        r.timezone c
        (expect-eq-ok
          (next_schedule_time clock.next r.kind now r.interval_seconds r.cron_expression r.timezone)
          500 "" h)

  -- Where croniter's next occurrence is after the instant that it is given, a schedule that was just enabled is
  -- not due yet, however long it was disabled.
  pub enable_managed_schedule-IsQuiet :
      (id : ℕ) (actor : User) (now : ℕ) (db db' : Db)
      → enable_managed_schedule clock id actor now db ≡ ok db'
      → IsQuiet id now db'
  unfolding enable_managed_schedule
  enable_managed_schedule-IsQuiet id actor now db db' h =
      let (isadmin, h1) = require-eq-ok (is_admin actor.role) 403 _ _ h in
      let (s, e1, h2) = >>=-eq-ok (schedule_or_404 db id) _ h1 in
      let (agent, e2, h3) = >>=-eq-ok (managed_agent_or_404 db s.agent_id true) _ h2 in
      let (cursor, e3, h4) = >>=-eq-ok (first_time clock (rule_of s) now) _ h3 in
      let ahead = first_time-later (rule_of s) now cursor e3 in
      written-IsQuiet id now (restart cursor actor now) db db'
        (sym (ap (λ (d : Db). d.schedules) (ok-inj h4))) (λ x e. ground arith)

  module _ (V : Values) (json : Json V) where
    new_cursor-later :
        (q : ScheduleUpdate clock V json) (r : Rule) (s : Schedule) (now : ℕ) (o : Option ℕ)
        → is_restarted clock V json q r s ≡ true
        → new_cursor clock V json q r s now ≡ ok o
        → (c : ℕ) × (o ≡ some c) × (now < c)
    unfolding new_cursor
    new_cursor-later q r s now o on h =
        let went : (first_time clock r now >>= λ t. ok (some t)) ≡ ok o = rw on at h in
        let (c, e, h1) = >>=-eq-ok (first_time clock r now) (λ t. ok (some t)) went in
        (c, sym (ok-inj h1), first_time-later r now c e)

    restarts :
        (q : ScheduleUpdate clock V json) (r : Rule) (s : Schedule)
        → (rule_changed clock V json q || (given false q.enabled && not s.enabled)) ≡ true
        → is_restarted clock V json q r s ≡ true
    unfolding is_restarted
    restarts q r s h = ground arith

    -- Where croniter's next occurrence is after the instant that it is given, a schedule whose rule was changed, or
    -- which was enabled by the change, is not due yet after it, whatever start the request asks for.
    pub update_managed_schedule-IsQuiet :
        (id : ℕ) (q : ScheduleUpdate clock V json) (actor : User) (now : ℕ) (db db' : Db)
        (s : Schedule)
        → schedule_or_404 db id ≡ ok s
        → (rule_changed clock V json q || (given false q.enabled && not s.enabled)) ≡ true
        → update_managed_schedule clock V json id q actor now db ≡ ok db'
        → IsQuiet id now db'
    unfolding change_schedule
    update_managed_schedule-IsQuiet id q actor now db db' s read changed h =
        let u = update_managed_schedule-ok clock V json id q actor now db db' h in
        let same : s ≡ u.schedule = ok-inj (sym read ∙ u.read) in
        let on = restarts q u.rule s changed in
        let (c, e, ahead) =
          new_cursor-later q u.rule s now u.cursor on
            (subst (λ x. new_cursor clock V json q u.rule x now ≡ ok u.cursor) (sym same) u.next) in
        written-IsQuiet id now (change_schedule clock V json q u.rule u.cursor actor now) db db'
          u.schedules (λ x named. rw e (ground arith))
