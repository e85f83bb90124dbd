-- ===== src/Scheduler/Scan/Cursors.antt =====
-- backend/app/scheduler.py, _managed_schedule_scan: where the cursors of the due schedules end up.
use auto_script_hub.Prelude.{
  ℕ, String, some, List, [], ◌∷◌, ◌++◌, ◌≡◌, refl, ◌∙◌, first, first-update_where, ok, ==_refl,
}
use auto_script_hub.Store.{Db, Agent, User, Script, Schedule}
use auto_script_hub.Contract.Params.{Values, Value}
use auto_script_hub.Dispatch.{Json, new_run, validate_run_request}
use auto_script_hub.Scheduler.Cursor.{CronNext, next_schedule_run}
use auto_script_hub.Scheduler.Scan.{
  Session, expire_all, written, set_schedule, schedule_key, set_cursor, set_last_run, due_ids,
  expire_runs, clear, gate, order_of, materialize, visit, visit_all, managed_schedule_scan,
}

module _ (V : Values) (json : Json V) (next : CronNext) (now : ℕ) (db : Db) (schedule : Schedule)
    (cursor : ℕ) (agent : Agent) (owner : User) (ps : List (String × Value V)) (script : Script)
    (there : first (schedule_key schedule.id) db.schedules ≡ some schedule)
    (one : due_ids now db ≡ schedule.id ∷ [])
    (moves : next_schedule_run next schedule schedule.next_run_at now ≡ some cursor)
    (passes : gate V json next now db schedule ≡ clear agent owner ps)
    (valid : validate_run_request V json db owner schedule.script_id ps schedule.environment_id
      ≡ ok script) where
  -- The session that such a visit ends with.
  after : Session
  after =
      materialize V json next now schedule owner (order_of V json next schedule agent ps)
        (ok script)
        (expire_all
          (set_schedule schedule.id (set_cursor V json next now cursor) (expire_runs now db)))

  visits : visit V json next now schedule.id (expire_runs now db) ≡ some after
  unfolding visit after expire_runs
  visits = rw (there, moves, passes, valid) refl

  scans : managed_schedule_scan V json next now db ≡ some (written after)
  unfolding managed_schedule_scan visit_all
  scans = rw (one, visits)

  -- The one due schedule becomes a run, and yet its cursor stays where it was, so it is due again at
  -- the next scan; and the runs that were overdue are pending still.
  pub scan_loses_cursor :
      (db' : Db) × (managed_schedule_scan V json next now db ≡ some db')
      × (first (schedule_key schedule.id) db'.schedules
          ≡ some (set_last_run V json next now schedule))
      × (db'.runs
          ≡ db.runs
            ++ new_run V json script owner
                (order_of V json next schedule agent ps)
                now
                db.next_run_id
              ∷ [])
  unfolding after materialize expire_runs
  scan_loses_cursor = (
    written after,
    scans,
    first-update_where (schedule_key schedule.id) (schedule_key schedule.id)
          (set_last_run V json next now) db.schedules (λ s. refl)
        ∙ rw (there, ==_refl schedule.id),
    refl,
  )
