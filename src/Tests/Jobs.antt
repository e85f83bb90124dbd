-- ===== src/Tests/Jobs.antt =====
-- backend/app/services/run_dispatch.py, backend/app/routers/runs.py (execute_script) and
-- backend/app/scheduler.py at concrete inputs.
use auto_script_hub.Prelude.{
  Memᴰ, inr, ℕ, String, Bool, true, false, some, none, List, [], ◌∷◌, ◌++◌, ◌≡◌, ◌≢◌, ◌≤◌, ◌<◌, ◌+◌,
  ◌*◌, refl, ok, Reply, arith, first, subst, some-inj, All, count_where,
}
use auto_script_hub.Store.{
  second, Db, Run, pending, running, success, cancelled, run_at, managed_schedule, interval,
}
use auto_script_hub.Store.Evolution.{Follows}
use auto_script_hub.Access.{get_accessible_script_or_404}
use auto_script_hub.Dispatch.{
  Order, new_run, create_validated_run, ExecuteRequest, execute_script, own_active,
  validate_run_request,
}
use auto_script_hub.Dispatch.Accepted.{Created, create_validated_run-ok}
use auto_script_hub.Dispatch.Race.{execute_script_race}
use auto_script_hub.Scheduler.Cursor.{
  advance_next_run, advance_next_run_lem, next_schedule_run, next_schedule_time,
}
use auto_script_hub.Scheduler.Heartbeat.{heartbeat_scan, stale_ids, is_stuck, fail_run}
use auto_script_hub.Scheduler.Heartbeat.Laws.{heartbeat_scan_race}
use auto_script_hub.Scheduler.Scan.{
  managed_schedule_scan, schedule_key, set_last_run, order_of, expire_runs, visit, is_live_of,
  opened, entry, Session, due_ids, gate, clear,
}
use auto_script_hub.Scheduler.Scan.Cursors.{scan_loses_cursor}
use auto_script_hub.Scheduler.Scan.Skips.{Skipped, scan_skips}
use auto_script_hub.Scheduler.Scan.Single.{IsOrderly, scan-IsOrderly}
use auto_script_hub.Tests.Data.{
  ada, device, script, schedule, noon, office, office-IsSound, run_with, db_with, numbers, json,
  next,
}

abbrev order : Order numbers json
order = record {
  script_id = 7;
  params = [];
  environment_id = none;
  requested_by = some 1;
  dispatch_type = managed_schedule;
  target_agent_id = some 3;
  schedule_id = none;
  scheduled_for = none;
  expires_at = none;
}

abbrev ordered : Run
ordered = new_run numbers json script ada order noon 100

order_lands : (create_validated_run numbers json ada order noon office).0 ≡ ok ordered
unfolding create_validated_run auto_script_hub.Access.get_accessible_script_or_404 first
    auto_script_hub.Access.member_of auto_script_hub.Access.accessible_script_ids
    auto_script_hub.Prelude.select auto_script_hub.Dispatch.check_environment
    auto_script_hub.Dispatch.check_config
order_lands = refl

create_validated_run-ok_example :
    Created numbers json ada order noon office
      (create_validated_run numbers json ada order noon office).1
      ordered
create_validated_run-ok_example =
    create_validated_run-ok numbers json ada order noon office ordered order_lands

abbrev execute : ExecuteRequest numbers json
execute = record { script_id = 7; params = []; environment_id = none; user = ada; now = noon }

-- The run that was read as waiting has since been claimed and has ended.
abbrev ended_since : Db
ended_since = db_with (run_with 11 none (some 2) success ∷ []) []

ended_row : run_at 11 ended_since.runs ≡ some (run_with 11 none (some 2) success)
unfolding first
ended_row = refl

-- The database of the reads, with the run waiting.
abbrev waiting_then : Db
waiting_then = db_with (run_with 11 none none pending ∷ []) []

script_found : get_accessible_script_or_404 waiting_then ada 7 true ≡ ok script
unfolding get_accessible_script_or_404 first auto_script_hub.Access.member_of
    auto_script_hub.Access.accessible_script_ids auto_script_hub.Prelude.select
script_found = refl

waiting_found :
    first (own_active numbers json 1) waiting_then.runs ≡ some (run_with 11 none none pending)
unfolding first
waiting_found = refl

execute_script_race_example :
    run_at 11 (execute_script numbers json execute waiting_then ended_since).1.runs
    ≡ some (record (run_with 11 none (some 2) success) {
      status = cancelled;
      finished_at = some noon;
      updated_at = noon;
    })
execute_script_race_example =
    execute_script_race numbers json execute waiting_then ended_since script
      (run_with 11 none none pending) (run_with 11 none (some 2) success) script_found waiting_found
      refl (omega arith) ended_row

advance_next_run_lem_example :
    (noon < advance_next_run 0 60 noon)
    × (0 ≤ noon → advance_next_run 0 60 noon ≤ noon + 60 * second)
    × ((k : ℕ) × (advance_next_run 0 60 noon ≡ 0 + k * (60 * second)))
advance_next_run_lem_example = advance_next_run_lem 0 60 noon (omega arith)

next_is_later : (e z : String) (t c : ℕ) → next e z t ≡ some c → t < c
next_is_later e z t c h = subst (λ x. t < x) (some-inj h) (omega arith)

abbrev cursor : ℕ
cursor = noon + 60 * second

cursor_moves : next_schedule_run next schedule noon noon ≡ some cursor
unfolding next_schedule_run
cursor_moves = refl

first_time : next_schedule_time next interval noon (some 60) none "UTC" ≡ some cursor
unfolding next_schedule_time
first_time = refl

-- The device was last heard of long before noon.
stuck_row : run_at 12 office.runs ≡ some (run_with 12 (some 3) (some 3) running)
unfolding first
stuck_row = refl

abbrev done_since : Db
done_since = db_with (run_with 12 (some 3) (some 3) success ∷ []) []

done_row : run_at 12 done_since.runs ≡ some (run_with 12 (some 3) (some 3) success)
unfolding first
done_row = refl

is_stuck_now :
    is_stuck (stale_ids noon office.agents) (run_with 12 (some 3) (some 3) running) ≡ true
unfolding stale_ids auto_script_hub.Access.member_of auto_script_hub.Prelude.select
is_stuck_now = refl

heartbeat_scan_race_example :
    run_at 12 (heartbeat_scan noon office done_since).runs
    ≡ some (
        fail_run noon
          (run_with 12 (some 3) (some 3) running)
          (run_with 12 (some 3) (some 3) success))
heartbeat_scan_race_example =
    heartbeat_scan_race noon office done_since 12 (run_with 12 (some 3) (some 3) running)
      (run_with 12 (some 3) (some 3) success) office-IsSound stuck_row is_stuck_now done_row refl

-- A due schedule with nothing of it running.
abbrev due : Db
due = db_with [] (schedule ∷ [])

due-IsOrderly : IsOrderly due
unfolding count_where
due-IsOrderly = record {
  sound = record { keyed = tt; below = tt };
  single = record { at = λ i. omega arith };
}

-- What the scan commits: the new run, the time of the last run, an audit entry, and the old cursor.
abbrev after_scan : Db
after_scan = record due {
  runs =
      new_run numbers json script ada (order_of numbers json next schedule device []) noon 100 ∷ [];
  schedules = set_last_run numbers json next noon schedule ∷ [];
  audit_logs = entry "managed_schedule.materialize" (some 9) "run" 100 noon ∷ [];
  next_run_id = 101;
}

scan_ends : managed_schedule_scan numbers json next noon due ≡ some after_scan
unfolding managed_schedule_scan auto_script_hub.Prelude.update_where
    auto_script_hub.Access.active_group_ids_for_user auto_script_hub.Access.in_groups
    auto_script_hub.Access.is_active_group new_run auto_script_hub.Prelude.insert_by
    advance_next_run auto_script_hub.Scheduler.Scan.pass auto_script_hub.Scheduler.Scan.visit_all
    due_ids auto_script_hub.Prelude.order_by auto_script_hub.Prelude.select visit first expire_runs
    next_schedule_run gate auto_script_hub.Scheduler.Scan.materialize validate_run_request
    auto_script_hub.Access.get_accessible_script_or_404 auto_script_hub.Access.accessible_script_ids
    auto_script_hub.Dispatch.check_environment auto_script_hub.Dispatch.check_config
scan_ends = refl

scan-IsOrderly_example : IsOrderly after_scan × Follows due.runs after_scan.runs
scan-IsOrderly_example =
    scan-IsOrderly numbers json next noon due after_scan due-IsOrderly scan_ends

found_schedule : first (schedule_key 5) due.schedules ≡ some schedule
unfolding first
found_schedule = refl

one_is_due : due_ids noon due ≡ 5 ∷ []
unfolding due_ids auto_script_hub.Prelude.order_by auto_script_hub.Prelude.select
one_is_due = refl

gate_is_clear : gate numbers json next noon due schedule ≡ clear device ada []
unfolding gate first
gate_is_clear = refl

request_is_valid : validate_run_request numbers json due ada 7 [] none ≡ ok script
unfolding validate_run_request auto_script_hub.Access.get_accessible_script_or_404 first
    auto_script_hub.Access.member_of auto_script_hub.Access.accessible_script_ids
    auto_script_hub.Prelude.select auto_script_hub.Dispatch.check_environment
    auto_script_hub.Dispatch.check_config
request_is_valid = refl

scan_loses_cursor_example :
    (db' : Db) × (managed_schedule_scan numbers json next noon due ≡ some db')
    × (first (schedule_key schedule.id) db'.schedules
        ≡ some (set_last_run numbers json next noon schedule))
    × (db'.runs
        ≡ due.runs
          ++ new_run numbers json script ada
              (order_of numbers json next schedule device [])
              noon
              due.next_run_id
            ∷ [])
scan_loses_cursor_example =
    scan_loses_cursor numbers json next noon due schedule cursor device ada [] script found_schedule
      one_is_due cursor_moves gate_is_clear request_is_valid

-- With a run of the schedule that is still on the device, its turn is skipped.
abbrev busy_run : Run
busy_run = record (run_with 12 (some 3) (some 3) running) { schedule_id = some 5 }

abbrev occupied : Db
occupied = db_with (busy_run ∷ []) (schedule ∷ [])

found_again : first (schedule_key 5) occupied.schedules ≡ some schedule
unfolding first
found_again = refl

still_one_due : due_ids noon occupied ≡ 5 ∷ []
unfolding due_ids auto_script_hub.Prelude.order_by auto_script_hub.Prelude.select
still_one_due = refl

scan_skips_example :
    (db' : Db) × (managed_schedule_scan numbers json next noon occupied ≡ some db')
    × Skipped noon cursor schedule occupied db'
scan_skips_example =
    scan_skips numbers json next noon occupied schedule cursor found_again still_one_due
      cursor_moves (inr (busy_run, Memᴰ.head refl, refl, refl, refl))
