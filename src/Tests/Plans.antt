-- ===== src/Tests/Plans.antt =====
-- The handlers of users and of managed devices on a small installation.
use auto_script_hub.Prelude.{
  ℕ, String, Bool, true, false, Option, none, some, List, [], ◌∷◌, ◌==◌, ◌≡◌, ◌≤◌, ◌<◌, ◌+◌, refl,
  arith, Reply, ok, http, first, count_where, ◌*◌,
}
use auto_script_hub.Store.{Db, Run, Status, pending, failed, managed_schedule, add_audit, second}
use auto_script_hub.Store.Evolution.{Follows}
use auto_script_hub.Users.{user_entry, write_user, remove_user, delete_user}
use auto_script_hub.Users.Governed.{IsGoverned, begins, deletes, Administers-IsGoverned}
use auto_script_hub.Scheduler.Scan.{is_live_of}
use auto_script_hub.Scheduler.Scan.Single.{IsOrderly}
use auto_script_hub.Managed.{ManagedRunCreate, dispatch_managed_run, retry_managed_run}
use auto_script_hub.Managed.Sending.{Sent, dispatch_managed_run-ok}
use auto_script_hub.Managed.RunNow.{run_managed_schedule_now, Planned, run_now_checks}
use auto_script_hub.Managed.Single.{retry_doubles, run_now-IsOrderly, run_now_race}
use auto_script_hub.Managed.Rules.{Clock}
use auto_script_hub.Managed.Schedules.{
  schedule_noted, write_schedules, restart, without_schedule, enable_managed_schedule,
  delete_managed_schedule,
}
use auto_script_hub.Managed.Constraint.{IsRuled}
use auto_script_hub.Managed.Kept.{none_yet, enables, Plans-IsRuled}
use auto_script_hub.Managed.Due.{
  IsGone, IsQuiet, delete_managed_schedule-IsGone, enable_managed_schedule-IsQuiet,
}
use auto_script_hub.Store.{IsSound, interval, success, run_at}
use auto_script_hub.Lifecycle.{VersionSource}
use auto_script_hub.Runs.Claim.{ClaimRequest, claim_run}
use auto_script_hub.Runs.Cancel.{CancelRequest, cancel_run}
use auto_script_hub.History.{
  History, nothing_yet, goes_on, claims, cancels, History-Follows, History-ended,
}
use auto_script_hub.Managed.Rules.{Rule}
use auto_script_hub.Managed.Schedules.{
  schedule_or_404, ScheduleUpdate, change_schedule, update_managed_schedule,
}
use auto_script_hub.Managed.Due.{update_managed_schedule-IsQuiet}
use auto_script_hub.Tests.Data.{decode, office-IsSound}
use auto_script_hub.Tests.Data.{
  noon, ada, boss, device, run_with, schedule, db_with, office, numbers, json, next,
}

abbrev clock : Clock
clock = record { next = next; is_valid = λ e. true; is_zone = λ z. true }

-- Users: the boss deletes ada.
abbrev after_delete : Db
after_delete =
    add_audit (user_entry boss "delete_user" 1 noon) (write_user 1 (remove_user boss noon) office)

office-IsGoverned : IsGoverned office
unfolding auto_script_hub.Users.active_admin_count count_where
office-IsGoverned = record {
  fresh = record {
    keyed = ((omega arith, tt), (tt, tt));
    below = (omega arith, (omega arith, tt));
  };
  governed = omega arith;
}

delete_ada : delete_user 1 boss noon office ≡ ok after_delete
unfolding delete_user first
delete_ada = refl

abbrev hash : String → String
hash s = s

Administers-IsGoverned_example : IsGoverned after_delete
Administers-IsGoverned_example =
    Administers-IsGoverned hash office after_delete office-IsGoverned
      (deletes {db = office} 1 boss noon begins delete_ada)

-- The device is idle, and a run of its schedule has failed.
abbrev plan_run : ℕ → Status → Run
plan_run id status = record (run_with id (some 3) none status) {
  schedule_id = some 5;
  dispatch_type = managed_schedule;
}

abbrev quiet : Db
quiet = db_with (plan_run 21 failed ∷ []) (schedule ∷ [])

abbrev waiting : Db
waiting = db_with (plan_run 21 failed ∷ plan_run 22 pending ∷ []) (schedule ∷ [])

abbrev request : ManagedRunCreate numbers json
request = record { script_id = 7; params = []; environment_id = none; expires_in_seconds = 60 }

abbrev reply_run : Reply Run × Db → Run
reply_run (ok r, db) = r
reply_run (http c d, db) = run_with 0 none none failed

abbrev sent : Run
sent = reply_run (dispatch_managed_run numbers json 3 request boss noon quiet quiet)

sent_ok : (dispatch_managed_run numbers json 3 request boss noon quiet quiet).0 ≡ ok sent
unfolding dispatch_managed_run first auto_script_hub.Access.get_accessible_script_or_404
    auto_script_hub.Access.member_of auto_script_hub.Access.accessible_script_ids
    auto_script_hub.Prelude.select auto_script_hub.Dispatch.check_environment
    auto_script_hub.Dispatch.check_config
sent_ok = refl

dispatch_managed_run-ok_example :
    Sent numbers json 3 request boss noon quiet quiet
      (dispatch_managed_run numbers json 3 request boss noon quiet quiet).1
      sent
dispatch_managed_run-ok_example =
    dispatch_managed_run-ok numbers json 3 request boss noon quiet quiet sent sent_ok

-- The failed run is repeated while another of its schedule waits.
abbrev again : Run
again = reply_run (retry_managed_run numbers json 21 boss noon waiting waiting)

again_ok : (retry_managed_run numbers json 21 boss noon waiting waiting).0 ≡ ok again
unfolding retry_managed_run first auto_script_hub.Access.get_accessible_script_or_404
    auto_script_hub.Access.member_of auto_script_hub.Access.accessible_script_ids
    auto_script_hub.Prelude.select auto_script_hub.Dispatch.check_environment
    auto_script_hub.Dispatch.check_config
again_ok = refl

again_schedule : again.schedule_id ≡ some 5
unfolding retry_managed_run first auto_script_hub.Access.get_accessible_script_or_404
    auto_script_hub.Access.member_of auto_script_hub.Access.accessible_script_ids
    auto_script_hub.Prelude.select auto_script_hub.Dispatch.check_environment
    auto_script_hub.Dispatch.check_config auto_script_hub.Dispatch.new_run
again_schedule = refl

waiting_live : first (is_live_of 5) waiting.runs ≡ some (plan_run 22 pending)
unfolding first
waiting_live = refl

retry_doubles_example :
    2
    ≤ count_where
        (is_live_of 5)
        (retry_managed_run numbers json 21 boss noon waiting waiting).1.runs
retry_doubles_example =
    retry_doubles numbers json 21 boss noon 5 waiting waiting again (plan_run 22 pending) again_ok
      again_schedule waiting_live

none_live : (k : ℕ) → count_where (is_live_of k) quiet.runs ≤ 1
unfolding count_where
none_live k = ground arith

quiet-IsOrderly : IsOrderly quiet
quiet-IsOrderly = record {
  sound = record { keyed = (tt, tt); below = (omega arith, tt) };
  single = record { at = λ k. none_live k };
}

run_now-IsOrderly_example :
    IsOrderly (run_managed_schedule_now numbers json 5 boss noon quiet quiet).1
    × Follows quiet.runs (run_managed_schedule_now numbers json 5 boss noon quiet quiet).1.runs
run_now-IsOrderly_example = run_now-IsOrderly numbers json 5 boss noon quiet quiet-IsOrderly

abbrev planned : Planned numbers json
planned = record { schedule = schedule; agent = device; owner = ada; params = [] }

planned_ok : run_now_checks numbers json quiet 5 boss ≡ ok planned
unfolding run_now_checks first
planned_ok = refl

abbrev raced : Run
raced = reply_run (run_managed_schedule_now numbers json 5 boss noon quiet waiting)

raced_ok : (run_managed_schedule_now numbers json 5 boss noon quiet waiting).0 ≡ ok raced
unfolding run_managed_schedule_now first auto_script_hub.Access.get_accessible_script_or_404
    auto_script_hub.Access.member_of auto_script_hub.Access.accessible_script_ids
    auto_script_hub.Prelude.select auto_script_hub.Dispatch.check_environment
    auto_script_hub.Dispatch.check_config
raced_ok = refl

run_now_race_example :
    2
    ≤ count_where
        (is_live_of 5)
        (run_managed_schedule_now numbers json 5 boss noon quiet waiting).1.runs
run_now_race_example =
    run_now_race numbers json 5 boss noon quiet waiting planned raced (plan_run 22 pending)
      planned_ok raced_ok waiting_live

abbrev after_enable : Db
after_enable =
    schedule_noted boss "managed_schedule.enable" 5 noon
      (write_schedules (λ s. s.id == 5) (restart (noon + 60 * second) boss noon) quiet)

enable_ok : enable_managed_schedule clock 5 boss noon quiet ≡ ok after_enable
unfolding enable_managed_schedule first
enable_ok = refl

quiet-IsRuled : IsRuled quiet
unfolding auto_script_hub.Managed.Constraint.is_allowed_row
quiet-IsRuled = record { rows = (refl, tt) }

Plans-IsRuled_example : IsRuled after_enable
Plans-IsRuled_example =
    Plans-IsRuled clock numbers json quiet after_enable quiet-IsRuled
      (enables {db = quiet} 5 boss noon none_yet enable_ok)

next_later : (e z : String) (t c : ℕ) → clock.next e z t ≡ some c → t < c
next_later e z t c h = ground arith

enable_managed_schedule-IsQuiet_example : IsQuiet 5 noon after_enable
enable_managed_schedule-IsQuiet_example =
    enable_managed_schedule-IsQuiet clock next_later 5 boss noon quiet after_enable enable_ok

abbrev after_removal : Db
after_removal =
    schedule_noted boss "managed_schedule.delete" 5 noon (without_schedule 5 boss noon waiting)

removal_ok : delete_managed_schedule 5 boss noon waiting ≡ ok after_removal
unfolding delete_managed_schedule first
removal_ok = refl

delete_managed_schedule-IsGone_example :
    IsGone 5 after_removal × Follows waiting.runs after_removal.runs
delete_managed_schedule-IsGone_example =
    delete_managed_schedule-IsGone 5 boss noon waiting after_removal removal_ok

-- The schedule is given another interval.
abbrev slower : ScheduleUpdate clock numbers json
slower = record {
  name = none;
  agent_id = none;
  script_id = none;
  params = none;
  environment_id = none;
  schedule_type = none;
  interval_seconds = some (some 120);
  cron_expression = none;
  timezone = none;
  expires_after_seconds = none;
  enabled = none;
  next_run_at = none;
}

abbrev slow_rule : Rule
slow_rule = record {
  kind = interval;
  interval_seconds = some 120;
  cron_expression = none;
  timezone = "UTC";
}

abbrev after_change : Db
after_change = schedule_noted boss "managed_schedule.update" 5 noon (
    write_schedules (λ s. s.id == 5)
      (change_schedule clock numbers json slower slow_rule (some (noon + 120 * second)) boss noon)
      quiet)

change_ok : update_managed_schedule clock numbers json 5 slower boss noon quiet ≡ ok after_change
unfolding update_managed_schedule first auto_script_hub.Access.get_accessible_script_or_404
    auto_script_hub.Access.member_of auto_script_hub.Access.accessible_script_ids
    auto_script_hub.Prelude.select auto_script_hub.Dispatch.check_environment
    auto_script_hub.Dispatch.check_config
change_ok = refl

read_ok : schedule_or_404 quiet 5 ≡ ok schedule
unfolding schedule_or_404 first
read_ok = refl

update_managed_schedule-IsQuiet_example : IsQuiet 5 noon after_change
update_managed_schedule-IsQuiet_example =
    update_managed_schedule-IsQuiet clock next_later numbers json 5 slower boss noon quiet
      after_change schedule read_ok refl change_ok

-- The office goes on: the waiting run is claimed, and the running one is cancelled.
abbrev digest : VersionSource → String
digest v = ""

abbrev claim_of : ClaimRequest
claim_of = record { run_id = 11; agent_id = 2; user = ada; token = none; now = noon }

abbrev cancel_of : CancelRequest
cancel_of = record { run_id = 12; user = boss; now = noon }

abbrev claimed_office : Db
claimed_office = (claim_run decode claim_of office office).1

abbrev later_office : Db
later_office = (cancel_run cancel_of office claimed_office).1

office-History : History decode numbers json next digest office later_office
office-History =
    goes_on {db = claimed_office} (goes_on {db = office} nothing_yet (claims claim_of office))
      (cancels cancel_of office)

History-Follows_example : Follows office.runs later_office.runs × IsSound later_office
History-Follows_example =
    History-Follows decode numbers json next digest office later_office office-IsSound
      office-History

ended_run : run_at 13 office.runs ≡ some (run_with 13 (some 3) (some 3) success)
unfolding first
ended_run = refl

History-ended_example : (q : Run) × (run_at 13 later_office.runs ≡ some q) × (q.status ≡ success)
History-ended_example =
    History-ended decode numbers json next digest office later_office 13
      (run_with 13 (some 3) (some 3) success) office-IsSound office-History ended_run refl
