-- ===== src/History.antt =====
-- The life of the table of runs: what all requests and scans of the server make of it, one transaction after
-- another. Where a handler reads before it takes the write lock, what it read (`seen`) is any database at all,
-- so that other transactions may stand between its reads and its write. The scans and execute_script are taken
-- with nothing in between, since they write what they read (backend/app/scheduler.py, runs.py).
use auto_script_hub.Prelude.{ℕ, String, Bool, false, Option, some, List, ◌≡◌, ok}
use auto_script_hub.Store.{Db, User, Run, IsSound, run_at, is_live}
use auto_script_hub.Store.Evolution.{Follows, Follows-refl, Follows-trans, Follows-ended}
use auto_script_hub.Auth.{Decode}
use auto_script_hub.Contract.Params.{Values}
use auto_script_hub.Dispatch.{Json, ExecuteRequest, execute_script}
use auto_script_hub.Dispatch.Laws.{Follows-execute_script}
use auto_script_hub.Runs.Claim.{ClaimRequest, claim_run}
use auto_script_hub.Runs.Claim.Laws.{Follows-claim_run, claim_run-IsSound}
use auto_script_hub.Runs.Finish.{FinishRequest, update_run_status}
use auto_script_hub.Runs.Finish.Laws.{Follows-update_run_status, update_run_status-IsSound}
use auto_script_hub.Runs.Cancel.{CancelRequest, cancel_run}
use auto_script_hub.Runs.Cancel.Laws.{Follows-cancel_run, cancel_run-IsSound}
use auto_script_hub.Runs.Log.{ChunkRequest, append_run_log_chunk}
use auto_script_hub.Runs.Log.Path.{append_run_log_chunk-Follows}
use auto_script_hub.Scheduler.Cursor.{CronNext}
use auto_script_hub.Scheduler.Heartbeat.{heartbeat_scan}
use auto_script_hub.Scheduler.Heartbeat.Laws.{Follows-heartbeat_scan, heartbeat_scan-IsSound}
use auto_script_hub.Scheduler.Scan.{managed_schedule_scan}
use auto_script_hub.Scheduler.Scan.Single.{managed_schedule_scan-Follows}
use auto_script_hub.Lifecycle.{VersionSource, disable_agent, enable_agent, delete_agent}
use auto_script_hub.Lifecycle.Runs.{
  disable_agent-Follows, enable_agent-Follows, delete_agent-Follows,
}
use auto_script_hub.Managed.{ManagedRunCreate, dispatch_managed_run, retry_managed_run}
use auto_script_hub.Managed.Laws.{dispatch_managed_run-Follows, retry_managed_run-Follows}
use auto_script_hub.Managed.Schedules.{delete_managed_schedule}
use auto_script_hub.Managed.Due.{delete_managed_schedule-Follows}
use auto_script_hub.Managed.RunNow.{run_managed_schedule_now}
use auto_script_hub.Managed.Single.{run_managed_schedule_now-Follows}

module _ (decode : Decode) (V : Values) (json : Json V) (next : CronNext)
    (digest : VersionSource → String) where
  -- One transaction that may write the table of runs.
  pub data Step (db : Db) : Db → Type 0 where
    claims : (q : ClaimRequest) (seen : Db) → Step db (claim_run decode q seen db).1
    reports : (q : FinishRequest) (seen : Db) → Step db (update_run_status decode q seen db).1
    cancels : (q : CancelRequest) (seen : Db) → Step db (cancel_run q seen db).1
    logs :
        (q : ChunkRequest) (path : String) (file : List ℕ)
        → Step db (append_run_log_chunk decode q path file db).2
    executes : (q : ExecuteRequest V json) → Step db (execute_script V json q db db).1
    dispatches :
        (agent_id : ℕ) (q : ManagedRunCreate V json) (actor : User) (now : ℕ) (seen : Db)
        → Step db (dispatch_managed_run V json agent_id q actor now seen db).1
    retries :
        (run_id : ℕ) (actor : User) (now : ℕ) (seen : Db)
        → Step db (retry_managed_run V json run_id actor now seen db).1
    runs_now :
        (id : ℕ) (actor : User) (now : ℕ) (seen : Db)
        → Step db (run_managed_schedule_now V json id actor now seen db).1
    unplans :
        {db' : Db} (id : ℕ) (actor : User) (now : ℕ)
        → delete_managed_schedule id actor now db ≡ ok db'
        → Step db db'
    watches : (now : ℕ) → Step db (heartbeat_scan now db db)
    scans : {db' : Db} (now : ℕ) → managed_schedule_scan V json next now db ≡ some db' → Step db db'
    disables :
        (id : ℕ) (actor : User) (expected : Option String) (managed_only : Bool) (now : ℕ)
        → Step db (disable_agent digest db id actor expected managed_only now).1
    enables :
        (id : ℕ) (actor : User) (managed_only : Bool) (now : ℕ)
        → Step db (enable_agent digest db id actor managed_only now).1
    deletes :
        (id : ℕ) (actor : User) (expected : Option String) (require_preview managed_only : Bool)
        (now : ℕ)
        → Step db (delete_agent digest db id actor expected require_preview managed_only now).1
    -- Whatever writes other tables only.
    elsewhere : {db' : Db} → db'.runs ≡ db.runs → db'.next_run_id ≡ db.next_run_id → Step db db'

  -- A step keeps the key of the table and moves runs only along the diagram.
  Step-Follows : (db db' : Db) → IsSound db → Step db db' → Follows db.runs db'.runs × IsSound db'
  Step-Follows db db' s (claims q seen) =
      (Follows-claim_run decode q seen db, claim_run-IsSound decode q seen db s)
  Step-Follows db db' s (reports q seen) =
      (Follows-update_run_status decode q seen db, update_run_status-IsSound decode q seen db s)
  Step-Follows db db' s (cancels q seen) =
      (Follows-cancel_run q seen db, cancel_run-IsSound q seen db s)
  Step-Follows db db' s (logs q path file) = append_run_log_chunk-Follows decode q path file db s
  Step-Follows db db' s (executes q) = Follows-execute_script V json q db s
  Step-Follows db db' s (dispatches agent_id q actor now seen) =
      dispatch_managed_run-Follows V json agent_id q actor now seen db s
  Step-Follows db db' s (retries run_id actor now seen) =
      retry_managed_run-Follows V json run_id actor now seen db s
  Step-Follows db db' s (runs_now id actor now seen) =
      run_managed_schedule_now-Follows V json id actor now seen db s
  Step-Follows db db' s (unplans id actor now h) =
      delete_managed_schedule-Follows id actor now db db' s h
  Step-Follows db db' s (watches now) =
      (Follows-heartbeat_scan now db s, heartbeat_scan-IsSound now db db s)
  Step-Follows db db' s (scans now h) = managed_schedule_scan-Follows V json next now db db' s h
  Step-Follows db db' s (disables id actor expected managed_only now) =
      disable_agent-Follows digest db id actor expected managed_only now s
  Step-Follows db db' s (enables id actor managed_only now) =
      enable_agent-Follows digest db id actor managed_only now s
  Step-Follows db db' s (deletes id actor expected require_preview managed_only now) =
      delete_agent-Follows digest db id actor expected require_preview managed_only now s
  Step-Follows db db' s (elsewhere same count) = (
    rw same (Follows-refl db.runs),
    record { keyed = rw same s.keyed; below = rw (same, count) s.below },
  )

  -- What the server may have made of `start`.
  pub data History (start : Db) : Db → Type 0 where
    nothing_yet : History start start
    goes_on : {db db' : Db} → History start db → Step db db' → History start db'

  -- From a table of runs whose key holds, whatever the server does, in any order and with whatever
  -- was read before (but for the scans and execute_script, which read what they write): the key is
  -- kept, every run stays in the table, moves only along the diagram of statuses, and keeps its
  -- script, user, target and expiry, and, once it is claimed, its agent.
  pub History-Follows :
      (start db : Db) → IsSound start → History start db → Follows start.runs db.runs × IsSound db
  History-Follows start db s nothing_yet = (Follows-refl start.runs, s)
  History-Follows start db s (goes_on {db = before} h step) =
      let (f, t) = History-Follows start before s h in
      let (g, u) = Step-Follows before db t step in (Follows-trans f g, u)

  -- A run that has ended is still there at any later time, with the status that it ended in, under
  -- the same conditions.
  pub History-ended :
      (start db : Db) (i : ℕ) (r : Run)
      → IsSound start
      → History start db
      → run_at i start.runs ≡ some r
      → is_live r.status ≡ false
      → (q : Run) × (run_at i db.runs ≡ some q) × (q.status ≡ r.status)
  History-ended start db i r s h e ended =
      Follows-ended i r (History-Follows start db s h).0 e ended
