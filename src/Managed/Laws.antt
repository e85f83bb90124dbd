-- ===== src/Managed/Laws.antt =====
-- backend/app/routers/managed.py: what the runs of managed devices do to the table of runs.
use auto_script_hub.Prelude.{
  ℕ, String, ◌≡◌, refl, Reply, ok, http, count_where, count-unseen, is_none, none, some, Option,
  true,
}
use auto_script_hub.Store.{Db, Agent, User, Run, IsSound, run_key, stay}
use auto_script_hub.Store.Evolution.{
  Keeps, Follows, Follows-refl, Follows-trans, Follows-update_where,
}
use auto_script_hub.Store.Writes.{IsSound-write_runs}
use auto_script_hub.Contract.Params.{Values}
use auto_script_hub.Dispatch.{Json}
use auto_script_hub.Dispatch.Laws.{create_validated_run-Follows}
use auto_script_hub.Scheduler.Scan.{is_live_of}
use auto_script_hub.Managed.{
  noted, mark_retry, marked, ManagedRunCreate, dispatch_checks, manual_order, dispatched,
  dispatch_managed_run, Retry, retry_checks, retry_order, retried, retry_managed_run,
}

-- The audit entry does not touch the runs.
pub noted-runs :
    (actor : User) (action : String) (now : ℕ) (x : Reply Run × Db)
    → (noted actor action now x).1.runs ≡ x.1.runs
unfolding noted
noted-runs actor action now (http c d, db) = refl
noted-runs actor action now (ok r, db) = refl

pub noted-reply :
    (actor : User) (action : String) (now : ℕ) (x : Reply Run × Db)
    → (noted actor action now x).0 ≡ x.0
unfolding noted
noted-reply actor action now (http c d, db) = refl
noted-reply actor action now (ok r, db) = refl

pub noted-IsSound :
    (actor : User) (action : String) (now : ℕ) (x : Reply Run × Db)
    → IsSound x.1
    → IsSound (noted actor action now x).1
unfolding noted
noted-IsSound actor action now (http c d, db) s = s
noted-IsSound actor action now (ok r, db) s = record { keyed = s.keyed; below = s.below }

Keeps-mark_retry : (id : ℕ) (r : Run) → Keeps r (mark_retry id r)
Keeps-mark_retry id r = record {
  same_id = refl;
  same_script = refl;
  same_user = refl;
  same_target = refl;
  same_expiry = refl;
  moved = stay;
  claimed_once = λ c. refl;
}

marked-Follows :
    (id : ℕ) (x : Reply Run × Db) (start : Db)
    → Follows start.runs x.1.runs × IsSound x.1
    → Follows start.runs (marked id x).1.runs × IsSound (marked id x).1
unfolding marked
marked-Follows id (http c d, db) start (f, s) = (f, s)
marked-Follows id (ok r, db) start (f, s) = (
  Follows-trans f (
      Follows-update_where (run_key r.id) (mark_retry id) db.runs (λ q. refl)
        (λ q h. Keeps-mark_retry id q)),
  IsSound-write_runs (run_key r.id) (mark_retry id) db (λ q. refl) s,
)

pub marked-live :
    (id k : ℕ) (x : Reply Run × Db)
    → count_where (is_live_of k) (marked id x).1.runs ≡ count_where (is_live_of k) x.1.runs
unfolding marked
marked-live id k (http c d, db) = refl
marked-live id k (ok r, db) =
    count-unseen (is_live_of k) (run_key r.id) (mark_retry id) db.runs (λ q. refl)

pub none_of : {A : Type 0} (o : Option A) → is_none o ≡ true → o ≡ none
none_of none h = refl
none_of (some a) h = cc

module _ (V : Values) (json : Json V) where
  pub noted-Follows :
      (actor : User) (action : String) (now : ℕ) (start : Db) (x : Reply Run × Db)
      → Follows start.runs x.1.runs × IsSound x.1
      → Follows start.runs (noted actor action now x).1.runs × IsSound (noted actor action now x).1
  noted-Follows actor action now start x (f, s) =
      (rw (noted-runs actor action now x) f, noted-IsSound actor action now x s)

  dispatched-Follows :
      (q : ManagedRunCreate V json) (actor : User) (now : ℕ) (db : Db) (c : Reply (Agent × User))
      → IsSound db
      → Follows db.runs (dispatched V json q actor now db c).1.runs
        × IsSound (dispatched V json q actor now db c).1
  unfolding dispatched
  dispatched-Follows q actor now db (http c d) s = (Follows-refl db.runs, s)
  dispatched-Follows q actor now db (ok (a, u)) s =
      noted-Follows actor "managed_run.dispatch" now db _
        (create_validated_run-Follows V json u (manual_order V json q a actor now) now db s)

  pub dispatch_managed_run-Follows :
      (agent_id : ℕ) (q : ManagedRunCreate V json) (actor : User) (now : ℕ) (seen db : Db)
      → IsSound db
      → Follows db.runs (dispatch_managed_run V json agent_id q actor now seen db).1.runs
        × IsSound (dispatch_managed_run V json agent_id q actor now seen db).1
  unfolding dispatch_managed_run
  dispatch_managed_run-Follows agent_id q actor now seen db s =
      dispatched-Follows q actor now db (dispatch_checks V json seen agent_id actor) s

  retried-Follows :
      (actor : User) (now : ℕ) (db : Db) (c : Reply (Retry V json))
      → IsSound db
      → Follows db.runs (retried V json actor now db c).1.runs
        × IsSound (retried V json actor now db c).1
  unfolding retried
  retried-Follows actor now db (http c d) s = (Follows-refl db.runs, s)
  retried-Follows actor now db (ok x) s = noted-Follows actor "managed_run.retry" now db _ (
      marked-Follows x.original.id _ db
        (create_validated_run-Follows V json x.owner (retry_order V json x actor now) now db s))

  pub retry_managed_run-Follows :
      (run_id : ℕ) (actor : User) (now : ℕ) (seen db : Db)
      → IsSound db
      → Follows db.runs (retry_managed_run V json run_id actor now seen db).1.runs
        × IsSound (retry_managed_run V json run_id actor now seen db).1
  unfolding retry_managed_run
  retry_managed_run-Follows run_id actor now seen db s =
      retried-Follows actor now db (retry_checks V json seen run_id actor) s
