-- ===== src/Runs/Finish/Laws.antt =====
-- backend/app/routers/runs.py, update_run_status: only a run that is running ends by a report.
use auto_script_hub.Prelude.{
  ℤ, true, false, Option, some, Reply, ok, http, ◌≡◌, refl, arith, Option-cases, inl, inr, is_ok,
}
use auto_script_hub.Store.{
  Db, Run, Status, is_running, run_at, IsSound, ◌⟶*◌, running-success, running-failed,
}
use auto_script_hub.Store.Evolution.{Keeps, Follows, Follows-refl}
use auto_script_hub.Store.Writes.{
  guarded_update, guarded_update-some, guarded_update-IsSound, guarded_update-miss,
  Follows-guarded_update, Wrote,
}
use auto_script_hub.Auth.{Decode}
use auto_script_hub.Runs.Finish.{
  Outcome, succeeded, broke, outcome_status, FinishRequest, finishable, finish, finish_plan,
  finish_write, update_run_status,
}

running-outcome : (o : Outcome) (s : Status) → is_running s ≡ true → s ⟶* outcome_status o
running-outcome succeeded s h = running-success s h
running-outcome broke s h = running-failed s h

Keeps-finish :
    (q : FinishRequest) (took : Option ℤ) (r : Run)
    → finishable q r ≡ true
    → Keeps r (finish q took r)
Keeps-finish q took r h = record {
  same_id = refl;
  same_script = refl;
  same_user = refl;
  same_target = refl;
  same_expiry = refl;
  moved = running-outcome q.outcome r.status (ground arith);
  claimed_once = λ c. refl;
}

Follows-finish_write :
    (q : FinishRequest) (p : Reply (Option ℤ)) (db : Db)
    → Follows db.runs (finish_write q p db).1.runs
unfolding finish_write
Follows-finish_write q (http c d) db = Follows-refl db.runs
Follows-finish_write q (ok took) db =
    elim (Option-cases (guarded_update q.run_id (finishable q) (finish q took) db)) [
      | inl e ↦ rw e (Follows-refl db.runs)
      | inr (db', e) ↦
          rw e (Follows-guarded_update q.run_id _ _ db (λ r. refl) (Keeps-finish q took) e)
    ]

-- Whatever was read first, a report moves runs only along the diagram.
pub Follows-update_run_status :
    (decode : Decode) (q : FinishRequest) (seen db : Db)
    → Follows db.runs (update_run_status decode q seen db).1.runs
unfolding update_run_status
Follows-update_run_status decode q seen db = Follows-finish_write q (finish_plan decode q seen) db

finish_write-IsSound :
    (q : FinishRequest) (p : Reply (Option ℤ)) (db : Db)
    → IsSound db
    → IsSound (finish_write q p db).1
unfolding finish_write
finish_write-IsSound q (http c d) db s = s
finish_write-IsSound q (ok took) db s =
    elim (Option-cases (guarded_update q.run_id (finishable q) (finish q took) db)) [
      | inl e ↦ rw e s
      | inr (db', e) ↦ rw e (guarded_update-IsSound q.run_id _ _ db s (λ r. refl) e)
    ]

pub update_run_status-IsSound :
    (decode : Decode) (q : FinishRequest) (seen db : Db)
    → IsSound db
    → IsSound (update_run_status decode q seen db).1
unfolding update_run_status
update_run_status-IsSound decode q seen db s =
    finish_write-IsSound q (finish_plan decode q seen) db s

-- What an accepted report leaves behind, in the code's words.
pub record Finished (decode : Decode) (q : FinishRequest) (seen before after : Db) : Type 0 where
  pub took : Option ℤ
  pub planned : finish_plan decode q seen ≡ ok took
  pub wrote : Wrote q.run_id (finishable q) (finish q took) before after

finish_write-ok :
    (decode : Decode) (q : FinishRequest) (seen db : Db) (p : Reply (Option ℤ))
    → finish_plan decode q seen ≡ p
    → IsSound db
    → is_ok (finish_write q p db).0 ≡ true
    → Finished decode q seen db (finish_write q p db).1
unfolding finish_write
finish_write-ok decode q seen db (http c d) e s h = cc
finish_write-ok decode q seen db (ok took) e s h =
    elim (Option-cases (guarded_update q.run_id (finishable q) (finish q took) db)) [
      | inl g ↦ let n : false ≡ true = rw g at h in cc
      | inr (db', g) ↦ rw g (record {
        took = took;
        planned = e;
        wrote = guarded_update-some q.run_id _ _ db s (λ r. refl) g;
      })
    ]

pub update_run_status-Finished :
    (decode : Decode) (q : FinishRequest) (seen db : Db)
    → IsSound db
    → is_ok (update_run_status decode q seen db).0 ≡ true
    → Finished decode q seen db (update_run_status decode q seen db).1
unfolding update_run_status
update_run_status-Finished decode q seen db s h = finish_write-ok decode q seen db _ refl s h

finish_write-conflict :
    (q : FinishRequest) (p : Reply (Option ℤ)) (db : Db) (r : Run)
    → IsSound db
    → run_at q.run_id db.runs ≡ some r
    → is_running r.status ≡ false
    → (is_ok (finish_write q p db).0 ≡ false) × ((finish_write q p db).1 ≡ db)
unfolding finish_write
finish_write-conflict q (http c d) db r s e h = (refl, refl)
finish_write-conflict q (ok took) db r s e h =
    rw (guarded_update-miss q.run_id (finishable q) (finish q took) db s e (ground arith))
      (refl, refl)

-- A concurrent cancel or watchdog failure wins: where the run is no longer running at the UPDATE, the
-- report is refused and the database is left as it was.
pub update_run_status_conflict :
    (decode : Decode) (q : FinishRequest) (seen db : Db) (r : Run)
    → IsSound db
    → run_at q.run_id db.runs ≡ some r
    → is_running r.status ≡ false
    → (is_ok (update_run_status decode q seen db).0 ≡ false)
      × ((update_run_status decode q seen db).1 ≡ db)
unfolding update_run_status
update_run_status_conflict decode q seen db r s e h =
    finish_write-conflict q (finish_plan decode q seen) db r s e h
