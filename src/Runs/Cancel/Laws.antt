-- ===== src/Runs/Cancel/Laws.antt =====
-- backend/app/routers/runs.py, cancel_run: only a live run is cancelled, by its owner or an admin.
use auto_script_hub.Prelude.{
  ℤ, true, false, Option, some, Reply, ok, http, ◌≡◌, refl, arith, Option-cases, inl, inr, is_ok,
  ◌==◌, ◌||◌, first, expect, >>=-eq-ok, expect-eq-ok,
}
use auto_script_hub.Store.{Db, Run, is_live, run_at, IsSound, live-cancelled, is_admin}
use auto_script_hub.Store.Evolution.{Keeps, Follows, Follows-refl}
use auto_script_hub.Store.Writes.{
  guarded_update, guarded_update-some, guarded_update-IsSound, Follows-guarded_update,
}
use auto_script_hub.Runs.Finish.{visible_run, duration}
use auto_script_hub.Runs.Cancel.{
  CancelRequest, cancel_plan, cancellable, cancel, cancel_write, cancel_run,
}

Keeps-cancel :
    (q : CancelRequest) (took : Option ℤ) (r : Run)
    → cancellable r ≡ true
    → Keeps r (cancel q took r)
Keeps-cancel q took r h = record {
  same_id = refl;
  same_script = refl;
  same_user = refl;
  same_target = refl;
  same_expiry = refl;
  moved = live-cancelled r.status (ground arith);
  claimed_once = λ c. refl;
}

Follows-cancel_write :
    (q : CancelRequest) (p : Reply (Option ℤ)) (db : Db)
    → Follows db.runs (cancel_write q p db).1.runs
unfolding cancel_write
Follows-cancel_write q (http c d) db = Follows-refl db.runs
Follows-cancel_write q (ok took) db =
    elim (Option-cases (guarded_update q.run_id cancellable (cancel q took) db)) [
      | inl e ↦ rw e (Follows-refl db.runs)
      | inr (db', e) ↦
          rw e (Follows-guarded_update q.run_id _ _ db (λ r. refl) (Keeps-cancel q took) e)
    ]

-- Whatever was read first, a cancel moves runs only along the diagram.
pub Follows-cancel_run :
    (q : CancelRequest) (seen db : Db) → Follows db.runs (cancel_run q seen db).1.runs
unfolding cancel_run
Follows-cancel_run q seen db = Follows-cancel_write q (cancel_plan q seen) db

cancel_write-IsSound :
    (q : CancelRequest) (p : Reply (Option ℤ)) (db : Db)
    → IsSound db
    → IsSound (cancel_write q p db).1
unfolding cancel_write
cancel_write-IsSound q (http c d) db s = s
cancel_write-IsSound q (ok took) db s =
    elim (Option-cases (guarded_update q.run_id cancellable (cancel q took) db)) [
      | inl e ↦ rw e s
      | inr (db', e) ↦
          let t = guarded_update-IsSound q.run_id _ _ db s (λ r. refl) e in
          rw e (record { keyed = t.keyed; below = t.below })
    ]

pub cancel_run-IsSound :
    (q : CancelRequest) (seen db : Db) → IsSound db → IsSound (cancel_run q seen db).1
unfolding cancel_run
cancel_run-IsSound q seen db s = cancel_write-IsSound q (cancel_plan q seen) db s

-- What an accepted cancel has met: the run as it was read, whose owner or an admin asks, and the
-- row as it was written, still live then.
pub record Cancelled (q : CancelRequest) (seen before after : Db) : Type 0 where
  pub read : Run
  pub was_read : first (visible_run q.run_id) seen.runs ≡ some read
  pub may : (read.user_id == q.user.id || is_admin q.user.role) ≡ true
  pub row : Run
  pub was_there : run_at q.run_id before.runs ≡ some row
  pub was_live : is_live row.status ≡ true
  pub is_there : run_at q.run_id after.runs ≡ some (cancel q (duration q.now read) row)

cancel_plan-ok :
    (q : CancelRequest) (seen : Db) (took : Option ℤ)
    → cancel_plan q seen ≡ ok took
    → (r : Run) × (first (visible_run q.run_id) seen.runs ≡ some r)
      × ((r.user_id == q.user.id || is_admin q.user.role) ≡ true)
      × (took ≡ duration q.now r)
unfolding cancel_plan
cancel_plan-ok q seen took h =
    let (r, found, rest) = >>=-eq-ok (expect (first (visible_run q.run_id) seen.runs) 404 _) _ h in
    (
      r,
      expect-eq-ok (first (visible_run q.run_id) seen.runs) 404 _ found,
      ground arith,
      ground arith,
    )

cancel_write-ok :
    (q : CancelRequest) (seen db : Db) (p : Reply (Option ℤ))
    → cancel_plan q seen ≡ p
    → IsSound db
    → is_ok (cancel_write q p db).0 ≡ true
    → Cancelled q seen db (cancel_write q p db).1
unfolding cancel_write
cancel_write-ok q seen db (http c d) e s h = cc
cancel_write-ok q seen db (ok took) e s h =
    elim (Option-cases (guarded_update q.run_id cancellable (cancel q took) db)) [
      | inl g ↦ let n : false ≡ true = rw g at h in cc
      | inr (db', g) ↦
          let (r, found, may, took_is) = cancel_plan-ok q seen took e in
          let w = guarded_update-some q.run_id _ _ db s (λ x. refl) g in
          rw g (record {
            read = r;
            was_read = found;
            may = may;
            row = w.row;
            was_there = w.was_there;
            was_live = ground arith;
            is_there = rw (← took_is) w.is_there;
          })
    ]

-- A cancel that is accepted was asked by the run's owner or an admin, and has found the run pending or
-- running when it was written; the run is cancelled now.
pub cancel_run-ok :
    (q : CancelRequest) (seen db : Db)
    → IsSound db
    → is_ok (cancel_run q seen db).0 ≡ true
    → Cancelled q seen db (cancel_run q seen db).1
unfolding cancel_run
cancel_run-ok q seen db s h = cancel_write-ok q seen db _ refl s h
