-- ===== src/Runs/Cancel.antt =====
-- backend/app/routers/runs.py, cancel_run: the owner of a run, or an admin, cancels it.
-- `seen` is the database of the reads, `db` the one that the UPDATE meets, as in Runs/Claim.
pub mod Laws
use auto_script_hub.Prelude.{
  ℕ, ℤ, String, Bool, true, false, not, ◌&&◌, ◌||◌, Option, none, some, ◌==◌, Reply, ok, http,
  ◌>>=◌, ◌>>◌, require, expect, first, or_else,
}
use auto_script_hub.Store.{
  Db, User, Run, AuditLog, Status, is_live, is_admin, run_at, cancelled, add_audit,
}
use auto_script_hub.Store.Writes.{guarded_update}
use auto_script_hub.Runs.Finish.{visible_run, duration}

pub record CancelRequest : Type 0 where
  pub run_id : ℕ
  pub user : User
  pub now : ℕ

unfoldable pub cancel_plan : CancelRequest → Db → Reply (Option ℤ)
cancel_plan q seen = do
  run ← expect (first (visible_run q.run_id) seen.runs) 404 "执行记录不存在"
  require (run.user_id == q.user.id || is_admin q.user.role) 403 "无权限取消该任务"
  require (is_live run.status) 400 "该任务无法取消"
  ok (duration q.now run)

abbrev pub cancellable : Run → Bool
cancellable r = is_live r.status && not r.is_deleted

abbrev pub cancel : CancelRequest → Option ℤ → Run → Run
cancel q took r = record r {
  status = cancelled;
  finished_at = some q.now;
  duration_sec = or_else took r.duration_sec;
  updated_at = q.now;
}

pub cancel_entry : CancelRequest → AuditLog
cancel_entry q = record {
  user_id = some q.user.id;
  username = some q.user.username;
  action = "cancel_run";
  target_type = some "run";
  target_id = some q.run_id;
  detail = none;
  created_at = q.now;
}

withdrawn : CancelRequest → Db → Option Db → Reply (Unit {0}) × Db
withdrawn q db none = (http 409 "任务状态已变化，无法取消", db)
withdrawn q db (some db') = (ok tt, add_audit (cancel_entry q) db')

cancel_write : CancelRequest → Reply (Option ℤ) → Db → Reply (Unit {0}) × Db
unfolding withdrawn
cancel_write q (http c d) db = (http c d, db)
cancel_write q (ok took) db =
    withdrawn q db (guarded_update q.run_id cancellable (cancel q took) db)

unfoldable pub cancel_run : CancelRequest → Db → Db → Reply (Unit {0}) × Db
unfolding cancel_plan cancel_write
cancel_run q seen db = cancel_write q (cancel_plan q seen) db
