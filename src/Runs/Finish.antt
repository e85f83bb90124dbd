-- ===== src/Runs/Finish.antt =====
-- backend/app/routers/runs.py, update_run_status: an agent reports how its run ended.
-- `seen` is the database of the reads, `db` the one that the UPDATE meets, as in Runs/Claim.
pub mod Laws
pub mod Report
use auto_script_hub.Prelude.{
  ℕ, ℤ, String, Bool, true, false, not, ◌&&◌, Option, none, some, ◌==◌, Reply, ok, http, ◌>>=◌,
  ◌>>◌, require, expect, first, opt_is, or_else, seconds_between,
}
use mathlib.Core.Option
use auto_script_hub.Store.{
  Db, User, Agent, Run, Status, is_running, run_key, run_at, success, failed,
}
use auto_script_hub.Store.Writes.{guarded_update}
use auto_script_hub.Auth.{Decode, verify_agent_token}

-- RunStatusUpdate.status: Literal["success", "failed"]
pub data Outcome : Type 0 where
  succeeded broke : Outcome

abbrev pub outcome_status : Outcome → Status
outcome_status succeeded = success
outcome_status broke = failed

pub record FinishRequest : Type 0 where
  pub run_id : ℕ
  pub outcome : Outcome
  pub error_msg : Option String
  pub result_files : Option String
  pub agent_id : Option ℕ
  pub user : User
  pub token : Option String
  pub now : ℕ

abbrev pub visible_run : ℕ → Run → Bool
visible_run run_id r = r.id == run_id && not r.is_deleted

abbrev pub owning_agent : ℕ → ℕ → Agent → Bool
owning_agent agent_id user_id a = a.id == agent_id && (a.user_id == user_id && not a.is_deleted)

-- The duration that is written, if the run has started.
abbrev pub duration : ℕ → Run → Option ℤ
duration now run = Option.map (λ started. seconds_between started now) run.started_at

unfoldable pub finish_plan : Decode → FinishRequest → Db → Reply (Option ℤ)
finish_plan decode q seen = do
  run ← expect (first (visible_run q.run_id) seen.runs) 404 "执行记录不存在"
  require (run.user_id == q.user.id) 403 "仅任务所属用户可更新状态"
  agent_id ← expect run.agent_id 403 "仅领取任务的 Agent 可更新状态"
  require (opt_is q.agent_id agent_id) 403 "仅领取任务的 Agent 可更新状态"
  agent ← expect (first (owning_agent agent_id run.user_id) seen.agents) 400 "Agent 与任务用户不匹配"
  verify_agent_token decode q.token agent false
  ok (duration q.now run)

-- `Run.agent_id == update.agent_id`, between two nullable values.
abbrev pub same_agent : Option ℕ → Option ℕ → Bool
same_agent none b = false
same_agent (some a) b = opt_is b a

abbrev pub finishable : FinishRequest → Run → Bool
finishable q r =
    r.user_id == q.user.id
    && (same_agent r.agent_id q.agent_id && (is_running r.status && not r.is_deleted))

-- `values` holds the optional columns only where there is something to write.
abbrev pub finish : FinishRequest → Option ℤ → Run → Run
finish q took r = record r {
  status = outcome_status q.outcome;
  finished_at = some q.now;
  duration_sec = or_else took r.duration_sec;
  error_msg = or_else q.error_msg r.error_msg;
  result_files = or_else q.result_files r.result_files;
  updated_at = q.now;
}

finished : Db → Option Db → Reply (Unit {0}) × Db
finished db none = (http 409 "任务已结束或尚未开始，不能更新终态", db)
finished db (some db') = (ok tt, db')

finish_write : FinishRequest → Reply (Option ℤ) → Db → Reply (Unit {0}) × Db
unfolding finished
finish_write q (http c d) db = (http c d, db)
finish_write q (ok took) db =
    finished db (guarded_update q.run_id (finishable q) (finish q took) db)

unfoldable pub update_run_status : Decode → FinishRequest → Db → Db → Reply (Unit {0}) × Db
unfolding finish_plan finish_write
update_run_status decode q seen db = finish_write q (finish_plan decode q seen) db
