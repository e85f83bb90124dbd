-- ===== src/Runs/Claim.antt =====
-- backend/app/routers/runs.py, claim_run: an agent takes a pending run.
-- `seen` is the database that the handler reads first, `db` the one that its UPDATE meets; what
-- other requests commit in between is whatever leads from one to the other. The clock is read once.
pub mod Laws
use auto_script_hub.Prelude.{
  ℕ, String, Bool, true, false, not, ◌&&◌, ◌||◌, Option, none, some, ◌==◌, leb, ltb, Reply, ok,
  http, ◌>>=◌, ◌>>◌, require, expect, first, update_where, count_where, holds, opt_is, is_none,
  is_some, if◌then◌else◌,
}
use auto_script_hub.Store.{
  Db, User, Agent, Run, is_managed, is_pending, run_key, run_at, Status, running, expired,
}
use auto_script_hub.Store.Writes.{guarded_update}
use auto_script_hub.Auth.{Decode, verify_agent_token}

pub data Plan : Type 0 where
  lapse : Plan
  take_for : Agent → Plan

-- The agent that a request speaks for.
abbrev pub callers_agent : ℕ → ℕ → Agent → Bool
callers_agent agent_id user_id a =
    a.id == agent_id && (a.user_id == user_id && (a.enabled && not a.is_deleted))

abbrev pub callers_run : ℕ → ℕ → Run → Bool
callers_run run_id user_id r = r.id == run_id && (r.user_id == user_id && not r.is_deleted)

-- What is decided before the first write.
unfoldable pub claim_checks : Agent → ℕ → Run → Reply Plan
claim_checks agent now candidate =
    if holds (λ e. leb e now) candidate.expires_at then ok lapse else do
      require (not (holds (λ t. ltb now t) candidate.scheduled_for)) 409 "任务尚未到执行时间"
      require (is_none candidate.target_agent_id || opt_is candidate.target_agent_id agent.id) 403
          "任务已定向到其他 Agent"
      require (not (is_managed agent.mode) || opt_is candidate.target_agent_id agent.id) 403
          "托管 Agent 只能领取定向任务"
      require (is_managed agent.mode || is_none candidate.target_agent_id) 403 "标准 Agent 不能领取托管任务"
      ok (take_for agent)

unfoldable pub claim_plan : Decode → ℕ → ℕ → User → Option String → ℕ → Db → Reply Plan
unfolding claim_checks
claim_plan decode run_id agent_id user token now seen = do
  agent ← expect (first (callers_agent agent_id user.id) seen.agents) 400 "Agent 与任务用户不匹配或已禁用"
  verify_agent_token decode token agent false
  candidate ← expect (first (callers_run run_id user.id) seen.runs) 404 "执行记录不存在"
  claim_checks agent now candidate

-- The rows that each UPDATE names, beside their id, and what it sets.
abbrev pub expirable : Run → Bool
expirable r = is_pending r.status && not r.is_deleted

abbrev pub expire : ℕ → Run → Run
expire now r = record r { status = expired; finished_at = some now; updated_at = now }

abbrev pub is_due : ℕ → Run → Bool
is_due now r =
    (is_none r.scheduled_for || holds (λ t. leb t now) r.scheduled_for)
    && (is_none r.expires_at || holds (λ e. ltb now e) r.expires_at)

abbrev pub is_open_to : ℕ → ℕ → ℕ → Run → Bool
is_open_to user_id agent_id now r =
    r.user_id == user_id
    && (not r.is_deleted
        && (is_pending r.status
            && (is_none r.agent_id
                && (is_due now r
                    && (is_none r.target_agent_id || opt_is r.target_agent_id agent_id)))))

abbrev pub assign : ℕ → ℕ → Run → Run
assign agent_id now r = record r {
  status = running;
  agent_id = some agent_id;
  claimed_at = some now;
  started_at = some now;
  updated_at = now;
}

-- The UPDATE to `expired` is committed where it wrote one row.
abbrev pub committed_or : Db → Option Db → Db
committed_or db none = db
committed_or db (some db') = db'

unfoldable pub expire_run : ℕ → ℕ → Db → Db
expire_run run_id now db = committed_or db (guarded_update run_id expirable (expire now) db)

unfoldable pub refusal : ℕ → User → Db → Reply Run
refusal run_id user db = do
  run ← expect (first (λ r. r.id == run_id && not r.is_deleted) db.runs) 404 "执行记录不存在"
  require (run.user_id == user.id) 403 "无权限领取该任务"
  http 409 "任务已被领取或不再待执行"

taken : ℕ → User → Db → Option Db → Reply Run × Db
unfolding refusal
taken run_id user db none = (refusal run_id user db, db)
taken run_id user db (some db') = (expect (run_at run_id db'.runs) 500 "Internal Server Error", db')

unfoldable pub take_run : ℕ → User → Agent → ℕ → Db → Reply Run × Db
unfolding taken
take_run run_id user agent now db =
    taken run_id user db
      (guarded_update run_id (is_open_to user.id agent.id now) (assign agent.id now) db)

unfoldable pub carry_out : ℕ → User → ℕ → Reply Plan → Db → Reply Run × Db
carry_out run_id user now (http c d) db = (http c d, db)
carry_out run_id user now (ok lapse) db = (http 409 "任务已过期或已被领取", expire_run run_id now db)
carry_out run_id user now (ok (take_for agent)) db = take_run run_id user agent now db

-- A request: the run in its path, the agent in its body, who makes it, its X-Agent-Token and when.
pub record ClaimRequest : Type 0 where
  pub run_id : ℕ
  pub agent_id : ℕ
  pub user : User
  pub token : Option String
  pub now : ℕ

unfoldable pub claim_run : Decode → ClaimRequest → Db → Db → Reply Run × Db
unfolding claim_plan carry_out
claim_run decode q seen db =
    carry_out q.run_id q.user q.now
      (claim_plan decode q.run_id q.agent_id q.user q.token q.now seen) db
