-- ===== src/Agents/Next.antt =====
-- backend/app/routers/agents.py, get_next_run: which run an agent is offered.
-- SQLite puts NULL before every instant.
use auto_script_hub.Prelude.{
  ℕ, String, Bool, true, false, ◌&&◌, ◌||◌, Option, none, some, ◌==◌, ltb, Reply, ok, ◌>>=◌, ◌>>◌,
  expect, first, select, order_by, is_none, opt_is, not, if◌then◌else◌,
}
use auto_script_hub.Store.{Db, Agent, User, Run, is_managed, is_pending}
use auto_script_hub.Auth.{Decode, verify_agent_token}
use auto_script_hub.Runs.Claim.{callers_agent, is_due}

-- The filter on the target, by the agent's mode.
abbrev pub is_for : Agent → Run → Bool
is_for agent r =
    if is_managed agent.mode then opt_is r.target_agent_id agent.id else is_none r.target_agent_id

abbrev pub is_offered : Agent → ℕ → ℕ → Run → Bool
is_offered agent user_id now r =
    r.user_id == user_id
    && (is_pending r.status && (not r.is_deleted && (is_due now r && is_for agent r)))

abbrev pub is_earlier : Option ℕ → Option ℕ → Bool
is_earlier none none = false
is_earlier none (some b) = true
is_earlier (some a) none = false
is_earlier (some a) (some b) = ltb a b

abbrev pub comes_first : Run → Run → Bool
comes_first a b =
    is_earlier a.scheduled_for b.scheduled_for
    || (not (is_earlier b.scheduled_for a.scheduled_for) && ltb a.created_at b.created_at)

unfoldable pub next_run : Agent → ℕ → ℕ → Db → Option Run
next_run agent user_id now db =
    first (λ r. true) (order_by comes_first (select (is_offered agent user_id now) db.runs))

unfoldable pub get_next_run : Decode → ℕ → User → Option String → ℕ → Db → Reply (Option Run)
unfolding next_run
get_next_run decode agent_id user token now db = do
  agent ← expect (first (callers_agent agent_id user.id) db.agents) 404 "Agent 不存在或已禁用"
  verify_agent_token decode token agent false
  ok (next_run agent user.id now db)
