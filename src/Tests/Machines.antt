-- ===== src/Tests/Machines.antt =====
-- Machines that register and ask for work.
use auto_script_hub.Prelude.{
  ℕ, String, Bool, true, false, Option, none, some, List, [], ◌∷◌, ◌≡◌, ◌≢◌, ◌≤◌, refl, arith,
  Reply, ok, http, first, count_where,
}
use auto_script_hub.Store.{Db, Run, pending}
use auto_script_hub.Lifecycle.{set_agent}
use auto_script_hub.Runs.Claim.{ClaimRequest, assign, claim_run}
use auto_script_hub.Agents.{AgentRegister, has_uid, refresh, register_agent}
use auto_script_hub.Agents.Spares.{IsRegistry, Handled}
use auto_script_hub.Agents.Laws.{register_agent-Handled}
use auto_script_hub.Agents.Next.{get_next_run}
use auto_script_hub.Agents.Offered.{get_next_run-claim_run, get_next_run-none}
use auto_script_hub.Tests.Data.{noon, ada, desktop, run_with, office, office-IsSound, decode}

abbrev legacy : ℕ → String → String
legacy user_id name = "legacy"

abbrev one_machine : Db
one_machine = record office { agents = desktop ∷ [] }

once_each : (uid : String) → count_where (has_uid uid) one_machine.agents ≤ 1
unfolding count_where
once_each uid = ground arith

one_machine-IsRegistry : IsRegistry one_machine
one_machine-IsRegistry = record {
  fresh = record { keyed = (tt, tt); below = (omega arith, tt) };
  once = once_each;
}

-- The machine comes back under its old name.
abbrev again : AgentRegister
again = record {
  device_uid = some "uid";
  machine_name = "pc";
  machine_ip = some "10.0.0.7";
  agent_version = some "2";
  mode = none;
  enabled = none;
  thumbnail_capture_paused = none;
  user = ada;
  token = none;
  now = noon;
}

abbrev after_register : Db
after_register = set_agent 2 (refresh again "pc" (some "uid")) one_machine

register_ok : register_agent legacy decode again one_machine ≡ ok after_register
unfolding register_agent first
register_ok = refl

register_agent-Handled_example : Handled 1 one_machine after_register
register_agent-Handled_example =
    register_agent-Handled legacy decode again one_machine after_register one_machine-IsRegistry
      register_ok

abbrev waiting_run : Run
waiting_run = run_with 11 none none pending

offered : get_next_run decode 2 ada none noon office ≡ ok (some waiting_run)
unfolding get_next_run first auto_script_hub.Auth.verify_agent_token
    auto_script_hub.Prelude.order_by auto_script_hub.Prelude.select
offered = refl

abbrev claim_it : ClaimRequest
claim_it = record { run_id = 11; agent_id = 2; user = ada; token = none; now = noon }

get_next_run-claim_run_example :
    (claim_run decode claim_it office office).0 ≡ ok (assign 2 noon waiting_run)
get_next_run-claim_run_example =
    get_next_run-claim_run decode 2 ada none noon office waiting_run office-IsSound offered refl

-- The managed device has nothing to do.
abbrev claim_any : ClaimRequest
claim_any = record { run_id = 11; agent_id = 3; user = ada; token = some "t"; now = noon }

nothing : get_next_run decode 3 ada (some "t") noon office ≡ ok none
unfolding get_next_run first auto_script_hub.Auth.verify_agent_token
    auto_script_hub.Prelude.order_by auto_script_hub.Prelude.select
nothing = refl

get_next_run-none_example :
    (claim_run decode claim_any office office).0 ≢ ok (assign 3 noon waiting_run)
get_next_run-none_example =
    get_next_run-none decode claim_any office (assign 3 noon waiting_run) office-IsSound nothing
