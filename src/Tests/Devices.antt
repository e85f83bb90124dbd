-- ===== src/Tests/Devices.antt =====
-- backend/app/services/managed_agent_lifecycle.py at concrete inputs.
use auto_script_hub.Prelude.{
  ℕ, String, if◌then◌else◌, Bool, true, false, some, none, List, [], ◌∷◌, ◌≡◌, ◌≢◌, refl, ok, All,
  first,
}
use auto_script_hub.Store.{Db, Agent, run_at, pending, running}
use auto_script_hub.Runs.Claim.{ClaimRequest, claim_run}
use auto_script_hub.Lifecycle.{
  Action, disable, VersionSource, AgentState, Impact, version_source, agent_or_404,
  preview_agent_impact, disable_agent, delete_agent, manageable, snapshot, waits_for, runs_on,
  stop_active_work,
}
use auto_script_hub.Lifecycle.Effects.{
  IsIdle, stop-others, disable_agent-IsIdle, delete_agent-IsIdle,
}
use auto_script_hub.Lifecycle.Preview.{IsStill, disable-previewed, claim-IsIdle}
use auto_script_hub.Tests.Data.{ada, boss, device, decode, noon, office, office-IsSound, run_with}

-- A digest that says nothing, where no two sources are compared.
abbrev mute : VersionSource → String
mute s = "v"

disable_lands : (disable_agent mute office 3 boss (some "v") true noon).0 ≡ ok device
unfolding disable_agent auto_script_hub.Lifecycle.disable_checks first
disable_lands = refl

disable_agent-IsIdle_example : IsIdle 3 (disable_agent mute office 3 boss (some "v") true noon).1
disable_agent-IsIdle_example =
    disable_agent-IsIdle mute office 3 boss (some "v") true noon device disable_lands

delete_lands : (delete_agent mute office 3 boss (some "v") true true noon).0 ≡ ok device
unfolding delete_agent auto_script_hub.Lifecycle.delete_checks first
delete_lands = refl

delete_agent-IsIdle_example :
    IsIdle 3 (delete_agent mute office 3 boss (some "v") true true noon).1
    × All
        (λ (x : Agent). manageable 3 false x ≡ false)
        (delete_agent mute office 3 boss (some "v") true true noon).1.agents
delete_agent-IsIdle_example =
    delete_agent-IsIdle mute office 3 boss (some "v") true true noon device delete_lands

untouched_row : run_at 11 office.runs ≡ some (run_with 11 none none pending)
unfolding first
untouched_row = refl

stop-others_example :
    run_at 11 (stop_active_work 3 "off" 9 noon office).runs ≡ some (run_with 11 none none pending)
stop-others_example =
    stop-others 3 "off" 9 noon office 11 (run_with 11 none none pending) untouched_row refl refl

-- The device claims, once it has been disabled.
abbrev late_claim : ClaimRequest
late_claim = record { run_id = 11; agent_id = 3; user = ada; token = some "t"; now = noon }

claim-IsIdle_example :
    (claim_run decode late_claim (disable_agent mute office 3 boss (some "v") true noon).1 office).0
    ≢ ok (run_with 11 none none running)
claim-IsIdle_example =
    claim-IsIdle decode late_claim (disable_agent mute office 3 boss (some "v") true noon).1 office
      (run_with 11 none none running) office-IsSound
      (disable_agent-IsIdle mute office 3 boss (some "v") true noon device disable_lands)

-- A digest that tells whether the agent is enabled, and a run that is not the device's in between.
abbrev tells : VersionSource → String
tells s = if s.agent.enabled then "on" else "off"

abbrev office_later : Db
office_later = record office { runs = run_with 14 none none pending ∷ office.runs }

abbrev impact : Impact
impact = snapshot tells office device disable

device_found : agent_or_404 office 3 true ≡ ok device
unfolding agent_or_404 first
device_found = refl

previewed : preview_agent_impact tells office 3 disable true ≡ ok impact
unfolding preview_agent_impact agent_or_404 first
previewed = refl

disable_lands_later :
    (disable_agent tells office_later 3 boss (some impact.version) true noon).0 ≡ ok device
unfolding disable_agent auto_script_hub.Lifecycle.disable_checks first version_source
disable_lands_later = refl

same_source : version_source office device disable ≡ version_source office_later device disable
unfolding version_source auto_script_hub.Lifecycle.pending_of auto_script_hub.Lifecycle.running_of
    auto_script_hub.Lifecycle.schedules_of auto_script_hub.Prelude.select
same_source = refl

disable-previewed_example : IsStill office office_later device device impact
disable-previewed_example =
    disable-previewed tells office office_later 3 boss true noon impact device device
      (λ e. same_source) device_found previewed disable_lands_later
