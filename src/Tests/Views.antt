-- ===== src/Tests/Views.antt =====
-- backend/app/routers/runs.py (list_runs, get_run), client/update/state.py and
-- backend/app/services/groups.py at concrete inputs.
use auto_script_hub.Prelude.{
  ℕ, true, false, none, some, List, [], ◌∷◌, ◌≡◌, ◌&&◌, refl, ok, All, is_some,
}
use auto_script_hub.Runs.View.{ListRequest, any_status, list_runs}
use auto_script_hub.Runs.View.Laws.{IsDetailed, list_runs-get_run}
use auto_script_hub.Client.Updates.{
  UpdateState, idle, checking, available, downloading, verified, installing, StateFile, absent,
  read, written, transition, is_allowed,
}
use auto_script_hub.Client.Updates.Laws.{
  Step, moves, annotates, perform, is_trusted, is_verified_since, installs_verified,
}
use auto_script_hub.Store.{Group}
use auto_script_hub.Groups.{assignable_groups}
use auto_script_hub.Groups.Laws.{Assignable, assignable_groups-ok}
use auto_script_hub.Tests.Data.{ada, office, office-IsSound}

-- The second page of one run of what ada may see.
abbrev second_page : ListRequest
second_page = record {
  script_id = some 7;
  status = any_status;
  user_id = none;
  agent_id = none;
  schedule_id = none;
  dispatch_type = none;
  date_from = none;
  date_to = none;
  limit = 1;
  offset = 1;
  mine_only = false;
}

list_runs-get_run_example :
    All (IsDetailed is_some office ada) (list_runs is_some office ada second_page)
list_runs-get_run_example = list_runs-get_run is_some office ada second_page office-IsSound

-- An update from its first check to the installer, with a process id noted on the way.
abbrev update : List (Step ℕ)
update =
    moves checking []
    ∷ moves available []
    ∷ moves downloading []
    ∷ moves verified []
    ∷ moves installing []
    ∷ annotates (("updater_pid", 42) ∷ [])
    ∷ []

abbrev installing_file : StateFile ℕ
installing_file = written ℕ installing (("updater_pid", 42) ∷ [])

update_runs : perform ℕ update absent ≡ some installing_file
unfolding perform transition auto_script_hub.Client.Updates.set_details
update_runs = refl

trusted_now : is_trusted (read ℕ installing_file).state ≡ true
unfolding read
trusted_now = refl

installs_verified_example : is_verified_since ℕ false update ≡ true
installs_verified_example = installs_verified ℕ update installing_file update_runs trusted_now

-- The one group of the installation, for ada, who is a member of it.
abbrev everyone : List Group
everyone = office.groups

groups_lands : assignable_groups office ada (1 ∷ 1 ∷ []) false ≡ ok everyone
unfolding assignable_groups auto_script_hub.Prelude.order_by auto_script_hub.Prelude.select
    auto_script_hub.Access.member_of auto_script_hub.Access.active_group_ids_for_user
    auto_script_hub.Prelude.first
groups_lands = refl

assignable_groups-ok_example : Assignable office ada (1 ∷ 1 ∷ []) everyone
assignable_groups-ok_example =
    assignable_groups-ok office ada (1 ∷ 1 ∷ []) false everyone groups_lands
