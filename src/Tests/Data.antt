-- ===== src/Tests/Data.antt =====
-- A small installation: a user with a desktop and a managed device, an admin, a script, its runs and
-- its schedule.
use auto_script_hub.Prelude.{
  ℕ, String, true, false, Option, none, some, List, [], ◌∷◌, ◌==◌, ◌+◌, ltb, arith,
}
use auto_script_hub.Store.{
  Db, User, Agent, Script, Run, Schedule, Role, admin, operator, active, online, Mode, standard,
  managed, Status, pending, running, success, standard_run, interval, IsSound, second,
}
use auto_script_hub.Auth.{Decode}
use auto_script_hub.Contract.Params.{Values}
use auto_script_hub.Dispatch.{Json}
use auto_script_hub.Scheduler.Cursor.{CronNext}

abbrev pub noon : ℕ
noon = 1_000_000_000_000

abbrev pub user_with : ℕ → String → Role → User
user_with id name role = record {
  id = id;
  username = name;
  password_hash = "";
  auth_source = "local";
  external_subject = none;
  display_name = name;
  role = role;
  status = active;
  last_login_at = none;
  created_at = 0;
  updated_at = 0;
  created_by = none;
  updated_by = none;
  is_deleted = false;
}

abbrev pub ada : User
ada = user_with 1 "ada" operator

abbrev pub boss : User
boss = user_with 9 "boss" admin

abbrev pub agent_with : ℕ → Mode → Agent
agent_with id mode = record {
  id = id;
  device_uid = "uid";
  machine_name = "pc";
  machine_ip = none;
  user_id = 1;
  mode = mode;
  enabled = true;
  status = online;
  agent_version = none;
  last_heartbeat = some 0;
  agent_token_issued_at = none;
  thumbnail_updated_at = none;
  thumbnail_size = none;
  thumbnail_capture_paused = false;
  created_at = 0;
  updated_at = 0;
  is_deleted = false;
}

abbrev pub desktop : Agent
desktop = agent_with 2 standard

abbrev pub device : Agent
device = agent_with 3 managed

abbrev pub script : Script
script = record {
  id = 7;
  name = "tidy";
  description = none;
  category = none;
  kind = "python";
  latest_version = 4;
  config_json = none;
  status = active;
  created_at = 0;
  updated_at = 0;
  created_by = none;
  updated_by = none;
  is_deleted = false;
}

-- A run of ada's: the device it is sent to, who has claimed it, and its state.
abbrev pub run_with : ℕ → Option ℕ → Option ℕ → Status → Run
run_with id target agent status = record {
  id = id;
  script_id = 7;
  script_version = 4;
  user_id = 1;
  status = status;
  params = none;
  error_msg = none;
  result_files = none;
  environment_id = none;
  agent_id = agent;
  target_agent_id = target;
  requested_by = some 1;
  dispatch_type = standard_run;
  schedule_id = none;
  retry_of_run_id = none;
  scheduled_for = none;
  expires_at = none;
  claimed_at = none;
  started_at = none;
  finished_at = none;
  duration_sec = none;
  log_path = none;
  created_at = 0;
  updated_at = 0;
  is_deleted = false;
}

abbrev pub schedule : Schedule
schedule = record {
  id = 5;
  name = "nightly";
  agent_id = 3;
  script_id = 7;
  params = none;
  environment_id = none;
  schedule_type = interval;
  interval_seconds = some 60;
  cron_expression = none;
  timezone = "UTC";
  expires_after_seconds = 600;
  enabled = true;
  next_run_at = noon;
  last_run_at = none;
  last_missed_at = none;
  last_missed_reason = none;
  created_by = 9;
  updated_by = 9;
  created_at = 0;
  updated_at = 0;
  is_deleted = false;
}

abbrev pub db_with : List Run → List Schedule → Db
db_with runs schedules = record {
  groups =
      record {
        id = 1;
        name = "all";
        description = none;
        status = active;
        is_default = true;
        created_at = 0;
        updated_at = 0;
        created_by = none;
        updated_by = none;
        is_deleted = false;
      }
      ∷ [];
  user_groups = record { member = 1; group_id = 1 } ∷ [];
  script_groups = record { member = 7; group_id = 1 } ∷ [];
  users = ada ∷ boss ∷ [];
  agents = desktop ∷ device ∷ [];
  scripts = script ∷ [];
  runs = runs;
  schedules = schedules;
  environments = [];
  audit_logs = [];
  thumbnails = [];
  next_run_id = 100;
  next_user_id = 100;
  next_group_id = 100;
  next_agent_id = 100;
  next_schedule_id = 100;
}

-- One run waits, one is on the device, one has ended.
abbrev pub office : Db
office =
    db_with
      (run_with 11 none none pending
        ∷ run_with 12 (some 3) (some 3) running
        ∷ run_with 13 (some 3) (some 3) success
        ∷ [])
      (schedule ∷ [])

pub office-IsSound : IsSound office
office-IsSound = record {
  keyed = ((omega arith, (omega arith, tt)), ((omega arith, tt), (tt, tt)));
  below = (omega arith, (omega arith, (omega arith, tt)));
}

-- Every token is the device's.
abbrev pub decode : Decode
decode expiry token = some (record {
  kind = some "agent";
  sub = some 1;
  sub_is = λ n. n == 1;
  agent_id = some 3;
  user_id = some 1;
})

-- Integers stand for the numbers, and no script has parameters.
abbrev pub numbers : Values
numbers = record {
  Num = ℕ;
  lt = λ m n. ltb m n;
  num_eq = λ m n. m == n;
  of_bool = λ b. 0;
  show = λ n. "";
  Other = ℕ;
  other_eq = λ m n. m == n;
}

abbrev pub json : Json numbers
json = record {
  load_params = λ s. none;
  load_values = λ s. some [];
  dump_values = λ m. "{}";
  join = λ ms. "";
}

-- A cron that fires each second.
abbrev pub next : CronNext
next e z t = some (t + second)
