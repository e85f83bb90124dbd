-- ===== src/Dispatch.antt =====
-- backend/app/services/run_dispatch.py: the one way in which a run is created, and
-- backend/app/routers/runs.py, execute_script: a user's own way to it.
-- The lock of script_lifecycle.py is the transaction that `db` stands for. What the JSON library
-- makes of a script's `config_json` (its `params`, or none where it raises) and of the values that
-- are sent is a parameter, `Json`.
pub mod Accepted
pub mod Laws
pub mod Race
use auto_script_hub.Prelude.{
  ℕ, suc, String, Bool, true, false, not, ◌&&◌, ◌||◌, Option, none, some, List, [], ◌∷◌, ◌++◌, ◌==◌,
  ◌+◌, ◌-◌, ◌*◌, ltb, leb, Reply, ok, http, ◌>>=◌, ◌>>◌, require, expect, first, select, is_none,
  is_some, opt_is, if◌then◌else◌, update_where, str_eq,
}
use auto_script_hub.Store.{
  Db, User, Script, Run, Environment, Dispatch, standard_run, pending, cancelled, is_live,
  is_pending, run_key, run_at, add_audit, AuditLog, second,
}
use auto_script_hub.Store.Writes.{add_run, write_runs}
use auto_script_hub.Access.{get_accessible_script_or_404}
use auto_script_hub.Contract.Params.{Values, Value, Definition, validate_params}

pub record Json (V : Values) : Type 0 where
  pub load_params : String → Option (List (Definition V))
  pub load_values : String → Option (List (String × Value V))
  pub dump_values : List (String × Value V) → String
  pub join : List String → String

module _ (V : Values) (json : Json V) where
  open json use {load_params, load_values, dump_values, join}

  -- The arguments of create_validated_run, beside the database and the user.
  pub record Order : Type 0 where
    pub script_id : ℕ
    pub params : List (String × Value V)
    pub environment_id : Option ℕ
    pub requested_by : Option ℕ
    pub dispatch_type : Dispatch
    pub target_agent_id : Option ℕ
    pub schedule_id : Option ℕ
    pub scheduled_for : Option ℕ
    pub expires_at : Option ℕ

  -- `if environment_id is not None`: it must be the user's.
  unfoldable pub check_environment : Option ℕ → User → Db → Reply (Unit {0})
  check_environment none user db = ok tt
  check_environment (some e) user db =
      require
        (is_some (first (λ (x : Environment). x.id == e && x.user_id == user.id) db.environments))
        404 "执行环境不存在"

  -- The messages of validate_params on the server, which does not look at paths.
  abbrev pub no_errors : List String → Reply (Unit {0})
  no_errors [] = ok tt
  no_errors (m ∷ ms) = http 422 (join (m ∷ ms))

  check_definitions : Option (List (Definition V)) → List (String × Value V) → Reply (Unit {0})
  check_definitions none params = http 422 "脚本参数配置无效"
  check_definitions (some ds) params =
      no_errors (validate_params V false (λ _. false) (λ _. false) ds params)

  -- `if script.config_json`
  unfoldable pub check_config : Option String → List (String × Value V) → Reply (Unit {0})
  unfolding check_definitions
  check_config none params = ok tt
  check_config (some c) params =
      if str_eq c "" then ok tt else check_definitions (load_params c) params

  unfoldable pub validate_run_request :
      Db → User → ℕ → List (String × Value V) → Option ℕ → Reply Script
  validate_run_request db user script_id params environment_id = do
    script ← get_accessible_script_or_404 db user script_id true
    check_environment environment_id user db
    check_config script.config_json params
    ok script

  -- Run(...), with what the columns default to.
  unfoldable pub new_run : Script → User → Order → ℕ → ℕ → Run
  new_run script user o now id = record {
    id = id;
    script_id = script.id;
    script_version = script.latest_version;
    user_id = user.id;
    status = pending;
    params = some (dump_values o.params);
    error_msg = none;
    result_files = none;
    environment_id = o.environment_id;
    agent_id = none;
    target_agent_id = o.target_agent_id;
    requested_by = o.requested_by;
    dispatch_type = o.dispatch_type;
    schedule_id = o.schedule_id;
    retry_of_run_id = none;
    scheduled_for = o.scheduled_for;
    expires_at = o.expires_at;
    claimed_at = none;
    started_at = none;
    finished_at = none;
    duration_sec = none;
    log_path = none;
    created_at = now;
    updated_at = now;
    is_deleted = false;
  }

  created : User → Order → ℕ → Db → Reply Script → Reply Run × Db
  created user o now db (http c d) = (http c d, db)
  created user o now db (ok script) =
      (ok (new_run script user o now db.next_run_id), add_run (new_run script user o now) db)

  unfoldable pub create_validated_run : User → Order → ℕ → Db → Reply Run × Db
  unfolding validate_run_request created
  create_validated_run user o now db =
      created user o now db (validate_run_request db user o.script_id o.params o.environment_id)

  pub record ExecuteRequest : Type 0 where
    pub script_id : ℕ
    pub params : List (String × Value V)
    pub environment_id : Option ℕ
    pub user : User
    pub now : ℕ

  abbrev pub own_active : ℕ → Run → Bool
  own_active user_id r =
      r.user_id == user_id && (is_none r.target_agent_id && (is_live r.status && not r.is_deleted))

  -- active.status = "cancelled"; active.finished_at = …
  abbrev pub cancel_stale : ℕ → Run → Run
  cancel_stale now r = record r { status = cancelled; finished_at = some now; updated_at = now }

  -- The auto-cancel of a pending run that is older than 300 seconds. It is committed at once.
  unfoldable pub clear_stale : ℕ → Option Run → Db → Reply Db
  clear_stale now none db = ok db
  clear_stale now (some active) db =
      if is_pending active.status && ltb (active.created_at + 300 * second) now
      then ok (write_runs (run_key active.id) (cancel_stale now) db)
      else http 409 "当前有任务正在执行,请等待完成"

  own_order : ExecuteRequest → Order
  own_order q = record {
    script_id = q.script_id;
    params = q.params;
    environment_id = q.environment_id;
    requested_by = some q.user.id;
    dispatch_type = standard_run;
    target_agent_id = none;
    schedule_id = none;
    scheduled_for = none;
    expires_at = none;
  }

  execute_entry : ExecuteRequest → Run → AuditLog
  execute_entry q r = record {
    user_id = some q.user.id;
    username = some q.user.username;
    action = "execute_script";
    target_type = some "run";
    target_id = some r.id;
    detail = none;
    created_at = q.now;
  }

  pub audited : ExecuteRequest → Reply Run × Db → Reply Run × Db
  unfolding execute_entry
  audited q (ok r, db) = (ok r, add_audit (execute_entry q r) db)
  audited q (http c d, db) = (http c d, db)

  launched : ExecuteRequest → Db → Reply Db → Reply Run × Db
  unfolding create_validated_run own_order audited
  launched q db (http c d) = (http c d, db)
  launched q db (ok db') = audited q (create_validated_run q.user (own_order q) q.now db')

  -- `seen` is the database of the reads, `db` that of the transaction that creates the run.
  started : ExecuteRequest → Db → Db → Reply Script → Reply Run × Db
  unfolding launched clear_stale
  started q seen db (http c d) = (http c d, db)
  started q seen db (ok script) =
      launched q db (clear_stale q.now (first (own_active q.user.id) seen.runs) db)

  unfoldable pub execute_script : ExecuteRequest → Db → Db → Reply Run × Db
  unfolding started
  execute_script q seen db =
      started q seen db (get_accessible_script_or_404 seen q.user q.script_id true)
