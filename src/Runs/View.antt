-- ===== src/Runs/View.antt =====
-- backend/app/routers/runs.py, list_runs and get_run: which runs a user is shown, and what of them.
-- What `has_result_files` makes of a text is a parameter, since it reads JSON. Dates come as
-- fromisoformat reads them, none where there are none or it raises. The name of the script's version
-- is left out, and limit and offset are naturals.
pub mod Laws
use mathlib.Core.Option
use auto_script_hub.Prelude.{
  ℕ, ℤ, String, Bool, true, false, not, ◌&&◌, ◌||◌, Option, none, some, List, ◌==◌, leb, ltb, Reply,
  ok, ◌>>=◌, ◌>>◌, require, expect, first, select, order_by, take, drop, map, is_none, is_some,
  opt_is, if◌then◌else◌,
}
use auto_script_hub.Store.{
  Db, User, Script, Agent, Run, Role, operator, Status, pending, running, success, failed,
  cancelled, expired, Dispatch, standard_run, managed_manual, managed_schedule, is_admin,
  is_pending,
}
use auto_script_hub.Access.{member_of, accessible_script_ids, accessible_user_ids}
use auto_script_hub.Runs.Finish.{visible_run}

abbrev pub is_operator : Role → Bool
is_operator operator = true
is_operator _ = false

-- _restrict_run_query, as a test on a row.
unfoldable pub is_shown_to : Db → User → Run → Bool
is_shown_to db user r =
    if is_admin user.role
    then true
    else r.user_id == user.id
      || (not (is_operator user.role)
          && (member_of r.script_id (accessible_script_ids db user)
              && member_of r.user_id (accessible_user_ids db user)))

unfoldable pub can_view_run : Db → User → Run → Bool
can_view_run db user run =
    is_some (first (λ (r : Run). r.id == run.id && is_shown_to db user r) db.runs)

abbrev pub same_status : Status → Status → Bool
same_status pending pending = true
same_status running running = true
same_status success success = true
same_status failed failed = true
same_status cancelled cancelled = true
same_status expired expired = true
same_status _ _ = false

abbrev pub same_dispatch : Dispatch → Dispatch → Bool
same_dispatch standard_run standard_run = true
same_dispatch managed_manual managed_manual = true
same_dispatch managed_schedule managed_schedule = true
same_dispatch _ _ = false

-- The text of a status filter: none or empty, a status, or another text.
pub data StatusFilter : Type 0 where
  any_status other_text : StatusFilter
  only : Status → StatusFilter

pub record ListRequest : Type 0 where
  pub script_id : Option ℕ
  pub status : StatusFilter
  pub user_id : Option ℕ
  pub agent_id : Option ℕ
  pub schedule_id : Option ℕ
  pub dispatch_type : Option Dispatch
  pub date_from : Option ℕ
  pub date_to : Option ℕ
  pub limit : ℕ
  pub offset : ℕ
  pub mine_only : Bool

-- `if script_id:`, where 0 is no filter, and `if agent_id is not None:`.
abbrev pub fits_nonzero : Option ℕ → ℕ → Bool
fits_nonzero none n = true
fits_nonzero (some k) n = k == 0 || n == k

abbrev pub fits {ℓ} : {A : Type ℓ} → Option A → (A → Bool) → Bool
fits none p = true
fits (some a) p = p a

abbrev pub fits_status : StatusFilter → Status → Bool
fits_status any_status s = true
fits_status other_text s = false
fits_status (only t) s = same_status s t

abbrev pub asks_pending : StatusFilter → Bool
asks_pending (only s) = is_pending s
asks_pending _ = false

abbrev pub is_mine : ListRequest → User → Run → Bool
is_mine q user r =
    not q.mine_only
    || (r.user_id == user.id && (not (asks_pending q.status) || is_none r.target_agent_id))

-- The filters of the query, beside the restriction to what the user may see.
unfoldable pub is_asked_for : ListRequest → User → Run → Bool
is_asked_for q user r =
    is_mine q user r
    && (fits_nonzero q.script_id r.script_id
        && (fits_status q.status r.status
            && (fits_nonzero q.user_id r.user_id
                && (fits q.agent_id (λ a. opt_is r.target_agent_id a || opt_is r.agent_id a)
                    && (fits q.schedule_id (λ s. opt_is r.schedule_id s)
                        && (fits q.dispatch_type (λ d. same_dispatch r.dispatch_type d)
                            && (fits q.date_from (λ t. leb t r.created_at)
                                && fits q.date_to (λ t. ltb r.created_at t))))))))

-- A run as a list shows it, with the names that belong to it.
pub record RunBrief : Type 0 where
  pub id : ℕ
  pub script_id : ℕ
  pub script_version : ℕ
  pub user_id : ℕ
  pub agent_id : Option ℕ
  pub target_agent_id : Option ℕ
  pub requested_by : Option ℕ
  pub dispatch_type : Dispatch
  pub schedule_id : Option ℕ
  pub retry_of_run_id : Option ℕ
  pub scheduled_for : Option ℕ
  pub expires_at : Option ℕ
  pub claimed_at : Option ℕ
  pub status : Status
  pub params : Option String
  pub result_files : Option String
  pub started_at : Option ℕ
  pub finished_at : Option ℕ
  pub duration_sec : Option ℤ
  pub created_at : ℕ
  pub username : Option String
  pub script_name : Option String
  pub agent_name : Option String
  pub target_agent_name : Option String
  pub has_result_files : Bool

-- RunDetail(RunBrief): what one run's reply has beside.
pub record RunDetail : Type 0 where
  pub brief : RunBrief
  pub error_msg : Option String
  pub log_path : Option String

abbrev pub machine_of : Db → Option ℕ → Option String
machine_of db none = none
machine_of db (some id) =
    Option.map (λ (a : Agent). a.machine_name) (first (λ (a : Agent). a.id == id) db.agents)

abbrev pub is_managed_dispatch : Dispatch → Bool
is_managed_dispatch standard_run = false
is_managed_dispatch managed_manual = true
is_managed_dispatch managed_schedule = true

-- A managed device's paths are not shown.
abbrev pub shown_files : Run → Option String
shown_files r = if is_managed_dispatch r.dispatch_type then none else r.result_files

module _ (has_results : Option String → Bool) where
  -- `detail` chooses between the two schemas, so there is one function for each.
  unfoldable pub enrich_brief : Db → Run → RunBrief
  enrich_brief db r = record {
    id = r.id;
    script_id = r.script_id;
    script_version = r.script_version;
    user_id = r.user_id;
    agent_id = r.agent_id;
    target_agent_id = r.target_agent_id;
    requested_by = r.requested_by;
    dispatch_type = r.dispatch_type;
    schedule_id = r.schedule_id;
    retry_of_run_id = r.retry_of_run_id;
    scheduled_for = r.scheduled_for;
    expires_at = r.expires_at;
    claimed_at = r.claimed_at;
    status = r.status;
    params = r.params;
    result_files = shown_files r;
    started_at = r.started_at;
    finished_at = r.finished_at;
    duration_sec = r.duration_sec;
    created_at = r.created_at;
    username =
        Option.map (λ (u : User). u.display_name)
          (first (λ (u : User). u.id == r.user_id) db.users);
    script_name =
        Option.map (λ (s : Script). s.name)
          (first (λ (s : Script). s.id == r.script_id) db.scripts);
    agent_name = machine_of db r.agent_id;
    target_agent_name = machine_of db r.target_agent_id;
    has_result_files = has_results r.result_files;
  }

  unfoldable pub enrich_detail : Db → Run → RunDetail
  unfolding enrich_brief
  enrich_detail db r = record {
    brief = enrich_brief db r;
    error_msg = r.error_msg;
    log_path = r.log_path;
  }

  abbrev pub newest_first : Run → Run → Bool
  newest_first a b = ltb b.created_at a.created_at

  unfoldable pub list_runs : Db → User → ListRequest → List RunBrief
  unfolding is_shown_to is_asked_for enrich_brief
  list_runs db user q = map (enrich_brief db) (
      take q.limit (
        drop q.offset (
          order_by newest_first (
            select (λ r. not r.is_deleted && (is_shown_to db user r && is_asked_for q user r))
              db.runs))))

  unfoldable pub get_run : Db → User → ℕ → Reply RunDetail
  unfolding can_view_run enrich_detail
  get_run db user run_id = do
    run ← expect (first (visible_run run_id) db.runs) 404 "执行记录不存在"
    require (can_view_run db user run) 404 "执行记录不存在或无访问权限"
    ok (enrich_detail db run)
