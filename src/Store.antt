-- ===== src/Store.antt =====
-- backend/app/models.py: the tables that the modelled handlers read and write, one record for each
-- class with its columns, and the database as the record of its tables.
-- An instant is a number of microseconds since the epoch in UTC. SQLite gives instants back with
-- no time zone, and `_ensure_aware` only puts UTC on them again, so both are the same number here.
-- A primary key comes from a counter: an id that was given once is not given again.
mod Transitions
pub mod Evolution
pub mod Writes
pub use Transitions.*
use auto_script_hub.Prelude.{
  ℕ, ℤ, String, Bool, Option, none, some, List, [], ◌∷◌, ◌++◌, ◌==◌, ◌+◌, ◌≤◌, ◌<◌, first, All,
  IsKeyed,
}

abbrev pub second : ℕ
second = 1_000_000

pub data Role : Type 0 where
  admin operator developer : Role

pub data Activity : Type 0 where
  active inactive : Activity

pub data Presence : Type 0 where
  online offline : Presence

pub data Mode : Type 0 where
  standard managed : Mode

pub data Dispatch : Type 0 where
  standard_run managed_manual managed_schedule : Dispatch

pub data ScheduleType : Type 0 where
  interval cron : ScheduleType

abbrev pub is_active : Activity → Bool
is_active active = Bool.true
is_active inactive = Bool.false

abbrev pub is_online : Presence → Bool
is_online online = Bool.true
is_online offline = Bool.false

abbrev pub is_managed : Mode → Bool
is_managed standard = Bool.false
is_managed managed = Bool.true

abbrev pub is_admin : Role → Bool
is_admin admin = Bool.true
is_admin _ = Bool.false

pub record Group : Type 0 where
  pub id : ℕ
  pub name : String
  pub description : Option String
  pub status : Activity
  pub is_default : Bool
  pub created_at : ℕ
  pub updated_at : ℕ
  pub created_by : Option ℕ
  pub updated_by : Option ℕ
  pub is_deleted : Bool

-- A row of `user_groups` or `script_groups`: a member and its group.
pub record Membership : Type 0 where
  pub member : ℕ
  pub group_id : ℕ

pub record User : Type 0 where
  pub id : ℕ
  pub username : String
  pub password_hash : String
  pub auth_source : String
  pub external_subject : Option String
  pub display_name : String
  pub role : Role
  pub status : Activity
  pub last_login_at : Option ℕ
  pub created_at : ℕ
  pub updated_at : ℕ
  pub created_by : Option ℕ
  pub updated_by : Option ℕ
  pub is_deleted : Bool

pub record Agent : Type 0 where
  pub id : ℕ
  pub device_uid : String
  pub machine_name : String
  pub machine_ip : Option String
  pub user_id : ℕ
  pub mode : Mode
  pub enabled : Bool
  pub status : Presence
  pub agent_version : Option String
  pub last_heartbeat : Option ℕ
  pub agent_token_issued_at : Option ℕ
  pub thumbnail_updated_at : Option ℕ
  pub thumbnail_size : Option ℕ
  pub thumbnail_capture_paused : Bool
  pub created_at : ℕ
  pub updated_at : ℕ
  pub is_deleted : Bool

pub record Script : Type 0 where
  pub id : ℕ
  pub name : String
  pub description : Option String
  pub category : Option String
  pub kind : String
  pub latest_version : ℕ
  pub config_json : Option String
  pub status : Activity
  pub created_at : ℕ
  pub updated_at : ℕ
  pub created_by : Option ℕ
  pub updated_by : Option ℕ
  pub is_deleted : Bool

pub record Run : Type 0 where
  pub id : ℕ
  pub script_id : ℕ
  pub script_version : ℕ
  pub user_id : ℕ
  pub status : Status
  pub params : Option String
  pub error_msg : Option String
  pub result_files : Option String
  pub environment_id : Option ℕ
  pub agent_id : Option ℕ
  pub target_agent_id : Option ℕ
  pub requested_by : Option ℕ
  pub dispatch_type : Dispatch
  pub schedule_id : Option ℕ
  pub retry_of_run_id : Option ℕ
  pub scheduled_for : Option ℕ
  pub expires_at : Option ℕ
  pub claimed_at : Option ℕ
  pub started_at : Option ℕ
  pub finished_at : Option ℕ
  pub duration_sec : Option ℤ
  pub log_path : Option String
  pub created_at : ℕ
  pub updated_at : ℕ
  pub is_deleted : Bool

pub record Schedule : Type 0 where
  pub id : ℕ
  pub name : String
  pub agent_id : ℕ
  pub script_id : ℕ
  pub params : Option String
  pub environment_id : Option ℕ
  pub schedule_type : ScheduleType
  pub interval_seconds : Option ℕ
  pub cron_expression : Option String
  pub timezone : String
  pub expires_after_seconds : ℕ
  pub enabled : Bool
  pub next_run_at : ℕ
  pub last_run_at : Option ℕ
  pub last_missed_at : Option ℕ
  pub last_missed_reason : Option String
  pub created_by : ℕ
  pub updated_by : ℕ
  pub created_at : ℕ
  pub updated_at : ℕ
  pub is_deleted : Bool

-- Of an environment only its owner is read.
pub record Environment : Type 0 where
  pub id : ℕ
  pub user_id : ℕ

pub record AuditLog : Type 0 where
  pub user_id : Option ℕ
  pub username : Option String
  pub action : String
  pub target_type : Option String
  pub target_id : Option ℕ
  pub detail : Option String
  pub created_at : ℕ

-- `thumbnails` are the ids of the agents whose thumbnail file exists; the others are the counters
-- of the primary keys.
pub record Db : Type 0 where
  pub groups : List Group
  pub user_groups : List Membership
  pub script_groups : List Membership
  pub users : List User
  pub agents : List Agent
  pub scripts : List Script
  pub runs : List Run
  pub schedules : List Schedule
  pub environments : List Environment
  pub audit_logs : List AuditLog
  pub thumbnails : List ℕ
  pub next_run_id : ℕ
  pub next_user_id : ℕ
  pub next_group_id : ℕ
  pub next_agent_id : ℕ
  pub next_schedule_id : ℕ

-- The row of a run, by its primary key.
abbrev pub run_key : ℕ → Run → Bool
run_key i r = r.id == i

abbrev pub run_at : ℕ → List Run → Option Run
run_at i rs = first (run_key i) rs

-- What the primary keys of `runs` give: no id twice, and the counter beyond all of them.
pub record IsSound (db : Db) : Type 0 where
  pub keyed : IsKeyed (λ (r : Run). r.id) db.runs
  pub below : All (λ (r : Run). r.id < db.next_run_id) db.runs

-- db.add(AuditLog(...))
abbrev pub add_audit : AuditLog → Db → Db
add_audit a db = record db { audit_logs = db.audit_logs ++ a ∷ [] }
