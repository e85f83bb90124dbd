-- ===== src/Agents.antt =====
-- backend/app/routers/agents.py: a machine registers, sends heartbeats and asks for its next run.
-- The name-based UUID of an old client is a parameter, `legacy_uid`; what the making of a token returns is left
-- out. Each handler is one transaction. A second `device_uid` is an IntegrityError, which nothing catches.
pub mod Spares
pub mod Laws
pub mod Next
pub mod Offered
use auto_script_hub.Prelude.{
  ℕ, suc, String, Bool, true, false, not, ◌&&◌, ◌||◌, Option, none, some, List, [], ◌∷◌, ◌++◌, ◌==◌,
  ltb, leb, Reply, ok, http, ◌>>=◌, ◌>>◌, require, expect, first, select, order_by, update_where,
  is_none, is_some, holds, opt_is, or_else, if◌then◌else◌, str_eq, strip, starts_with,
}
use auto_script_hub.Store.{
  Db, Agent, User, Run, AuditLog, Mode, standard, managed, Presence, online, offline, Role,
  operator, is_managed, is_pending, add_audit,
}
use auto_script_hub.Auth.{Decode, verify_agent_token}
use auto_script_hub.Users.{given, require_admin}
use auto_script_hub.Lifecycle.{
  VersionSource, agent_key, set_agent, lifecycle_entry, drop_thumbnail, delete_agent,
}

pub record AgentRegister : Type 0 where
  pub device_uid : Option String
  pub machine_name : String
  pub machine_ip : Option String
  pub agent_version : Option String
  pub mode : Option Mode
  pub enabled : Option Bool
  pub thumbnail_capture_paused : Option Bool
  pub user : User
  pub token : Option String
  pub now : ℕ

-- `req.device_uid.strip() if req.device_uid else None`; an empty text is tested like None.
abbrev pub kept_text : String → Option String
kept_text s = if str_eq s "" then none else some s

abbrev pub uid_of : Option String → Option String
uid_of none = none
uid_of (some s) = kept_text (strip s)

abbrev pub is_machine : ℕ → String → Agent → Bool
is_machine user_id machine_name a =
    a.user_id == user_id && (str_eq a.machine_name machine_name && not a.is_deleted)

abbrev pub has_uid : String → Agent → Bool
has_uid uid a = str_eq a.device_uid uid

abbrev pub bears : Mode → Option Mode → Bool
bears old none = is_managed old
bears old (some new) = is_managed old || is_managed new

-- A record with the uid that is sent: the caller's, and not removed.
unfoldable pub own_agent : ℕ → Agent → Reply (Option Agent)
own_agent user_id agent = do
  require (agent.user_id == user_id) 409 "device_uid 已绑定其他用户"
  require (not agent.is_deleted) 403 "Agent 已被管理员移除"
  ok (some agent)

-- What a device that is managed, or becomes so, must show.
unfoldable pub may_register : Decode → AgentRegister → String → Agent → Reply (Unit {0})
may_register decode q machine_name agent =
    if bears agent.mode q.mode && is_some agent.agent_token_issued_at
    then verify_agent_token decode q.token agent true
    else require (not (bears agent.mode q.mode) || str_eq agent.machine_name machine_name) 403
        "旧版托管 Agent 设备信息不匹配"

abbrev pub presence : Bool → Presence
presence true = online
presence false = offline

abbrev pub refresh : AgentRegister → String → Option String → Agent → Agent
refresh q machine_name uid a = record a {
  device_uid = given a.device_uid uid;
  machine_name = machine_name;
  machine_ip = q.machine_ip;
  agent_version = q.agent_version;
  mode = given a.mode q.mode;
  thumbnail_capture_paused = given a.thumbnail_capture_paused q.thumbnail_capture_paused;
  status = presence a.enabled;
  last_heartbeat = some q.now;
  agent_token_issued_at = or_else a.agent_token_issued_at (some q.now);
  updated_at = q.now;
}

abbrev pub insert_agent : Agent → Db → Db
insert_agent a db = record db { agents = db.agents ++ a ∷ []; next_agent_id = suc db.next_agent_id }

-- db.add(agent); db.commit()
unfoldable pub add_agent : Agent → ℕ → User → Db → Reply Db
add_agent a now user db = do
  require (is_none (first (has_uid a.device_uid) db.agents)) 500 "Internal Server Error"
  ok (add_audit (lifecycle_entry user "agent.online" a.id now) (insert_agent a db))

module _ (legacy_uid : ℕ → String → String) where
  abbrev pub is_legacy : ℕ → String → Agent → Bool
  is_legacy user_id machine_name a =
      is_machine user_id machine_name a
      && (starts_with "legacy-" a.device_uid
          || str_eq a.device_uid (legacy_uid user_id machine_name))

  unfoldable pub by_uid : Db → ℕ → String → Option Agent → Reply (Option Agent)
  unfolding own_agent
  by_uid db user_id machine_name (some agent) = own_agent user_id agent
  by_uid db user_id machine_name none = ok (first (is_legacy user_id machine_name) db.agents)

  -- _find_registered_agent
  unfoldable pub find_registered_agent : Db → ℕ → String → Option String → Reply (Option Agent)
  unfolding by_uid
  find_registered_agent db user_id machine_name none =
      ok (first (is_machine user_id machine_name) db.agents)
  find_registered_agent db user_id machine_name (some uid) =
      by_uid db user_id machine_name (first (has_uid uid) db.agents)

  abbrev pub new_agent : AgentRegister → String → Option String → ℕ → Agent
  new_agent q machine_name uid id = record {
    id = id;
    device_uid = given (legacy_uid q.user.id machine_name) uid;
    machine_name = machine_name;
    machine_ip = q.machine_ip;
    user_id = q.user.id;
    mode = given standard q.mode;
    enabled = given true q.enabled;
    status = presence (given true q.enabled);
    agent_version = q.agent_version;
    last_heartbeat = some q.now;
    agent_token_issued_at = some q.now;
    thumbnail_updated_at = none;
    thumbnail_size = none;
    thumbnail_capture_paused = given false q.thumbnail_capture_paused;
    created_at = q.now;
    updated_at = q.now;
    is_deleted = false;
  }

  unfoldable pub register_found :
      Decode → AgentRegister → String → Option String → Option Agent → Db → Reply Db
  unfolding may_register add_agent
  register_found decode q machine_name uid none db =
      add_agent (new_agent q machine_name uid db.next_agent_id) q.now q.user db
  register_found decode q machine_name uid (some agent) db = do
    may_register decode q machine_name agent
    ok (set_agent agent.id (refresh q machine_name uid) db)

  unfoldable pub register_agent : Decode → AgentRegister → Db → Reply Db
  unfolding find_registered_agent register_found strip
  register_agent decode q db = do
    require (not (str_eq (strip q.machine_name) "")) 400 "machine_name 为必填项"
    found ← find_registered_agent db q.user.id (strip q.machine_name) (uid_of q.device_uid)
    register_found decode q (strip q.machine_name) (uid_of q.device_uid) found db

-- A heartbeat; `removable` is whether the file of a thumbnail can be deleted.
pub record AgentHeartbeat : Type 0 where
  pub agent_id : ℕ
  pub machine_ip : Option String
  pub agent_version : Option String
  pub thumbnail_capture_paused : Option Bool
  pub user : User
  pub token : Option String
  pub now : ℕ
  pub removable : Bool

abbrev pub is_own : ℕ → ℕ → Agent → Bool
is_own id user_id a = a.id == id && (a.user_id == user_id && not a.is_deleted)

abbrev pub pauses : Option Bool → Bool
pauses none = false
pauses (some b) = b

abbrev pub beat : AgentHeartbeat → Agent → Agent
beat q a = record a {
  last_heartbeat = some q.now;
  status = online;
  machine_ip = or_else q.machine_ip a.machine_ip;
  agent_version = or_else q.agent_version a.agent_version;
  thumbnail_capture_paused = given a.thumbnail_capture_paused q.thumbnail_capture_paused;
  thumbnail_updated_at = if pauses q.thumbnail_capture_paused then none else a.thumbnail_updated_at;
  thumbnail_size = if pauses q.thumbnail_capture_paused then none else a.thumbnail_size;
  updated_at = q.now;
}

unfoldable pub heartbeat : Decode → AgentHeartbeat → Db → Reply Db
heartbeat decode q db = do
  agent ← expect (first (is_own q.agent_id q.user.id) db.agents) 404 "Agent 未注册"
  require agent.enabled 403 "Agent 已禁用"
  verify_agent_token decode q.token agent false
  ok (
      set_agent agent.id (beat q) (
        if pauses q.thumbnail_capture_paused && q.removable
        then drop_thumbnail agent.id db
        else db))

abbrev pub is_present : ℕ → Agent → Bool
is_present id a = a.id == id && not a.is_deleted

abbrev pub is_operator : Role → Bool
is_operator operator = true
is_operator _ = false

unfoldable pub get_agent : ℕ → User → Db → Reply Agent
get_agent id user db = do
  agent ← expect (first (is_present id) db.agents) 404 "Agent 不存在"
  require (not (is_operator user.role && not (agent.user_id == user.id))) 403 "无权限访问"
  ok agent

-- DELETE /api/agents/{agent_id}
unfoldable pub remove_agent : (VersionSource → String) → ℕ → User → ℕ → Db → Reply Agent × Db
unfolding delete_agent
remove_agent digest id user now db = elim (require_admin user) [
  | http c d ↦ (http c d, db)
  | ok u ↦ delete_agent digest db id user none false false now
]
