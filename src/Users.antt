-- ===== src/Users.antt =====
-- backend/app/routers/users.py: an admin creates, changes and deletes users.
-- Each handler is one transaction, so that a refusal leaves nothing behind; its audit entry is written
-- after it. The password's hash is a parameter, and so is the detail of an audit entry left out.
pub mod Governed
use auto_script_hub.Prelude.{
  ℕ, suc, String, Bool, true, false, not, ◌&&◌, ◌||◌, Option, none, some, List, [], ◌∷◌, ◌++◌, ◌==◌,
  leb, Reply, ok, http, ◌>>=◌, ◌>>◌, require, expect, first, update_where, count_where, is_none,
  is_some, or_else, opt_is, if◌then◌else◌, str_eq, strip,
}
use auto_script_hub.Store.{
  Db, User, Role, admin, operator, developer, Activity, active, inactive, is_active, is_admin,
  AuditLog, add_audit,
}
use auto_script_hub.Groups.Default.{set_user_groups}

abbrev pub is_active_admin : User → Bool
is_active_admin u = is_admin u.role && (is_active u.status && not u.is_deleted)

unfoldable pub active_admin_count : Db → ℕ
active_admin_count db = count_where is_active_admin db.users

abbrev pub given {ℓ} : {A : Type ℓ} → A → Option A → A
given old none = old
given old (some new) = new

-- _protect_admin_transition
unfoldable pub protect_admin_transition :
    Db → User → Option Role → Option Activity → Reply (Unit {0})
unfolding active_admin_count
protect_admin_transition db user role status =
    require
      (not (
        (is_admin user.role && is_active user.status)
        && (not (is_admin (given user.role role)) || not (is_active (given user.status status)))
        && leb (active_admin_count db) 1))
      400 "不能移除或禁用最后一个有效管理员"

abbrev pub visible_user : ℕ → User → Bool
visible_user id u = u.id == id && not u.is_deleted

-- require_role("admin")
abbrev pub require_admin : User → Reply (Unit {0})
require_admin user = require (is_admin user.role) 403 "权限不足"

abbrev pub user_entry : User → String → ℕ → ℕ → AuditLog
user_entry actor action id now = record {
  user_id = some actor.id;
  username = some actor.username;
  action = action;
  target_type = some "user";
  target_id = some id;
  detail = none;
  created_at = now;
}

abbrev pub is_filled : String → Bool
is_filled s = not (str_eq s "")

pub record UserCreate : Type 0 where
  pub username : String
  pub password : String
  pub display_name : String
  pub role : Role
  pub group_ids : Option (List ℕ)

pub record UserUpdate : Type 0 where
  pub display_name : Option String
  pub role : Option Role
  pub status : Option Activity
  pub group_ids : Option (List ℕ)

unfoldable pub new_user : (String → String) → UserCreate → User → ℕ → ℕ → User
unfolding strip
new_user hash q actor now id = record {
  id = id;
  username = strip q.username;
  password_hash = hash q.password;
  auth_source = "local";
  external_subject = none;
  display_name = strip q.display_name;
  role = q.role;
  status = active;
  last_login_at = none;
  created_at = now;
  updated_at = now;
  created_by = some actor.id;
  updated_by = none;
  is_deleted = false;
}

abbrev pub add_user : (ℕ → User) → Db → Db
add_user make db = record db {
  users = db.users ++ make db.next_user_id ∷ [];
  next_user_id = suc db.next_user_id;
}

unfoldable pub create_user : (String → String) → UserCreate → User → ℕ → Db → Reply Db
unfolding new_user set_user_groups
create_user hash q actor now db = do
  require_admin actor
  require (is_filled (strip q.username) && is_filled (strip q.display_name)) 422 "用户名和显示名不能为空"
  require (is_none (first (λ (u : User). str_eq u.username (strip q.username)) db.users)) 400
      "用户名已存在"
  grouped ←
      set_user_groups db.next_user_id q.group_ids (some actor.id) now
        (add_user (new_user hash q actor now) db)
  ok (add_audit (user_entry actor "create_user" db.next_user_id now) grouped)

-- What an admin may not do to the own account.
unfoldable pub check_self : UserUpdate → User → User → Reply (Unit {0})
check_self q actor user =
    if user.id == actor.id
    then require (is_admin (given admin q.role)) 400 "不能降低自己的管理员权限"
      >> require (is_active (given active q.status)) 400 "不能禁用自己的账号"
    else ok tt

-- The display name that is set, where one is given.
unfoldable pub check_name : Option String → Reply (Unit {0})
unfolding strip
check_name none = ok tt
check_name (some name) = require (is_filled (strip name)) 422 "显示名不能为空"

abbrev pub same_role : Role → Role → Bool
same_role admin admin = true
same_role operator operator = true
same_role developer developer = true
same_role _ _ = false

abbrev pub same_activity : Activity → Activity → Bool
same_activity active active = true
same_activity inactive inactive = true
same_activity _ _ = false

-- An UPDATE is made, and `updated_at` set, only where a column changes.
abbrev pub is_changed : User → User → Bool
is_changed a b = not (
    str_eq a.display_name b.display_name
    && (same_role a.role b.role
        && (same_activity a.status b.status && opt_is a.updated_by (given 0 b.updated_by))))

abbrev pub stamped : ℕ → User → User → User
stamped now old new = if is_changed old new then record new { updated_at = now } else new

abbrev pub given_name : String → Option String → String
given_name old none = old
given_name old (some new) = strip new

unfoldable pub change_user : UserUpdate → User → ℕ → User → User
unfolding strip
change_user q actor now u = stamped now u (record u {
  display_name = given_name u.display_name q.display_name;
  role = given u.role q.role;
  status = given u.status q.status;
  updated_by = some actor.id;
})

abbrev pub write_user : ℕ → (User → User) → Db → Db
write_user id f db = record db { users = update_where (λ (u : User). u.id == id) f db.users }

-- `if req.group_ids is not None`
unfoldable pub change_groups : ℕ → Option (List ℕ) → User → ℕ → Db → Reply Db
unfolding set_user_groups
change_groups id none actor now db = ok db
change_groups id (some ids) actor now db = set_user_groups id (some ids) (some actor.id) now db

unfoldable pub update_user : ℕ → UserUpdate → User → ℕ → Db → Reply Db
unfolding check_self protect_admin_transition check_name change_user change_groups
update_user id q actor now db = do
  require_admin actor
  user ← expect (first (visible_user id) db.users) 404 "用户不存在"
  check_self q actor user
  protect_admin_transition db user q.role q.status
  check_name q.display_name
  grouped ← change_groups id q.group_ids actor now db
  ok (
      add_audit (user_entry actor "update_user" id now)
        (write_user id (change_user q actor now) grouped))

abbrev pub remove_user : User → ℕ → User → User
remove_user actor now u = record u {
  is_deleted = true;
  status = inactive;
  updated_by = some actor.id;
  updated_at = now;
}

unfoldable pub delete_user : ℕ → User → ℕ → Db → Reply Db
unfolding protect_admin_transition
delete_user id actor now db = do
  require_admin actor
  user ← expect (first (visible_user id) db.users) 404 "用户不存在"
  require (not (user.id == actor.id)) 400 "不能删除自己的账号"
  protect_admin_transition db user (some operator) (some inactive)
  ok (add_audit (user_entry actor "delete_user" id now) (write_user id (remove_user actor now) db))
