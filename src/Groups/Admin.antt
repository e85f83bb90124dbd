-- ===== src/Groups/Admin.antt =====
-- backend/app/routers/groups.py: an admin creates, changes and deletes groups.
-- Each handler is one transaction. Two defaults at once, which the database refuses, are met by set_default_group,
-- which takes the mark off the others first.
pub mod Centre
use auto_script_hub.Prelude.{
  ℕ, suc, String, Bool, true, false, not, ◌&&◌, ◌||◌, Option, none, some, List, [], ◌∷◌, ◌++◌, ◌==◌,
  Reply, ok, ◌>>=◌, ◌>>◌, require, expect, first, update_where, count_where, is_none, is_some,
  if◌then◌else◌, str_eq, strip,
}
use auto_script_hub.Store.{
  Db, Group, User, Script, Membership, AuditLog, Activity, inactive, is_active, add_audit,
}
use auto_script_hub.Users.{require_admin, given}
use auto_script_hub.Groups.{set_default_group}
use auto_script_hub.Groups.Default.{new_group}

pub record GroupCreate : Type 0 where
  pub name : String
  pub description : Option String
  pub status : Activity
  pub is_default : Bool

pub record GroupUpdate : Type 0 where
  pub name : Option String
  pub description : Option String
  pub status : Option Activity
  pub is_default : Option Bool

abbrev pub group_entry : User → String → ℕ → ℕ → AuditLog
group_entry actor action id now = record {
  user_id = some actor.id;
  username = some actor.username;
  action = action;
  target_type = some "group";
  target_id = some id;
  detail = none;
  created_at = now;
}

-- `value or None`
abbrev pub or_null : String → Option String
or_null s = if str_eq s "" then none else some s

-- `(description or "").strip() or None`
abbrev pub cleaned : Option String → Option String
cleaned none = none
cleaned (some d) = or_null (strip d)

abbrev pub clean_name : String → Reply (Unit {0})
clean_name name = require (not (str_eq (strip name) "")) 422 "分组名称不能为空"

abbrev pub insert_group : Group → Db → Db
insert_group g db = record db { groups = db.groups ++ g ∷ []; next_group_id = suc db.next_group_id }

-- `if is_default: set_default_group(...)`
abbrev pub defaulted : Bool → ℕ → User → ℕ → Db → Db
defaulted true id actor now db = set_default_group id (some actor.id) now db
defaulted false id actor now db = db

unfoldable pub create_group : GroupCreate → User → ℕ → Db → Reply Db
unfolding strip set_default_group new_group
create_group q actor now db = do
  require_admin actor
  clean_name q.name
  require (is_none (first (λ (g : Group). str_eq g.name (strip q.name)) db.groups)) 409 "分组名称已存在"
  require (not q.is_default || is_active q.status) 400 "默认分组必须处于启用状态"
  ok (
      add_audit (group_entry actor "create_group" db.next_group_id now) (
        defaulted q.is_default db.next_group_id actor now (
          insert_group
            (new_group (strip q.name) (cleaned q.description) q.status false (some actor.id) now
              db.next_group_id)
            db)))

abbrev pub is_group : ℕ → Group → Bool
is_group id g = g.id == id && not g.is_deleted

unfoldable pub check_new_name : Db → ℕ → Option String → Reply (Unit {0})
unfolding strip
check_new_name db id none = ok tt
check_new_name db id (some name) =
    clean_name name
    >> require
        (is_none (first (λ (g : Group). str_eq g.name (strip name) && not (g.id == id)) db.groups))
        409 "分组名称已存在"

abbrev pub is_true : Option Bool → Bool
is_true none = false
is_true (some b) = b

abbrev pub is_false : Option Bool → Bool
is_false none = false
is_false (some b) = not b

abbrev pub new_description : Option String → Option String → Option String
new_description old none = old
new_description old (some d) = or_null (strip d)

unfoldable pub change_group : GroupUpdate → User → ℕ → Group → Group
unfolding strip
change_group q actor now g = record g {
  name = elim q.name [ none ↦ g.name | some name ↦ strip name ];
  description = new_description g.description q.description;
  status = given g.status q.status;
  updated_by = some actor.id;
  updated_at = now;
}

unfoldable pub update_group : ℕ → GroupUpdate → User → ℕ → Db → Reply Db
unfolding check_new_name change_group set_default_group
update_group id q actor now db = do
  require_admin actor
  group ← expect (first (is_group id) db.groups) 404 "分组不存在"
  check_new_name db id q.name
  require (not group.is_default || is_none q.status || is_active (given group.status q.status)) 400
      "默认分组不能停用，请先设置其他默认分组"
  require (not (is_false q.is_default && group.is_default)) 400 "不能直接取消默认分组，请将其他分组设为默认"
  require (not (is_true q.is_default) || is_active (given group.status q.status)) 400 "默认分组必须处于启用状态"
  ok (
      add_audit (group_entry actor "update_group" id now) (
        defaulted (is_true q.is_default) id actor now (record db {
          groups = update_where (λ g. g.id == id) (change_group q actor now) db.groups;
        })))

-- Whether a member is in a group.
abbrev pub is_in : ℕ → List Membership → ℕ → Bool
is_in group_id ms member =
    is_some (first (λ (m : Membership). m.member == member && m.group_id == group_id) ms)

unfoldable pub user_count : Db → ℕ → ℕ
user_count db id =
    count_where (λ (u : User). not u.is_deleted && is_in id db.user_groups u.id) db.users

unfoldable pub script_count : Db → ℕ → ℕ
script_count db id =
    count_where (λ (s : Script). not s.is_deleted && is_in id db.script_groups s.id) db.scripts

abbrev pub remove_group : User → ℕ → Group → Group
remove_group actor now g = record g {
  is_deleted = true;
  status = inactive;
  updated_by = some actor.id;
  updated_at = now;
}

unfoldable pub delete_group : ℕ → User → ℕ → Db → Reply Db
unfolding user_count script_count
delete_group id actor now db = do
  require_admin actor
  group ← expect (first (is_group id) db.groups) 404 "分组不存在"
  require (not group.is_default) 400 "默认分组不能删除，请先设置其他默认分组"
  require (user_count db id == 0 && script_count db id == 0) 409 "分组仍有关联，请先迁移关联"
  ok (
      add_audit (group_entry actor "delete_group" id now)
        (record db { groups = update_where (λ g. g.id == id) (remove_group actor now) db.groups }))
