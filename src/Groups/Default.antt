-- ===== src/Groups/Default.antt =====
-- backend/app/services/groups.py: the default group, and the groups of a user.
-- The name of a group is unique among all rows, deleted ones too: a second one is an IntegrityError,
-- which nothing catches.
pub mod Keeps
use auto_script_hub.Prelude.{
  ℕ, suc, String, Bool, true, false, not, ◌&&◌, Option, none, some, List, [], ◌∷◌, ◌++◌, ◌==◌,
  Reply, ok, http, ◌>>=◌, first, select, map, update_where, is_some, if◌then◌else◌, str_eq,
}
use auto_script_hub.Store.{Db, Group, User, Membership, Activity, active}
use auto_script_hub.Groups.{get_default_group, active_groups_by_ids}

abbrev pub default_group_name : String
default_group_name = "默认分组"

unfoldable pub new_group : String → Option String → Activity → Bool → Option ℕ → ℕ → ℕ → Group
new_group name description status is_default actor_id now id = record {
  id = id;
  name = name;
  description = description;
  status = status;
  is_default = is_default;
  created_at = now;
  updated_at = now;
  created_by = actor_id;
  updated_by = actor_id;
  is_deleted = false;
}

-- db.add(group); db.flush()
unfoldable pub add_group : (ℕ → Group) → Db → Reply (ℕ × Db)
add_group make db =
    if is_some (first (λ (g : Group). str_eq g.name (make db.next_group_id).name) db.groups)
    then http 500 "Internal Server Error"
    else ok (
      db.next_group_id,
      record db {
        groups = db.groups ++ make db.next_group_id ∷ [];
        next_group_id = suc db.next_group_id;
      },
    )

abbrev pub is_named_default : Group → Bool
is_named_default g = str_eq g.name default_group_name && not g.is_deleted

abbrev pub restore : Option ℕ → ℕ → Group → Group
restore actor_id now g = record g {
  status = active;
  is_default = true;
  updated_by = actor_id;
  updated_at = now;
}

unfoldable pub restore_or_create : Option ℕ → ℕ → Option Group → Db → Reply (ℕ × Db)
unfolding add_group new_group
restore_or_create actor_id now (some g) db =
    ok (
      g.id,
      record db { groups = update_where (λ x. x.id == g.id) (restore actor_id now) db.groups },
    )
restore_or_create actor_id now none db =
    add_group (new_group default_group_name (some "默认市场分组") active true actor_id now) db

default_or : Option ℕ → ℕ → Option Group → Db → Reply (ℕ × Db)
unfolding restore_or_create
default_or actor_id now (some g) db = ok (g.id, db)
default_or actor_id now none db =
    restore_or_create actor_id now (first is_named_default db.groups) db

unfoldable pub get_or_create_default_group : Option ℕ → ℕ → Db → Reply (ℕ × Db)
unfolding default_or get_default_group
get_or_create_default_group actor_id now db = default_or actor_id now (get_default_group db) db

-- user.groups = groups
abbrev pub put_groups : ℕ → List ℕ → Db → Db
put_groups user_id ids db = record db {
  user_groups =
      select (λ (m : Membership). not (m.member == user_id)) db.user_groups
      ++ map (λ (g : ℕ). let m : Membership = record { member = user_id; group_id = g } in m) ids;
}

unfoldable pub set_user_groups : ℕ → Option (List ℕ) → Option ℕ → ℕ → Db → Reply Db
unfolding get_or_create_default_group active_groups_by_ids
set_user_groups user_id none actor_id now db = do
  made ← get_or_create_default_group actor_id now db
  ok (put_groups user_id (made.0 ∷ []) made.1)
set_user_groups user_id (some ids) actor_id now db = do
  groups ← active_groups_by_ids db ids
  ok (put_groups user_id (map (λ (g : Group). g.id) groups) db)
