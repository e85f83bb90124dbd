-- ===== src/Groups.antt =====
-- backend/app/services/groups.py and, of backend/app/services/script_access.py, assignable_groups: which
-- groups a script or a user may be put into, and which group is the default.
-- set_default_group is one transaction, so that its IntegrityError does not occur.
pub mod Default
pub mod Admin
pub mod Laws
use auto_script_hub.Prelude.{
  ℕ, Bool, true, false, not, ◌&&◌, ◌||◌, Option, none, some, List, [], ◌∷◌, ◌==◌, ltb, Reply, ok,
  http, ◌>>=◌, ◌>>◌, require, first, select, order_by, map, update_where, if◌then◌else◌,
}
use auto_script_hub.Store.{Db, Group, User, is_active, is_admin}
use auto_script_hub.Access.{member_of, active_group_ids_for_user}

abbrev pub by_id : Group → Group → Bool
by_id a b = ltb a.id b.id

abbrev pub is_default_group : Group → Bool
is_default_group g = g.is_default && (is_active g.status && not g.is_deleted)

unfoldable pub get_default_group : Db → Option Group
get_default_group db = first (λ g. true) (order_by by_id (select is_default_group db.groups))

-- set(a).issubset(b)
unfoldable pub is_subset : List ℕ → List ℕ → Bool
is_subset [] ms = true
is_subset (n ∷ ns) ms = member_of n ms && is_subset ns ms

abbrev pub is_chosen : List ℕ → Group → Bool
is_chosen ids g = member_of g.id ids && (is_active g.status && not g.is_deleted)

unfoldable pub chosen : Db → List ℕ → List Group
chosen db ids = order_by by_id (select (is_chosen ids) db.groups)

abbrev pub ids_of : List Group → List ℕ
ids_of gs = map (λ (g : Group). g.id) gs

unfoldable pub active_groups_by_ids : Db → List ℕ → Reply (List Group)
unfolding chosen is_subset
active_groups_by_ids db [] = ok []
active_groups_by_ids db (n ∷ ns) = do
  require
      (is_subset (ids_of (chosen db (n ∷ ns))) (n ∷ ns)
        && is_subset (n ∷ ns) (ids_of (chosen db (n ∷ ns))))
      400 "分组不存在或已停用"
  ok (chosen db (n ∷ ns))

unfoldable pub assignable_groups : Db → User → List ℕ → Bool → Reply (List Group)
unfolding active_groups_by_ids
assignable_groups db user [] allow_empty =
    if allow_empty && is_admin user.role then ok [] else http 400 "至少选择一个可见分组"
assignable_groups db user (n ∷ ns) allow_empty = do
  groups ← active_groups_by_ids db (n ∷ ns)
  require (is_admin user.role || is_subset (n ∷ ns) (active_group_ids_for_user db user)) 403
      "不能将脚本分配到自己所属范围之外"
  ok groups

abbrev pub is_other_default : ℕ → Group → Bool
is_other_default id g = g.is_default && (not g.is_deleted && not (g.id == id))

abbrev pub demote : Option ℕ → ℕ → Group → Group
demote actor_id now g = record g { is_default = false; updated_by = actor_id; updated_at = now }

-- Nothing is written where the group is the default already.
abbrev pub promote : ℕ → Group → Group
promote now g = record g {
  is_default = true;
  updated_at = if g.is_default then g.updated_at else now;
}

unfoldable pub set_default_group : ℕ → Option ℕ → ℕ → Db → Db
set_default_group id actor_id now db = record db {
  groups =
      update_where (λ g. g.id == id) (promote now)
        (update_where (is_other_default id) (demote actor_id now) db.groups);
}
