-- ===== src/Access.antt =====
-- backend/app/services/script_access.py: who may see and manage which scripts, by shared groups.
use auto_script_hub.Prelude.{
  ℕ, Bool, true, false, not, ◌&&◌, ◌||◌, List, [], ◌∷◌, ◌==◌, Reply, ok, ◌>>=◌, ◌>>◌, require,
  expect, first, select, map, is_some,
}
use auto_script_hub.Store.{
  Db, User, Script, Group, Membership, Role, developer, is_admin, is_active,
}

-- `x.in_(ids)`
unfoldable pub member_of : ℕ → List ℕ → Bool
member_of n [] = false
member_of n (m ∷ ms) = m == n || member_of n ms

abbrev pub is_open_group : ℕ → Group → Bool
is_open_group id g = g.id == id && (is_active g.status && not g.is_deleted)

-- The join with `groups` and the conditions on it: an active group of that id that is not deleted.
unfoldable pub is_active_group : Db → ℕ → Bool
is_active_group db id = is_some (first (is_open_group id) db.groups)

-- The groups of a user, of those that are active.
unfoldable pub active_group_ids_for_user : Db → User → List ℕ
unfolding is_active_group
active_group_ids_for_user db user =
    map (λ (m : Membership). m.group_id)
      (select (λ m. m.member == user.id && is_active_group db m.group_id) db.user_groups)

-- The members of one of these groups: the second join of the subqueries.
unfoldable pub in_groups : List ℕ → List Membership → List ℕ
unfolding member_of
in_groups groups rows =
    map (λ (m : Membership). m.member) (select (λ m. member_of m.group_id groups) rows)

unfoldable pub accessible_user_ids : Db → User → List ℕ
unfolding in_groups active_group_ids_for_user
accessible_user_ids db user = in_groups (active_group_ids_for_user db user) db.user_groups

unfoldable pub accessible_script_ids : Db → User → List ℕ
unfolding in_groups active_group_ids_for_user
accessible_script_ids db user = in_groups (active_group_ids_for_user db user) db.script_groups

unfoldable pub can_access_script : Db → User → Script → Bool
unfolding accessible_script_ids
can_access_script db user script =
    is_admin user.role || member_of script.id (accessible_script_ids db user)

abbrev pub is_developer : Role → Bool
is_developer developer = true
is_developer _ = false

unfoldable pub can_manage_script : Db → User → Script → Bool
unfolding can_access_script
can_manage_script db user script =
    is_admin user.role || (is_developer user.role && can_access_script db user script)

-- The query, with `restrict_script_query` as its last filter.
abbrev pub wanted_script : Db → User → ℕ → Bool → Script → Bool
wanted_script db user script_id require_active s =
    s.id == script_id
    && (not s.is_deleted
        && ((not require_active || is_active s.status)
            && (is_admin user.role || member_of s.id (accessible_script_ids db user))))

unfoldable pub get_accessible_script_or_404 : Db → User → ℕ → Bool → Reply Script
get_accessible_script_or_404 db user script_id require_active =
    expect (first (wanted_script db user script_id require_active) db.scripts) 404 "脚本不存在或无访问权限"

unfoldable pub get_manageable_script_or_404 : Db → User → ℕ → Reply Script
get_manageable_script_or_404 db user script_id = do
  script ← expect (first (λ s. s.id == script_id && not s.is_deleted) db.scripts) 404 "脚本不存在或无管理权限"
  require (can_manage_script db user script) 404 "脚本不存在或无管理权限"
  ok script
