-- ===== src/Groups/Default/Keeps.antt =====
-- backend/app/services/groups.py: the assignment of groups leaves the users alone.
use auto_script_hub.Prelude.{
  ℕ, true, Option, none, some, List, [], ◌∷◌, ◌≡◌, refl, arith, ok, >>=-eq-ok, first, subst, map,
}
use auto_script_hub.Store.{Db, Group, active}
use auto_script_hub.Groups.{get_default_group, active_groups_by_ids}
use auto_script_hub.Groups.Default.{
  put_groups, new_group, add_group, restore_or_create, default_or, get_or_create_default_group,
  set_user_groups, is_named_default, default_group_name,
}

-- The users and their counter are as they were.
pub record SameUsers (a b : Db) : Type 0 where
  pub users : b.users ≡ a.users
  pub next : b.next_user_id ≡ a.next_user_id

added : (make : ℕ → Group) (db : Db) {r : ℕ × Db} → add_group make db ≡ ok r → SameUsers db r.1
unfolding add_group
added make db h = record { users = ground arith; next = ground arith }

restored :
    (actor_id : Option ℕ) (now : ℕ) (o : Option Group) (db : Db) {r : ℕ × Db}
    → restore_or_create actor_id now o db ≡ ok r
    → SameUsers db r.1
unfolding restore_or_create
restored actor_id now (some g) db h = record { users = ground arith; next = ground arith }
restored actor_id now none db h =
    added (new_group default_group_name (some "默认市场分组") active true actor_id now) db h

chosen_default :
    (actor_id : Option ℕ) (now : ℕ) (o : Option Group) (db : Db) {r : ℕ × Db}
    → default_or actor_id now o db ≡ ok r
    → SameUsers db r.1
unfolding default_or
chosen_default actor_id now (some g) db h = record { users = ground arith; next = ground arith }
chosen_default actor_id now none db h =
    restored actor_id now (first is_named_default db.groups) db h

pub set_user_groups-SameUsers :
    (id : ℕ) (ids : Option (List ℕ)) (actor_id : Option ℕ) (now : ℕ) (db : Db) {db' : Db}
    → set_user_groups id ids actor_id now db ≡ ok db'
    → SameUsers db db'
unfolding set_user_groups get_or_create_default_group
set_user_groups-SameUsers id none actor_id now db {db'} h =
    let (made, e, rest) = >>=-eq-ok (get_or_create_default_group actor_id now db) _ h in
    let k = chosen_default actor_id now (get_default_group db) db e in
    let put : put_groups id (made.0 ∷ []) made.1 ≡ db' = cc in
    subst (SameUsers db) put (record { users = k.users; next = k.next })
set_user_groups-SameUsers id (some ids) actor_id now db {db'} h =
    let (groups, e, rest) = >>=-eq-ok (active_groups_by_ids db ids) _ h in
    let put : put_groups id (map (λ (g : Group). g.id) groups) db ≡ db' = cc in
    subst (SameUsers db) put (record { users = refl; next = refl })
