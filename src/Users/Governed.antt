-- ===== src/Users/Governed.antt =====
-- backend/app/routers/users.py: there is always an active admin.
use auto_script_hub.Prelude.{
  ℕ, String, Bool, true, false, not, ◌&&◌, Option, none, some, List, [], ◌∷◌, ◌++◌, ◌==◌, ◌≡◌, ◌≤◌,
  ◌<◌, ◌+◌, refl, subst, arith, ok, expect, >>=-eq-ok, expect-eq-ok, require-eq-ok, first,
  first-some, first-own, update_where, count_where, count-insert, count-update_key, IsFresh,
  IsFresh-update_where, IsFresh-insert, if◌then◌else◌, strip, is_none, str_eq,
}
use auto_script_hub.Store.{
  Db, User, Role, Activity, operator, inactive, is_active, is_admin, add_audit,
}
use auto_script_hub.Groups.Default.{set_user_groups}
use auto_script_hub.Groups.Default.Keeps.{SameUsers, set_user_groups-SameUsers}
use auto_script_hub.Users.{
  is_active_admin, active_admin_count, given, protect_admin_transition, visible_user, UserCreate,
  UserUpdate, new_user, add_user, create_user, check_self, check_name, change_user, change_groups,
  write_user, update_user, remove_user, delete_user, is_filled, user_entry,
}

-- Users have ids of their own, and one of them is an active admin.
pub record IsGoverned (db : Db) : Type 0 where
  pub fresh : IsFresh (λ (u : User). u.id) db.next_user_id db.users
  pub governed : 1 ≤ active_admin_count db

still_one :
    (n m : ℕ) (b b' k : Bool)
    → 1 ≤ n
    → m + (if b then 1 else 0) ≡ n + (if b' then 1 else 0)
    → (k ≡ true → b ≡ true → b' ≡ true)
    → (b ≡ true → k ≡ false → 1 < n)
    → 1 ≤ m
still_one n m true true k h e stays many = omega arith
still_one n m true false true h e stays many = let no = stays refl refl in cc
still_one n m true false false h e stays many = let two = many refl refl in omega arith
still_one n m false true k h e stays many = omega arith
still_one n m false false k h e stays many = omega arith

not_last :
    (db : Db) (user : User) (role : Option Role) (status : Option Activity)
    → protect_admin_transition db user role status ≡ ok tt
    → is_active_admin user ≡ true
    → (is_admin (given user.role role) && is_active (given user.status status)) ≡ false
    → 1 < active_admin_count db
unfolding protect_admin_transition
not_last db user role status h a b = ground arith

-- Where the check lets a change pass, the change keeps an admin.
write_user-IsGoverned :
    (db grouped db' : Db) (id : ℕ) (user : User) (role : Option Role) (status : Option Activity)
    (f : User → User)
    → IsGoverned db
    → SameUsers db grouped
    → first (visible_user id) db.users ≡ some user
    → protect_admin_transition db user role status ≡ ok tt
    → ((u : User) → (f u).id ≡ u.id)
    → ((is_admin (given user.role role) && is_active (given user.status status)) ≡ true
        → is_active_admin user ≡ true
        → is_active_admin (f user) ≡ true)
    → SameUsers (write_user id f grouped) db'
    → IsGoverned db'
unfolding protect_admin_transition active_admin_count
write_user-IsGoverned db grouped db' id user role status f g same found passed keeps stays last =
    let k = first-some (visible_user id) db.users found in
    let own = first-own (λ (u : User). u.id) db.users user g.fresh.keyed k.1 in
    let named : user.id ≡ id = ground arith in
    let there : first (λ (u : User). u.id == id) db.users ≡ some user =
      subst (λ n. first (λ (u : User). u.id == n) db.users ≡ some user) named own in
    let counted =
      count-update_key (λ (u : User). u.id) id is_active_admin f db.users g.fresh.keyed there in
    let more : 1
        ≤ count_where is_active_admin (update_where (λ (u : User). u.id == id) f db.users) =
      still_one (count_where is_active_admin db.users) _ (is_active_admin user)
        (is_active_admin (f user))
        (is_admin (given user.role role) && is_active (given user.status status)) g.governed counted
        stays (not_last db user role status passed) in
    record {
      fresh =
          rw (last.users, last.next, same.users, same.next)
            (IsFresh-update_where (λ (u : User). u.id) (λ (u : User). u.id == id) f db.next_user_id
              db.users keeps g.fresh);
      governed = rw (last.users, same.users) more;
    }

new_user-id :
    (hash : String → String) (q : UserCreate) (actor : User) (now id : ℕ)
    → (new_user hash q actor now id).id ≡ id
unfolding new_user
new_user-id hash q actor now id = refl

stays_admin :
    (q : UserUpdate) (actor : User) (now : ℕ) (u : User)
    → (is_admin (given u.role q.role) && is_active (given u.status q.status)) ≡ true
    → is_active_admin u ≡ true
    → is_active_admin (change_user q actor now u) ≡ true
unfolding change_user
stays_admin q actor now u h a = ground arith

change_user-id :
    (q : UserUpdate) (actor : User) (now : ℕ) (u : User) → (change_user q actor now u).id ≡ u.id
unfolding change_user
change_user-id q actor now u = ground arith

change_groups-SameUsers :
    (id : ℕ) (ids : Option (List ℕ)) (actor : User) (now : ℕ) (db : Db) {db' : Db}
    → change_groups id ids actor now db ≡ ok db'
    → SameUsers db db'
unfolding change_groups
change_groups-SameUsers id none actor now db h = record {
  users = ground arith;
  next = ground arith;
}
change_groups-SameUsers id (some ids) actor now db h =
    set_user_groups-SameUsers id (some ids) (some actor.id) now db h

-- Creating a user adds to the admins, or leaves them.
pub create_user-IsGoverned :
    (hash : String → String) (q : UserCreate) (actor : User) (now : ℕ) (db db' : Db)
    → IsGoverned db
    → create_user hash q actor now db ≡ ok db'
    → IsGoverned db'
unfolding create_user active_admin_count
create_user-IsGoverned hash q actor now db db' g h =
    let (isadmin, h1) = require-eq-ok (is_admin actor.role) 403 _ _ h in
    let (filled, h2) =
      require-eq-ok (is_filled (strip q.username) && is_filled (strip q.display_name)) 422 _ _ h1 in
    let (unused, h3) =
      require-eq-ok (is_none (first (λ (u : User). str_eq u.username (strip q.username)) db.users))
        400 _ _ h2 in
    let added = add_user (new_user hash q actor now) db in
    let (grouped, e, h4) =
      >>=-eq-ok (set_user_groups db.next_user_id q.group_ids (some actor.id) now added) _ h3 in
    let same = set_user_groups-SameUsers db.next_user_id q.group_ids (some actor.id) now added e in
    let made : add_audit (user_entry actor "create_user" db.next_user_id now) grouped ≡ db' = cc in
    let u = new_user hash q actor now db.next_user_id in
    let counted = count-insert is_active_admin db.users u in
    let many : 1 ≤ count_where is_active_admin (db.users ++ u ∷ []) = ground arith in
    subst IsGoverned made (record {
      fresh =
          rw (same.users, same.next)
            (IsFresh-insert (λ (x : User). x.id) db.next_user_id db.users u
              (new_user-id hash q actor now db.next_user_id) g.fresh);
      governed = rw same.users many;
    })

-- A change of a user never takes the last active admin away.
pub update_user-IsGoverned :
    (id : ℕ) (q : UserUpdate) (actor : User) (now : ℕ) (db db' : Db)
    → IsGoverned db
    → update_user id q actor now db ≡ ok db'
    → IsGoverned db'
unfolding update_user
update_user-IsGoverned id q actor now db db' g h =
    let (isadmin, h1) = require-eq-ok (is_admin actor.role) 403 _ _ h in
    let (user, e, h2) = >>=-eq-ok (expect (first (visible_user id) db.users) 404 _) _ h1 in
    let found = expect-eq-ok (first (visible_user id) db.users) 404 _ e in
    let (u1, self, h3) = >>=-eq-ok (check_self q actor user) _ h2 in
    let (u2, passed, h4) = >>=-eq-ok (protect_admin_transition db user q.role q.status) _ h3 in
    let (u3, named, h5) = >>=-eq-ok (check_name q.display_name) _ h4 in
    let (grouped, c, h6) = >>=-eq-ok (change_groups id q.group_ids actor now db) _ h5 in
    let made : add_audit (user_entry actor "update_user" id now)
          (write_user id (change_user q actor now) grouped)
        ≡ db' =
      cc in
    write_user-IsGoverned db grouped db' id user q.role q.status (change_user q actor now) g
      (change_groups-SameUsers id q.group_ids actor now db c) found passed
      (change_user-id q actor now) (stays_admin q actor now user)
      (subst (SameUsers (write_user id (change_user q actor now) grouped)) made
        (record { users = refl; next = refl }))

-- Nor does a deletion.
pub delete_user-IsGoverned :
    (id : ℕ) (actor : User) (now : ℕ) (db db' : Db)
    → IsGoverned db
    → delete_user id actor now db ≡ ok db'
    → IsGoverned db'
unfolding delete_user
delete_user-IsGoverned id actor now db db' g h =
    let (isadmin, h1) = require-eq-ok (is_admin actor.role) 403 _ _ h in
    let (user, e, h2) = >>=-eq-ok (expect (first (visible_user id) db.users) 404 _) _ h1 in
    let found = expect-eq-ok (first (visible_user id) db.users) 404 _ e in
    let (other, h3) = require-eq-ok (not (user.id == actor.id)) 400 _ _ h2 in
    let (u2, passed, h4) =
      >>=-eq-ok (protect_admin_transition db user (some operator) (some inactive)) _ h3 in
    let made : add_audit (user_entry actor "delete_user" id now)
          (write_user id (remove_user actor now) db)
        ≡ db' =
      cc in
    write_user-IsGoverned db db db' id user (some operator) (some inactive) (remove_user actor now)
      g (record { users = refl; next = refl }) found passed (λ u. refl) (λ no a. cc)
      (subst (SameUsers (write_user id (remove_user actor now) db)) made
        (record { users = refl; next = refl }))

-- What the handlers of users do, one after another.
pub data Administers (hash : String → String) (start : Db) : Db → Type 0 where
  begins : Administers hash start start
  creates :
      {db db' : Db} (q : UserCreate) (actor : User) (now : ℕ)
      → Administers hash start db
      → create_user hash q actor now db ≡ ok db'
      → Administers hash start db'
  updates :
      {db db' : Db} (id : ℕ) (q : UserUpdate) (actor : User) (now : ℕ)
      → Administers hash start db
      → update_user id q actor now db ≡ ok db'
      → Administers hash start db'
  deletes :
      {db db' : Db} (id : ℕ) (actor : User) (now : ℕ)
      → Administers hash start db
      → delete_user id actor now db ≡ ok db'
      → Administers hash start db'

-- Whoever creates, changes and deletes users, in any order: where there was an active admin, there is one.
pub Administers-IsGoverned :
    (hash : String → String) (start db : Db)
    → IsGoverned start
    → Administers hash start db
    → IsGoverned db
Administers-IsGoverned hash start db g begins = g
Administers-IsGoverned hash start db g (creates {db = db0} q actor now r h) =
    create_user-IsGoverned hash q actor now db0 db (Administers-IsGoverned hash start db0 g r) h
Administers-IsGoverned hash start db g (updates {db = db0} id q actor now r h) =
    update_user-IsGoverned id q actor now db0 db (Administers-IsGoverned hash start db0 g r) h
Administers-IsGoverned hash start db g (deletes {db = db0} id actor now r h) =
    delete_user-IsGoverned id actor now db0 db (Administers-IsGoverned hash start db0 g r) h
