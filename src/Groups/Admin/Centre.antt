-- ===== src/Groups/Admin/Centre.antt =====
-- backend/app/routers/groups.py: there is always one default group, and it is active.
use auto_script_hub.Prelude.{
  ℕ, Bool, true, false, not, ◌&&◌, ◌||◌, Option, none, some, List, [], ◌∷◌, ◌++◌, ◌==◌, ◌≡◌, ◌∙◌,
  ◌+◌, ◌<◌, ◌≢◌, refl, sym, arith, subst, ok, expect, >>=-eq-ok, expect-eq-ok, require-eq-ok,
  ok-inj, first, first-some, first-own, first-update_where, touch, update_where, count_where,
  count_where-key, count-before, count-update_key, count-insert, IsFresh, IsFresh-update_where,
  IsFresh-insert, All, All-mem, All-append, All-update_where, All-update_key, is_none, str_eq,
  strip, if◌then◌else◌, ==_iff, All-map,
}
use auto_script_hub.Store.{Db, Group, User, Activity, is_active, is_admin}
use auto_script_hub.Users.{given}
use auto_script_hub.Groups.{is_other_default, demote, promote, set_default_group}
use auto_script_hub.Groups.Default.{new_group}
use auto_script_hub.Groups.Admin.{
  GroupCreate, GroupUpdate, cleaned, insert_group, defaulted, create_group, is_group,
  check_new_name, is_true, is_false, change_group, update_group, user_count, script_count,
  remove_group, delete_group,
}

abbrev pub is_centre : Group → Bool
is_centre g = g.is_default && not g.is_deleted

-- Groups have ids of their own, one that is not deleted is the default, and it is active.
pub record IsCentred (db : Db) : Type 0 where
  pub fresh : IsFresh (λ (g : Group). g.id) db.next_group_id db.groups
  pub one : count_where is_centre db.groups ≡ 1
  pub active : All (λ (g : Group). is_centre g ≡ true → is_active g.status ≡ true) db.groups

-- The rows and their counter are all that `IsCentred` reads.
same-IsCentred :
    (db db' : Db)
    → db'.groups ≡ db.groups
    → db'.next_group_id ≡ db.next_group_id
    → IsCentred db
    → IsCentred db'
same-IsCentred db db' e n c = record {
  fresh = rw (e, n) c.fresh;
  one = rw e c.one;
  active = rw e c.active;
}

-- After set_default_group the group of the id is the default, if it is there and not deleted, and nothing else.
centre_after :
    (id now : ℕ) (actor_id : Option ℕ) (g : Group)
    → is_centre (
        touch
          (λ (x : Group). x.id == id)
          (promote now)
          (touch (is_other_default id) (demote actor_id now) g))
      ≡ (g.id == id && not g.is_deleted)
centre_after id now actor_id g = ground arith

demoted_active :
    (id now : ℕ) (actor_id : Option ℕ) (g : Group)
    → (is_centre g ≡ true → is_active g.status ≡ true)
    → is_centre (touch (is_other_default id) (demote actor_id now) g) ≡ true
    → is_active (touch (is_other_default id) (demote actor_id now) g).status ≡ true
demoted_active id now actor_id g h c = ground arith

demote-id :
    (id now : ℕ) (actor_id : Option ℕ) (g : Group)
    → (touch (is_other_default id) (demote actor_id now) g).id ≡ g.id
demote-id id now actor_id g = ground arith

-- set_default_group on a group that is active and not deleted, whatever was the default before.
set_default_group-IsCentred :
    (id now : ℕ) (actor_id : Option ℕ) (db : Db) (g : Group)
    → IsFresh (λ (x : Group). x.id) db.next_group_id db.groups
    → All (λ (x : Group). is_centre x ≡ true → is_active x.status ≡ true) db.groups
    → first (λ (x : Group). x.id == id) db.groups ≡ some g
    → is_active g.status ≡ true
    → g.is_deleted ≡ false
    → IsCentred (set_default_group id actor_id now db)
unfolding set_default_group
set_default_group-IsCentred id now actor_id db g fresh active there on kept =
    let others = update_where (is_other_default id) (demote actor_id now) db.groups in
    let fresh1 =
      IsFresh-update_where (λ (x : Group). x.id) (is_other_default id) (demote actor_id now)
        db.next_group_id db.groups (λ x. refl) fresh in
    let there1 : first (λ (x : Group). x.id == id) others
        ≡ some (touch (is_other_default id) (demote actor_id now) g) =
      first-update_where (λ (x : Group). x.id == id) (is_other_default id) (demote actor_id now)
        db.groups (λ x. refl)
      ∙ rw there in
    let named : (g.id == id) ≡ true = (first-some (λ (x : Group). x.id == id) db.groups there).0 in
    record {
      fresh =
          IsFresh-update_where (λ (x : Group). x.id) (λ (x : Group). x.id == id) (promote now)
            db.next_group_id others (λ x. refl) fresh1;
      one =
          count-before is_centre
            (λ x. is_centre (touch (λ (y : Group). y.id == id) (promote now) x))
            (λ (x : Group). x.id == id) (promote now) others (λ x. refl)
          ∙ count-before (λ x. is_centre (touch (λ (y : Group). y.id == id) (promote now) x))
              (λ x. x.id == id && not x.is_deleted) (is_other_default id) (demote actor_id now)
              db.groups (centre_after id now actor_id)
          ∙ count_where-key (λ (x : Group). x.id) id (λ x. not x.is_deleted) db.groups fresh.keyed
          ∙ rw (there, kept);
      active =
          All-update_key (λ (x : Group). x.id)
            (λ (x : Group). is_centre x ≡ true → is_active x.status ≡ true) id (promote now) others
            fresh1.keyed there1 (λ c. still_on g named on)
            (All-update_where (λ (x : Group). is_centre x ≡ true → is_active x.status ≡ true)
              (λ (x : Group). is_centre x ≡ true → is_active x.status ≡ true) (is_other_default id)
              (demote actor_id now) db.groups (λ x h c. demoted_active id now actor_id x h c)
              active);
    }
  where
    still_on :
        (g : Group)
        → (g.id == id) ≡ true
        → is_active g.status ≡ true
        → is_active (promote now (touch (is_other_default id) (demote actor_id now) g)).status
          ≡ true
    still_on g n h = ground arith

-- A write of the row of one group that keeps the default, and keeps it active.
written-IsCentred :
    (id : ℕ) (f : Group → Group) (db : Db) (g : Group)
    → IsCentred db
    → first (λ (x : Group). x.id == id) db.groups ≡ some g
    → ((x : Group) → (f x).id ≡ x.id)
    → is_centre (f g) ≡ is_centre g
    → (is_centre g ≡ true → is_active (f g).status ≡ true)
    → IsCentred (record db { groups = update_where (λ x. x.id == id) f db.groups })
written-IsCentred id f db g c there same keeps on = record {
  fresh =
      IsFresh-update_where (λ (x : Group). x.id) (λ (x : Group). x.id == id) f db.next_group_id
        db.groups same c.fresh;
  one =
      balance _ (count_where is_centre db.groups) (is_centre g) (is_centre (f g)) keeps c.one
        (count-update_key (λ (x : Group). x.id) id is_centre f db.groups c.fresh.keyed there);
  active =
      All-update_key (λ (x : Group). x.id)
        (λ (x : Group). is_centre x ≡ true → is_active x.status ≡ true) id f db.groups c.fresh.keyed
        there (λ h. on (sym keeps ∙ h)) c.active;
}
  where
    balance :
        (m n : ℕ) (b b' : Bool)
        → b' ≡ b
        → n ≡ 1
        → m + (if b then 1 else 0) ≡ n + (if b' then 1 else 0)
        → m ≡ 1
    balance m n true true e h k = omega arith
    balance m n false false e h k = omega arith
    balance m n true false e h k = cc
    balance m n false true e h k = cc

-- A new group, which is not the default yet.
insert_group-IsCentred :
    (g : Group) (db : Db)
    → IsCentred db
    → g.id ≡ db.next_group_id
    → g.is_default ≡ false
    → IsCentred (insert_group g db)
insert_group-IsCentred g db c named plain = record {
  fresh = IsFresh-insert (λ (x : Group). x.id) db.next_group_id db.groups g named c.fresh;
  one =
      let n = c.one in
      let no : is_centre g ≡ false = ground arith in
      rw (count-insert is_centre db.groups g, no) (omega arith);
  active =
      All-append (λ (x : Group). is_centre x ≡ true → is_active x.status ≡ true) db.groups (g ∷ [])
        c.active (λ h. let clash : is_centre g ≡ false = ground arith in cc, tt);
}

defaulted-IsCentred :
    (b : Bool) (id : ℕ) (actor : User) (now : ℕ) (db : Db) (g : Group)
    → IsCentred db
    → first (λ (x : Group). x.id == id) db.groups ≡ some g
    → (not b || is_active g.status) ≡ true
    → g.is_deleted ≡ false
    → IsCentred (defaulted b id actor now db)
defaulted-IsCentred true id actor now db g c there on kept =
    set_default_group-IsCentred id now (some actor.id) db g c.fresh c.active there on kept
defaulted-IsCentred false id actor now db g c there on kept = c

-- The new row is found by its id.
new_row_found :
    (g : Group) (db : Db)
    → IsFresh (λ (x : Group). x.id) db.next_group_id db.groups
    → g.id ≡ db.next_group_id
    → first (λ (x : Group). x.id == db.next_group_id) (insert_group g db).groups ≡ some g
unfolding first
new_row_found g db f named =
    let away : All (λ (x : Group). x.id ≢ db.next_group_id) db.groups =
      All-map (λ (x : Group). x.id < db.next_group_id) (λ (x : Group). x.id ≢ db.next_group_id)
        db.groups (λ x h e. omega arith) f.below in
    behind db.groups away
  where
    behind :
        (rows : List Group)
        → All (λ (x : Group). x.id ≢ db.next_group_id) rows
        → first (λ (x : Group). x.id == db.next_group_id) (rows ++ g ∷ []) ≡ some g
    behind [] h = rw ((==_iff g.id db.next_group_id).1 named)
    behind (x ∷ rows) h =
        let away : (x.id == db.next_group_id) ≡ false = ground (arith, h.0) in
        rw away (behind rows h.1)

create_group-IsCentred :
    (q : GroupCreate) (actor : User) (now : ℕ) (db db' : Db)
    → IsCentred db
    → create_group q actor now db ≡ ok db'
    → IsCentred db'
unfolding create_group new_group
create_group-IsCentred q actor now db db' c h =
    let (isadmin, h1) = require-eq-ok (is_admin actor.role) 403 _ _ h in
    let (filled, h2) = require-eq-ok (not (str_eq (strip q.name) "")) 422 _ _ h1 in
    let (unused, h3) =
      require-eq-ok (is_none (first (λ (g : Group). str_eq g.name (strip q.name)) db.groups)) 409 _
        _ h2 in
    let (may, h4) = require-eq-ok (not q.is_default || is_active q.status) 400 _ _ h3 in
    let g =
      new_group (strip q.name) (cleaned q.description) q.status false (some actor.id) now
        db.next_group_id in
    let added = insert_group g db in
    let made =
      defaulted-IsCentred q.is_default db.next_group_id actor now added g
        (insert_group-IsCentred g db c refl refl) (new_row_found g db c.fresh refl) may refl in
    subst IsCentred (ok-inj h4)
      (record { fresh = made.fresh; one = made.one; active = made.active })

-- The group that a handler finds is the row of its id, and is not deleted.
found_group :
    (id : ℕ) (db : Db) {g : Group}
    → IsCentred db
    → expect (first (is_group id) db.groups) 404 "分组不存在" ≡ ok g
    → (first (λ (x : Group). x.id == id) db.groups ≡ some g) × (g.is_deleted ≡ false) × (g.id ≡ id)
found_group id db {g} c h =
    let (passes, m) =
      first-some (is_group id) db.groups (expect-eq-ok (first (is_group id) db.groups) 404 _ h) in
    let own = first-own (λ (x : Group). x.id) db.groups g c.fresh.keyed m in
    let named : g.id ≡ id = named_id g passes in
    (
      subst (λ n. first (λ (x : Group). x.id == n) db.groups ≡ some g) named own,
      kept_row g passes,
      named,
    )
  where
    named_id : (g : Group) → is_group id g ≡ true → g.id ≡ id
    named_id g h = ground arith

    kept_row : (g : Group) → is_group id g ≡ true → g.is_deleted ≡ false
    kept_row g h = ground arith

changed_status :
    (q : GroupUpdate) (actor : User) (now : ℕ) (g : Group)
    → (change_group q actor now g).status ≡ given g.status q.status
unfolding change_group
changed_status q actor now g = refl

changed_rest :
    (q : GroupUpdate) (actor : User) (now : ℕ) (g : Group)
    → ((change_group q actor now g).id ≡ g.id)
      × (is_centre (change_group q actor now g) ≡ is_centre g)
      × ((change_group q actor now g).is_deleted ≡ g.is_deleted)
unfolding change_group
changed_rest q actor now g = (refl, refl, refl)

-- A default group stays active where the check lets the new status pass.
stays_active :
    (g : Group) (o : Option Activity)
    → (not g.is_default || is_none o || is_active (given g.status o)) ≡ true
    → (is_centre g ≡ true → is_active g.status ≡ true)
    → is_centre g ≡ true
    → is_active (given g.status o) ≡ true
stays_active g none h k c = k c
stays_active g (some s) h k c = ground arith

update_group-IsCentred :
    (id : ℕ) (q : GroupUpdate) (actor : User) (now : ℕ) (db db' : Db)
    → IsCentred db
    → update_group id q actor now db ≡ ok db'
    → IsCentred db'
unfolding update_group
update_group-IsCentred id q actor now db db' c h =
    let (isadmin, h1) = require-eq-ok (is_admin actor.role) 403 _ _ h in
    let (g, e, h2) = >>=-eq-ok (expect (first (is_group id) db.groups) 404 "分组不存在") _ h1 in
    let (u, named, h3) = >>=-eq-ok (check_new_name db id q.name) _ h2 in
    let (status_ok, h4) =
      require-eq-ok (not g.is_default || is_none q.status || is_active (given g.status q.status))
        400 _ _ h3 in
    let (not_dropped, h5) =
      require-eq-ok (not (is_false q.is_default && g.is_default)) 400 _ _ h4 in
    let (may, h6) =
      require-eq-ok (not (is_true q.is_default) || is_active (given g.status q.status)) 400 _ _
        h5 in
    let (there, kept, same) = found_group id db c e in
    let f = change_group q actor now in
    let on = All-first db.groups there c.active in
    let changed =
      written-IsCentred id f db g c there (λ x. (changed_rest q actor now x).0)
        (changed_rest q actor now g).1
        (λ k. rw (changed_status q actor now g) (stays_active g q.status status_ok on k)) in
    let there1 : first (λ (x : Group). x.id == id) (update_where (λ x. x.id == id) f db.groups)
        ≡ some (f g) =
      first-update_where (λ (x : Group). x.id == id) (λ (x : Group). x.id == id) f db.groups
        (λ x. rw (changed_rest q actor now x).0)
      ∙ rw (there, (==_iff g.id id).1 same) in
    let made =
      defaulted-IsCentred (is_true q.is_default) id actor now
        (record db { groups = update_where (λ x. x.id == id) f db.groups }) (f g) changed there1
        (rw (changed_status q actor now g) may) ((changed_rest q actor now g).2 ∙ kept) in
    subst IsCentred (ok-inj h6)
      (record { fresh = made.fresh; one = made.one; active = made.active })
  where
    All-first :
        (rows : List Group) {g : Group}
        → first (λ (x : Group). x.id == id) rows ≡ some g
        → All (λ (x : Group). is_centre x ≡ true → is_active x.status ≡ true) rows
        → is_centre g ≡ true
        → is_active g.status ≡ true
    All-first rows there a k =
        All-mem (λ (x : Group). is_centre x ≡ true → is_active x.status ≡ true)
          (first-some (λ (x : Group). x.id == id) rows there).1 a k

delete_group-IsCentred :
    (id : ℕ) (actor : User) (now : ℕ) (db db' : Db)
    → IsCentred db
    → delete_group id actor now db ≡ ok db'
    → IsCentred db'
unfolding delete_group
delete_group-IsCentred id actor now db db' c h =
    let (isadmin, h1) = require-eq-ok (is_admin actor.role) 403 _ _ h in
    let (g, e, h2) = >>=-eq-ok (expect (first (is_group id) db.groups) 404 "分组不存在") _ h1 in
    let (plain, h3) = require-eq-ok (not g.is_default) 400 _ _ h2 in
    let (empty, h4) = require-eq-ok (user_count db id == 0 && script_count db id == 0) 409 _ _ h3 in
    let (there, kept, same) = found_group id db c e in
    let no : is_centre g ≡ false = ground arith in
    let made =
      written-IsCentred id (remove_group actor now) db g c there (λ x. refl)
        (gone actor now g ∙ sym no) (λ k. let clash : true ≡ false = sym k ∙ no in cc) in
    subst IsCentred (ok-inj h4)
      (record { fresh = made.fresh; one = made.one; active = made.active })
  where
    gone : (actor : User) (now : ℕ) (g : Group) → is_centre (remove_group actor now g) ≡ false
    gone actor now g = ground arith

-- What the handlers of groups do, one after another.
pub data Arranges (start : Db) : Db → Type 0 where
  untouched : Arranges start start
  creates :
      {db db' : Db} (q : GroupCreate) (actor : User) (now : ℕ)
      → Arranges start db
      → create_group q actor now db ≡ ok db'
      → Arranges start db'
  updates :
      {db db' : Db} (id : ℕ) (q : GroupUpdate) (actor : User) (now : ℕ)
      → Arranges start db
      → update_group id q actor now db ≡ ok db'
      → Arranges start db'
  deletes :
      {db db' : Db} (id : ℕ) (actor : User) (now : ℕ)
      → Arranges start db
      → delete_group id actor now db ≡ ok db'
      → Arranges start db'

-- Whatever groups are created, changed and deleted, in any order, one request after another: where groups had ids of
-- their own and one that is not deleted was the default, and active, that is still so.
pub Arranges-IsCentred : (start db : Db) → IsCentred start → Arranges start db → IsCentred db
Arranges-IsCentred start db c untouched = c
Arranges-IsCentred start db c (creates {db = d} q actor now r h) =
    create_group-IsCentred q actor now d db (Arranges-IsCentred start d c r) h
Arranges-IsCentred start db c (updates {db = d} id q actor now r h) =
    update_group-IsCentred id q actor now d db (Arranges-IsCentred start d c r) h
Arranges-IsCentred start db c (deletes {db = d} id actor now r h) =
    delete_group-IsCentred id actor now d db (Arranges-IsCentred start d c r) h
