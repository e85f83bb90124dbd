-- ===== src/Groups/Laws.antt =====
-- backend/app/services/groups.py and script_access.py: no one assigns beyond the own groups.
use auto_script_hub.Prelude.{
  ℕ, String, Bool, true, false, not, ◌&&◌, ◌||◌, Option, List, [], ◌∷◌, ◌==◌, ◌≡◌, refl, arith,
  Reply, ok, http, ◌>>◌, >>=-eq-ok, require, subst, All, All-order_by, All-select, All-any, touch,
  All-update_where, update_where, Bool-cases, inl, inr,
}
use auto_script_hub.Store.{Db, Group, User, is_active, is_admin}
use auto_script_hub.Access.{member_of, active_group_ids_for_user}
use auto_script_hub.Groups.{
  by_id, is_chosen, is_subset, chosen, ids_of, active_groups_by_ids, assignable_groups,
  is_other_default, demote, promote, set_default_group,
}

subset-All : (ns ms : List ℕ) → is_subset ns ms ≡ true → All (λ (n : ℕ). member_of n ms ≡ true) ns
unfolding is_subset
subset-All [] ms h = tt
subset-All (n ∷ ns) ms h = (ground arith, subset-All ns ms (ground arith))

-- A check that was passed.
passed-ok :
    (b : Bool) (c : ℕ) (d : String) (k : Reply (List Group)) {gs : List Group}
    → (require b c d >> k) ≡ ok gs
    → (b ≡ true) × (k ≡ ok gs)
passed-ok true c d k h = (refl, h)
passed-ok false c d k h = cc

chosen-All :
    (db : Db) (ids : List ℕ)
    → All (λ (g : Group). (is_active g.status && not g.is_deleted) ≡ true) (chosen db ids)
unfolding chosen
chosen-All db ids =
    All-order_by (λ (g : Group). (is_active g.status && not g.is_deleted) ≡ true) by_id _
      (All-select (λ (g : Group). Unit {0})
        (λ (g : Group). (is_active g.status && not g.is_deleted) ≡ true) (is_chosen ids) db.groups
        (λ g u e. ground arith) (All-any (λ (g : Group). Unit {0}) db.groups (λ g. tt)))

-- What an accepted choice of groups has shown.
pub record Assignable (db : Db) (user : User) (ids : List ℕ) (gs : List Group) : Type 0 where
  pub found : All (λ (n : ℕ). member_of n (ids_of gs) ≡ true) ids
  pub only : All (λ (n : ℕ). member_of n ids ≡ true) (ids_of gs)
  pub active : All (λ (g : Group). (is_active g.status && not g.is_deleted) ≡ true) gs
  pub allowed : (is_admin user.role || is_subset ids (active_group_ids_for_user db user)) ≡ true

active-ok :
    (db : Db) (n : ℕ) (ns : List ℕ) (gs : List Group)
    → active_groups_by_ids db (n ∷ ns) ≡ ok gs
    → (is_subset (ids_of gs) (n ∷ ns) ≡ true)
      × (is_subset (n ∷ ns) (ids_of gs) ≡ true)
      × All (λ (g : Group). (is_active g.status && not g.is_deleted) ≡ true) gs
unfolding active_groups_by_ids
active-ok db n ns gs h =
    let both =
      is_subset (ids_of (chosen db (n ∷ ns))) (n ∷ ns)
      && is_subset (n ∷ ns) (ids_of (chosen db (n ∷ ns))) in
    let (required, last) = passed-ok both 400 "分组不存在或已停用" (ok (chosen db (n ∷ ns))) h in
    let same : chosen db (n ∷ ns) ≡ gs = cc in
    subst
      (λ (x : List Group).
        (is_subset (ids_of x) (n ∷ ns) ≡ true)
        × (is_subset (n ∷ ns) (ids_of x) ≡ true)
        × All (λ (g : Group). (is_active g.status && not g.is_deleted) ≡ true) x)
      same (ground arith, ground arith, chosen-All db (n ∷ ns))

-- Where a choice of groups is accepted, every group that it names is returned and no other, all that are
-- returned are active, and who is not an admin is a member of all that it names.
pub assignable_groups-ok :
    (db : Db) (user : User) (ids : List ℕ) (allow_empty : Bool) (gs : List Group)
    → assignable_groups db user ids allow_empty ≡ ok gs
    → Assignable db user ids gs
unfolding assignable_groups is_subset
assignable_groups-ok db user [] allow_empty gs h =
    elim (Bool-cases (allow_empty && is_admin user.role)) [
      | inl e ↦
          let q : ◌≡◌ {A = Reply (List Group)} (ok []) (ok gs) = rw e at h in
          let same : [] ≡ gs = cc in
          subst (λ (x : List Group). Assignable db user [] x) same
            (record { found = tt; only = tt; active = tt; allowed = ground arith })
      | inr e ↦
          let q : ◌≡◌ {A = Reply (List Group)} (http 400 "至少选择一个可见分组") (ok gs) = rw e at h in
          absurd (cc)
    ]
assignable_groups-ok db user (n ∷ ns) allow_empty gs h =
    let (found, e, rest) = >>=-eq-ok (active_groups_by_ids db (n ∷ ns)) _ h in
    let permitted = is_admin user.role || is_subset (n ∷ ns) (active_group_ids_for_user db user) in
    let (required, last) = passed-ok permitted 403 "不能将脚本分配到自己所属范围之外" (ok found) rest in
    let same : found ≡ gs = cc in
    let (only, all, active_ones) = active-ok db n ns found e in
    subst (λ (x : List Group). Assignable db user (n ∷ ns) x) same
      (record {
        found = subset-All (n ∷ ns) (ids_of found) all;
        only = subset-All (ids_of found) (n ∷ ns) only;
        active = active_ones;
        allowed = required;
      })

-- After set_default_group no other group that is not deleted is a default.
pub set_default_group-alone :
    (id : ℕ) (actor_id : Option ℕ) (now : ℕ) (db : Db)
    → All
        (λ (g : Group). is_other_default id g ≡ false)
        (set_default_group id actor_id now db).groups
unfolding set_default_group
set_default_group-alone id actor_id now db =
    All-update_where (λ (g : Group). is_other_default id g ≡ false)
      (λ (g : Group). is_other_default id g ≡ false) (λ g. g.id == id) (promote now)
      (update_where (is_other_default id) (demote actor_id now) db.groups) (λ g h. promoted g h)
      (All-update_where (λ (g : Group). Unit {0}) (λ (g : Group). is_other_default id g ≡ false)
        (is_other_default id) (demote actor_id now) db.groups (λ g u. demoted g)
        (All-any (λ (g : Group). Unit {0}) db.groups (λ g. tt)))
  where
    promoted :
        (g : Group)
        → is_other_default id g ≡ false
        → is_other_default id (touch (λ x. x.id == id) (promote now) g) ≡ false
    promoted g h = ground arith

    demoted :
        (g : Group)
        → is_other_default id (touch (is_other_default id) (demote actor_id now) g) ≡ false
    demoted g = ground arith
