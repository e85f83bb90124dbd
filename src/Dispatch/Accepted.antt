-- ===== src/Dispatch/Accepted.antt =====
-- backend/app/services/run_dispatch.py, create_validated_run: what a run that is created has gone through, and what it
-- is, column by column.
use auto_script_hub.Prelude.{
  ℕ, String, Bool, true, false, ◌||◌, map, select, ==_iff, Option, none, some, List, [], ◌∷◌, ◌++◌,
  Memᴰ, ◌+◌, ◌≡◌, ◌⊎◌, inl, inr, refl, sym, arith, subst, first, first-some, Reply, ok, http,
  str_eq, str_eq_iff, Bool-cases, Option-cases, ◌&&◌, ◌==◌,
}
use auto_script_hub.Store.{
  Db, Run, User, Script, Group, Membership, Environment, pending, is_active, is_admin,
}
use auto_script_hub.Access.{
  wanted_script, member_of, is_open_group, is_active_group, active_group_ids_for_user, in_groups,
  accessible_script_ids,
}
use auto_script_hub.Contract.Params.{Values, Value, Definition, validate_params}
use auto_script_hub.Dispatch.{
  Json, Order, new_run, check_environment, no_errors, check_definitions, check_config,
  create_validated_run,
}
use auto_script_hub.Dispatch.Laws.{Inserted, create_validated_run-Inserted}

-- The user and the script are members of one group, which is active and not deleted.
pub record SharesGroup (db : Db) (user : User) (script : Script) : Type 0 where
  pub group : Group
  pub stored : Memᴰ group db.groups
  pub active : is_active group.status ≡ true
  pub kept : group.is_deleted ≡ false
  pub users : Membership
  pub has_user : Memᴰ users db.user_groups × (users.member ≡ user.id) × (users.group_id ≡ group.id)
  pub scripts : Membership
  pub has_script :
      Memᴰ scripts db.script_groups × (scripts.member ≡ script.id) × (scripts.group_id ≡ group.id)

-- A number that a query gives comes from one of its rows.
member_of-row :
    (n : ℕ) (f : Membership → ℕ) (p : Membership → Bool) (rows : List Membership)
    → member_of n (map f (select p rows)) ≡ true
    → (m : Membership) × Memᴰ m rows × (f m ≡ n) × (p m ≡ true)
unfolding member_of select
member_of-row n f p [] h = cc
member_of-row n f p (m ∷ rows) h =
    let rest =
      λ (g : member_of n (map f (select p rows)) ≡ true). later (member_of-row n f p rows g) in
    elim (Bool-cases (p m)) [ inl e ↦ first_or_later rest e (rw e at h) | inr e ↦ rest (rw e at h) ]
  where
    later :
        ((x : Membership) × Memᴰ x rows × (f x ≡ n) × (p x ≡ true))
        → (x : Membership) × Memᴰ x (m ∷ rows) × (f x ≡ n) × (p x ≡ true)
    later (x, stored, named, passes) = (x, Memᴰ.tail stored, named, passes)

    first_or_later :
        (member_of n (map f (select p rows)) ≡ true
          → (x : Membership) × Memᴰ x (m ∷ rows) × (f x ≡ n) × (p x ≡ true))
        → p m ≡ true
        → (f m == n || member_of n (map f (select p rows))) ≡ true
        → (x : Membership) × Memᴰ x (m ∷ rows) × (f x ≡ n) × (p x ≡ true)
    first_or_later rest e g = elim (Bool-cases (f m == n)) [
      | inl q ↦ (m, Memᴰ.head refl, (==_iff (f m) n).0 q, e)
      | inr q ↦ rest (rw q at g)
    ]

shared :
    (db : Db) (user : User) (script : Script)
    → member_of script.id (accessible_script_ids db user) ≡ true
    → SharesGroup db user script
unfolding accessible_script_ids in_groups active_group_ids_for_user is_active_group
shared db user script h =
    let (s, has_script, s_named, s_in) =
      member_of-row script.id (λ (m : Membership). m.member)
        (λ m. member_of m.group_id (active_group_ids_for_user db user)) db.script_groups h in
    let (u, has_user, u_named, u_in) =
      member_of-row s.group_id (λ (m : Membership). m.group_id)
        (λ m. m.member == user.id && is_active_group db m.group_id) db.user_groups s_in in
    elim (Option-cases (first (is_open_group u.group_id) db.groups)) [
      | inl e ↦ absurd (shut u u_in e)
      | inr (g, e) ↦
          let (is_open, stored) = first-some (is_open_group u.group_id) db.groups e in
          record {
            group = g;
            stored = stored;
            active = ground arith;
            kept = ground arith;
            users = u;
            has_user = (has_user, ground arith, ground arith);
            scripts = s;
            has_script = (has_script, s_named, ground arith);
          }
    ]
  where
    shut :
        (u : Membership)
        → (u.member == user.id && is_active_group db u.group_id) ≡ true
        → first (is_open_group u.group_id) db.groups ≡ none
        → ⊥
    shut u h e = ground (arith, e)

-- A script of that id which is active, not deleted, and open to the user.
pub record IsUsable (db : Db) (user : User) (script_id : ℕ) (script : Script) : Type 0 where
  pub stored : Memᴰ script db.scripts
  pub named : script.id ≡ script_id
  pub active : is_active script.status ≡ true
  pub kept : script.is_deleted ≡ false
  pub open_to : (is_admin user.role ≡ true) ⊎ SharesGroup db user script

-- No environment is asked for, or one of the user's.
abbrev pub IsOwn : Db → User → Option ℕ → Type 0
IsOwn db user asked =
    (asked ≡ none)
    ⊎ ((x : Environment) × Memᴰ x db.environments × (asked ≡ some x.id) × (x.user_id ≡ user.id))

usable :
    (db : Db) (user : User) (script_id : ℕ) (script : Script)
    → first (wanted_script db user script_id true) db.scripts ≡ some script
    → IsUsable db user script_id script
usable db user script_id script h =
    let (wanted, stored) = first-some (wanted_script db user script_id true) db.scripts h in
    record {
      stored = stored;
      named = ground arith;
      active = ground arith;
      kept = ground arith;
      open_to = elim (Bool-cases (is_admin user.role)) [
        | inl e ↦ inl e
        | inr e ↦ inr (shared db user script (ground arith))
      ];
    }

module _ (V : Values) (json : Json V) where
  -- The script has no definitions, or its definitions have no complaint of the parameters.
  abbrev pub AreAccepted : Option String → List (String × Value V) → Type 0
  AreAccepted config params =
      (config ≡ none)
      ⊎ ((config ≡ some "")
          ⊎ ((c : String) × (ds : List (Definition V)) × (config ≡ some c)
              × (json.load_params c ≡ some ds)
              × (validate_params V false (λ _. false) (λ _. false) ds params ≡ [])))

  -- The columns of a run that is new: it waits, nobody has claimed it, and it is what was ordered.
  pub record IsOrdered (script : Script) (user : User) (o : Order V json) (now id : ℕ) (r : Run)
      : Type 0 where
    pub its_id : r.id ≡ id
    pub its_script : r.script_id ≡ script.id
    pub its_version : r.script_version ≡ script.latest_version
    pub its_user : r.user_id ≡ user.id
    pub waits : r.status ≡ pending
    pub unclaimed : (r.agent_id ≡ none) × (r.claimed_at ≡ none)
    pub unstarted : (r.started_at ≡ none) × (r.finished_at ≡ none)
    pub its_params : r.params ≡ some (json.dump_values o.params)
    pub its_environment : r.environment_id ≡ o.environment_id
    pub its_target : r.target_agent_id ≡ o.target_agent_id
    pub its_asker : r.requested_by ≡ o.requested_by
    pub its_dispatch : r.dispatch_type ≡ o.dispatch_type
    pub its_schedule : r.schedule_id ≡ o.schedule_id
    pub its_time : r.scheduled_for ≡ o.scheduled_for
    pub its_expiry : r.expires_at ≡ o.expires_at
    pub kept : r.is_deleted ≡ false

  -- What a request that is accepted has shown, and the one row that it adds to the table.
  pub record Created (user : User) (o : Order V json) (now : ℕ) (before after : Db) (r : Run)
      : Type 0 where
    pub script : Script
    pub usable_script : IsUsable before user o.script_id script
    pub own_environment : IsOwn before user o.environment_id
    pub accepted : AreAccepted script.config_json o.params
    pub ordered : IsOrdered script user o now before.next_run_id r
    pub added : after.runs ≡ before.runs ++ r ∷ []
    pub counted : after.next_run_id ≡ before.next_run_id + 1

  check_environment-IsOwn :
      (asked : Option ℕ) (user : User) (db : Db)
      → check_environment V json asked user db ≡ ok tt
      → IsOwn db user asked
  unfolding check_environment
  check_environment-IsOwn none user db h = inl refl
  check_environment-IsOwn (some e) user db h =
      elim (Option-cases
        (first (λ (x : Environment). x.id == e && x.user_id == user.id) db.environments)) [
          | inl f ↦
              let bad : ◌≡◌ {A = Reply (Unit {0})} (http 404 "执行环境不存在") (ok tt) = rw f at h in cc
          | inr (x, f) ↦
              let (own, stored) =
                first-some (λ (x : Environment). x.id == e && x.user_id == user.id) db.environments
                  f in
              let same : x.id ≡ e = ground arith in inr (x, stored, rw same refl, ground arith)
        ]

  no_complaint : (ms : List String) → no_errors V json ms ≡ ok tt → ms ≡ []
  no_complaint [] h = refl
  no_complaint (m ∷ ms) h = cc

  loaded :
      (c : String) (o : Option (List (Definition V))) (params : List (String × Value V))
      → json.load_params c ≡ o
      → check_definitions V json o params ≡ ok tt
      → AreAccepted (some c) params
  unfolding check_definitions
  loaded c none params e h = cc
  loaded c (some ds) params e h = inr (inr (c, ds, refl, e, no_complaint _ h))

  accepted_params :
      (config : Option String) (params : List (String × Value V))
      → check_config V json config params ≡ ok tt
      → AreAccepted config params
  unfolding check_config
  accepted_params none params h = inl refl
  accepted_params (some c) params h = elim (Bool-cases (str_eq c "")) [
    | inl e ↦ let same = (str_eq_iff c "").0 e in inr (inl (rw same refl))
    | inr e ↦ loaded c (json.load_params c) params refl (rw e at h)
  ]

  as_ordered :
      (script : Script) (user : User) (o : Order V json) (now id : ℕ)
      → IsOrdered script user o now id (new_run V json script user o now id)
  unfolding new_run
  as_ordered script user o now id = record {
    its_id = refl;
    its_script = refl;
    its_version = refl;
    its_user = refl;
    waits = refl;
    unclaimed = (refl, refl);
    unstarted = (refl, refl);
    its_params = refl;
    its_environment = refl;
    its_target = refl;
    its_asker = refl;
    its_dispatch = refl;
    its_schedule = refl;
    its_time = refl;
    its_expiry = refl;
    kept = refl;
  }

  pub Inserted-Created :
      (user : User) (o : Order V json) (now : ℕ) (before after : Db) (r : Run)
      → Inserted V json user o now before after r
      → Created user o now before after r
  Inserted-Created user o now before after r c =
      subst (λ (x : Run). Created user o now before after x) (sym c.made)
        (subst
          (λ (d : Db).
            Created user o now before d (new_run V json c.script user o now before.next_run_id))
          (sym c.inserted)
          (record {
            script = c.script;
            usable_script = usable before user o.script_id c.script c.valid.found;
            own_environment =
                check_environment-IsOwn o.environment_id user before c.valid.environment;
            accepted = accepted_params c.script.config_json o.params c.valid.parameters;
            ordered = as_ordered c.script user o now before.next_run_id;
            added = refl;
            counted = omega arith;
          }))

  -- Where create_validated_run succeeds, the script that is asked for is in the table, active, not deleted, and open
  -- to the user, who is an admin or shares an active group with it; no environment was asked for, or one of the user's is in
  -- the table; and the script has no definitions, or these are read and validate_params has no complaint. One row is
  -- added at the end of the runs, with the counter's id, which is then used up: it is pending, unclaimed and not started,
  -- of that user and of that script in its latest version, with all that the order says of it.
  pub create_validated_run-ok :
      (user : User) (o : Order V json) (now : ℕ) (db : Db) (r : Run)
      → (create_validated_run V json user o now db).0 ≡ ok r
      → Created user o now db (create_validated_run V json user o now db).1 r
  create_validated_run-ok user o now db r h =
      Inserted-Created user o now db _ r (create_validated_run-Inserted V json user o now db r h)
