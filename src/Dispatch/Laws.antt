-- ===== src/Dispatch/Laws.antt =====
-- backend/app/services/run_dispatch.py and backend/app/routers/runs.py, execute_script: what a run
-- needs to be created, and what its creation leaves of the others.
use auto_script_hub.Prelude.{
  ℕ, String, true, Option, none, some, List, ◌==◌, ◌+◌, ◌≡◌, ◌⊎◌, refl, sym, ◌∙◌, arith, first,
  first-some, first-own, Reply, ok, http, >>=-eq-ok, expect, expect-eq-ok, Bool-cases, inl, inr,
  some-inj, subst, ltb, first-update_where, ◌&&◌, ◌*◌, if◌then◌else◌,
}
use auto_script_hub.Store.{
  second, Db, Run, User, Script, IsSound, run_key, run_at, is_pending, is_live, live-cancelled,
}
use auto_script_hub.Store.Evolution.{
  Keeps, Keeps-refl, Follows, Follows-refl, Follows-trans, Follows-insert,
}
use auto_script_hub.Store.Writes.{
  add_run, write_runs, IsSound-write_runs, IsSound-add_run, run_at-untouched,
}
use auto_script_hub.Access.{get_accessible_script_or_404, wanted_script}
use auto_script_hub.Contract.Params.{Values, Value}
use auto_script_hub.Dispatch.{
  Json, Order, new_run, check_environment, check_config, validate_run_request, created,
  create_validated_run, ExecuteRequest, own_active, cancel_stale, clear_stale, own_order, audited,
  launched, started, execute_script,
}

module _ (V : Values) (json : Json V) where
  -- What a request that is accepted has shown: the script is active and open to the user, and the
  -- environment and the parameters are in order.
  pub record IsValid (db : Db) (user : User) (script_id : ℕ) (params : List (String × Value V))
      (environment_id : Option ℕ) (script : Script) : Type 0 where
    pub found : first (wanted_script db user script_id true) db.scripts ≡ some script
    pub environment : check_environment V json environment_id user db ≡ ok tt
    pub parameters : check_config V json script.config_json params ≡ ok tt

  validate-ok :
      (db : Db) (user : User) (script_id : ℕ) (params : List (String × Value V))
      (environment_id : Option ℕ) (script : Script)
      → validate_run_request V json db user script_id params environment_id ≡ ok script
      → IsValid db user script_id params environment_id script
  unfolding validate_run_request get_accessible_script_or_404
  validate-ok db user script_id params environment_id script h =
      let (a, found, rest) =
        >>=-eq-ok (expect (first (wanted_script db user script_id true) db.scripts) 404 _) _ h in
      let (u, environment, more) =
        >>=-eq-ok (check_environment V json environment_id user db) _ rest in
      let (v, parameters, last) = >>=-eq-ok (check_config V json a.config_json params) _ more in
      let same : a ≡ script = cc in
      subst (IsValid db user script_id params environment_id) same (record {
        found = expect-eq-ok (first (wanted_script db user script_id true) db.scripts) 404 _ found;
        environment = environment;
        parameters = parameters;
      })

  -- What create_validated_run leaves behind where it succeeds, in its own words.
  pub record Inserted (user : User) (o : Order V json) (now : ℕ) (before after : Db) (r : Run)
      : Type 0 where
    pub script : Script
    pub valid : IsValid before user o.script_id o.params o.environment_id script
    pub made : r ≡ new_run V json script user o now before.next_run_id
    pub inserted : after ≡ add_run (new_run V json script user o now) before

  created-ok :
      (user : User) (o : Order V json) (now : ℕ) (db : Db) (v : Reply Script) (r : Run)
      → validate_run_request V json db user o.script_id o.params o.environment_id ≡ v
      → (created V json user o now db v).0 ≡ ok r
      → Inserted user o now db (created V json user o now db v).1 r
  unfolding created
  created-ok user o now db (http c d) r e h = cc
  created-ok user o now db (ok script) r e h = record {
    script = script;
    valid = validate-ok db user o.script_id o.params o.environment_id script e;
    made = cc;
    inserted = refl;
  }

  pub create_validated_run-Inserted :
      (user : User) (o : Order V json) (now : ℕ) (db : Db) (r : Run)
      → (create_validated_run V json user o now db).0 ≡ ok r
      → Inserted user o now db (create_validated_run V json user o now db).1 r
  unfolding create_validated_run
  create_validated_run-Inserted user o now db r h = created-ok user o now db _ r refl h

  created-Follows :
      (user : User) (o : Order V json) (now : ℕ) (db : Db) (v : Reply Script)
      → Follows db.runs (created V json user o now db v).1.runs
  unfolding created
  created-Follows user o now db (http c d) = Follows-refl db.runs
  created-Follows user o now db (ok script) =
      Follows-insert db.runs (new_run V json script user o now db.next_run_id)

  created-IsSound :
      (user : User) (o : Order V json) (now : ℕ) (db : Db) (v : Reply Script)
      → IsSound db
      → IsSound (created V json user o now db v).1
  unfolding created new_run
  created-IsSound user o now db (http c d) s = s
  created-IsSound user o now db (ok script) s =
      IsSound-add_run (new_run V json script user o now) db (λ n. refl) s

  -- Either the request is refused and nothing is written, or the run is inserted.
  created-cases :
      (user : User) (o : Order V json) (now : ℕ) (db : Db) (v : Reply Script)
      → ((c : ℕ) × (d : String) × (created V json user o now db v ≡ (http c d, db)))
        ⊎ ((script : Script) × (created V json user o now db v ≡ (
          ok (new_run V json script user o now db.next_run_id),
          add_run (new_run V json script user o now) db,
        )))
  unfolding created
  created-cases user o now db (http c d) = inl (c, d, refl)
  created-cases user o now db (ok script) = inr (script, refl)

  pub create_validated_run-cases :
      (user : User) (o : Order V json) (now : ℕ) (db : Db)
      → ((c : ℕ) × (d : String) × (create_validated_run V json user o now db ≡ (http c d, db)))
        ⊎ ((script : Script) × (create_validated_run V json user o now db ≡ (
          ok (new_run V json script user o now db.next_run_id),
          add_run (new_run V json script user o now) db,
        )))
  unfolding create_validated_run
  create_validated_run-cases user o now db = created-cases user o now db _

  Keeps-cancel_stale :
      (now : ℕ) (r : Run) → is_live r.status ≡ true → Keeps r (cancel_stale V json now r)
  Keeps-cancel_stale now r h = record {
    same_id = refl;
    same_script = refl;
    same_user = refl;
    same_target = refl;
    same_expiry = refl;
    moved = live-cancelled r.status h;
    claimed_once = λ c. refl;
  }

  cancel_row-Follows :
      (now : ℕ) (active : Run) (db : Db)
      → IsSound db
      → run_at active.id db.runs ≡ some active
      → is_live active.status ≡ true
      → Follows db.runs (write_runs (run_key active.id) (cancel_stale V json now) db).runs
  cancel_row-Follows now active db s own live = record {
    at = λ i r e.
        let k = first-some (run_key i) db.runs e in
        elim (Bool-cases (r.id == active.id)) [
          | inl h ↦
              let named : active.id ≡ i = ground arith in
              let there : run_at i db.runs ≡ some active =
                subst (λ n. run_at n db.runs ≡ some active) named own in
              let same : active ≡ r = some-inj (sym there ∙ e) in
              (
                cancel_stale V json now r,
                first-update_where (run_key i) (run_key active.id) (cancel_stale V json now) db.runs
                      (λ x. refl)
                    ∙ rw (e, h),
                Keeps-cancel_stale now r (subst (λ (x : Run). is_live x.status ≡ true) same live),
              )
          | inr h ↦ (
            r,
            run_at-untouched i (run_key active.id) (cancel_stale V json now) db.runs (λ x. refl) e
                h,
            Keeps-refl r,
          )
        ];
  }

  clear_stale-Follows :
      (now : ℕ) (user_id : ℕ) (o : Option Run) (db db' : Db)
      → first (own_active V json user_id) db.runs ≡ o
      → IsSound db
      → clear_stale V json now o db ≡ ok db'
      → Follows db.runs db'.runs × IsSound db'
  unfolding clear_stale
  clear_stale-Follows now user_id none db db' e s h =
      let same : db ≡ db' = cc in
      subst (λ (d : Db). Follows db.runs d.runs × IsSound d) same (Follows-refl db.runs, s)
  clear_stale-Follows now user_id (some active) db db' e s h =
      let k = first-some (own_active V json user_id) db.runs e in
      let own = first-own (λ (r : Run). r.id) db.runs active s.keyed k.1 in
      let live : is_live active.status ≡ true = ground arith in
      let same : write_runs (run_key active.id) (cancel_stale V json now) db ≡ db' = cleared h in
      subst (λ (d : Db). Follows db.runs d.runs × IsSound d) same
        (
          cancel_row-Follows now active db s own live,
          IsSound-write_runs (run_key active.id) (cancel_stale V json now) db (λ r. refl) s,
        )
    where
      cleared :
          (if is_pending active.status && ltb (active.created_at + 300 * second) now
              then ok (write_runs (run_key active.id) (cancel_stale V json now) db)
              else http 409 "当前有任务正在执行,请等待完成")
            ≡ ok db'
          → write_runs (run_key active.id) (cancel_stale V json now) db ≡ db'
      cleared h =
          elim (Bool-cases
            (is_pending active.status && ltb (active.created_at + 300 * second) now)) [
              | inl t ↦
                  let q : ok (write_runs (run_key active.id) (cancel_stale V json now) db)
                      ≡ ok db' =
                    rw t at h in
                  cc
              | inr t ↦
                  let q : ◌≡◌ {A = Reply Db} (http 409 "当前有任务正在执行,请等待完成") (ok db') = rw t at h in cc
            ]

  pub audited-fst :
      (q : ExecuteRequest V json) (r : Reply Run × Db) → (audited V json q r).1.runs ≡ r.1.runs
  unfolding audited
  audited-fst q (ok r, db) = refl
  audited-fst q (http c d, db) = refl

  audited-IsSound :
      (q : ExecuteRequest V json) (r : Reply Run × Db)
      → IsSound r.1
      → IsSound (audited V json q r).1
  unfolding audited
  audited-IsSound q (ok r, db) s = record { keyed = s.keyed; below = s.below }
  audited-IsSound q (http c d, db) s = s

  pub create_validated_run-Follows :
      (user : User) (o : Order V json) (now : ℕ) (db : Db)
      → IsSound db
      → Follows db.runs (create_validated_run V json user o now db).1.runs
        × IsSound (create_validated_run V json user o now db).1
  unfolding create_validated_run
  create_validated_run-Follows user o now db s =
      let v = validate_run_request V json db user o.script_id o.params o.environment_id in
      (created-Follows user o now db v, created-IsSound user o now db v s)

  launched-Follows :
      (q : ExecuteRequest V json) (db : Db) (r : Reply Db)
      → clear_stale V json q.now (first (own_active V json q.user.id) db.runs) db ≡ r
      → IsSound db
      → Follows db.runs (launched V json q db r).1.runs × IsSound (launched V json q db r).1
  unfolding launched
  launched-Follows q db (http c d) e s = (Follows-refl db.runs, s)
  launched-Follows q db (ok db') e s =
      let (f, t) = clear_stale-Follows q.now q.user.id _ db db' refl s e in
      let (g, u) = create_validated_run-Follows q.user (own_order V json q) q.now db' t in
      let made = create_validated_run V json q.user (own_order V json q) q.now db' in
      (rw (audited-fst q made) (Follows-trans f g), audited-IsSound q made u)

  started-Follows :
      (q : ExecuteRequest V json) (db : Db) (r : Reply Script)
      → IsSound db
      → Follows db.runs (started V json q db db r).1.runs × IsSound (started V json q db db r).1
  unfolding started
  started-Follows q db (http c d) s = (Follows-refl db.runs, s)
  started-Follows q db (ok script) s =
      launched-Follows q db
        (clear_stale V json q.now (first (own_active V json q.user.id) db.runs) db) refl s

  -- Where nothing is committed between its reads and its writes, execute_script moves runs only along the
  -- diagram and keeps the key of the table.
  pub Follows-execute_script :
      (q : ExecuteRequest V json) (db : Db)
      → IsSound db
      → Follows db.runs (execute_script V json q db db).1.runs
        × IsSound (execute_script V json q db db).1
  unfolding execute_script
  Follows-execute_script q db s =
      started-Follows q db (get_accessible_script_or_404 db q.user q.script_id true) s
