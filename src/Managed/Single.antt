-- ===== src/Managed/Single.antt =====
-- backend/app/routers/managed.py: the runs of a schedule that are live at the same time.
use auto_script_hub.Prelude.{
  ℕ, String, true, none, some, ◌≡◌, ◌∙◌, ◌≤◌, ◌+◌, refl, sym, ap, arith, Reply, ok, http, expect,
  >>=-eq-ok, require-eq-ok, ok-inj, first, count_where, count-insert, count-first-some, is_none,
  inl, inr, subst, ==_refl,
}
use auto_script_hub.Store.{IsSound, Db, User, Run, Script, Schedule, is_admin}
use auto_script_hub.Store.Evolution.{Follows, Follows-refl, Follows-insert}
use auto_script_hub.Store.Writes.{add_run, IsSound-add_run}
use auto_script_hub.Contract.Params.{Values}
use auto_script_hub.Dispatch.{Json, Order, new_run, create_validated_run}
use auto_script_hub.Dispatch.Laws.{
  create_validated_run-Inserted, create_validated_run-cases, create_validated_run-Follows,
}
use auto_script_hub.Scheduler.Scan.{is_live_of}
use auto_script_hub.Scheduler.Scan.Single.{IsOrderly, insert-IsSingle}
use auto_script_hub.Managed.{
  noted, marked, mark_retry, Retry, retry_checks, retry_order, retried, retry_managed_run,
  managed_agent_or_404, owner_or_409, params_or_empty,
}
use auto_script_hub.Managed.Schedules.{schedule_or_404, is_schedule_at}
use auto_script_hub.Managed.RunNow.{
  stamped_run, Planned, run_now_checks, planned_order, launched_now, run_managed_schedule_now,
}
use auto_script_hub.Managed.Laws.{noted-Follows, noted-runs, noted-reply, marked-live, none_of}

stamped_run-runs :
    (id : ℕ) (actor : User) (now : ℕ) (x : Reply Run × Db)
    → (stamped_run id actor now x).1.runs ≡ x.1.runs
unfolding stamped_run
stamped_run-runs id actor now (http c d, db) = refl
stamped_run-runs id actor now (ok r, db) = refl

stamped_run-reply :
    (id : ℕ) (actor : User) (now : ℕ) (x : Reply Run × Db) → (stamped_run id actor now x).0 ≡ x.0
unfolding stamped_run
stamped_run-reply id actor now (http c d, db) = refl
stamped_run-reply id actor now (ok r, db) = refl

marked-ok :
    (id : ℕ) (x : Reply Run × Db) (r : Run)
    → (marked id x).0 ≡ ok r
    → (q : Run) × (x.0 ≡ ok q) × (r ≡ mark_retry id q)
unfolding marked
marked-ok id (http c d, db) r h = cc
marked-ok id (ok q, db) r h = (q, refl, cc)

-- Runs, keys and all that `IsOrderly` reads are as in `db`.
same_runs-IsOrderly :
    (db db' : Db)
    → db'.runs ≡ db.runs
    → db'.next_run_id ≡ db.next_run_id
    → IsOrderly db
    → IsOrderly db'
same_runs-IsOrderly db db' e n o = record {
  sound = record { keyed = rw e o.sound.keyed; below = rw (e, n) o.sound.below };
  single = rw e o.single;
}

noted-next :
    (actor : User) (action : String) (now : ℕ) (x : Reply Run × Db)
    → (noted actor action now x).1.next_run_id ≡ x.1.next_run_id
unfolding noted
noted-next actor action now (http c d, db) = refl
noted-next actor action now (ok r, db) = refl

stamped_run-next :
    (id : ℕ) (actor : User) (now : ℕ) (x : Reply Run × Db)
    → (stamped_run id actor now x).1.next_run_id ≡ x.1.next_run_id
unfolding stamped_run
stamped_run-next id actor now (http c d, db) = refl
stamped_run-next id actor now (ok r, db) = refl

module _ (V : Values) (json : Json V) where
  new_live :
      (user : User) (o : Order V json) (now k id : ℕ) (script : Script)
      → o.schedule_id ≡ some k
      → is_live_of k (new_run V json script user o now id) ≡ true
  unfolding new_run
  new_live user o now k id script e = ground (arith, ==_refl k)

  new_schedule_id :
      (user : User) (o : Order V json) (now : ℕ) (db : Db) (q : Run)
      → (create_validated_run V json user o now db).0 ≡ ok q
      → q.schedule_id ≡ o.schedule_id
  unfolding new_run
  new_schedule_id user o now db q done =
      ap (λ (t : Run). t.schedule_id)
        (create_validated_run-Inserted V json user o now db q done).made

  -- A run that is created for a schedule is live.
  live_after :
      (user : User) (o : Order V json) (now k : ℕ) (db : Db) (r : Run)
      → (create_validated_run V json user o now db).0 ≡ ok r
      → o.schedule_id ≡ some k
      → count_where (is_live_of k) (create_validated_run V json user o now db).1.runs
        ≡ count_where (is_live_of k) db.runs + 1
  live_after user o now k db r h e =
      let c = create_validated_run-Inserted V json user o now db r h in
      let made = new_run V json c.script user o now db.next_run_id in
      rw (
        c.inserted,
        count-insert (is_live_of k) db.runs made,
        new_live user o now k db.next_run_id c.script e,
      )

  retried-live :
      (actor : User) (now k : ℕ) (db : Db) (c : Reply (Retry V json)) (r : Run)
      → (retried V json actor now db c).0 ≡ ok r
      → r.schedule_id ≡ some k
      → count_where (is_live_of k) (retried V json actor now db c).1.runs
        ≡ count_where (is_live_of k) db.runs + 1
  unfolding retried
  retried-live actor now k db (http s d) r h e = cc
  retried-live actor now k db (ok x) r h e =
      let made = create_validated_run V json x.owner (retry_order V json x actor now) now db in
      let (q, done, same) =
        marked-ok x.original.id made r
          (sym (noted-reply actor "managed_run.retry" now (marked x.original.id made)) ∙ h) in
      let of_schedule : q.schedule_id ≡ some k = cc in
      ap (λ rs. count_where (is_live_of k) rs)
        (noted-runs actor "managed_run.retry" now (marked x.original.id made))
      ∙ marked-live x.original.id k made
      ∙ live_after x.owner (retry_order V json x actor now) now k db q done (
          sym (new_schedule_id x.owner (retry_order V json x actor now) now db q done)
          ∙ of_schedule)

  -- A retry does not ask whether the schedule of the run that it repeats has a live run: where there is one,
  -- there are two after a retry that succeeds.
  pub retry_doubles :
      (run_id : ℕ) (actor : User) (now k : ℕ) (seen db : Db) (r live : Run)
      → (retry_managed_run V json run_id actor now seen db).0 ≡ ok r
      → r.schedule_id ≡ some k
      → first (is_live_of k) db.runs ≡ some live
      → 2 ≤ count_where (is_live_of k) (retry_managed_run V json run_id actor now seen db).1.runs
  unfolding retry_managed_run
  retry_doubles run_id actor now k seen db r live h e l =
      let more = retried-live actor now k db (retry_checks V json seen run_id actor) r h e in
      let one = count-first-some (is_live_of k) db.runs l in rw more (omega arith)

  -- What the checks of a run at once have shown.
  run_now_checks-free :
      (db : Db) (id : ℕ) (actor : User) (x : Planned V json)
      → run_now_checks V json db id actor ≡ ok x
      → first (is_live_of x.schedule.id) db.runs ≡ none
  unfolding run_now_checks schedule_or_404
  run_now_checks-free db id actor x h =
      let (isadmin, h1) = require-eq-ok (is_admin actor.role) 403 _ _ h in
      let (s, e1, h2) = >>=-eq-ok (expect (first (is_schedule_at id) db.schedules) 404 _) _ h1 in
      let (free, h3) = require-eq-ok (is_none (first (is_live_of s.id) db.runs)) 409 _ _ h2 in
      let (a, e2, h4) = >>=-eq-ok (managed_agent_or_404 db s.agent_id true) _ h3 in
      let (u, e3, h5) = >>=-eq-ok (owner_or_409 db a) _ h4 in
      let (ps, e4, h6) =
        >>=-eq-ok (expect (json.load_values (params_or_empty s.params)) 500 "") _ h5 in
      let same = ap (λ (t : Planned V json). t.schedule) (ok-inj h6) in
      subst (λ (t : Schedule). first (is_live_of t.id) db.runs ≡ none) same
        (none_of (first (is_live_of s.id) db.runs) free)

  inserted-IsOrderly :
      (script : Script) (user : User) (o : Order V json) (now k : ℕ) (db : Db)
      → o.schedule_id ≡ some k
      → first (is_live_of k) db.runs ≡ none
      → IsOrderly db
      → IsOrderly (add_run (new_run V json script user o now) db)
  unfolding new_run
  inserted-IsOrderly script user o now k db e n g = record {
    sound = IsSound-add_run (new_run V json script user o now) db (λ m. refl) g.sound;
    single =
        insert-IsSingle db.runs (new_run V json script user o now db.next_run_id) k g.single e n;
  }

  created-IsOrderly :
      (user : User) (o : Order V json) (now k : ℕ) (db : Db)
      → o.schedule_id ≡ some k
      → first (is_live_of k) db.runs ≡ none
      → IsOrderly db
      → IsOrderly (create_validated_run V json user o now db).1
        × Follows db.runs (create_validated_run V json user o now db).1.runs
  created-IsOrderly user o now k db e n g = elim (create_validated_run-cases V json user o now db) [
    | inl (c, d, same) ↦ rw same (g, Follows-refl db.runs)
    | inr (script, same) ↦ rw same (
      inserted-IsOrderly script user o now k db e n g,
      Follows-insert db.runs (new_run V json script user o now db.next_run_id),
    )
  ]

  launched_now-IsOrderly :
      (actor : User) (now : ℕ) (db : Db) (c : Reply (Planned V json))
      → ((x : Planned V json) → c ≡ ok x → first (is_live_of x.schedule.id) db.runs ≡ none)
      → IsOrderly db
      → IsOrderly (launched_now V json actor now db c).1
        × Follows db.runs (launched_now V json actor now db c).1.runs
  unfolding launched_now
  launched_now-IsOrderly actor now db (http s d) free g = (g, Follows-refl db.runs)
  launched_now-IsOrderly actor now db (ok x) free g =
      let made = create_validated_run V json x.owner (planned_order V json x actor now) now db in
      let done = stamped_run x.schedule.id actor now made in
      let (o, f) =
        created-IsOrderly x.owner (planned_order V json x actor now) now x.schedule.id db refl
          (free x refl) g in
      let same : (noted actor "managed_schedule.run_now" now done).1.runs ≡ made.1.runs =
        noted-runs actor "managed_schedule.run_now" now done
        ∙ stamped_run-runs x.schedule.id actor now made in
      (
        same_runs-IsOrderly made.1 _ same
            (noted-next actor "managed_schedule.run_now" now done
              ∙ stamped_run-next x.schedule.id actor now made)
            o,
        rw same f,
      )

  -- Where each schedule had one live run at most and the key of the table held, and nothing is
  -- committed between its reads and the creation of the run, a run at once keeps both, and moves
  -- runs only along the diagram of statuses.
  pub run_now-IsOrderly :
      (id : ℕ) (actor : User) (now : ℕ) (db : Db)
      → IsOrderly db
      → IsOrderly (run_managed_schedule_now V json id actor now db db).1
        × Follows db.runs (run_managed_schedule_now V json id actor now db db).1.runs
  unfolding run_managed_schedule_now
  run_now-IsOrderly id actor now db g =
      launched_now-IsOrderly actor now db (run_now_checks V json db id actor)
        (run_now_checks-free db id actor) g

  launched_now-live :
      (actor : User) (now : ℕ) (db : Db) (c : Reply (Planned V json)) (r : Run)
      → (launched_now V json actor now db c).0 ≡ ok r
      → (x : Planned V json) × (c ≡ ok x)
        × (count_where (is_live_of x.schedule.id) (launched_now V json actor now db c).1.runs
            ≡ count_where (is_live_of x.schedule.id) db.runs + 1)
  unfolding launched_now
  launched_now-live actor now db (http s d) r h = cc
  launched_now-live actor now db (ok x) r h =
      let k = x.schedule.id in
      let made = create_validated_run V json x.owner (planned_order V json x actor now) now db in
      let done = stamped_run k actor now made in
      let was : made.0 ≡ ok r =
        sym (
          noted-reply actor "managed_schedule.run_now" now done
          ∙ stamped_run-reply k actor now made)
        ∙ h in
      (
        x,
        refl,
        ap (λ rs. count_where (is_live_of k) rs)
              (noted-runs actor "managed_schedule.run_now" now done
                ∙ stamped_run-runs k actor now made)
            ∙ live_after x.owner (planned_order V json x actor now) now k db r was refl,
      )

  -- The look for a live run comes before the write lock: where another request has committed a live run of the
  -- schedule in between, a run at once that succeeds leaves two.
  pub run_now_race :
      (id : ℕ) (actor : User) (now : ℕ) (seen db : Db) (x : Planned V json) (r live : Run)
      → run_now_checks V json seen id actor ≡ ok x
      → (run_managed_schedule_now V json id actor now seen db).0 ≡ ok r
      → first (is_live_of x.schedule.id) db.runs ≡ some live
      → 2
        ≤ count_where
            (is_live_of x.schedule.id)
            (run_managed_schedule_now V json id actor now seen db).1.runs
  unfolding run_managed_schedule_now
  run_now_race id actor now seen db x r live e h l =
      let (y, ey, more) =
        launched_now-live actor now db (run_now_checks V json seen id actor) r h in
      let same : y ≡ x = cc in
      let counted =
        subst
          (λ (z : Planned V json).
            count_where (is_live_of z.schedule.id)
              (launched_now V json actor now db (run_now_checks V json seen id actor)).1.runs
            ≡ count_where (is_live_of z.schedule.id) db.runs + 1)
          same more in
      let one = count-first-some (is_live_of x.schedule.id) db.runs l in rw counted (omega arith)

  -- What a run at once does to the table, whatever was read first.
  launched_now-Follows :
      (actor : User) (now : ℕ) (db : Db) (c : Reply (Planned V json))
      → IsSound db
      → Follows db.runs (launched_now V json actor now db c).1.runs
        × IsSound (launched_now V json actor now db c).1
  unfolding launched_now
  launched_now-Follows actor now db (http s d) g = (Follows-refl db.runs, g)
  launched_now-Follows actor now db (ok x) g =
      let made = create_validated_run V json x.owner (planned_order V json x actor now) now db in
      let done = stamped_run x.schedule.id actor now made in
      let (f, k) =
        create_validated_run-Follows V json x.owner (planned_order V json x actor now) now db g in
      let runs = stamped_run-runs x.schedule.id actor now made in
      let count = stamped_run-next x.schedule.id actor now made in
      noted-Follows V json actor "managed_schedule.run_now" now db done
        (rw runs f, record { keyed = rw runs k.keyed; below = rw (runs, count) k.below })

  pub run_managed_schedule_now-Follows :
      (id : ℕ) (actor : User) (now : ℕ) (seen db : Db)
      → IsSound db
      → Follows db.runs (run_managed_schedule_now V json id actor now seen db).1.runs
        × IsSound (run_managed_schedule_now V json id actor now seen db).1
  unfolding run_managed_schedule_now
  run_managed_schedule_now-Follows id actor now seen db g =
      launched_now-Follows actor now db (run_now_checks V json seen id actor) g
