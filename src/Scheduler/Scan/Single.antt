-- ===== src/Scheduler/Scan/Single.antt =====
-- backend/app/scheduler.py, _managed_schedule_scan: what the scan keeps of the table of runs.
use auto_script_hub.Prelude.{
  ℕ, String, Bool, true, false, Option, none, some, List, [], ◌∷◌, ◌++◌, ◌==◌, ◌+◌, ◌≤◌, ◌≡◌, refl,
  arith, first, count_where, touch, Reply, ok, http, Bool-cases, Option-cases, inl, inr, some-inj,
  subst, if◌then◌else◌, ==_iff, count-insert, count-first-none, count-update_where,
}
use auto_script_hub.Store.{Db, Agent, User, Run, Script, Schedule, IsSound, pending-expired}
use auto_script_hub.Store.Evolution.{
  Keeps, Follows, Follows-refl, Follows-trans, Follows-update_where, Follows-insert,
}
use auto_script_hub.Store.Writes.{add_run, IsSound-write_runs, IsSound-add_run}
use auto_script_hub.Contract.Params.{Values, Value}
use auto_script_hub.Dispatch.{Json, Order, new_run}
use auto_script_hub.Scheduler.Cursor.{CronNext, next_schedule_run}
use auto_script_hub.Scheduler.Scan.{
  Session, opened, expire_all, written, set_schedule, schedule_key, miss, set_cursor, set_last_run,
  is_overdue, expire_overdue, is_live_of, expire_runs, Gate, late, busy, no_agent, no_owner,
  unreadable, clear, gate, order_of, materialize, pass, moved, visited, visit, visit_all,
  managed_schedule_scan, flush_run, due_ids,
}

-- A schedule has one live run at most.
pub record IsSingle (rs : List Run) : Type 0 where
  pub at : (schedule_id : ℕ) → count_where (is_live_of schedule_id) rs ≤ 1

-- What holds of the table of runs of a database.
pub record IsOrderly (db : Db) : Type 0 where
  pub sound : IsSound db
  pub single : IsSingle db.runs

-- What holds of a database that a scan has made of `start`.
record IsKept (start db : Db) : Type 0 where
  sound : IsSound db
  single : IsSingle start.runs → IsSingle db.runs

-- What holds of the session throughout a scan that began with `start`.
record IsGood (start : Db) (s : Session) : Type 0 where
  flushed_kept : IsKept start s.flushed
  live_kept : IsKept start s.live
  from_start : Follows start.runs s.flushed.runs
  from_flushed : Follows s.flushed.runs s.live.runs

Keeps-expire_overdue :
    (now : ℕ) (r : Run) → is_overdue now r ≡ true → Keeps r (expire_overdue now r)
Keeps-expire_overdue now r h = record {
  same_id = refl;
  same_script = refl;
  same_user = refl;
  same_target = refl;
  same_expiry = refl;
  moved = pending-expired r.status (ground arith);
  claimed_once = λ c. refl;
}

not_revived :
    (now k : ℕ) (r : Run)
    → is_live_of k (touch (is_overdue now) (expire_overdue now) r) ≡ true
    → is_live_of k r ≡ true
not_revived now k r h = ground arith

expire_runs-IsGood : (now : ℕ) (db : Db) → IsSound db → IsGood db (expire_runs now db)
unfolding expire_runs
expire_runs-IsGood now db sound =
    let w = IsSound-write_runs (is_overdue now) (expire_overdue now) db (λ r. refl) sound in
    record {
      flushed_kept = record { sound = sound; single = λ o. o };
      live_kept = record {
        sound = record { keyed = w.keyed; below = w.below };
        single = λ o. record {
          at = λ k.
              let c =
                count-update_where (is_live_of k) (is_overdue now) (expire_overdue now) db.runs
                  (not_revived now k) in
              let b = o.at k in omega arith;
        };
      };
      from_start = Follows-refl db.runs;
      from_flushed =
          Follows-update_where (is_overdue now) (expire_overdue now) db.runs (λ r. refl)
            (Keeps-expire_overdue now);
    }

-- What is set on a schedule, and what is recorded, is not seen by the table of runs.
set_schedule-IsGood :
    (start : Db) (s : Session) (i : ℕ) (f : Schedule → Schedule)
    → IsGood start s
    → IsGood start (set_schedule i f s)
set_schedule-IsGood start s i f g = record {
  flushed_kept = g.flushed_kept;
  live_kept = record {
    sound = record { keyed = g.live_kept.sound.keyed; below = g.live_kept.sound.below };
    single = g.live_kept.single;
  };
  from_start = g.from_start;
  from_flushed = g.from_flushed;
}

miss-IsGood :
    (start : Db) (s : Session) (now : ℕ) (x : Schedule) (reason : String)
    → IsGood start s
    → IsGood start (miss now x reason s)
miss-IsGood start s now x reason g =
    let h = set_schedule-IsGood start s x.id _ g in
    record {
      flushed_kept = h.flushed_kept;
      live_kept = h.live_kept;
      from_start = h.from_start;
      from_flushed = h.from_flushed;
    }

opened-IsGood :
    (start db : Db) → IsKept start db → Follows start.runs db.runs → IsGood start (opened db)
opened-IsGood start db o f = record {
  flushed_kept = o;
  live_kept = o;
  from_start = f;
  from_flushed = Follows-refl db.runs;
}

one_more : (n : ℕ) (b : Bool) → n ≡ 0 → n + (if b then 1 else 0) ≤ 1
one_more n true h = omega arith
one_more n false h = omega arith

pub insert-IsSingle :
    (rs : List Run) (r : Run) (schedule_id : ℕ)
    → IsSingle rs
    → r.schedule_id ≡ some schedule_id
    → first (is_live_of schedule_id) rs ≡ none
    → IsSingle (rs ++ r ∷ [])
insert-IsSingle rs r i s e n = record {
  at = λ k.
      let b = s.at k in
      elim (Bool-cases (i == k)) [
        | inl same ↦
            let z : count_where (is_live_of k) rs ≡ 0 =
              subst (λ j. count_where (is_live_of j) rs ≡ 0) ((==_iff i k).0 same)
                (count-first-none (is_live_of i) rs n) in
            rw (count-insert (is_live_of k) rs r) (one_more _ (is_live_of k r) z)
        | inr other ↦
            let away : is_live_of k r ≡ false = ground arith in
            rw (count-insert (is_live_of k) rs r, away) (omega arith)
      ];
}

module _ (V : Values) (json : Json V) (next : CronNext) (now : ℕ) where
  gate_clear-free :
      (db : Db) (x : Schedule) (a : Agent) (u : User) (ps : List (String × Value V))
      → gate V json next now db x ≡ clear a u ps
      → first (is_live_of x.id) db.runs ≡ none
  unfolding gate
  gate_clear-free db x a u ps h = ground arith

  module _ (start : Db) (x : Schedule) (s : Session) (g : IsGood start s) where
    flush-IsKept :
        (script : Script) (owner : User) (o : Order V json)
        → o.schedule_id ≡ some x.id
        → first (is_live_of x.id) s.flushed.runs ≡ none
        → IsKept start (add_run (new_run V json script owner o now) (written (expire_all s)))
    unfolding new_run
    flush-IsKept script owner o e n =
        let old : IsSound (written (expire_all s)) = record {
          keyed = g.flushed_kept.sound.keyed;
          below = g.flushed_kept.sound.below;
        } in
        record {
          sound =
              IsSound-add_run (new_run V json script owner o now) (written (expire_all s))
                (λ k. refl) old;
          single = λ one.
              insert-IsSingle s.flushed.runs
                (new_run V json script owner o now s.flushed.next_run_id) x.id
                (g.flushed_kept.single one) e n;
        }

    expire_all-IsGood : IsGood start (expire_all s)
    expire_all-IsGood = record {
      flushed_kept = g.flushed_kept;
      live_kept = g.flushed_kept;
      from_start = g.from_start;
      from_flushed = Follows-refl s.flushed.runs;
    }

    materialize-IsGood :
        (owner : User) (o : Order V json) (r : Reply Script)
        → o.schedule_id ≡ some x.id
        → first (is_live_of x.id) s.flushed.runs ≡ none
        → IsGood start (materialize V json next now x owner o r (expire_all s))
    unfolding materialize
    materialize-IsGood owner o (http c d) e n =
        miss-IsGood start (expire_all s) now x _ expire_all-IsGood
    materialize-IsGood owner o (ok script) e n =
        let t = flush_run V json next now script owner o (expire_all s) in
        let h =
          opened-IsGood start (add_run (new_run V json script owner o now) (written (expire_all s)))
            (flush-IsKept script owner o e n)
            (Follows-trans g.from_start (
              Follows-insert s.flushed.runs
                (new_run V json script owner o now s.flushed.next_run_id))) in
        let k = set_schedule-IsGood start t x.id (set_last_run V json next now) h in
        record {
          flushed_kept = k.flushed_kept;
          live_kept = k.live_kept;
          from_start = k.from_start;
          from_flushed = k.from_flushed;
        }

    pass-IsGood :
        (p : Gate V json next)
        → gate V json next now s.flushed x ≡ p
        → IsGood start (pass V json next now x p s)
    unfolding pass
    pass-IsGood late e = miss-IsGood start s now x _ g
    pass-IsGood busy e = miss-IsGood start s now x _ g
    pass-IsGood no_agent e = miss-IsGood start s now x _ g
    pass-IsGood no_owner e = miss-IsGood start s now x _ g
    pass-IsGood unreadable e = miss-IsGood start s now x _ g
    pass-IsGood (clear a u ps) e =
        materialize-IsGood u (order_of V json next x a ps) _ refl
          (gate_clear-free s.flushed x a u ps e)

  moved-IsGood :
      (start : Db) (x : Schedule) (s t : Session) (c : Option ℕ)
      → IsGood start s
      → moved V json next now x c s ≡ some t
      → IsGood start t
  unfolding moved
  moved-IsGood start x s t none g h = cc
  moved-IsGood start x s t (some c) g h = subst (IsGood start) (some-inj h) (
      pass-IsGood start x (set_schedule x.id (set_cursor V json next now c) s)
        (set_schedule-IsGood start s x.id _ g) (gate V json next now s.flushed x) refl)

  visited-IsGood :
      (start : Db) (o : Option Schedule) (s t : Session)
      → IsGood start s
      → visited V json next now o s ≡ some t
      → IsGood start t
  unfolding visited
  visited-IsGood start none s t g h = subst (IsGood start) (some-inj h) g
  visited-IsGood start (some x) s t g h =
      moved-IsGood start x s t (next_schedule_run next x x.next_run_at now) g h

  visit-IsGood :
      (start : Db) (id : ℕ) (s t : Session)
      → IsGood start s
      → visit V json next now id s ≡ some t
      → IsGood start t
  unfolding visit
  visit-IsGood start id s t g h =
      visited-IsGood start (first (schedule_key id) s.live.schedules) s t g h

  visit_all-IsGood :
      (start : Db) (ids : List ℕ) (s t : Session)
      → IsGood start s
      → visit_all V json next now ids s ≡ some t
      → IsGood start t
  unfolding visit_all
  visit_all-IsGood start [] s t g h = subst (IsGood start) (some-inj h) g
  visit_all-IsGood start (i ∷ ids) s t g h = elim (Option-cases (visit V json next now i s)) [
    | inl e ↦ let n : none ≡ some t = rw e at h in cc
    | inr (u, e) ↦ visit_all-IsGood start ids u t (visit-IsGood start i s u g e) (rw e at h)
  ]

  -- What a scan that commits keeps, whether or not schedules had one live run at most.
  scan-IsKept :
      (db db' : Db)
      → IsSound db
      → managed_schedule_scan V json next now db ≡ some db'
      → IsKept db db' × Follows db.runs db'.runs
  unfolding managed_schedule_scan
  scan-IsKept db db' o h =
      elim (Option-cases (visit_all V json next now (due_ids now db) (expire_runs now db))) [
        | inl e ↦ let n : none ≡ some db' = rw e at h in cc
        | inr (s, e) ↦
            let g =
              visit_all-IsGood db (due_ids now db) (expire_runs now db) s
                (expire_runs-IsGood now db o) e in
            let same : written s ≡ db' = some-inj (rw e at h) in
            subst (λ d. IsKept db d × Follows db.runs d.runs) same
              (
                record {
                  sound = record {
                    keyed = g.live_kept.sound.keyed;
                    below = g.live_kept.sound.below;
                  };
                  single = g.live_kept.single;
                },
                Follows-trans g.from_start g.from_flushed,
              )
      ]

  pub managed_schedule_scan-Follows :
      (db db' : Db)
      → IsSound db
      → managed_schedule_scan V json next now db ≡ some db'
      → Follows db.runs db'.runs × IsSound db'
  managed_schedule_scan-Follows db db' o h = let (k, f) = scan-IsKept db db' o h in (f, k.sound)

  -- Where the key of the table of runs held and each schedule had one live run at most, and nothing is committed
  -- between the scan's reads and its commit, a scan that commits keeps both, whatever it found due, and moves runs
  -- only along the diagram of statuses.
  pub scan-IsOrderly :
      (db db' : Db)
      → IsOrderly db
      → managed_schedule_scan V json next now db ≡ some db'
      → IsOrderly db' × Follows db.runs db'.runs
  scan-IsOrderly db db' o h =
      let (k, f) = scan-IsKept db db' o.sound h in
      (record { sound = k.sound; single = k.single o.single }, f)
