-- ===== src/Scheduler/Scan/Skips.antt =====
-- backend/app/scheduler.py, _managed_schedule_scan: a turn that is too late, or finds a run of the schedule unfinished,
-- through the whole scan to its commit.
use auto_script_hub.Prelude.{
  ℕ, String, Bool, true, false, some, List, [], ◌∷◌, Memᴰ, ◌+◌, ◌*◌, ◌≤◌, ◌≡◌, ◌⊎◌, ◌∙◌, inl, inr,
  refl, sym, arith, first, first-some, first-none, first-update_where, update_where, All-mem,
  is_some, leb, Bool-cases, Option-cases, ==_refl,
}
use auto_script_hub.Store.{second, Db, Run, Schedule, is_live}
use auto_script_hub.Contract.Params.{Values}
use auto_script_hub.Dispatch.{Json}
use auto_script_hub.Scheduler.Cursor.{CronNext, next_schedule_run}
use auto_script_hub.Scheduler.Scan.{
  Session, set_schedule, schedule_key, set_cursor, record_miss, due_ids, is_overdue, expire_overdue,
  expire_runs, Gate, late, busy, is_live_of, expires_of, gate, miss, pass, visit, visit_all,
  written, managed_schedule_scan,
}

-- The schedule's row, and the runs, after a turn that is skipped.
pub record Skipped (now cursor : ℕ) (schedule : Schedule) (before after : Db) : Type 0 where
  pub row : Schedule
  pub there : first (schedule_key schedule.id) after.schedules ≡ some row
  pub moved_on : row.next_run_at ≡ cursor
  pub missed_at : row.last_missed_at ≡ some schedule.next_run_at
  pub reason : String
  pub because : row.last_missed_reason ≡ some reason
  pub not_run : row.last_run_at ≡ schedule.last_run_at
  pub still_enabled : row.enabled ≡ schedule.enabled
  pub no_run : after.runs ≡ update_where (is_overdue now) (expire_overdue now) before.runs
  pub no_id : after.next_run_id ≡ before.next_run_id

row_own :
    (i : ℕ) (f : Schedule → Schedule) (rows : List Schedule) {x : Schedule}
    → ((y : Schedule) → (f y).id ≡ y.id)
    → first (schedule_key i) rows ≡ some x
    → first (schedule_key i) (update_where (schedule_key i) f rows) ≡ some (f x)
row_own i f rows same e =
    let k = first-some (schedule_key i) rows e in
    first-update_where (schedule_key i) (schedule_key i) f rows (λ y. rw (same y)) ∙ rw (e, k.0)

-- A row with the test is one that the query finds, if not the first.
first-has :
    (p : Run → Bool) (rs : List Run) {r : Run}
    → Memᴰ r rs
    → p r ≡ true
    → is_some (first p rs) ≡ true
first-has p rs {r} m h = elim (Option-cases (first p rs)) [
  | inl e ↦
      let off : p r ≡ false = All-mem (λ x. p x ≡ false) m (first-none p rs e) in
      absurd (let bad : true ≡ false = sym h ∙ off in cc)
  | inr (x, e) ↦ rw e refl
]

module _ (V : Values) (json : Json V) (next : CronNext) (now : ℕ) (db : Db) (schedule : Schedule)
    (cursor : ℕ) (there : first (schedule_key schedule.id) db.schedules ≡ some schedule)
    (one : due_ids now db ≡ schedule.id ∷ [])
    (moves : next_schedule_run next schedule schedule.next_run_at now ≡ some cursor) where
  after_miss : String → Session
  after_miss reason =
      miss now schedule reason
        (set_schedule schedule.id (set_cursor V json next now cursor) (expire_runs now db))

  missed : (reason : String) → Skipped now cursor schedule db (written (after_miss reason))
  unfolding after_miss expire_runs
  missed reason = record {
    row = record_miss now schedule.next_run_at reason (set_cursor V json next now cursor schedule);
    there =
        row_own schedule.id (record_miss now schedule.next_run_at reason) _ (λ y. refl)
          (row_own schedule.id (set_cursor V json next now cursor) db.schedules (λ y. refl) there);
    moved_on = refl;
    missed_at = refl;
    reason = reason;
    because = refl;
    not_run = refl;
    still_enabled = refl;
    no_run = refl;
    no_id = refl;
  }

  skipped :
      (g : Gate V json next) (reason : String)
      → gate V json next now db schedule ≡ g
      → pass V json next now schedule g
          (set_schedule schedule.id (set_cursor V json next now cursor) (expire_runs now db))
        ≡ after_miss reason
      → (db' : Db) × (managed_schedule_scan V json next now db ≡ some db')
        × Skipped now cursor schedule db db'
  unfolding managed_schedule_scan visit_all visit expire_runs
  skipped g reason gated passed =
      (written (after_miss reason), rw (one, there, moves, gated, passed) refl, missed reason)

  -- Where one schedule is due and has a next turn, and either its turn has expired, or a run of it in the table is pending
  -- or running, the scan commits: the schedule's cursor is that next turn, the turn is recorded as missed with a
  -- reason, it was not run, no run is added, and of the runs only the overdue ones change, which expire.
  pub scan_skips :
      (schedule.next_run_at + schedule.expires_after_seconds * second ≤ now)
        ⊎ ((r : Run) × Memᴰ r db.runs
            × (r.schedule_id ≡ some schedule.id)
            × (is_live r.status ≡ true)
            × (r.is_deleted ≡ false))
      → (db' : Db) × (managed_schedule_scan V json next now db ≡ some db')
        × Skipped now cursor schedule db db'
  unfolding gate pass after_miss
  scan_skips (inl old) =
      let e : leb (expires_of schedule) now ≡ true = ground arith in skipped late _ (rw e refl) refl
  scan_skips (inr (r, stored, its, live, kept)) =
      let has : is_live_of schedule.id r ≡ true =
        rw (its, live, kept) (rw (==_refl schedule.id) refl) in
      let found = first-has (is_live_of schedule.id) db.runs stored has in
      elim (Bool-cases (leb (expires_of schedule) now)) [
        | inl e ↦ skipped late _ (rw e refl) refl
        | inr e ↦ skipped busy _ (rw (e, found) refl) refl
      ]
