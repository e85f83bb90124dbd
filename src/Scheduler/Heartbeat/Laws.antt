-- ===== src/Scheduler/Heartbeat/Laws.antt =====
-- backend/app/scheduler.py, _heartbeat_scan: what the scan leaves of each agent and each run.
use auto_script_hub.Prelude.{
  IsFresh, IsFresh-update_where, ℕ, true, false, Option, none, some, List, [], ◌∷◌, ◌==◌, ◌≡◌, ◌≢◌,
  refl, ap, ◌∙◌, arith, All, IsKeyed, first, select, touch, kept, first-select, IsKeyed-select,
  first-update_where, first-some, All-update_where, All-map, ==_iff, Bool-cases, inl, inr, subst,
  Memᴰ, All-of_mem,
}
use mathlib.Core.Option
use auto_script_hub.Store.{Db, Agent, Run, run_key, run_at, IsSound, is_live, running-failed}
use auto_script_hub.Store.Evolution.{Keeps, Keeps-refl, Follows}
use auto_script_hub.Access.{member_of}
use auto_script_hub.Scheduler.Heartbeat.{
  is_stale, stale_ids, is_stuck, take_offline, fail_run, fail_row, fail_rows, watchdog,
  heartbeat_scan,
}

row_other :
    (now i : ℕ) (q : Run) (rs : List Run) → q.id ≢ i → run_at i (fail_row now q rs) ≡ run_at i rs
row_other now i q rs h =
    first-update_where (run_key i) (run_key q.id) (fail_run now q) rs (λ r. refl)
    ∙ untouched (run_at i rs) refl
  where
    untouched :
        (o : Option Run)
        → run_at i rs ≡ o
        → Option.map (touch (run_key q.id) (fail_run now q)) o ≡ o
    untouched none e = refl
    untouched (some r) e =
        let k = first-some (run_key i) rs e in
        let other : run_key q.id r ≡ false = ground arith in rw other

row_own :
    (now i : ℕ) (q : Run) (rs : List Run) (r : Run)
    → q.id ≡ i
    → run_at i rs ≡ some r
    → run_at i (fail_row now q rs) ≡ some (fail_run now q r)
row_own now i q rs r same e =
    let k = first-some (run_key i) rs e in
    let own : run_key q.id r ≡ true = ground arith in
    first-update_where (run_key i) (run_key q.id) (fail_run now q) rs (λ x. refl) ∙ rw (e, own)

rows_other :
    (now i : ℕ) (reads rs : List Run)
    → All (λ (q : Run). q.id ≢ i) reads
    → run_at i (fail_rows now reads rs) ≡ run_at i rs
unfolding fail_rows
rows_other now i [] rs h = refl
rows_other now i (q ∷ reads) rs h =
    rows_other now i reads (fail_row now q rs) h.1 ∙ row_other now i q rs h.0

-- The row of an id after the writes, by what was read of that id.
abbrev pub overwritten : ℕ → Option Run → Run → Run
overwritten now none r = r
overwritten now (some q) r = fail_run now q r

rows_at :
    (now i : ℕ) (reads rs : List Run) (r : Run)
    → IsKeyed (λ (x : Run). x.id) reads
    → run_at i rs ≡ some r
    → run_at i (fail_rows now reads rs) ≡ some (overwritten now (run_at i reads) r)
unfolding fail_rows first
rows_at now i [] rs r k e = e
rows_at now i (q ∷ reads) rs r k e = elim (Bool-cases (q.id == i)) [
  | inl h ↦
      let same = (==_iff q.id i).0 h in
      rw h (
        rows_other now i reads (fail_row now q rs)
          (subst (λ n. All (λ (y : Run). y.id ≢ n) reads) same k.0)
        ∙ row_own now i q rs r same e)
  | inr h ↦
      let other : q.id ≢ i = ground arith in
      rw h (rows_at now i reads (fail_row now q rs) r k.1 (row_other now i q rs other ∙ e))
]

not_stuck_nobody : (r : Run) → is_stuck [] r ≡ false
unfolding member_of
not_stuck_nobody r = ground arith

watchdog_row :
    (now : ℕ) (ids : List ℕ) (seen db : Db) (i : ℕ) (r : Run)
    → IsSound seen
    → run_at i db.runs ≡ some r
    → run_at i (watchdog now ids seen db).runs
      ≡ some (overwritten now (kept (λ (x : Run). x.id) (is_stuck ids) (run_at i seen.runs)) r)
unfolding watchdog
watchdog_row now [] seen db i r s e = e ∙ ap some (nobody (run_at i seen.runs))
  where
    nobody : (o : Option Run) → r ≡ overwritten now (kept (λ (x : Run). x.id) (is_stuck []) o) r
    nobody none = refl
    nobody (some q) = rw (not_stuck_nobody q)
watchdog_row now (a ∷ ids) seen db i r s e =
    rows_at now i (select (is_stuck (a ∷ ids)) seen.runs) db.runs r
      (IsKeyed-select (λ (x : Run). x.id) (is_stuck (a ∷ ids)) seen.runs s.keyed) e
    ∙ rw (first-select (λ (x : Run). x.id) i (is_stuck (a ∷ ids)) seen.runs s.keyed)

-- The scan rewrites exactly the rows that it had read as running for a stale agent, and it rewrites
-- them as failed, whatever they have become since.
pub heartbeat_scan_row :
    (now : ℕ) (seen db : Db) (i : ℕ) (r : Run)
    → IsSound seen
    → run_at i db.runs ≡ some r
    → run_at i (heartbeat_scan now seen db).runs
      ≡ some (
          overwritten now
            (kept (λ (x : Run). x.id) (is_stuck (stale_ids now seen.agents)) (run_at i seen.runs))
            r)
unfolding heartbeat_scan
heartbeat_scan_row now seen db i r s e =
    watchdog_row now (stale_ids now seen.agents) seen db i r s e

-- A completion that is committed between the scan's reads and its commit is lost: the run ends as
-- failed, though it had ended otherwise.
pub heartbeat_scan_race :
    (now : ℕ) (seen db : Db) (i : ℕ) (q r : Run)
    → IsSound seen
    → run_at i seen.runs ≡ some q
    → is_stuck (stale_ids now seen.agents) q ≡ true
    → run_at i db.runs ≡ some r
    → is_live r.status ≡ false
    → run_at i (heartbeat_scan now seen db).runs ≡ some (fail_run now q r)
heartbeat_scan_race now seen db i q r s e stuck f ended =
    heartbeat_scan_row now seen db i r s f ∙ rw (e, stuck)

Keeps-fail_run :
    (now : ℕ) (ids : List ℕ) (r : Run) → is_stuck ids r ≡ true → Keeps r (fail_run now r r)
Keeps-fail_run now ids r h = record {
  same_id = refl;
  same_script = refl;
  same_user = refl;
  same_target = refl;
  same_expiry = refl;
  moved = running-failed r.status (ground arith);
  claimed_once = λ c. refl;
}

fail_rows-IsFresh :
    (now n : ℕ) (reads rs : List Run)
    → IsFresh (λ (r : Run). r.id) n rs
    → IsFresh (λ (r : Run). r.id) n (fail_rows now reads rs)
unfolding fail_rows
fail_rows-IsFresh now n [] rs s = s
fail_rows-IsFresh now n (q ∷ reads) rs s =
    fail_rows-IsFresh now n reads (fail_row now q rs)
      (IsFresh-update_where (λ (r : Run). r.id) (run_key q.id) (fail_run now q) n rs (λ r. refl) s)

watchdog-IsSound :
    (now : ℕ) (ids : List ℕ) (seen db : Db) → IsSound db → IsSound (watchdog now ids seen db)
unfolding watchdog
watchdog-IsSound now [] seen db s = s
watchdog-IsSound now (i ∷ ids) seen db s =
    let k =
      fail_rows-IsFresh now db.next_run_id (select (is_stuck (i ∷ ids)) seen.runs) db.runs
        (record { keyed = s.keyed; below = s.below }) in
    record { keyed = k.keyed; below = k.below }

pub heartbeat_scan-IsSound :
    (now : ℕ) (seen db : Db) → IsSound db → IsSound (heartbeat_scan now seen db)
unfolding heartbeat_scan
heartbeat_scan-IsSound now seen db s = watchdog-IsSound now (stale_ids now seen.agents) seen db s

-- Where nothing is committed in between, the scan moves runs only along the diagram.
pub Follows-heartbeat_scan :
    (now : ℕ) (db : Db) → IsSound db → Follows db.runs (heartbeat_scan now db db).runs
Follows-heartbeat_scan now db s = record {
  at = λ i r e.
      let ids = stale_ids now db.agents in
      let there = heartbeat_scan_row now db db i r s e in
      elim (Bool-cases (is_stuck ids r)) [
        | inl h ↦ (fail_run now r r, there ∙ rw (e, h), Keeps-fail_run now ids r h)
        | inr h ↦ (r, there ∙ rw (e, h), Keeps-refl r)
      ];
}

member_of-nil : (n : ℕ) → member_of n [] ≡ false
unfolding member_of
member_of-nil n = refl

member_of-own : (n : ℕ) (ids : List ℕ) → member_of n (n ∷ ids) ≡ true
unfolding member_of
member_of-own n ids = ground arith

member_of-more : (n m : ℕ) (ids : List ℕ) → member_of n ids ≡ true → member_of n (m ∷ ids) ≡ true
unfolding member_of
member_of-more n m ids h = ground arith

-- Every stale agent is among the ids.
stale-member :
    (now : ℕ) (agents : List Agent) (a : Agent)
    → Memᴰ a agents
    → is_stale now a ≡ true
    → member_of a.id (stale_ids now agents) ≡ true
unfolding stale_ids select
stale-member now [] a m h = elim m [ ]
stale-member now (x ∷ agents) a (Memᴰ.head e) h =
    let hx : is_stale now x ≡ true = rw (← e) h in
    rw (hx, e) (member_of-own x.id (stale_ids now agents))
stale-member now (x ∷ agents) a (Memᴰ.tail m) h =
    let r = stale-member now agents a m h in
    elim (Bool-cases (is_stale now x)) [
      | inl e ↦ rw e (member_of-more a.id x.id (stale_ids now agents) r)
      | inr e ↦ rw e r
    ]

quiet_row :
    (now : ℕ) (ids : List ℕ) (a : Agent)
    → (is_stale now a ≡ true → member_of a.id ids ≡ true)
    → is_stale now (touch (λ (x : Agent). member_of x.id ids) (take_offline now) a) ≡ false
quiet_row now ids a h = ground arith

watchdog_quiet :
    (now : ℕ) (ids : List ℕ) (seen db : Db)
    → All (λ (a : Agent). is_stale now a ≡ true → member_of a.id ids ≡ true) db.agents
    → All (λ (a : Agent). is_stale now a ≡ false) (watchdog now ids seen db).agents
unfolding watchdog
watchdog_quiet now [] seen db h =
    All-map _ (λ (a : Agent). is_stale now a ≡ false) db.agents (λ a g. nobody a g) h
  where
    nobody :
        (a : Agent) → (is_stale now a ≡ true → member_of a.id [] ≡ true) → is_stale now a ≡ false
    nobody a g = elim (Bool-cases (is_stale now a)) [
      | inl e ↦ cc (g e, member_of-nil a.id)
      | inr e ↦ e
    ]
watchdog_quiet now (i ∷ ids) seen db h =
    All-update_where _ (λ (a : Agent). is_stale now a ≡ false) _ (take_offline now) db.agents
      (quiet_row now (i ∷ ids)) h

-- Where nothing is committed between its reads and its commit, no agent is online after the scan whose
-- heartbeat is older than the timeout.
pub heartbeat_scan_quiet :
    (now : ℕ) (db : Db)
    → All (λ (a : Agent). is_stale now a ≡ false) (heartbeat_scan now db db).agents
unfolding heartbeat_scan
heartbeat_scan_quiet now db = watchdog_quiet now (stale_ids now db.agents) db db (
    All-of_mem
      (λ (a : Agent). is_stale now a ≡ true → member_of a.id (stale_ids now db.agents) ≡ true)
      db.agents (λ a m. stale-member now db.agents a m))
