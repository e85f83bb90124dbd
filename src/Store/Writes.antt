-- ===== src/Store/Writes.antt =====
-- The writes to the table of runs, and that they keep its primary key.
use auto_script_hub.Prelude.{
  IsFresh, IsFresh-update_where, IsFresh-insert, ℕ, suc, Bool, true, false, ◌&&◌, Option, none,
  some, List, [], ◌∷◌, ◌++◌, ◌==◌, ◌≡◌, refl, sym, ◌∙◌, update_where, count_where, update_one,
  if◌then◌else◌, arith, count_where-key, first-some, first-update_where, ==_iff, Bool-cases, inl,
  inr, some-inj,
}
use auto_script_hub.Store.{Run, Db, IsSound, run_key, run_at}
use auto_script_hub.Store.Evolution.{Keeps, Follows, Follows-update_where}

abbrev pub write_runs : (Run → Bool) → (Run → Run) → Db → Db
write_runs p f db = record db { runs = update_where p f db.runs }

-- db.add(run): `make` is given the new id.
abbrev pub add_run : (ℕ → Run) → Db → Db
add_run make db = record db {
  runs = db.runs ++ make db.next_run_id ∷ [];
  next_run_id = suc db.next_run_id;
}

-- `if query.update(values) != 1: rollback` over the row of one id.
unfoldable pub guarded_update : ℕ → (Run → Bool) → (Run → Run) → Db → Option Db
guarded_update i p f db =
    if count_where (λ r. r.id == i && p r) db.runs == 1
    then some (write_runs (λ r. r.id == i && p r) f db)
    else none

IsFresh-runs : (db : Db) → IsSound db → IsFresh (λ (r : Run). r.id) db.next_run_id db.runs
IsFresh-runs db s = record { keyed = s.keyed; below = s.below }

-- An UPDATE that leaves the ids alone keeps the key.
pub IsSound-write_runs :
    (p : Run → Bool) (f : Run → Run) (db : Db)
    → ((r : Run) → (f r).id ≡ r.id)
    → IsSound db
    → IsSound (write_runs p f db)
IsSound-write_runs p f db same s =
    let k =
      IsFresh-update_where (λ (r : Run). r.id) p f db.next_run_id db.runs same
        (IsFresh-runs db s) in
    record { keyed = k.keyed; below = k.below }

-- A new row has the id of the counter, which no row has.
pub IsSound-add_run :
    (make : ℕ → Run) (db : Db)
    → ((n : ℕ) → (make n).id ≡ n)
    → IsSound db
    → IsSound (add_run make db)
IsSound-add_run make db named s =
    let k =
      IsFresh-insert (λ (r : Run). r.id) db.next_run_id db.runs (make db.next_run_id)
        (named db.next_run_id) (IsFresh-runs db s) in
    record { keyed = k.keyed; below = k.below }

-- What a guarded UPDATE that goes through has written.
pub record Wrote (i : ℕ) (p : Run → Bool) (f : Run → Run) (before after : Db) : Type 0 where
  pub row : Run
  pub was_there : run_at i before.runs ≡ some row
  pub passed : p row ≡ true
  pub is_there : run_at i after.runs ≡ some (f row)
  pub written : after ≡ write_runs (λ r. r.id == i && p r) f before

pub guarded_update-some :
    (i : ℕ) (p : Run → Bool) (f : Run → Run) (db : Db) {db' : Db}
    → IsSound db
    → ((r : Run) → (f r).id ≡ r.id)
    → guarded_update i p f db ≡ some db'
    → Wrote i p f db db'
unfolding guarded_update
guarded_update-some i p f db {db'} s same h =
    elim (Bool-cases (count_where (λ r. r.id == i && p r) db.runs == 1)) [
      | inl e ↦
          let (q, here, good, there) =
            update_one (λ (x : Run). x.id) i p f db.runs s.keyed same ((==_iff _ 1).0 e) in
          let now : write_runs (λ r. r.id == i && p r) f db ≡ db' = some-inj (rw e at h) in
          rw (sym now)
            (record { row = q; was_there = here; passed = good; is_there = there; written = refl })
      | inr e ↦ let n : none ≡ some db' = rw e at h in cc
    ]

pub guarded_update-IsSound :
    (i : ℕ) (p : Run → Bool) (f : Run → Run) (db : Db) {db' : Db}
    → IsSound db
    → ((r : Run) → (f r).id ≡ r.id)
    → guarded_update i p f db ≡ some db'
    → IsSound db'
guarded_update-IsSound i p f db s same h =
    rw (guarded_update-some i p f db s same h).written (IsSound-write_runs _ f db same s)

pub Follows-guarded_update :
    (i : ℕ) (p : Run → Bool) (f : Run → Run) (db : Db) {db' : Db}
    → ((r : Run) → (f r).id ≡ r.id)
    → ((r : Run) → p r ≡ true → Keeps r (f r))
    → guarded_update i p f db ≡ some db'
    → Follows db.runs db'.runs
unfolding guarded_update
Follows-guarded_update i p f db {db'} same keep h =
    elim (Bool-cases (count_where (λ r. r.id == i && p r) db.runs == 1)) [
      | inl e ↦
          let now : write_runs (λ r. r.id == i && p r) f db ≡ db' = some-inj (rw e at h) in
          rw (sym now) (Follows-update_where _ f db.runs same (λ r g. keep r (ground arith)))
      | inr e ↦ let n : none ≡ some db' = rw e at h in cc
    ]

module _ (i : ℕ) (p : Run → Bool) (f : Run → Run) (db : Db) (s : IsSound db) {row : Run}
    (found : run_at i db.runs ≡ some row) where
  counted : count_where (λ r. r.id == i && p r) db.runs ≡ (if p row then 1 else 0)
  counted = count_where-key (λ (r : Run). r.id) i p db.runs s.keyed ∙ rw found

  -- A guarded UPDATE goes through where the row passes its test, and is refused where it does not.
  pub guarded_update-hit :
      p row ≡ true → guarded_update i p f db ≡ some (write_runs (λ r. r.id == i && p r) f db)
  unfolding guarded_update
  guarded_update-hit h = rw (counted, h)

  pub guarded_update-miss : p row ≡ false → guarded_update i p f db ≡ none
  unfolding guarded_update
  guarded_update-miss h = rw (counted, h)

  -- The row of the id after the UPDATE.
  pub written_row :
      ((r : Run) → (f r).id ≡ r.id)
      → p row ≡ true
      → run_at i (write_runs (λ r. r.id == i && p r) f db).runs ≡ some (f row)
  written_row same h =
      let k = first-some (run_key i) db.runs found in
      first-update_where (run_key i) (λ r. r.id == i && p r) f db.runs (λ r. rw (same r))
      ∙ rw (found, k.0, h)

-- A row that an UPDATE does not name stays as it is.
pub run_at-untouched :
    (i : ℕ) (p : Run → Bool) (f : Run → Run) (rs : List Run) {r : Run}
    → ((x : Run) → (f x).id ≡ x.id)
    → run_at i rs ≡ some r
    → p r ≡ false
    → run_at i (update_where p f rs) ≡ some r
run_at-untouched i p f rs same e h =
    first-update_where (run_key i) p f rs (λ x. rw (same x)) ∙ rw (e, h)
