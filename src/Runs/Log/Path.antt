-- ===== src/Runs/Log/Path.antt =====
-- backend/app/routers/runs.py, append_run_log_chunk: what a chunk writes to the table of runs, and
-- what the reply and the file are with the checks in front.
use auto_script_hub.Prelude.{
  ℕ, String, List, ◌≡◌, ◌⊎◌, refl, arith, Reply, ok, http, Bool-cases, inl, inr, holds, str_eq,
}
use auto_script_hub.Store.{Db, Run, IsSound, run_key, stay}
use auto_script_hub.Store.Evolution.{Keeps, Keeps-refl, Follows, Follows-refl, Follows-update_where}
use auto_script_hub.Store.Writes.{IsSound-write_runs}
use auto_script_hub.Auth.{Decode}
use auto_script_hub.Runs.Log.{
  ChunkRequest, ChunkReply, acknowledged, gap, conflict, refused, set_log_path, recorded, checked,
  write_chunk, chunk_checks, append_run_log_chunk,
}

set_log_path-id : (path : String) (now : ℕ) (r : Run) → (set_log_path path now r).id ≡ r.id
set_log_path-id path now r = ground arith

Keeps-set_log_path : (path : String) (now : ℕ) (r : Run) → Keeps r (set_log_path path now r)
Keeps-set_log_path path now r = elim (Bool-cases (holds (λ p. str_eq p path) r.log_path)) [
  | inl e ↦ rw e (Keeps-refl r)
  | inr e ↦ rw e (record {
    same_id = refl;
    same_script = refl;
    same_user = refl;
    same_target = refl;
    same_expiry = refl;
    moved = stay;
    claimed_once = λ c. refl;
  })
]

recorded-Follows :
    (q : ChunkRequest) (path : String) (x : ChunkReply × List ℕ) (db : Db)
    → IsSound db
    → Follows db.runs (recorded q path x db).2.runs × IsSound (recorded q path x db).2
unfolding recorded
recorded-Follows q path (acknowledged n, file) db s = (
  Follows-update_where (run_key q.run_id) (set_log_path path q.now) db.runs
      (set_log_path-id path q.now) (λ r h. Keeps-set_log_path path q.now r),
  IsSound-write_runs (run_key q.run_id) (set_log_path path q.now) db (set_log_path-id path q.now) s,
)
recorded-Follows q path (gap n, file) db s = (Follows-refl db.runs, s)
recorded-Follows q path (conflict n, file) db s = (Follows-refl db.runs, s)
recorded-Follows q path (refused c d, file) db s = (Follows-refl db.runs, s)

checked-Follows :
    (q : ChunkRequest) (path : String) (c : Reply (Unit {0})) (file : List ℕ) (db : Db)
    → IsSound db
    → Follows db.runs (checked q path c file db).2.runs × IsSound (checked q path c file db).2
unfolding checked
checked-Follows q path (http c d) file db s = (Follows-refl db.runs, s)
checked-Follows q path (ok u) file db s =
    recorded-Follows q path (write_chunk q.offset q.payload file) db s

pub append_run_log_chunk-Follows :
    (decode : Decode) (q : ChunkRequest) (path : String) (file : List ℕ) (db : Db)
    → IsSound db
    → Follows db.runs (append_run_log_chunk decode q path file db).2.runs
      × IsSound (append_run_log_chunk decode q path file db).2
unfolding append_run_log_chunk
append_run_log_chunk-Follows decode q path file db s =
    checked-Follows q path (chunk_checks decode q db) file db s

recorded-fst :
    (q : ChunkRequest) (path : String) (x : ChunkReply × List ℕ) (db : Db)
    → ◌≡◌ {A = ChunkReply × List ℕ} ((recorded q path x db).0, (recorded q path x db).1) x
unfolding recorded
recorded-fst q path (acknowledged n, file) db = refl
recorded-fst q path (gap n, file) db = refl
recorded-fst q path (conflict n, file) db = refl
recorded-fst q path (refused c d, file) db = refl

-- The reply of a chunk, and the file after it.
abbrev pub answer : Decode → ChunkRequest → String → List ℕ → Db → ChunkReply × List ℕ
answer decode q path file db =
    ((append_run_log_chunk decode q path file db).0, (append_run_log_chunk decode q path file db).1)

-- Where the checks pass, reply and file are those of the write.
pub answer-accepted :
    (decode : Decode) (q : ChunkRequest) (path : String) (file : List ℕ) (db : Db)
    → chunk_checks decode q db ≡ ok tt
    → answer decode q path file db ≡ write_chunk q.offset q.payload file
unfolding append_run_log_chunk checked
answer-accepted decode q path file db h =
    rw h (recorded-fst q path (write_chunk q.offset q.payload file) db)

answer-refused :
    (decode : Decode) (q : ChunkRequest) (path : String) (file : List ℕ) (db : Db) (c : ℕ)
    (d : String)
    → chunk_checks decode q db ≡ http c d
    → answer decode q path file db ≡ (refused c d, file)
unfolding append_run_log_chunk checked
answer-refused decode q path file db c d h = rw h refl

-- Either the checks pass, or the chunk is refused and the file left as it was.
pub answer-cases :
    (decode : Decode) (q : ChunkRequest) (path : String) (file : List ℕ) (db : Db)
    → (answer decode q path file db ≡ write_chunk q.offset q.payload file)
      ⊎ ((c : ℕ) × (d : String) × (answer decode q path file db ≡ (refused c d, file)))
answer-cases decode q path file db = by_check (chunk_checks decode q db) refl
  where
    by_check :
        (c : Reply (Unit {0}))
        → chunk_checks decode q db ≡ c
        → (answer decode q path file db ≡ write_chunk q.offset q.payload file)
          ⊎ ((c : ℕ) × (d : String) × (answer decode q path file db ≡ (refused c d, file)))
    by_check (ok u) h = inl (answer-accepted decode q path file db (h))
    by_check (http c d) h = inr (c, d, answer-refused decode q path file db c d h)
