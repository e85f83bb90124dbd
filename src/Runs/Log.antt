-- ===== src/Runs/Log.antt =====
-- backend/app/routers/runs.py, append_run_log_chunk: an agent appends a piece of a run's log.
-- A file is the list of its bytes (a missing file is empty: it is opened with "a+b"), and the
-- chunk comes as the bytes of `content.encode("utf-8")`.
pub mod Bytes
pub mod Laws
pub mod Stream
pub mod Path
use auto_script_hub.Prelude.{
  ℕ, String, Bool, true, false, not, ◌&&◌, ◌||◌, Option, none, some, List, [], ◌∷◌, ◌++◌, ◌==◌, ◌-◌,
  ltb, Reply, ok, http, ◌>>=◌, ◌>>◌, require, expect, first, opt_is, holds, str_eq, or_else, length,
  take, drop, if◌then◌else◌,
}
use Prim.Native.Nat.{min}
use auto_script_hub.Store.{Db, User, Agent, Run, is_managed, run_key}
use auto_script_hub.Store.Writes.{write_runs}
use auto_script_hub.Auth.{Decode, verify_agent_token}
use auto_script_hub.Runs.Finish.{visible_run, owning_agent}

pub record ChunkRequest : Type 0 where
  pub run_id : ℕ
  pub offset : ℕ
  pub payload : List ℕ
  pub agent_id : Option ℕ
  pub user : User
  pub token : Option String
  pub now : ℕ

-- What comes back: the offset that is acknowledged, or a refusal. `gap` and `conflict` are the two
-- refusals with status 409, whose detail carries the length of the file.
pub data ChunkReply : Type 0 where
  acknowledged gap conflict : ℕ → ChunkReply
  refused : ℕ → String → ChunkReply

-- The bytes of two lists, compared as Python compares `bytes`.
unfoldable pub same_bytes : List ℕ → List ℕ → Bool
same_bytes [] [] = true
same_bytes (x ∷ xs) (y ∷ ys) = x == y && same_bytes xs ys
same_bytes _ _ = false

-- The writes under `if payload`, and the offset after them.
appended : List ℕ → List ℕ → ChunkReply × List ℕ
appended file payload = (acknowledged (length (file ++ payload)), file ++ payload)

-- f.read(min(len(payload), current_offset - chunk.offset)) from the chunk's offset.
abbrev pub overlap : ℕ → List ℕ → List ℕ → List ℕ
overlap offset payload file = take (min (length payload) (length file - offset)) (drop offset file)

unfoldable pub write_chunk : ℕ → List ℕ → List ℕ → ChunkReply × List ℕ
unfolding appended
write_chunk offset payload file =
    if ltb (length file) offset
    then (gap (length file), file)
    else if ltb offset (length file)
    then (if not (
          same_bytes (overlap offset payload file)
            (take (length (overlap offset payload file)) payload))
        then (conflict (length file), file)
        else appended file (drop (length (overlap offset payload file)) payload))
    else appended file payload

-- The agent that a log is bound to (ids begin at 1, so `or` is a test for None), and what it must show.
bound_agent : Decode → ChunkRequest → Run → Db → Option ℕ → Reply (Unit {0})
bound_agent decode q run db none = ok tt
bound_agent decode q run db (some agent_id) = do
  agent ← expect (first (owning_agent agent_id run.user_id) db.agents) 400 "Agent 与任务用户不匹配"
  require (not (is_managed agent.mode) || opt_is q.agent_id agent.id) 403 "仅目标 Agent 可上报日志"
  verify_agent_token decode q.token agent false

-- `run.agent_id is not None and chunk.agent_id != run.agent_id`, the other way round.
abbrev pub from_claimer : Option ℕ → Option ℕ → Bool
from_claimer none sender = true
from_claimer (some agent_id) sender = opt_is sender agent_id

unfoldable pub chunk_checks : Decode → ChunkRequest → Db → Reply (Unit {0})
unfolding bound_agent
chunk_checks decode q db = do
  run ← expect (first (visible_run q.run_id) db.runs) 404 "执行记录不存在"
  require (run.user_id == q.user.id) 403 "无权限上报该任务日志"
  require (from_claimer run.agent_id q.agent_id) 403 "仅领取任务的 Agent 可上报日志"
  bound_agent decode q run db (or_else run.agent_id run.target_agent_id)

-- run.log_path = log_file; db.commit(), after a chunk that was taken. Nothing is written where the
-- row has that path already.
abbrev pub set_log_path : String → ℕ → Run → Run
set_log_path path now r =
    if holds (λ p. str_eq p path) r.log_path
    then r
    else record r { log_path = some path; updated_at = now }

recorded : ChunkRequest → String → ChunkReply × List ℕ → Db → ChunkReply × List ℕ × Db
recorded q path (acknowledged n, file) db =
    (acknowledged n, file, write_runs (run_key q.run_id) (set_log_path path q.now) db)
recorded q path (r, file) db = (r, file, db)

checked : ChunkRequest → String → Reply (Unit {0}) → List ℕ → Db → ChunkReply × List ℕ × Db
unfolding recorded write_chunk
checked q path (http c d) file db = (refused c d, file, db)
checked q path (ok u) file db = recorded q path (write_chunk q.offset q.payload file) db

unfoldable pub append_run_log_chunk :
    Decode → ChunkRequest → String → List ℕ → Db → ChunkReply × List ℕ × Db
unfolding chunk_checks checked
append_run_log_chunk decode q path file db = checked q path (chunk_checks decode q db) file db
