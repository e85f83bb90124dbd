-- ===== src/Scheduler/Heartbeat.antt =====
-- backend/app/scheduler.py, _heartbeat_scan: agents that have gone quiet, and their runs.
-- The scan reads rows and writes them back by their primary key when it commits: `seen` is the
-- database that it read, `db` the one that the commit meets.
pub mod Laws
use auto_script_hub.Prelude.{
  ℕ, String, Bool, true, false, not, ◌&&◌, Option, none, some, List, [], ◌∷◌, ◌==◌, ◌+◌, ◌*◌, ltb,
  first, select, update_where, map, holds, opt_is, or_else, is_some,
}
use auto_script_hub.Store.{Db, Agent, Run, is_online, is_running, offline, failed, run_key}
use auto_script_hub.Runs.Finish.{duration}
use auto_script_hub.Access.{member_of}
use auto_script_hub.Store.{second}

abbrev pub heartbeat_timeout : ℕ
heartbeat_timeout = 90 * second

-- `last_heartbeat < now - 90 seconds`
abbrev pub is_stale : ℕ → Agent → Bool
is_stale now a =
    is_online a.status
    && (not a.is_deleted && holds (λ t. ltb (t + heartbeat_timeout) now) a.last_heartbeat)

unfoldable pub stale_ids : ℕ → List Agent → List ℕ
stale_ids now agents = map (λ (a : Agent). a.id) (select (is_stale now) agents)

abbrev pub is_stuck : List ℕ → Run → Bool
is_stuck ids r =
    holds (λ a. member_of a ids) r.agent_id && (is_running r.status && not r.is_deleted)

abbrev pub take_offline : ℕ → Agent → Agent
take_offline now a = record a { status = offline; updated_at = now }

-- What is written over the row of a run, given the row as it was read.
abbrev pub fail_run : ℕ → Run → Run → Run
fail_run now read r = record r {
  status = failed;
  error_msg = some "Agent heartbeat timeout (server-side watchdog)";
  finished_at = some now;
  duration_sec = or_else (duration now read) r.duration_sec;
  updated_at = now;
}

-- The write of one row that was read, by its primary key.
abbrev pub fail_row : ℕ → Run → List Run → List Run
fail_row now read rs = update_where (run_key read.id) (fail_run now read) rs

unfoldable pub fail_rows : ℕ → List Run → List Run → List Run
fail_rows now [] rs = rs
fail_rows now (read ∷ more) rs = fail_rows now more (fail_row now read rs)

unfoldable pub watchdog : ℕ → List ℕ → Db → Db → Db
unfolding fail_rows
watchdog now [] seen db = db
watchdog now (i ∷ ids) seen db = record db {
  agents = update_where (λ (a : Agent). member_of a.id (i ∷ ids)) (take_offline now) db.agents;
  runs = fail_rows now (select (is_stuck (i ∷ ids)) seen.runs) db.runs;
}

unfoldable pub heartbeat_scan : ℕ → Db → Db → Db
unfolding stale_ids watchdog
heartbeat_scan now seen db = watchdog now (stale_ids now seen.agents) seen db
