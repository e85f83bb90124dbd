-- ===== src/Lib.antt =====
-- AutoScript Hub: a server keeps scripts, runs and devices in SQLite, and clients claim runs, execute
-- them and report. This library models the server's handling of runs from their creation to their
-- end, the users, groups, devices and schedules that this rests on, and the client's part in it.
--
-- A run is created by run_dispatch.py, for a user's request (runs.py, execute_script) or for a schedule
-- (scheduler.py, _managed_schedule_scan). An agent claims it, sends its log and reports its end; a user
-- may cancel it; the scheduler expires it or fails it when the agent goes quiet; and an admin who
-- disables or deletes an agent cancels what it has to do. All of these write the one table of runs, and
-- the diagram of statuses (Store.Transitions) with its closure over a table (Store.Evolution, Follows) is
-- what each of them is shown to keep to.
--
-- Prelude: tests, lists, integers, tables as lists of rows, and replies of a handler.
-- Store: backend/app/models.py, one record for each class, the database as the record of its tables.
--   Store.Writes is Query.update with a count of rows, and db.add.
-- Auth: backend/app/auth.py, verify_agent_token and get_current_user.
-- Access: backend/app/services/script_access.py.
-- Groups: backend/app/services/groups.py and assignable_groups of script_access.py; Groups.Default makes
--   the default group and sets a user's groups; Groups.Admin is backend/app/routers/groups.py.
-- Contract: shared/script_contract.py, validate_params.
-- Dispatch: backend/app/services/run_dispatch.py and backend/app/routers/runs.py, execute_script; what a run that is
--   created has gone through is opened in Dispatch.Accepted.
-- Runs: backend/app/routers/runs.py: Runs.Claim (claim_run), Runs.Finish (update_run_status),
--   Runs.Cancel (cancel_run), Runs.Log (append_run_log_chunk), Runs.View (list_runs and get_run).
-- Scheduler: backend/app/scheduler.py: Scheduler.Cursor (_advance_next_run, _next_schedule_run and
--   next_schedule_time of backend/app/services/schedule_time.py), Scheduler.Heartbeat
--   (_heartbeat_scan), Scheduler.Scan (_managed_schedule_scan).
-- Lifecycle: backend/app/services/managed_agent_lifecycle.py.
-- Managed: backend/app/routers/managed.py: runs that are sent to a device or repeated (Managed), the
--   rule of a schedule (Managed.Rules), the handlers of schedules (Managed.Schedules) and a run at
--   once (Managed.RunNow); Managed.Constraint has the constraints of the table of schedules.
-- History: the steps of the table of runs, one for each transaction above that writes it.
-- Users: backend/app/routers/users.py.
-- Agents: backend/app/routers/agents.py: registration and heartbeats, and the next run of an agent (Agents.Next).
-- Client: client/update/state.py (Client.Updates), the states of a client's update, and the upload of a log in
--   client/agent/main.py (Client.LogUpload), which meets the server's append_run_log_chunk, checks included.
-- Tests: concrete requests and databases.
--
-- A handler is a function from the database to a reply and the database. Where another request may
-- commit between a handler's reads and its write, it takes two databases: `seen`, which it read, and
-- `db`, which its write meets. Instants are microseconds since the epoch as natural numbers; Python's
-- integers are not bounded and neither are these. All loops are over lists, so no fuel is used.
--
-- Parameters stand for code that is not in the repository: the JWT library (Auth.Decode), the JSON
-- library (Dispatch.Json), Python's numbers (Contract.Params.Values), croniter and zoneinfo
-- (Scheduler.Cursor.CronNext, Managed.Rules.Clock), the hash of passwords (Users), uuid5 (Agents),
-- Python's UTF-8 decoder (Client.LogUpload.Utf8) and SHA-256 (the digest of Lifecycle).
--
-- Not modelled: the texts of audit details; reading and streaming of logs; log archives; the batches
-- and device groups of managed.py and the other routers; the lists of users, groups and agents; release
-- caches; the rest of the client; the frontend; migrations and release scripts.
pub mod Prelude
pub mod Store
pub mod Auth
pub mod Contract
pub mod Access
pub mod Agents
pub mod Groups
pub mod History
pub mod Managed
pub mod Users
pub mod Dispatch
pub mod Runs
pub mod Scheduler
pub mod Lifecycle
pub mod Client
pub mod Tests
