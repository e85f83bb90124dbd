-- ===== src/Runs/Finish/Report.antt =====
-- backend/app/routers/runs.py, update_run_status: who may report the end of a run, and what the row is after it, column
-- by column.
use mathlib.Core.Option
use auto_script_hub.Prelude.{
  ℕ, ℤ, Bool, true, false, Option, none, some, List, Memᴰ, ◌≡◌, ◌∙◌, ◌⊎◌, inl, inr, refl, ap, arith,
  ok, expect, >>=-eq-ok, expect-eq-ok, require-eq-ok, first, first-some, first-update_where,
  update_where, touch, opt_is, or_else, seconds_between, is_ok, Bool-cases, ◌&&◌, ◌==◌,
}
use auto_script_hub.Store.{Db, Agent, Run, IsSound, is_running, run_key, run_at, success, failed}
use auto_script_hub.Auth.{Decode, verify_agent_token}
use auto_script_hub.Runs.Finish.{
  Outcome, succeeded, broke, outcome_status, FinishRequest, visible_run, owning_agent, finishable,
  finish, finish_plan, update_run_status,
}
use auto_script_hub.Runs.Finish.Laws.{Finished, update_run_status-Finished}

-- Who reports: a run of the caller, and the caller's agent that claimed it, with a device token that passes.
pub record IsReporter (decode : Decode) (q : FinishRequest) (seen : Db) (read : Run) (agent : Agent)
    : Type 0 where
  pub stored : Memᴰ read seen.runs
  pub named : read.id ≡ q.run_id
  pub kept : read.is_deleted ≡ false
  pub callers : read.user_id ≡ q.user.id
  pub claimed : read.agent_id ≡ some agent.id
  pub reports : q.agent_id ≡ some agent.id
  pub agent_stored : Memᴰ agent seen.agents
  pub agent_kept : agent.is_deleted ≡ false
  pub callers_agent : agent.user_id ≡ q.user.id
  pub verified : verify_agent_token decode q.token agent false ≡ ok tt

opt_is-some : (o : Option ℕ) (n : ℕ) → opt_is o n ≡ true → o ≡ some n
opt_is-some none n h = cc
opt_is-some (some m) n h = let same : m ≡ n = ground arith in ap (λ (x : ℕ). some x) same

reporter :
    (decode : Decode) (q : FinishRequest) (seen : Db) (run : Run) (agent_id : ℕ) (agent : Agent)
    → first (visible_run q.run_id) seen.runs ≡ some run
    → run.user_id ≡ q.user.id
    → run.agent_id ≡ some agent_id
    → opt_is q.agent_id agent_id ≡ true
    → first (owning_agent agent_id run.user_id) seen.agents ≡ some agent
    → verify_agent_token decode q.token agent false ≡ ok tt
    → IsReporter decode q seen run agent
reporter decode q seen run agent_id agent found own claimed reports registered verified =
    let (k, stored) = first-some (visible_run q.run_id) seen.runs found in
    let (a, agent_stored) = first-some (owning_agent agent_id run.user_id) seen.agents registered in
    let same : agent_id ≡ agent.id = ground arith in
    record {
      stored = stored;
      named = ground arith;
      kept = ground arith;
      callers = own;
      claimed = claimed ∙ ap (λ (n : ℕ). some n) same;
      reports = opt_is-some q.agent_id agent_id reports ∙ ap (λ (n : ℕ). some n) same;
      agent_stored = agent_stored;
      agent_kept = ground arith;
      callers_agent = ground arith;
      verified = verified;
    }

-- A plan that is made was made for such a caller, and took the duration from the run that was read.
planned :
    (decode : Decode) (q : FinishRequest) (seen : Db) (took : Option ℤ)
    → finish_plan decode q seen ≡ ok took
    → (read : Run) × (agent : Agent) × IsReporter decode q seen read agent
      × (took ≡ Option.map (λ started. seconds_between started q.now) read.started_at)
unfolding finish_plan
planned decode q seen took h =
    let (run, found, h1) = >>=-eq-ok (expect (first (visible_run q.run_id) seen.runs) 404 _) _ h in
    let (own, h2) = require-eq-ok (run.user_id == q.user.id) 403 _ _ h1 in
    let (agent_id, claimed, h3) = >>=-eq-ok (expect run.agent_id 403 _) _ h2 in
    let (reports, h4) = require-eq-ok (opt_is q.agent_id agent_id) 403 _ _ h3 in
    let (agent, registered, h5) =
      >>=-eq-ok (expect (first (owning_agent agent_id run.user_id) seen.agents) 400 _) _ h4 in
    let (u, verified, h6) = >>=-eq-ok (verify_agent_token decode q.token agent false) _ h5 in
    (
      run,
      agent,
      reporter decode q seen run agent_id agent
          (expect-eq-ok (first (visible_run q.run_id) seen.runs) 404 _ found) (ground arith)
          (expect-eq-ok run.agent_id 403 _ claimed) reports
          (expect-eq-ok (first (owning_agent agent_id run.user_id) seen.agents) 400 _ registered)
          verified,
      cc,
    )

-- What a report that is accepted leaves behind: the row of the run as it was met and as it is now.
pub record Reported (decode : Decode) (q : FinishRequest) (seen before after : Db) : Type 0 where
  pub read : Run
  pub agent : Agent
  pub by : IsReporter decode q seen read agent
  pub row : Run
  pub was_there : run_at q.run_id before.runs ≡ some row
  pub was_running : is_running row.status ≡ true
  pub was_callers : row.user_id ≡ q.user.id
  pub was_claimed : row.agent_id ≡ some agent.id
  pub was_kept : row.is_deleted ≡ false
  pub ended : Run
  pub is_there : run_at q.run_id after.runs ≡ some ended
  pub ended_as :
      ((q.outcome ≡ succeeded) × (ended.status ≡ success))
      ⊎ ((q.outcome ≡ broke) × (ended.status ≡ failed))
  pub columns : ended ≡ record row {
    status = ended.status;
    finished_at = some q.now;
    duration_sec =
        or_else
          (Option.map (λ started. seconds_between started q.now) read.started_at)
          row.duration_sec;
    error_msg = or_else q.error_msg row.error_msg;
    result_files = or_else q.result_files row.result_files;
    updated_at = q.now;
  }
  pub others : (k : ℕ) → (k ≡ q.run_id) ⊎ (run_at k after.runs ≡ run_at k before.runs)
  pub rest : after ≡ record before { runs = after.runs }

outcome-cases :
    (o : Outcome)
    → ((o ≡ succeeded) × (outcome_status o ≡ success)) ⊎ ((o ≡ broke) × (outcome_status o ≡ failed))
outcome-cases succeeded = inl (refl, refl)
outcome-cases broke = inr (refl, refl)

other_rows :
    (i k : ℕ) (p : Run → Bool) (f : Run → Run) (rs : List Run)
    → ((r : Run) → (f r).id ≡ r.id)
    → (k ≡ i) ⊎ (run_at k (update_where (λ r. r.id == i && p r) f rs) ≡ run_at k rs)
other_rows i k p f rs same = elim (Bool-cases (k == i)) [
  | inl e ↦ inl (ground arith)
  | inr e ↦ inr (
      first-update_where (run_key k) (λ r. r.id == i && p r) f rs (λ x. rw (same x))
      ∙ untouched (run_at k rs) refl e)
]
  where
    untouched :
        (o : Option Run)
        → run_at k rs ≡ o
        → (k == i) ≡ false
        → Option.map (touch (λ r. r.id == i && p r) f) o ≡ o
    untouched none e n = refl
    untouched (some x) e n =
        let here = first-some (run_key k) rs e in
        let away : (x.id == i) ≡ false = ground arith in rw away refl

same_claimer :
    (q : FinishRequest) (row : Run) (n : ℕ)
    → finishable q row ≡ true
    → q.agent_id ≡ some n
    → row.agent_id ≡ some n
same_claimer q row n h e = by_agent row.agent_id refl
  where
    by_agent : (o : Option ℕ) → row.agent_id ≡ o → row.agent_id ≡ some n
    by_agent none c = absurd (ground arith)
    by_agent (some m) c = let same : m ≡ n = ground arith in c ∙ ap (λ (x : ℕ). some x) same

Finished-Reported :
    (decode : Decode) (q : FinishRequest) (seen before after : Db)
    → Finished decode q seen before after
    → Reported decode q seen before after
Finished-Reported decode q seen before after f =
    let (read, agent, by, took) = planned decode q seen f.took f.planned in
    let open_row = f.wrote.passed in
    record {
      read = read;
      agent = agent;
      by = by;
      row = f.wrote.row;
      was_there = f.wrote.was_there;
      was_running = ground arith;
      was_callers = ground arith;
      was_claimed = same_claimer q f.wrote.row agent.id open_row by.reports;
      was_kept = ground arith;
      ended = finish q f.took f.wrote.row;
      is_there = f.wrote.is_there;
      ended_as = outcome-cases q.outcome;
      columns = ap (λ (t : Option ℤ). finish q t f.wrote.row) took;
      others = λ k.
          rw f.wrote.written
            (other_rows q.run_id k (finishable q) (finish q f.took) before.runs (λ r. refl));
      rest = rw f.wrote.written refl;
    }

-- A report that is accepted, whatever was committed between its reads and its UPDATE, came from the caller's agent that
-- had claimed the caller's run, with a device token that passes, and met the run's row running, not deleted and claimed
-- by that agent. The row is then ended as reported, finished now, with the duration since the start that was read,
-- and the message and the files of the report, each where there is one, else what was there; no other run and no
-- other table changes. Runs had ids of their own.
pub update_run_status-ok :
    (decode : Decode) (q : FinishRequest) (seen db : Db)
    → IsSound db
    → is_ok (update_run_status decode q seen db).0 ≡ true
    → Reported decode q seen db (update_run_status decode q seen db).1
update_run_status-ok decode q seen db s h =
    Finished-Reported decode q seen db _ (update_run_status-Finished decode q seen db s h)
