-- ===== src/Agents/Offered.antt =====
-- backend/app/routers/agents.py, get_next_run, and backend/app/routers/runs.py, claim_run: what is offered can be
-- claimed, and what can be claimed is offered.
use auto_script_hub.Prelude.{
  ℕ, String, true, false, not, ◌&&◌, Option, none, some, ◌==◌, ◌≡◌, ◌∙◌, refl, sym, ap, arith,
  subst, Reply, ok, http, some-inj, ◌≢◌, order_by-none, expect, >>=-eq-ok, expect-eq-ok, ok-inj,
  first, first-some, first-own, first-key_and, select, order_by, All-mem, All-of_mem, All-select,
  All-order_by, Memᴰ, if◌then◌else◌,
}
use auto_script_hub.Store.{Db, Agent, User, Run, Mode, standard, managed, IsSound, run_at}
use auto_script_hub.Auth.{Decode, verify_agent_token}
use auto_script_hub.Runs.Claim.{
  ClaimRequest, callers_agent, callers_run, claim_checks, Plan, lapse, take_for, claim_plan,
  carry_out, is_open_to, assign, claim_run,
}
use auto_script_hub.Runs.Claim.Laws.{Speaks, claim_run-hit, claim_run-ok}
use auto_script_hub.Agents.Next.{is_offered, comes_first, next_run, get_next_run}

-- What get_next_run has found out about the agent.
get_next_run-ok :
    (decode : Decode) (agent_id : ℕ) (user : User) (token : Option String) (now : ℕ) (db : Db)
    {o : Option Run}
    → get_next_run decode agent_id user token now db ≡ ok o
    → (agent : Agent) × Speaks decode agent_id user.id token db agent
      × (next_run agent user.id now db ≡ o)
unfolding get_next_run
get_next_run-ok decode agent_id user token now db h =
    let (agent, e1, h1) =
      >>=-eq-ok (expect (first (callers_agent agent_id user.id) db.agents) 404 _) _ h in
    let (u, e2, h2) = >>=-eq-ok (verify_agent_token decode token agent false) _ h1 in
    (
      agent,
      record {
        registered = expect-eq-ok (first (callers_agent agent_id user.id) db.agents) 404 _ e1;
        verified = e2;
      },
      ok-inj h2,
    )

-- A run that is offered is a row of the table with the tests of the query.
offered_row :
    (agent : Agent) (user_id now : ℕ) (db : Db) {r : Run}
    → next_run agent user_id now db ≡ some r
    → (is_offered agent user_id now r ≡ true) × Memᴰ r db.runs
unfolding next_run
offered_row agent user_id now db {r} h =
    let m =
      first-some (λ (x : Run). true)
        (order_by comes_first (select (is_offered agent user_id now) db.runs)) h in
    All-mem (λ (x : Run). (is_offered agent user_id now x ≡ true) × Memᴰ x db.runs) m.1
      (All-order_by (λ (x : Run). (is_offered agent user_id now x ≡ true) × Memᴰ x db.runs)
        comes_first _
        (All-select (λ (x : Run). Memᴰ x db.runs)
          (λ (x : Run). (is_offered agent user_id now x ≡ true) × Memᴰ x db.runs)
          (is_offered agent user_id now) db.runs (λ x k e. (e, k))
          (All-of_mem (λ (x : Run). Memᴰ x db.runs) db.runs (λ x k. k))))

offered_checks :
    (agent : Agent) (user_id now : ℕ) (r : Run)
    → is_offered agent user_id now r ≡ true
    → claim_checks agent now r ≡ ok (take_for agent)
unfolding claim_checks
offered_checks agent user_id now r h = by_mode agent.mode refl
  where
    by_mode : (m : Mode) → agent.mode ≡ m → claim_checks agent now r ≡ ok (take_for agent)
    by_mode standard e = ground arith
    by_mode managed e = ground arith

offered_open :
    (agent : Agent) (user_id now : ℕ) (r : Run)
    → is_offered agent user_id now r ≡ true
    → r.agent_id ≡ none
    → is_open_to user_id agent.id now r ≡ true
offered_open agent user_id now r h e = by_mode agent.mode refl
  where
    by_mode : (m : Mode) → agent.mode ≡ m → is_open_to user_id agent.id now r ≡ true
    by_mode standard m = ground arith
    by_mode managed m = ground arith

-- Where rows have ids of their own, a run that nobody has claimed and that is offered to an agent
-- goes to it, if it claims the run on the same database with the same token: the claim succeeds, and
-- the run is then running in its name.
pub get_next_run-claim_run :
    (decode : Decode) (agent_id : ℕ) (user : User) (token : Option String) (now : ℕ) (db : Db)
    (r : Run)
    → IsSound db
    → get_next_run decode agent_id user token now db ≡ ok (some r)
    → r.agent_id ≡ none
    → (claim_run decode
        (record { run_id = r.id; agent_id = agent_id; user = user; token = token; now = now })
        db
        db).0
      ≡ ok (assign agent_id now r)
get_next_run-claim_run decode agent_id user token now db r s h free =
    let (agent, speaks, next) = get_next_run-ok decode agent_id user token now db h in
    let (offered, row) = offered_row agent user.id now db next in
    let there : run_at r.id db.runs ≡ some r =
      first-own (λ (x : Run). x.id) db.runs r s.keyed row in
    let found : first (callers_run r.id user.id) db.runs ≡ some r =
      first-key_and (λ (x : Run). x.id) r.id (λ x. x.user_id == user.id && not x.is_deleted) db.runs
        s.keyed
      ∙ rw there (ap (λ b. if b then some r else none) (mine agent offered)) in
    let named =
      callers_id agent
        (first-some (callers_agent agent_id user.id) db.agents speaks.registered).0 in
    claim_run-hit decode
      (record { run_id = r.id; agent_id = agent_id; user = user; token = token; now = now }) agent r
      db s speaks found (offered_checks agent user.id now r offered) there
      (offered_open agent user.id now r offered free)
    ∙ ap (λ n. ok (assign n now r)) named
  where
    mine :
        (agent : Agent)
        → is_offered agent user.id now r ≡ true
        → (r.user_id == user.id && not r.is_deleted) ≡ true
    mine agent h = ground arith

    callers_id : (agent : Agent) → callers_agent agent_id user.id agent ≡ true → agent.id ≡ agent_id
    callers_id agent h = ground arith

-- What a claim that goes on has read of its run.
record Candidate (decode : Decode) (q : ClaimRequest) (db : Db) : Type 0 where
  agent : Agent
  row : Run
  registered : first (callers_agent q.agent_id q.user.id) db.agents ≡ some agent
  found : first (callers_run q.run_id q.user.id) db.runs ≡ some row
  checked : claim_checks agent q.now row ≡ ok (take_for agent)

checks-same :
    (a b : Agent) (now : ℕ) (c : Run)
    → claim_checks a now c ≡ ok (take_for b)
    → claim_checks a now c ≡ ok (take_for a)
unfolding claim_checks
checks-same a b now c h = ground arith

plan-Candidate :
    (decode : Decode) (q : ClaimRequest) (db : Db) (b : Agent)
    → claim_plan decode q.run_id q.agent_id q.user q.token q.now db ≡ ok (take_for b)
    → Candidate decode q db
unfolding claim_plan
plan-Candidate decode q db b h =
    let (a, found, rest) =
      >>=-eq-ok (expect (first (callers_agent q.agent_id q.user.id) db.agents) 400 _) _ h in
    let (u, good, more) = >>=-eq-ok (verify_agent_token decode q.token a false) _ rest in
    let (c, candidate, checks) =
      >>=-eq-ok (expect (first (callers_run q.run_id q.user.id) db.runs) 404 _) _ more in
    record {
      agent = a;
      row = c;
      registered = expect-eq-ok (first (callers_agent q.agent_id q.user.id) db.agents) 400 _ found;
      found = expect-eq-ok (first (callers_run q.run_id q.user.id) db.runs) 404 _ candidate;
      checked = checks-same a b q.now c checks;
    }

carried-Candidate :
    (decode : Decode) (q : ClaimRequest) (db : Db) (r : Run) (p : Reply Plan)
    → claim_plan decode q.run_id q.agent_id q.user q.token q.now db ≡ p
    → (carry_out q.run_id q.user q.now p db).0 ≡ ok r
    → Candidate decode q db
unfolding carry_out
carried-Candidate decode q db r (http c d) e h = cc
carried-Candidate decode q db r (ok lapse) e h = cc
carried-Candidate decode q db r (ok (take_for b)) e h = plan-Candidate decode q db b e

claim-Candidate :
    (decode : Decode) (q : ClaimRequest) (db : Db) (r : Run)
    → (claim_run decode q db db).0 ≡ ok r
    → Candidate decode q db
unfolding claim_run
claim-Candidate decode q db r h = carried-Candidate decode q db r _ refl h

claimable-offered :
    (agent : Agent) (user_id now : ℕ) (r : Run)
    → claim_checks agent now r ≡ ok (take_for agent)
    → is_open_to user_id agent.id now r ≡ true
    → is_offered agent user_id now r ≡ true
unfolding claim_checks
claimable-offered agent user_id now r h o = by_mode agent.mode refl
  where
    by_mode : (m : Mode) → agent.mode ≡ m → is_offered agent user_id now r ≡ true
    by_mode standard m = ground arith
    by_mode managed m = ground arith

-- Where rows have ids of their own and an agent is told that there is nothing to do, no claim of
-- that agent goes through on the same database at the same instant, whichever run it names.
pub get_next_run-none :
    (decode : Decode) (q : ClaimRequest) (db : Db) (r : Run)
    → IsSound db
    → get_next_run decode q.agent_id q.user q.token q.now db ≡ ok none
    → (claim_run decode q db db).0 ≢ ok r
unfolding next_run
get_next_run-none decode q db r s h claimed =
    let (agent, speaks, nothing) = get_next_run-ok decode q.agent_id q.user q.token q.now db h in
    let c = claim-Candidate decode q db r claimed in
    let w = claim_run-ok decode q db db r s claimed in
    let same : c.agent ≡ agent = some-inj (sym c.registered ∙ speaks.registered) in
    let named =
      callers_id q.user.id agent
        (first-some (callers_agent q.agent_id q.user.id) db.agents speaks.registered).0 in
    let m = first-some (callers_run q.run_id q.user.id) db.runs c.found in
    let own : run_at c.row.id db.runs ≡ some c.row =
      first-own (λ (x : Run). x.id) db.runs c.row s.keyed m.1 in
    let at_id : c.row.id ≡ q.run_id = run_id_of q.run_id q.user.id c.row m.0 in
    let there : run_at q.run_id db.runs ≡ some c.row =
      subst (λ i. run_at i db.runs ≡ some c.row) at_id own in
    let row : w.takes.row ≡ c.row = some-inj (sym w.takes.was_there ∙ there) in
    let open_row : is_open_to q.user.id agent.id q.now c.row ≡ true =
      rw named (subst (λ x. is_open_to q.user.id q.agent_id q.now x ≡ true) row w.takes.was_open) in
    let checks = subst (λ a. claim_checks a q.now c.row ≡ ok (take_for a)) same c.checked in
    let offered = claimable-offered agent q.user.id q.now c.row checks open_row in
    let no =
      All-mem (λ (x : Run). is_offered agent q.user.id q.now x ≡ false) m.1
        (order_by-none (is_offered agent q.user.id q.now) comes_first db.runs nothing) in
    let clash : true ≡ false = sym offered ∙ no in cc
  where
    callers_id :
        (user_id : ℕ) (agent : Agent)
        → callers_agent q.agent_id user_id agent ≡ true
        → agent.id ≡ q.agent_id
    callers_id user_id agent h = ground arith

    run_id_of : (i user_id : ℕ) (x : Run) → callers_run i user_id x ≡ true → x.id ≡ i
    run_id_of i user_id x h = ground arith
