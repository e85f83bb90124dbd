-- ===== src/Runs/Claim/Laws.antt =====
-- backend/app/routers/runs.py, claim_run: what a claim does to the table of runs.
use auto_script_hub.Prelude.{
  ℕ, String, true, false, Option, some, Reply, ok, http, first, is_some, ◌≡◌, ◌≢◌, refl, ◌∙◌, arith,
  Option-cases, inl, inr, >>=-eq-ok, expect, expect-eq-ok, first-some, subst, ap, sym, some-inj,
}
use auto_script_hub.Store.{Db, User, Agent, Run, run_at, IsSound, pending-running, pending-expired}
use auto_script_hub.Store.Evolution.{Keeps, Follows, Follows-refl}
use auto_script_hub.Store.Writes.{
  guarded_update, guarded_update-some, guarded_update-IsSound, guarded_update-hit, written_row,
  Follows-guarded_update,
}
use auto_script_hub.Auth.{Decode, verify_agent_token}
use auto_script_hub.Runs.Claim.{
  ClaimRequest, Plan, lapse, take_for, expirable, expire, is_open_to, assign, expire_run, take_run,
  carry_out, claim_run, claim_plan, refusal, callers_agent, callers_run, claim_checks,
}

Keeps-assign :
    (user_id agent_id now : ℕ) (r : Run)
    → is_open_to user_id agent_id now r ≡ true
    → Keeps r (assign agent_id now r)
Keeps-assign user_id agent_id now r h = record {
  same_id = refl;
  same_script = refl;
  same_user = refl;
  same_target = refl;
  same_expiry = refl;
  moved = pending-running r.status (ground arith);
  claimed_once = λ c. ground arith;
}

Keeps-expire : (now : ℕ) (r : Run) → expirable r ≡ true → Keeps r (expire now r)
Keeps-expire now r h = record {
  same_id = refl;
  same_script = refl;
  same_user = refl;
  same_target = refl;
  same_expiry = refl;
  moved = pending-expired r.status (ground arith);
  claimed_once = λ c. refl;
}

pub Follows-expire_run :
    (run_id now : ℕ) (db : Db) → Follows db.runs (expire_run run_id now db).runs
unfolding expire_run
Follows-expire_run run_id now db =
    elim (Option-cases (guarded_update run_id expirable (expire now) db)) [
      | inl e ↦ rw e (Follows-refl db.runs)
      | inr (db', e) ↦
          rw e (
            Follows-guarded_update run_id expirable (expire now) db (λ r. refl) (Keeps-expire now)
              e)
    ]

Follows-take_run :
    (run_id : ℕ) (user : User) (agent : Agent) (now : ℕ) (db : Db)
    → Follows db.runs (take_run run_id user agent now db).1.runs
unfolding take_run
Follows-take_run run_id user agent now db =
    elim (Option-cases
      (guarded_update run_id (is_open_to user.id agent.id now) (assign agent.id now) db)) [
        | inl e ↦ rw e (Follows-refl db.runs)
        | inr (db', e) ↦
            rw e (
              Follows-guarded_update run_id _ _ db (λ r. refl) (Keeps-assign user.id agent.id now)
                e)
      ]

Follows-carry_out :
    (run_id : ℕ) (user : User) (now : ℕ) (p : Reply Plan) (db : Db)
    → Follows db.runs (carry_out run_id user now p db).1.runs
unfolding carry_out
Follows-carry_out run_id user now (http c d) db = Follows-refl db.runs
Follows-carry_out run_id user now (ok lapse) db = Follows-expire_run run_id now db
Follows-carry_out run_id user now (ok (take_for agent)) db =
    Follows-take_run run_id user agent now db

-- Whatever was read first, a claim moves runs only along the diagram.
pub Follows-claim_run :
    (decode : Decode) (q : ClaimRequest) (seen db : Db)
    → Follows db.runs (claim_run decode q seen db).1.runs
unfolding claim_run
Follows-claim_run decode q seen db =
    Follows-carry_out q.run_id q.user q.now
      (claim_plan decode q.run_id q.agent_id q.user q.token q.now seen) db

expire_run-IsSound : (run_id now : ℕ) (db : Db) → IsSound db → IsSound (expire_run run_id now db)
unfolding expire_run
expire_run-IsSound run_id now db s =
    elim (Option-cases (guarded_update run_id expirable (expire now) db)) [
      | inl e ↦ rw e s
      | inr (db', e) ↦ rw e (guarded_update-IsSound run_id _ _ db s (λ r. refl) e)
    ]

take_run-IsSound :
    (run_id : ℕ) (user : User) (agent : Agent) (now : ℕ) (db : Db)
    → IsSound db
    → IsSound (take_run run_id user agent now db).1
unfolding take_run
take_run-IsSound run_id user agent now db s =
    elim (Option-cases
      (guarded_update run_id (is_open_to user.id agent.id now) (assign agent.id now) db)) [
        | inl e ↦ rw e s
        | inr (db', e) ↦ rw e (guarded_update-IsSound run_id _ _ db s (λ r. refl) e)
      ]

carry_out-IsSound :
    (run_id : ℕ) (user : User) (now : ℕ) (p : Reply Plan) (db : Db)
    → IsSound db
    → IsSound (carry_out run_id user now p db).1
unfolding carry_out
carry_out-IsSound run_id user now (http c d) db s = s
carry_out-IsSound run_id user now (ok lapse) db s = expire_run-IsSound run_id now db s
carry_out-IsSound run_id user now (ok (take_for agent)) db s =
    take_run-IsSound run_id user agent now db s

pub claim_run-IsSound :
    (decode : Decode) (q : ClaimRequest) (seen db : Db)
    → IsSound db
    → IsSound (claim_run decode q seen db).1
unfolding claim_run
claim_run-IsSound decode q seen db s =
    carry_out-IsSound q.run_id q.user q.now
      (claim_plan decode q.run_id q.agent_id q.user q.token q.now seen) db s

-- The row that a claim may take, and what it becomes.
pub record Takes (run_id user_id agent_id now : ℕ) (before after : Db) (r : Run) : Type 0 where
  pub row : Run
  pub was_there : run_at run_id before.runs ≡ some row
  pub was_open : is_open_to user_id agent_id now row ≡ true
  pub returned : r ≡ assign agent_id now row
  pub is_there : run_at run_id after.runs ≡ some r

refusal-not_ok : (run_id : ℕ) (user : User) (db : Db) {r : Run} → refusal run_id user db ≢ ok r
unfolding refusal
refusal-not_ok run_id user db h = ground arith

take_run-ok :
    (run_id : ℕ) (user : User) (agent : Agent) (now : ℕ) (db : Db) (r : Run)
    → IsSound db
    → (take_run run_id user agent now db).0 ≡ ok r
    → Takes run_id user.id agent.id now db (take_run run_id user agent now db).1 r
unfolding take_run
take_run-ok run_id user agent now db r s h =
    elim (Option-cases
      (guarded_update run_id (is_open_to user.id agent.id now) (assign agent.id now) db)) [
        | inl e ↦ absurd (refusal-not_ok run_id user db (rw e at h))
        | inr (db', e) ↦
            let w = guarded_update-some run_id _ _ db s (λ x. refl) e in
            let got : expect (run_at run_id db'.runs) 500 "Internal Server Error" ≡ ok r =
              rw e at h in
            let there = expect-eq-ok (run_at run_id db'.runs) 500 "Internal Server Error" got in
            rw e (record {
              row = w.row;
              was_there = w.was_there;
              was_open = w.passed;
              returned = some-inj (sym there ∙ w.is_there);
              is_there = there;
            })
      ]

claim_checks-agent :
    (agent : Agent) (now : ℕ) (candidate : Run) (b : Agent)
    → claim_checks agent now candidate ≡ ok (take_for b)
    → b ≡ agent
unfolding claim_checks
claim_checks-agent agent now candidate b h = ground arith

-- What the agent of a claim that goes on has shown.
pub record Speaks (decode : Decode) (agent_id user_id : ℕ) (token : Option String) (seen : Db)
    (agent : Agent) : Type 0 where
  pub registered : first (callers_agent agent_id user_id) seen.agents ≡ some agent
  pub verified : verify_agent_token decode token agent false ≡ ok tt

claim_plan-agent :
    (decode : Decode) (run_id agent_id : ℕ) (user : User) (token : Option String) (now : ℕ)
    (seen : Db) (agent : Agent)
    → claim_plan decode run_id agent_id user token now seen ≡ ok (take_for agent)
    → Speaks decode agent_id user.id token seen agent
unfolding claim_plan
claim_plan-agent decode run_id agent_id user token now seen agent h =
    let (a, found, rest) =
      >>=-eq-ok (expect (first (callers_agent agent_id user.id) seen.agents) 400 _) _ h in
    let (u, good, more) = >>=-eq-ok (verify_agent_token decode token a false) _ rest in
    let (c, candidate, checks) =
      >>=-eq-ok (expect (first (callers_run run_id user.id) seen.runs) 404 _) _ more in
    let same = claim_checks-agent a now c agent checks in
    rw same (record {
      registered = expect-eq-ok (first (callers_agent agent_id user.id) seen.agents) 400 _ found;
      verified = good;
    })

-- The id of the agent that a query found is the id that the request named.
callers_agent-id :
    (agent_id user_id : ℕ) (a : Agent) → callers_agent agent_id user_id a ≡ true → a.id ≡ agent_id
callers_agent-id agent_id user_id a h = ground arith

pub record Claimed (decode : Decode) (q : ClaimRequest) (seen before after : Db) (r : Run)
    : Type 0 where
  pub agent : Agent
  pub speaks : Speaks decode q.agent_id q.user.id q.token seen agent
  pub takes : Takes q.run_id q.user.id q.agent_id q.now before after r

carry_out-ok :
    (decode : Decode) (q : ClaimRequest) (seen db : Db) (r : Run) (p : Reply Plan)
    → claim_plan decode q.run_id q.agent_id q.user q.token q.now seen ≡ p
    → IsSound db
    → (carry_out q.run_id q.user q.now p db).0 ≡ ok r
    → Claimed decode q seen db (carry_out q.run_id q.user q.now p db).1 r
unfolding carry_out
carry_out-ok decode q seen db r (http c d) e s h = cc
carry_out-ok decode q seen db r (ok lapse) e s h = cc
carry_out-ok decode q seen db r (ok (take_for agent)) e s h =
    let speaks = claim_plan-agent decode q.run_id q.agent_id q.user q.token q.now seen agent e in
    let named = first-some (callers_agent q.agent_id q.user.id) seen.agents speaks.registered in
    let same = callers_agent-id q.agent_id q.user.id agent named.0 in
    record {
      agent = agent;
      speaks = speaks;
      takes =
          subst
            (λ i. Takes q.run_id q.user.id i q.now db (take_run q.run_id q.user agent q.now db).1 r)
            same (take_run-ok q.run_id q.user agent q.now db r s h);
    }

-- A claim that succeeds on a table whose rows have their own ids, whatever happened between its reads
-- and its UPDATE: the agent is the
-- caller's, enabled and verified; the row was pending, unclaimed, due, not expired and open to that
-- agent when it was written; and it is now running in that agent's name.
pub claim_run-ok :
    (decode : Decode) (q : ClaimRequest) (seen db : Db) (r : Run)
    → IsSound db
    → (claim_run decode q seen db).0 ≡ ok r
    → Claimed decode q seen db (claim_run decode q seen db).1 r
unfolding claim_run
claim_run-ok decode q seen db r s h = carry_out-ok decode q seen db r _ refl s h

taken-not-open :
    (user_id agent_id now : ℕ) (q : Run)
    → is_some q.agent_id ≡ true
    → is_open_to user_id agent_id now q ≢ true
taken-not-open user_id agent_id now q h o = ground arith

-- Once a claim has succeeded, no later claim of that run does, by whichever agent, user or token,
-- whatever it read first and whatever was committed in between along the diagram of statuses, where
-- the rows of the table have their own ids.
pub claim_once :
    (decode : Decode) (q q' : ClaimRequest) (seen db seen' db' : Db) (r r' : Run)
    → IsSound db
    → IsSound db'
    → (claim_run decode q seen db).0 ≡ ok r
    → Follows (claim_run decode q seen db).1.runs db'.runs
    → q'.run_id ≡ q.run_id
    → (claim_run decode q' seen' db').0 ≢ ok r'
claim_once decode q q' seen db seen' db' r r' s s' h f one h' =
    let c = claim_run-ok decode q seen db r s h in
    let c' = claim_run-ok decode q' seen' db' r' s' h' in
    let (x, there, kept) = f.at q.run_id r c.takes.is_there in
    let owned : r.agent_id ≡ some q.agent_id = ap (λ (y : Run). y.agent_id) c.takes.returned in
    let found : run_at q.run_id db'.runs ≡ some c'.takes.row =
      subst (λ i. run_at i db'.runs ≡ some c'.takes.row) one c'.takes.was_there in
    let same : x ≡ c'.takes.row = some-inj (sym there ∙ found) in
    let still : is_some x.agent_id ≡ true = rw (kept.claimed_once (rw owned), owned) in
    taken-not-open q'.user.id q'.agent_id q'.now x still (rw same c'.takes.was_open)

-- A claim goes through for an agent of the caller that is enabled and verified, where the row passes the
-- checks of the plan and those of the UPDATE.
pub claim_run-hit :
    (decode : Decode) (q : ClaimRequest) (agent : Agent) (r : Run) (db : Db)
    → IsSound db
    → Speaks decode q.agent_id q.user.id q.token db agent
    → first (callers_run q.run_id q.user.id) db.runs ≡ some r
    → claim_checks agent q.now r ≡ ok (take_for agent)
    → run_at q.run_id db.runs ≡ some r
    → is_open_to q.user.id agent.id q.now r ≡ true
    → (claim_run decode q db db).0 ≡ ok (assign agent.id q.now r)
unfolding claim_run claim_plan carry_out take_run
claim_run-hit decode q agent r db s speaks found checks there open_row =
    rw
      (
        speaks.registered,
        speaks.verified,
        found,
        checks,
        guarded_update-hit q.run_id (is_open_to q.user.id agent.id q.now) (assign agent.id q.now) db
            s there open_row,
      )
      (taken_row _ (
        written_row q.run_id (is_open_to q.user.id agent.id q.now) (assign agent.id q.now) db s
          there (λ x. refl) open_row))
  where
    taken_row :
        (o : Option Run) {x : Run} → o ≡ some x → expect o 500 "Internal Server Error" ≡ ok x
    taken_row o e = rw e
