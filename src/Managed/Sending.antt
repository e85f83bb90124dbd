-- ===== src/Managed/Sending.antt =====
-- backend/app/routers/managed.py, dispatch_managed_run: who may send a run to a device, and what is sent.
use auto_script_hub.Prelude.{
  ℕ, true, false, Option, none, some, [], ◌∷◌, ◌++◌, ◌+◌, ◌*◌, Memᴰ, ◌≡◌, ◌≢◌, ◌∙◌, ◌⊎◌, inl, inr,
  refl, sym, ap, arith, subst, Reply, ok, http, expect, >>=-eq-ok, expect-eq-ok, require-eq-ok,
  first, first-some, first-none, is_none, opt_is, All, All-map, ==_refl, Bool-cases,
}
use auto_script_hub.Store.{
  second, Db, Agent, User, Run, Script, is_admin, is_active, is_managed, is_running, pending,
  managed_manual,
}
use auto_script_hub.Lifecycle.{runs_on}
use auto_script_hub.Contract.Params.{Values}
use auto_script_hub.Dispatch.{Json, create_validated_run}
use auto_script_hub.Dispatch.Laws.{create_validated_run-Inserted}
use auto_script_hub.Dispatch.Accepted.{IsUsable, IsOwn, AreAccepted, Inserted-Created}
use auto_script_hub.Scheduler.Scan.{is_owner}
use auto_script_hub.Managed.{
  is_managed_agent, managed_agent_or_404, owner_or_409, nothing_runs, ManagedRunCreate,
  dispatch_checks, manual_order, dispatched, dispatch_managed_run,
}
use auto_script_hub.Managed.Laws.{noted-runs, noted-reply, none_of}

-- A run that is not running, is deleted, or is on another device.
abbrev pub IsElsewhere : ℕ → Run → Type 0
IsElsewhere id r =
    (is_running r.status ≡ false)
    ⊎ ((r.is_deleted ≡ true) ⊎ ((r.target_agent_id ≢ some id) × (r.agent_id ≢ some id)))

-- What a device must be for work to be sent to it: in the table, managed, enabled, not deleted, with an owner who is
-- in the table, active and not deleted, and with nothing that runs on it.
pub record IsReady (db : Db) (agent_id : ℕ) (agent : Agent) (owner : User) : Type 0 where
  pub stored : Memᴰ agent db.agents
  pub named : agent.id ≡ agent_id
  pub managed : is_managed agent.mode ≡ true
  pub enabled : agent.enabled ≡ true
  pub kept : agent.is_deleted ≡ false
  pub owner_stored : Memᴰ owner db.users
  pub owns : owner.id ≡ agent.user_id
  pub owner_active : is_active owner.status ≡ true
  pub owner_kept : owner.is_deleted ≡ false
  pub idle : All (IsElsewhere agent.id) db.runs

opt_is-not : (o : Option ℕ) (n : ℕ) → opt_is o n ≡ false → o ≢ some n
opt_is-not o n h e =
    let both : opt_is (some n) n ≡ false = subst (λ (x : Option ℕ). opt_is x n ≡ false) e h in
    let same = ==_refl n in cc

elsewhere : (id : ℕ) (r : Run) → runs_on id r ≡ false → IsElsewhere id r
elsewhere id r h = elim (Bool-cases (is_running r.status)) [
  | inr e ↦ inl e
  | inl e ↦ inr (elim (Bool-cases r.is_deleted) [
    | inl d ↦ inl d
    | inr d ↦
        inr
          (opt_is-not r.target_agent_id id (ground arith), opt_is-not r.agent_id id (ground arith))
  ])
]

ready :
    (db : Db) (agent_id : ℕ) (agent : Agent) (owner : User)
    → first (is_managed_agent agent_id true) db.agents ≡ some agent
    → first (is_owner agent.user_id) db.users ≡ some owner
    → is_none (first (runs_on agent.id) db.runs) ≡ true
    → IsReady db agent_id agent owner
ready db agent_id agent owner found owned idle =
    let (fits, stored) = first-some (is_managed_agent agent_id true) db.agents found in
    let (owns, owner_stored) = first-some (is_owner agent.user_id) db.users owned in
    record {
      stored = stored;
      named = ground arith;
      managed = ground arith;
      enabled = ground arith;
      kept = ground arith;
      owner_stored = owner_stored;
      owns = ground arith;
      owner_active = ground arith;
      owner_kept = ground arith;
      idle =
          All-map (λ r. runs_on agent.id r ≡ false) (IsElsewhere agent.id) db.runs
            (λ r e. elsewhere agent.id r e)
            (first-none (runs_on agent.id) db.runs (none_of _ idle));
    }

module _ (V : Values) (json : Json V) where
  dispatch_checks-ok :
      (db : Db) (agent_id : ℕ) (actor : User) {a : Agent} {u : User}
      → dispatch_checks V json db agent_id actor ≡ ok (a, u)
      → IsReady db agent_id a u × (is_admin actor.role ≡ true)
  unfolding dispatch_checks managed_agent_or_404 owner_or_409 nothing_runs
  dispatch_checks-ok db agent_id actor {a} {u} h =
      let (isadmin, h1) = require-eq-ok (is_admin actor.role) 403 _ _ h in
      let (a1, e1, h2) =
        >>=-eq-ok (expect (first (is_managed_agent agent_id true) db.agents) 404 _) _ h1 in
      let (u1, e2, h3) = >>=-eq-ok (expect (first (is_owner a1.user_id) db.users) 409 _) _ h2 in
      let (idle, h4) = require-eq-ok (is_none (first (runs_on a1.id) db.runs)) 409 _ _ h3 in
      let sa : a1 ≡ a = cc in
      let su : u1 ≡ u = cc in
      (
        subst (λ x. IsReady db agent_id x u) sa
            (subst (λ y. IsReady db agent_id a1 y) su
              (ready db agent_id a1 u1
                (expect-eq-ok (first (is_managed_agent agent_id true) db.agents) 404 _ e1)
                (expect-eq-ok (first (is_owner a1.user_id) db.users) 409 _ e2) idle)),
        isadmin,
      )

  -- What a dispatch that succeeds has read, and the run that it adds to the table.
  pub record Sent (agent_id : ℕ) (q : ManagedRunCreate V json) (actor : User) (now : ℕ)
      (seen before after : Db) (r : Run) : Type 0 where
    pub agent : Agent
    pub owner : User
    pub script : Script
    pub by_admin : is_admin actor.role ≡ true
    pub ready_for : IsReady seen agent_id agent owner
    pub usable_script : IsUsable before owner q.script_id script
    pub own_environment : IsOwn before owner q.environment_id
    pub accepted : AreAccepted V json script.config_json q.params
    pub owners : r.user_id ≡ owner.id
    pub waits : r.status ≡ pending
    pub for_device : r.target_agent_id ≡ some agent_id
    pub unclaimed : r.agent_id ≡ none
    pub asked_by : r.requested_by ≡ some actor.id
    pub by_hand : (r.dispatch_type ≡ managed_manual) × (r.schedule_id ≡ none)
    pub of_script : r.script_id ≡ q.script_id
    pub with_params : r.params ≡ some (json.dump_values q.params)
    pub in_environment : r.environment_id ≡ q.environment_id
    pub from_now : r.scheduled_for ≡ some now
    pub until : r.expires_at ≡ some (now + q.expires_in_seconds * second)
    pub added : after.runs ≡ before.runs ++ r ∷ []

  dispatched-ok :
      (agent_id : ℕ) (q : ManagedRunCreate V json) (actor : User) (now : ℕ) (seen db : Db)
      (c : Reply (Agent × User)) (r : Run)
      → dispatch_checks V json seen agent_id actor ≡ c
      → (dispatched V json q actor now db c).0 ≡ ok r
      → Sent agent_id q actor now seen db (dispatched V json q actor now db c).1 r
  unfolding dispatched
  dispatched-ok agent_id q actor now seen db (http s d) r e h = cc
  dispatched-ok agent_id q actor now seen db (ok (a, u)) r e h =
      let o = manual_order V json q a actor now in
      let x = create_validated_run V json u o now db in
      let (is_ready, isadmin) = dispatch_checks-ok seen agent_id actor e in
      let done : x.0 ≡ ok r = sym (noted-reply actor "managed_run.dispatch" now x) ∙ h in
      let c =
        Inserted-Created V json u o now db x.1 r
          (create_validated_run-Inserted V json u o now db r done) in
      record {
        agent = a;
        owner = u;
        script = c.script;
        by_admin = isadmin;
        ready_for = is_ready;
        usable_script = c.usable_script;
        own_environment = c.own_environment;
        accepted = c.accepted;
        owners = c.ordered.its_user;
        waits = c.ordered.waits;
        for_device = c.ordered.its_target ∙ ap (λ (n : ℕ). some n) is_ready.named;
        unclaimed = c.ordered.unclaimed.0;
        asked_by = c.ordered.its_asker;
        by_hand = (c.ordered.its_dispatch, c.ordered.its_schedule);
        of_script = c.ordered.its_script ∙ c.usable_script.named;
        with_params = c.ordered.its_params;
        in_environment = c.ordered.its_environment;
        from_now = c.ordered.its_time;
        until = c.ordered.its_expiry;
        added = noted-runs actor "managed_run.dispatch" now x ∙ c.added;
      }

  -- A run is sent to a device only by an admin, and only to a device that was read as managed, enabled, not deleted
  -- and with nothing running on it, and whose owner was read as active; one row is added, which is the owner's, pending,
  -- unclaimed, for that device and asked for by the admin, with the script, parameters and environment of the request
  -- and an expiry that many seconds from now; the script was usable for the owner, the environment the owner's, and
  -- the parameters accepted when the row was added.
  pub dispatch_managed_run-ok :
      (agent_id : ℕ) (q : ManagedRunCreate V json) (actor : User) (now : ℕ) (seen db : Db) (r : Run)
      → (dispatch_managed_run V json agent_id q actor now seen db).0 ≡ ok r
      → Sent agent_id q actor now seen db
          (dispatch_managed_run V json agent_id q actor now seen db).1
          r
  unfolding dispatch_managed_run
  dispatch_managed_run-ok agent_id q actor now seen db r h =
      dispatched-ok agent_id q actor now seen db (dispatch_checks V json seen agent_id actor) r refl
        h
