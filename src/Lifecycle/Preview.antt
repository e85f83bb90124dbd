-- ===== src/Lifecycle/Preview.antt =====
-- backend/app/services/managed_agent_lifecycle.py: a confirmed action is the one that was previewed.
use auto_script_hub.Prelude.{
  ℕ, suc, String, Bool, true, false, not, ◌&&◌, ◌||◌, ◌==◌, List, [], ◌∷◌, map, select, order_by,
  length, ltb, opt_is, refl, sym, ap, ok-inj, Bool-cases, inl, inr, some, ◌≡◌, ◌≢◌, ◌∙◌, arith,
  Reply, ok, http, >>=-eq-ok, subst, All-mem, first-some, str_eq_iff,
}
use auto_script_hub.Store.{
  Db, Agent, User, IsSound, Run, Schedule, is_online, is_pending, is_running,
}
use auto_script_hub.Access.{member_of}
use auto_script_hub.Auth.{Decode}
use auto_script_hub.Runs.Claim.{ClaimRequest, claim_run, callers_agent}
use auto_script_hub.Runs.Claim.Laws.{claim_run-ok}
use auto_script_hub.Lifecycle.{
  disable, VersionSource, Impact, RunState, PlanState, run_state, plan_state, pending_of,
  running_of, schedules_of, agent_or_404, version_source, snapshot, preview_agent_impact,
  assert_current_version, disable_checks, carried, disabled, disable_agent,
}
use auto_script_hub.Lifecycle.Effects.{IsIdle}

-- The runs that wait for an agent and those on it, and its schedules, each by what the version looks at.
abbrev pub run_states : (Run → Bool) → Db → List RunState
run_states p db =
    map (λ (r : Run). record { id = r.id; status = r.status; updated_at = r.updated_at })
      (order_by (λ a b. ltb a.id b.id) (select p db.runs))

abbrev pub waiting_states : Db → ℕ → List RunState
waiting_states db id =
    run_states (λ r. opt_is r.target_agent_id id && (is_pending r.status && not r.is_deleted)) db

abbrev pub running_states : Db → ℕ → List RunState
running_states db id =
    run_states
      (λ r.
        (opt_is r.target_agent_id id || opt_is r.agent_id id)
        && (is_running r.status && not r.is_deleted))
      db

abbrev pub plan_states : Db → ℕ → List PlanState
plan_states db id =
    map
      (λ (s : Schedule). record {
        id = s.id;
        enabled = s.enabled;
        is_deleted = s.is_deleted;
        updated_at = s.updated_at;
      })
      (order_by (λ a b. ltb a.id b.id)
        (select (λ s. s.agent_id == id && not s.is_deleted) db.schedules))

-- The numbers of a preview are those of a database.
pub record Counts (impact : Impact) (db : Db) (agent : Agent) : Type 0 where
  pub agent_id : impact.agent_id ≡ agent.id
  pub pending_count : impact.pending_count ≡ length (waiting_states db agent.id)
  pub running_count : impact.running_count ≡ length (running_states db agent.id)
  pub enabled_schedule_count :
      impact.enabled_schedule_count
      ≡ length (select (λ (p : PlanState). p.enabled) (plan_states db agent.id))
  pub paused_schedule_count :
      impact.paused_schedule_count
      ≡ length (select (λ (p : PlanState). not p.enabled) (plan_states db agent.id))
  pub thumbnail_exists : impact.thumbnail_exists ≡ member_of agent.id db.thumbnails

-- What was previewed is what is met.
pub record IsStill (db0 db : Db) (shown agent : Agent) (impact : Impact) : Type 0 where
  pub same_id : shown.id ≡ agent.id
  pub same_enabled : shown.enabled ≡ agent.enabled
  pub same_status : shown.status ≡ agent.status
  pub same_updated_at : shown.updated_at ≡ agent.updated_at
  pub same_thumbnail_time : shown.thumbnail_updated_at ≡ agent.thumbnail_updated_at
  pub same_thumbnail_size : shown.thumbnail_size ≡ agent.thumbnail_size
  pub same_waiting : waiting_states db0 shown.id ≡ waiting_states db agent.id
  pub same_running : running_states db0 shown.id ≡ running_states db agent.id
  pub same_plans : plan_states db0 shown.id ≡ plan_states db agent.id
  pub counts : Counts impact db agent

length-map : {A B : Type 0} (f : A → B) (xs : List A) → length (map f xs) ≡ length xs
length-map f [] = refl
length-map f (x ∷ xs) = ap (λ (n : ℕ). suc n) (length-map f xs)

select-map :
    {A B : Type 0} (f : A → B) (p : B → Bool) (xs : List A)
    → length (select p (map f xs)) ≡ length (select (λ x. p (f x)) xs)
unfolding select
select-map f p [] = refl
select-map f p (x ∷ xs) = elim (Bool-cases (p (f x))) [
  | inl e ↦ rw e (ap (λ (n : ℕ). suc n) (select-map f p xs))
  | inr e ↦ rw e (select-map f p xs)
]

module _ (digest : VersionSource → String) where
  asserted :
      (impact : Impact) (v : String)
      → assert_current_version digest impact (some v) ≡ ok tt
      → v ≡ impact.version
  unfolding assert_current_version
  asserted impact v h = ground (arith, str_eq_iff v impact.version)

  checks_version :
      (db : Db) (id : ℕ) (v : String) (managed_only : Bool) (agent : Agent)
      → disable_checks digest db id (some v) managed_only ≡ ok agent
      → v ≡ digest (version_source db agent disable)
  unfolding disable_checks snapshot
  checks_version db id v managed_only agent h =
      let (a, found, rest) = >>=-eq-ok (agent_or_404 db id managed_only) _ h in
      let (u, current, last) =
        >>=-eq-ok (assert_current_version digest (snapshot digest db a disable) (some v)) _ rest in
      let same : a ≡ agent = cc in
      subst (λ x. v ≡ digest (version_source db x disable)) same
        (asserted (snapshot digest db a disable) v current)

  carried_checks :
      (db : Db) (f : Agent → Db) (r : Reply Agent) {agent : Agent}
      → (carried digest db f r).0 ≡ ok agent
      → r ≡ ok agent
  carried_checks db f (http c d) h = cc
  carried_checks db f (ok a) h = h

  previewed_source :
      (db0 db : Db) (id : ℕ) (actor : User) (managed_only : Bool) (now : ℕ) (impact : Impact)
      (shown agent : Agent)
      → agent_or_404 db0 id managed_only ≡ ok shown
      → preview_agent_impact digest db0 id disable managed_only ≡ ok impact
      → (disable_agent digest db id actor (some impact.version) managed_only now).0 ≡ ok agent
      → (snapshot digest db0 shown disable ≡ impact)
        × (digest (version_source db0 shown disable) ≡ digest (version_source db agent disable))
  unfolding preview_agent_impact snapshot disable_agent
  previewed_source db0 db id actor managed_only now impact shown agent found p h =
      let (a, again, rest) = >>=-eq-ok (agent_or_404 db0 id managed_only) _ p in
      let v = checks_version db id impact.version managed_only agent (
        carried_checks db (λ a. disabled a actor now db)
          (disable_checks digest db id (some impact.version) managed_only) h) in
      let same : a ≡ shown = cc in
      let taken : snapshot digest db0 shown disable ≡ impact =
        subst (λ x. snapshot digest db0 x disable ≡ impact) same (ok-inj rest) in
      (taken, ap (λ (i : Impact). i.version) taken ∙ v)

  still_counted :
      (db0 db : Db) (shown agent : Agent)
      → version_source db0 shown disable ≡ version_source db agent disable
      → Counts (snapshot digest db0 shown disable) db agent
  unfolding version_source snapshot pending_of running_of schedules_of
  still_counted db0 db shown agent e =
      let plans = ap (λ (s : VersionSource). s.schedules) e in
      record {
        agent_id = ap (λ (s : VersionSource). s.agent.id) e;
        pending_count =
            sym (length-map run_state (pending_of db0 shown.id))
            ∙ ap (λ (s : VersionSource). length s.pending) e;
        running_count =
            sym (length-map run_state (running_of db0 shown.id))
            ∙ ap (λ (s : VersionSource). length s.running) e;
        enabled_schedule_count =
            sym (select-map plan_state (λ p. p.enabled) (schedules_of db0 shown.id))
            ∙ ap (λ (s : List PlanState). length (select (λ p. p.enabled) s)) plans;
        paused_schedule_count =
            sym (select-map plan_state (λ p. not p.enabled) (schedules_of db0 shown.id))
            ∙ ap (λ (s : List PlanState). length (select (λ p. not p.enabled) s)) plans;
        thumbnail_exists = ap (λ (s : VersionSource). s.agent.thumbnail_exists) e;
      }

  version_source-IsStill :
      (db0 db : Db) (shown agent : Agent)
      → version_source db0 shown disable ≡ version_source db agent disable
      → Counts (snapshot digest db0 shown disable) db agent
      → IsStill db0 db shown agent (snapshot digest db0 shown disable)
  unfolding version_source pending_of running_of schedules_of
  version_source-IsStill db0 db shown agent e counts = record {
    same_id = ap (λ (s : VersionSource). s.agent.id) e;
    same_enabled = ap (λ (s : VersionSource). s.agent.enabled) e;
    same_status = ap (λ (s : VersionSource). s.agent.status) e;
    same_updated_at = ap (λ (s : VersionSource). s.agent.updated_at) e;
    same_thumbnail_time = ap (λ (s : VersionSource). s.agent.thumbnail_updated_at) e;
    same_thumbnail_size = ap (λ (s : VersionSource). s.agent.thumbnail_size) e;
    same_waiting = ap (λ (s : VersionSource). s.pending) e;
    same_running = ap (λ (s : VersionSource). s.running) e;
    same_plans = ap (λ (s : VersionSource). s.schedules) e;
    counts = counts;
  }

  -- A disable that goes through with the version of an earlier preview meets what was previewed: the agent with the
  -- same id, switch, presence, time of change and thumbnail; the same waiting runs and running runs of the agent, by id,
  -- status and time of change; its same schedules, by id, switch and time of change; and so all the numbers that the
  -- preview has shown are those of the database that is written. The name of the machine, which the preview shows
  -- too, is not covered. The digest is taken not to give one value to these two states if they differ.
  pub disable-previewed :
      (db0 db : Db) (id : ℕ) (actor : User) (managed_only : Bool) (now : ℕ) (impact : Impact)
      (shown agent : Agent)
      → (digest (version_source db0 shown disable) ≡ digest (version_source db agent disable)
          → version_source db0 shown disable ≡ version_source db agent disable)
      → agent_or_404 db0 id managed_only ≡ ok shown
      → preview_agent_impact digest db0 id disable managed_only ≡ ok impact
      → (disable_agent digest db id actor (some impact.version) managed_only now).0 ≡ ok agent
      → IsStill db0 db shown agent impact
  disable-previewed db0 db id actor managed_only now impact shown agent apart found p h =
      let (taken, version) =
        previewed_source db0 db id actor managed_only now impact shown agent found p h in
      let e = apart version in
      subst (IsStill db0 db shown agent) taken
        (version_source-IsStill db0 db shown agent e (still_counted db0 db shown agent e))

-- No claim that reads the database of an idle agent goes through for it.
pub claim-IsIdle :
    (decode : Decode) (q : ClaimRequest) (seen db : Db) (r : Run)
    → IsSound db
    → IsIdle q.agent_id seen
    → (claim_run decode q seen db).0 ≢ ok r
claim-IsIdle decode q seen db r s idle h =
    let c = claim_run-ok decode q seen db r s h in
    let k = first-some (callers_agent q.agent_id q.user.id) seen.agents c.speaks.registered in
    let off =
      All-mem
        (λ (a : Agent). a.id ≡ q.agent_id → (a.enabled ≡ false) × (is_online a.status ≡ false)) k.1
        idle.switched_off in
    switched c.agent k.0 off
  where
    switched :
        (a : Agent)
        → callers_agent q.agent_id q.user.id a ≡ true
        → (a.id ≡ q.agent_id → (a.enabled ≡ false) × (is_online a.status ≡ false))
        → ⊥
    switched a k off = ground arith
