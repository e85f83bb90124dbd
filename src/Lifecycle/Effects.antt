-- ===== src/Lifecycle/Effects.antt =====
-- backend/app/services/managed_agent_lifecycle.py: what disabling and deleting an agent leave of its
-- work, and what they leave alone.
use auto_script_hub.Prelude.{
  ℕ, String, Bool, true, false, Option, some, ◌≡◌, refl, ap, sym, ◌∙◌, arith, All, All-any,
  All-update_where, first, first-some, touch, Reply, ok, http, subst, >>=-eq-ok, expect-eq-ok,
  if◌then◌else◌,
}
use auto_script_hub.Store.{
  Db, Agent, User, Run, Schedule, is_live, is_online, run_at, live-cancelled,
}
use auto_script_hub.Store.Evolution.{Keeps, Follows, Follows-trans, Follows-update_where}
use auto_script_hub.Store.Writes.{run_at-untouched}
use auto_script_hub.Lifecycle.{
  disable, delete, VersionSource, manageable, missing_agent, agent_or_404, waits_for, runs_on,
  stop_run, enabled_on, pause, stop_active_work, agent_key, switch_off, remove, disabled, deleted,
  disable_checks, delete_checks, carried, disable_agent, delete_agent, snapshot,
  assert_current_version,
}

Keeps-stop_run :
    (now : ℕ) (message : String) (r : Run)
    → is_live r.status ≡ true
    → Keeps r (stop_run now message r)
Keeps-stop_run now message r h = record {
  same_id = refl;
  same_script = refl;
  same_user = refl;
  same_target = refl;
  same_expiry = refl;
  moved = live-cancelled r.status h;
  claimed_once = λ c. refl;
}

waits-live : (id : ℕ) (r : Run) → waits_for id r ≡ true → is_live r.status ≡ true
waits-live id r h = ground arith

runs-live : (id : ℕ) (r : Run) → runs_on id r ≡ true → is_live r.status ≡ true
runs-live id r h = ground arith

pub Follows-stop_active_work :
    (id : ℕ) (reason : String) (actor_id now : ℕ) (db : Db)
    → Follows db.runs (stop_active_work id reason actor_id now db).runs
unfolding stop_active_work
Follows-stop_active_work id reason actor_id now db =
    Follows-trans
      (Follows-update_where (waits_for id) _ db.runs (λ r. refl)
        (λ r h. Keeps-stop_run now _ r (waits-live id r h)))
      (Follows-update_where (runs_on id) _ _ (λ r. refl)
        (λ r h. Keeps-stop_run now _ r (runs-live id r h)))

-- An agent with nothing to do: no run waits for it or runs on it, no schedule of it is enabled, and
-- it is switched off.
pub record IsIdle (id : ℕ) (db : Db) : Type 0 where
  pub none_waits : All (λ (r : Run). waits_for id r ≡ false) db.runs
  pub none_runs : All (λ (r : Run). runs_on id r ≡ false) db.runs
  pub none_planned : All (λ (s : Schedule). enabled_on id s ≡ false) db.schedules
  pub switched_off :
      All (λ (a : Agent). a.id ≡ id → (a.enabled ≡ false) × (is_online a.status ≡ false)) db.agents

withdrawn_row :
    (id now : ℕ) (m : String) (r : Run)
    → waits_for id (touch (waits_for id) (stop_run now m) r) ≡ false
withdrawn_row id now m r = ground arith

stopped_row_waits :
    (id now : ℕ) (m : String) (r : Run)
    → waits_for id r ≡ false
    → waits_for id (touch (runs_on id) (stop_run now m) r) ≡ false
stopped_row_waits id now m r h = ground arith

stopped_row_runs :
    (id now : ℕ) (m : String) (r : Run) → runs_on id (touch (runs_on id) (stop_run now m) r) ≡ false
stopped_row_runs id now m r = ground arith

paused_row :
    (id now actor_id : ℕ) (s : Schedule)
    → enabled_on id (touch (enabled_on id) (pause now actor_id) s) ≡ false
paused_row id now actor_id s = ground arith

module _ (id : ℕ) (reason : String) (actor_id now : ℕ) (db : Db) where
  stop-none_waits :
      All (λ (r : Run). waits_for id r ≡ false) (stop_active_work id reason actor_id now db).runs
  unfolding stop_active_work
  stop-none_waits = All-update_where _ _ (runs_on id) _ _ (stopped_row_waits id now _) (
      All-update_where (λ (r : Run). Unit {0}) (λ (r : Run). waits_for id r ≡ false) (waits_for id)
        _ db.runs (λ r u. withdrawn_row id now _ r)
        (All-any (λ (r : Run). Unit {0}) db.runs (λ r. tt)))

  stop-none_runs :
      All (λ (r : Run). runs_on id r ≡ false) (stop_active_work id reason actor_id now db).runs
  unfolding stop_active_work
  stop-none_runs =
      All-update_where (λ (r : Run). Unit {0}) _ (runs_on id) _ _
        (λ r u. stopped_row_runs id now _ r) (All-any (λ (r : Run). Unit {0}) _ (λ r. tt))

  stop-none_planned :
      All
        (λ (s : Schedule). enabled_on id s ≡ false)
        (stop_active_work id reason actor_id now db).schedules
  unfolding stop_active_work
  stop-none_planned =
      All-update_where (λ (s : Schedule). Unit {0}) _ (enabled_on id) _ db.schedules
        (λ s u. paused_row id now actor_id s)
        (All-any (λ (s : Schedule). Unit {0}) db.schedules (λ s. tt))

  -- A run that neither waits for the agent nor runs on it is left as it is.
  pub stop-others :
      (i : ℕ) (r : Run)
      → run_at i db.runs ≡ some r
      → waits_for id r ≡ false
      → runs_on id r ≡ false
      → run_at i (stop_active_work id reason actor_id now db).runs ≡ some r
  unfolding stop_active_work
  stop-others i r e w o =
      run_at-untouched i (runs_on id) _ _ (λ x. refl)
        (run_at-untouched i (waits_for id) _ db.runs (λ x. refl) e w) o

off_row :
    (id now : ℕ) (a : Agent)
    → let b = touch (agent_key id) (switch_off now) a in
      b.id ≡ id → (b.enabled ≡ false) × (is_online b.status ≡ false)
off_row id now a h = ground arith

removed_row :
    (id now : ℕ) (a : Agent)
    → let b = touch (agent_key id) (remove now) a in
      b.id ≡ id → (b.enabled ≡ false) × (is_online b.status ≡ false)
removed_row id now a h = ground arith

disabled-IsIdle :
    (agent : Agent) (actor : User) (now : ℕ) (db : Db)
    → IsIdle agent.id (disabled agent actor now db)
unfolding disabled stop_active_work
disabled-IsIdle agent actor now db = record {
  none_waits = stop-none_waits agent.id "托管 Agent 已暂停接单" actor.id now db;
  none_runs = stop-none_runs agent.id "托管 Agent 已暂停接单" actor.id now db;
  none_planned = stop-none_planned agent.id "托管 Agent 已暂停接单" actor.id now db;
  switched_off =
      All-update_where (λ (a : Agent). Unit {0}) _ (agent_key agent.id) (switch_off now) db.agents
        (λ a u. off_row agent.id now a) (All-any (λ (a : Agent). Unit {0}) db.agents (λ a. tt));
}

deleted-IsIdle :
    (agent : Agent) (actor : User) (now : ℕ) (db : Db)
    → IsIdle agent.id (deleted agent actor now db)
unfolding deleted stop_active_work
deleted-IsIdle agent actor now db = record {
  none_waits = stop-none_waits agent.id "Agent 已删除" actor.id now db;
  none_runs = stop-none_runs agent.id "Agent 已删除" actor.id now db;
  none_planned = stop-none_planned agent.id "Agent 已删除" actor.id now db;
  switched_off =
      All-update_where (λ (a : Agent). Unit {0}) _ (agent_key agent.id) (remove now) db.agents
        (λ a u. removed_row agent.id now a) (All-any (λ (a : Agent). Unit {0}) db.agents (λ a. tt));
}

agent_or_404-id :
    (db : Db) (id : ℕ) (managed_only : Bool) (a : Agent)
    → agent_or_404 db id managed_only ≡ ok a
    → a.id ≡ id
unfolding agent_or_404
agent_or_404-id db id managed_only a h =
    let f = first-some (manageable id managed_only) db.agents (
      expect-eq-ok (first (manageable id managed_only) db.agents) 404 (missing_agent managed_only)
        h) in
    ground arith

module _ (digest : VersionSource → String) (db : Db) (id : ℕ) (actor : User)
    (expected : Option String) (managed_only : Bool) (now : ℕ) (agent : Agent) where
  disable_checks-id : disable_checks digest db id expected managed_only ≡ ok agent → agent.id ≡ id
  unfolding disable_checks
  disable_checks-id h =
      let (a, found, rest) = >>=-eq-ok (agent_or_404 db id managed_only) _ h in
      let (u, current, last) =
        >>=-eq-ok (assert_current_version digest (snapshot digest db a disable) expected) _ rest in
      let n = agent_or_404-id db id managed_only a found in ground arith

  disable_carried :
      (r : Reply Agent)
      → disable_checks digest db id expected managed_only ≡ r
      → (carried digest db (λ a. disabled a actor now db) r).0 ≡ ok agent
      → IsIdle id (carried digest db (λ a. disabled a actor now db) r).1
  disable_carried (http c d) e h = cc
  disable_carried (ok a) e h =
      let same : a ≡ agent = cc in
      let named = disable_checks-id (e ∙ ap ok same) in
      subst (λ x. IsIdle id (disabled x actor now db)) (sym same)
        (subst (λ i. IsIdle i (disabled agent actor now db)) named
          (disabled-IsIdle agent actor now db))

  -- A disable that goes through leaves the agent idle: every run that waited for it or ran on it has been
  -- cancelled, its schedules are paused, and it is disabled and offline.
  pub disable_agent-IsIdle :
      (disable_agent digest db id actor expected managed_only now).0 ≡ ok agent
      → IsIdle id (disable_agent digest db id actor expected managed_only now).1
  unfolding disable_agent
  disable_agent-IsIdle h =
      disable_carried (disable_checks digest db id expected managed_only) refl h

module _ (digest : VersionSource → String) (db : Db) (id : ℕ) (actor : User)
    (expected : Option String) (require_preview managed_only : Bool) (now : ℕ) (agent : Agent) where
  delete_checks-id :
      delete_checks digest db id expected require_preview managed_only ≡ ok agent → agent.id ≡ id
  unfolding delete_checks
  delete_checks-id h =
      let (a, found, rest) = >>=-eq-ok (agent_or_404 db id managed_only) _ h in
      let (u, current, last) =
        >>=-eq-ok
          (if require_preview
            then assert_current_version digest (snapshot digest db a delete) expected
            else ok tt)
          _ rest in
      let n = agent_or_404-id db id managed_only a found in ground arith

  deleted_rows :
      (a : Agent)
      → All (λ (x : Agent). manageable a.id false x ≡ false) (deleted a actor now db).agents
  unfolding deleted stop_active_work
  deleted_rows a =
      All-update_where (λ (x : Agent). Unit {0}) _ (agent_key a.id) (remove now) db.agents
        (λ x u. gone_row x) (All-any (λ (x : Agent). Unit {0}) db.agents (λ x. tt))
    where
      gone_row : (x : Agent) → manageable a.id false (touch (agent_key a.id) (remove now) x) ≡ false
      gone_row x = ground arith

  delete_carried :
      (r : Reply Agent)
      → delete_checks digest db id expected require_preview managed_only ≡ r
      → (carried digest db (λ a. deleted a actor now db) r).0 ≡ ok agent
      → IsIdle id (carried digest db (λ a. deleted a actor now db) r).1
        × All
            (λ (x : Agent). manageable id false x ≡ false)
            (carried digest db (λ a. deleted a actor now db) r).1.agents
  delete_carried (http c d) e h = cc
  delete_carried (ok a) e h =
      let same : a ≡ agent = cc in
      let named = delete_checks-id (e ∙ ap ok same) in
      let here : a.id ≡ id = ap (λ (x : Agent). x.id) same ∙ named in
      subst
        (λ i.
          IsIdle i (deleted a actor now db)
          × All (λ (x : Agent). manageable i false x ≡ false) (deleted a actor now db).agents)
        here (deleted-IsIdle a actor now db, deleted_rows a)

  -- A delete that goes through leaves the agent idle, and no agent of that id is found any more by any
  -- of these functions: a second delete is a 404.
  pub delete_agent-IsIdle :
      (delete_agent digest db id actor expected require_preview managed_only now).0 ≡ ok agent
      → IsIdle id (delete_agent digest db id actor expected require_preview managed_only now).1
        × All
            (λ (x : Agent). manageable id false x ≡ false)
            (delete_agent digest db id actor expected require_preview managed_only now).1.agents
  unfolding delete_agent
  delete_agent-IsIdle h =
      delete_carried (delete_checks digest db id expected require_preview managed_only) refl h
