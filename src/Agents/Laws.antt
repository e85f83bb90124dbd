-- ===== src/Agents/Laws.antt =====
-- backend/app/routers/agents.py: what a registration and a heartbeat leave of the devices that there are.
use auto_script_hub.Prelude.{
  ℕ, String, Bool, true, false, not, ◌&&◌, Option, none, some, ◌==◌, ◌≡◌, ◌∙◌, ◌⊎◌, inl, inr, refl,
  sym, arith, subst, ok, expect, >>=-eq-ok, expect-eq-ok, require-eq-ok, ok-inj, first, first-some,
  first-own, some-inj, is_none, str_eq, str_eq_iff, if◌then◌else◌, strip,
}
use auto_script_hub.Store.{Db, Agent}
use auto_script_hub.Auth.{Decode, verify_agent_token}
use auto_script_hub.Lifecycle.{set_agent, drop_thumbnail}
use auto_script_hub.Agents.{
  AgentRegister, uid_of, is_machine, has_uid, is_legacy, own_agent, by_uid, find_registered_agent,
  may_register, refresh, new_agent, add_agent, register_found, register_agent, AgentHeartbeat,
  is_own, pauses, beat, heartbeat,
}
use auto_script_hub.Agents.Spares.{
  IsRegistry, Handled, IsOwn, set_agent-Handled, insert_agent-Handled,
}

module _ (legacy_uid : ℕ → String → String) where
  found-IsOwn :
      (p : Agent → Bool) (user_id : ℕ) (db : Db) {agent : Agent}
      → IsRegistry db
      → ((a : Agent) → p a ≡ true → (a.user_id ≡ user_id) × (a.is_deleted ≡ false))
      → first p db.agents ≡ some agent
      → IsOwn user_id db agent
  found-IsOwn p user_id db {agent} g k h =
      let (passes, m) = first-some p db.agents h in
      let (mine, kept) = k agent passes in
      record {
        there = first-own (λ (x : Agent). x.id) db.agents agent g.fresh.keyed m;
        mine = mine;
        kept = kept;
      }

  machine_own :
      (user_id : ℕ) (name : String) (a : Agent)
      → is_machine user_id name a ≡ true
      → (a.user_id ≡ user_id) × (a.is_deleted ≡ false)
  machine_own user_id name a h = (ground arith, ground arith)

  legacy_own :
      (user_id : ℕ) (name : String) (a : Agent)
      → is_legacy legacy_uid user_id name a ≡ true
      → (a.user_id ≡ user_id) × (a.is_deleted ≡ false)
  legacy_own user_id name a h =
      machine_own user_id name a (both_first (is_machine user_id name a) _ h)
    where
      both_first : (b c : Bool) → (b && c) ≡ true → b ≡ true
      both_first true c h = refl
      both_first false c h = cc

  -- What is found: nothing that has the uid, or a device of the caller that has it or gets it.
  record Found (user_id : ℕ) (db : Db) (uid : Option String) (agent : Agent) : Type 0 where
    own : IsOwn user_id db agent
    unused :
        (u : String) → uid ≡ some u → (agent.device_uid ≡ u) ⊎ (first (has_uid u) db.agents ≡ none)

  by_uid-Found :
      (db : Db) (user_id : ℕ) (name u : String) (o : Option Agent) (agent : Agent)
      → IsRegistry db
      → first (has_uid u) db.agents ≡ o
      → by_uid legacy_uid db user_id name o ≡ ok (some agent)
      → Found user_id db (some u) agent
  unfolding by_uid own_agent
  by_uid-Found db user_id name u none agent g e h = record {
    own =
        found-IsOwn (is_legacy legacy_uid user_id name) user_id db g (legacy_own user_id name)
          (ok-inj h);
    unused = λ v same.
        let w : u ≡ v = some-inj same in inr (subst (λ x. first (has_uid x) db.agents ≡ none) w e);
  }
  by_uid-Found db user_id name u (some a) agent g e h =
      let (mine, h1) = require-eq-ok (a.user_id == user_id) 409 _ _ h in
      let (kept, h2) = require-eq-ok (not a.is_deleted) 403 _ _ h1 in
      let same : a ≡ agent = some-inj (ok-inj h2) in
      let (has, m) = first-some (has_uid u) db.agents e in
      let uid : a.device_uid ≡ u = (str_eq_iff a.device_uid u).0 has in
      subst (Found user_id db (some u)) same (record {
        own = record {
          there = first-own (λ (x : Agent). x.id) db.agents a g.fresh.keyed m;
          mine = ground arith;
          kept = ground arith;
        };
        unused = λ v e. inl (uid ∙ some-inj e);
      })

  find-Found :
      (db : Db) (user_id : ℕ) (name : String) (uid : Option String) (agent : Agent)
      → IsRegistry db
      → find_registered_agent legacy_uid db user_id name uid ≡ ok (some agent)
      → Found user_id db uid agent
  unfolding find_registered_agent
  find-Found db user_id name none agent g h = record {
    own = found-IsOwn (is_machine user_id name) user_id db g (machine_own user_id name) (ok-inj h);
    unused = λ v e. let no : none ≡ some v = e in cc;
  }
  find-Found db user_id name (some u) agent g h = by_uid-Found db user_id name u _ agent g refl h

none_there : {A : Type 0} (o : Option A) → is_none o ≡ true → o ≡ none
none_there none h = refl
none_there (some a) h = cc

module _ (legacy_uid : ℕ → String → String) (decode : Decode) (q : AgentRegister) where
  refreshed :
      (name : String) (uid : Option String) (a : Agent)
      → let b = refresh q name uid a in
        (b.id ≡ a.id)
        × (b.user_id ≡ a.user_id)
        × (b.enabled ≡ a.enabled)
        × (b.is_deleted ≡ a.is_deleted)
  refreshed name uid a = (refl, refl, refl, refl)

  refreshed_uid :
      (name : String) (uid : Option String) (db : Db) (agent : Agent)
      → Found legacy_uid q.user.id db uid agent
      → let b = refresh q name uid agent in
        (b.device_uid ≡ agent.device_uid) ⊎ (first (has_uid b.device_uid) db.agents ≡ none)
  refreshed_uid name none db agent f = inl refl
  refreshed_uid name (some u) db agent f = elim (f.unused u refl) [
    | inl e ↦ inl (sym e)
    | inr e ↦ inr e
  ]

  add_agent-Handled :
      (a : Agent) (now : ℕ) (db db' : Db)
      → IsRegistry db
      → a.id ≡ db.next_agent_id
      → add_agent a now q.user db ≡ ok db'
      → Handled q.user.id db db'
  unfolding add_agent
  add_agent-Handled a now db db' g named h =
      let (free, h1) = require-eq-ok (is_none (first (has_uid a.device_uid) db.agents)) 500 _ _ h in
      let x =
        insert_agent-Handled q.user.id a db g named
          (none_there (first (has_uid a.device_uid) db.agents) free) in
      subst (Handled q.user.id db) (ok-inj h1) (record {
        registry = record { fresh = x.registry.fresh; once = x.registry.once };
        spares = x.spares;
      })

  register_found-Handled :
      (name : String) (uid : Option String) (o : Option Agent) (db db' : Db)
      → IsRegistry db
      → find_registered_agent legacy_uid db q.user.id name uid ≡ ok o
      → register_found legacy_uid decode q name uid o db ≡ ok db'
      → Handled q.user.id db db'
  unfolding register_found
  register_found-Handled name uid none db db' g e h =
      add_agent-Handled (new_agent legacy_uid q name uid db.next_agent_id) q.now db db' g refl h
  register_found-Handled name uid (some agent) db db' g e h =
      let f = find-Found legacy_uid db q.user.id name uid agent g e in
      let (u, may, h1) = >>=-eq-ok (may_register decode q name agent) _ h in
      subst (Handled q.user.id db) (ok-inj h1) (
        set_agent-Handled q.user.id agent (refresh q name uid) db g f.own (refreshed name uid)
          (refreshed_uid name uid db agent f))

  -- Where ids and uids of devices were apart, a registration that goes through keeps them apart, and
  -- changes at most a device of the caller that was not removed: no device gets another owner, is
  -- enabled or comes back by it.
  pub register_agent-Handled :
      (db db' : Db)
      → IsRegistry db
      → register_agent legacy_uid decode q db ≡ ok db'
      → Handled q.user.id db db'
  unfolding register_agent
  register_agent-Handled db db' g h =
      let (filled, h1) = require-eq-ok (not (str_eq (strip q.machine_name) "")) 400 _ _ h in
      let (o, found, h2) =
        >>=-eq-ok
          (find_registered_agent legacy_uid db q.user.id (strip q.machine_name)
            (uid_of q.device_uid))
          _ h1 in
      register_found-Handled (strip q.machine_name) (uid_of q.device_uid) o db db' g found h2

-- The rows of agents and their counter are all that `Handled` reads.
same-Handled :
    (user_id : ℕ) (db mid db' : Db)
    → mid.agents ≡ db.agents
    → mid.next_agent_id ≡ db.next_agent_id
    → Handled user_id mid db'
    → Handled user_id db db'
same-Handled user_id db mid db' e n h = record { registry = h.registry; spares = rw (← e) h.spares }

beaten :
    (q : AgentHeartbeat) (a : Agent)
    → ((beat q a).id ≡ a.id)
      × ((beat q a).user_id ≡ a.user_id)
      × ((beat q a).enabled ≡ a.enabled)
      × ((beat q a).is_deleted ≡ a.is_deleted)
beaten q a = (refl, refl, refl, refl)

-- A heartbeat that goes through keeps ids and uids apart, and changes at most a device of the caller.
pub heartbeat-Handled :
    (decode : Decode) (q : AgentHeartbeat) (db db' : Db)
    → IsRegistry db
    → heartbeat decode q db ≡ ok db'
    → Handled q.user.id db db'
unfolding heartbeat
heartbeat-Handled decode q db db' g h =
    let (agent, e1, h1) =
      >>=-eq-ok (expect (first (is_own q.agent_id q.user.id) db.agents) 404 _) _ h in
    let (on, h2) = require-eq-ok agent.enabled 403 _ _ h1 in
    let (u, good, h3) = >>=-eq-ok (verify_agent_token decode q.token agent false) _ h2 in
    let found = expect-eq-ok (first (is_own q.agent_id q.user.id) db.agents) 404 _ e1 in
    let (passes, m) = first-some (is_own q.agent_id q.user.id) db.agents found in
    subst (Handled q.user.id db) (ok-inj h3) (
      beaten_on (pauses q.thumbnail_capture_paused && q.removable) agent (record {
        there = first-own (λ (x : Agent). x.id) db.agents agent g.fresh.keyed m;
        mine = own_user q.agent_id q.user.id agent passes;
        kept = own_kept q.agent_id q.user.id agent passes;
      }))
  where
    own_user : (i u : ℕ) (a : Agent) → is_own i u a ≡ true → a.user_id ≡ u
    own_user i u a h = ground arith

    own_kept : (i u : ℕ) (a : Agent) → is_own i u a ≡ true → a.is_deleted ≡ false
    own_kept i u a h = ground arith

    beaten_on :
        (b : Bool) (agent : Agent)
        → IsOwn q.user.id db agent
        → Handled q.user.id db
            (set_agent agent.id (beat q) (if b then drop_thumbnail agent.id db else db))
    beaten_on true agent o =
        let x = set_agent-Handled q.user.id agent (beat q) db g o (beaten q) (inl refl) in
        record {
          registry = record { fresh = x.registry.fresh; once = x.registry.once };
          spares = x.spares;
        }
    beaten_on false agent o =
        set_agent-Handled q.user.id agent (beat q) db g o (beaten q) (inl refl)
