-- ===== src/Agents/Spares.antt =====
-- backend/app/routers/agents.py: the table of devices under a write of one row, and under an insertion.
use auto_script_hub.Prelude.{
  ℕ, String, Bool, true, false, none, some, List, [], ◌∷◌, ◌≡◌, ◌∙◌, ◌≤◌, ◌+◌, ◌⊎◌, inl, inr, refl,
  sym, ap, arith, subst, first, first-some, first-own, first-update_where, first-append, touch,
  update_where, count_where, count-insert, count-first-none, count-update_key, IsFresh,
  IsFresh-update_where, IsFresh-insert, Bool-cases, some-inj, str_eq, str_eq_iff, if◌then◌else◌,
}
use auto_script_hub.Store.{Db, Agent}
use auto_script_hub.Lifecycle.{agent_key, set_agent}
use auto_script_hub.Agents.{has_uid, insert_agent}

-- What holds of the table of agents: ids of their own, and no device_uid twice.
pub record IsRegistry (db : Db) : Type 0 where
  pub fresh : IsFresh (λ (a : Agent). a.id) db.next_agent_id db.agents
  pub once : (uid : String) → count_where (has_uid uid) db.agents ≤ 1

-- A device between two moments, of which one request of a user was handled in between: whose it is, whether it is
-- enabled and whether it was removed are as before, and it is the same unless it is that user's and not removed.
pub record Spares (user_id : ℕ) (a b : Agent) : Type 0 where
  pub same_id : b.id ≡ a.id
  pub same_user : b.user_id ≡ a.user_id
  pub same_enabled : b.enabled ≡ a.enabled
  pub same_deleted : b.is_deleted ≡ a.is_deleted
  pub own : (b ≡ a) ⊎ ((a.user_id ≡ user_id) × (a.is_deleted ≡ false))

-- So for all devices of a table.
pub record SparesAll (user_id : ℕ) (rows later : List Agent) : Type 0 where
  pub at :
      (i : ℕ) (a : Agent)
      → first (agent_key i) rows ≡ some a
      → (b : Agent) × (first (agent_key i) later ≡ some b) × Spares user_id a b

Spares-refl : (user_id : ℕ) (a : Agent) → Spares user_id a a
Spares-refl user_id a = record {
  same_id = refl;
  same_user = refl;
  same_enabled = refl;
  same_deleted = refl;
  own = inl refl;
}

-- A write of the row of one device of the user.
written-SparesAll :
    (user_id : ℕ) (agent : Agent) (f : Agent → Agent) (next : ℕ) (rows : List Agent)
    → IsFresh (λ (a : Agent). a.id) next rows
    → first (agent_key agent.id) rows ≡ some agent
    → agent.user_id ≡ user_id
    → agent.is_deleted ≡ false
    → ((a : Agent)
        → ((f a).id ≡ a.id)
          × ((f a).user_id ≡ a.user_id)
          × ((f a).enabled ≡ a.enabled)
          × ((f a).is_deleted ≡ a.is_deleted))
    → SparesAll user_id rows (update_where (agent_key agent.id) f rows)
written-SparesAll user_id agent f next rows s there mine kept k = record {
  at = λ i a e. (
    touch (agent_key agent.id) f a,
    first-update_where (agent_key i) (agent_key agent.id) f rows (λ x. rw (k x).0) ∙ rw e,
    row i a e,
  );
}
  where
    row :
        (i : ℕ) (a : Agent)
        → first (agent_key i) rows ≡ some a
        → Spares user_id a (touch (agent_key agent.id) f a)
    row i a e = elim (Bool-cases (agent_key agent.id a)) [
      | inl t ↦
          let own_row : first (agent_key a.id) rows ≡ some a =
            first-own (λ (x : Agent). x.id) rows a s.keyed (first-some (agent_key i) rows e).1 in
          let named : a.id ≡ agent.id = ground arith in
          let same : agent ≡ a =
            some-inj (sym there ∙ subst (λ n. first (agent_key n) rows ≡ some a) named own_row) in
          rw t (record {
            same_id = (k a).0;
            same_user = (k a).1;
            same_enabled = (k a).2;
            same_deleted = (k a).3;
            own = inr (
              ap (λ (x : Agent). x.user_id) (sym same) ∙ mine,
              ap (λ (x : Agent). x.is_deleted) (sym same) ∙ kept,
            );
          })
      | inr t ↦ rw t (Spares-refl user_id a)
    ]

-- A device that the caller may register again.
pub record IsOwn (user_id : ℕ) (db : Db) (agent : Agent) : Type 0 where
  pub there : first (agent_key agent.id) db.agents ≡ some agent
  pub mine : agent.user_id ≡ user_id
  pub kept : agent.is_deleted ≡ false

at_most_one :
    (n m : ℕ) (b b' : Bool)
    → n ≤ 1
    → m + (if b then 1 else 0) ≡ n + (if b' then 1 else 0)
    → (b' ≡ true → (b ≡ true) ⊎ (n ≡ 0))
    → m ≤ 1
at_most_one n m true true h e k = omega arith
at_most_one n m true false h e k = omega arith
at_most_one n m false true h e k = elim (k refl) [ inl clash ↦ cc | inr z ↦ omega arith ]
at_most_one n m false false h e k = omega arith

-- No two devices have one uid after a write that keeps the uid, or gives one that nobody has.
written-once :
    (agent : Agent) (f : Agent → Agent) (next : ℕ) (rows : List Agent) (v : String)
    → IsFresh (λ (a : Agent). a.id) next rows
    → first (agent_key agent.id) rows ≡ some agent
    → count_where (has_uid v) rows ≤ 1
    → ((f agent).device_uid ≡ agent.device_uid) ⊎ (first (has_uid (f agent).device_uid) rows ≡ none)
    → count_where (has_uid v) (update_where (agent_key agent.id) f rows) ≤ 1
written-once agent f next rows v s there one k =
    at_most_one (count_where (has_uid v) rows) _ (has_uid v agent) (has_uid v (f agent)) one
      (count-update_key (λ (a : Agent). a.id) agent.id (has_uid v) f rows s.keyed there)
      (λ h. taken h k)
  where
    taken :
        has_uid v (f agent) ≡ true
        → ((f agent).device_uid ≡ agent.device_uid)
          ⊎ (first (has_uid (f agent).device_uid) rows ≡ none)
        → (has_uid v agent ≡ true) ⊎ (count_where (has_uid v) rows ≡ 0)
    taken h (inl e) = inl (ap (λ u. str_eq u v) (sym e) ∙ h)
    taken h (inr e) =
        let u : (f agent).device_uid ≡ v = (str_eq_iff (f agent).device_uid v).0 h in
        inr (count-first-none (has_uid v) rows (subst (λ x. first (has_uid x) rows ≡ none) u e))

-- What one request of a user does to the table of devices.
pub record Handled (user_id : ℕ) (db db' : Db) : Type 0 where
  pub registry : IsRegistry db'
  pub spares : SparesAll user_id db.agents db'.agents

pub set_agent-Handled :
    (user_id : ℕ) (agent : Agent) (f : Agent → Agent) (db : Db)
    → IsRegistry db
    → IsOwn user_id db agent
    → ((a : Agent)
        → ((f a).id ≡ a.id)
          × ((f a).user_id ≡ a.user_id)
          × ((f a).enabled ≡ a.enabled)
          × ((f a).is_deleted ≡ a.is_deleted))
    → ((f agent).device_uid ≡ agent.device_uid)
      ⊎ (first (has_uid (f agent).device_uid) db.agents ≡ none)
    → Handled user_id db (set_agent agent.id f db)
set_agent-Handled user_id agent f db g o k u = record {
  registry = record {
    fresh =
        IsFresh-update_where (λ (a : Agent). a.id) (agent_key agent.id) f db.next_agent_id db.agents
          (λ a. (k a).0) g.fresh;
    once = λ v. written-once agent f db.next_agent_id db.agents v g.fresh o.there (g.once v) u;
  };
  spares =
      written-SparesAll user_id agent f db.next_agent_id db.agents g.fresh o.there o.mine o.kept k;
}

pub insert_agent-Handled :
    (user_id : ℕ) (a : Agent) (db : Db)
    → IsRegistry db
    → a.id ≡ db.next_agent_id
    → first (has_uid a.device_uid) db.agents ≡ none
    → Handled user_id db (insert_agent a db)
insert_agent-Handled user_id a db g named free = record {
  registry = record {
    fresh = IsFresh-insert (λ (x : Agent). x.id) db.next_agent_id db.agents a named g.fresh;
    once = λ v.
        let one = g.once v in
        rw (count-insert (has_uid v) db.agents a)
          (room v (count_where (has_uid v) db.agents) one (λ h. empty v h));
  };
  spares = record {
    at = λ i x e. (x, first-append (agent_key i) db.agents (a ∷ []) e, Spares-refl user_id x);
  };
}
  where
    empty : (v : String) → has_uid v a ≡ true → count_where (has_uid v) db.agents ≡ 0
    empty v h =
        let u : a.device_uid ≡ v = (str_eq_iff a.device_uid v).0 h in
        count-first-none (has_uid v) db.agents
          (subst (λ x. first (has_uid x) db.agents ≡ none) u free)

    room :
        (v : String) (n : ℕ)
        → n ≤ 1
        → (has_uid v a ≡ true → n ≡ 0)
        → n + (if has_uid v a then 1 else 0) ≤ 1
    room v n h k = elim (Bool-cases (has_uid v a)) [
      | inl e ↦ let z = k e in rw e (omega arith)
      | inr e ↦ rw e (omega arith)
    ]
