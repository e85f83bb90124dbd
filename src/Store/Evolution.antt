-- ===== src/Store/Evolution.antt =====
-- How the table of runs may change: the row of an id stays the row of that id, moves along the
-- diagram of statuses and keeps who it belongs to. New rows may come.
use auto_script_hub.Prelude.{
  ℕ, Bool, true, false, some, List, [], ◌∷◌, ◌++◌, ◌≡◌, refl, ◌∙◌, touch, update_where,
  first-update_where, first-append, is_some, inl, inr, Bool-cases,
}
use auto_script_hub.Store.Transitions.{◌⟶*◌, stay, ⟶*-trans, ⟶*-ended, is_live}
use auto_script_hub.Store.{Run, run_key, run_at}

-- One row between two moments.
pub record Keeps (r s : Run) : Type 0 where
  pub same_id : s.id ≡ r.id
  pub same_script : s.script_id ≡ r.script_id
  pub same_user : s.user_id ≡ r.user_id
  pub same_target : s.target_agent_id ≡ r.target_agent_id
  pub same_expiry : s.expires_at ≡ r.expires_at
  pub moved : r.status ⟶* s.status
  pub claimed_once : is_some r.agent_id ≡ true → s.agent_id ≡ r.agent_id

-- Read at any time with `rs`, and at some later time with `ss`.
pub record Follows (rs ss : List Run) : Type 0 where
  pub at : (i : ℕ) (r : Run) → run_at i rs ≡ some r → (s : Run) × (run_at i ss ≡ some s) × Keeps r s

pub Keeps-refl : (r : Run) → Keeps r r
Keeps-refl r = record {
  same_id = refl;
  same_script = refl;
  same_user = refl;
  same_target = refl;
  same_expiry = refl;
  moved = stay;
  claimed_once = λ h. refl;
}

pub Keeps-trans : {r s t : Run} → Keeps r s → Keeps s t → Keeps r t
Keeps-trans h k = record {
  same_id = k.same_id ∙ h.same_id;
  same_script = k.same_script ∙ h.same_script;
  same_user = k.same_user ∙ h.same_user;
  same_target = k.same_target ∙ h.same_target;
  same_expiry = k.same_expiry ∙ h.same_expiry;
  moved = ⟶*-trans h.moved k.moved;
  claimed_once = λ c. k.claimed_once (cc (h.claimed_once c)) ∙ h.claimed_once c;
}

Keeps-touch :
    (p : Run → Bool) (f : Run → Run) (r : Run)
    → (p r ≡ true → Keeps r (f r))
    → Keeps r (touch p f r)
Keeps-touch p f r h = elim (Bool-cases (p r)) [ inl e ↦ rw e (h e) | inr e ↦ rw e (Keeps-refl r) ]

pub Follows-refl : (rs : List Run) → Follows rs rs
Follows-refl rs = record { at = λ i r h. (r, h, Keeps-refl r) }

pub Follows-trans : {rs ss ts : List Run} → Follows rs ss → Follows ss ts → Follows rs ts
Follows-trans f g = record {
  at = λ i r h.
      let (s, hs, ks) = f.at i r h in let (t, ht, kt) = g.at i s hs in (t, ht, Keeps-trans ks kt);
}

pub Follows-update_where :
    (p : Run → Bool) (f : Run → Run) (rs : List Run)
    → ((r : Run) → (f r).id ≡ r.id)
    → ((r : Run) → p r ≡ true → Keeps r (f r))
    → Follows rs (update_where p f rs)
Follows-update_where p f rs same h = record {
  at = λ i r e. (
    touch p f r,
    first-update_where (run_key i) p f rs (λ x. rw (same x)) ∙ rw e,
    Keeps-touch p f r (h r),
  );
}

pub Follows-insert : (rs : List Run) (r : Run) → Follows rs (rs ++ r ∷ [])
Follows-insert rs r = record {
  at = λ i q e. (q, first-append (run_key i) rs (r ∷ []) e, Keeps-refl q);
}

-- A run that has ended is found later as it ended.
pub Follows-ended :
    {rs ss : List Run} (i : ℕ) (r : Run)
    → Follows rs ss
    → run_at i rs ≡ some r
    → is_live r.status ≡ false
    → (s : Run) × (run_at i ss ≡ some s) × (s.status ≡ r.status)
Follows-ended i r f h e = let (s, hs, k) = f.at i r h in (s, hs, ⟶*-ended k.moved e)
