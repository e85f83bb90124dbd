-- ===== src/Managed/Constraint.antt =====
-- backend/app/models.py, the constraints on the table of schedules, and the checks of rules against them.
use auto_script_hub.Prelude.{
  ℕ, String, Bool, true, false, ◌&&◌, Option, none, some, ◌≡◌, ◌≤◌, refl, arith, ok, expect,
  >>=-eq-ok, expect-eq-ok, require-eq-ok, ok-inj, first, first-some, is_none, subst, leb, All,
  All-mem, All-update_where, touch, update_where, Bool-cases, inl, inr, some-inj,
}
use auto_script_hub.Store.{Db, Schedule, ScheduleType, interval, cron}
use auto_script_hub.Users.{given}
use auto_script_hub.Managed.Rules.{
  Clock, Rule, in_bounds, in_bounds_of, rule_cron, validate_timezone, validate_rule, changed_rule,
}
use auto_script_hub.Managed.Schedules.{is_schedule_at, schedule_or_404}

-- ck_managed_schedules_rule
abbrev pub is_rule : ScheduleType → Option ℕ → Option String → Bool
is_rule interval (some n) none = leb 60 n
is_rule cron none (some e) = true
is_rule _ _ _ = false

-- The constraints of the table on a row.
unfoldable pub is_allowed_row : Schedule → Bool
is_allowed_row s =
    is_rule s.schedule_type s.interval_seconds s.cron_expression && leb 60 s.expires_after_seconds

-- All rows of the table meet its constraints.
pub record IsRuled (db : Db) : Type 0 where
  pub rows : All (λ (s : Schedule). is_allowed_row s ≡ true) db.schedules

module _ (clock : Clock) where
  rule_cron-is_rule :
      (e : Option String) (zone : String) (r : Rule)
      → rule_cron clock e zone ≡ ok r
      → is_rule r.kind r.interval_seconds r.cron_expression ≡ true
  unfolding rule_cron
  rule_cron-is_rule none zone r h = cc
  rule_cron-is_rule (some e) zone r h =
      let (name, h1, h2) =
        >>=-eq-ok (expect (validate_timezone clock zone) 422 "无效的 IANA timezone") _ h in
      subst (λ (x : Rule). is_rule x.kind x.interval_seconds x.cron_expression ≡ true) (ok-inj h2)
        refl

  -- What validate_rule accepts is a rule.
  pub validate_rule-is_rule :
      (t : ScheduleType) (n : Option ℕ) (e : Option String) (zone : String) (r : Rule)
      → in_bounds n ≡ true
      → validate_rule clock t n e zone ≡ ok r
      → is_rule r.kind r.interval_seconds r.cron_expression ≡ true
  unfolding validate_rule
  validate_rule-is_rule interval none e zone r b h = cc
  validate_rule-is_rule interval (some n) e zone r b h =
      let (given, h1) = require-eq-ok (is_none e) 422 _ _ h in
      let (name, h2, h3) =
        >>=-eq-ok (expect (validate_timezone clock zone) 422 "无效的 IANA timezone") _ h1 in
      subst (λ (x : Rule). is_rule x.kind x.interval_seconds x.cron_expression ≡ true) (ok-inj h3)
        (ground arith)
  validate_rule-is_rule cron n e zone r b h =
      let (absent, h1) = require-eq-ok (is_none n) 422 _ _ h in rule_cron-is_rule _ zone r h1

  -- So is what a change of one leads to.
  pub changed_rule-is_rule :
      (t : ScheduleType) (n : Option ℕ) (e : Option String) (zone : String) (r : Rule)
      → ((m : ℕ) → n ≡ some m → 60 ≤ m)
      → changed_rule clock t n e zone ≡ ok r
      → is_rule r.kind r.interval_seconds r.cron_expression ≡ true
  unfolding changed_rule
  changed_rule-is_rule interval none e zone r b h = cc
  changed_rule-is_rule interval (some n) e zone r b h =
      let low = b n refl in
      subst (λ (x : Rule). is_rule x.kind x.interval_seconds x.cron_expression ≡ true) (ok-inj h)
        (ground arith)
  changed_rule-is_rule cron n e zone r b h = rule_cron-is_rule _ zone r h

row_interval :
    (s : Schedule) (m : ℕ) → is_allowed_row s ≡ true → s.interval_seconds ≡ some m → 60 ≤ m
unfolding is_allowed_row
row_interval s m h e =
    low s.schedule_type s.interval_seconds s.cron_expression s.expires_after_seconds h e
  where
    low :
        (t : ScheduleType) (n : Option ℕ) (c : Option String) (w : ℕ)
        → (is_rule t n c && leb 60 w) ≡ true
        → n ≡ some m
        → 60 ≤ m
    low interval none c w h e = cc
    low interval (some n) none w h e = let same = some-inj e in ground arith
    low interval (some n) (some c) w h e = cc
    low cron none c w h e = cc
    low cron (some n) c w h e = cc

pub given_interval :
    (s : Schedule) (q : Option (Option ℕ)) (m : ℕ)
    → is_allowed_row s ≡ true
    → in_bounds_of q ≡ true
    → given s.interval_seconds q ≡ some m
    → 60 ≤ m
given_interval s none m h b e = row_interval s m h e
given_interval s (some none) m h b e = cc
given_interval s (some (some n)) m h b e = let same = some-inj e in ground arith

pub found_schedule :
    (id : ℕ) (db : Db) {s : Schedule}
    → schedule_or_404 db id ≡ ok s
    → IsRuled db
    → (first (is_schedule_at id) db.schedules ≡ some s) × (is_allowed_row s ≡ true)
unfolding schedule_or_404
found_schedule id db h r =
    let found = expect-eq-ok (first (is_schedule_at id) db.schedules) 404 _ h in
    (
      found,
      All-mem (λ (x : Schedule). is_allowed_row x ≡ true)
          (first-some (is_schedule_at id) db.schedules found).1 r.rows,
    )

-- A write to the schedules that keeps the constraints of each row.
pub written-IsRuled :
    (db db' : Db) (p : Schedule → Bool) (f : Schedule → Schedule)
    → db'.schedules ≡ update_where p f db.schedules
    → ((s : Schedule) → is_allowed_row s ≡ true → is_allowed_row (f s) ≡ true)
    → IsRuled db
    → IsRuled db'
written-IsRuled db db' p f e k r = record {
  rows = rw e (
      All-update_where (λ (s : Schedule). is_allowed_row s ≡ true)
        (λ (s : Schedule). is_allowed_row s ≡ true) p f db.schedules (λ s h. touched s h) r.rows);
}
  where
    touched : (s : Schedule) → is_allowed_row s ≡ true → is_allowed_row (touch p f s) ≡ true
    touched s h = elim (Bool-cases (p s)) [ inl t ↦ rw t (k s h) | inr t ↦ rw t h ]
