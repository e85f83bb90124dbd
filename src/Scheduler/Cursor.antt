-- ===== src/Scheduler/Cursor.antt =====
-- backend/app/scheduler.py, _advance_next_run and _next_schedule_run, and
-- backend/app/services/schedule_time.py, next_schedule_time: when a schedule is due next.
-- Elapsed seconds are floats in the source; over whole microseconds the floor division is the same.
-- croniter and zoneinfo are a parameter, `CronNext`: the expression, the zone and an instant give the
-- first occurrence after it, or none where they raise.
use auto_script_hub.Prelude.{
  ℕ, zero, suc, String, Option, none, some, ◌+◌, ◌-◌, ◌*◌, ◌/◌, ◌≤◌, ◌<◌, ◌≡◌, refl, ltb,
  if◌then◌else◌, arith, subst, some-inj, Bool-cases, inl, inr,
}
use native.Mathlib.Nat.{div-add-mod', mod-lt}
use auto_script_hub.Store.{second, Schedule, ScheduleType, interval, cron}

abbrev pub CronNext : Type 0
CronNext = String → String → ℕ → Option ℕ

unfoldable pub advance_next_run : ℕ → ℕ → ℕ → ℕ
advance_next_run due interval_seconds now =
    if ltb now due
    then due
    else due + ((now - due) / (interval_seconds * second) + 1) * (interval_seconds * second)

-- An interval of no seconds divides by zero, and a missing one is a TypeError: both raise.
advance_by : Option ℕ → ℕ → ℕ → Option ℕ
unfolding advance_next_run
advance_by none due now = none
advance_by (some zero) due now = if ltb now due then some due else none
advance_by (some (suc n)) due now = some (advance_next_run due (suc n) now)

-- `schedule.cron_expression or ""`
cron_after : CronNext → Option String → String → ℕ → Option ℕ
cron_after next none zone now = next "" zone now
cron_after next (some e) zone now = next e zone now

next_by : CronNext → ScheduleType → Schedule → ℕ → ℕ → Option ℕ
unfolding advance_by cron_after
next_by next cron s due now = cron_after next s.cron_expression s.timezone now
next_by next interval s due now = advance_by s.interval_seconds due now

unfoldable pub next_schedule_run : CronNext → Schedule → ℕ → ℕ → Option ℕ
unfolding next_by
next_schedule_run next s due now = next_by next s.schedule_type s due now

-- next_schedule_time, for the handlers that set a cursor; none is its ValueError.
unfoldable pub next_schedule_time :
    CronNext → ScheduleType → ℕ → Option ℕ → Option String → String → Option ℕ
unfolding cron_after
next_schedule_time next interval after none expression zone = none
next_schedule_time next interval after (some n) expression zone =
    if ltb n 60 then none else some (after + n * second)
next_schedule_time next cron after n expression zone = cron_after next expression zone after

-- The quotient of one step: `k` steps of `i` go beyond `e`, and by one step at most.
steps : (e i : ℕ) → 0 < i → (e < (e / i + 1) * i) × ((e / i + 1) * i ≤ e + i)
steps e i h = let d = div-add-mod' e i in let m = mod-lt e h in (omega arith, omega arith)

-- The cursor goes beyond now, whatever was missed, by one interval at most if it was due, and it
-- stays on the grid of the interval.
pub advance_next_run_lem :
    (due n now : ℕ)
    → 0 < n
    → (now < advance_next_run due n now)
      × (due ≤ now → advance_next_run due n now ≤ now + n * second)
      × ((k : ℕ) × (advance_next_run due n now ≡ due + k * (n * second)))
unfolding advance_next_run
advance_next_run_lem due n now h = elim (Bool-cases (ltb now due)) [
  | inl e ↦ rw e (ground arith, λ g. ground arith, (0, omega arith))
  | inr e ↦
      let (low, high) = steps (now - due) (n * second) (omega arith) in
      let late : due ≤ now = ground arith in
      rw e (omega arith, λ g. omega arith, ((now - due) / (n * second) + 1, refl))
]

module _ (next : CronNext) (later : (e z : String) (t c : ℕ) → next e z t ≡ some c → t < c) where
  cron_after-later :
      (e : Option String) (z : String) (t c : ℕ) → cron_after next e z t ≡ some c → t < c
  unfolding cron_after
  cron_after-later none z t c h = later "" z t c h
  cron_after-later (some e) z t c h = later e z t c h

  advance_by-later : (i : Option ℕ) (due now c : ℕ) → advance_by i due now ≡ some c → now < c
  unfolding advance_by
  advance_by-later none due now c h = cc
  advance_by-later (some zero) due now c h = ground arith
  advance_by-later (some (suc n)) due now c h =
      let l = advance_next_run_lem due (suc n) now (omega arith) in
      subst (λ x. now < x) (some-inj h) l.0

  next_by-later :
      (t : ScheduleType) (s : Schedule) (due now c : ℕ)
      → next_by next t s due now ≡ some c
      → now < c
  unfolding next_by
  next_by-later interval s due now c h = advance_by-later s.interval_seconds due now c h
  next_by-later cron s due now c h = cron_after-later s.cron_expression s.timezone now c h

  -- Where croniter's next occurrence is after the instant that it is given, so is every cursor.
  pub next_schedule_run-later :
      (s : Schedule) (due now c : ℕ) → next_schedule_run next s due now ≡ some c → now < c
  unfolding next_schedule_run
  next_schedule_run-later s due now c h = next_by-later s.schedule_type s due now c h

  -- What a handler sets as a new schedule's first occurrence is after the instant that it is given.
  pub next_schedule_time-later :
      (t : ScheduleType) (after : ℕ) (n : Option ℕ) (e : Option String) (z : String) (c : ℕ)
      → next_schedule_time next t after n e z ≡ some c
      → after < c
  unfolding next_schedule_time
  next_schedule_time-later interval after none e z c h = cc
  next_schedule_time-later interval after (some n) e z c h = ground arith
  next_schedule_time-later cron after n e z c h = cron_after-later e z after c h
