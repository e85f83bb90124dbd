-- ===== src/Managed/Rules.antt =====
-- backend/app/routers/managed.py: the rule of a schedule, as the schemas of the requests and the
-- handler of a change check it, with the validation of backend/app/services/schedule_time.py.
-- croniter, zoneinfo and what they accept are the parameter `Clock`.
use auto_script_hub.Prelude.{
  ℕ, String, Bool, true, false, ◌&&◌, Option, none, some, ◌==◌, leb, Reply, ok, http, ◌>>=◌, ◌>>◌,
  require, expect, is_none, is_some, if◌then◌else◌, words, unwords, length,
}
use auto_script_hub.Store.{Schedule, ScheduleType, interval, cron}
use auto_script_hub.Scheduler.Cursor.{CronNext, next_schedule_time}

pub record Clock : Type 0 where
  pub next : CronNext
  pub is_valid : String → Bool
  pub is_zone : String → Bool

abbrev pub is_cron : ScheduleType → Bool
is_cron interval = false
is_cron cron = true

abbrev pub text_or_empty : Option String → String
text_or_empty none = ""
text_or_empty (some t) = t

-- The bounds of the schemas on an interval.
abbrev pub in_bounds : Option ℕ → Bool
in_bounds none = true
in_bounds (some n) = leb 60 n && leb n 31_536_000

abbrev pub in_bounds_of : Option (Option ℕ) → Bool
in_bounds_of none = true
in_bounds_of (some n) = in_bounds n

-- The bounds of the schemas on the seconds that a run may wait.
abbrev pub wait_in_bounds : ℕ → Bool
wait_in_bounds n = leb 60 n && leb n 604_800

-- A rule as it is stored.
pub record Rule : Type 0 where
  pub kind : ScheduleType
  pub interval_seconds : Option ℕ
  pub cron_expression : Option String
  pub timezone : String

-- The rule that a row has.
abbrev pub rule_of : Schedule → Rule
rule_of s = record {
  kind = s.schedule_type;
  interval_seconds = s.interval_seconds;
  cron_expression = s.cron_expression;
  timezone = s.timezone;
}

module _ (clock : Clock) where
  -- validate_cron_expression: none is its ValueError.
  unfoldable pub validate_cron_expression : String → Option String
  unfolding words unwords
  validate_cron_expression e =
      let flat = unwords (words e) in
      if (length (words flat) == 5) && clock.is_valid flat then some flat else none

  abbrev pub validate_timezone : String → Option String
  validate_timezone zone = if clock.is_zone zone then some zone else none

  unfoldable pub rule_cron : Option String → String → Reply Rule
  rule_cron none zone = http 422 "cron_expression 必须是有效的五段 cron 表达式"
  rule_cron (some e) zone = do
    name ← expect (validate_timezone zone) 422 "无效的 IANA timezone"
    ok (record { kind = cron; interval_seconds = none; cron_expression = some e; timezone = name })

  -- The rule of a changed schedule.
  unfoldable pub changed_rule : ScheduleType → Option ℕ → Option String → String → Reply Rule
  unfolding validate_cron_expression rule_cron
  changed_rule interval none e zone = http 422 "interval 调度必须提供 interval_seconds"
  changed_rule interval (some n) e zone = ok (record {
    kind = interval;
    interval_seconds = some n;
    cron_expression = none;
    timezone = zone;
  })
  changed_rule cron n e zone = rule_cron (validate_cron_expression (text_or_empty e)) zone

  -- ManagedScheduleCreate.validate_rule
  unfoldable pub validate_rule : ScheduleType → Option ℕ → Option String → String → Reply Rule
  unfolding validate_cron_expression rule_cron
  validate_rule interval n e zone = do
    require (is_some n && is_none e) 422 "interval 调度仅需提供 interval_seconds"
    name ← expect (validate_timezone zone) 422 "无效的 IANA timezone"
    ok (record { kind = interval; interval_seconds = n; cron_expression = none; timezone = name })
  validate_rule cron n e zone = do
    require (is_none n) 422 "cron 调度不可提供 interval_seconds"
    rule_cron (validate_cron_expression (text_or_empty e)) zone

  -- next_schedule_time for a rule; its ValueError is not caught.
  unfoldable pub first_time : Rule → ℕ → Reply ℕ
  unfolding next_schedule_time
  first_time r now =
      expect
        (next_schedule_time clock.next r.kind now r.interval_seconds r.cron_expression r.timezone)
        500 ""
