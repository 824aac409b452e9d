-- ===== src/Scheduler/Schedules.antt =====
-- include/laso/scheduler/scheduler.hpp and src/scheduler/scheduler.cpp: schedules, their validation and
-- their next due time. `dump_size` is the length of a JSON value's text.
pub mod NextDue
use laso.Base.{
  ℕ, zero, suc, ◌+◌, ◌-◌, ◌*◌, ◌/◌, ◌^◌, String, Bool, true, false, not, ◌&&◌, ◌||◌, Option, none,
  some, List, [], ◌∷◌, ltb, leb, ◌==◌, length, codes, if◌then◌else◌,
}
use laso.Core.Errors.{ErrorCode, Result, ok, throw, throw_if, ◌>>=◌, ◌>>◌}
use laso.Pipeline.Reference.{Bytes, is_digit, is_space, read_digits}
use laso.Security.{bytes_eq}
use laso.Scheduler.Cron.{Tm, is_nil, parse_cron, cron_search}
use laso.Scheduler.Clock.{UtcTime, parse_utc_timestamp, format_utc_timestamp}

pub record ScheduleDefinition (Json : Type 0) : Type 0 where
  pub id : Bytes
  pub name : Bytes
  pub pipeline_id : Bytes
  pub pipeline_version : ℕ
  pub type : Bytes
  pub at : Bytes
  pub interval_ms : Bytes
  pub cron : Bytes
  pub input : Json
  pub enabled : Bool
  pub deleted : Bool
  pub queued : Bool
  pub created_at : Bytes
  pub updated_at : Bytes
  pub next_due_at : Bytes
  pub last_due_at : Bytes
  pub last_started_at : Bytes
  pub last_completed_run_id : Bytes
  pub queued_due_at : Bytes
  pub misfire_policy : Bytes
  pub overlap_policy : Bytes
  pub missed_count : ℕ

abbrev pub max_interval : ℕ
max_interval = 365 * 24 * 60 * 60 * 1000

-- std::stoll of a text, less what refuses it in any case: a negative value, and one out of range. What is
-- left of the text is the second answer.
unfoldable pub digits_of : Bytes → Option (ℕ × Bytes)
digits_of [] = none
digits_of (c ∷ cs) =
    if not (is_digit c)
    then none
    else let (v, rest) = read_digits 0 (c ∷ cs) in if leb (2 ^ 63) v then none else some (v, rest)

unfoldable pub stoll : Bytes → Option (ℕ × Bytes)
unfolding digits_of
stoll [] = none
stoll (c ∷ cs) =
    let rest = stoll cs in
    if is_space c
    then rest
    else if c == b'+'
    then digits_of cs
    else if c == b'-'
    then none
    else digits_of (c ∷ cs)

abbrev pub bad_interval : {A : Type 0} → Result A
bad_interval = throw ErrorCode.validation "Interval must be a positive bounded millisecond duration"

abbrev pub bounded_interval : Option (ℕ × Bytes) → Result ℕ
bounded_interval none = bad_interval
bounded_interval (some (value, rest)) =
    if not (is_nil rest) || value == 0 || ltb max_interval value then bad_interval else ok value

module _ {Json : Type 0} where
  unfoldable pub interval_value : ScheduleDefinition Json → Result ℕ
  interval_value s = do
    throw_if (is_nil s.interval_ms) ErrorCode.validation "Interval schedule requires interval_ms"
    bounded_interval (stoll s.interval_ms)

  abbrev pub is_type : String → ScheduleDefinition Json → Bool
  is_type name s = bytes_eq s.type (codes name)

abbrev pub too_long : Bytes → Bool
too_long text = is_nil text || ltb 128 (length text)

abbrev pub one_of_two : Bytes → String → String → Bool
one_of_two text a b = bytes_eq text (codes a) || bytes_eq text (codes b)

module _ {Json : Type 0} (dump_size : Json → ℕ) (timegm : UtcTime → Option (UtcTime × ℕ))
    (gmtime : ℕ → Option (UtcTime × ℕ)) where
  -- `if (!text.empty()) (void)parse_utc_timestamp(text);`
  abbrev pub check_time : Bytes → Result (Unit {0})
  check_time text =
      if is_nil text then ok tt else (parse_utc_timestamp timegm gmtime text >>= λ _. ok tt)

  unfoldable pub check_type : ScheduleDefinition Json → Result (Unit {0})
  check_type s =
      if is_type "one_time" s
      then (throw_if (is_nil s.at) ErrorCode.validation "One-time schedule requires at"
          >> (parse_utc_timestamp timegm gmtime s.at >>= λ _. ok tt))
      else if is_type "interval" s
      then (interval_value s >>= λ _. check_time s.at)
      else (parse_cron s.cron >>= λ _. ok tt)

  unfoldable pub validate_schedule : ScheduleDefinition Json → Result (Unit {0})
  validate_schedule s = do
    throw_if
        (too_long s.id
          || too_long s.name
          || too_long s.pipeline_id
          || s.pipeline_version == 0
          || ltb (1 * 1024 * 1024) (dump_size s.input))
        ErrorCode.validation "Invalid schedule identity or input"
    throw_if (not (is_type "one_time" s) && not (is_type "interval" s) && not (is_type "cron" s))
        ErrorCode.validation "Unsupported schedule type"
    check_type s
    check_time s.next_due_at
    check_time s.queued_due_at
    throw_if (not (one_of_two s.misfire_policy "SKIP" "RUN_ONCE")) ErrorCode.validation
        "Unsupported misfire policy"
    throw_if
        (not (one_of_two s.overlap_policy "ALLOW" "SKIP")
          && not (bytes_eq s.overlap_policy (codes "QUEUE_ONE")))
        ErrorCode.validation "Unsupported overlap policy"

  -- What `cron_match` reads of a minute.
  abbrev pub minute_time : ℕ → Option Tm
  minute_time m = elim (gmtime (m * 60)) [
    | none ↦ none
    | some (utc, weekday) ↦ some (record {
      tm_min = utc.minute;
      tm_hour = utc.hour;
      tm_mday = utc.day;
      tm_mon = utc.month - 1;
      tm_wday = weekday;
    })
  ]

  abbrev pub search_limit : ℕ
  search_limit = 5 * 366 * 24 * 60

  unfoldable pub cron_next : Bytes → Bytes → Result Bytes
  cron_next expression after = parse_cron expression >>= λ cron.
      parse_utc_timestamp timegm gmtime after >>= λ base.
      cron_search minute_time cron search_limit (base / 60000 + 1) >>= λ m.
      format_utc_timestamp gmtime (m * 60000)

  abbrev pub due_after : ScheduleDefinition Json → Bytes → Result Bytes
  due_after s base =
      if is_type "one_time" s
      then ok []
      else if is_type "cron" s
      then cron_next s.cron base
      else (interval_value s >>= λ value.
          parse_utc_timestamp timegm gmtime base >>= λ t. format_utc_timestamp gmtime (t + value))

  -- `now` is SystemClock{}.now(), read if `after` is empty.
  unfoldable pub next_schedule_due : ℕ → ScheduleDefinition Json → Bytes → Result Bytes
  next_schedule_due now s after =
      validate_schedule s
      >> ((if is_nil after then format_utc_timestamp gmtime now else ok after) >>= λ base.
          due_after s base)
