-- ===== src/Scheduler/Clock.antt =====
-- src/scheduler/scheduler.cpp: `parse_utc_timestamp` and `format_utc_timestamp`. A time is a number of
-- milliseconds since the epoch. POSIX's timegm and gmtime_r are parameters. `timegm` answers the time as it
-- normalizes it in place, and its seconds, or `none` for a time before the epoch. The second answer of
-- `gmtime` is the day of the week. Years count from 0 and months from 1, as in the text.
pub mod Canonical
use laso.Base.{
  ℕ, ◌+◌, ◌-◌, ◌*◌, ◌/◌, ◌%◌, Bool, true, false, ◌&&◌, Option, none, some, List, [], ◌∷◌, ◌++◌,
  ◌==◌, if◌then◌else◌,
}
use laso.Core.Errors.{ErrorCode, Result, ok, throw, ◌>>=◌}
use laso.Pipeline.Reference.{Bytes, is_digit, decimal}

-- The members of std::tm that a timestamp shows.
pub record UtcTime : Type 0 where
  pub year : ℕ
  pub month : ℕ
  pub day : ℕ
  pub hour : ℕ
  pub minute : ℕ
  pub second : ℕ

abbrev pub not_iso : {A : Type 0} → Result A
not_iso = throw ErrorCode.validation "Timestamp must be an absolute UTC ISO-8601 value"

abbrev pub no_timestamp : {A : Type 0} → Result A
no_timestamp = throw ErrorCode.validation "Invalid UTC timestamp"

abbrev pub digit : ℕ → ℕ
digit c = c - 48

-- The groups of the regular expression, with std::stoi of what they match, and what follows.
unfoldable pub two : Bytes → Result (ℕ × Bytes)
two (a ∷ b ∷ rest) = if is_digit a && is_digit b then ok (digit a * 10 + digit b, rest) else not_iso
two _ = not_iso

unfoldable pub three : Bytes → Result (ℕ × Bytes)
three (a ∷ b ∷ c ∷ rest) =
    if is_digit a && is_digit b && is_digit c
    then ok (digit a * 100 + digit b * 10 + digit c, rest)
    else not_iso
three _ = not_iso

unfoldable pub four : Bytes → Result (ℕ × Bytes)
unfolding two
four text = do a ← two text; b ← two a.1; ok (a.0 * 100 + b.0, b.1)

unfoldable pub expect : ℕ → Bytes → Result Bytes
expect c [] = not_iso
expect c (x ∷ rest) = if x == c then ok rest else not_iso

abbrev pub is_end : {A : Type 0} → Bytes → A → Result A
is_end [] a = ok a
is_end (c ∷ cs) a = not_iso

-- The match of the whole regular expression: the time and the milliseconds.
unfoldable pub timestamp_fields : Bytes → Result (UtcTime × ℕ)
timestamp_fields text = do
  y ← four text
  t1 ← expect b'-' y.1
  mo ← two t1
  t2 ← expect b'-' mo.1
  d ← two t2
  t3 ← expect b'T' d.1
  h ← two t3
  t4 ← expect b':' h.1
  mi ← two t4
  t5 ← expect b':' mi.1
  s ← two t5
  t6 ← expect b'.' s.1
  ms ← three t6
  t7 ← expect b'Z' ms.1
  is_end t7 (
    record { year = y.0; month = mo.0; day = d.0; hour = h.0; minute = mi.0; second = s.0 },
    ms.0,
  )

abbrev pub same_time : UtcTime → UtcTime → Bool
same_time a b =
    a.year == b.year
    && a.month == b.month
    && a.day == b.day
    && a.hour == b.hour
    && a.minute == b.minute
    && a.second == b.second

abbrev pub two_digits : ℕ → Bytes
two_digits n = (48 + n / 10 % 10) ∷ (48 + n % 10) ∷ []

abbrev pub three_digits : ℕ → Bytes
three_digits n = (48 + n / 100 % 10) ∷ (48 + n / 10 % 10) ∷ (48 + n % 10) ∷ []

-- std::put_time with "%Y-%m-%dT%H:%M:%S", and the milliseconds.
unfoldable pub print_time : UtcTime → ℕ → Bytes
print_time t ms =
    decimal 10 t.year []
    ++ (b'-' ∷ two_digits t.month
        ++ (b'-' ∷ two_digits t.day
            ++ (b'T' ∷ two_digits t.hour
                ++ (b':' ∷ two_digits t.minute
                    ++ (b':' ∷ two_digits t.second ++ (b'.' ∷ three_digits ms ++ (b'Z' ∷ [])))))))

module _ (timegm : UtcTime → Option (UtcTime × ℕ)) (gmtime : ℕ → Option (UtcTime × ℕ)) where
  abbrev pub round_trip : UtcTime → ℕ → ℕ → Option (UtcTime × ℕ) → Result ℕ
  round_trip utc ms seconds none = no_timestamp
  round_trip utc ms seconds (some (back, weekday)) =
      if same_time back utc then ok (seconds * 1000 + ms) else no_timestamp

  -- `timegm(&utc)` has written its normalized time over the one that was read.
  abbrev pub seconds_of : ℕ → Option (UtcTime × ℕ) → Result ℕ
  seconds_of ms none = no_timestamp
  seconds_of ms (some (utc, seconds)) = round_trip utc ms seconds (gmtime seconds)

  unfoldable pub parse_utc_timestamp : Bytes → Result ℕ
  parse_utc_timestamp value = timestamp_fields value >>= λ f. seconds_of f.1 (timegm f.0)

module _ (gmtime : ℕ → Option (UtcTime × ℕ)) where
  abbrev pub printed : ℕ → Option (UtcTime × ℕ) → Result Bytes
  printed ms none = throw ErrorCode.validation "Cannot format UTC timestamp"
  printed ms (some (utc, weekday)) = ok (print_time utc ms)

  unfoldable pub format_utc_timestamp : ℕ → Result Bytes
  format_utc_timestamp value = printed (value % 1000) (gmtime (value / 1000))
