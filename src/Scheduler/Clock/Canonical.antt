-- ===== src/Scheduler/Clock/Canonical.antt =====
-- src/scheduler/scheduler.cpp: the one text of a time.
use laso.Base.{ℕ, ◌+◌, ◌/◌, ◌%◌, ◌≤◌, ◌<◌, ◌∷◌}
use laso.Pipeline.Reference.{Bytes}
use laso.Scheduler.Clock.{UtcTime, three_digits}

abbrev four_digits : ℕ → Bytes
four_digits n = (48 + n / 1000 % 10) ∷ three_digits n

-- The bounds of the members that gmtime_r shows for a year of four digits.
abbrev pub IsShown : UtcTime → Type 0
IsShown u =
    (1970 ≤ u.year)
    × (u.year < 10000)
    × (u.month ≤ 12)
    × (u.day ≤ 31)
    × (u.hour ≤ 23)
    × (u.minute ≤ 59)
    × (u.second ≤ 60)
