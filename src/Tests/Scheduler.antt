-- ===== src/Tests/Scheduler.antt =====
-- Tests of src/scheduler/scheduler.cpp.
use laso.Base.{
  ℕ, ◌+◌, ◌*◌, ◌≤◌, ◌<◌, ◌≡◌, refl, ◌↔◌, Bool, true, false, Option, some, List, [], ◌∷◌, length,
  codes, In, arith,
}
use laso.Core.Errors.{ok}
use laso.Pipeline.Reference.{Bytes, stoul, read_digits, signed_digits, unsigned_digits}
use laso.Scheduler.Cron.{
  CronField, Range, Cron, Tm, bit, split, number, normalized, fill, range_ends, part_range,
  step_range, cron_part, add_parts, cron_field, cron_match, cron_search,
}
use laso.Scheduler.Cron.Parts.{cron_field_values}
use laso.Scheduler.Cron.Next.{cron_search_first}

-- Friday to Sunday.
abbrev weekend : CronField
weekend = record {
  values = true ∷ false ∷ false ∷ false ∷ false ∷ true ∷ true ∷ false ∷ [];
  wildcard = false;
}

weekend_field : cron_field (codes "5-7") 0 7 true ≡ ok weekend
unfolding cron_field add_parts cron_part step_range part_range range_ends number split fill stoul
    signed_digits unsigned_digits read_digits
weekend_field = refl

cron_field_values_example :
    (length weekend.values ≡ 8)
    × ((v : ℕ)
        → (bit v weekend.values ≡ true) ↔ (
            (part : Bytes) × (r : Range) × In part (split (codes "5-7") 44)
            × (cron_part 0 7 part ≡ ok r)
            × ((k : ℕ) × (r.first + k * r.step ≤ r.last)
                × (normalized true (r.first + k * r.step) ≡ v))))
cron_field_values_example =
    cron_field_values 0 7 true (ground arith) (codes "5-7") weekend weekend_field

abbrev any_value : List Bool → CronField
any_value bits = record { values = bits; wildcard = true }

-- Minute 2 of each hour, by a calendar that knows minutes only.
abbrev at_two : Cron
at_two = record {
  minute = record { values = false ∷ false ∷ true ∷ []; wildcard = false };
  hour = any_value (true ∷ []);
  day = any_value (true ∷ []);
  month = any_value (false ∷ true ∷ []);
  weekday = any_value (true ∷ []);
}

abbrev minutes_only : ℕ → Option Tm
minutes_only m = some (record { tm_min = m; tm_hour = 0; tm_mday = 0; tm_mon = 0; tm_wday = 0 })

cron_search_first_example : (cron_search minutes_only at_two 10 1 ≡ ok 2) ↔ (
    (1 ≤ 2)
    × (2 < 11)
    × ((utc : Tm) × (minutes_only 2 ≡ some utc) × (cron_match at_two utc ≡ true))
    × ((i : ℕ)
        → 1 ≤ i
        → i < 2
        → (utc : Tm) × (minutes_only i ≡ some utc) × (cron_match at_two utc ≡ false)))
cron_search_first_example = cron_search_first minutes_only at_two 10 1 2
