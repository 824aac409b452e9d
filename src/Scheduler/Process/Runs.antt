-- ===== src/Scheduler/Process/Runs.antt =====
-- src/scheduler/scheduler.cpp, `process_due`: an occurrence has one run at most.
use laso.Base.{
  ℕ, ◌≤◌, ◌≡◌, refl, inl, inr, Bool, true, false, not, ◌&&◌, ◌||◌, Option, none, some, [], ◌∷◌,
  arith, length, if-elim,
}
use laso.Core.Errors.{Result, ok, err}
use laso.Pipeline.Reference.{Bytes}
use laso.Tables.{get_row, put_row, first_rows, get_row-put_self, first_rows-all}
use laso.Scheduler.Cron.{is_nil}
use laso.Scheduler.Clock.{UtcTime, format_utc_timestamp}
use laso.Scheduler.Schedules.{ScheduleDefinition}
use laso.Scheduler.Store.{
  OccurrenceStatus, claimed, pending, queued, started, skipped, failed, Occurrence, ScheduledRun,
  Store, record_value, find_run,
}
use laso.Scheduler.Launch.{Answers, occurrence_of}
use laso.Scheduler.Process.{
  reconciled, reconcile, existing, claim_occurrence, due_of, wanted, process_wanted,
  process_schedule,
}
use laso.Scheduler.Process.Once.{count_runs, allowed, allowed_row, find_run-none, put_row-Once}
use laso.Scheduler.Process.Steps.{IsOnce, After, NoCapacity, decide-IsOnce}

-- The id of an occurrence is not empty.
occurrence_of-ne-nil : (id due : Bytes) → is_nil (occurrence_of id due) ≡ false
occurrence_of-ne-nil [] due = refl
occurrence_of-ne-nil (c ∷ cs) due = refl

-- What the answers to one processing must be like: no `Capacity` after a run was made, few enough runs
-- for all of them to be listed, and a failure that is written if the occurrence was already tried.
abbrev pub Survives :
    {Json : Type 0}
    → (Json → ℕ)
    → (UtcTime → Option (UtcTime × ℕ))
    → (ℕ → Option (UtcTime × ℕ))
    → ℕ
    → Answers
    → ScheduleDefinition Json
    → Store Json
    → Type 0
Survives dump_size timegm gmtime now a s store =
    let due = due_of dump_size timegm gmtime now s in
    NoCapacity dump_size timegm gmtime now a due (occurrence_of s.id due) s
    × (length store.runs ≤ 10000)
    × ((o : Occurrence)
        → get_row (occurrence_of s.id due) store.occurrences ≡ some o
        → allowed o.status ≡ 0
        → a.recommit ≡ ok tt)

-- The stores that are reached. `elsewhere`: what others do to schedules, events, other runs and the
-- states of runs.
pub data Reaches {Json : Type 0} (dump_size : Json → ℕ) (timegm : UtcTime → Option (UtcTime × ℕ))
    (gmtime : ℕ → Option (UtcTime × ℕ)) : Store Json → Type 0 where
  empty :
      {store : Store Json}
      → store.occurrences ≡ []
      → store.runs ≡ []
      → Reaches dump_size timegm gmtime store
  processed :
      {store : Store Json} (now : ℕ) (a : Answers) (s : ScheduleDefinition Json)
      → Reaches dump_size timegm gmtime store
      → Survives dump_size timegm gmtime now a s store
      → Reaches dump_size timegm gmtime (process_schedule dump_size timegm gmtime now a s store).0
  elsewhere :
      {store store' : Store Json}
      → Reaches dump_size timegm gmtime store
      → store'.occurrences ≡ store.occurrences
      → ((id : Bytes) → is_nil id ≡ false → count_runs id store'.runs ≡ count_runs id store.runs)
      → Reaches dump_size timegm gmtime store'

module _ {Json : Type 0} (dump_size : Json → ℕ) (timegm : UtcTime → Option (UtcTime × ℕ))
    (gmtime : ℕ → Option (UtcTime × ℕ)) where
  abbrev Good : Store Json → Type 0
  Good = IsOnce dump_size timegm gmtime

  abbrev Goes : Store Json × Result Bool → Type 0
  Goes = After dump_size timegm gmtime

  module _ (now : ℕ) (a : Answers) (due id : Bytes) (s : ScheduleDefinition Json)
      (store : Store Json) (other : NoCapacity dump_size timegm gmtime now a due id s)
      (real : is_nil id ≡ false) (once : Good store) where
    reconciled-Good :
        (o : Occurrence) (run : ScheduledRun) (text : Result Bytes) (answer : Result (Unit {0}))
        → count_runs id store.runs ≤ 1
        → Goes (reconciled dump_size timegm gmtime now a due id s store o run text answer)
    reconciled-Good o run (err e) answer fits = once
    reconciled-Good o run (ok text) (err e) fits = once
    reconciled-Good o run (ok text) (ok _) fits =
        put_row-Once store.runs store.occurrences id _ once fits

    reconcile-Good :
        (o : Occurrence) (found : Option ScheduledRun)
        → (found ≡ none → count_runs id store.runs ≡ 0)
        → count_runs id store.runs ≤ 1
        → allowed_row (get_row id store.occurrences) ≡ 1
        → Goes (reconcile dump_size timegm gmtime now a due id s store o found)
    unfolding reconcile
    reconcile-Good o none lost fits one =
        decide-IsOnce dump_size timegm gmtime now a due id s store once (lost refl) other (inl one)
    reconcile-Good o (some run) lost fits one =
        reconciled-Good o run (format_utc_timestamp gmtime now) a.commit fits

    existing-Good :
        (o : Occurrence) (status : OccurrenceStatus)
        → length store.runs ≤ 10000
        → count_runs id store.runs ≤ allowed status
        → allowed_row (get_row id store.occurrences) ≡ allowed status
        → (allowed status ≡ 0 → a.recommit ≡ ok tt)
        → Goes (existing dump_size timegm gmtime now a due id s store o status)
    unfolding existing
    existing-Good o started listed fits row retry = once
    existing-Good o skipped listed fits row retry = once
    existing-Good o failed listed fits row retry = once
    existing-Good o claimed listed fits row retry =
        reconcile-Good o (find_run id (first_rows 10000 store.runs))
          (rw (first_rows-all 10000 store.runs listed) (find_run-none id store.runs)) fits row
    existing-Good o pending listed fits row retry =
        decide-IsOnce dump_size timegm gmtime now a due id s store once (omega arith) other
          (inr (retry refl))
    existing-Good o queued listed fits row retry =
        decide-IsOnce dump_size timegm gmtime now a due id s store once (omega arith) other
          (inr (retry refl))

    claim-Good :
        (row : Option Occurrence)
        → get_row id store.occurrences ≡ row
        → length store.runs ≤ 10000
        → ((o : Occurrence) → row ≡ some o → allowed o.status ≡ 0 → a.recommit ≡ ok tt)
        → Goes (claim_occurrence dump_size timegm gmtime now a due id s store row)
    unfolding claim_occurrence
    claim-Good none e listed retry =
        let free : count_runs id store.runs ≡ 0 = omega (arith, rw e at (once id real)) in
        let new : Occurrence = record_value claimed s due [] in
        let store' : Store Json = record store { occurrences = put_row id new store.occurrences } in
        decide-IsOnce dump_size timegm gmtime now a due id s store'
          (put_row-Once store.runs store.occurrences id new once (omega (arith, free))) free other
          (inl (rw (get_row-put_self id new store.occurrences) refl))
    claim-Good (some o) e listed retry =
        existing-Good o o.status listed (rw e at (once id real)) (rw e refl) (retry o refl)

  wanted-Good :
      (now : ℕ) (a : Answers) (s : ScheduleDefinition Json) (store : Store Json) (due : Result Bool)
      (reads : Result (Unit {0}))
      → Good store
      → Survives dump_size timegm gmtime now a s store
      → Goes (process_wanted dump_size timegm gmtime now a s store due reads)
  wanted-Good now a s store (err e) reads once h = once
  wanted-Good now a s store (ok false) reads once h = once
  wanted-Good now a s store (ok true) (err e) once h = once
  wanted-Good now a s store (ok true) (ok _) once h =
      claim-Good now a (due_of dump_size timegm gmtime now s)
        (occurrence_of s.id (due_of dump_size timegm gmtime now s)) s store h.0
        (occurrence_of-ne-nil s.id (due_of dump_size timegm gmtime now s)) once _ refl h.1 h.2

  process_schedule-Good :
      (now : ℕ) (a : Answers) (s : ScheduleDefinition Json) (store : Store Json)
      → Good store
      → Survives dump_size timegm gmtime now a s store
      → Goes (process_schedule dump_size timegm gmtime now a s store)
  unfolding process_schedule
  process_schedule-Good now a s store once h =
      if-elim Goes (s.deleted || (not s.enabled && not s.queued)) _ _ (λ _. once)
        (λ _. wanted-Good now a s store (wanted dump_size timegm gmtime now s) a.reads once h)

  Reaches-Good : {store : Store Json} → Reaches dump_size timegm gmtime store → Good store
  unfolding count_runs get_row
  Reaches-Good (empty {store} no_rows no_runs) = λ id real. rw (no_rows, no_runs) (omega arith)
  Reaches-Good (processed {store} now a s r h) =
      λ id real. process_schedule-Good now a s store (Reaches-Good r) h id real
  Reaches-Good (elsewhere {store} {store'} r rows runs) =
      λ id real. rw (rows, runs id real) (Reaches-Good r id real)

  allowed-le-one : (o : Option Occurrence) → allowed_row o ≤ 1
  allowed-le-one none = omega arith
  allowed-le-one (some o) = ground arith

  -- In every store that the processing of schedules reaches from an empty one, an occurrence has at most
  -- one run. The processings may be stopped, refused or thrown out of at any point, and others may change
  -- schedules and the states of runs between them, as long as: what follows the making of a run does not
  -- throw `Capacity`; a launch of an occurrence that was pending or queued gets its failure written; and
  -- there are at most 10000 runs.
  pub at_most_one_run :
      {store : Store Json}
      → Reaches dump_size timegm gmtime store
      → (schedule_id due : Bytes) → count_runs (occurrence_of schedule_id due) store.runs ≤ 1
  at_most_one_run {store} r schedule_id due =
      let id = occurrence_of schedule_id due in
      let once : count_runs id store.runs ≤ allowed_row (get_row id store.occurrences) =
        Reaches-Good r id (occurrence_of-ne-nil schedule_id due) in
      omega (arith, once, allowed-le-one (get_row id store.occurrences))
