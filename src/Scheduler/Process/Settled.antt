-- ===== src/Scheduler/Process/Settled.antt =====
-- src/scheduler/scheduler.cpp, `process_due`: an occurrence whose launch has failed.
use laso.Base.{ℕ, ◌≡◌, refl, Bool, true, false, not, ◌&&◌, ◌||◌, Option, some, [], if-elim}
use laso.Core.Errors.{Error, Result, ok, err}
use laso.Pipeline.Reference.{Bytes}
use laso.Tables.{get_row, put_row, get_row-put_self}
use laso.Scheduler.Clock.{UtcTime}
use laso.Scheduler.Schedules.{ScheduleDefinition}
use laso.Scheduler.Store.{failed, Occurrence, Store, record_value}
use laso.Scheduler.Launch.{Answers, is_capacity, occurrence_of, launch_failed, launch}
use laso.Scheduler.Process.{
  existing, claim_occurrence, due_of, wanted, process_wanted, process_schedule,
}

module _ {Json : Type 0} (dump_size : Json → ℕ) (timegm : UtcTime → Option (UtcTime × ℕ))
    (gmtime : ℕ → Option (UtcTime × ℕ)) where
  abbrev Unchanged : Store Json → Store Json × Result Bool → Type 0
  Unchanged store x = x.0 ≡ store

  abbrev occurrence_id : ScheduleDefinition Json → Bytes
  occurrence_id s = occurrence_of s.id (due_of dump_size timegm gmtime 0 s)

  claim-Unchanged :
      (now : ℕ) (a : Answers) (s : ScheduleDefinition Json) (store : Store Json) (o : Occurrence)
      → o.status ≡ failed
      → Unchanged store (
          claim_occurrence dump_size timegm gmtime now a
            (due_of dump_size timegm gmtime now s)
            (occurrence_id s)
            s
            store
            (some o))
  unfolding claim_occurrence existing
  claim-Unchanged now a s store o h = rw (h, existing) refl

  wanted-Unchanged :
      (now : ℕ) (a : Answers) (s : ScheduleDefinition Json) (store : Store Json) (due : Result Bool)
      (reads : Result (Unit {0})) (o : Occurrence)
      → get_row (occurrence_id s) store.occurrences ≡ some o
      → o.status ≡ failed
      → Unchanged store (process_wanted dump_size timegm gmtime now a s store due reads)
  wanted-Unchanged now a s store (err e) reads o row h = refl
  wanted-Unchanged now a s store (ok false) reads o row h = refl
  wanted-Unchanged now a s store (ok true) (err e) o row h = refl
  wanted-Unchanged now a s store (ok true) (ok _) o row h =
      rw row (claim-Unchanged now a s store o h)

  process_schedule-Unchanged :
      (now : ℕ) (a : Answers) (s : ScheduleDefinition Json) (store : Store Json) (o : Occurrence)
      → get_row (occurrence_id s) store.occurrences ≡ some o
      → o.status ≡ failed
      → Unchanged store (process_schedule dump_size timegm gmtime now a s store)
  unfolding process_schedule
  process_schedule-Unchanged now a s store o row h =
      if-elim (Unchanged store) (s.deleted || (not s.enabled && not s.queued)) _ _ (λ _. refl)
        (λ _. wanted-Unchanged now a s store (wanted dump_size timegm gmtime now s) a.reads o row h)

  -- The store after a launch of the due occurrence.
  abbrev pub launched : ℕ → Answers → ScheduleDefinition Json → Store Json → Store Json
  launched now a s store =
      (launch dump_size timegm gmtime now a (due_of dump_size timegm gmtime now s)
        (occurrence_of s.id (due_of dump_size timegm gmtime now s)) s store).0

  launched-failed :
      (now : ℕ) (a : Answers) (s : ScheduleDefinition Json) (store : Store Json) (e : Error)
      → a.launch ≡ err e
      → is_capacity e.code ≡ false
      → a.recommit ≡ ok tt
      → launched now a s store ≡ record store {
        occurrences =
            put_row
              (occurrence_id s)
              (record_value failed s (due_of dump_size timegm gmtime now s) [])
              store.occurrences;
      }
  unfolding launch launch_failed
  launched-failed now a s store e fails other kept = rw (fails, kept, other) refl

  -- A launch that fails with any error but `Capacity`, and whose failure is committed, leaves the row of
  -- the schedule as it was; and as long as that row stays, every later processing of the schedule, at any
  -- time and whatever the storage and the callback answer, changes nothing: it is not launched again.
  pub failed_launch_stalls :
      (now : ℕ) (a : Answers) (s : ScheduleDefinition Json) (store : Store Json) (e : Error)
      → a.launch ≡ err e
      → is_capacity e.code ≡ false
      → a.recommit ≡ ok tt
      → ((launched now a s store).schedules ≡ store.schedules)
        × ((later : ℕ) (b : Answers)
            → (process_schedule dump_size timegm gmtime later b s (launched now a s store)).0
              ≡ launched now a s store)
  failed_launch_stalls now a s store e fails other kept =
      let id = occurrence_id s in
      let value = record_value failed s (due_of dump_size timegm gmtime now s) [] in
      let after = launched-failed now a s store e fails other kept in
      let row : get_row id (put_row id value store.occurrences) ≡ some value =
        get_row-put_self id value store.occurrences in
      rw after (refl, λ later b. process_schedule-Unchanged later b s _ value row refl)
