-- ===== src/Scheduler/Process/Replays.antt =====
-- src/scheduler/scheduler.cpp, `process_due`: the occurrences that a schedule has missed.
use laso.Base.{ℕ, ◌≡◌, refl, subst, ◌∙◌, true, false, Option, none, some, [], ◌∷◌, ◌++◌}
use laso.Core.Errors.{ok, bind-eq-ok}
use laso.Pipeline.Reference.{Bytes}
use laso.Security.{bytes_eq}
use laso.Tables.{get_row, put_row, get_row-put_row, get_row-put_self}
use laso.Scheduler.Clock.{UtcTime, format_utc_timestamp}
use laso.Scheduler.Schedules.{ScheduleDefinition, is_type, next_schedule_due}
use laso.Scheduler.Store.{claimed, started, ScheduledRun, Store, record_value}
use laso.Scheduler.Launch.{
  Answers, is_due, stamped, advance_schedule, started_schedule, launched_run, commit_both, launch,
  after_launch,
}
use laso.Scheduler.Process.{claim_occurrence, decide, process_schedule}
use laso.Scheduler.Process.Twice.{IsOwing, next_occurrence, process_schedule-claims, decide-owed}

module _ {Json : Type 0} (dump_size : Json → ℕ) (timegm : UtcTime → Option (UtcTime × ℕ))
    (gmtime : ℕ → Option (UtcTime × ℕ)) (now : ℕ) where
  -- The storage answers, and the callback makes the run.
  abbrev pub MakesRun : Answers → Bytes → Type 0
  MakesRun a run_id = (a.reads ≡ ok tt) × (a.launch ≡ ok run_id) × (a.commit ≡ ok tt)

  abbrev pub made_run : ScheduleDefinition Json → Bytes → Bytes × ScheduledRun
  made_run s run_id =
      launched_run dump_size timegm gmtime now (next_occurrence dump_size timegm gmtime s) s run_id

  -- The store after the launch of the due occurrence, and the schedule `s'` with it.
  abbrev pub served_store :
      Answers → Bytes → ScheduleDefinition Json → ScheduleDefinition Json → Store Json → Store Json
  served_store a run_id s s' store =
      commit_both dump_size timegm gmtime now a s.next_due_at started run_id "schedule.run_created"
        (next_occurrence dump_size timegm gmtime s) s'
        (record store {
          occurrences =
              put_row (next_occurrence dump_size timegm gmtime s)
                (record_value claimed s s.next_due_at []) store.occurrences;
          runs = store.runs ++ (made_run s run_id ∷ []);
        })

  process_schedule-serves :
      (a : Answers) (run_id : Bytes) (s s' : ScheduleDefinition Json) (store : Store Json)
      → IsOwing dump_size timegm gmtime now s
      → MakesRun a run_id
      → get_row (next_occurrence dump_size timegm gmtime s) store.occurrences ≡ none
      → started_schedule dump_size timegm gmtime now s.next_due_at s ≡ ok s'
      → process_schedule dump_size timegm gmtime now a s store
        ≡ (served_store a run_id s s' store, ok true)
  unfolding process_schedule claim_occurrence launch after_launch
  process_schedule-serves a run_id s s' store owes (reads, made, commits) no_row starts =
      let claimed_store : Store Json = record store {
        occurrences =
            put_row (next_occurrence dump_size timegm gmtime s)
              (record_value claimed s s.next_due_at []) store.occurrences;
      } in
      let decides : claim_occurrence dump_size timegm gmtime now a s.next_due_at
            (next_occurrence dump_size timegm gmtime s) s store
            (get_row (next_occurrence dump_size timegm gmtime s) store.occurrences)
          ≡ decide dump_size timegm gmtime now a s.next_due_at
              (next_occurrence dump_size timegm gmtime s) s claimed_store =
        rw no_row refl in
      let launches : launch dump_size timegm gmtime now a s.next_due_at
            (next_occurrence dump_size timegm gmtime s) s claimed_store
          ≡ (served_store a run_id s s' store, ok true) =
        rw (made, starts, commits) refl in
      process_schedule-claims dump_size timegm gmtime now a s store owes reads
      ∙ decides
      ∙ decide-owed dump_size timegm gmtime now a s claimed_store owes
      ∙ launches

  -- A launch changes no policy of a recurring schedule.
  abbrev pub SamePolicy : ScheduleDefinition Json → ScheduleDefinition Json → Type 0
  SamePolicy s s' =
      (s'.id ≡ s.id)
      × (s'.deleted ≡ s.deleted)
      × (s'.enabled ≡ s.enabled)
      × (s'.queued ≡ false)
      × (s'.misfire_policy ≡ s.misfire_policy)
      × (s'.overlap_policy ≡ s.overlap_policy)

  stamped-SamePolicy :
      (s s' : ScheduleDefinition Json)
      → s.queued ≡ false
      → stamped dump_size timegm gmtime now s ≡ ok s'
      → SamePolicy s s'
  stamped-SamePolicy s s' free h =
      let (text, _, h1) = bind-eq-ok (format_utc_timestamp gmtime now) _ h in
      let same : record s { updated_at = text } ≡ s' = cc h1 in
      subst (SamePolicy s) same (refl, refl, refl, free, refl, refl)

  started_schedule-SamePolicy :
      (due : Bytes) (s s' : ScheduleDefinition Json)
      → is_type "one_time" s ≡ false
      → started_schedule dump_size timegm gmtime now due s ≡ ok s'
      → SamePolicy s s'
  unfolding advance_schedule
  started_schedule-SamePolicy due s s' recurs h =
      let (text, _, h1) = bind-eq-ok (format_utc_timestamp gmtime now) _ h in
      let (next, _, h2) =
        bind-eq-ok
          (next_schedule_due dump_size timegm gmtime now
            (record s {
              queued = false;
              queued_due_at = [];
              last_due_at = due;
              last_started_at = text;
            })
            due)
          _ (rw recurs at h1) in
      stamped-SamePolicy
        (record s {
          queued = false;
          queued_due_at = [];
          last_due_at = due;
          last_started_at = text;
          next_due_at = next;
        })
        s' refl h2

  -- A recurring schedule with the policies RUN_ONCE and ALLOW that owes an occurrence, and whose due time
  -- after the launch of that one has come as well, is launched twice at the same time `now`: once for each
  -- missed occurrence. The first launch does not move it past the other missed ones.
  pub run_once_replays :
      (a b : Answers) (first second : Bytes) (s s' s'' : ScheduleDefinition Json)
      (store : Store Json)
      → IsOwing dump_size timegm gmtime now s
      → is_type "one_time" s ≡ false
      → MakesRun a first
      → MakesRun b second
      → started_schedule dump_size timegm gmtime now s.next_due_at s ≡ ok s'
      → is_due dump_size timegm gmtime now s'.next_due_at ≡ ok true
      → started_schedule dump_size timegm gmtime now s'.next_due_at s' ≡ ok s''
      → get_row (next_occurrence dump_size timegm gmtime s) store.occurrences ≡ none
      → get_row (next_occurrence dump_size timegm gmtime s') store.occurrences ≡ none
      → bytes_eq
          (next_occurrence dump_size timegm gmtime s)
          (next_occurrence dump_size timegm gmtime s')
        ≡ false
      → (get_row s'.id (process_schedule dump_size timegm gmtime now a s store).0.schedules
          ≡ some s')
        × ((process_schedule dump_size timegm gmtime now b s'
              (process_schedule dump_size timegm gmtime now a s store).0).0.runs
            ≡ (store.runs ++ (made_run s first ∷ [])) ++ (made_run s' second ∷ []))
  run_once_replays a b first second s s' s'' store owes recurs serves again starts due restarts
        no_row no_next other =
      let (kept, on, free, run_once, allow, _) = owes in
      let (_, kept', on', free', run_once', allow') =
        started_schedule-SamePolicy s.next_due_at s s' recurs starts in
      let x : Store Json = served_store a first s s' store in
      let owes' : IsOwing dump_size timegm gmtime now s' =
        (kept' ∙ kept, on' ∙ on, free', run_once' ∙ run_once, allow' ∙ allow, due) in
      let no_row' : get_row (next_occurrence dump_size timegm gmtime s') x.occurrences ≡ none =
        rw
          (
            get_row-put_row (next_occurrence dump_size timegm gmtime s)
                (next_occurrence dump_size timegm gmtime s'),
            other,
            get_row-put_row (next_occurrence dump_size timegm gmtime s)
                (next_occurrence dump_size timegm gmtime s'),
            other,
          )
          no_next in
      rw
        (
          process_schedule-serves a first s s' store owes serves no_row starts,
          process_schedule-serves b second s' s'' x owes' again no_row' restarts,
        )
        (get_row-put_self s'.id s' store.schedules, refl)
