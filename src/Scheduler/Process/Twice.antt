-- ===== src/Scheduler/Process/Twice.antt =====
-- src/scheduler/scheduler.cpp, `process_due`: a launch whose commit is lost.
use laso.Base.{
  ℕ, ◌+◌, ◌≡◌, refl, ap, ◌∙◌, ltb, Bool-cases, some, Bool, true, false, not, ◌&&◌, Option, [], ◌∷◌,
  ◌++◌, arith, codes, inl, inr, if-elim,
}
use laso.Core.Errors.{Error, Result, ok, err, Result-cases, bind-eq-ok}
use laso.Pipeline.Reference.{Bytes}
use laso.Security.{bytes_eq}
use laso.Security.Gateway.{bytes_eq_iff}
use laso.Tables.{get_row}
use laso.Scheduler.Cron.{is_nil}
use laso.Scheduler.Clock.{UtcTime, parse_utc_timestamp}
use laso.Scheduler.Schedules.{ScheduleDefinition}
use laso.Scheduler.Store.{Store, active_schedule_run, Occurrence, pending}
use laso.Scheduler.Launch.{
  Answers, started_schedule, launched_run, launch_failed, after_launch, launch, is_late, is_due,
  occurrence_of,
}
use laso.Scheduler.Process.{existing, decide, decide_overlap, claim_occurrence, process_schedule}
use laso.Scheduler.Process.Once.{count_runs, count_runs-append}

and_false : (b : Bool) → (b && false) ≡ false
and_false true = refl
and_false false = refl

module _ {Json : Type 0} (dump_size : Json → ℕ) (timegm : UtcTime → Option (UtcTime × ℕ))
    (gmtime : ℕ → Option (UtcTime × ℕ)) where
  failed-runs :
      (now : ℕ) (a : Answers) (due id : Bytes) (s : ScheduleDefinition Json) (e : Error)
      (store : Store Json)
      → (launch_failed dump_size timegm gmtime now a due id s e store).0.runs ≡ store.runs
  unfolding launch_failed
  failed-runs now a due id s e store = ground arith

  after_launch-runs :
      (now : ℕ) (a : Answers) (due id run_id : Bytes) (s : ScheduleDefinition Json)
      (r : Result (ScheduleDefinition Json)) (store : Store Json)
      → (after_launch dump_size timegm gmtime now a due id s run_id r store).0.runs ≡ store.runs
  unfolding after_launch
  after_launch-runs now a due id run_id s (err e) store = failed-runs now a due id s e store
  after_launch-runs now a due id run_id s (ok s') store = elim (Result-cases a.commit) [
    | inl (e, h) ↦ rw h (failed-runs now a due id s' e store)
    | inr (_, h) ↦ rw h refl
  ]

  launch-count_runs :
      (now : ℕ) (a : Answers) (due id run_id : Bytes) (s : ScheduleDefinition Json)
      (store : Store Json)
      → a.launch ≡ ok run_id
      → count_runs id (launch dump_size timegm gmtime now a due id s store).0.runs
        ≡ count_runs id store.runs + 1
  unfolding launch
  launch-count_runs now a due id run_id s store made =
      rw
        (
          made,
          after_launch-runs now a due id run_id s
              (started_schedule dump_size timegm gmtime now due s)
              (record store {
                runs = store.runs ++ (launched_run dump_size timegm gmtime now id s run_id ∷ []);
              }),
          count_runs-append id store.runs run_id
              (launched_run dump_size timegm gmtime now id s run_id).1,
          (bytes_eq_iff id id).1 refl,
        )
        refl

  -- The writes after a launch are lost: the process has ended, or the storage is away.
  abbrev pub Unwritten : Answers → Type 0
  Unwritten a = (e : Error) × (f : Error) × (a.commit ≡ err e) × (a.recommit ≡ err f)

  lost-failed :
      (now : ℕ) (a : Answers) (due id : Bytes) (s : ScheduleDefinition Json) (e : Error)
      (x : Store Json)
      → Unwritten a
      → (launch_failed dump_size timegm gmtime now a due id s e x).0.occurrences ≡ x.occurrences
  unfolding launch_failed
  lost-failed now a due id s e x lost = rw (lost.3) refl

  lost-after :
      (now : ℕ) (a : Answers) (due id run_id : Bytes) (s : ScheduleDefinition Json)
      → Unwritten a
      → (r : Result (ScheduleDefinition Json)) (x : Store Json)
      → (after_launch dump_size timegm gmtime now a due id s run_id r x).0.occurrences
        ≡ x.occurrences
  unfolding after_launch
  lost-after now a due id run_id s lost (err e) x = lost-failed now a due id s e x lost
  lost-after now a due id run_id s lost (ok s') x =
      rw (lost.2) (lost-failed now a due id s' lost.0 x lost)

  lost-occurrences :
      (now : ℕ) (a : Answers) (due id run_id : Bytes) (s : ScheduleDefinition Json)
      (store : Store Json)
      → a.launch ≡ ok run_id
      → Unwritten a
      → (launch dump_size timegm gmtime now a due id s store).0.occurrences ≡ store.occurrences
  unfolding launch
  lost-occurrences now a due id run_id s store made lost = rw made (
      lost-after now a due id run_id s lost (started_schedule dump_size timegm gmtime now due s)
        (record store {
          runs = store.runs ++ (launched_run dump_size timegm gmtime now id s run_id ∷ []);
        }))

  -- The occurrence is retried as a launch, at once.
  abbrev pub Retries : ℕ → Bytes → ScheduleDefinition Json → Type 0
  Retries now due s =
      (late : Bool) × (is_late dump_size timegm gmtime now due ≡ ok late)
      × (s.misfire_policy ≡ codes "RUN_ONCE")
      × (s.overlap_policy ≡ codes "ALLOW")

  decide_overlap-launch :
      (now : ℕ) (a : Answers) (due id : Bytes) (s : ScheduleDefinition Json) (store : Store Json)
      → s.overlap_policy ≡ codes "ALLOW"
      → decide_overlap dump_size timegm gmtime now a due id s store
        ≡ launch dump_size timegm gmtime now a due id s store
  unfolding decide_overlap bytes_eq
  decide_overlap-launch now a due id s store allow =
      if-elim
        (λ (x : Store Json × Result Bool). x ≡ launch dump_size timegm gmtime now a due id s store)
        (not s.queued && active_schedule_run store s.id) _ _ (λ _. rw allow refl) (λ _. refl)

  pub decide-launch :
      (now : ℕ) (a : Answers) (due id : Bytes) (s : ScheduleDefinition Json) (store : Store Json)
      → Retries now due s
      → decide dump_size timegm gmtime now a due id s store
        ≡ launch dump_size timegm gmtime now a due id s store
  unfolding decide bytes_eq
  decide-launch now a due id s store (late, parsed, run_once, allow) = rw parsed (
      if-elim
        (λ (x : Store Json × Result Bool). x ≡ launch dump_size timegm gmtime now a due id s store)
        (late && bytes_eq s.misfire_policy (codes "SKIP")) _ _
        (λ both. cc (rw (run_once, and_false late) at both))
        (λ _. decide_overlap-launch now a due id s store allow))

  -- The schedule runs missed occurrences, allows overlaps, and has a due time that has come.
  abbrev pub IsOwing : ℕ → ScheduleDefinition Json → Type 0
  IsOwing now s =
      (s.deleted ≡ false)
      × (s.enabled ≡ true)
      × (s.queued ≡ false)
      × (s.misfire_policy ≡ codes "RUN_ONCE")
      × (s.overlap_policy ≡ codes "ALLOW")
      × (is_due dump_size timegm gmtime now s.next_due_at ≡ ok true)

  abbrev pub next_occurrence : ScheduleDefinition Json → Bytes
  next_occurrence s = occurrence_of s.id s.next_due_at

  late_is_known :
      (now : ℕ) (due : Bytes)
      → is_due dump_size timegm gmtime now due ≡ ok true
      → (late : Bool) × (is_late dump_size timegm gmtime now due ≡ ok late)
  late_is_known now due h = elim (Bool-cases (is_nil due)) [
    | inl nothing ↦ (true, rw nothing refl)
    | inr given ↦
        let (t, parsed, _) = bind-eq-ok (parse_utc_timestamp timegm gmtime due) _ (rw given at h) in
        (ltb (t + 1000) now, rw (given, parsed) refl)
  ]

  -- The processing of a schedule that owes an occurrence comes to the claim of that occurrence.
  pub process_schedule-claims :
      (now : ℕ) (a : Answers) (s : ScheduleDefinition Json) (store : Store Json)
      → IsOwing now s
      → a.reads ≡ ok tt
      → process_schedule dump_size timegm gmtime now a s store
        ≡ claim_occurrence dump_size timegm gmtime now a s.next_due_at
            (next_occurrence s)
            s
            store
            (get_row (next_occurrence s) store.occurrences)
  unfolding process_schedule
  process_schedule-claims now a s store (kept, on, free, _, _, due) reads =
      simp (kept, on, free, due, reads) refl

  pub decide-owed :
      (now : ℕ) (a : Answers) (s : ScheduleDefinition Json) (store : Store Json)
      → IsOwing now s
      → decide dump_size timegm gmtime now a s.next_due_at (next_occurrence s) s store
        ≡ launch dump_size timegm gmtime now a s.next_due_at (next_occurrence s) s store
  decide-owed now a s store (_, _, _, run_once, allow, due) =
      let (late, known) = late_is_known now s.next_due_at due in
      decide-launch now a s.next_due_at (next_occurrence s) s store (late, known, run_once, allow)

  -- A pending occurrence is launched again, at once.
  process_schedule-retries :
      (now : ℕ) (a : Answers) (s : ScheduleDefinition Json) (store : Store Json) (o : Occurrence)
      → IsOwing now s
      → a.reads ≡ ok tt
      → get_row (next_occurrence s) store.occurrences ≡ some o
      → o.status ≡ pending
      → process_schedule dump_size timegm gmtime now a s store
        ≡ launch dump_size timegm gmtime now a s.next_due_at (next_occurrence s) s store
  unfolding claim_occurrence existing
  process_schedule-retries now a s store o owes reads row waits =
      let decides : claim_occurrence dump_size timegm gmtime now a s.next_due_at (next_occurrence s)
            s store (some o)
          ≡ decide dump_size timegm gmtime now a s.next_due_at (next_occurrence s) s store =
        rw (waits, existing) refl in
      process_schedule-claims now a s store owes reads
      ∙ ap
          (claim_occurrence dump_size timegm gmtime now a s.next_due_at (next_occurrence s) s store)
          row
      ∙ decides
      ∙ decide-owed now a s store owes

  -- A schedule with the policies RUN_ONCE and ALLOW owes an occurrence that is pending. If it is processed,
  -- the storage's reads succeed and the callback makes a run, but the writes that follow are lost, then
  -- the rows of occurrences are as they were, the occurrence pending still. If the schedule is processed
  -- again while it owes the occurrence, the reads succeed and the callback makes a run, that is a second
  -- run of the same occurrence.
  pub lost_writes_launch_twice :
      (now later : ℕ) (a b : Answers) (first second : Bytes) (s : ScheduleDefinition Json)
      (store : Store Json) (o : Occurrence)
      → IsOwing now s
      → IsOwing later s
      → get_row (next_occurrence s) store.occurrences ≡ some o
      → o.status ≡ pending
      → a.reads ≡ ok tt
      → a.launch ≡ ok first
      → Unwritten a
      → b.reads ≡ ok tt
      → b.launch ≡ ok second
      → ((process_schedule dump_size timegm gmtime now a s store).0.occurrences ≡ store.occurrences)
        × (count_runs
              (next_occurrence s)
              (process_schedule dump_size timegm gmtime later b s
                (process_schedule dump_size timegm gmtime now a s store).0).0.runs
            ≡ count_runs (next_occurrence s) store.runs + 2)
  lost_writes_launch_twice now later a b first second s store o owes owes' row waits reads made lost
        reads' again =
      let id = next_occurrence s in
      let due = s.next_due_at in
      let x = launch dump_size timegm gmtime now a due id s store in
      let same : x.0.occurrences ≡ store.occurrences =
        lost-occurrences now a due id first s store made lost in
      rw
        (
          process_schedule-retries now a s store o owes reads row waits,
          process_schedule-retries later b s x.0 o owes' reads'
              (ap (λ rows. get_row id rows) same ∙ row) waits,
        )
        (
          same,
          omega (
            arith,
            launch-count_runs now a due id first s store made,
            launch-count_runs later b due id second s x.0 again,
          ),
        )
