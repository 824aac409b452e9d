-- ===== src/Scheduler/Process/Steps.antt =====
-- src/scheduler/scheduler.cpp, `process_due`: the branches after the claim keep to one run for each occurrence.
use laso.Base.{
  ℕ, ◌≡◌, refl, ◌⊎◌, inl, inr, Bool, false, not, ◌&&◌, Option, [], ◌∷◌, ◌++◌, arith, codes, if-elim,
}
use laso.Core.Errors.{Error, Result, ok, err, Result-cases}
use laso.Pipeline.Reference.{Bytes}
use laso.Security.{bytes_eq}
use laso.Tables.{get_row}
use laso.Scheduler.Clock.{UtcTime}
use laso.Scheduler.Schedules.{ScheduleDefinition}
use laso.Scheduler.Store.{Store, active_schedule_run}
use laso.Scheduler.Launch.{
  Answers, is_capacity, settle, launched_run, started_schedule, after_launch, launch_failed, launch,
  is_late,
}
use laso.Scheduler.Process.{
  misfire, skip_overlap, queue_overlap, decide_overlap, decide_late, decide,
}
use laso.Scheduler.Process.Once.{
  Once, count_runs, allowed_row, put_row-Once, launched-Once, finished-Once,
}

module _ {Json : Type 0} (dump_size : Json → ℕ) (timegm : UtcTime → Option (UtcTime × ℕ))
    (gmtime : ℕ → Option (UtcTime × ℕ)) where
  abbrev pub IsOnce : Store Json → Type 0
  IsOnce store = Once store.runs store.occurrences

  abbrev pub After : Store Json × Result Bool → Type 0
  After x = IsOnce x.0

  module _ (now : ℕ) (a : Answers) (due id : Bytes) (s : ScheduleDefinition Json) where
    -- What follows the making of a run throws no `Capacity`.
    abbrev pub NoCapacity : Type 0
    NoCapacity =
        (e : Error)
        → (started_schedule dump_size timegm gmtime now due s ≡ err e) ⊎ (a.commit ≡ err e)
        → is_capacity e.code ≡ false

    module _ (store : Store Json) (once : IsOnce store) (free : count_runs id store.runs ≡ 0) where
      settle-IsOnce :
          (r : Result (ScheduleDefinition Json)) (answer : Result (Unit {0}))
          (write : ScheduleDefinition Json → Store Json)
          → ((s' : ScheduleDefinition Json) → IsOnce (write s'))
          → After (settle dump_size timegm gmtime now r answer write store)
      settle-IsOnce (err e) answer write w = once
      settle-IsOnce (ok s') (err e) write w = once
      settle-IsOnce (ok s') (ok _) write w = w s'

      misfire-IsOnce : After (misfire dump_size timegm gmtime now a due id s store)
      unfolding misfire
      misfire-IsOnce =
          settle-IsOnce _ a.commit _
            (λ s'. put_row-Once store.runs store.occurrences id _ once (omega (arith, free)))

      skip_overlap-IsOnce : After (skip_overlap dump_size timegm gmtime now a due id s store)
      unfolding skip_overlap
      skip_overlap-IsOnce =
          settle-IsOnce _ a.commit _
            (λ s'. put_row-Once store.runs store.occurrences id _ once (omega (arith, free)))

      queue_overlap-IsOnce : After (queue_overlap dump_size timegm gmtime now a due id s store)
      unfolding queue_overlap
      queue_overlap-IsOnce =
          settle-IsOnce _ a.commit _
            (λ s'. put_row-Once store.runs store.occurrences id _ once (omega (arith, free)))

      -- A launch that has failed before it has made a run.
      refused-IsOnce :
          (e : Error) → After (launch_failed dump_size timegm gmtime now a due id s e store)
      unfolding launch_failed
      refused-IsOnce e = elim (Result-cases a.recommit) [
        | inl (thrown, h) ↦ rw h once
        | inr (_, h) ↦
            rw h (put_row-Once store.runs store.occurrences id _ once (omega (arith, free)))
      ]

      -- The row of the occurrence is claimed, or the failure is written.
      abbrev pub IsKept : Type 0
      IsKept = (allowed_row (get_row id store.occurrences) ≡ 1) ⊎ (a.recommit ≡ ok tt)

      module _ (run_id : Bytes) where
        abbrev with_run : Store Json
        with_run = record store {
          runs = store.runs ++ (launched_run dump_size timegm gmtime now id s run_id ∷ []);
        }

        broken-IsOnce :
            (s' : ScheduleDefinition Json) (e : Error)
            → is_capacity e.code ≡ false
            → IsKept
            → After (launch_failed dump_size timegm gmtime now a due id s' e with_run)
        unfolding launch_failed
        broken-IsOnce s' e other kept = elim (Result-cases a.recommit) [
          | inl (thrown, h) ↦ elim kept [
            | inl one ↦
                rw h (launched-Once store.runs store.occurrences id run_id _ refl once free one)
            | inr written ↦ cc (h, written)
          ]
          | inr (_, h) ↦
              rw (h, other)
                (finished-Once store.runs store.occurrences id run_id _ _ refl once free refl)
        ]

        after_launch-IsOnce :
            (r : Result (ScheduleDefinition Json))
            → ((e : Error) → (r ≡ err e) ⊎ (a.commit ≡ err e) → is_capacity e.code ≡ false)
            → IsKept
            → After (after_launch dump_size timegm gmtime now a due id s run_id r with_run)
        unfolding after_launch
        after_launch-IsOnce (err e) other kept = broken-IsOnce s e (other e (inl refl)) kept
        after_launch-IsOnce (ok s') other kept = elim (Result-cases a.commit) [
          | inl (e, h) ↦ rw h (broken-IsOnce s' e (other e (inr h)) kept)
          | inr (_, h) ↦
              rw h (finished-Once store.runs store.occurrences id run_id _ _ refl once free refl)
        ]

      launch-IsOnce :
          NoCapacity → IsKept → After (launch dump_size timegm gmtime now a due id s store)
      unfolding launch
      launch-IsOnce other kept = elim (Result-cases a.launch) [
        | inl (e, h) ↦ rw h (refused-IsOnce e)
        | inr (run_id, h) ↦ rw h (
            after_launch-IsOnce run_id (started_schedule dump_size timegm gmtime now due s) other
              kept)
      ]

      decide_overlap-IsOnce :
          NoCapacity → IsKept → After (decide_overlap dump_size timegm gmtime now a due id s store)
      unfolding decide_overlap
      decide_overlap-IsOnce other kept =
          if-elim After (not s.queued && active_schedule_run store s.id) _ _
            (λ _.
              if-elim After (bytes_eq s.overlap_policy (codes "SKIP")) _ _
                (λ _. skip_overlap-IsOnce)
                (λ _.
                  if-elim After (bytes_eq s.overlap_policy (codes "QUEUE_ONE")) _ _
                    (λ _. queue_overlap-IsOnce) (λ _. launch-IsOnce other kept)))
            (λ _. launch-IsOnce other kept)

      decide_late-IsOnce :
          (late : Result Bool)
          → NoCapacity
          → IsKept
          → After (decide_late dump_size timegm gmtime now a due id s store late)
      decide_late-IsOnce (err e) other kept = once
      decide_late-IsOnce (ok late) other kept =
          if-elim After (late && bytes_eq s.misfire_policy (codes "SKIP")) _ _ (λ _. misfire-IsOnce)
            (λ _. decide_overlap-IsOnce other kept)

      pub decide-IsOnce :
          NoCapacity → IsKept → After (decide dump_size timegm gmtime now a due id s store)
      unfolding decide
      decide-IsOnce other kept =
          decide_late-IsOnce (is_late dump_size timegm gmtime now due) other kept
