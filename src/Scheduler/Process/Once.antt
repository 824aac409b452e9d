-- ===== src/Scheduler/Process/Once.antt =====
-- src/scheduler/scheduler.cpp, `process_due`: the runs of one occurrence.
use laso.Base.{
  ℕ, ◌+◌, ◌≤◌, ◌≡◌, refl, sym, subst, ◌∙◌, inl, inr, false, Option, none, some, List, [], ◌∷◌, ◌++◌,
  arith, if◌then◌else◌, Bool-cases,
}
use laso.Pipeline.Reference.{Bytes}
use laso.Security.{bytes_eq}
use laso.Security.Gateway.{bytes_eq_iff}
use laso.Tables.{get_row, put_row, get_row-put_row}
use laso.Scheduler.Cron.{is_nil}
use laso.Scheduler.Store.{
  OccurrenceStatus, claimed, pending, queued, started, skipped, failed, Occurrence, ScheduledRun,
  find_run,
}

unfoldable pub count_runs : Bytes → List (Bytes × ScheduledRun) → ℕ
count_runs id [] = 0
count_runs id ((key, run) ∷ rest) =
    (if bytes_eq run.schedule_occurrence_id id then 1 else 0) + count_runs id rest

-- How many runs an occurrence may have.
abbrev pub allowed : OccurrenceStatus → ℕ
allowed claimed = 1
allowed started = 1
allowed failed = 1
allowed pending = 0
allowed queued = 0
allowed skipped = 0

abbrev pub allowed_row : Option Occurrence → ℕ
allowed_row none = 0
allowed_row (some o) = allowed o.status

abbrev pub Once : List (Bytes × ScheduledRun) → List (Bytes × Occurrence) → Type 0
Once runs rows =
    (id : Bytes) → is_nil id ≡ false → count_runs id runs ≤ allowed_row (get_row id rows)

pub count_runs-append :
    (id : Bytes) (runs : List (Bytes × ScheduledRun)) (key : Bytes) (run : ScheduledRun)
    → count_runs id (runs ++ ((key, run) ∷ []))
      ≡ count_runs id runs + (if bytes_eq run.schedule_occurrence_id id then 1 else 0)
unfolding count_runs
count_runs-append id [] key run = ground arith
count_runs-append id ((other, r) ∷ rest) key run = omega (arith, count_runs-append id rest key run)

pub find_run-none :
    (id : Bytes) (runs : List (Bytes × ScheduledRun))
    → find_run id runs ≡ none
    → count_runs id runs ≡ 0
unfolding find_run count_runs
find_run-none id [] h = refl
find_run-none id ((key, run) ∷ rest) h = ground (arith, find_run-none id rest)

pub put_row-Once :
    (runs : List (Bytes × ScheduledRun)) (rows : List (Bytes × Occurrence)) (id : Bytes)
    (o : Occurrence)
    → Once runs rows
    → count_runs id runs ≤ allowed o.status
    → Once runs (put_row id o rows)
put_row-Once runs rows id o once fits j real =
    rw (get_row-put_row id j o rows) (elim (Bool-cases (bytes_eq id j)) [
      | inl same ↦
          let e : id ≡ j = (bytes_eq_iff id j).0 same in
          rw same (subst (λ k. count_runs k runs ≤ allowed o.status) e fits)
      | inr other ↦ rw other (once j real)
    ])

-- A new run of an occurrence that had none and may have one.
pub launched-Once :
    (runs : List (Bytes × ScheduledRun)) (rows : List (Bytes × Occurrence)) (id key : Bytes)
    (run : ScheduledRun)
    → run.schedule_occurrence_id ≡ id
    → Once runs rows
    → count_runs id runs ≡ 0
    → allowed_row (get_row id rows) ≡ 1
    → Once (runs ++ ((key, run) ∷ [])) rows
launched-Once runs rows id key run of once free one j real =
    elim (Bool-cases (bytes_eq run.schedule_occurrence_id j)) [
      | inl same ↦
          let e : id ≡ j = sym of ∙ (bytes_eq_iff run.schedule_occurrence_id j).0 same in
          rw (count_runs-append j runs key run, same)
            (subst (λ k. count_runs k runs + 1 ≤ allowed_row (get_row k rows)) e
              (omega (arith, free, one)))
      | inr other ↦ rw (count_runs-append j runs key run, other) (omega (arith, once j real))
    ]

-- The row is written anew, for the one run that it has got.
pub finished-Once :
    (runs : List (Bytes × ScheduledRun)) (rows : List (Bytes × Occurrence)) (id key : Bytes)
    (run : ScheduledRun) (o : Occurrence)
    → run.schedule_occurrence_id ≡ id
    → Once runs rows
    → count_runs id runs ≡ 0
    → allowed o.status ≡ 1
    → Once (runs ++ ((key, run) ∷ [])) (put_row id o rows)
finished-Once runs rows id key run o of once free one =
    launched-Once runs (put_row id o rows) id key run of
      (put_row-Once runs rows id o once (omega (arith, free))) free
      (rw (get_row-put_row id id o rows, (bytes_eq_iff id id).1 refl) one)
