-- ===== src/Workers/Manager/Events/Budgeted.antt =====
-- src/workers/manager.cpp, `apply_event`: the budgets hold for a job that an event has changed.
use laso.Base.{
  ◌≡◌, refl, sym, subst, ◌∙◌, ◌⊎◌, inl, inr, Bool, true, false, not, ◌&&◌, ◌||◌, Option, none, some,
  [], arith, codes, Bool-cases, Option-cases, if-elim, if◌then◌else◌,
}
use laso.Core.Errors.{Result, ok, err, ◌>>=◌, bind-eq-ok, then-eq-ok, Result-cases}
use laso.Pipeline.Reference.{Bytes}
use laso.Security.{bytes_eq}
use laso.Tables.{get_row, put_row, first_rows, get_row-put_row}
use laso.Workers.{
  WorkerJobState, same_job_state, valid_worker_job_transition, write_worker_job,
  worker_job_terminal,
}
use laso.Workers.Usage.{WorkerLimits, WorkerFailureKind, CostOps, budget_violation, total_tokens}
use laso.Workers.Usage.Budget.{Within, spent_tokens, no_violation_within}
use laso.Workers.Manager.{
  JsonOps, Job, Rows, member_or, is_some, job, bounded_identifier, max_job_id_bytes, rows_of,
  persisted, check_job, commit_job, persist,
}
use laso.Workers.Manager.Events.{
  WorkerEvent, violation, enforce, complete_at, progressed, advanced, moved, adopt_external,
  handle_job, handle_event, kept_rows, persist_handled, apply_named, apply_event, event_state,
  show_progress, merge_reported, starts_with,
}

write-eq-ok :
    {Json Cost : Type 0} (old : Option (Job Json Cost)) (new row : Job Json Cost)
    → write_worker_job old new ≡ ok row
    → row ≡ new
unfolding write_worker_job
write-eq-ok none new row h = cc h
write-eq-ok (some old) new row h = ground arith

module _ {Json Cost : Type 0} (json : JsonOps Json Cost) (c : CostOps Cost) (finite : Cost → Bool)
    (m : WorkerLimits Cost) (now : Bytes) (rows : Rows Json Cost) where
  commit_job-eq-ok :
      (value : Job Json Cost) (after : Rows Json Cost)
      → commit_job rows value ≡ ok after
      → put_row (codes value.id) value rows ≡ after
  unfolding commit_job
  commit_job-eq-ok value after h =
      let (row, written, h2) =
        bind-eq-ok (write_worker_job (get_row (codes value.id) rows) value)
          (λ x. ok (put_row (codes value.id) x rows)) h in
      let same : row ≡ value = write-eq-ok (get_row (codes value.id) rows) value row written in
      cc (h2, same)

  -- The job has failed by its budget, or it violates none.
  abbrev pub Checked : Job Json Cost → Type 0
  Checked j =
      ((j.state ≡ WorkerJobState.failed) × (j.body.failure_kind ≡ WorkerFailureKind.budget_failure))
      ⊎ (violation json c finite m now rows j ≡ none)

  -- Whatever is to be persisted is checked.
  abbrev pub Ends : Result (Option (Job Json Cost)) → Type 0
  Ends r = (j : Job Json Cost) → r ≡ ok (some j) → Checked j

  pub Ends-bind :
      {A : Type 0} (r : Result A) (rest : A → Result (Option (Job Json Cost)))
      → ((a : A) → Ends (rest a))
      → Ends (r >>= rest)
  Ends-bind (ok a) rest each = each a
  Ends-bind (err e) rest each = λ j h. cc h

  pub Ends-none : Ends (ok none)
  Ends-none j h = cc h

  pub enforce-Checked : (j : Job Json Cost) → Checked (enforce json c finite m now rows j)
  enforce-Checked j = elim (Option-cases (violation json c finite m now rows j)) [
    | inl fits ↦ rw fits (inr fits)
    | inr (text, over) ↦ rw over (inl (refl, refl))
  ]

  complete-Checked :
      (done : Bool) (j : Job Json Cost)
      → Checked j
      → Checked (complete_at json c finite m now rows done j)
  unfolding budget_violation
  complete-Checked done j h = h

  persisted-Checked : (j : Job Json Cost) → Checked j → Checked (persisted j)
  unfolding budget_violation
  persisted-Checked j h = h

  pub Checked-Ends :
      (done : Bool) (j : Job Json Cost)
      → Checked j
      → Ends (ok (some (complete_at json c finite m now rows done j)))
  Checked-Ends done j h = λ k same.
      let e : complete_at json c finite m now rows done j ≡ k = cc same in
      subst Checked e (complete-Checked done j h)

  pub Ends-if :
      (b : Bool) (x y : Result (Option (Job Json Cost)))
      → Ends x
      → Ends y
      → Ends (if b then x else y)
  Ends-if true x y hx hy = hx
  Ends-if false x y hx hy = hy

  progressed-Ends :
      (payload : Json) (value : Job Json Cost)
      → Ends (progressed json c finite m now rows payload value)
  unfolding progressed
  progressed-Ends payload value =
      Ends-bind
        (show_progress json c finite m now rows
          (member_or json (json.member payload "progress") json.empty_object) value)
        _
        (λ shown.
          Ends-bind (merge_reported json c finite m now rows (json.member payload "usage") shown) _
            (λ merged.
              Checked-Ends (is_some (violation json c finite m now rows merged))
                (enforce json c finite m now rows merged) (enforce-Checked merged)))

  advanced-Ends :
      (next : WorkerJobState) (payload : Json) (value : Job Json Cost)
      → Ends (advanced json c finite m now rows next payload value)
  unfolding advanced
  advanced-Ends next payload value =
      Ends-if
        (same_job_state next WorkerJobState.unknown
          || (not (same_job_state next value.state)
              && not (valid_worker_job_transition value.state next)))
        _ _ Ends-none
        (Ends-bind (moved json c finite m now rows next payload (record value { state = next })) _
          (λ changed.
            Checked-Ends (worker_job_terminal (enforce json c finite m now rows changed).state)
              (enforce json c finite m now rows changed) (enforce-Checked changed)))

  handle_job-Ends :
      (event : WorkerEvent Json) (o : Option (Job Json Cost))
      → Ends (handle_job json c finite m now rows event o)
  handle_job-Ends event none = Ends-none
  handle_job-Ends event (some value) = Ends-if (worker_job_terminal value.state) _ _ Ends-none (
      Ends-if (bytes_eq event.type (codes "worker.job.progress")) _ _
        (progressed-Ends event.payload value)
        (advanced-Ends (event_state event.type) event.payload value))

  handle_event-Ends :
      (source_of : Bytes → Result Bytes) (job_id : Bytes) (event : WorkerEvent Json)
      → Ends (handle_event json c finite m now rows source_of job_id event)
  unfolding handle_event
  handle_event-Ends source_of job_id event = Ends-bind (job job_id rows) _ (λ value.
      Ends-bind (source_of value.body.worker_id) _ (λ source.
        Ends-if (not (bytes_eq event.source_id source)) _ _ Ends-none (
          Ends-bind (json.text_member event.payload "external_job_id" []) _ (λ external.
            handle_job-Ends event (adopt_external json c finite m now rows external value)))))

  -- A row was there before, or it is checked.
  abbrev pub Kept : Rows Json Cost → Type 0
  Kept after =
      (id : Bytes) (j : Job Json Cost)
      → get_row id after ≡ some j
      → (get_row id rows ≡ some j) ⊎ Checked j

  same-Kept : Kept rows
  same-Kept id j h = inl h

  put-Kept : (key : Bytes) (value : Job Json Cost) → Checked value → Kept (put_row key value rows)
  put-Kept key value fine id j h =
      let found : (if bytes_eq key id then some value else get_row id rows) ≡ some j =
        sym (get_row-put_row key id value rows) ∙ h in
      elim (Bool-cases (bytes_eq key id)) [
        | inl here ↦ let e : value ≡ j = cc (rw here at found) in inr (subst Checked e fine)
        | inr other ↦ inl (rw other at found)
      ]

  persist-Kept :
      (value : Job Json Cost)
      → Checked value
      → Kept (kept_rows json c finite m now rows (persist json.dump_size m rows value))
  unfolding persist commit_job
  persist-Kept value fine = elim (Result-cases (persist json.dump_size m rows value)) [
    | inl (e, failed) ↦ rw failed same-Kept
    | inr (after, done) ↦
        let (_, h1) =
          then-eq-ok (check_job json.dump_size m value) (commit_job rows (persisted value)) done in
        let after_is : put_row (codes value.id) (persisted value) rows ≡ after =
          commit_job-eq-ok (persisted value) after h1 in
        rw (done, sym after_is)
          (put-Kept (codes value.id) (persisted value) (persisted-Checked value fine))
  ]

  pub handled-Kept :
      (r : Result (Option (Job Json Cost)))
      → Ends r
      → Kept (persist_handled json c finite m now rows r)
  handled-Kept (err e) ends = same-Kept
  handled-Kept (ok none) ends = same-Kept
  handled-Kept (ok (some value)) ends = persist-Kept value (ends value refl)

  named-Kept :
      (source_of : Bytes → Result Bytes) (event : WorkerEvent Json) (r : Result Bytes)
      → Kept (apply_named json c finite m now rows source_of event r)
  named-Kept source_of event (err e) = same-Kept
  named-Kept source_of event (ok job_id) =
      if-elim Kept (not (bounded_identifier job_id max_job_id_bytes)) _ _ (λ _. same-Kept)
        (λ _.
          handled-Kept (handle_event json c finite m now rows source_of job_id event)
            (handle_event-Ends source_of job_id event))

  -- The row is the one before, or the job has failed by its budget, or it is within the budgets.
  abbrev pub WithinBudget : Bytes → Job Json Cost → Type 0
  WithinBudget id j =
      (get_row id rows ≡ some j)
      ⊎ ((j.state ≡ WorkerJobState.failed)
          × (j.body.failure_kind ≡ WorkerFailureKind.budget_failure))
      ⊎ (Within m.max_tokens_per_run
            (spent_tokens c (codes j.id) (first_rows 10000 (rows_of j.body.run_id rows)))
            (total_tokens j.body.usage)
          × Within m.max_wall_time_ms 0 j.body.usage.wall_duration_ms)

  pub Kept-WithinBudget :
      (after : Rows Json Cost) (id : Bytes) (j : Job Json Cost)
      → Kept after
      → get_row id after ≡ some j
      → WithinBudget id j
  Kept-WithinBudget after id j kept h = elim (kept id j h) [
    | inl same ↦ inl same
    | inr (inl over) ↦ inr (inl over)
    | inr (inr fits) ↦
        inr (inr (no_violation_within c json.dump_size m (rows_of j.body.run_id rows) j fits))
  ]

  pub event-Kept :
      (stopped : Bool) (source_of : Bytes → Result Bytes) (event : WorkerEvent Json)
      → Kept (apply_event json c finite m now rows stopped source_of event)
  unfolding apply_event
  event-Kept stopped source_of event =
      if-elim Kept
        (stopped
          || not (starts_with (codes "worker.job.") event.type)
          || not (json.is_object event.payload))
        _ _ (λ _. same-Kept)
        (λ _. named-Kept source_of event (json.text_member event.payload "job_id" []))
