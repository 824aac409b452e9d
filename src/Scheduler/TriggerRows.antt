-- ===== src/Scheduler/TriggerRows.antt =====
-- src/scheduler/scheduler.cpp: the operations on stored triggers. `answer` is what the storage says to the
-- commit, and its reads succeed; `emit_event` and `wake` change no record. Of the event that each
-- operation writes, its type is kept.
use laso.Base.{
  ℕ, String, Bool, true, false, ◌&&◌, ◌≡◌, refl, ap, subst, Option, some, List, [], ◌∷◌, ◌++◌,
  if◌then◌else◌,
}
use laso.Core.Errors.{ErrorCode, Result, ok, err, throw_if, ◌>>=◌, ◌>>◌, bind-eq-ok, then-eq-ok}
use laso.Pipeline.Reference.{Bytes}
use laso.Tables.{get_row, put_row, get_row-put_self}
use laso.Scheduler.Clock.{UtcTime, format_utc_timestamp}
use laso.Scheduler.Admin.{found, row_exists}
use laso.Scheduler.Launch.{Answers}
use laso.Scheduler.Triggers.{
  TriggerDefinition, SourceEvent, Deliveries, validate_trigger, answers_to,
}
use laso.Scheduler.Deliver.{process_trigger}

-- The rows of triggers, and the types of the events that were written.
pub record TriggerStore (Json : Type 0) : Type 0 where
  pub triggers : List (Bytes × TriggerDefinition Json)
  pub events : List String

module _ {Json : Type 0} (items : Json → Option (List (Bytes × Json)))
    (json_eq : Json → Json → Bool) (is_scalar : Json → Bool) (dump_size : Json → ℕ)
    (gmtime : ℕ → Option (UtcTime × ℕ)) (now : ℕ) (answer : Result (Unit {0})) where
  -- The store after an operation that throws or writes a trigger.
  abbrev pub commit_trigger :
      String
      → Bytes
      → TriggerStore Json
      → Result (TriggerDefinition Json)
      → TriggerStore Json × Result (TriggerDefinition Json)
  commit_trigger type id store (err e) = (store, err e)
  commit_trigger type id store (ok t) = (
    record { triggers = put_row id t store.triggers; events = store.events ++ (type ∷ []) },
    ok t,
  )

  abbrev pub touched : TriggerDefinition Json → Result (TriggerDefinition Json)
  touched t =
      format_utc_timestamp gmtime now >>= λ text. answer >> ok (record t { updated_at = text })

  unfoldable pub create_trigger :
      TriggerDefinition Json
      → TriggerStore Json
      → TriggerStore Json × Result (TriggerDefinition Json)
  unfolding validate_trigger
  create_trigger t store = commit_trigger "trigger.created" t.id store (
      validate_trigger items json_eq is_scalar dump_size t
      >> (throw_if (row_exists (get_row t.id store.triggers)) ErrorCode.conflict
            "Trigger already exists"
          >> (answer >> ok t)))

  unfoldable pub update_trigger :
      TriggerDefinition Json
      → TriggerStore Json
      → TriggerStore Json × Result (TriggerDefinition Json)
  unfolding validate_trigger
  update_trigger t store = commit_trigger "trigger.updated" t.id store (
      validate_trigger items json_eq is_scalar dump_size t
      >> (found (get_row t.id store.triggers) >>= λ old.
          touched (record t { created_at = old.created_at })))

  unfoldable pub set_trigger_enabled :
      Bytes → Bool → TriggerStore Json → TriggerStore Json × Result (TriggerDefinition Json)
  set_trigger_enabled id enabled store =
      commit_trigger (if enabled then "trigger.enabled" else "trigger.disabled") id store (
        found (get_row id store.triggers) >>= λ t.
        throw_if (t.deleted && enabled) ErrorCode.conflict "Deleted trigger cannot be enabled"
        >> touched (record t { enabled = enabled }))

  unfoldable pub delete_trigger :
      Bytes → TriggerStore Json → TriggerStore Json × Result (TriggerDefinition Json)
  delete_trigger id store = commit_trigger "trigger.deleted" id store (
      found (get_row id store.triggers) >>= λ t.
      touched (record t { enabled = false; deleted = true }))

  commit_trigger-eq-ok :
      (type : String) (id : Bytes) (store : TriggerStore Json) (t : TriggerDefinition Json)
      (r : Result (TriggerDefinition Json))
      → (commit_trigger type id store r).1 ≡ ok t
      → (r ≡ ok t) × ((commit_trigger type id store r).0.triggers ≡ put_row id t store.triggers)
  commit_trigger-eq-ok type id store t (err e) h = cc h
  commit_trigger-eq-ok type id store t (ok t') h =
      let same : t' ≡ t = cc h in (h, ap (λ x. put_row id x store.triggers) same)

  touched-fields :
      (t t' : TriggerDefinition Json)
      → touched t ≡ ok t'
      → (t'.deleted ≡ t.deleted) × (t'.enabled ≡ t.enabled)
  touched-fields t t' h =
      let (text, _, h1) = bind-eq-ok (format_utc_timestamp gmtime now) _ h in
      let (_, h2) = then-eq-ok answer (ok (record t { updated_at = text })) h1 in
      let same : record t { updated_at = text } ≡ t' = cc h2 in
      subst (λ x. (x.deleted ≡ t.deleted) × (x.enabled ≡ t.enabled)) same (refl, refl)

  process_trigger-deleted :
      (later : ℕ) (a : Answers) (t : TriggerDefinition Json) (source : SourceEvent Json)
      (store : Deliveries) (max_depth : ℕ)
      → t.deleted ≡ true
      → t.enabled ≡ false
      → process_trigger items json_eq is_scalar dump_size gmtime later a t source store max_depth
        ≡ (store, ok tt)
  unfolding process_trigger answers_to
  process_trigger-deleted later a t source store max_depth gone off = simp (gone, off) refl

  -- After a successful deletion the row of the trigger is there, and processing it answers to no event:
  -- it launches nothing and changes no record.
  deleted_trigger_is_idle :
      (id : Bytes) (store : TriggerStore Json) (t : TriggerDefinition Json)
      → (delete_trigger id store).1 ≡ ok t
      → (get_row id (delete_trigger id store).0.triggers ≡ some t)
        × ((later : ℕ) (a : Answers) (source : SourceEvent Json) (any : Deliveries) (max_depth : ℕ)
            → process_trigger items json_eq is_scalar dump_size gmtime later a t source any
                max_depth
              ≡ (any, ok tt))
  unfolding delete_trigger
  deleted_trigger_is_idle id store t h =
      let marked : Result (TriggerDefinition Json) = found (get_row id store.triggers) >>= λ old.
      touched (record old { enabled = false; deleted = true }) in
      let (made, rows) = commit_trigger-eq-ok "trigger.deleted" id store t marked h in
      let (old, _, h1) =
        bind-eq-ok (found (get_row id store.triggers))
          (λ o. touched (record o { enabled = false; deleted = true })) made in
      let (gone, off) = touched-fields (record old { enabled = false; deleted = true }) t h1 in
      (
        rw rows (get_row-put_self id t store.triggers),
        λ later a source any max_depth.
            process_trigger-deleted later a t source any max_depth gone off,
      )
