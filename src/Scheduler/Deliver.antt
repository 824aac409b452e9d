-- ===== src/Scheduler/Deliver.antt =====
-- src/scheduler/scheduler.cpp: `process_trigger`, and the loop over the triggers of `handle_event`.
pub mod Settles
use laso.Base.{
  ℕ, ◌+◌, String, Bool, true, false, not, ◌&&◌, ◌||◌, Option, none, some, List, [], ◌∷◌, ◌++◌, leb,
  if◌then◌else◌,
}
use laso.Core.Errors.{Error, Result, ok, err}
use laso.Pipeline.Reference.{Bytes}
use laso.Tables.{get_row, put_row}
use laso.Scheduler.Clock.{UtcTime, format_utc_timestamp}
use laso.Scheduler.Store.{OccurrenceStatus, claimed, pending, queued, started, skipped, failed}
use laso.Scheduler.Launch.{Answers, occurrence_of}
use laso.Scheduler.Triggers.{
  TriggerDefinition, SourceEvent, Delivery, Deliveries, answers_to, launch_trigger,
}

abbrev pub Answered : Type 0
Answered = Deliveries × Result (Unit {0})

abbrev pub new_delivery : Bytes → Bytes → Bytes → Delivery
new_delivery trigger_id event_id text = record {
  trigger_id = trigger_id;
  event_id = event_id;
  status = claimed;
  run_id = [];
  updated_at = text;
}

module _ {Json : Type 0} (items : Json → Option (List (Bytes × Json)))
    (json_eq : Json → Json → Bool) (is_scalar : Json → Bool) (dump_size : Json → ℕ)
    (gmtime : ℕ → Option (UtcTime × ℕ)) where
  module _ (now : ℕ) (a : Answers) (trigger : TriggerDefinition Json) (source : SourceEvent Json)
      (store : Deliveries) where
    abbrev pub delivery_id : Bytes
    delivery_id = occurrence_of trigger.id source.id

    abbrev pub launch_delivery : Delivery → Deliveries → Answered
    launch_delivery d x =
        launch_trigger items json_eq is_scalar dump_size a delivery_id
          (format_utc_timestamp gmtime now) trigger source d x a.launch

    -- No row: a new one is claimed.
    abbrev pub claim_delivery : Result Bytes → Answered
    claim_delivery (err e) = (store, err e)
    claim_delivery (ok text) =
        launch_delivery (new_delivery trigger.id source.id text) (record store {
          rows = put_row delivery_id (new_delivery trigger.id source.id text) store.rows;
        })

    -- A row with another status than the known ones: the claim meets it and fails.
    abbrev pub lost_claim : Result Bytes → Answered
    lost_claim (err e) = (store, err e)
    lost_claim (ok text) = (store, ok tt)

    abbrev pub existing_delivery : Delivery → OccurrenceStatus → Answered
    existing_delivery d started = (store, ok tt)
    existing_delivery d skipped = (store, ok tt)
    existing_delivery d failed = (store, ok tt)
    existing_delivery d pending = launch_delivery d store
    existing_delivery d claimed = launch_delivery d store
    existing_delivery d queued = lost_claim (format_utc_timestamp gmtime now)

    unfoldable pub deliver : Option Delivery → Answered
    deliver none = claim_delivery (format_utc_timestamp gmtime now)
    deliver (some d) = existing_delivery d d.status

    abbrev pub read_delivery : Result (Unit {0}) → Answered
    read_delivery (err e) = (store, err e)
    read_delivery (ok _) = deliver (get_row delivery_id store.rows)

    -- `max_depth` is max_trigger_depth_. The event of a trigger that is too deep is only emitted.
    unfoldable pub process_trigger : ℕ → Answered
    unfolding deliver
    process_trigger max_depth =
        if not (answers_to items json_eq is_scalar dump_size trigger source)
        then (store, ok tt)
        else if leb max_depth source.trigger_depth
        then (store, ok tt)
        else read_delivery a.reads

  -- The triggers in their order; an error of one is logged.
  unfoldable pub handle_triggers :
      ℕ
      → ℕ
      → (Bytes → Answers)
      → SourceEvent Json
      → List (Bytes × TriggerDefinition Json)
      → Deliveries
      → Deliveries
  unfolding process_trigger
  handle_triggers max_depth now answers source [] store = store
  handle_triggers max_depth now answers source ((key, trigger) ∷ rest) store =
      handle_triggers max_depth now answers source rest
        (process_trigger now (answers trigger.id) trigger source store max_depth).0
