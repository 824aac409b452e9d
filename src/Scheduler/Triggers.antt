-- ===== src/Scheduler/Triggers.antt =====
-- src/scheduler/scheduler.cpp: triggers, their validation and `process_trigger`. Of the JSON library, `items`
-- gives the members of an object and `none` of any other value, `json_eq` compares two values,
-- `is_scalar` knows texts, truth values, numbers and null, and `dump_size` is the length of the text.
use laso.Base.{
  ℕ, ◌+◌, ◌*◌, ◌%◌, ◌^◌, String, Bool, true, false, not, ◌&&◌, ◌||◌, Option, none, some, List, [],
  ◌∷◌, ◌++◌, ltb, ◌==◌, all, length, if◌then◌else◌,
}
use laso.Core.Errors.{Error, ErrorCode, Result, ok, err, throw_if, ◌>>◌}
use laso.Pipeline.Reference.{Bytes, name_char}
use laso.Security.{bytes_eq}
use laso.Tables.{get_row, put_row}
use laso.Scheduler.Cron.{is_nil, split}
use laso.Scheduler.Schedules.{too_long}
use laso.Scheduler.Store.{OccurrenceStatus, pending, started, failed}
use laso.Scheduler.Launch.{Answers, is_capacity}

pub record TriggerDefinition (Json : Type 0) : Type 0 where
  pub id : Bytes
  pub name : Bytes
  pub pipeline_id : Bytes
  pub event_type : Bytes
  pub pipeline_version : ℕ
  pub match : Json
  pub enabled : Bool
  pub deleted : Bool
  pub created_at : Bytes
  pub updated_at : Bytes

-- The members of an event that a trigger reads.
pub record SourceEvent (Json : Type 0) : Type 0 where
  pub id : Bytes
  pub type : Bytes
  pub time : Bytes
  pub root_event_id : Bytes
  pub trigger_depth : ℕ
  pub metadata : Json

pub record Delivery : Type 0 where
  pub trigger_id : Bytes
  pub event_id : Bytes
  pub status : OccurrenceStatus
  pub run_id : Bytes
  pub updated_at : Bytes

-- A request to `dispatch_`, with the members of its origin.
pub record TriggerLaunch : Type 0 where
  pub pipeline_id : Bytes
  pub pipeline_version : ℕ
  pub trigger_id : Bytes
  pub event_id : Bytes
  pub root_event_id : Bytes
  pub trigger_depth : ℕ

-- The deliveries, the launches that have made a run, and the types of the events that were written.
pub record Deliveries : Type 0 where
  pub rows : List (Bytes × Delivery)
  pub launches : List TriggerLaunch
  pub events : List String

-- `a < b` of two std::strings.
unfoldable pub bytes_lt : Bytes → Bytes → Bool
bytes_lt xs [] = false
bytes_lt [] (y ∷ ys) = true
bytes_lt (x ∷ xs) (y ∷ ys) = ltb x y || (x == y && bytes_lt xs ys)

abbrev pub object_members : {Json : Type 0} → Option (List (Bytes × Json)) → List (Bytes × Json)
object_members none = []
object_members (some members) = members

-- [A-Za-z0-9_.-]+
abbrev pub event_name : Bytes → Bool
event_name text = not (is_nil text) && all name_char text

module _ {Json : Type 0} (items : Json → Option (List (Bytes × Json)))
    (json_eq : Json → Json → Bool) (is_scalar : Json → Bool) (dump_size : Json → ℕ) where
  abbrev has_members : Option (List (Bytes × Json)) → Bool
  has_members none = false
  has_members (some members) = true

  unfoldable pub scalar_filters : List (Bytes × Json) → Result (Unit {0})
  scalar_filters [] = ok tt
  scalar_filters ((key, value) ∷ rest) =
      throw_if (too_long key || not (is_scalar value)) ErrorCode.validation
        "Event trigger filters must use scalar values"
      >> scalar_filters rest

  unfoldable pub validate_trigger : TriggerDefinition Json → Result (Unit {0})
  unfolding scalar_filters
  validate_trigger t =
      throw_if
        (too_long t.id
          || too_long t.name
          || too_long t.pipeline_id
          || t.pipeline_version == 0
          || too_long t.event_type
          || not (event_name t.event_type)
          || not (has_members (items t.match))
          || ltb 32 (length (object_members (items t.match)))
          || ltb (16 * 1024) (dump_size t.match))
        ErrorCode.validation "Invalid event trigger definition"
      >> scalar_filters (object_members (items t.match))

  abbrev pub members_of : Json → List (Bytes × Json)
  members_of j = object_members (items j)

  -- The value at a dotted key.
  unfoldable pub follow : Json → List Bytes → Option Json
  follow j [] = some j
  follow j (part ∷ rest) = elim (get_row part (members_of j)) [
    | none ↦ none
    | some inner ↦ follow inner rest
  ]

  abbrev found_equal : Json → Option Json → Bool
  found_equal expected none = false
  found_equal expected (some actual) = json_eq actual expected

  unfoldable pub filters_match : Json → List (Bytes × Json) → Bool
  unfolding follow
  filters_match metadata [] = true
  filters_match metadata ((key, expected) ∷ rest) =
      found_equal expected (follow metadata (split key b'.')) && filters_match metadata rest

  -- The conditions under which a trigger answers to an event.
  unfoldable pub answers_to : TriggerDefinition Json → SourceEvent Json → Bool
  unfolding filters_match bytes_lt
  answers_to trigger source =
      not (
        not trigger.enabled
        || trigger.deleted
        || is_nil source.id
        || bytes_lt source.time trigger.created_at
        || not (bytes_eq trigger.event_type source.type))
      && filters_match source.metadata (members_of trigger.match)

  abbrev pub root_of : SourceEvent Json → Bytes
  root_of source = if is_nil source.root_event_id then source.id else source.root_event_id

  abbrev pub trigger_launch : TriggerDefinition Json → SourceEvent Json → TriggerLaunch
  trigger_launch trigger source = record {
    pipeline_id = trigger.pipeline_id;
    pipeline_version = trigger.pipeline_version;
    trigger_id = trigger.id;
    event_id = source.id;
    root_event_id = root_of source;
    trigger_depth = (source.trigger_depth + 1) % 2 ^ 32;
  }

  module _ (a : Answers) (id : Bytes) (now : Result Bytes) where
    -- The `catch` clause.
    abbrev pub delivery_failed :
        Delivery
        → Error
        → Deliveries
        → Result Bytes
        → Result (Unit {0})
        → Deliveries × Result (Unit {0})
    delivery_failed d e store (err thrown) answer = (store, err thrown)
    delivery_failed d e store (ok text) (err thrown) = (store, err thrown)
    delivery_failed d e store (ok text) (ok _) = (
      record store {
        rows =
            put_row id
              (record d {
                status = if is_capacity e.code then pending else failed;
                updated_at = text;
              })
              store.rows;
      },
      ok tt,
    )

    -- After `dispatch_` has returned.
    abbrev pub delivered :
        Delivery
        → Bytes
        → Deliveries
        → Result Bytes
        → Result (Unit {0})
        → Deliveries × Result (Unit {0})
    delivered d run_id store (err e) answer = delivery_failed d e store now a.recommit
    delivered d run_id store (ok text) (err e) =
        delivery_failed (record d { run_id = run_id }) e store now a.recommit
    delivered d run_id store (ok text) (ok _) = (
      record store {
        rows =
            put_row id (record d { status = started; run_id = run_id; updated_at = text })
              store.rows;
        events = store.events ++ ("trigger.run_created" ∷ []);
      },
      ok tt,
    )

    unfoldable pub launch_trigger :
        TriggerDefinition Json
        → SourceEvent Json
        → Delivery
        → Deliveries
        → Result Bytes
        → Deliveries × Result (Unit {0})
    launch_trigger trigger source d store (err e) = delivery_failed d e store now a.recommit
    launch_trigger trigger source d store (ok run_id) =
        delivered d run_id
          (record store { launches = store.launches ++ (trigger_launch trigger source ∷ []) }) now
          a.commit
