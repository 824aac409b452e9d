-- ===== src/Tests/Triggers.antt =====
-- Tests of src/scheduler/scheduler.cpp: `process_trigger`.
use laso.Base.{ℕ, ◌≡◌, refl, Bool, true, false, Option, none, some, List, [], ◌∷◌, length, codes}
use laso.Core.Errors.{Error, ok, err}
use laso.Pipeline.Reference.{Bytes, decimal}
use laso.Security.{bytes_eq}
use laso.Tables.{get_row, put_row}
use laso.Scheduler.Cron.{split}
use laso.Scheduler.Clock.{print_time, format_utc_timestamp}
use laso.Scheduler.Launch.{is_capacity}
use laso.Scheduler.Triggers.{
  TriggerDefinition, SourceEvent, Deliveries, bytes_lt, follow, filters_match, answers_to,
  validate_trigger, launch_trigger,
}
use laso.Scheduler.Deliver.{deliver, process_trigger, handle_triggers}
use laso.Scheduler.Deliver.Settles.{OneLaunch, event_launches_once}
use laso.Tests.Schedules.{gm}
use laso.Tests.Occurrences.{all_well, half_past}

-- A text, or an object with one member.
data Json : Type 0 where
  text : Bytes → Json
  object : Bytes → Json → Json

abbrev items : Json → Option (List (Bytes × Json))
items (text t) = none
items (object key value) = some ((key, value) ∷ [])

abbrev json_eq : Json → Json → Bool
json_eq (text a) (text b) = bytes_eq a b
json_eq _ _ = false

abbrev is_scalar : Json → Bool
is_scalar (text t) = true
is_scalar _ = false

abbrev dump_size : Json → ℕ
dump_size j = 20

abbrev imports : TriggerDefinition Json
imports = record {
  id = codes "t";
  name = codes "imports";
  pipeline_id = codes "p";
  event_type = codes "artifact.created";
  pipeline_version = 1;
  match = object (codes "source.kind") (text (codes "import"));
  enabled = true;
  deleted = false;
  created_at = codes "1970-01-01T00:00:00.000Z";
  updated_at = [];
}

abbrev created : SourceEvent Json
created = record {
  id = codes "e";
  type = codes "artifact.created";
  time = codes "1970-01-01T01:00:00.000Z";
  root_event_id = [];
  trigger_depth = 0;
  metadata = object (codes "source") (object (codes "kind") (text (codes "import")));
}

abbrev no_deliveries : Deliveries
no_deliveries = record { rows = []; launches = []; events = [] }

imports-valid : validate_trigger items json_eq is_scalar dump_size imports ≡ ok tt
unfolding validate_trigger
imports-valid = refl

-- The event launches a run, and not a second one when it is replayed.
replayed :
    length
      (handle_triggers items json_eq is_scalar dump_size gm 16 half_past
        (λ id. all_well)
        created
        ((codes "t", imports) ∷ (codes "t", imports) ∷ [])
        no_deliveries).launches
    ≡ 1
unfolding handle_triggers process_trigger deliver launch_trigger answers_to filters_match follow
    bytes_lt bytes_eq split get_row put_row format_utc_timestamp print_time decimal
replayed = refl

abbrev half_past_text : Bytes
half_past_text = codes "1970-01-01T12:30:00.000Z"

half_past-printed : format_utc_timestamp gm half_past ≡ ok half_past_text
unfolding format_utc_timestamp print_time decimal
half_past-printed = refl

no_loss :
    (e : Error)
    → all_well.commit ≡ err e
    → (is_capacity e.code ≡ false) × (all_well.recommit ≡ ok tt)
no_loss e h = cc h

event_launches_once_example :
    OneLaunch items json_eq is_scalar dump_size gm 16 imports created no_deliveries (
      process_trigger items json_eq is_scalar dump_size gm half_past all_well imports created
        no_deliveries 16)
event_launches_once_example =
    event_launches_once items json_eq is_scalar dump_size gm 16 imports created half_past all_well
      half_past_text no_deliveries half_past-printed no_loss
