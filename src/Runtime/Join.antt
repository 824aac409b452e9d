-- ===== src/Runtime/Join.antt =====
-- src/runtime/graph.cpp: `prepare_join`. A member function returns the run as it leaves it beside its
-- result, also where it throws. An array of JSON values is made by the parameter `array`, and
-- `checkpoint` stands for the storage's answer to the checkpoint of a waiting join.
pub mod Order
use laso.Base.{
  ℕ, String, Bool, true, false, not, ◌||◌, Option, none, some, List, [], map, ◌==◌, str_eq, length,
  if◌then◌else◌,
}
use laso.Core.Errors.{ErrorCode, Result, ok, throw, ◌>>=◌}
use laso.Core.Data.{Message, NodeDefinition, BranchFrame, Run}
use laso.Maps.{lookup, insert, erase, emplace}
use laso.Runtime.Ready.{or_else, back, pop_back, next_ready}

module _ {Json Confidence : Type 0} (array : List Json → Json)
    (checkpoint : Run (Message Json Confidence) → Result (Unit {0})) where
  -- The last branch has arrived.
  finish_join :
      Run (Message Json Confidence)
      → String
      → BranchFrame
      → List (ℕ × Message Json Confidence)
      → Run (Message Json Confidence)
  finish_join r node frame arrived = record r {
    message = record m {
      payload = array (map (λ (e : ℕ × Message Json Confidence). e.1.payload) arrived);
    };
    frames = pop_back r.frames;
    joins = erase frame.group r.joins;
    prepared_join = node;
  }
    where
      m : Message Json Confidence
      m = r.message

  -- Another branch goes on while this one waits.
  wait_join : Run (Message Json Confidence) × Bool → Run (Message Json Confidence) × Result Bool
  wait_join (r, false) = (r, throw ErrorCode.execution "Join has missing branches")
  wait_join (r, true) = (r, checkpoint r >>= λ _. ok false)

  arrive :
      Run (Message Json Confidence)
      → String
      → BranchFrame
      → Option (List (ℕ × Message Json Confidence))
      → Run (Message Json Confidence) × Result Bool
  unfolding finish_join wait_join next_ready
  arrive r node frame none = (r, throw ErrorCode.execution "Parallel branch arrived twice")
  arrive r node frame (some arrived) =
      let r1 = record r { joins = insert frame.group arrived r.joins } in
      if length arrived == frame.width
      then (finish_join r1 node frame arrived, ok true)
      else wait_join (next_ready r1)

  join_frame :
      Run (Message Json Confidence)
      → String
      → Option BranchFrame
      → Run (Message Json Confidence) × Result Bool
  unfolding arrive
  join_frame r node none =
      (r, throw ErrorCode.execution "Join reached outside its matching parallel group")
  join_frame r node (some frame) =
      if not (str_eq frame.join node)
      then (r, throw ErrorCode.execution "Join reached outside its matching parallel group")
      else arrive r node frame
          (emplace frame.index r.message (or_else [] (lookup frame.group r.joins)))

  unfoldable pub prepare_join :
      Run (Message Json Confidence)
      → NodeDefinition Json
      → Run (Message Json Confidence) × Result Bool
  unfolding join_frame
  prepare_join r n =
      if not (str_eq n.type "join") || str_eq r.prepared_join n.id
      then (r, ok true)
      else join_frame r n.id (back r.frames)
