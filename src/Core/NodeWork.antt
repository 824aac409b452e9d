-- ===== src/Core/NodeWork.antt =====
-- include/laso/core/types.hpp, `NodeWork`, and the branch of src/storage/postgres.cpp,
-- `write_records`, that guards the rows of `node_work`. The text of a JSON value is compared by the parameter `same`.
pub mod History
use laso.Base.{
  ℕ, String, Bool, true, false, ◌&&◌, ◌||◌, not, Option, none, some, List, [], ◌∷◌, ◌==◌, str_eq,
  if◌then◌else◌,
}
use laso.Core.Errors.{ErrorCode, Result, ok, err, throw}
use laso.Core.Data.{ExecutionToken}

pub data NodeWorkState : Type 0 where
  queued running completed failed cancelled : NodeWorkState

unfoldable pub terminal : NodeWorkState → Bool
terminal completed = true
terminal failed = true
terminal cancelled = true
terminal _ = false

unfoldable pub valid_node_work_transition : NodeWorkState → NodeWorkState → Bool
valid_node_work_transition queued queued = true
valid_node_work_transition running running = true
valid_node_work_transition completed completed = true
valid_node_work_transition failed failed = true
valid_node_work_transition cancelled cancelled = true
valid_node_work_transition queued running = true
valid_node_work_transition queued cancelled = true
valid_node_work_transition running queued = true
valid_node_work_transition running completed = true
valid_node_work_transition running failed = true
valid_node_work_transition running cancelled = true
valid_node_work_transition _ _ = false

pub record NodeWork (M : Type 0) : Type 0 where
  pub id : String
  pub run_id : String
  pub group_id : String
  pub node_id : String
  pub join : String
  pub created_at : String
  pub updated_at : String
  pub owner_instance_id : String
  pub lease_expires_at : String
  pub claimed_at : String
  pub last_renewed_at : String
  pub attempt_id : String
  pub error : String
  pub required_worker_id : String
  pub required_capability : String
  pub index : ℕ
  pub attempt : ℕ
  pub steps : ℕ
  pub fencing_token : ℕ
  pub state : NodeWorkState
  pub token : ExecutionToken M
  pub result : Option M

abbrev pub same_state : NodeWorkState → NodeWorkState → Bool
same_state queued queued = true
same_state running running = true
same_state completed completed = true
same_state failed failed = true
same_state cancelled cancelled = true
same_state _ _ = false

-- `same_message` and `same_token` compare the JSON of two messages and of two tokens.
module _ {M : Type 0} (same_message : M → M → Bool)
    (same_token : ExecutionToken M → ExecutionToken M → Bool) where
  pub same_result : Option M → Option M → Bool
  same_result none none = true
  same_result (some a) (some b) = same_message a b
  same_result _ _ = false

  unfoldable pub equivalent_terminal_node_work : NodeWork M → NodeWork M → Bool
  unfolding same_result
  equivalent_terminal_node_work left right =
      str_eq left.id right.id
      && str_eq left.run_id right.run_id
      && str_eq left.group_id right.group_id
      && str_eq left.node_id right.node_id
      && str_eq left.join right.join
      && str_eq left.required_worker_id right.required_worker_id
      && str_eq left.required_capability right.required_capability
      && str_eq left.owner_instance_id right.owner_instance_id
      && same_state left.state right.state
      && left.attempt == right.attempt
      && str_eq left.attempt_id right.attempt_id
      && left.fencing_token == right.fencing_token
      && str_eq left.error right.error
      && left.steps == right.steps
      && same_token left.token right.token
      && same_result left.result right.result
      && terminal left.state

  -- What a write of `new` over the stored row `old` leaves in the row.
  overwrite : NodeWork M → NodeWork M → Result (NodeWork M)
  overwrite old new =
      if terminal old.state
      then (if equivalent_terminal_node_work old new
          then ok old
          else throw ErrorCode.conflict "Terminal node work is immutable")
      else if valid_node_work_transition old.state new.state
      then ok new
      else throw ErrorCode.conflict "Invalid node work state transition"

  unfoldable pub write_node_work : Option (NodeWork M) → NodeWork M → Result (NodeWork M)
  unfolding overwrite
  write_node_work none new = ok new
  write_node_work (some old) new = overwrite old new
