-- ===== src/Tests/Core.antt =====
-- Tests of src/core/types.cpp and of the rows of node work in src/storage/postgres.cpp.
use laso.Base.{
  ◌&&◌, ℕ, String, ◌≡◌, refl, ◌↔◌, ◌≤◌, ◌≢◌, Bool, true, false, none, List, [], ◌∷◌, map, length,
  ◌==◌, In,
}
use laso.Core.Data.{ExecutionToken}
use laso.Core.RunStates
use laso.Core.RunStates.{RunState, valid_transition}
use laso.Core.RunStates.Lifecycle.{follows, final_state, completed_has_run, can_complete}
use laso.Core.NodeWork.{
  NodeWork, NodeWorkState, queued, running, completed, terminal, write_node_work,
  valid_node_work_transition,
}
use laso.Core.NodeWork.History.{row, after, terminal-row_fixed, finished_was_claimed}

-- A run that waits for a tool and completes.
abbrev tool_life : List RunState
tool_life =
    RunStates.starting ∷ RunStates.running ∷ RunStates.waiting_tool ∷ RunStates.running
    ∷ RunStates.completed ∷ []

completed_has_run_example : In RunStates.starting tool_life × In RunStates.running tool_life
unfolding follows final_state valid_transition
completed_has_run_example = completed_has_run tool_life refl refl

can_complete_example :
    ((RunStates.terminal RunStates.paused ≡ false) ↔ (
      (ts : List RunState) × (follows RunStates.paused ts ≡ true)
      × (final_state RunStates.paused ts ≡ RunStates.completed)
      × (length ts ≤ 4)
      × (ts ≢ [])))
    × ((RunStates.terminal RunStates.paused && valid_transition RunStates.paused RunStates.queued)
        ≡ false)
can_complete_example = can_complete RunStates.paused RunStates.queued

abbrev work : NodeWorkState → String → NodeWork ℕ
work state owner = record {
  id = "w1";
  run_id = "r1";
  group_id = "g1";
  node_id = "a";
  join = "j";
  created_at = "t0";
  updated_at = "t0";
  owner_instance_id = owner;
  lease_expires_at = "";
  claimed_at = "";
  last_renewed_at = "";
  attempt_id = "";
  error = "";
  required_worker_id = "";
  required_capability = "";
  index = 0;
  attempt = 1;
  steps = 0;
  fencing_token = 1;
  state = state;
  token = record { node_id = "a"; message = 7; frames = [] };
  result = none;
}

abbrev same_number : ℕ → ℕ → Bool
same_number a b = a == b

abbrev same_token : ExecutionToken ℕ → ExecutionToken ℕ → Bool
same_token a b = a.message == b.message

-- A second instance claims and completes the work that the first has completed.
terminal-row_fixed_example :
    row same_number same_token
      (work completed "one")
      (work running "two" ∷ work completed "two" ∷ [])
    ≡ work completed "one"
unfolding terminal
terminal-row_fixed_example =
    terminal-row_fixed same_number same_token (work completed "one")
      (work running "two" ∷ work completed "two" ∷ []) refl

finished_was_claimed_example :
    In running (map (λ (w : NodeWork ℕ). w.state) (work running "one" ∷ work completed "one" ∷ []))
unfolding row after write_node_work terminal valid_node_work_transition
finished_was_claimed_example =
    finished_was_claimed same_number same_token (work queued "")
      (work running "one" ∷ work completed "one" ∷ []) refl refl
