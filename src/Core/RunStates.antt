-- ===== src/Core/RunStates.antt =====
-- include/laso/core/types.hpp and src/core/types.cpp: the life of a run and of a node's work.
pub mod Lifecycle
use laso.Base.{Bool, true, false, if◌then◌else◌}

pub data RunState : Type 0 where
  queued starting running waiting_tool waiting_model waiting_worker waiting_approval retrying paused
        completed failed cancelled timed_out :
      RunState

unfoldable pub terminal : RunState → Bool
terminal completed = true
terminal failed = true
terminal cancelled = true
terminal timed_out = true
terminal _ = false

-- The `switch` of `valid_transition`; each clause is one disjunct, the last is `false`.
next_state : RunState → RunState → Bool
next_state queued starting = true
next_state queued cancelled = true
next_state queued failed = true
next_state starting running = true
next_state starting failed = true
next_state starting cancelled = true
next_state starting timed_out = true
next_state running completed = true
next_state running waiting_model = true
next_state running waiting_tool = true
next_state running waiting_worker = true
next_state running waiting_approval = true
next_state running retrying = true
next_state running paused = true
next_state running failed = true
next_state running cancelled = true
next_state running timed_out = true
next_state waiting_approval queued = true
next_state waiting_approval failed = true
next_state waiting_approval cancelled = true
next_state paused queued = true
next_state paused failed = true
next_state paused cancelled = true
next_state waiting_tool running = true
next_state waiting_tool failed = true
next_state waiting_tool cancelled = true
next_state waiting_tool timed_out = true
next_state waiting_model running = true
next_state waiting_model failed = true
next_state waiting_model cancelled = true
next_state waiting_model timed_out = true
next_state waiting_worker running = true
next_state waiting_worker failed = true
next_state waiting_worker cancelled = true
next_state waiting_worker timed_out = true
next_state retrying running = true
next_state retrying failed = true
next_state retrying cancelled = true
next_state retrying timed_out = true
next_state _ _ = false

unfoldable pub valid_transition : RunState → RunState → Bool
unfolding terminal next_state
valid_transition from to = if terminal from then false else next_state from to
