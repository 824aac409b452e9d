-- ===== src/Tests/Interactions.antt =====
-- Tests of src/workers/manager.cpp: `handle_interaction` and `resolve_interaction`.
use laso.Base.{ℕ, ◌≡◌, refl, ◌⊎◌, true, false, none, some, [], codes}
use laso.Core.Errors.{ErrorCode, ok, throw}
use laso.Policy.{PolicyEngine, evaluate, apply_rules}
use laso.Security.{bytes_eq}
use laso.Tables.{get_row, put_row}
use laso.Workers.Interactions.{
  WorkerInteractionState, WorkerInteractionType, WorkerInteractionRequest, WorkerInteraction,
  InteractionOps, Interactions, new_interaction, decided, bad_request, policy_result, decide_by,
  await_decision, handle_interaction, resolve_interaction,
}
use laso.Workers.Interactions.Final.{stays, handled, resolved, fits, decision_is_final}

abbrev json_ops : InteractionOps ℕ
json_ops = record {
  is_object = λ j. true;
  dump_size = λ j. 2;
  empty_object = 0;
  object = λ state payload reason. 1;
  string_member = λ j name fallback. ok fallback;
  bool_member = λ j name fallback. ok fallback;
}

abbrev request_of : WorkerInteractionType → WorkerInteractionRequest ℕ
request_of type = record {
  request_id = codes "q";
  worker_job_id = codes "j";
  worker_id = codes "w";
  external_job_id = [];
  session_id = [];
  type = type;
  title = codes "May I?";
  summary = [];
  created_at = codes "t0";
  deadline = [];
  risk = [];
  category = [];
  payload = 0;
}

-- A deployment without rules.
abbrev no_rules : PolicyEngine
no_rules = record { rules = []; allow_network = false; allow_remote_workers = [] }

abbrev nobody_asked : Interactions ℕ
nobody_asked = []

abbrev asked : Interactions ℕ
asked =
    (handle_interaction json_ops false (codes "t1") (some (evaluate no_rules)) []
      (request_of WorkerInteractionType.question) nobody_asked).0

abbrev answered_store : Interactions ℕ
answered_store =
    (resolve_interaction json_ops (codes "t2") (codes "q") WorkerInteractionState.answered 0
      (codes "me") (codes "yes") asked).0

abbrev answered_row : WorkerInteraction ℕ
answered_row =
    record (decided json_ops (codes "t2") WorkerInteractionState.answered (codes "yes") (some 0)
      (new_interaction json_ops (codes "t1") [] (request_of WorkerInteractionType.question))) {
        actor = codes "me";
      }

answered_is_there : get_row (codes "q") answered_store ≡ some answered_row
unfolding handle_interaction bad_request policy_result decide_by await_decision resolve_interaction
    get_row put_row bytes_eq
answered_is_there = refl

-- A second answer is refused.
second_answer :
    (resolve_interaction json_ops
      (codes "t3")
      (codes "q")
      WorkerInteractionState.answered
      0
      (codes "you")
      (codes "no")
      answered_store).1
    ≡ throw ErrorCode.conflict "Worker interaction is no longer pending"
unfolding handle_interaction bad_request policy_result decide_by await_decision resolve_interaction
    get_row put_row bytes_eq
second_answer = refl

-- Without rules a request for an approval is approved by the policy at once.
abbrev approved_at_once : WorkerInteraction ℕ
approved_at_once =
    decided json_ops (codes "t1") WorkerInteractionState.approved (codes "Allowed local operation")
      none (new_interaction json_ops (codes "t1") [] (request_of WorkerInteractionType.approval))

approval_is_automatic :
    (handle_interaction json_ops false
      (codes "t1")
      (some (evaluate no_rules))
      []
      (request_of WorkerInteractionType.approval)
      nobody_asked).1
    ≡ ok (some approved_at_once)
unfolding handle_interaction bad_request policy_result decide_by await_decision evaluate apply_rules
    get_row put_row bytes_eq
approval_is_automatic = refl

decision_is_final_example :
    (fits WorkerInteractionType.question WorkerInteractionState.answered ≡ true)
    × ((false ≡ true)
        ⊎ (get_row
              (codes "q")
              (resolve_interaction json_ops
                (codes "t3")
                (codes "q")
                WorkerInteractionState.answered
                0
                (codes "you")
                (codes "no")
                answered_store).0
            ≡ some answered_row))
decision_is_final_example =
    decision_is_final json_ops (codes "q") answered_row
      (resolved (codes "t2") (codes "q") WorkerInteractionState.answered 0 (codes "me")
        (codes "yes")
        (handled false (codes "t1") (some (evaluate no_rules)) []
          (request_of WorkerInteractionType.question) stays))
      (resolved (codes "t3") (codes "q") WorkerInteractionState.answered 0 (codes "you")
        (codes "no") stays)
      answered_is_there
