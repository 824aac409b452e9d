-- ===== src/Workers/Interactions.antt =====
-- include/laso/workers/worker.hpp and src/workers/manager.cpp: the questions and requests for a decision
-- that a worker sends, `handle_interaction` and `resolve_interaction`. The wait for a decision is modelled
-- by what stands in the store when it ends. What the JSON library does is a parameter.
pub mod Final
use laso.Base.{
  ℕ, zero, suc, ◌*◌, String, Bool, true, false, not, ◌&&◌, ◌||◌, Option, none, some, List, [], ◌∷◌,
  length, ltb, codes, if◌then◌else◌,
}
use laso.Core.Errors.{ErrorCode, Result, ok, err, throw, throw_if, ◌>>=◌, ◌>>◌}
use laso.Pipeline.Reference.{Bytes, is_nil}
use laso.Policy.{PolicyContext, PolicyDecision, PolicyResult}
use laso.Security.{bytes_eq}
use laso.Tables.{get_row, put_row}
use laso.Scheduler.Triggers.{bytes_lt}

pub data WorkerInteractionType : Type 0 where
  approval permission question : WorkerInteractionType

pub data WorkerInteractionState : Type 0 where
  pending approved denied answered cancelled expired : WorkerInteractionState

pub record WorkerInteractionRequest (Json : Type 0) : Type 0 where
  pub request_id : Bytes
  pub worker_job_id : Bytes
  pub worker_id : Bytes
  pub external_job_id : Bytes
  pub session_id : Bytes
  pub type : WorkerInteractionType
  pub title : Bytes
  pub summary : Bytes
  pub created_at : Bytes
  pub deadline : Bytes
  pub risk : Bytes
  pub category : Bytes
  pub payload : Json

pub record WorkerInteraction (Json : Type 0) : Type 0 where
  pub id : Bytes
  pub worker_job_id : Bytes
  pub worker_id : Bytes
  pub run_id : Bytes
  pub external_job_id : Bytes
  pub session_id : Bytes
  pub type : WorkerInteractionType
  pub state : WorkerInteractionState
  pub title : Bytes
  pub summary : Bytes
  pub created_at : Bytes
  pub deadline : Bytes
  pub risk : Bytes
  pub category : Bytes
  pub payload : Json
  pub response : Json
  pub reason : Bytes
  pub actor : Bytes
  pub decided_at : Bytes

-- `object` makes the JSON object of a decision, with its payload where there is one, and its reason.
pub record InteractionOps (Json : Type 0) : Type 0 where
  pub is_object : Json → Bool
  pub dump_size : Json → ℕ
  pub empty_object : Json
  pub object : WorkerInteractionState → Option Json → Bytes → Json
  pub string_member : Json → String → String → Result String
  pub bool_member : Json → String → Bool → Result Bool

abbrev pub is_pending : WorkerInteractionState → Bool
is_pending pending = true
is_pending _ = false

abbrev pub interaction_terminal : WorkerInteractionState → Bool
interaction_terminal state = not (is_pending state)

abbrev pub is_question : WorkerInteractionType → Bool
is_question question = true
is_question _ = false

abbrev pub is_approval : WorkerInteractionType → Bool
is_approval approval = true
is_approval _ = false

abbrev pub same_type : WorkerInteractionType → WorkerInteractionType → Bool
same_type approval approval = true
same_type permission permission = true
same_type question question = true
same_type _ _ = false

abbrev pub is_answered : WorkerInteractionState → Bool
is_answered answered = true
is_answered _ = false

abbrev pub approves_or_denies : WorkerInteractionState → Bool
approves_or_denies approved = true
approves_or_denies denied = true
approves_or_denies _ = false

abbrev pub longer : ℕ → Bytes → Bool
longer limit text = ltb limit (length text)

abbrev pub Interactions : Type 0 → Type 0
Interactions Json = List (Bytes × WorkerInteraction Json)

module _ {Json : Type 0} (json : InteractionOps Json) where
  unfoldable pub bad_request : WorkerInteractionRequest Json → Bool
  bad_request r =
      is_nil r.request_id
      || longer 512 r.request_id
      || is_nil r.worker_job_id
      || longer 512 r.worker_job_id
      || longer 512 r.worker_id
      || longer 512 r.external_job_id
      || longer 512 r.session_id
      || longer 4096 r.title
      || longer 4096 r.summary
      || longer 64 r.created_at
      || longer 64 r.deadline
      || longer 128 r.risk
      || longer 128 r.category
      || not (json.is_object r.payload)
      || ltb (64 * 1024) (json.dump_size r.payload)

  abbrev pub new_interaction :
      Bytes → Bytes → WorkerInteractionRequest Json → WorkerInteraction Json
  new_interaction now run_id r = record {
    id = r.request_id;
    worker_job_id = r.worker_job_id;
    worker_id = r.worker_id;
    run_id = run_id;
    external_job_id = r.external_job_id;
    session_id = r.session_id;
    type = r.type;
    state = pending;
    title = r.title;
    summary = r.summary;
    created_at = if is_nil r.created_at then now else r.created_at;
    deadline = r.deadline;
    risk = r.risk;
    category = r.category;
    payload = r.payload;
    response = json.empty_object;
    reason = [];
    actor = [];
    decided_at = [];
  }

  abbrev pub human : String → PolicyResult
  human reason = record { decision = PolicyDecision.require_approval; reason = reason }

  -- The seventh member of the aggregate that the code makes is `worker_node`; `approval_required` keeps
  -- its default.
  abbrev pub ask_policy :
      Option (PolicyContext → PolicyResult) → WorkerInteractionRequest Json → Result PolicyResult
  ask_policy none r = ok (human "Human decision required")
  ask_policy (some evaluate) r =
      json.string_member r.payload "resource" "worker.permission" >>= λ resource.
      json.string_member r.payload "classification" "public" >>= λ classification.
      json.bool_member r.payload "network" false >>= λ network.
      json.bool_member r.payload "remote" false >>= λ remote. ok (
        evaluate (record {
          pipeline_id = "";
          node_id = "";
          resource = resource;
          classification = classification;
          network = network;
          remote = remote;
          worker_node = is_approval r.type;
          approval_required = false;
        }))

  unfoldable pub policy_result :
      Option (PolicyContext → PolicyResult) → WorkerInteractionRequest Json → Result PolicyResult
  policy_result policy r =
      if is_question r.type then ok (human "Human answer required") else ask_policy policy r

  abbrev pub decided :
      Bytes
      → WorkerInteractionState
      → Bytes
      → Option Json
      → WorkerInteraction Json
      → WorkerInteraction Json
  decided now state reason payload i = record i {
    state = state;
    reason = reason;
    response = json.object state payload reason;
    decided_at = now;
  }

  unfoldable pub decide_by : Bytes → PolicyResult → WorkerInteraction Json → WorkerInteraction Json
  decide_by now p i = elim (p.decision) [
    | PolicyDecision.allow ↦
        decided now (if is_question i.type then answered else approved) (codes p.reason) none i
    | PolicyDecision.deny ↦ decided now denied (codes p.reason) none i
    | PolicyDecision.require_approval ↦ i
  ]

  abbrev pub is_past : Bytes → Bytes → Bool
  is_past now deadline = not (is_nil deadline) && not (bytes_lt now deadline)

  abbrev pub expire : Bytes → WorkerInteraction Json → WorkerInteraction Json
  expire now i = decided now expired (codes "Worker interaction deadline expired") none i

  -- The store, and the interaction whose decision is the response; `none` where the code waits.
  abbrev pub Handled : Type 0
  Handled = Interactions Json × Result (Option (WorkerInteraction Json))

  -- The interaction is in the store.
  unfoldable pub await_decision : Bytes → Interactions Json → WorkerInteraction Json → Handled
  unfolding bytes_lt
  await_decision now store i =
      if interaction_terminal i.state
      then (store, ok (some i))
      else if is_past now i.deadline
      then (put_row i.id (expire now i) store, ok (some (expire now i)))
      else (store, ok none)

  abbrev pub open_with :
      Bytes
      → Bytes
      → WorkerInteractionRequest Json
      → Interactions Json
      → Result PolicyResult
      → Handled
  open_with now run_id r store (err e) = (store, err e)
  open_with now run_id r store (ok p) =
      let i = decide_by now p (new_interaction now run_id r) in
      await_decision now (put_row i.id i store) i

  abbrev pub admit_row :
      Bytes
      → Option (PolicyContext → PolicyResult)
      → Bytes
      → WorkerInteractionRequest Json
      → Interactions Json
      → Option (WorkerInteraction Json)
      → Handled
  admit_row now policy run_id r store none = open_with now run_id r store (policy_result policy r)
  admit_row now policy run_id r store (some i) =
      if not (bytes_eq i.worker_job_id r.worker_job_id) || not (same_type i.type r.type)
      then (store, throw ErrorCode.plugin "Worker interaction id was reused with different content")
      else await_decision now store i

  -- `handle_interaction` until its wait. `run_id` is that of the worker's job, or empty.
  unfoldable pub handle_interaction :
      Bool
      → Bytes
      → Option (PolicyContext → PolicyResult)
      → Bytes
      → WorkerInteractionRequest Json
      → Interactions Json
      → Handled
  unfolding bad_request policy_result decide_by await_decision
  handle_interaction stopped now policy run_id r store =
      if stopped
      then (store, throw ErrorCode.plugin "LASO worker interaction service is stopped")
      else if bad_request r
      then (store, throw ErrorCode.plugin "Worker interaction request exceeds its limits")
      else admit_row now policy run_id r store (get_row r.request_id store)

  -- The wait has lasted for its five minutes.
  abbrev pub expire_row : Bytes → Interactions Json → Option (WorkerInteraction Json) → Handled
  expire_row now store none = (store, throw ErrorCode.not_found "Record not found")
  expire_row now store (some i) =
      if interaction_terminal i.state
      then (store, ok (some i))
      else (put_row i.id (expire now i) store, ok (some (expire now i)))

  unfoldable pub end_wait : Bytes → Bytes → Interactions Json → Handled
  end_wait now request_id store = expire_row now store (get_row request_id store)

  abbrev pub resolve_row :
      Bytes
      → WorkerInteractionState
      → Json
      → Bytes
      → Bytes
      → Interactions Json
      → Option (WorkerInteraction Json)
      → Interactions Json × Result (Unit {0})
  resolve_row now state payload actor reason store none =
      (store, throw ErrorCode.not_found "Record not found")
  resolve_row now state payload actor reason store (some i) =
      if interaction_terminal i.state
      then (store, throw ErrorCode.conflict "Worker interaction is no longer pending")
      else if not (is_question i.type) && is_answered state
      then (store, throw ErrorCode.validation "Only questions accept an answer")
      else if is_question i.type && approves_or_denies state
      then (store, throw ErrorCode.validation "Questions require an answer or cancellation")
      else (
        put_row i.id (record (decided now state reason (some payload) i) { actor = actor }) store,
        ok tt,
      )

  unfoldable pub resolve_interaction :
      Bytes
      → Bytes
      → WorkerInteractionState
      → Json
      → Bytes
      → Bytes
      → Interactions Json
      → Interactions Json × Result (Unit {0})
  resolve_interaction now id state payload actor reason store =
      if is_nil id
        || longer 128 actor
        || longer 2048 reason
        || not (json.is_object payload)
        || ltb (64 * 1024) (json.dump_size payload)
        || is_pending state
      then (store, throw ErrorCode.validation "Invalid worker interaction decision")
      else resolve_row now state payload actor reason store (get_row id store)
