-- ===== src/Runtime/Advance.antt =====
-- src/runtime/graph.cpp: `advance`. A member function returns the run as it leaves it beside its
-- result, also where it throws. `uuid()` is the argument `group`.
pub mod Routes
pub mod Single
use Prim.Native.String.{◌++◌ as str_append}
use laso.Base.{
  ℕ, suc, ◌+◌, String, Bool, true, false, not, ◌&&◌, ◌||◌, List, [], ◌∷◌, ◌++◌, ltb, ◌==◌, str_eq,
  length, if◌then◌else◌,
}
use laso.Core.Errors.{ErrorCode, Result, ok, err, throw}
use laso.Core.Data.{
  NodeDefinition, EdgeDefinition, PipelineDefinition, BranchFrame, ExecutionToken, Run,
}
use laso.Maps.{lookup, insert}
use laso.Runtime.Ready.{u32, is_empty, or_else, next_ready}

abbrev pub takes : String → String → EdgeDefinition → Bool
takes node condition e =
    str_eq e.from node && (str_eq e.condition "" || str_eq e.condition condition)

unfoldable pub matching_edges : String → String → List EdgeDefinition → List EdgeDefinition
matching_edges node condition [] = []
matching_edges node condition (e ∷ es) =
    if takes node condition e
    then e ∷ matching_edges node condition es
    else matching_edges node condition es

abbrev pub edge_key : EdgeDefinition → String
edge_key e = str_append e.from (str_append "->" e.to)

-- `++r.edge_visits[key]`
abbrev pub count_visit : {M : Type 0} → Run M → EdgeDefinition → Run M
count_visit r e = record r {
  edge_visits =
      insert (edge_key e) (u32 (or_else 0 (lookup (edge_key e) r.edge_visits) + 1)) r.edge_visits;
}

abbrev pub visits : {M : Type 0} → Run M → EdgeDefinition → ℕ
visits r e = or_else 0 (lookup (edge_key e) r.edge_visits)

-- The run with the edge's visit counted, where the edge is bounded.
unfoldable pub visit_edge : {M : Type 0} → Run M → EdgeDefinition → Run M
visit_edge r e = if e.max_iterations == 0 then r else count_visit r e

abbrev pub over_budget : {M : Type 0} → Run M → EdgeDefinition → Bool
over_budget r e = not (e.max_iterations == 0) && ltb e.max_iterations (visits r e)

abbrev pub branch_frames : Bool → List BranchFrame → String → String → ℕ → ℕ → List BranchFrame
branch_frames true frames group join width index =
    frames ++ record { group = group; join = join; width = u32 width; index = u32 index } ∷ []
branch_frames false frames group join width index = frames

module _ {M : Type 0} (parallel : Bool) (group join : String) (width : ℕ) where
  abbrev pub token_for : Run M → ℕ → EdgeDefinition → ExecutionToken M
  token_for r i e = record {
    node_id = e.to;
    message = r.message;
    frames = branch_frames parallel r.frames group join width i;
  }

  -- The run with the token of edge number `i` at the end of its queue.
  abbrev pub push_token : Run M → ℕ → EdgeDefinition → Run M
  push_token r i e = record r { ready = r.ready ++ token_for r i e ∷ [] }

  -- The loop over the outgoing edges, from number `i` on.
  unfoldable pub push_edges : ℕ → List EdgeDefinition → Run M → Run M × Result (Unit {0})
  unfolding visit_edge
  push_edges i [] r = (r, ok tt)
  push_edges i (e ∷ es) r =
      let r' = visit_edge r e in
      if over_budget r' e
      then (r', throw ErrorCode.execution "Edge iteration limit exceeded")
      else push_edges (suc i) es (push_token r' i e)

module _ {M : Type 0} where
  -- What follows the loop.
  after_push : Bool → Run M × Result (Unit {0}) → Run M × Result Bool
  unfolding next_ready
  after_push parallel (r, err e) = (r, err e)
  after_push parallel (r, ok _) =
      if ltb 256 (length r.ready)
      then (r, throw ErrorCode.execution "Ready branch limit exceeded")
      else if parallel
      then (r, ok true)
      else let (r', found) = next_ready r in (r', ok found)

module _ {Json M : Type 0} where
  follow_edges : Run M → NodeDefinition Json → String → List EdgeDefinition → Run M × Result Bool
  unfolding push_edges after_push
  follow_edges r n group outgoing =
      let parallel = str_eq n.type "parallel" in
      if is_empty outgoing
      then (r, throw ErrorCode.execution "No matching outgoing edge")
      else if not parallel && not (length outgoing == 1)
      then (r, throw ErrorCode.execution "Ambiguous routing result")
      else after_push parallel (push_edges parallel group n.join (length outgoing) 0 outgoing r)

  unfoldable pub advance :
      Run M → PipelineDefinition Json → NodeDefinition Json → String → String → Run M × Result Bool
  unfolding follow_edges matching_edges
  advance r p n condition group =
      if str_eq n.type "output"
      then (if not (is_empty r.frames) || not (is_empty r.ready) || not (is_empty r.joins)
          then (r, throw ErrorCode.execution "Parallel branches must converge before output")
          else (r, ok false))
      else follow_edges r n group (matching_edges n.id condition p.edges)
