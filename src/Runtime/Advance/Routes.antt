-- ===== src/Runtime/Advance/Routes.antt =====
-- src/runtime/graph.cpp, `advance`: where a run goes from a node, and the budgets of the edges.
use Prim.Native.Nat.add
use native.Mathlib.Nat.{add-zero, add-suc, suc-add}
use laso.Base.{
  ℕ, zero, suc, ◌+◌, ◌≤◌, String, ◌≡◌, refl, ◌∙◌, ◌≢◌, Bool, true, false, List, [], ◌∷◌, ◌++◌,
  arith, str_eq, length, get_elem?, map_option,
}
use mathlib.Core.List.{append_assoc, append-nil}
use laso.Core.Errors.{Result, ok}
use laso.Core.Data.{
  NodeDefinition, EdgeDefinition, PipelineDefinition, BranchFrame, ExecutionToken, Run,
}
use laso.Runtime.Ready.{u32}
use laso.Runtime.Advance.{
  matching_edges, visit_edge, branch_frames, push_token, token_for, push_edges, advance,
}

module _ {M : Type 0} (parallel : Bool) (group join : String) (width : ℕ) where
  -- The tokens of the edges from number `i` on.
  abbrev tokens : M → List BranchFrame → ℕ → List EdgeDefinition → List (ExecutionToken M)
  tokens m fs i [] = []
  tokens m fs i (e ∷ es) =
      record { node_id = e.to; message = m; frames = branch_frames parallel fs group join width i }
      ∷ tokens m fs (suc i) es

  push_edges_ok :
      (i : ℕ) (es : List EdgeDefinition) (r : Run M)
      → (push_edges parallel group join width i es r).1 ≡ ok tt
      → let r' = (push_edges parallel group join width i es r).0 in
        (r'.ready ≡ r.ready ++ tokens r.message r.frames i es)
        × (r'.active_node ≡ r.active_node)
        × (r'.message ≡ r.message)
        × (r'.frames ≡ r.frames)
        × (r'.joins ≡ r.joins)
        × (r'.prepared_join ≡ r.prepared_join)
  unfolding push_edges visit_edge
  push_edges_ok i [] r h = ground (arith, append-nil r.ready)
  push_edges_ok i (e ∷ es) r h =
      let pushed = push_token parallel group join width (visit_edge r e) i e in
      ground (
        arith,
        push_edges_ok (suc i) es pushed,
        append_assoc r.ready (token_for parallel group join width r i e ∷ [])
            (tokens r.message r.frames (suc i) es),
      )

get_elem?-tokens :
    {M : Type 0} (group join : String) (width : ℕ) (m : M) (fs : List BranchFrame) (i k : ℕ)
    (es : List EdgeDefinition)
    → get_elem? (tokens true group join width m fs i es) k
      ≡ map_option
          (λ e. record {
            node_id = e.to;
            message = m;
            frames =
                fs
                ++ record { group = group; join = join; width = u32 width; index = u32 (i + k) }
                  ∷ [];
          })
          (get_elem? es k)
get_elem?-tokens group join width m fs i k [] = refl
get_elem?-tokens group join width m fs i zero (e ∷ es) = rw (add-zero i)
get_elem?-tokens group join width m fs i (suc k) (e ∷ es) =
    rw (add-suc i k, ← suc-add i k) (get_elem?-tokens group join width m fs (suc i) k es)

module _ {Json M : Type 0} (r : Run M) (p : PipelineDefinition Json) (n : NodeDefinition Json)
    (condition group : String) (b : Bool) where
  abbrev outgoing : List EdgeDefinition
  outgoing = matching_edges n.id condition p.edges

  abbrev pushed : Bool → Run M × Result (Unit {0})
  pushed parallel = push_edges parallel group n.join (length outgoing) 0 outgoing r

  fork_parts :
      str_eq n.type "output" ≡ false
      → str_eq n.type "parallel" ≡ true
      → (advance r p n condition group).1 ≡ ok b
      → (b ≡ true)
        × ((pushed true).1 ≡ ok tt)
        × ((advance r p n condition group).0 ≡ (pushed true).0)
        × (length (pushed true).0.ready ≤ 256)
        × (outgoing ≢ [])
  unfolding advance
  fork_parts not_output parallel done = ground arith

  -- If `advance` returns at a parallel node, it has queued one token for each of the matching edges, in
  -- their order: the token of edge number `i` stands at the edge's target with the run's message, one
  -- frame deeper, and that frame has the fresh group, the node's join, the number of branches and
  -- the index `i`. The run stays where it is, and at most 256 tokens are queued.
  pub fork :
      str_eq n.type "output" ≡ false
      → str_eq n.type "parallel" ≡ true
      → (advance r p n condition group).1 ≡ ok b
      → let r' = (advance r p n condition group).0 in
        (b ≡ true)
        × ((branches : List (ExecutionToken M)) × (r'.ready ≡ r.ready ++ branches)
            × ((i : ℕ)
                → get_elem? branches i
                  ≡ map_option
                      (λ e. record {
                        node_id = e.to;
                        message = r.message;
                        frames =
                            r.frames
                            ++ record {
                              group = group;
                              join = n.join;
                              width = u32 (length (matching_edges n.id condition p.edges));
                              index = u32 i;
                            }
                              ∷ [];
                      })
                      (get_elem? (matching_edges n.id condition p.edges) i)))
        × (r'.active_node ≡ r.active_node)
        × (r'.joins ≡ r.joins)
        × (length r'.ready ≤ 256)
        × (matching_edges n.id condition p.edges ≢ [])
  fork not_output parallel done =
      let (go, finished, same, few, some_edge) = fork_parts not_output parallel done in
      let (queue, active, _, _, joins, _) =
        push_edges_ok true group n.join (length outgoing) 0 outgoing r finished in
      rw same (
        go,
        (
          tokens true group n.join (length outgoing) r.message r.frames 0 outgoing,
          queue,
          λ i.
              get_elem?-tokens group n.join (length outgoing) r.message r.frames 0 i outgoing
              ∙ rw (add.zero i),
        ),
        active,
        joins,
        few,
        some_edge,
      )
