-- ===== src/Runtime/Advance/Single.antt =====
-- src/runtime/graph.cpp, `advance` at a node that is not parallel: one edge, its budget, the queue.
use laso.Base.{
  ◌+◌, ◌≤◌, String, ◌≡◌, refl, ◌∙◌, ◌≢◌, ◌⊎◌, inl, inr, Bool, true, false, List, [], ◌∷◌, ◌++◌,
  arith, str_eq, eq_refl, length,
}
use laso.Core.Errors.{ok}
use laso.Core.Data.{NodeDefinition, EdgeDefinition, PipelineDefinition, ExecutionToken, Run}
use laso.Maps.{lookup, lookup-insert}
use laso.Runtime.Ready.{u32, next_ready}
use laso.Runtime.Advance.{
  matching_edges, edge_key, visits, visit_edge, over_budget, push_edges, push_token, advance,
}

-- Where a run stands, as a token.
abbrev pub current : {M : Type 0} → Run M → ExecutionToken M
current r = record { node_id = r.active_node; message = r.message; frames = r.frames }

-- Taking the first ready token moves it from the queue to the run, and fails on the empty queue only.
next_ready-queue :
    {M : Type 0} (r : Run M)
    → ((r.ready ≡ []) × (next_ready r ≡ (r, false)))
      ⊎ (((next_ready r).1 ≡ true)
          × (current (next_ready r).0 ∷ (next_ready r).0.ready ≡ r.ready)
          × ((next_ready r).0.edge_visits ≡ r.edge_visits))
unfolding next_ready
next_ready-queue r = ground arith

one_edge : (es : List EdgeDefinition) → length es ≡ 1 → (e : EdgeDefinition) × (es ≡ e ∷ [])
one_edge [] h = absurd (omega arith)
one_edge (e ∷ []) h = (e, refl)
one_edge (e ∷ f ∷ es) h = absurd (omega arith)

concat_ne_nil : {A : Type 0} (xs : List A) (x : A) → xs ++ x ∷ [] ≡ [] → ⊥
concat_ne_nil [] x h = cc
concat_ne_nil (y ∷ ys) x h = cc

module _ {Json M : Type 0} (r : Run M) (p : PipelineDefinition Json) (n : NodeDefinition Json)
    (condition group : String) (b : Bool) where
  abbrev outgoing : List EdgeDefinition
  outgoing = matching_edges n.id condition p.edges

  -- The run just before its next token is taken.
  abbrev queued : EdgeDefinition → Run M
  queued e = push_token false group n.join (length outgoing) (visit_edge r e) 0 e

  one_outgoing :
      str_eq n.type "output" ≡ false
      → str_eq n.type "parallel" ≡ false
      → (advance r p n condition group).1 ≡ ok b
      → (e : EdgeDefinition) × (outgoing ≡ e ∷ [])
  unfolding advance
  one_outgoing not_output single done = one_edge outgoing (ground arith)

  -- What `advance` comes to where the node has one edge.
  route_parts :
      str_eq n.type "output" ≡ false
      → str_eq n.type "parallel" ≡ false
      → (advance r p n condition group).1 ≡ ok b
      → (e : EdgeDefinition) → outgoing ≡ e ∷ []
      → (over_budget (visit_edge r e) e ≡ false)
        × ((advance r p n condition group).0 ≡ (next_ready (queued e)).0)
        × (b ≡ (next_ready (queued e)).1)
  unfolding advance push_edges
  route_parts not_output single done e one = ground arith

  visit_edge_budget :
      (e : EdgeDefinition)
      → over_budget (visit_edge r e) e ≡ false
      → e.max_iterations ≢ 0
      → (visits (visit_edge r e) e ≡ u32 (visits r e + 1))
        × (visits (visit_edge r e) e ≤ e.max_iterations)
  unfolding visit_edge
  visit_edge_budget e within bounded = ground (
    arith,
    lookup-insert (edge_key e) (edge_key e) (u32 (visits r e + 1)) r.edge_visits,
    eq_refl (edge_key e),
  )

  visit_edge_others :
      (e : EdgeDefinition) (k : String)
      → str_eq (edge_key e) k ≡ false
      → lookup k (visit_edge r e).edge_visits ≡ lookup k r.edge_visits
  unfolding visit_edge
  visit_edge_others e k other =
      ground (arith, lookup-insert (edge_key e) k (u32 (visits r e + 1)) r.edge_visits)

  queued_ready :
      (e : EdgeDefinition)
      → (queued e).ready
        ≡ r.ready ++ record { node_id = e.to; message = r.message; frames = r.frames } ∷ []
  unfolding visit_edge
  queued_ready e = ground arith

  -- If `advance` returns at a node that is neither an output nor parallel, the run goes on along the
  -- one edge that matches the node's result. The queue is served in order: the run takes its oldest
  -- token, and the token of the edge joins the queue at its end. If the edge is bounded its visits have grown
  -- by one (modulo 2^32) and keep to the bound, and no other edge's visits have changed.
  pub route :
      str_eq n.type "output" ≡ false
      → str_eq n.type "parallel" ≡ false
      → (advance r p n condition group).1 ≡ ok b
      → let r' = (advance r p n condition group).0 in
        (b ≡ true)
        × ((e : EdgeDefinition) × (matching_edges n.id condition p.edges ≡ e ∷ [])
            × (current r' ∷ r'.ready
                ≡ r.ready ++ record { node_id = e.to; message = r.message; frames = r.frames } ∷ [])
            × (e.max_iterations ≢ 0
                → (visits r' e ≡ u32 (visits r e + 1)) × (visits r' e ≤ e.max_iterations))
            × ((k : String)
                → str_eq (edge_key e) k ≡ false
                → lookup k r'.edge_visits ≡ lookup k r.edge_visits))
  route not_output single done =
      let (e, one) = one_outgoing not_output single done in
      let (within, same, found) = route_parts not_output single done e one in
      elim (next_ready-queue (queued e)) [
        | inl (empty, _) ↦ absurd (concat_ne_nil (visit_edge r e).ready _ empty)
        | inr (taken, moved, kept) ↦ rw same (
          found ∙ taken,
          (
            e,
            one,
            moved ∙ queued_ready e,
            λ bounded. rw kept (visit_edge_budget e within bounded),
            λ k other. rw kept (visit_edge_others e k other),
          ),
        )
      ]
