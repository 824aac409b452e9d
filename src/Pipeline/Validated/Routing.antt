-- ===== src/Pipeline/Validated/Routing.antt =====
-- src/runtime/graph.cpp, `advance`, in a pipeline that src/pipeline/parser.cpp has accepted.
use laso.Base.{
  suc, String, ◌≡◌, refl, ap, true, false, List, [], ◌∷◌, ◌++◌, arith, ltb, str_eq, length, In,
  if◌then◌else◌,
}
use laso.Core.Errors.{ErrorCode, ok, throw}
use laso.Core.Data.{NodeDefinition, EdgeDefinition, PipelineDefinition, Run}
use laso.Pipeline.Validate.{check_exits}
use laso.Pipeline.Validate.Shape.{for_each-eq-ok, one_match, Routes}
use laso.Pipeline.Search.{validate_pipeline}
use laso.Pipeline.Validated.{edges_passed, locally_checked}
use laso.Runtime.Advance.{matching_edges, visit_edge, over_budget, push_edges, token_for, advance}
use laso.Runtime.Ready.{next_ready}

single_edge : (es : List EdgeDefinition) → length es ≡ 1 → (e : EdgeDefinition) × (es ≡ e ∷ [])
single_edge [] h = absurd (omega arith)
single_edge (e ∷ []) h = (e, refl)
single_edge (e ∷ f ∷ es) h = absurd (omega arith)

snoc_length : {A : Type 0} (xs : List A) (x : A) → length (xs ++ x ∷ []) ≡ suc (length xs)
snoc_length [] x = refl
snoc_length (y ∷ ys) x = ap suc (snoc_length ys x)

snoc_cons : {A : Type 0} (xs : List A) (x : A) → (y : A) × ((ys : List A) × (xs ++ x ∷ [] ≡ y ∷ ys))
snoc_cons [] x = (x, ([], refl))
snoc_cons (y ∷ ys) x = (y, (ys ++ x ∷ [], refl))

module _ {Json M : Type 0} (p : PipelineDefinition Json) (extensions : List String)
    (n : NodeDefinition Json) (condition group : String) (r : Run M) where
  visit_edge-ready : (e : EdgeDefinition) → (visit_edge r e).ready ≡ r.ready
  unfolding visit_edge
  visit_edge-ready e = ground arith

  advance_one :
      (e : EdgeDefinition)
      → matching_edges n.id condition p.edges ≡ e ∷ []
      → str_eq n.type "output" ≡ false
      → str_eq n.type "parallel" ≡ false
      → (advance r p n condition group).1 ≡ (
          if over_budget (visit_edge r e) e
          then throw ErrorCode.execution "Edge iteration limit exceeded"
          else if ltb 255 (length r.ready)
          then throw ErrorCode.execution "Ready branch limit exceeded"
          else ok true)
  unfolding advance push_edges next_ready
  advance_one e one inner single = ground (
    arith,
    one,
    visit_edge-ready e,
    snoc_length r.ready (token_for false group n.join 1 (visit_edge r e) 0 e),
    snoc_cons r.ready (token_for false group n.join 1 (visit_edge r e) 0 e),
  )

  -- In an accepted pipeline, at a node under its own name that is neither the output nor parallel,
  -- with a result that a node of its type may give: exactly one edge matches, and `advance` fails
  -- only because the budget of that edge is spent or because more than 256 branches would be ready.
  -- Otherwise the run goes on.
  pub accepted_advance :
      validate_pipeline p extensions ≡ ok tt
      → In (n.id, n) p.nodes
      → str_eq n.id "output" ≡ false
      → str_eq n.type "output" ≡ false
      → str_eq n.type "parallel" ≡ false
      → Routes n.type condition
      → (e : EdgeDefinition) × (matching_edges n.id condition p.edges ≡ e ∷ [])
        × ((advance r p n condition group).1 ≡ (
            if over_budget (visit_edge r e) e
            then throw ErrorCode.execution "Edge iteration limit exceeded"
            else if ltb 255 (length r.ready)
            then throw ErrorCode.execution "Ready branch limit exceeded"
            else ok true))
  unfolding advance push_edges
  accepted_advance accepted known other inner single routes =
      let passed =
        for_each-eq-ok (check_exits p.edges) p.nodes (n.id, n)
          (edges_passed p extensions (locally_checked p extensions accepted)).1 known in
      let (e, one) =
        single_edge (matching_edges n.id condition p.edges)
          (one_match n.id condition n p.edges passed other single routes) in
      (e, one, advance_one e one inner single)
