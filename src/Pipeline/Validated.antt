-- ===== src/Pipeline/Validated.antt =====
-- src/pipeline/parser.cpp, `validate_pipeline`: what an accepted pipeline is, and what src/runtime/
-- graph.cpp may rely on in one.
pub mod Routing
use laso.Base.{
  ℕ, suc, ◌≤◌, ◌<◌, String, ◌≡◌, refl, sym, ◌∙◌, ap, ◌⊎◌, inl, inr, ◌↔◌, Bool, true, false, not,
  ◌&&◌, ◌||◌, Option, some, none, List, [], ◌∷◌, arith, ltb, ◌==◌, ==_iff, str_eq, eq_iff, length,
  is_some, Bool-cases, In, here, there, In-nil, In-cons, if◌then◌else◌, subst,
}
use laso.Core.Errors.{ErrorCode, Result, ok, err, throw, ◌>>=◌, ◌>>◌, then-eq-ok}
use laso.Core.Data.{NodeDefinition, EdgeDefinition, PipelineDefinition, Run}
use laso.Maps.{lookup}
use laso.Pipeline.Validate.{
  outgoing, for_each, check_header, check_node, check_full_system, check_edges, check_exits,
  invalid,
}
use laso.Pipeline.Validate.Shape.{for_each-eq-ok, check_edges-target, one_match, Routes}
use laso.Pipeline.Search.{
  ids, depth, visit_all, visit, reach, check_visit, check_reached, validate_pipeline,
  unbounded_targets, Visit, out, cycle, colored,
}
use laso.Pipeline.Search.Acyclic.{Free, Way, last, step}
use laso.Pipeline.Search.Cyclic.{Cycle, cycle_iff}
use laso.Pipeline.Search.Cyclic.{Free-of-In, Visit-cases}
use laso.Pipeline.Search.Fuel.{visit_all-ne-out}
use laso.Pipeline.Search.Reach.{Hop, Leads}
use laso.Pipeline.Search.Reachable.{Enclosed, reached_iff, reach-returns}
use laso.Pipeline.Search.Distinct.{Distinct}

In-ids :
    {Json : Type 0} (x : String) (nodes : List (String × NodeDefinition Json))
    → is_some (lookup x nodes) ≡ true
    → In x (ids nodes)
unfolding lookup ids
In-ids x [] h = cc
In-ids x ((id, n) ∷ nodes) h = elim (Bool-cases (str_eq id x)) [
  | inl same ↦ here (sym ((eq_iff id x).0 same))
  | inr other ↦ there (In-ids x nodes (rw other at h))
]

length-ids :
    {Json : Type 0} (nodes : List (String × NodeDefinition Json))
    → length (ids nodes) ≡ length nodes
unfolding ids
length-ids [] = refl
length-ids ((id, n) ∷ nodes) = ap suc (length-ids nodes)

regroup :
    (a b c d e k : Result (Unit {0}))
    → (a >> (b >> (c >> (d >> (e >> k))))) ≡ ((a >> (b >> (c >> (d >> e)))) >> k)
regroup (err x) b c d e k = refl
regroup (ok _) (err x) c d e k = refl
regroup (ok _) (ok _) (err x) d e k = refl
regroup (ok _) (ok _) (ok _) (err x) e k = refl
regroup (ok _) (ok _) (ok _) (ok _) e k = refl

module _ {Json : Type 0} (p : PipelineDefinition Json) (extensions : List String) where
  -- The tests that come before the two searches.
  abbrev pub local_checks : Result (Unit {0})
  local_checks = do
    check_header p
    for_each (check_node extensions p.nodes) p.nodes
    check_full_system p
    check_edges p.nodes [] p.edges
    for_each (check_exits p.edges) p.nodes

  abbrev search_checks : Result (Unit {0})
  search_checks = do
    check_visit (visit_all (visit p.edges (depth p)) (ids p.nodes) [])
    check_reached (reach p.edges (depth p) "input" []) (length p.nodes)

  validate-parts : validate_pipeline p extensions ≡ (local_checks >> search_checks)
  unfolding validate_pipeline
  validate-parts =
      regroup (check_header p) (for_each (check_node extensions p.nodes) p.nodes)
        (check_full_system p) (check_edges p.nodes [] p.edges)
        (for_each (check_exits p.edges) p.nodes) search_checks

  pub locally_checked : validate_pipeline p extensions ≡ ok tt → local_checks ≡ ok tt
  locally_checked accepted =
      (then-eq-ok local_checks search_checks (sym validate-parts ∙ accepted)).0

  pub edges_passed :
      local_checks ≡ ok tt
      → (check_edges p.nodes [] p.edges ≡ ok tt) × (for_each (check_exits p.edges) p.nodes ≡ ok tt)
  edges_passed h =
      let (_, h1) = then-eq-ok (check_header p) _ h in
      let (_, h2) = then-eq-ok (for_each (check_node extensions p.nodes) p.nodes) _ h1 in
      let (_, h3) = then-eq-ok (check_full_system p) _ h2 in
      then-eq-ok (check_edges p.nodes [] p.edges) _ h3

  edges_enter_nodes : local_checks ≡ ok tt → Enclosed p.edges (ids p.nodes)
  edges_enter_nodes h a b hop = In-ids b p.nodes (
      subst (λ x. is_some (lookup x p.nodes) ≡ true) hop.enters
        (check_edges-target p.nodes [] p.edges hop.edge (edges_passed h).0 hop.is_edge))

  Free-Hop : (a b : String) → Free p.edges a b → Hop p.edges a b
  Free-Hop a b f = record {
    edge = f.edge;
    is_edge = f.is_edge;
    leaves = f.leaves;
    enters = f.enters;
  }

  has_input : local_checks ≡ ok tt → In "input" (ids p.nodes)
  unfolding check_header
  has_input h = In-ids "input" p.nodes (header (then-eq-ok (check_header p) _ h).0)
    where
      header : check_header p ≡ ok tt → is_some (lookup "input" p.nodes) ≡ true
      header passed = ground arith

  deep_enough : length (ids p.nodes) < depth p
  deep_enough = omega (arith, length-ids p.nodes)

  abbrev colors : Visit
  colors = visit_all (visit p.edges (depth p)) (ids p.nodes) []

  Closed-of :
      local_checks ≡ ok tt
      → (a b : String) → In b (unbounded_targets (outgoing p.edges a))
      → In b (ids p.nodes)
  Closed-of h a b i = edges_enter_nodes h a b (Free-Hop a b (Free-of-In p.edges a b i))

  visit_passes : local_checks ≡ ok tt → (check_visit colors ≡ ok tt) ↔ (Cycle p.edges → ⊥)
  visit_passes h = (
    λ passed found. absurd (
        fails passed
          ((cycle_iff p.edges (ids p.nodes) (depth p) (Closed-of h) deep_enough).1 found)),
    λ none_found. elim (Visit-cases colors) [
      | inl e ↦
          absurd (visit_all-ne-out p.edges (ids p.nodes) (Closed-of h) (depth p) deep_enough e)
      | inr (inl e) ↦
          absurd
            (none_found ((cycle_iff p.edges (ids p.nodes) (depth p) (Closed-of h) deep_enough).0 e))
      | inr (inr (c, e)) ↦ ap check_visit e
    ],
  )
    where
      fails : check_visit colors ≡ ok tt → colors ≡ cycle → ⊥
      fails passed e = cc (ap check_visit e)

  abbrev AllReachable : Type 0
  AllReachable = (x : String) → In x (ids p.nodes) → Leads p.edges "input" x

  reach_passes :
      local_checks ≡ ok tt
      → Distinct (ids p.nodes)
      → (check_reached (reach p.edges (depth p) "input" []) (length p.nodes) ≡ ok tt) ↔ AllReachable
  reach_passes h distinct =
      subst
        (λ size. (check_reached (reach p.edges (depth p) "input" []) size ≡ ok tt) ↔ AllReachable)
        (length-ids p.nodes)
        (reached_iff p.edges (ids p.nodes) (depth p) "input" (edges_enter_nodes h) distinct
          (has_input h) deep_enough)

  -- The keys of the map of nodes being distinct, `validate_pipeline` accepts a pipeline exactly if
  -- its tests on the header, on each node, on each edge and on the edges that leave each node pass,
  -- no way of edges without a bound returns to where it starts, and every node can be reached from
  -- the node "input". In particular neither search runs out of fuel in an accepted pipeline.
  pub validate_iff :
      Distinct (ids p.nodes)
      → (validate_pipeline p extensions ≡ ok tt) ↔ (
          (local_checks ≡ ok tt)
          × (((a : String) × Way p.edges a a) → ⊥)
          × ((x : String) → In x (ids p.nodes) → Leads p.edges "input" x))
  validate_iff distinct = (
    λ accepted.
        let (locally, searches) =
          then-eq-ok local_checks search_checks (sym validate-parts ∙ accepted) in
        let (visited, reached) = then-eq-ok (check_visit colors) _ searches in
        (locally, (visit_passes locally).0 visited, (reach_passes locally distinct).0 reached),
    λ (locally, acyclic, reachable).
        validate-parts
        ∙ passes local_checks search_checks locally (
            passes (check_visit colors)
              (check_reached (reach p.edges (depth p) "input" []) (length p.nodes))
              ((visit_passes locally).1 acyclic) ((reach_passes locally distinct).1 reachable)),
  )
    where
      passes : (m k : Result (Unit {0})) → m ≡ ok tt → k ≡ ok tt → (m >> k) ≡ ok tt
      passes m k e f = ap (λ x. x >> k) e ∙ f

  reach_fails :
      local_checks ≡ ok tt
      → Distinct (ids p.nodes)
      → (AllReachable → ⊥)
      → check_reached (reach p.edges (depth p) "input" []) (length p.nodes)
        ≡ invalid "Unreachable node"
  reach_fails h distinct missing =
      let (seen, e, _) =
        reach-returns p.edges (ids p.nodes) (depth p) "input" (edges_enter_nodes h) (has_input h)
          deep_enough in
      elim (Bool-cases (length seen == length p.nodes)) [
        | inl same ↦ absurd (missing ((reach_passes h distinct).0 (rw (e, same) refl)))
        | inr other ↦ rw (e, other) refl
      ]

  -- The errors of the two searches, the tests before them having passed and the keys being
  -- distinct: a pipeline with a way of unbounded edges back to its start is rejected for the cycle,
  -- and one with no such way that has a node which the input does not reach is rejected for the node.
  pub validate_errors :
      Distinct (ids p.nodes)
      → local_checks ≡ ok tt
      → (((a : String) × Way p.edges a a)
          → validate_pipeline p extensions ≡ throw ErrorCode.validation "Cycle has no bounded edge")
        × ((((a : String) × Way p.edges a a) → ⊥)
            → (((x : String) → In x (ids p.nodes) → Leads p.edges "input" x) → ⊥)
            → validate_pipeline p extensions ≡ throw ErrorCode.validation "Unreachable node")
  validate_errors distinct locally = (
    λ found.
        validate-parts
        ∙ after local_checks search_checks locally
        ∙ ap
            (λ v.
              check_visit v >> check_reached (reach p.edges (depth p) "input" []) (length p.nodes))
            ((cycle_iff p.edges (ids p.nodes) (depth p) (Closed-of locally) deep_enough).1 found),
    λ acyclic missing.
        validate-parts
        ∙ after local_checks search_checks locally
        ∙ after (check_visit colors)
            (check_reached (reach p.edges (depth p) "input" []) (length p.nodes))
            ((visit_passes locally).1 acyclic)
        ∙ reach_fails locally distinct missing,
  )
    where
      after : (m k : Result (Unit {0})) → m ≡ ok tt → (m >> k) ≡ k
      after m k e = ap (λ x. x >> k) e
