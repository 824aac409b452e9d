-- ===== src/Pipeline/Search.antt =====
-- src/pipeline/parser.cpp, `validate_pipeline`: the depth-first search `visit` for a cycle without a
-- bounded edge, the search `reach` from the input, and the whole validation. Both searches take
-- fuel, which bounds the depth of the calls; `none` means that it ran out.
pub mod Colors
pub mod Acyclic
pub mod Fuel
pub mod Cyclic
pub mod Distinct
pub mod Reach
pub mod Reachable
use laso.Base.{
  ℕ, zero, suc, String, Bool, true, false, not, ◌&&◌, Option, none, some, List, [], ◌∷◌, ◌==◌,
  str_eq, length, if◌then◌else◌,
}
use laso.Core.Errors.{ErrorCode, Result, ok, err, throw, throw_if, ◌>>=◌, ◌>>◌}
use laso.Core.Data.{NodeDefinition, EdgeDefinition, PipelineDefinition}
use laso.Maps.{lookup, insert}
use laso.Pipeline.Validate.{
  outgoing, member, for_each, invalid, invalid_if, check_header, check_node, check_full_system,
  check_edges, check_exits,
}

-- std::map<std::string, int>, where a missing key reads 0.
abbrev pub Colors : Type 0
Colors = List (String × ℕ)

abbrev pub value_or_zero : Option ℕ → ℕ
value_or_zero none = 0
value_or_zero (some n) = n

unfoldable pub color : String → Colors → ℕ
color id c = value_or_zero (lookup id c)

-- The targets of the unbounded edges from a node, and of all its edges.
unfoldable pub unbounded_targets : List EdgeDefinition → List String
unbounded_targets [] = []
unbounded_targets (e ∷ es) =
    if e.max_iterations == 0 then e.to ∷ unbounded_targets es else unbounded_targets es

unfoldable pub targets : List EdgeDefinition → List String
targets [] = []
targets (e ∷ es) = e.to ∷ targets es

-- The answer of `visit`: it throws, or it returns with the colors as they are then.
pub data Visit : Type 0 where
  out : Visit
  cycle : Visit
  colored : Colors → Visit

abbrev pub and_then : Visit → (Colors → Visit) → Visit
and_then out f = out
and_then cycle f = cycle
and_then (colored c) f = f c

unfoldable pub visit_all : (String → Colors → Visit) → List String → Colors → Visit
visit_all go [] c = colored c
visit_all go (t ∷ ts) c = and_then (go t c) (visit_all go ts)

unfoldable pub visit : List EdgeDefinition → ℕ → String → Colors → Visit
visit edges zero id c = out
visit edges (suc fuel) id c = elim (color id c == 1) [
  | true ↦ cycle
  | false ↦ elim (color id c == 2) [
    | true ↦ colored c
    | false ↦
        and_then
          (visit_all (visit edges fuel) (unbounded_targets (outgoing edges id)) (insert id 1 c))
          (λ c'. colored (insert id 2 c'))
  ]
]

unfoldable pub reach_all :
    (String → List String → Option (List String)) → List String → List String → Option (List String)
reach_all go [] seen = some seen
reach_all go (t ∷ ts) seen = elim (go t seen) [ none ↦ none | some seen' ↦ reach_all go ts seen' ]

unfoldable pub reach : List EdgeDefinition → ℕ → String → List String → Option (List String)
reach edges zero id seen = none
reach edges (suc fuel) id seen = elim (member id seen) [
  | true ↦ some seen
  | false ↦ reach_all (reach edges fuel) (targets (outgoing edges id)) (id ∷ seen)
]

unfoldable pub ids : {Json : Type 0} → List (String × NodeDefinition Json) → List String
ids [] = []
ids ((id, n) ∷ nodes) = id ∷ ids nodes

-- The error that stands for spent fuel; it is shown that the fuel suffices.
abbrev pub check_visit : Visit → Result (Unit {0})
check_visit out = throw ErrorCode.execution "out of fuel"
check_visit cycle = invalid "Cycle has no bounded edge"
check_visit (colored c) = ok tt

abbrev pub check_reached : Option (List String) → ℕ → Result (Unit {0})
check_reached none size = throw ErrorCode.execution "out of fuel"
check_reached (some seen) size = invalid_if (not (length seen == size)) "Unreachable node"

module _ {Json : Type 0} where
  -- One call more than there are nodes.
  abbrev pub depth : PipelineDefinition Json → ℕ
  depth p = suc (length p.nodes)

  unfoldable pub validate_pipeline : PipelineDefinition Json → List String → Result (Unit {0})
  validate_pipeline p extensions = do
    check_header p
    for_each (check_node extensions p.nodes) p.nodes
    check_full_system p
    check_edges p.nodes [] p.edges
    for_each (check_exits p.edges) p.nodes
    check_visit (visit_all (visit p.edges (depth p)) (ids p.nodes) [])
    check_reached (reach p.edges (depth p) "input" []) (length p.nodes)
