-- ===== src/Pipeline/Validate.antt =====
-- src/pipeline/parser.cpp: `validate_pipeline` up to the test for cycles. The nodes are the entries
-- of a std::map, and `outgoing[id]` is the list of the edges from `id` in their order.
pub mod Shape
use Prim.Native.String.{len}
use laso.Base.{
  ℕ, suc, String, Bool, true, false, not, ◌&&◌, ◌||◌, Option, none, some, List, [], ◌∷◌, ltb, ◌==◌,
  str_eq, any, all, length, codes, is_some, if◌then◌else◌,
}
use laso.Core.Errors.{ErrorCode, Result, ok, err, throw, throw_if, ◌>>=◌, ◌>>◌}
use laso.Core.Data.{NodeDefinition, EdgeDefinition, PipelineDefinition}
use laso.Maps.{lookup}
use laso.Pipeline.Reference.{identifier, parse_pipeline_reference}

abbrev pub member : String → List String → Bool
member s xs = any (λ x. str_eq x s) xs

abbrev pub is_identifier : String → Bool
is_identifier s = identifier (codes s)

abbrev pub invalid {ℓ} : {A : Type ℓ} → String → Result A
invalid m = throw ErrorCode.validation m

abbrev pub invalid_if : Bool → String → Result (Unit {0})
invalid_if b m = throw_if b ErrorCode.validation m

unfoldable pub for_each {ℓ} : {A : Type ℓ} → (A → Result (Unit {0})) → List A → Result (Unit {0})
for_each f [] = ok tt
for_each f (x ∷ xs) = f x >> for_each f xs

-- The nodes that must be there.
unfoldable pub has_type : {Json : Type 0} → Option (NodeDefinition Json) → String → Bool
has_type none t = false
has_type (some n) t = str_eq n.type t

abbrev pub node_types : List String
node_types =
    "input" ∷ "output" ∷ "function" ∷ "agent" ∷ "tool" ∷ "router" ∷ "validator" ∷ "approval"
    ∷ "parallel" ∷ "join" ∷ "loop" ∷ "subpipeline" ∷ "worker" ∷ []

unfoldable pub outgoing : List EdgeDefinition → String → List EdgeDefinition
outgoing [] id = []
outgoing (e ∷ es) id = if str_eq e.from id then e ∷ outgoing es id else outgoing es id

abbrev pub same_path : EdgeDefinition → String × String → Bool
same_path e (a, b) = str_eq a e.from && str_eq b e.to

module _ {Json : Type 0} where
  unfoldable pub check_header : PipelineDefinition Json → Result (Unit {0})
  check_header p = do
    invalid_if
        (not (p.schema_version == 1)
          || p.version == 0
          || p.max_steps == 0
          || ltb 100000 p.max_steps
          || not (is_some (lookup "input" p.nodes))
          || not (is_some (lookup "output" p.nodes))
          || not (is_identifier p.name)
          || ltb 256 (length p.nodes)
          || ltb 1024 (length p.edges))
        "Invalid pipeline name or graph size"
    invalid_if
        (not (has_type (lookup "input" p.nodes) "input")
          || not (has_type (lookup "output" p.nodes) "output"))
        "Reserved boundary nodes have incorrect types"

  abbrev pub binds : NodeDefinition Json → Bool
  binds n = str_eq n.type "tool" || str_eq n.type "function" || str_eq n.type "agent"

  abbrev pub is_worker : NodeDefinition Json → Bool
  is_worker n = str_eq n.type "worker"

  abbrev pub check_reference : NodeDefinition Json → Result (Unit {0})
  check_reference n =
      if str_eq n.type "subpipeline"
      then (parse_pipeline_reference (codes n.binding) >>= λ _. ok tt)
      else ok tt

  -- The tests on one node, in their order.
  unfoldable pub check_node :
      List String
      → List (String × NodeDefinition Json)
      → String × NodeDefinition Json
      → Result (Unit {0})
  check_node extensions nodes (id, n) = do
    invalid_if
        ((str_eq n.type "input" && not (str_eq id "input"))
          || (str_eq n.type "output" && not (str_eq id "output")))
        "Input/output types are reserved for boundary nodes"
    invalid_if
        (not (is_identifier id)
          || (not (member n.type node_types) && not (member n.type extensions)))
        "Invalid node ID or unknown type"
    invalid_if (binds n && not (is_identifier n.binding)) "A logical binding is required"
    invalid_if (is_worker n && str_eq n.binding "" && str_eq n.capability "")
        "Worker requires a binding or capability"
    invalid_if (is_worker n && not (str_eq n.binding "") && not (is_identifier n.binding))
        "Invalid worker binding"
    invalid_if (is_worker n && ltb 128 (len n.capability)) "Invalid worker capability"
    invalid_if
        (not (str_eq n.required_tool "")
          && (not (str_eq n.required_tool "laso.browser_status")
              || not (is_worker n)
              || not (str_eq n.capability "coding-agent")))
        "Unsupported required worker tool"
    check_reference n
    invalid_if (str_eq n.type "loop" && n.max_iterations == 0) "Loop requires max_iterations"
    invalid_if (str_eq n.type "parallel" && not (has_type (lookup n.join nodes) "join"))
        "Parallel node requires an existing join node"
    invalid_if
        ((str_eq n.type "router" || str_eq n.type "validator")
          && str_eq n.field ""
          && (not (str_eq n.type "validator") || str_eq n.schema ""))
        "Router/validator requires a top-level field"

  abbrev pub is_agent_three : Option (NodeDefinition Json) → Bool
  is_agent_three none = false
  is_agent_three (some n) =
      str_eq n.type "worker"
      && str_eq n.binding "codex_agent_three"
      && str_eq n.required_tool "laso.browser_status"

  unfoldable pub check_full_system : PipelineDefinition Json → Result (Unit {0})
  check_full_system p =
      invalid_if
        (str_eq p.name "codex-full-system"
          && ltb 1 p.version
          && not (is_agent_three (lookup "agent_three" p.nodes)))
        "Full-system acceptance requires agent_three browser status evidence"

  -- The loop over the edges; `paths` holds the pairs of ends that were seen.
  unfoldable pub check_edges :
      List (String × NodeDefinition Json)
      → List (String × String)
      → List EdgeDefinition
      → Result (Unit {0})
  check_edges nodes paths [] = ok tt
  check_edges nodes paths (e ∷ es) = do
    invalid_if
        (not (is_identifier e.from)
          || not (is_identifier e.to)
          || not (is_some (lookup e.from nodes))
          || not (is_some (lookup e.to nodes))
          || str_eq e.to "input"
          || str_eq e.from "output")
        "Invalid edge reference"
    invalid_if (not (member e.condition ("" ∷ "accepted" ∷ "rejected" ∷ "repeat" ∷ "done" ∷ [])))
        "Unsupported edge condition"
    invalid_if (any (same_path e) paths) "Duplicate edge"
    check_edges nodes ((e.from, e.to) ∷ paths) es

abbrev pub unconditional : EdgeDefinition → Bool
unconditional e = str_eq e.condition ""

abbrev pub names : List EdgeDefinition → List String
names [] = []
names (e ∷ es) = e.condition ∷ names es

-- The equality of two std::set<std::string>.
abbrev pub same_set : List String → List String → Bool
same_set xs ys = all (λ x. member x ys) xs && all (λ y. member y xs) ys

abbrev pub is_conditional : String → Bool
is_conditional t = str_eq t "router" || str_eq t "validator" || str_eq t "loop"

abbrev pub expected_names : String → List String
expected_names t = if str_eq t "loop" then "repeat" ∷ "done" ∷ [] else "accepted" ∷ "rejected" ∷ []

abbrev pub plain_edge : List EdgeDefinition → Bool
plain_edge (e ∷ []) = unconditional e
plain_edge _ = false

-- The tests on the edges that leave a node of the type `t`.
unfoldable pub check_outgoing : String → List EdgeDefinition → Result (Unit {0})
check_outgoing t [] = invalid "Every non-output node needs an edge"
check_outgoing t (e ∷ es) =
    if str_eq t "parallel"
    then (do
      invalid_if (ltb (length (e ∷ es)) 2 || ltb 16 (length (e ∷ es)))
          "Parallel requires 2..16 branches"
      invalid_if (not (all unconditional (e ∷ es))) "Parallel edges must be unconditional")
    else if is_conditional t
    then invalid_if
        (not (same_set (names (e ∷ es)) (expected_names t)) || not (length (e ∷ es) == 2))
        "Conditional nodes require exactly two named branches"
    else invalid_if (not (plain_edge (e ∷ es))) "Ambiguous outgoing edges"

module _ {Json : Type 0} where
  unfoldable pub check_exits :
      List EdgeDefinition → String × NodeDefinition Json → Result (Unit {0})
  unfolding check_outgoing
  check_exits edges (id, n) =
      if str_eq id "output" then ok tt else check_outgoing n.type (outgoing edges id)
