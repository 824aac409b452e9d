-- ===== src/Tests/Pipeline.antt =====
-- Tests of src/pipeline/parser.cpp.
use laso.Base.{
  ℕ, String, arith, ◌≡◌, refl, ◌↔◌, true, List, [], ◌∷◌, length, codes, In, here, ltb,
  if◌then◌else◌,
}
use laso.Core.Errors.{ErrorCode, ok, throw}
use laso.Core.Data.{NodeDefinition, EdgeDefinition, PipelineDefinition, Run}
use laso.Maps.{lookup, insert}
use laso.Pipeline.Reference.{
  pipeline_reference, identifier, split_at_sign, read_digits, unsigned_digits, signed_digits, stoul,
  version_number, parse_pipeline_reference,
}
use laso.Pipeline.Reference.RoundTrip.{parse-pipeline_reference}
use laso.Pipeline.Validate.{
  outgoing, for_each, has_type, check_header, check_node, check_full_system, check_edges,
  check_outgoing, check_exits,
}
use laso.Pipeline.Search.{
  color, unbounded_targets, targets, visit_all, visit, reach_all, reach, ids, validate_pipeline,
}
use laso.Pipeline.Search.Acyclic.{Way}
use laso.Pipeline.Search.Reach.{Leads}
use laso.Pipeline.Search.Distinct.{Distinct}
use laso.Pipeline.Validated.{local_checks, validate_iff, validate_errors}
use laso.Pipeline.Validated.Routing.{accepted_advance}
use laso.Runtime.Advance.{matching_edges, visit_edge, over_budget, advance}

abbrev node : String → String → String → NodeDefinition ℕ
node id type field = record {
  id = id;
  type = type;
  binding = "";
  prompt = "";
  field = field;
  condition = "";
  reason = "";
  join = "";
  input_schema = "";
  output_schema = "";
  schema = "";
  task_type = "";
  capability = "";
  instructions = "";
  required_tool = "";
  value = 0;
  max_attempts = 1;
  retry_delay = 0;
  timeout = 30000;
  max_iterations = 0;
}

abbrev edge : String → String → String → ℕ → EdgeDefinition
edge from to condition max = record {
  from = from;
  to = to;
  condition = condition;
  max_iterations = max;
}

-- A router that repeats itself three times at most on a rejection.
abbrev pipeline : List EdgeDefinition → PipelineDefinition ℕ
pipeline edges = record {
  name = "sample";
  source = "";
  input_schema = "";
  output_schema = "";
  resolved_subpipelines = [];
  schema_version = 1;
  version = 1;
  max_steps = 100;
  timeout = 1000;
  nodes =
      ("check", node "check" "router" "ok")
      ∷ ("input", node "input" "input" "")
      ∷ ("output", node "output" "output" "")
      ∷ [];
  edges = edges;
}

abbrev sample : PipelineDefinition ℕ
sample = pipeline (
    edge "input" "check" "" 0
    ∷ edge "check" "output" "accepted" 0
    ∷ edge "check" "check" "rejected" 3
    ∷ [])

-- The same without the bound.
abbrev endless : PipelineDefinition ℕ
endless = pipeline (
    edge "input" "check" "" 0
    ∷ edge "check" "output" "accepted" 0
    ∷ edge "check" "check" "rejected" 0
    ∷ [])

sample-Distinct : Distinct (ids sample.nodes)
unfolding ids
sample-Distinct = (refl, (refl, (refl, tt)))

sample_accepted : validate_pipeline sample [] ≡ ok tt
unfolding validate_pipeline check_header for_each check_node check_full_system check_edges
    check_exits check_outgoing has_type identifier outgoing lookup insert ids visit_all visit color
    unbounded_targets targets reach_all reach
sample_accepted = refl

endless_locally : local_checks endless [] ≡ ok tt
unfolding check_header for_each check_node check_full_system check_edges check_exits check_outgoing
    has_type identifier outgoing lookup
endless_locally = refl

validate_iff_example : (validate_pipeline sample [] ≡ ok tt) ↔ (
    (local_checks sample [] ≡ ok tt)
    × (((a : String) × Way sample.edges a a) → ⊥)
    × ((x : String) → In x (ids sample.nodes) → Leads sample.edges "input" x))
validate_iff_example = validate_iff sample [] sample-Distinct

validate_errors_example :
    (((a : String) × Way endless.edges a a)
      → validate_pipeline endless [] ≡ throw ErrorCode.validation "Cycle has no bounded edge")
    × ((((a : String) × Way endless.edges a a) → ⊥)
        → (((x : String) → In x (ids endless.nodes) → Leads endless.edges "input" x) → ⊥)
        → validate_pipeline endless [] ≡ throw ErrorCode.validation "Unreachable node")
validate_errors_example = validate_errors endless [] sample-Distinct endless_locally

abbrev at_check : Run ℕ
at_check = record {
  active_node = "check";
  message = 5;
  edge_visits = [];
  frames = [];
  ready = [];
  joins = [];
  prepared_join = "";
}

accepted_advance_example :
    (e : EdgeDefinition) × (matching_edges "check" "rejected" sample.edges ≡ e ∷ [])
    × ((advance at_check sample (node "check" "router" "ok") "rejected" "g").1 ≡ (
        if over_budget (visit_edge at_check e) e
        then throw ErrorCode.execution "Edge iteration limit exceeded"
        else if ltb 255 (length at_check.ready)
        then throw ErrorCode.execution "Ready branch limit exceeded"
        else ok true))
accepted_advance_example =
    accepted_advance sample [] (node "check" "router" "ok") "rejected" "g" at_check sample_accepted
      (here refl) refl refl refl (λ _. refl)

-- std::stoul skips spaces and takes a sign, and a negated value wraps.
spaced_version :
    parse_pipeline_reference (codes "build@ +1")
    ≡ ok (record { name = codes "build"; version = 1; explicit_version = true })
unfolding identifier split_at_sign read_digits unsigned_digits signed_digits stoul version_number
    parse_pipeline_reference
spaced_version = refl

negative_version :
    parse_pipeline_reference (codes "build@-18446744073709551615")
    ≡ ok (record { name = codes "build"; version = 1; explicit_version = true })
unfolding identifier split_at_sign read_digits unsigned_digits signed_digits stoul version_number
    parse_pipeline_reference
negative_version = refl

parse-pipeline_reference_example :
    parse_pipeline_reference (pipeline_reference (codes "build.v2") 17)
    ≡ ok (record { name = codes "build.v2"; version = 17; explicit_version = true })
unfolding identifier
parse-pipeline_reference_example =
    parse-pipeline_reference (codes "build.v2") 17 refl (ground arith) (ground arith)
