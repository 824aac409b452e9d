-- ===== src/Tests/Runtime.antt =====
-- Tests of src/runtime/graph.cpp.
use laso.Base.{
  ℕ, ◌+◌, ◌≤◌, String, ◌≡◌, ◌≢◌, refl, true, false, some, none, List, [], ◌∷◌, length, str_eq, ◌==◌,
  get_elem?, map_option, arith, if◌then◌else◌,
}
use laso.Core.Errors.{ErrorCode, Result, ok, throw, ◌>>=◌}
use laso.Core.Data.{
  Message, NodeDefinition, EdgeDefinition, PipelineDefinition, BranchFrame, ExecutionToken, Run,
}
use laso.Maps.{lookup, insert, find_key, Ascending}
use laso.Runtime.Ready.{back, pop_back, u32, next_ready}
use laso.Runtime.Join.{prepare_join}
use laso.Runtime.Join.Order.{
  IsAtJoin, stored, place, next_place, join_completes, join_waits, join_twice,
}
use laso.Runtime.Advance.{matching_edges, edge_key, visits, visit_edge, push_edges, advance}
use laso.Runtime.Advance.Routes.{fork}
use laso.Runtime.Advance.Single.{current, route}

-- JSON values of the tests: a number, or an array.
data Value : Type 0 where
  number : ℕ → Value
  array : Value → Value → Value
  empty : Value

abbrev array_of : List Value → Value
array_of [] = empty
array_of (v ∷ vs) = array v (array_of vs)

abbrev message : ℕ → Message Value ℕ
message n = record {
  id = "m";
  run_id = "r1";
  pipeline_id = "p";
  node_id = "a";
  type = "t";
  time = "now";
  payload = number n;
  metadata = empty;
  provenance = [];
  confidence = none;
}

abbrev node : String → String → String → NodeDefinition Value
node id type join = record {
  id = id;
  type = type;
  binding = "";
  prompt = "";
  field = "";
  condition = "";
  reason = "";
  join = join;
  input_schema = "";
  output_schema = "";
  schema = "";
  task_type = "";
  capability = "";
  instructions = "";
  required_tool = "";
  value = empty;
  max_attempts = 1;
  retry_delay = 0;
  timeout = 30000;
  max_iterations = 0;
}

abbrev frame : ℕ → BranchFrame
frame index = record { group = "g"; join = "j"; width = 2; index = index }

abbrev waiting : ExecutionToken (Message Value ℕ)
waiting = record { node_id = "b"; message = message 20; frames = frame 0 ∷ [] }

-- Branch 1 of two has reached the join.
abbrev at_join :
    List (String × List (ℕ × Message Value ℕ))
    → List (ExecutionToken (Message Value ℕ))
    → Run (Message Value ℕ)
at_join joins ready = record {
  active_node = "j";
  message = message 10;
  edge_visits = [];
  frames = frame 1 ∷ [];
  ready = ready;
  joins = joins;
  prepared_join = "";
}

abbrev saved : Run (Message Value ℕ) → Result (Unit {0})
saved r = ok tt

abbrev both_in : Run (Message Value ℕ)
both_in = at_join (("g", (0, message 20) ∷ []) ∷ []) []

alone_IsAtJoin : IsAtJoin (at_join [] (waiting ∷ [])) (node "j" "join" "") (frame 1)
unfolding back lookup
alone_IsAtJoin = record {
  kind = refl;
  fresh = refl;
  innermost = refl;
  matching = refl;
  ordered = tt;
  within = ground arith;
}

both_in-IsAtJoin : IsAtJoin both_in (node "j" "join" "") (frame 1)
unfolding back lookup
both_in-IsAtJoin = record {
  kind = refl;
  fresh = refl;
  innermost = refl;
  matching = refl;
  ordered = (ground arith, ground arith, tt);
  within = ground arith;
}

twice_IsAtJoin :
    IsAtJoin (at_join (("g", (1, message 20) ∷ []) ∷ []) []) (node "j" "join" "") (frame 1)
unfolding back lookup
twice_IsAtJoin = record {
  kind = refl;
  fresh = refl;
  innermost = refl;
  matching = refl;
  ordered = (ground arith, ground arith, tt);
  within = ground arith;
}

-- Branch 1 arrives at the join where branch 0 waits.
join_completes_example :
    let (r', result) = prepare_join array_of saved both_in (node "j" "join" "") in
    (result ≡ ok true)
    × (r'.prepared_join ≡ "j")
    × (r'.frames ≡ pop_back (frame 1 ∷ []))
    × (lookup "g" r'.joins ≡ none)
    × ((payloads : List Value) × (r'.message.payload ≡ array_of payloads)
        × (length payloads ≡ 2)
        × ((i : ℕ)
            → get_elem? payloads i
              ≡ map_option
                  (λ (m : Message Value ℕ). m.payload)
                  (if 1 == i then some (message 10) else find_key i (stored both_in (frame 1)))))
unfolding lookup find_key
join_completes_example =
    join_completes array_of saved both_in (node "j" "join" "") (frame 1) both_in-IsAtJoin refl refl

-- Branch 1 arrives first, while branch 0 is ready.
join_waits_example :
    let r = at_join [] (waiting ∷ []) in
    let r' = (prepare_join array_of saved r (node "j" "join" "")).0 in
    ((prepare_join array_of saved r (node "j" "join" "")).1 ≡ (saved r' >>= λ _. ok false))
    × (place r' ≡ next_place r)
    × Ascending 0 2 (stored r' (frame 1))
    × ((i : ℕ)
        → find_key i (stored r' (frame 1))
          ≡ (if 1 == i then some (message 10) else find_key i (stored r (frame 1))))
    × (str_eq "g" "other" ≡ false → lookup "other" r'.joins ≡ lookup "other" r.joins)
unfolding lookup find_key
join_waits_example =
    join_waits array_of saved (at_join [] (waiting ∷ [])) (node "j" "join" "") (frame 1)
      alone_IsAtJoin "other" refl (ground arith)

join_twice_example :
    prepare_join array_of saved (at_join (("g", (1, message 20) ∷ []) ∷ []) []) (node "j" "join" "")
    ≡ (
      at_join (("g", (1, message 20) ∷ []) ∷ []) [],
      throw ErrorCode.execution "Parallel branch arrived twice",
    )
unfolding lookup find_key
join_twice_example =
    join_twice array_of saved (at_join (("g", (1, message 20) ∷ []) ∷ []) []) (node "j" "join" "")
      (frame 1) twice_IsAtJoin (λ e. cc e)

abbrev graph : List EdgeDefinition → PipelineDefinition Value
graph edges = record {
  name = "sample";
  source = "";
  input_schema = "";
  output_schema = "";
  resolved_subpipelines = [];
  schema_version = 1;
  version = 1;
  max_steps = 100;
  timeout = 1000;
  nodes = [];
  edges = edges;
}

abbrev edge : String → String → ℕ → EdgeDefinition
edge from to max = record { from = from; to = to; condition = ""; max_iterations = max }

abbrev branches : PipelineDefinition Value
branches = graph (edge "split" "a" 0 ∷ edge "split" "b" 0 ∷ edge "a" "j" 4 ∷ [])

abbrev at : String → Run (Message Value ℕ)
at id = record {
  active_node = id;
  message = message 10;
  edge_visits = [];
  frames = [];
  ready = [];
  joins = [];
  prepared_join = "";
}

abbrev branch_token : ℕ → EdgeDefinition → ExecutionToken (Message Value ℕ)
branch_token i e = record {
  node_id = e.to;
  message = message 10;
  frames = record { group = "g"; join = "j"; width = 2; index = u32 i } ∷ [];
}

-- Two branches start.
fork_example :
    let r = at "split" in
    let split = node "split" "parallel" "j" in
    let r' = (advance r branches split "" "g").0 in
    (true ≡ true)
    × ((tokens : List (ExecutionToken (Message Value ℕ))) × (r'.ready ≡ tokens)
        × ((i : ℕ)
            → get_elem? tokens i
              ≡ map_option
                  (branch_token i)
                  (get_elem? (matching_edges "split" "" branches.edges) i)))
    × (r'.active_node ≡ "split")
    × (r'.joins ≡ [])
    × (length r'.ready ≤ 256)
    × (matching_edges "split" "" branches.edges ≢ [])
unfolding advance matching_edges push_edges visit_edge
fork_example = fork (at "split") branches (node "split" "parallel" "j") "" "g" true refl refl refl

-- A bounded edge is taken for the first time.
route_example :
    let r = at "a" in
    let r' = (advance r branches (node "a" "function" "") "" "g").0 in
    (true ≡ true)
    × ((e : EdgeDefinition) × (matching_edges "a" "" branches.edges ≡ e ∷ [])
        × (current r' ∷ r'.ready
            ≡ record { node_id = e.to; message = message 10; frames = [] } ∷ [])
        × (e.max_iterations ≢ 0
            → (visits r' e ≡ u32 (visits r e + 1)) × (visits r' e ≤ e.max_iterations))
        × ((k : String)
            → str_eq (edge_key e) k ≡ false
            → lookup k r'.edge_visits ≡ lookup k r.edge_visits))
unfolding advance matching_edges push_edges visit_edge next_ready lookup insert
route_example = route (at "a") branches (node "a" "function" "") "" "g" true refl refl refl
