-- ===== src/Core/Data.antt =====
-- include/laso/core/types.hpp: the records that the runtime passes around. `nlohmann::json` is a
-- library, so its values are a parameter `Json`. A std::string is a `String`, an `unsigned` and a
-- std::uint64_t are natural numbers, and a std::map is a list of pairs in ascending order of keys.
use laso.Base.{ℕ, String, List, Option}

pub record ProvenanceRecord : Type 0 where
  pub node : String
  pub tool : String
  pub model : String
  pub provider : String
  pub artifact : String
  pub parent_message : String
  pub validation : String
  pub time : String
  pub worker : String

-- `Confidence` stands for the `double` of a confidence.
pub record Message (Json Confidence : Type 0) : Type 0 where
  pub id : String
  pub run_id : String
  pub pipeline_id : String
  pub node_id : String
  pub type : String
  pub time : String
  pub payload : Json
  pub metadata : Json
  pub provenance : List ProvenanceRecord
  pub confidence : Option Confidence

pub record NodeDefinition (Json : Type 0) : Type 0 where
  pub id : String
  pub type : String
  pub binding : String
  pub prompt : String
  pub field : String
  pub condition : String
  pub reason : String
  pub join : String
  pub input_schema : String
  pub output_schema : String
  pub schema : String
  pub task_type : String
  pub capability : String
  pub instructions : String
  pub required_tool : String
  pub value : Json
  pub max_attempts : ℕ
  pub retry_delay : ℕ
  pub timeout : ℕ
  pub max_iterations : ℕ

pub record EdgeDefinition : Type 0 where
  pub from : String
  pub to : String
  pub condition : String
  pub max_iterations : ℕ

pub record PipelineDefinition (Json : Type 0) : Type 0 where
  pub name : String
  pub source : String
  pub input_schema : String
  pub output_schema : String
  pub resolved_subpipelines : List (String × String)
  pub schema_version : ℕ
  pub version : ℕ
  pub max_steps : ℕ
  pub timeout : ℕ
  pub nodes : List (String × NodeDefinition Json)
  pub edges : List EdgeDefinition

pub record BranchFrame : Type 0 where
  pub group : String
  pub join : String
  pub width : ℕ
  pub index : ℕ

pub record ExecutionToken (M : Type 0) : Type 0 where
  pub node_id : String
  pub message : M
  pub frames : List BranchFrame

-- The fields of `Run` that routing and joining read or write; M is the type of messages.
pub record Run (M : Type 0) : Type 0 where
  pub active_node : String
  pub message : M
  pub edge_visits : List (String × ℕ)
  pub frames : List BranchFrame
  pub ready : List (ExecutionToken M)
  pub joins : List (String × List (ℕ × M))
  pub prepared_join : String
