-- ===== src/Pipeline.antt =====
-- src/pipeline/parser.cpp: references to pipelines and the validation of a pipeline's graph.
pub mod Reference
pub mod Validate
pub mod Search
pub mod Validated
