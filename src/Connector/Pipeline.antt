-- ===== src/Connector/Pipeline.antt =====
-- ConnectorPipeline of backend/bothesis/connector/pipeline.py: `Checks` has the steps that do not call
-- out, `Run` the run of one scope.
pub mod Checks
pub mod Run
