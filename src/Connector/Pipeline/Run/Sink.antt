-- ===== src/Connector/Pipeline/Run/Sink.antt =====
-- What `run_scope` of backend/bothesis/connector/pipeline.py does to the index sink.
use bo_thesis.Base.Result.{Result}
use bo_thesis.Base.{list_eq, nat_eq}
