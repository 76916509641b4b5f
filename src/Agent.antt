-- ===== src/Agent.antt =====
-- The agent runtime, backend/bothesis/agent/.
pub mod Citation
pub mod Context
pub mod Orchestrator
pub mod Protocol
pub mod Reducer
pub mod Sampling
pub mod Session
pub mod Tools
pub mod Turn
mod Tests
