-- ===== src/Agent/Tools.antt =====
-- The tool registry and the tool router, backend/bothesis/agent/tools/core/.
pub mod Schema
pub mod Typing
pub mod Sound
pub mod Registry
pub mod Exposed
