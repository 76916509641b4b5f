-- ===== src/Agent/Reducer.antt =====
-- ResponseReducer, backend/bothesis/agent/reducer.py.
pub mod State
pub mod Writes
pub mod Apply
pub mod Frame
pub mod Rebuilt
pub mod Phases
pub mod Settled
pub mod Chunks
pub mod RoundTrip
pub mod Supplied
mod Tests
