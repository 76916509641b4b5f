-- ===== src/Agent/Reducer/RoundTrip.antt =====
-- Opening a ResponseReducer with a finished response, backend/bothesis/agent/reducer.py.
pub mod Places
pub mod Parts
pub mod Summaries
pub mod Items
pub mod Opened
