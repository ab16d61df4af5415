-- ===== src/Codex.antt =====
-- The turns of a Codex session over a WebSocket, from api/src/transport_matters/codex: what a
-- payload says, the semantic events and summaries, and the engine that derives them from the
-- messages.
pub mod Protocol
pub mod OpenTexts
pub mod Events
pub mod Contract
pub mod EventData
pub mod Engine
pub mod Advancing
pub mod Derive
pub mod Update
pub mod SameTexts
pub mod Resumed
pub mod Steps
pub mod Advance
pub mod Conclude
pub mod Numbered
pub mod Sound
pub mod Validity
pub mod Summaries
pub mod Opened
pub mod Incremental
pub mod Results
pub mod Agreement
pub mod Advances
pub mod Checks
pub mod Updated
