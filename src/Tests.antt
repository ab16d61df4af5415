-- ===== src/Tests.antt =====
-- Concrete requests, stores and runs, and the theorems at them.
mod Requests
pub mod Overrides
pub mod Edits
pub mod Flows
pub mod Tracks
pub mod Turns
pub mod Proxies
pub use Requests.*
