-- ===== src/Override.antt =====
-- The overrides of api/src/transport_matters: what the user stores to rewrite requests, and how a
-- request is rewritten. overrides.py, override_targets.py, override_state.py, override_audit.py,
-- override_ops_messages.py and override_ops_metadata.py.
pub mod Targets
pub mod Model
pub mod Store
pub mod Audit
pub mod Messages
pub mod Blocks
pub mod Survivors
pub mod Metadata
pub mod Apply
pub mod Pipeline
