-- ===== src/SharedProxy.antt =====
-- The proxy that the runs share, from api/src/transport_matters/shared_proxy: the bindings of runs
-- to listeners and the manager that mirrors them and sends them to the subprocess.
pub mod Payloads
pub mod Manager
pub mod Mirror
pub mod Registered
pub mod Deregistered
pub mod Restarted
