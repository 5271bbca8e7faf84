-- ===== src/Revocation.antt =====
-- fastapi_m8/_revocation.py: the positive validation cache and the revocation client.
pub mod Cache
pub mod Events
pub mod Client
pub mod Lifecycle
pub mod Metrics
pub mod Tasks
