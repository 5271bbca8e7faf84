-- ===== src/ApiKey.antt =====
-- fastapi_m8/_api_key.py: the circuit breaker and the introspection client.
pub mod Breaker
pub mod Client
pub mod Tasks
