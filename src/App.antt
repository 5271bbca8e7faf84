-- ===== src/App.antt =====
-- fastapi_m8/_app.py: the factory of consumer apps. `app.state` is a record; the children hold the
-- lifespan, the health route and the wiring.
pub mod Startup
pub mod HealthRoute
pub mod Factory
pub mod Creation
use fastapi_m.Base.{ℕ, Bool, false, Option, none, List}
use fastapi_m.Health.{HealthStatus, HealthCheckResult}

-- `(time.monotonic(), results, overall, code)`
pub record HealthCache (X : Type 0) : Type 0 where
  pub checked_at : ℕ
  pub results : List (HealthCheckResult X)
  pub overall : HealthStatus
  pub code : ℕ

pub record AppState (X : Type 0) : Type 0 where
  pub service_ready : Bool
  pub ready_since : Option ℕ
  pub health_cache : Option (HealthCache X)

-- `_init_app_state`
unfoldable pub init_app_state : {X : Type 0} → AppState X
init_app_state = record { service_ready = false; ready_since = none; health_cache = none }
