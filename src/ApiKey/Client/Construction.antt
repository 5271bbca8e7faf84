-- ===== src/ApiKey/Client/Construction.antt =====
-- fastapi_m8/_api_key.py: the constructor of `ApiKeyIntrospectionClient` and its tuning.
use fastapi_m.Base.{ℕ, String, Bool, false}
use fastapi_m.Http.{Url}
use fastapi_m.InternalAuth.{InternalAuth}
use fastapi_m.ApiKey.Breaker as Breaker
use fastapi_m.ApiKey.Client.{ApiKeyClient}

pub record ApiKeyIntrospectionTuning : Type 0 where
  pub schema_version : String
  pub connect_timeout : ℕ
  pub read_timeout : ℕ
  pub pool_timeout : ℕ
  pub max_concurrency : ℕ
  pub max_response_bytes : ℕ
  pub circuit_failure_threshold : ℕ
  pub circuit_reset_seconds : ℕ

-- what the constructor asks of `anyio.Semaphore` and `httpx.AsyncClient`, but for the fixed timeout of
-- writes
pub record Transport : Type 0 where
  pub permits : ℕ
  pub follow_redirects : Bool
  pub max_connections : ℕ
  pub connect_timeout : ℕ
  pub read_timeout : ℕ
  pub pool_timeout : ℕ

unfoldable pub init :
    (introspection_url : Url) (auth_provider : InternalAuth) (audience_id : String)
    → ApiKeyIntrospectionTuning
    → ApiKeyClient × Transport
init introspection_url auth_provider audience_id tuning = (
  record {
    url = introspection_url;
    auth = auth_provider;
    audience_id = audience_id;
    schema_version = tuning.schema_version;
    max_response_bytes = tuning.max_response_bytes;
    breaker = Breaker.init tuning.circuit_failure_threshold tuning.circuit_reset_seconds;
  },
  record {
    permits = tuning.max_concurrency;
    follow_redirects = false;
    max_connections = tuning.max_concurrency;
    connect_timeout = tuning.connect_timeout;
    read_timeout = tuning.read_timeout;
    pool_timeout = tuning.pool_timeout;
  },
)
