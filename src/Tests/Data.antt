-- ===== src/Tests/Data.antt =====
-- Test data: a world that is a clock, an issuer that knows one user, and a client with a small cache.
use fastapi_m.Base.{
  ℕ, suc, String, Bool, false, refl, true, some, none, [], ◌∷◌, arith, ◌==◌, nat_eq,
}
use fastapi_m.Base.Exec.{ok, raise}
use fastapi_m.Base.Dict.{lookup}
use fastapi_m.Config.{CommonSettings, ConsumerServiceSettings}
use fastapi_m.Http.{codes, Network, active, connect, exchange, jti_status, api_key}
use fastapi_m.InternalAuth.{static_auth}
use fastapi_m.Revocation.Cache.{RevocationCache}
use fastapi_m.Revocation.Cache.Validity.{IsValid}
use fastapi_m.Revocation.Client.{RevocationClient}

abbrev pub net : Network ℕ
net = record {
  monotonic = λ w. (w, suc w);
  post = λ request w. elim request.body [
    | exchange scopes ↦ (ok (record { status_code = 200; content = 1 ∷ [] }), suc w)
    | jti_status jti user_id version ↦ (ok (record { status_code = 200; content = 2 ∷ [] }), suc w)
    | api_key key version ↦ (raise connect, suc w)
  ];
  is_success = λ code. code == 200;
  read_token = λ content. some ("minted", 60);
  read_status = λ content. some (active "ann" 3);
}

abbrev pub cache : RevocationCache
cache = record {
  ttl = 30;
  store = ("old", record { expires_at = 100; user_id = "ann"; auth_generation = 2 }) ∷ [];
  watermarks = ("ann", 2) ∷ [];
  applied_event_ids = ("ann", "e0" ∷ []) ∷ [];
}

abbrev pub client : RevocationClient
client = record {
  url = [];
  schema_version = "2";
  auth = static_auth [];
  fail_closed = true;
  cache_ttl = 30;
  cache = some cache;
  metrics = none;
}

pub cache-IsValid : IsValid cache
unfolding lookup
cache-IsValid = record {
  store_distinct = (refl, tt);
  watermarks_distinct = (refl, tt);
  applied_distinct = (refl, tt);
  bounded = omega arith;
  tracked = λ u absent. ground arith;
}

abbrev common : CommonSettings
common = record {
  api_prefix = codes "/shop";
  allowed_origins = "https://shop.example" ∷ [];
  metrics_enabled = true;
  metrics_groups = "http";
  effective_set_open_api = true;
  effective_set_docs = false;
  effective_set_redoc = false;
  is_stateful = true;
  auth_service_role = "consumer";
  access_revocation_mode = "fail_closed";
  event_signing_key = none;
  sqlalchemy_database_uri = codes "postgresql://db/shop";
}

abbrev pub settings : ConsumerServiceSettings
settings = record {
  project_name = "shop";
  service_version = "1.0.0";
  api_version = "v1";
  contract_name = none;
  contract_version = "1";
  contract_range = ">=1";
  auth_prefix = "/auth";
  environment = "production";
  strict_production_mode = true;
  allowed_hosts = "shop.example" ∷ [];
  introspection_url = some (codes "https://auth/private/v1/jti-status");
  private_api_secret = some "secret";
  internal_client_id = some "shop";
  service_token_exchange_enabled = true;
  service_token_scopes = none;
  service_token_refresh_leeway_seconds = 5;
  event_stream_connect_timeout = 5;
  event_stream_read_timeout = 60;
  revocation_cache_ttl_seconds = 30;
  api_key_introspection_enabled = true;
  api_key_introspection_url = none;
  api_key_introspection_schema_version = "1";
  api_key_introspection_connect_timeout = 2;
  api_key_introspection_read_timeout = 3;
  api_key_introspection_pool_timeout = 2;
  api_key_introspection_max_concurrency = 20;
  api_key_introspection_max_response_bytes = 8192;
  api_key_introspection_circuit_failure_threshold = 5;
  api_key_introspection_circuit_reset_seconds = 30;
  health_detail_credential = none;
  metrics_scrape_credential = none;
  inherited = common;
}

abbrev pub supported : String → Bool
supported version = true
