-- ===== src/Config/Validation.antt =====
-- What construction guarantees: fastapi_m8/config.py.
use fastapi_m.Base.{
  ℕ, ◌*◌, ◌<◌, ◌≤◌, String, ◌≡◌, ◌↔◌, ◌⊎◌, Bool, true, ◌||◌, arith, string_eq, is_some, inl, inr,
  Bool-cases,
}
use fastapi_m.Base.Exec.{ok, raise}
use fastapi_m.Config.{
  ConsumerServiceSettings, ConfigError, is_truthy, is_production, validate_api_key_introspection,
  validate_consumer_private_auth, check_fields, construct,
}

-- the bounds that are declared with the fields
pub record IsBounded (second : ℕ) (s : ConsumerServiceSettings) : Type 0 where
  pub stream_connect :
      (0 < s.event_stream_connect_timeout) × (s.event_stream_connect_timeout ≤ 300 * second)
  pub stream_read :
      (0 < s.event_stream_read_timeout) × (s.event_stream_read_timeout ≤ 3600 * second)
  pub connect :
      (0 < s.api_key_introspection_connect_timeout)
      × (s.api_key_introspection_connect_timeout ≤ 30 * second)
  pub read :
      (0 < s.api_key_introspection_read_timeout)
      × (s.api_key_introspection_read_timeout ≤ 30 * second)
  pub pool :
      (0 < s.api_key_introspection_pool_timeout)
      × (s.api_key_introspection_pool_timeout ≤ 30 * second)
  pub concurrency :
      (0 < s.api_key_introspection_max_concurrency)
      × (s.api_key_introspection_max_concurrency ≤ 1000)
  pub response :
      (256 ≤ s.api_key_introspection_max_response_bytes)
      × (s.api_key_introspection_max_response_bytes ≤ 1048576)
  pub threshold :
      (0 < s.api_key_introspection_circuit_failure_threshold)
      × (s.api_key_introspection_circuit_failure_threshold ≤ 1000)
  pub reset :
      (0 < s.api_key_introspection_circuit_reset_seconds)
      × (s.api_key_introspection_circuit_reset_seconds ≤ 3600 * second)

-- A configuration that can serve: the fields are in bounds, the API-key group is complete where it is
-- enabled, and the private credentials are coherent.
pub record IsCoherent (second : ℕ) (supported : String → Bool) (s : ConsumerServiceSettings)
    : Type 0 where
  pub bounded : IsBounded second s
  pub endpoint :
      s.api_key_introspection_enabled ≡ true
      → (is_some s.api_key_introspection_url || is_some s.introspection_url) ≡ true
  pub identity : s.api_key_introspection_enabled ≡ true → is_truthy s.internal_client_id ≡ true
  pub version :
      s.api_key_introspection_enabled ≡ true
      → supported s.api_key_introspection_schema_version ≡ true
  pub exchange : s.service_token_exchange_enabled ≡ true → is_truthy s.internal_client_id ≡ true
  pub secret : is_truthy s.internal_client_id ≡ true → is_some s.private_api_secret ≡ true
  pub hardened :
      is_production s ≡ true
      → is_some s.introspection_url ≡ true
      → is_truthy s.internal_client_id ≡ true

module _ (second : ℕ) (supported : String → Bool) (s : ConsumerServiceSettings) where
  -- the first validator gives back what it was given, or raises
  api_key_cases :
      (validate_api_key_introspection supported s ≡ ok s)
      ⊎ ((e : ConfigError) × (validate_api_key_introspection supported s ≡ raise e))
  unfolding validate_api_key_introspection
  api_key_cases = ground arith

  fields_cases :
      (check_fields second s ≡ ok s) ⊎ ((e : ConfigError) × (check_fields second s ≡ raise e))
  unfolding check_fields
  fields_cases = ground arith

  fields_sound : check_fields second s ≡ ok s → IsBounded second s
  unfolding check_fields
  fields_sound h = ground arith

  fields_complete : IsBounded second s → check_fields second s ≡ ok s
  unfolding check_fields
  fields_complete h = ground arith

  construct_ok :
      construct second supported s ≡ ok s
      → (check_fields second s ≡ ok s)
        × (validate_api_key_introspection supported s ≡ ok s)
        × (validate_consumer_private_auth s ≡ ok s)
  unfolding construct
  construct_ok h = elim fields_cases [
    | inr (e, bad) ↦ absurd (ground arith)
    | inl held ↦ elim api_key_cases [
      | inl fine ↦ (held, fine, ground arith)
      | inr (e, bad) ↦ absurd (ground arith)
    ]
  ]

  api_key_sound :
      validate_api_key_introspection supported s ≡ ok s
      → s.api_key_introspection_enabled ≡ true
      → ((is_some s.api_key_introspection_url || is_some s.introspection_url) ≡ true)
        × (is_truthy s.internal_client_id ≡ true)
        × (supported s.api_key_introspection_schema_version ≡ true)
  unfolding validate_api_key_introspection
  api_key_sound h on = ground arith

  private_auth_sound :
      validate_consumer_private_auth s ≡ ok s
      → (s.service_token_exchange_enabled ≡ true → is_truthy s.internal_client_id ≡ true)
        × (is_truthy s.internal_client_id ≡ true → is_some s.private_api_secret ≡ true)
        × (is_production s ≡ true
            → is_some s.introspection_url ≡ true
            → is_truthy s.internal_client_id ≡ true)
  unfolding validate_consumer_private_auth
  private_auth_sound h = (λ a. ground arith, λ a. ground arith, λ a b. ground arith)

  construct_sound : construct second supported s ≡ ok s → IsCoherent second supported s
  construct_sound h =
      let (fields, a, b) = construct_ok h in
      let (exchange, secret, hardened) = private_auth_sound b in
      record {
        bounded = fields_sound fields;
        endpoint = λ on. (api_key_sound a on).0;
        identity = λ on. (api_key_sound a on).1;
        version = λ on. (api_key_sound a on).2;
        exchange = exchange;
        secret = secret;
        hardened = hardened;
      }

  api_key_complete :
      IsCoherent second supported s → validate_api_key_introspection supported s ≡ ok s
  unfolding validate_api_key_introspection
  api_key_complete h = elim (Bool-cases s.api_key_introspection_enabled) [
    | inl on ↦ ground (arith, h.endpoint on, h.identity on, h.version on, h.secret (h.identity on))
    | inr off ↦ ground arith
  ]

  private_auth_complete : IsCoherent second supported s → validate_consumer_private_auth s ≡ ok s
  unfolding validate_consumer_private_auth
  private_auth_complete h = ground (arith, h.exchange, h.secret, h.hardened)

  construct_complete : IsCoherent second supported s → construct second supported s ≡ ok s
  unfolding construct
  construct_complete h =
      ground (arith, fields_complete h.bounded, api_key_complete h, private_auth_complete h)

  -- Construction succeeds exactly on the coherent configurations: every field is within the bounds that
  -- are declared with it; with API-key introspection enabled
  -- there are an endpoint, an identity and a supported contract version; token exchange has an
  -- identity; an identity has its secret; and a production consumer with an introspection URL has an
  -- identity.
  pub construct_iff : (construct second supported s ≡ ok s) ↔ IsCoherent second supported s
  construct_iff = (construct_sound, construct_complete)
