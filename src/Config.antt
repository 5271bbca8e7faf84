-- ===== src/Config.antt =====
-- fastapi_m8/config.py, `ConsumerServiceSettings`: the fields that the package reads, their bounds, and
-- the two validators that run after construction. The fields of the SDK's base classes are taken as
-- they come. A time is a number in a fixed unit. `None` as a text is "None", as `str(None)` is.
pub mod Validation
use fastapi_m.Base.{
  ℕ, String, Bool, true, false, not, ◌*◌, leb, ◌&&◌, ◌||◌, Option, none, some, List, ◌==◌,
  string_eq, if◌then◌else◌, is_some,
}
use fastapi_m.Base.Exec.{Result, ok, raise}
use fastapi_m.Http.{Url, codes}
use fastapi_m.Endpoints.{derive_api_key_introspection_url}

-- fields and properties of the SDK's base classes, which the package reads;
-- `access_revocation_mode` is `effective_failure_mode("access_revocation")`
pub record CommonSettings : Type 0 where
  pub api_prefix : List ℕ
  pub allowed_origins : List String
  pub metrics_enabled : Bool
  pub metrics_groups : String
  pub effective_set_open_api : Bool
  pub effective_set_docs : Bool
  pub effective_set_redoc : Bool
  pub is_stateful : Bool
  pub auth_service_role : String
  pub access_revocation_mode : String
  pub event_signing_key : Option String
  pub sqlalchemy_database_uri : Url

pub record ConsumerServiceSettings : Type 0 where
  pub project_name : String
  pub service_version : String
  pub api_version : String
  pub contract_name : Option String
  pub contract_version : String
  pub contract_range : String
  pub auth_prefix : String
  pub environment : String
  pub strict_production_mode : Bool
  pub allowed_hosts : List String
  pub introspection_url : Option Url
  pub private_api_secret : Option String
  pub internal_client_id : Option String
  pub service_token_exchange_enabled : Bool
  pub service_token_scopes : Option (List String)
  pub service_token_refresh_leeway_seconds : ℕ
  pub event_stream_connect_timeout : ℕ
  pub event_stream_read_timeout : ℕ
  pub revocation_cache_ttl_seconds : ℕ
  pub api_key_introspection_enabled : Bool
  pub api_key_introspection_url : Option Url
  pub api_key_introspection_schema_version : String
  pub api_key_introspection_connect_timeout : ℕ
  pub api_key_introspection_read_timeout : ℕ
  pub api_key_introspection_pool_timeout : ℕ
  pub api_key_introspection_max_concurrency : ℕ
  pub api_key_introspection_max_response_bytes : ℕ
  pub api_key_introspection_circuit_failure_threshold : ℕ
  pub api_key_introspection_circuit_reset_seconds : ℕ
  pub health_detail_credential : Option String
  pub metrics_scrape_credential : Option String
  pub inherited : CommonSettings

-- the truth value of an optional text
abbrev pub is_truthy : Option String → Bool
is_truthy none = false
is_truthy (some text) = not (text == "")

-- `str(url)` of an optional URL
abbrev pub url_text : Option Url → Url
url_text none = codes "None"
url_text (some url) = url

-- the `ValueError`s of the validators, in the order of the source, and pydantic's for a field
pub data ConfigError : Type 0 where
  no_introspection_url no_internal_client_id no_private_api_secret : ConfigError
  unsupported_schema_version exchange_without_identity identity_without_secret : ConfigError
  legacy_in_production out_of_bounds : ConfigError

abbrev Checked : Type 0
Checked = Result ConfigError ConsumerServiceSettings

-- `self.ENVIRONMENT == "production" or self.STRICT_PRODUCTION_MODE`
abbrev pub is_production : ConsumerServiceSettings → Bool
is_production s = s.environment == "production" || s.strict_production_mode

-- `supported` is the SDK's check of a contract version, which raises where it is `false`.
unfoldable pub validate_api_key_introspection :
    (supported : String → Bool) → ConsumerServiceSettings → Checked
validate_api_key_introspection supported s =
    if not s.api_key_introspection_enabled
    then ok s
    else if not (is_some s.api_key_introspection_url) && not (is_some s.introspection_url)
    then raise no_introspection_url
    else if not (is_truthy s.internal_client_id)
    then raise no_internal_client_id
    else if not (is_some s.private_api_secret)
    then raise no_private_api_secret
    else if not (supported s.api_key_introspection_schema_version)
    then raise unsupported_schema_version
    else ok s

unfoldable pub validate_consumer_private_auth : ConsumerServiceSettings → Checked
validate_consumer_private_auth s =
    if s.service_token_exchange_enabled && not (is_truthy s.internal_client_id)
    then raise exchange_without_identity
    else if is_truthy s.internal_client_id && not (is_some s.private_api_secret)
    then raise identity_without_secret
    else if is_production s && is_some s.introspection_url && not (is_truthy s.internal_client_id)
    then raise legacy_in_production
    else ok s

-- `gt=0, le=n`, and `ge=m, le=n`
abbrev between : ℕ → ℕ → ℕ → Bool
between least most n = leb least n && leb n most

-- The bounds of the fields, where a second is `second` units of time. pydantic checks them before it
-- runs the validators.
unfoldable pub check_fields : (second : ℕ) → ConsumerServiceSettings → Checked
check_fields second s =
    if between 1 (300 * second) s.event_stream_connect_timeout
      && between 1 (3600 * second) s.event_stream_read_timeout
      && between 1 (30 * second) s.api_key_introspection_connect_timeout
      && between 1 (30 * second) s.api_key_introspection_read_timeout
      && between 1 (30 * second) s.api_key_introspection_pool_timeout
      && between 1 1000 s.api_key_introspection_max_concurrency
      && between 256 1048576 s.api_key_introspection_max_response_bytes
      && between 1 1000 s.api_key_introspection_circuit_failure_threshold
      && between 1 (3600 * second) s.api_key_introspection_circuit_reset_seconds
    then ok s
    else raise out_of_bounds

abbrev validated : (supported : String → Bool) → Checked → Checked
validated supported (raise e) = raise e
validated supported (ok s) = elim (validate_api_key_introspection supported s) [
  | raise e ↦ raise e
  | ok checked ↦ validate_consumer_private_auth checked
]

-- construction: pydantic checks the fields, and runs the validators in the order in which they are
-- declared
unfoldable pub construct :
    (second : ℕ) → (supported : String → Bool) → ConsumerServiceSettings → Checked
construct second supported s = validated supported (check_fields second s)

pub effective_api_key_introspection_url : ConsumerServiceSettings → Url
effective_api_key_introspection_url s = elim s.api_key_introspection_url [
  | some url ↦ url
  | none ↦ derive_api_key_introspection_url (url_text s.introspection_url)
]

pub record ServiceMeta : Type 0 where
  pub service : String
  pub version : String
  pub api_version : String
  pub contract_name : String
  pub contract_version : String
  pub contract_range : String

abbrev pub or_else : Option String → String → String
or_else none text = text
or_else (some given) text = if given == "" then text else given

-- `build_service_meta`; the SDK's model then refuses an empty field
pub build_service_meta : ConsumerServiceSettings → ServiceMeta
build_service_meta s = record {
  service = s.project_name;
  version = s.service_version;
  api_version = s.api_version;
  contract_name = or_else s.contract_name s.project_name;
  contract_version = s.contract_version;
  contract_range = s.contract_range;
}
