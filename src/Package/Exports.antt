-- ===== src/Package/Exports.antt =====
-- The names that fastapi_m8/__init__.py binds when it is imported, and those that it exports.
pub mod Laws
use fastapi_m.Base.{
  String, Bool, ◌||◌, Option, none, some, List, [], ◌∷◌, map, elem, string_eq, is_some,
}
use fastapi_m.Base.Dict.{Dict, lookup, set}
use fastapi_m.Base.Exec.{Result, ok, raise, Exec, continue}
use fastapi_m.Package.{ImportFailure, AccessError, import_failed, db_reexports, access}

-- `from module_path import name as bound`
pub record Import : Type 0 where
  pub bound : String
  pub module_path : String
  pub name : String

-- `from module_path import name`
abbrev from_module : String → String → Import
from_module module_path name = record { bound = name; module_path = module_path; name = name }

-- the imports at the top, in the order of the file; the package itself is fastapi_m8
abbrev pub imports : List Import
imports =
    from_module "auth_sdk_m8" "has_superuser_privileges"
    ∷ from_module "auth_sdk_m8.authorization" "has_minimum_role"
    ∷ from_module "auth_sdk_m8.observability.metrics" "REGISTRY"
    ∷ record {
      bound = "render_metrics";
      module_path = "auth_sdk_m8.observability.metrics";
      name = "render";
    }
    ∷ from_module "auth_sdk_m8.schemas.base" "ResponseMessage"
    ∷ from_module "auth_sdk_m8.schemas.base" "ResponseModelBase"
    ∷ from_module "auth_sdk_m8.schemas.base" "RoleType"
    ∷ from_module "auth_sdk_m8.schemas.shared" "ValidationConstants"
    ∷ from_module "auth_sdk_m8.schemas.user" "UserModel"
    ∷ from_module "auth_sdk_m8.security.consumer_auth" "INTERNAL_CLIENT_HEADER"
    ∷ from_module "auth_sdk_m8.security.consumer_auth" "INTERNAL_TOKEN_HEADER"
    ∷ from_module "auth_sdk_m8.security.consumer_auth" "ConsumerAuthenticationError"
    ∷ from_module "auth_sdk_m8.security.consumer_auth" "ConsumerCredential"
    ∷ from_module "auth_sdk_m8.security.consumer_auth" "ConsumerCredentialRegistry"
    ∷ from_module "auth_sdk_m8.security.consumer_auth" "ConsumerScopeError"
    ∷ from_module "auth_sdk_m8.security.guards" "make_scrape_credential_guard"
    ∷ from_module "auth_sdk_m8.utils.paths" "find_dotenv"
    ∷ from_module "fastapi_m8._api_key" "ApiKeyIntrospectionError"
    ∷ from_module "fastapi_m8._api_key" "ApiKeyQuotaExceededError"
    ∷ from_module "fastapi_m8._api_key" "derive_api_key_introspection_url"
    ∷ from_module "fastapi_m8._app" "AppLifecycle"
    ∷ from_module "fastapi_m8._app" "HealthConfig"
    ∷ from_module "fastapi_m8._app" "create_app"
    ∷ from_module "fastapi_m8._async_stub" "CAPABILITIES"
    ∷ from_module "fastapi_m8._async_stub" "capabilities"
    ∷ from_module "fastapi_m8._async_stub" "create_async_app"
    ∷ from_module "fastapi_m8._compat" "COMPAT_MATRIX"
    ∷ from_module "fastapi_m8._deps" "API_KEY_HEADER"
    ∷ from_module "fastapi_m8._deps" "AuthDeps"
    ∷ from_module "fastapi_m8._deps" "build_auth_deps"
    ∷ from_module "fastapi_m8._engine" "DbEngine"
    ∷ from_module "fastapi_m8._engine" "create_db_engine"
    ∷ from_module "fastapi_m8._events" "AuthEventStreamClient"
    ∷ from_module "fastapi_m8._events" "AuthStreamEvent"
    ∷ from_module "fastapi_m8._events" "build_event_stream_client"
    ∷ from_module "fastapi_m8._events" "derive_stream_url"
    ∷ from_module "fastapi_m8._health" "HealthAggregatePolicy"
    ∷ from_module "fastapi_m8._health" "HealthCheck"
    ∷ from_module "fastapi_m8._health" "HealthCheckResult"
    ∷ from_module "fastapi_m8._health" "HealthStatus"
    ∷ from_module "fastapi_m8._internal_auth" "InternalAuthProvider"
    ∷ from_module "fastapi_m8._internal_auth" "ServiceTokenInternalAuth"
    ∷ from_module "fastapi_m8._internal_auth" "build_internal_auth"
    ∷ from_module "fastapi_m8._internal_auth" "derive_service_token_url"
    ∷ from_module "fastapi_m8._route_audit" "BareApiKeyDependency"
    ∷ from_module "fastapi_m8._route_audit" "audit_api_key_routes"
    ∷ from_module "fastapi_m8._service_client" "build_service_client_guard"
    ∷ from_module "fastapi_m8._version" "__version__"
    ∷ from_module "fastapi_m8.config" "ConsumerServiceSettings"
    ∷ []

-- `__all__`
abbrev pub exported : List String
exported =
    "__version__" ∷ "create_app" ∷ "HealthConfig" ∷ "AppLifecycle" ∷ "build_auth_deps" ∷ "AuthDeps"
    ∷ "create_db_engine" ∷ "DbEngine" ∷ "ConsumerServiceSettings" ∷ "API_KEY_HEADER"
    ∷ "ApiKeyIntrospectionError" ∷ "ApiKeyQuotaExceededError" ∷ "derive_api_key_introspection_url"
    ∷ "audit_api_key_routes" ∷ "BareApiKeyDependency" ∷ "build_internal_auth"
    ∷ "InternalAuthProvider" ∷ "ServiceTokenInternalAuth" ∷ "derive_service_token_url"
    ∷ "build_service_client_guard" ∷ "ConsumerCredential" ∷ "ConsumerCredentialRegistry"
    ∷ "ConsumerAuthenticationError" ∷ "ConsumerScopeError" ∷ "INTERNAL_CLIENT_HEADER"
    ∷ "INTERNAL_TOKEN_HEADER" ∷ "build_event_stream_client" ∷ "AuthEventStreamClient"
    ∷ "AuthStreamEvent" ∷ "derive_stream_url" ∷ "HealthStatus" ∷ "HealthCheckResult" ∷ "HealthCheck"
    ∷ "HealthAggregatePolicy" ∷ "has_superuser_privileges" ∷ "has_minimum_role" ∷ "RoleType"
    ∷ "BaseController" ∷ "ResponseModelBase" ∷ "ResponseMessage" ∷ "TimestampMixin" ∷ "UserModel"
    ∷ "ValidationConstants" ∷ "find_dotenv" ∷ "render_metrics" ∷ "REGISTRY"
    ∷ "make_scrape_credential_guard" ∷ "create_async_app" ∷ "CAPABILITIES" ∷ "capabilities"
    ∷ "COMPAT_MATRIX" ∷ []

abbrev bind :
    {V W : Type 0}
    → Import
    → Dict V
    → Result ImportFailure V × W
    → Result AccessError (Unit {0}) × (Dict V × W)
bind i globals (raise e, w) = (raise (import_failed e), (globals, w))
bind i globals (ok value, w) = (ok tt, (set i.bound value globals, w))

module _ {V W : Type 0}
    (import_name : (module_path name : String) → W → Result ImportFailure V × W) where
  -- the module is run: its imports, one after the other
  unfoldable pub import_all : List Import → Exec AccessError (Dict V × W) (Unit {0})
  import_all [] s = (ok tt, s)
  import_all (i ∷ is) (globals, w) =
      continue (λ done. import_all is) (bind i globals (import_name i.module_path i.name w))
