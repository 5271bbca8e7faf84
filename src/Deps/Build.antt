-- ===== src/Deps/Build.antt =====
-- fastapi_m8/_deps.py: how `build_auth_deps` makes the clients out of the settings. The guards that it
-- closes over them are in the modules beside this one.
pub mod Clients
pub mod Capacity
pub mod Laws
use fastapi_m.Base.{
  String, Bool, true, false, ◌&&◌, Option, none, some, ◌==◌, string_eq, if◌then◌else◌,
}
use fastapi_m.Base.Dict.{Dict}
use fastapi_m.Base.Exec.{Result, ok, raise}
use fastapi_m.Compat.{Installed, Requirements, CompatState, CompatError, assert_compat}
use fastapi_m.Config.{ConsumerServiceSettings, url_text, effective_api_key_introspection_url}
use fastapi_m.InternalAuth.Modes.{build_internal_auth}
use fastapi_m.Revocation.Client.{RevocationClient}
use fastapi_m.Revocation.Client as Revocation
use fastapi_m.ApiKey.Client.{ApiKeyClient, Issuer}
use fastapi_m.ApiKey.Client.Construction.{Transport}
use fastapi_m.ApiKey.Client.Construction as ApiKey
use fastapi_m.Deps.Keys.{KeyPolicy, CeilingError, Dependency, require_api_key_role}

-- what the environment supplies: the installed versions, whether the SDK builds a validator from the
-- settings, and two of its constants
pub record Supply : Type 0 where
  pub installed : Installed
  pub matrix : Dict Requirements
  pub minor : String
  pub builds_validator : ConsumerServiceSettings → Bool
  pub introspection : String
  pub jti_status_schema_version : String

-- what `build_auth_deps` raises; `no_validator` is the SDK's exception
pub data BuildError : Type 0 where
  compat : CompatError → BuildError
  no_validator : BuildError
  ceiling : CeilingError → BuildError

-- `str(settings.INTERNAL_CLIENT_ID)`
abbrev pub client_id_text : Option String → String
client_id_text none = "None"
client_id_text (some client_id) = client_id

module _ (introspection : String) (s : ConsumerServiceSettings) where
  -- the call of the constructor in `_build_api_key_client`
  abbrev pub configured_client : ApiKeyClient × Transport
  configured_client =
      ApiKey.init (effective_api_key_introspection_url s) (build_internal_auth introspection s)
        (client_id_text s.internal_client_id)
        (record {
          schema_version = s.api_key_introspection_schema_version;
          connect_timeout = s.api_key_introspection_connect_timeout;
          read_timeout = s.api_key_introspection_read_timeout;
          pool_timeout = s.api_key_introspection_pool_timeout;
          max_concurrency = s.api_key_introspection_max_concurrency;
          max_response_bytes = s.api_key_introspection_max_response_bytes;
          circuit_failure_threshold = s.api_key_introspection_circuit_failure_threshold;
          circuit_reset_seconds = s.api_key_introspection_circuit_reset_seconds;
        })

  unfoldable pub build_api_key_client : Option (ApiKeyClient × Transport)
  build_api_key_client = if s.api_key_introspection_enabled then some configured_client else none

  -- `settings.is_stateful and settings.AUTH_SERVICE_ROLE == "consumer"`
  abbrev pub asks_issuer : Bool
  asks_issuer = s.inherited.is_stateful && s.inherited.auth_service_role == "consumer"

  -- the client of the stateful mode; its constructor is given a provider and no secret, and so it does
  -- not raise
  unfoldable pub build_revocation_client : (schema_version : String) → Option RevocationClient
  build_revocation_client schema_version =
      if asks_issuer
      then Revocation.init (url_text s.introspection_url) none
          (some (build_internal_auth introspection s))
          (s.inherited.access_revocation_mode == "fail_closed") s.revocation_cache_ttl_seconds
          schema_version
      else none

module _ {W P R : Type 0} (issuer : Issuer W P) (policy : KeyPolicy P R) where
  -- the members that `_build_api_key_deps` gives for a client
  pub record ApiKeyDeps : Type 0 where
    pub client : ApiKeyClient
    pub transport : Transport
    pub get_current_api_key_reader : Dependency issuer policy
    pub get_current_api_key_writer : Dependency issuer policy

  unfoldable pub build_api_key_deps : ApiKeyClient × Transport → Result BuildError ApiKeyDeps
  build_api_key_deps (client, transport) = elim (require_api_key_role issuer policy policy.reader) [
    | raise e ↦ raise (ceiling e)
    | ok reader ↦ elim (require_api_key_role issuer policy policy.writer) [
      | raise e ↦ raise (ceiling e)
      | ok writer ↦ ok (record {
        client = client;
        transport = transport;
        get_current_api_key_reader = reader;
        get_current_api_key_writer = writer;
      })
    ]
  ]

  -- the members of `AuthDeps` that depend on the settings
  pub record AuthDeps : Type 0 where
    pub revocation_client : Option RevocationClient
    pub api_key : Option ApiKeyDeps

  abbrev pub with_api_key :
      Option RevocationClient → Option (ApiKeyClient × Transport) → Result BuildError AuthDeps
  with_api_key revocation none = ok (record { revocation_client = revocation; api_key = none })
  with_api_key revocation (some client) = elim (build_api_key_deps client) [
    | raise e ↦ raise e
    | ok deps ↦ ok (record { revocation_client = revocation; api_key = some deps })
  ]

  module _ (supply : Supply) (s : ConsumerServiceSettings) where
    -- what follows the compatibility guard
    unfoldable pub build_deps : Result BuildError AuthDeps
    build_deps =
        if supply.builds_validator s
        then with_api_key
            (build_revocation_client supply.introspection s supply.jti_status_schema_version)
            (build_api_key_client supply.introspection s)
        else raise no_validator

    abbrev pub after_guard :
        Result CompatError (Unit {0}) × CompatState → Result BuildError AuthDeps × CompatState
    after_guard (raise e, state) = (raise (compat e), state)
    after_guard (ok _, state) = (build_deps, state)

    unfoldable pub build_auth_deps : CompatState → Result BuildError AuthDeps × CompatState
    build_auth_deps state =
        after_guard (assert_compat supply.installed supply.matrix supply.minor state)
