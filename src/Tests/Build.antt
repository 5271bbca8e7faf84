-- ===== src/Tests/Build.antt =====
-- Runs of fastapi_m8/_deps.py, `build_auth_deps`, and of what it builds.
use fastapi_m.Base.{ℕ, ◌≡◌, refl, true, none, some, ◌==◌, string_eq, false}
use fastapi_m.Http.{codes}
use fastapi_m.InternalAuth.Modes.{build_internal_auth}
use fastapi_m.Revocation.Client.{client_with, init}
use fastapi_m.Base.Dict.{lookup}
use fastapi_m.Base.Exec.{ok}
use fastapi_m.Compat.{CompatState, compat_matrix, check_requirements, assert_compat}
use fastapi_m.Config.{
  validate_api_key_introspection, validate_consumer_private_auth, check_fields, construct,
}
use fastapi_m.Deps.Keys.{KeyPolicy, role_dependency, require_api_key_role}
use fastapi_m.Deps.Build.{
  Supply, AuthDeps, configured_client, build_api_key_client, build_revocation_client,
  build_api_key_deps, build_deps, build_auth_deps,
}
use fastapi_m.Deps.Build.Laws.{IsBuilt, build_auth_deps-IsBuilt}
use fastapi_m.Tests.Data.{settings, supported}
use fastapi_m.Tests.Keys.{issuer}

program : Unit {0}
unfolding validate_api_key_introspection validate_consumer_private_auth check_fields construct
    build_auth_deps build_deps build_api_key_deps build_api_key_client build_revocation_client
    require_api_key_role init check_requirements assert_compat lookup
program = tt

abbrev policy : KeyPolicy ℕ ℕ
policy = record {
  has_capability = λ principal role. true;
  validate_required_role = λ role. true;
  reader = 1;
  writer = 2;
}

abbrev supply : Supply
supply = record {
  installed = record {
    version = λ dist. some "3.2.1";
    contains = λ spec found. spec == ">=3.2.1,<4.0.0";
  };
  matrix = compat_matrix;
  minor = "4.6";
  builds_validator = λ s. true;
  introspection = "jti-status";
  jti_status_schema_version = "2";
}

abbrev state : CompatState
state = record { checked = false; auth_version = none }

abbrev checked : CompatState
checked = record { checked = true; auth_version = some "3.2.1" }

abbrev deps : AuthDeps issuer policy
deps = record {
  revocation_client = some (
      client_with (codes "https://auth/private/v1/jti-status")
        (build_internal_auth "jti-status" settings) true 30 "2");
  api_key = some (record {
    client = (configured_client "jti-status" settings).0;
    transport = (configured_client "jti-status" settings).1;
    get_current_api_key_reader = role_dependency issuer policy 1;
    get_current_api_key_writer = role_dependency issuer policy 2;
  });
}

valid : construct 1 supported settings ≡ ok settings
unfolding program
valid = refl

built : build_auth_deps issuer policy supply settings state ≡ (ok deps, checked)
unfolding program
built = refl

build_auth_deps-IsBuilt_example : IsBuilt issuer policy "jti-status" settings deps
build_auth_deps-IsBuilt_example =
    build_auth_deps-IsBuilt issuer policy supply 1 supported settings state checked deps valid built
