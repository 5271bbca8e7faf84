-- ===== src/Deps/Keys.antt =====
-- fastapi_m8/_deps.py, the dependencies for API keys that `_build_api_key_deps` returns. The SDK's
-- capability decisions are parameters.
pub mod Laws
use fastapi_m.Base.{String, Bool, not, Option, none, some, ◌==◌, string_eq, if◌then◌else◌}
use fastapi_m.Base.Exec.{Result, ok, raise, Exec, pure, fail, handle, ◌>>=◌}
use fastapi_m.ApiKey.Client.{
  Session, Issuer, ApiKeyError, introspection, quota_exceeded, uncaught, introspect,
}
use fastapi_m.Deps.{HttpException, DepsError, http, denial, no_privileges}
use fastapi_m.Deps as Deps

abbrev pub invalid_api_key : HttpException
invalid_api_key = denial 401 "Invalid or expired API key"

-- `validate_api_key_required_role` raises where it is `false`.
pub record KeyPolicy (P R : Type 0) : Type 0 where
  pub has_capability : P → R → Bool
  pub validate_required_role : R → Bool
  pub reader : R
  pub writer : R

-- `ApiKeyCapabilityCeilingError`
pub data CeilingError : Type 0 where
  capability_ceiling : CeilingError

-- `{"Retry-After": …} if ex.retry_after else None`
abbrev relayed : Option String → Option String
relayed none = none
relayed (some value) = if value == "" then none else some value

pub api_key_quota_denial : Option String → HttpException
api_key_quota_denial retry_after = record {
  status_code = 429;
  detail = "API key rate limit exceeded";
  retry_after = relayed retry_after;
}

-- the `except` clauses of `get_current_api_key_principal`
unfoldable pub denial_of : ApiKeyError → DepsError
denial_of (quota_exceeded retry_after) = http (api_key_quota_denial retry_after)
denial_of (introspection reason) = http (denial 503 "API key verification unavailable.")
denial_of (uncaught e) = Deps.uncaught e

module _ {W P R : Type 0} (issuer : Issuer W P) (policy : KeyPolicy P R) where
  unfoldable pub known : Option P → Exec DepsError (Session issuer) P
  known none = fail (http invalid_api_key)
  known (some principal) = pure principal

  abbrev resolve : String → Exec DepsError (Session issuer) P
  resolve api_key s =
      ((λ t. handle (λ e. fail (denial_of e)) (introspect issuer api_key t)) >>= known) s

  unfoldable pub get_current_api_key_principal : Option String → Exec DepsError (Session issuer) P
  get_current_api_key_principal none = fail (http invalid_api_key)
  get_current_api_key_principal (some api_key) =
      if api_key == "" then fail (http invalid_api_key) else resolve api_key

  unfoldable pub check_capability : R → P → Exec DepsError (Session issuer) P
  check_capability required_role principal =
      if not (policy.has_capability principal required_role)
      then fail (http no_privileges)
      else pure principal

  abbrev pub Dependency : Type 0
  Dependency = Option String → Exec DepsError (Session issuer) P

  abbrev pub role_dependency : R → Dependency
  role_dependency required_role api_key = do
    principal ← get_current_api_key_principal api_key
    check_capability required_role principal

  -- The ceiling is checked where the dependency is built, not where it is used.
  unfoldable pub require_api_key_role : R → Result CeilingError Dependency
  require_api_key_role required_role =
      if policy.validate_required_role required_role
      then ok (role_dependency required_role)
      else raise capability_ceiling
