-- ===== src/Deps/Jwt.antt =====
-- fastapi_m8/_deps.py, the dependencies for JWT access tokens. The SDK's validator, its user model
-- and its policy helpers are parameters.
pub mod Laws
pub mod Guards
use fastapi_m.Base.{String, Bool, true, false, not, Option, none, some, if◌then◌else◌}
use fastapi_m.Base.Exec.{Result, ok, raise, Exec, pure, fail, continue, handle, ◌>>=◌}
use fastapi_m.Http.{Network, other}
use fastapi_m.Revocation.Client.{RevocationClient, RevocationError, is_revoked}
use fastapi_m.Deps.{DepsError, http, uncaught, denial, no_privileges}

-- the fields of the token's payload that the program reads; `claims` is the rest of it
pub record Payload (C : Type 0) : Type 0 where
  pub jti : String
  pub sub : String
  pub claims : C

-- `UserModel`, with the fields that the program reads
pub record UserModel (R : Type 0) : Type 0 where
  pub id : String
  pub role : R
  pub is_superuser : Bool
  pub is_active : Bool

-- `R` is the SDK's `RoleType`. `validate` is the validator that `build_access_validator` returns,
-- `none` for its `InvalidToken`; `user_model` is `UserModel(id=…, **claims)`, `none` for a
-- `ValidationError`, which no dependency catches.
pub record Sdk (W R C : Type 0) : Type 0 where
  pub validate : String → W → Option (Payload C) × W
  pub user_model : (id : String) → C → Option (UserModel R)
  pub has_minimum_role : (role required : R) → Bool
  pub has_superuser_privileges : R → Bool → Bool
  pub reader : R
  pub writer : R
  pub admin : R

module _ {W R C : Type 0} (net : Network W) (sdk : Sdk W R C) where
  -- the revocation client, `none` in stateless mode, beside the world
  abbrev pub Session : Type 0
  Session = Option RevocationClient × W

  unfoldable pub validate_access_token : String → Exec DepsError Session (Payload C)
  validate_access_token token (client, w) =
      let (payload, w') = sdk.validate token w in
      elim payload [
        | none ↦ (raise (http (denial 403 "Could not validate credentials.")), (client, w'))
        | some p ↦ (ok p, (client, w'))
      ]

  -- what `_check_token_revocation` makes of the client's answer
  abbrev pub deny_revoked :
      Result RevocationError Bool × (RevocationClient × W) → Result DepsError (Unit {0}) × Session
  deny_revoked (ok true, (c, w)) =
      (raise (http (denial 403 "Token has been revoked.")), (some c, w))
  deny_revoked (ok false, (c, w)) = (ok tt, (some c, w))
  deny_revoked (raise e, (c, w)) =
      (raise (http (denial 503 "Token revocation check unavailable.")), (some c, w))

  unfoldable pub check_token_revocation :
      (jti user_id : String) → (bypass_cache : Bool) → Exec DepsError Session (Unit {0})
  check_token_revocation jti user_id bypass_cache (none, w) = (ok tt, (none, w))
  check_token_revocation jti user_id bypass_cache (some c, w) =
      deny_revoked (is_revoked net jti user_id bypass_cache (c, w))

  unfoldable pub check_active : UserModel R → Exec DepsError Session (UserModel R)
  check_active user =
      if not user.is_active then fail (http (denial 403 "Inactive user")) else pure user

  unfoldable pub build_active_user : Payload C → Exec DepsError Session (UserModel R)
  build_active_user payload = elim (sdk.user_model payload.sub payload.claims) [
    | none ↦ fail (uncaught other)
    | some user ↦ check_active user
  ]

  -- `_authenticate`
  unfoldable pub authenticate :
      String → (bypass_cache : Bool) → Exec DepsError Session (UserModel R)
  authenticate token bypass_cache = do
    payload ← validate_access_token token
    _ ← check_token_revocation payload.jti payload.sub bypass_cache
    build_active_user payload

  get_current_user : String → Exec DepsError Session (UserModel R)
  get_current_user token = authenticate token false

  unfoldable pub get_current_user_fresh : String → Exec DepsError Session (UserModel R)
  get_current_user_fresh token = authenticate token true

  -- `_require_role`
  unfoldable pub check_role : R → UserModel R → Exec DepsError Session (UserModel R)
  check_role role_limit user =
      if not (sdk.has_minimum_role user.role role_limit)
      then fail (http no_privileges)
      else pure user

  -- the dependency that `require_role` builds
  unfoldable pub require_role : R → String → Exec DepsError Session (UserModel R)
  require_role required_role token = do
    user ← get_current_user_fresh token
    check_role required_role user

  get_current_active_reader : String → Exec DepsError Session (UserModel R)
  get_current_active_reader = require_role sdk.reader

  get_current_active_writer : String → Exec DepsError Session (UserModel R)
  get_current_active_writer = require_role sdk.writer

  unfoldable pub get_current_active_admin : String → Exec DepsError Session (UserModel R)
  get_current_active_admin = require_role sdk.admin

  unfoldable pub check_superuser : UserModel R → Exec DepsError Session (UserModel R)
  check_superuser user =
      if not (sdk.has_superuser_privileges user.role user.is_superuser)
      then fail (http no_privileges)
      else pure user

  unfoldable pub get_current_active_superuser : String → Exec DepsError Session (UserModel R)
  get_current_active_superuser token = do user ← get_current_user_fresh token; check_superuser user
