-- ===== src/Deps.antt =====
-- fastapi_m8/_deps.py: the dependencies that `build_auth_deps` returns. What FastAPI answers for an
-- `HTTPException` is `http`; another exception goes up as it is.
pub mod Jwt
pub mod Stream
pub mod Keys
pub mod Build
pub mod Closing
use fastapi_m.Base.{ℕ, String, Option, none}
use fastapi_m.Http.{Failure}

pub record HttpException : Type 0 where
  pub status_code : ℕ
  pub detail : String
  pub retry_after : Option String

pub data DepsError : Type 0 where
  http : HttpException → DepsError
  uncaught : Failure → DepsError

-- an `HTTPException` without headers
abbrev pub denial : ℕ → String → HttpException
denial status_code detail = record {
  status_code = status_code;
  detail = detail;
  retry_after = none;
}

abbrev pub no_privileges : HttpException
no_privileges = denial 403 "The user doesn't have enough privileges"
