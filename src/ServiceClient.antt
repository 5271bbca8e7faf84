-- ===== src/ServiceClient.antt =====
-- fastapi_m8/_service_client.py. The SDK's registry is a parameter: `verify` gives the credential of
-- a client that is known by its secret.
pub mod Laws
use fastapi_m.Base.{
  ℕ, String, Bool, not, Option, none, some, List, [], ◌∷◌, ◌==◌, string_eq, if◌then◌else◌, all,
}
use fastapi_m.Base.Exec.{Result, ok, raise}
use fastapi_m.Deps.{HttpException, denial}

pub record Credential : Type 0 where
  pub client_id : String
  pub has_scope : String → Bool

pub record Registry : Type 0 where
  pub verify : (client_id secret : Option String) → Option Credential

-- the argument `required_scopes`: a bare `str`, or an iterable whose elements are `none` where they
-- are no `str`
pub data RequiredScopes : Type 0 where
  bare : String → RequiredScopes
  iterable : List (Option String) → RequiredScopes

pub data ScopesError : Type 0 where
  type_error value_error : ScopesError

-- the loop over the scopes
unfoldable pub checked : List (Option String) → Result ScopesError (List String)
checked [] = ok []
checked (none ∷ rest) = raise value_error
checked (some scope ∷ rest) =
    let others = checked rest in
    if scope == ""
    then raise value_error
    else elim others [ ok scopes ↦ ok (scope ∷ scopes) | raise e ↦ raise e ]

unfoldable pub normalise_required_scopes : RequiredScopes → Result ScopesError (List String)
normalise_required_scopes (bare scope) = raise type_error
normalise_required_scopes (iterable []) = raise value_error
normalise_required_scopes (iterable (scope ∷ rest)) = checked (scope ∷ rest)

abbrev pub Guard : Type 0
Guard = (client_id secret : Option String) → Result HttpException String

-- `_service_client`, on the two headers of the request
unfoldable pub service_client : Registry → List String → Guard
service_client registry scopes client_id secret = elim (registry.verify client_id secret) [
  | none ↦ raise (denial 401 "Unauthorized")
  | some credential ↦
      if not (all credential.has_scope scopes)
      then raise (denial 403 "Forbidden")
      else ok credential.client_id
]

unfoldable pub build_service_client_guard : Registry → RequiredScopes → Result ScopesError Guard
build_service_client_guard registry required_scopes =
    elim (normalise_required_scopes required_scopes) [
      | ok scopes ↦ ok (service_client registry scopes)
      | raise e ↦ raise e
    ]
