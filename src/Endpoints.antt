-- ===== src/Endpoints.antt =====
-- fastapi_m8/_internal_auth.py and fastapi_m8/_api_key.py: the two functions that derive an endpoint
-- from the JTI-status URL, over the code points of the URL.
pub mod Laws
use fastapi_m.Base.{
  ℕ, Bool, true, false, ◌&&◌, Option, none, some, List, [], ◌∷◌, ◌++◌, ◌==◌, nat_eq, if◌then◌else◌,
}
use fastapi_m.Http.{Url, codes}

abbrev pub is_empty : Url → Bool
is_empty [] = true
is_empty (c ∷ s) = false

-- `url.rstrip("/")`
unfoldable pub rstrip : Url → Url
rstrip [] = []
rstrip (c ∷ s) = let rest = rstrip s in if c == b'/' && is_empty rest then [] else c ∷ rest

unfoldable pub same : Url → Url → Bool
same [] [] = true
same (c ∷ s) (d ∷ t) = c == d && same s t
same _ _ = false

-- `url[: -len(suffix)]` where `url.endswith(suffix)`, for a suffix that is not empty
unfoldable pub without_suffix : Url → Url → Option Url
unfolding same
without_suffix suffix [] = none
without_suffix suffix (c ∷ s) =
    let rest = without_suffix suffix s in
    if same (c ∷ s) suffix then some [] else elim rest [ none ↦ none | some t ↦ some (c ∷ t) ]

abbrev pub jti_status_suffix : Url
jti_status_suffix = codes "/jti-status"

abbrev pub service_token_suffix : Url
service_token_suffix = codes "/service-token"

abbrev pub api_key_introspect_suffix : Url
api_key_introspect_suffix = codes "/api-keys/introspect"

-- the `if` of both functions
pub cut_suffix : Url → Url
cut_suffix url = elim (without_suffix jti_status_suffix url) [ none ↦ url | some base ↦ base ]

-- the first three lines of both functions, and the `rstrip` of the last one
pub base_url : Url → Url
base_url introspection_url = rstrip (cut_suffix (rstrip introspection_url))

pub derive_service_token_url : Url → Url
derive_service_token_url introspection_url = base_url introspection_url ++ service_token_suffix

pub derive_api_key_introspection_url : Url → Url
derive_api_key_introspection_url introspection_url =
    base_url introspection_url ++ api_key_introspect_suffix
