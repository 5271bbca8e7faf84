-- ===== src/InternalAuth/Modes.antt =====
-- fastapi_m8/_internal_auth.py, `build_internal_auth` and `describe_internal_auth_mode`: the choice of
-- the mode from the settings, and what the mode presents on a private call.
use fastapi_m.Base.{
  ℕ, eq_iff, ◌==◌, string_eq, String, ◌≡◌, ◌≢◌, Bool, true, false, not, Option, none, some, List,
  [], ◌∷◌, arith, if◌then◌else◌, Bool-cases, Option-cases, inl, inr,
}
use fastapi_m.Base.Exec.{ok}
use fastapi_m.Endpoints.{derive_service_token_url}
use fastapi_m.Config.{ConsumerServiceSettings, is_truthy, url_text, construct}
use fastapi_m.Config.Validation.{construct_iff}
use fastapi_m.InternalAuth.{
  InternalAuth, static_auth, service_auth, service_token, internal_client_header,
  internal_token_header,
}

-- `_secret_value`
abbrev secret_value : Option String → String
secret_value none = "None"
secret_value (some secret) = secret

-- `settings.SERVICE_TOKEN_SCOPES or [str(ConsumerScope.INTROSPECTION)]`; `introspection` is the SDK's
-- text of that scope
abbrev scopes_or : String → Option (List String) → List String
scopes_or introspection none = introspection ∷ []
scopes_or introspection (some []) = introspection ∷ []
scopes_or introspection (some (scope ∷ scopes)) = scope ∷ scopes

abbrev client_id_of : Option String → String
client_id_of none = ""
client_id_of (some client_id) = client_id

pub build_internal_auth : (introspection : String) → ConsumerServiceSettings → InternalAuth
build_internal_auth introspection s =
    let secret = secret_value s.private_api_secret in
    let client_id = client_id_of s.internal_client_id in
    if not (is_truthy s.internal_client_id)
    then static_auth ((internal_token_header, secret) ∷ [])
    else if s.service_token_exchange_enabled
    then service_auth (
        service_token client_id secret (derive_service_token_url (url_text s.introspection_url))
          (scopes_or introspection s.service_token_scopes) s.service_token_refresh_leeway_seconds)
    else static_auth ((internal_client_header, client_id) ∷ (internal_token_header, secret) ∷ [])

pub data Mode : Type 0 where
  legacy bootstrap service : Mode

pub describe_internal_auth_mode : ConsumerServiceSettings → Mode
describe_internal_auth_mode s =
    if not (is_truthy s.internal_client_id)
    then legacy
    else if s.service_token_exchange_enabled
    then service
    else bootstrap

-- what a provider is, read off its value: a fixed secret alone, a fixed pair, or an exchange of the
-- pair
pub data Presents (client_id secret : String) : Mode → InternalAuth → Type 0 where
  secret_alone :
      Presents client_id secret legacy (static_auth ((internal_token_header, secret) ∷ []))
  pair :
      Presents client_id secret bootstrap
        (static_auth ((internal_client_header, client_id) ∷ (internal_token_header, secret) ∷ []))
  exchanged :
      (url : List ℕ) (scopes : List String) (leeway : ℕ)
      → Presents client_id secret service
          (service_auth (service_token client_id secret url scopes leeway))

module _ (introspection client_id : String) (s : ConsumerServiceSettings) (second : ℕ)
    (supported : String → Bool) where
  truthy_name :
      s.internal_client_id ≡ some client_id → client_id ≢ "" → is_truthy s.internal_client_id ≡ true
  truthy_name named ne = ground (arith, eq_iff client_id "")

  has_secret :
      is_truthy s.internal_client_id ≡ true
      → construct second supported s ≡ ok s
      → (found : String) × (s.private_api_secret ≡ some found)
  has_secret named h =
      let kept = ((construct_iff second supported s).0 h).secret named in
      elim (Option-cases s.private_api_secret) [
        | inl gone ↦ absurd (ground arith)
        | inr found ↦ found
      ]

  Presents-with :
      (found : String)
      → s.internal_client_id ≡ some client_id
      → client_id ≢ ""
      → s.private_api_secret ≡ some found
      → Presents client_id found
          (describe_internal_auth_mode s)
          (build_internal_auth introspection s)
        × (describe_internal_auth_mode s ≢ legacy)
  unfolding describe_internal_auth_mode build_internal_auth
  Presents-with found named ne has =
      let nonempty : (client_id == "") ≡ false = ground (arith, eq_iff client_id "") in
      elim (Bool-cases s.service_token_exchange_enabled) [
        | inl on ↦ (simp (nonempty, on, named, has) (exchanged _ _ _), ground arith)
        | inr off ↦ (simp (nonempty, off, named, has) pair, ground arith)
      ]

  -- A configuration that was constructed and names an identity presents that identity with its
  -- secret, in the mode that is logged; it never falls back to the shared secret alone.
  pub build-Presents :
      s.internal_client_id ≡ some client_id
      → client_id ≢ ""
      → construct second supported s ≡ ok s
      → (found : String) × (s.private_api_secret ≡ some found)
        × Presents client_id found
            (describe_internal_auth_mode s)
            (build_internal_auth introspection s)
        × (describe_internal_auth_mode s ≢ legacy)
  build-Presents named ne h =
      let (found, has) = has_secret (truthy_name named ne) h in
      let (presents, identified) = Presents-with found named ne has in
      (found, has, presents, identified)
